-- ===== src/Buddy/Alloc.antt =====
-- `alloc` of kernel/src/mm/buddy.rs against the set of free addresses.
use lymad_os.Base.{
  ℕ, zero, suc, ◌+◌, ◌-◌, ◌*◌, ◌/◌, ◌^◌, ◌≤◌, ◌<◌, ◌≡◌, ◌⊎◌, refl, ◌∙◌, ap, sym, arith, List, [],
  ◌∷◌, ltb, ◌==◌, word, sub64, Bool-cases, ==_iff, inl, inr, write, Outcome, ok, Option, none, some,
  Array,
}
use mathlib.Core.Path.{subst}
use lymad_os.Memory.{page_size}
use lymad_os.Buddy.{
  FreeFrame, BuddyAllocator, max_order, max_pages, calculate_buddy_address, push_free, remove_frame,
  page_index, toggle_below, alloc_from, alloc,
}
use lymad_os.Buddy.FreeLists.{Linked}
use lymad_os.Buddy.Blocks.{block_holds, free_cover, IsBlock, All}
use lymad_os.Buddy.Invariant.{
  page_of, pair_count, IsListed, Counts, IsValid, push_free-Relisted, remove_frame-Relisted,
}
use lymad_os.Buddy.Counting.{Flipped, toggle_bit-Flipped, Counts-top, Counts-added, Counts-removed}
use lymad_os.Buddy.Halves.{IsBlock-smaller, calculate_buddy_address-IsSplit}

pub page_index_lem :
    (s : BuddyAllocator) (order x base : ℕ)
    → s.offset ≡ base
    → s.offset + max_pages * page_size < word
    → IsBlock base order x
    → (page_index s x ≡ page_of base x) × (page_of base x < max_pages)
page_index_lem s order x base off fits b =
    let low = b.low in
    let high = b.high in
    let rel : sub64 x s.offset ≡ x - base = omega arith in
    (ap (λ (n : ℕ). n / page_size) rel, omega arith)

pub Flipped-same :
    (s t u v : BuddyAllocator) (p order : ℕ)
    → t.bitmap ≡ s.bitmap
    → v.bitmap ≡ u.bitmap
    → Flipped t p order u
    → Flipped s p order v
Flipped-same s t u v p order bm bm' f = rw (sym bm, bm') f

-- What a toggle below the largest order does to the bits.
abbrev pub BitsBelow : (s : BuddyAllocator) (page_idx order : ℕ) (u : BuddyAllocator) → Type 0
BitsBelow s page_idx order u =
    ((order < 11) × Flipped s page_idx order u) ⊎ ((order ≡ 11) × (u.bitmap ≡ s.bitmap))

toggle_below_lem :
    (s : BuddyAllocator) (free : ℕ → List ℕ) (x order base : ℕ)
    → s.offset ≡ base
    → IsListed s free
    → order < max_order
    → IsBlock base order x
    → (u : BuddyAllocator) × (toggle_below s x order ≡ ok u)
      × IsListed u free
      × (u.offset ≡ base)
      × BitsBelow s (page_of base x) order u
toggle_below_lem s free x order base off v h b =
    let (index, inside) = page_index_lem s order x base off v.fits b in
    elim (Bool-cases (ltb order 11)) [
      | inl lt ↦
          let (u, e, l, f, off') =
            toggle_bit-Flipped s (page_of base x) order free v inside (ground arith) in
          (u, rw (lt, index, e) refl, l, off' ∙ off, inl (ground arith, f))
      | inr ge ↦ (s, rw ge refl, v, off, inr (ground arith, refl))
    ]

Counts-taken :
    (s t u : BuddyAllocator) (free : ℕ → List ℕ) (x order : ℕ) (vs : List ℕ)
    → Counts s free
    → t.bitmap ≡ s.bitmap
    → u.offset ≡ s.offset
    → BitsBelow t (page_of s.offset x) order u
    → free order ≡ x ∷ vs
    → Counts u (write free order vs)
Counts-taken s t u free x order vs c bm off (inl f) e =
    Counts-removed s u free vs c off (page_of s.offset x) order
      (Flipped-same s t u u (page_of s.offset x) order bm refl f.1) x [] vs refl e f.0 refl
Counts-taken s t u free x order vs c bm off (inr f) e =
    subst (λ (k : ℕ). Counts u (write free k vs)) (sym f.0)
      (Counts-top s u free vs c off (f.1 ∙ bm))

-- A free block of the order has been taken, and nothing below the order has changed.
pub record Taken (s : BuddyAllocator) (free : ℕ → List ℕ) (order p : ℕ) (t : BuddyAllocator)
    (free' : ℕ → List ℕ) : Type 0 where
  pub small : order < max_order
  pub valid : IsValid t free'
  pub offset : t.offset ≡ s.offset
  pub block : IsBlock s.offset order p
  pub cover : (a : ℕ) → free_cover free' a + block_holds order a p ≡ free_cover free a
  pub below : (order' : ℕ) → order' < order → free' order' ≡ free order'

take_head :
    (s : BuddyAllocator) (free : ℕ → List ℕ) (order x : ℕ) (vs : List ℕ)
    → IsValid s free
    → order < max_order
    → free order ≡ x ∷ vs
    → (t : BuddyAllocator) × (u : BuddyAllocator) × (remove_frame s x order ≡ ok t)
      × (toggle_below t x order ≡ ok u)
      × Taken s free order x u (write free order vs)
take_head s free order x vs v h e =
    let blocks : All (IsBlock s.offset order) (x ∷ vs) = rw e at (v.listed.blocks order h) in
    let (t, run, r, covered) = remove_frame-Relisted v.listed order h x [] vs e in
    let (u, run', l, off, bits) =
      toggle_below_lem t (write free order vs) x order s.offset r.offset r.listed h blocks.0 in
    (
      t,
      u,
      run,
      run',
      record {
        small = h;
        valid = record {
          listed = l;
          counts = Counts-taken s t u free x order vs v.counts r.bitmap off bits e;
        };
        offset = off;
        block = blocks.0;
        cover = covered;
        below = λ o lt. ground arith;
      },
    )

Counts-split :
    (s t u : BuddyAllocator) (free : ℕ → List ℕ) (x page_idx order : ℕ)
    → Counts s free
    → BitsBelow s page_idx order t
    → u.bitmap ≡ t.bitmap
    → u.offset ≡ s.offset
    → order < 11
    → page_idx < max_pages
    → free order ≡ []
    → page_of s.offset x / 2 ^ (order + 1) ≡ page_idx / 2 ^ (order + 1)
    → Counts u (write free order (x ∷ free order))
Counts-split s t u free x p order c (inl f) bm off h hp e pair =
    Counts-added s u free (x ∷ free order) c off p order (Flipped-same s s t u p order refl bm f.1)
      x refl h hp pair (c order p h hp ∙ ap (pair_count s.offset order p) e)
Counts-split s t u free x p order c (inr f) bm off h hp e pair = absurd (ground (arith, f.0))

-- The upper half of a block becomes free again.
split :
    (s : BuddyAllocator) (free : ℕ → List ℕ) (order ptr : ℕ)
    → IsValid s free
    → order < 11
    → free order ≡ []
    → IsBlock s.offset (suc order) ptr
    → ((a : ℕ) → free_cover free a + block_holds (suc order) a ptr ≤ 1)
    → let buddy = calculate_buddy_address s ptr order in
      (t : BuddyAllocator) × (u : BuddyAllocator) × (toggle_below s ptr order ≡ ok t)
      × (push_free t buddy order ≡ ok u)
      × IsValid u (write free order (buddy ∷ free order))
      × (u.offset ≡ s.offset)
      × ((a : ℕ)
          → free_cover (write free order (buddy ∷ free order)) a + block_holds order a ptr
            ≡ free_cover free a + block_holds (suc order) a ptr)
split s free order ptr v h none_free whole room =
    let block = IsBlock-smaller s.offset order ptr h whole in
    let buddy = calculate_buddy_address s ptr order in
    let half = calculate_buddy_address-IsSplit s ptr order h v.listed.fits block in
    let upper = half.upper whole.aligned in
    let halves : (a : ℕ)
        → block_holds order a ptr + block_holds order a buddy ≡ block_holds (suc order) a ptr =
      λ a. half.halves a ∙ ap (block_holds (suc order) a) (ground arith) in
    let (t, run, l, off, bits) =
      toggle_below_lem s free ptr order s.offset refl v.listed (omega arith) block in
    let (u, run', r, covered) =
      push_free-Relisted l order (omega arith) buddy (rw off half.block)
        (λ a. omega (arith, halves a, room a)) in
    (
      t,
      u,
      run,
      run',
      record {
        listed = r.listed;
        counts =
            Counts-split s t u free buddy (page_of s.offset ptr) order v.counts bits r.bitmap
              (r.offset ∙ off) h (page_index_lem s order ptr s.offset refl v.listed.fits block).1
              none_free half.pair;
      },
      r.offset ∙ off,
      λ a. omega (arith, covered a, halves a),
    )

take_split :
    (s t : BuddyAllocator) (free free' : ℕ → List ℕ) (order p : ℕ)
    → Taken s free (suc order) p t free'
    → IsValid s free
    → free order ≡ []
    → let buddy = calculate_buddy_address t p order in
      (u : BuddyAllocator) × (w : BuddyAllocator) × (toggle_below t p order ≡ ok u)
      × (push_free u buddy order ≡ ok w)
      × Taken s free order p w (write free' order (buddy ∷ free' order))
take_split s t free free' order p taken v e =
    let small : order < 11 = omega (arith, taken.small) in
    let empty : free' order ≡ [] = taken.below order (omega arith) ∙ e in
    let (u, w, run, run', valid, off, covered) =
      split t free' order p taken.valid small empty (rw taken.offset taken.block)
        (λ a. omega (arith, taken.cover a, v.listed.apart a)) in
    (
      u,
      w,
      run,
      run',
      record {
        small = omega arith;
        valid = valid;
        offset = off ∙ taken.offset;
        block = IsBlock-smaller s.offset order p small taken.block;
        cover = λ a. covered a ∙ taken.cover a;
        below = λ o lt. ground (arith, taken.below o);
      },
    )

head_cases :
    (m : Array FreeFrame) (prev head : Option ℕ) (xs : List ℕ)
    → Linked m prev head xs
    → ((head ≡ none) × (xs ≡ [])) ⊎ ((x : ℕ) × (vs : List ℕ) × (head ≡ some x) × (xs ≡ x ∷ vs))
head_cases m prev head [] l = inl (l, refl)
head_cases m prev head (x ∷ xs) l = inr (x, xs, l.0, refl)

-- What an allocation comes to: no free block of the order or larger, or a block is taken.
abbrev pub Allocates :
    BuddyAllocator → (ℕ → List ℕ) → (order : ℕ) → Outcome (Option ℕ × BuddyAllocator) → Type 0
Allocates s free order r =
    ((r ≡ ok (none, s)) × ((order' : ℕ) → order ≤ order' → order' < max_order → free order' ≡ []))
    ⊎ ((p : ℕ) × (t : BuddyAllocator) × (free' : ℕ → List ℕ) × (r ≡ ok (some p, t))
        × Taken s free order p t free')

-- The runs of `alloc_from`.
module _ (n order : ℕ) (s : BuddyAllocator) where
  alloc_from-head :
      (x : ℕ) (t u : BuddyAllocator)
      → s.free_lists order ≡ some x
      → remove_frame s x order ≡ ok t
      → toggle_below t x order ≡ ok u
      → alloc_from (suc n) order s ≡ ok (some x, u)
  unfolding alloc_from
  alloc_from-head x t u e run run' = cc (e, run, run')

  alloc_from-none :
      s.free_lists order ≡ none
      → alloc_from n (order + 1) s ≡ ok (none, s)
      → alloc_from (suc n) order s ≡ ok (none, s)
  unfolding alloc_from
  alloc_from-none e run = ground arith

  alloc_from-split :
      (x : ℕ) (t u w : BuddyAllocator)
      → s.free_lists order ≡ none
      → alloc_from n (order + 1) s ≡ ok (some x, t)
      → toggle_below t x order ≡ ok u
      → push_free u (calculate_buddy_address t x order) order ≡ ok w
      → alloc_from (suc n) order s ≡ ok (some x, w)
  unfolding alloc_from
  alloc_from-split x t u w e run run' run'' = cc (e, run, run', run'')

alloc_from-Allocates :
    (n order : ℕ) (s : BuddyAllocator) (free : ℕ → List ℕ)
    → IsValid s free
    → order + n ≡ max_order
    → Allocates s free order (alloc_from n order s)
unfolding alloc_from
alloc_from-Allocates zero order s free v h = inl (refl, λ o lt lt'. absurd (omega arith))
alloc_from-Allocates (suc n) order s free v h =
    let next : suc order ≡ order + 1 = omega arith in
    let rest : Allocates s free (suc order) (alloc_from n (order + 1) s) =
      subst (λ (k : ℕ). Allocates s free (suc order) (alloc_from n k s)) next
        (alloc_from-Allocates n (suc order) s free v (omega arith)) in
    elim (head_cases s.memory none (s.free_lists order) (free order)
      (v.listed.lists order (omega arith))) [
        | inr (x, vs, head, e) ↦
            let (t, u, run, run', taken) = take_head s free order x vs v (omega arith) e in
            inr (x, u, write free order vs, alloc_from-head n order s x t u head run run', taken)
        | inl (head, e) ↦ elim rest [
          | inl (run, empty) ↦ inl (
            alloc_from-none n order s head run,
            λ o le lt. elim (Bool-cases (order == o)) [
              | inl eq ↦ subst (λ (k : ℕ). free k ≡ []) ((==_iff order o).0 eq) e
              | inr ne ↦ empty o (ground arith) lt
            ],
          )
          | inr (p, t, free', run, taken) ↦
              let (u, w, run', run'', taken') = take_split s t free free' order p taken v e in
              inr (p, w, _, alloc_from-split n order s p t u w head run run' run'', taken')
        ]
      ]

-- With free lists that the invariant holds of, alloc never panics. Either it changes nothing and gives
-- no block, and then no block of the order or of a larger one is free. Or it gives a block of the order among
-- the managed pages that was free: the invariant holds of the new lists, and of every address the number
-- of free blocks that hold it goes down by what the block holds.
pub alloc-Allocates :
    (s : BuddyAllocator) (free : ℕ → List ℕ) (order : ℕ)
    → IsValid s free
    → Allocates s free order (alloc s order)
unfolding alloc alloc_from
alloc-Allocates s free order v = elim (Bool-cases (ltb order max_order)) [
  | inl lt ↦ alloc_from-Allocates (max_order - order) order s free v (ground arith)
  | inr ge ↦
      let none_left : max_order - order ≡ 0 = ground arith in
      inl (ap (λ n. alloc_from n order s) none_left, λ o le lt. absurd (ground arith))
]
