-- ===== src/Buddy/Dealloc.antt =====
-- `dealloc` and `add_frame` of kernel/src/mm/buddy.rs against the set of free addresses.
use lymad_os.Base.{
  ℕ, zero, suc, ◌+◌, ◌-◌, ◌*◌, ◌/◌, ◌^◌, ◌≤◌, ◌<◌, ◌≡◌, ◌≢◌, refl, ◌∙◌, ap, sym, arith, List, [],
  ◌∷◌, ◌++◌, ltb, ◌==◌, if◌then◌else◌, word, Bool-cases, inl, inr, write, ok, true, false, not,
  Bool,
}
use mathlib.Core.Path.{subst}
use lymad_os.Memory.{page_size}
use lymad_os.Buddy.{
  BuddyAllocator, max_order, max_pages, calculate_buddy_address, push_free, remove_frame,
  page_index, toggle_bit, unmanaged, dealloc_from, dealloc,
}
use lymad_os.Buddy.Bitmap.{pair_bit}
use lymad_os.Buddy.Blocks.{
  block_holds, cover, free_cover, free_cover-le, cover-append, IsBlock, All-append, holds_self,
}
use lymad_os.Buddy.Invariant.{
  page_of, pair_count, Counts, IsValid, push_free-Relisted, remove_frame-Relisted,
}
use lymad_os.Buddy.Counting.{
  toggle_bit-Flipped, pair_bit-digit, Counts-top, Counts-added, Counts-removed,
}
use lymad_os.Buddy.Halves.{calculate_buddy_address-IsSplit}
use lymad_os.Buddy.Alloc.{page_index_lem, Flipped-same}

-- A block of the pair, where the count says that there is one.
find_pair :
    (base order p : ℕ) (xs : List ℕ)
    → 0 < pair_count base order p xs
    → (us : List ℕ) × (y : ℕ) × (vs : List ℕ) × (xs ≡ us ++ y ∷ vs)
      × (page_of base y / 2 ^ (order + 1) ≡ p / 2 ^ (order + 1))
find_pair base order p [] h = elim h [ ]
find_pair base order p (x ∷ xs) h =
    elim (Bool-cases (page_of base x / 2 ^ (order + 1) == p / 2 ^ (order + 1))) [
      | inl at ↦ ([], x, xs, refl, ground arith)
      | inr ne ↦
          let (us, y, vs, e, pair) = find_pair base order p xs (ground arith) in
          (x ∷ us, y, vs, ap (λ l. x ∷ l) e, pair)
    ]

toggled_run :
    (s t : BuddyAllocator) (p p' order : ℕ) (b : Bool)
    → p' ≡ p
    → toggle_bit s p order ≡ ok (not (pair_bit s p order == 1), t)
    → not (pair_bit s p order == 1) ≡ b
    → toggle_bit s p' order ≡ ok (b, t)
toggled_run s t p p' order b e run e' = rw e (run ∙ ap (λ c. ok (c, t)) e')

-- A block has become free.
pub record Freed (s : BuddyAllocator) (free : ℕ → List ℕ) (order ptr : ℕ) (t : BuddyAllocator)
    (free' : ℕ → List ℕ) : Type 0 where
  pub valid : IsValid t free'
  pub offset : t.offset ≡ s.offset
  pub cover : (a : ℕ) → free_cover free' a ≡ free_cover free a + block_holds order a ptr

module _ (s : BuddyAllocator) (free : ℕ → List ℕ) (order ptr : ℕ) (v : IsValid s free)
    (block : IsBlock s.offset order ptr)
    (room : (a : ℕ) → free_cover free a + block_holds order a ptr ≤ 1) where
  free_top :
      order ≡ 11
      → (t : BuddyAllocator) × (push_free s ptr order ≡ ok t)
        × Freed s free order ptr t (write free order (ptr ∷ free order))
  free_top e =
      let (t, run, r, covered) = push_free-Relisted v.listed order (omega arith) ptr block room in
      (
        t,
        run,
        record {
          valid = record {
            listed = r.listed;
            counts =
                subst (λ (k : ℕ). Counts t (write free k (ptr ∷ free order))) (sym e)
                  (Counts-top s t free (ptr ∷ free order) v.counts r.offset r.bitmap);
          };
          offset = r.offset;
          cover = covered;
        },
      )

  module _ (small : order < 11) where
    -- The other of the pair is not free.
    free_alone :
        pair_bit s (page_of s.offset ptr) order ≡ 0
        → (t : BuddyAllocator) × (u : BuddyAllocator) × (toggle_bit s (page_index s ptr) order
            ≡ ok (true, t))
          × (push_free t ptr order ≡ ok u)
          × Freed s free order ptr u (write free order (ptr ∷ free order))
    free_alone bit =
        let p = page_of s.offset ptr in
        let (index, inside) = page_index_lem s order ptr s.offset refl v.listed.fits block in
        let (t, run, l, f, off) = toggle_bit-Flipped s p order free v.listed inside small in
        let (u, run', r, covered) =
          push_free-Relisted l order (omega arith) ptr (rw off block) room in
        (
          t,
          u,
          toggled_run s t p (page_index s ptr) order true index run (ground (arith, bit)),
          run',
          record {
            valid = record {
              listed = r.listed;
              counts =
                  Counts-added s u free (ptr ∷ free order) v.counts (r.offset ∙ off) p order
                    (Flipped-same s s t u p order refl r.bitmap f) ptr refl small inside refl bit;
            };
            offset = r.offset ∙ off;
            cover = covered;
          },
        )

    -- The other of the pair is free.
    free_merged :
        pair_bit s (page_of s.offset ptr) order ≡ 1
        → (t : BuddyAllocator) × (u : BuddyAllocator) × (free' : ℕ → List ℕ) × let buddy =
              calculate_buddy_address t ptr order in
            let merged = if ltb ptr buddy then ptr else buddy in
            (toggle_bit s (page_index s ptr) order ≡ ok (false, t))
            × (remove_frame t buddy order ≡ ok u)
            × IsValid u free'
            × (u.offset ≡ s.offset)
            × IsBlock s.offset (suc order) merged
            × ((a : ℕ)
                → free_cover free' a + block_holds (suc order) a merged
                  ≡ free_cover free a + block_holds order a ptr)
    free_merged bit =
        let p = page_of s.offset ptr in
        let (index, inside) = page_index_lem s order ptr s.offset refl v.listed.fits block in
        let (t, run, l, f, off) = toggle_bit-Flipped s p order free v.listed inside small in
        let (us, y, vs, e, pair) =
          find_pair s.offset order p (free order) (omega (arith, v.counts order p small inside)) in
        let yb =
          (All-append (IsBlock s.offset order) us (y ∷ vs)
            (rw e at (v.listed.blocks order (omega arith)))).1.0 in
        let half =
          rw off at (calculate_buddy_address-IsSplit t ptr order small l.fits (rw off block)) in
        let differs : ptr ≢ y = λ same. absurd (
          omega (
            arith,
            ap (cover order ptr) e,
            cover-append order ptr us (y ∷ vs),
            holds_self order ptr,
            ap (block_holds order ptr) same,
            free_cover-le order ptr free (omega arith),
            room ptr,
          )) in
        let found : y ≡ calculate_buddy_address t ptr order = half.only y yb pair differs in
        let (u, run', r, covered) = remove_frame-Relisted l order (omega arith) y us vs e in
        (
          t,
          u,
          write free order (us ++ vs),
          (
            toggled_run s t p (page_index s ptr) order false index run (ground (arith, bit)),
            subst (λ (a : ℕ). remove_frame t a order ≡ ok u) found run',
            record {
              listed = r.listed;
              counts =
                  Counts-removed s u free (us ++ vs) v.counts (r.offset ∙ off) p order
                    (Flipped-same s s t u p order refl r.bitmap f) y us vs refl e small pair;
            },
            r.offset ∙ off,
            half.whole,
            λ a. omega (arith, covered a, half.halves a, ap (block_holds order a) found),
          ),
        )

managed :
    (s : BuddyAllocator) (ptr order base : ℕ)
    → s.offset ≡ base
    → s.offset + max_pages * page_size < word
    → IsBlock base order ptr
    → unmanaged s ptr ≡ false
managed s ptr order base off fits b = let low = b.low in let high = b.high in ground arith

-- The runs of `dealloc_from`.
module _ (n ptr order : ℕ) (s : BuddyAllocator) where
  dealloc_from-top : unmanaged s ptr ≡ false → dealloc_from 0 ptr order s ≡ push_free s ptr order
  unfolding dealloc_from
  dealloc_from-top e = ground arith

  dealloc_from-alone :
      (t : BuddyAllocator)
      → unmanaged s ptr ≡ false
      → toggle_bit s (page_index s ptr) order ≡ ok (true, t)
      → dealloc_from (suc n) ptr order s ≡ push_free t ptr order
  unfolding dealloc_from
  dealloc_from-alone t e run = cc (e, run)

  dealloc_from-merged :
      (t u : BuddyAllocator)
      → let buddy = calculate_buddy_address t ptr order in
        unmanaged s ptr ≡ false
        → toggle_bit s (page_index s ptr) order ≡ ok (false, t)
        → remove_frame t buddy order ≡ ok u
        → dealloc_from (suc n) ptr order s
          ≡ dealloc_from n (if ltb ptr buddy then ptr else buddy) (suc order) u
  unfolding dealloc_from
  dealloc_from-merged t u e run run' =
      let next : order + 1 ≡ suc order = omega arith in rw (sym next) (cc (e, run, run'))

dealloc_from-Freed :
    (n order ptr : ℕ) (s : BuddyAllocator) (free : ℕ → List ℕ)
    → IsValid s free
    → IsBlock s.offset order ptr
    → ((a : ℕ) → free_cover free a + block_holds order a ptr ≤ 1)
    → order + n ≡ 11
    → (t : BuddyAllocator) × (free' : ℕ → List ℕ) × (dealloc_from n ptr order s ≡ ok t)
      × Freed s free order ptr t free'
dealloc_from-Freed zero order ptr s free v b room h =
    let (t, run, freed) = free_top s free order ptr v b room (omega arith) in
    (
      t,
      write free order (ptr ∷ free order),
      dealloc_from-top 0 ptr order s (managed s ptr order s.offset refl v.listed.fits b) ∙ run,
      freed,
    )
dealloc_from-Freed (suc n) order ptr s free v b room h =
    let small : order < 11 = omega arith in
    let inside = managed s ptr order s.offset refl v.listed.fits b in
    elim (Bool-cases (pair_bit s (page_of s.offset ptr) order == 1)) [
      | inl one ↦
          let (t, u, free', (run, run', valid, off, whole, covered)) =
            free_merged s free order ptr v b room small (ground (arith, one)) in
          let (w, free'', run'', freed) =
            dealloc_from-Freed n (suc order) _ u free' valid (rw off whole)
              (λ a. omega (arith, covered a, room a)) (omega arith) in
          (
            w,
            free'',
            dealloc_from-merged n ptr order s t u inside run run' ∙ run'',
            record {
              valid = freed.valid;
              offset = freed.offset ∙ off;
              cover = λ a. freed.cover a ∙ covered a;
            },
          )
      | inr zeroed ↦
          let (t, u, run, run', freed) =
            free_alone s free order ptr v b room small
              (ground (arith, pair_bit-digit s (page_of s.offset ptr) order)) in
          (
            u,
            write free order (ptr ∷ free order),
            dealloc_from-alone n ptr order s t inside run ∙ run',
            freed,
          )
    ]

-- When a block among the managed pages that overlaps no free block is given back, dealloc does not panic,
-- whatever it merges: the invariant holds of the new free lists, and of every address the number of free
-- blocks that hold it goes up by what the block holds.
pub dealloc-Freed :
    (s : BuddyAllocator) (free : ℕ → List ℕ) (ptr order : ℕ)
    → order < max_order
    → IsValid s free
    → IsBlock s.offset order ptr
    → ((a : ℕ) → free_cover free a + block_holds order a ptr ≤ 1)
    → (t : BuddyAllocator) × (free' : ℕ → List ℕ) × (dealloc s ptr order ≡ ok t)
      × Freed s free order ptr t free'
unfolding dealloc
dealloc-Freed s free ptr order h v b room =
    dealloc_from-Freed (max_order - 1 - order) order ptr s free v b room (omega arith)
