-- ===== src/Buddy/Counting.antt =====
-- The bits of kernel/src/mm/buddy.rs against the free lists: a toggle goes with a block that comes or goes.
use lymad_os.Base.{
  ℕ, ◌+◌, ◌-◌, ◌/◌, ◌^◌, ◌≤◌, ◌<◌, ◌≡◌, refl, ◌∙◌, ap, sym, arith, List, [], ◌∷◌, ◌++◌, not, ◌==◌,
  ◌&&◌, if◌then◌else◌, write, ok, Bool-cases, inl, inr, ==_iff,
}
use mathlib.Core.Path.{subst}
use lymad_os.Buddy.{BuddyAllocator, max_pages, toggle_bit, get_bit_index}
use lymad_os.Buddy.Bitmap.{pair_bit, toggle_bit-Toggled}
use lymad_os.Buddy.Invariant.{page_of, pair_count, IsListed, Counts}

-- The bit of the page and the order, and no other, is flipped.
abbrev pub Flipped : (s : BuddyAllocator) (page_idx order : ℕ) (t : BuddyAllocator) → Type 0
Flipped s page_idx order t =
    (page_idx' order' : ℕ)
    → order' < 11
    → page_idx' < max_pages
    → pair_bit t page_idx' order' ≡ (
        if (order' == order) && (page_idx' / 2 ^ (order' + 1) == page_idx / 2 ^ (order' + 1))
        then 1 - pair_bit s page_idx' order'
        else pair_bit s page_idx' order')

IsListed-same :
    (s t : BuddyAllocator) (free : ℕ → List ℕ)
    → t.free_lists ≡ s.free_lists
    → t.offset ≡ s.offset
    → t.memory ≡ s.memory
    → IsListed s free
    → IsListed t free
IsListed-same s t free heads off mem v = record {
  positive = rw off v.positive;
  fits = rw off v.fits;
  lists = λ o h. rw (heads, mem) (v.lists o h);
  blocks = λ o h. rw off (v.blocks o h);
  apart = v.apart;
}

same_bit :
    (p p' order : ℕ)
    → p' / 2 ^ (order + 1) ≡ p / 2 ^ (order + 1)
    → get_bit_index p' order ≡ get_bit_index p order
unfolding get_bit_index
same_bit p p' order e = rw e refl

pub pair_bit-digit : (s : BuddyAllocator) (p order : ℕ) → pair_bit s p order ≤ 1
pair_bit-digit s p order = omega arith

-- The toggle of a page's bit, for the invariant.
pub toggle_bit-Flipped :
    (s : BuddyAllocator) (page_idx order : ℕ) (free : ℕ → List ℕ)
    → IsListed s free
    → page_idx < max_pages
    → order < 11
    → (t : BuddyAllocator) × (toggle_bit s page_idx order
        ≡ ok (not (pair_bit s page_idx order == 1), t))
      × IsListed t free
      × Flipped s page_idx order t
      × (t.offset ≡ s.offset)
toggle_bit-Flipped s p order free v hp ho =
    let (t, e, g) = toggle_bit-Toggled s p order hp ho in
    let result : not (pair_bit t p order == 0) ≡ not (pair_bit s p order == 1) =
      ground (arith, g.flipped, pair_bit-digit s p order) in
    (
      t,
      e ∙ ap (λ b. ok (b, t)) result,
      IsListed-same s t free g.free_lists g.offset g.memory v,
      λ p' o' h hp'. elim (Bool-cases (o' == order)) [
        | inl at ↦
            let same = (==_iff o' order).0 at in
            subst
              (λ (o : ℕ). pair_bit t p' o ≡ (
                if (o == order) && (p' / 2 ^ (o + 1) == p / 2 ^ (o + 1))
                then 1 - pair_bit s p' o
                else pair_bit s p' o))
              (sym same)
              (elim (Bool-cases (p' / 2 ^ (order + 1) == p / 2 ^ (order + 1))) [
                | inl eq ↦ ground (arith, g.flipped, same_bit p p' order)
                | inr ne ↦ ground (arith, g.same_order p' hp')
              ])
        | inr ne ↦ ground (arith, g.others p' o' hp' h)
      ],
      g.offset,
    )

pub pair_count-append :
    (base order p : ℕ) (us vs : List ℕ)
    → pair_count base order p (us ++ vs) ≡ pair_count base order p us + pair_count base order p vs
pair_count-append base order p [] vs = omega arith
pair_count-append base order p (u ∷ us) vs = omega (arith, pair_count-append base order p us vs)

module _ (s u : BuddyAllocator) (free : ℕ → List ℕ) (xs : List ℕ) (counts : Counts s free)
    (off : u.offset ≡ s.offset) where
  -- The largest order has no bits.
  pub Counts-top : u.bitmap ≡ s.bitmap → Counts u (write free 11 xs)
  Counts-top bm o p h hp =
      let other : write free 11 xs o ≡ free o = ground arith in
      rw (other, bm, off) (counts o p h hp)

  module _ (page_idx order : ℕ) (flip : Flipped s page_idx order u) where
    -- The counts of the pair go the way the bit does, and the others stay.
    Counts-flipped :
        ((p : ℕ)
          → p < max_pages
          → pair_count s.offset order p xs ≡ (
              if p / 2 ^ (order + 1) == page_idx / 2 ^ (order + 1)
              then 1 - pair_count s.offset order p (free order)
              else pair_count s.offset order p (free order)))
        → Counts u (write free order xs)
    Counts-flipped h o p ho hp = elim (Bool-cases (o == order)) [
      | inl at ↦
          let same = (==_iff o order).0 at in
          subst
            (λ (k : ℕ). k < 11 → pair_bit u p k ≡ pair_count u.offset k p (write free order xs k))
            (sym same)
            (λ hk.
              let own : write free order xs order ≡ xs = ground arith in
              rw (own, off) (ground (arith, h p hp, flip p order hk hp, counts order p hk hp)))
            ho
      | inr ne ↦
          let other : write free order xs o ≡ free o = ground arith in
          rw (other, off) (ground (arith, flip p o ho hp, counts o p ho hp))
    ]

    pub Counts-added :
        (x : ℕ)
        → xs ≡ x ∷ free order
        → order < 11
        → page_idx < max_pages
        → page_of s.offset x / 2 ^ (order + 1) ≡ page_idx / 2 ^ (order + 1)
        → pair_bit s page_idx order ≡ 0
        → Counts u (write free order xs)
    Counts-added x e ho hp pair zeroed = Counts-flipped (λ p hp'.
        rw e (elim (Bool-cases (p / 2 ^ (order + 1) == page_idx / 2 ^ (order + 1))) [
          | inl at ↦
              ground (
                arith,
                counts order p ho hp',
                counts order page_idx ho hp,
                same_bit page_idx p order,
              )
          | inr ne ↦ ground arith
        ]))

    pub Counts-removed :
        (x : ℕ) (us vs : List ℕ)
        → xs ≡ us ++ vs
        → free order ≡ us ++ x ∷ vs
        → order < 11
        → page_of s.offset x / 2 ^ (order + 1) ≡ page_idx / 2 ^ (order + 1)
        → Counts u (write free order xs)
    Counts-removed x us vs e split ho pair = Counts-flipped (λ p hp'.
        let old = pair_count-append s.offset order p us (x ∷ vs) in
        let new = pair_count-append s.offset order p us vs in
        let digit = pair_bit-digit s p order in
        let count = counts order p ho hp' in
        rw (e, split)
          (ground (arith, old, new, digit, ap (pair_count s.offset order p) split, count)))
