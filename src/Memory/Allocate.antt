-- ===== src/Memory/Allocate.antt =====
-- `allocate_contiguous_aligned` of kernel/src/mm/memory.rs: what a served request takes, and when a
-- request is refused.
use lymad_os.Base.{
  ℕ, zero, suc, ◌+◌, ◌-◌, ◌*◌, ◌%◌, ◌^◌, ◌≤◌, ◌<◌, ◌≡◌, ◌∙◌, ap, ◌&&◌, Bool, true, false, Option,
  none, some, arith, ltb, leb, ◌==◌, add64, mul64, Outcome, ok, get_elem?, Bool-cases, inl, inr,
  ==_iff,
}
use mathlib.Core.Path.{subst, subst₂, sym}
use lymad_os.Bits.Mask.{IsAlignment, align_up, align_up_lem, align_up-least, mod-zero_trans}
use lymad_os.Memory.{
  range, BootInfoFrameAllocator, page_size, max_ranges, count_if, carve, alloc_from,
  allocate_contiguous_aligned,
}
use lymad_os.Memory.Ranges.{holds, cover}
use lymad_os.Memory.Ranges.Delete.{Chain-get_elem, All-get_elem}
use lymad_os.Memory.Arrays.{active, get_elem?-window}
use lymad_os.Memory.Invariant.{phys_limit, IsPageRange, IsValid}
use lymad_os.Memory.Carve.{carve_lem, cover-remains, bytes-remains, Chain-remains, All-remains}

-- The block `[p, p + size)` has gone from the free ranges of `s`.
pub record Allocated (s : BootInfoFrameAllocator) (alignment size p : ℕ)
    (t : BootInfoFrameAllocator) : Type 0 where
  pub aligned : p % alignment ≡ 0
  pub taken : (a : ℕ) → cover a (active t) + holds a (range p (p + size)) ≡ cover a (active s)
  pub counted : t.allocated_bytes ≡ s.allocated_bytes + size
  pub valid : IsValid t

-- An aligned block of the size lies in range `k`.
abbrev pub Fits : BootInfoFrameAllocator → ℕ → ℕ → ℕ → Type 0
Fits s alignment size k =
    (p : ℕ) × (p % alignment ≡ 0)
    × ((s.free_ranges k).start ≤ p)
    × (p + size ≤ (s.free_ranges k).end)

pub data Served (s : BootInfoFrameAllocator) (alignment size lo hi : ℕ)
    : Outcome (Option ℕ × BootInfoFrameAllocator) → Type 0 where
  served :
      {p : ℕ} {t : BootInfoFrameAllocator}
      → Allocated s alignment size p t
      → Served s alignment size lo hi (ok (some p, t))
  refused :
      ((k : ℕ) → lo ≤ k → k < hi → s.range_count < max_ranges → ¬ Fits s alignment size k)
      → Served s alignment size lo hi (ok (none, s))

-- What the tests of the loop say.
room_for_pieces :
    (b c : Bool) (n : ℕ)
    → n ≤ max_ranges
    → (ltb 1 (count_if b + count_if c) && leb max_ranges n) ≡ false
    → n - 1 + (count_if b + count_if c) ≤ max_ranges
room_for_pieces true true n h e = ground arith
room_for_pieces true false n h e = ground arith
room_for_pieces false true n h e = ground arith
room_for_pieces false false n h e = ground arith

full : (m n : ℕ) → (ltb 1 m && leb max_ranges n) ≡ true → max_ranges ≤ n
full m n e = ground arith

fits : (a b c d : ℕ) → (leb a b && leb c d) ≡ true → c ≤ d
fits a b c d e = ground arith

fits_not : (a b c d : ℕ) → a ≤ b → (leb a b && leb c d) ≡ false → d < c
fits_not a b c d h e = ground arith

module _ {s : BootInfoFrameAllocator} (v : IsValid s) {alignment : ℕ} (al : IsAlignment alignment)
    (on_page : alignment % page_size ≡ 0) (align_fits : alignment ≤ phys_limit) {size : ℕ}
    (pages : size % page_size ≡ 0) (size_pos : 0 < size) (size_fits : size ≤ phys_limit) where
  -- What the invariant says of range `k`.
  range_facts :
      (k : ℕ)
      → k < s.range_count
      → (get_elem? (active s) k ≡ some (s.free_ranges k))
        × IsPageRange (s.free_ranges k)
        × ((s.free_ranges k).start < (s.free_ranges k).end)
  range_facts k h =
      let at : get_elem? (active s) k ≡ some (s.free_ranges k) =
        get_elem?-window s.free_ranges 0 s.range_count k h
        ∙ ap (λ i. some (s.free_ranges i)) (let e : 0 + k ≡ k = omega arith in e) in
      (
        at,
        All-get_elem IsPageRange k (active s) v.pages at,
        (Chain-get_elem 0 k (active s) v.chain at).1,
      )

  module _ (k : ℕ) (h : k < s.range_count) where
    open s use {free_ranges as a}

    -- The sums of the code do not wrap.
    from_facts :
        let from = align_up (a k).start alignment in
        ((a k).start ≤ from)
        × (add64 from size ≡ from + size)
        × (from % alignment ≡ 0)
        × (from % page_size ≡ 0)
    from_facts =
        let (at, page, nonempty) = range_facts k h in
        let up = align_up_lem al (a k).start (omega arith) in
        (up.0, omega arith, up.2, mod-zero_trans page_size alignment _ on_page up.2)

    -- No aligned address of range `k` is below the one that the code takes.
    least : (p : ℕ) → p % alignment ≡ 0 → (a k).start ≤ p → align_up (a k).start alignment ≤ p
    least p aligned above =
        let (at, page, nonempty) = range_facts k h in
        align_up-least al (a k).start p (omega arith) aligned above

    -- The cut out of range `k`, where it fits and the pieces have room.
    alloc_at :
        let from = align_up (a k).start alignment in
        let to = from + size in
        to ≤ (a k).end
        → s.range_count - 1 + (count_if (ltb (a k).start from) + count_if (ltb to (a k).end))
          ≤ max_ranges
        → (t : BootInfoFrameAllocator) × (carve s k (a k) from to ≡ ok t)
          × Allocated s alignment size from
              (record t { allocated_bytes = add64 t.allocated_bytes size })
    alloc_at fits room =
        let r = a k in
        let from = align_up r.start alignment in
        let to = from + size in
        let (at, page, nonempty) = range_facts k h in
        let (lower, _, aligned, from_page) = from_facts in
        let (t, et, lt, ct, bt, tt') = carve_lem s k r from to h room in
        let left = bytes-remains k r from to (active s) v.chain at lower (omega arith) fits in
        let fits_total : add64 t.allocated_bytes size ≡ s.allocated_bytes + size =
          omega (arith, v.accounted, v.total_fits) in
        (
          t,
          et,
          record {
            aligned = aligned;
            taken = λ x.
                rw lt (cover-remains k r from to (active s) v.chain at lower (omega arith) fits x);
            counted = fits_total;
            valid = record {
              bounded = ct;
              chain =
                  rw lt (Chain-remains k r from to (active s) v.chain at lower (omega arith) fits);
              pages = rw lt (
                  All-remains k r from to (active s) v.chain at lower (omega arith) fits IsPageRange
                    (record {
                      start_on_page = page.start_on_page;
                      end_on_page = from_page;
                      physical = omega arith;
                    })
                    (record {
                      start_on_page = omega arith;
                      end_on_page = page.end_on_page;
                      physical = omega arith;
                    })
                    v.pages);
              accounted = rw lt (omega (arith, left, v.accounted, fits_total));
              total_fits = omega (arith, v.total_fits);
            };
          },
        )

  -- A range that does not serve is passed over.
  widen :
      {i hi : ℕ} {o : Outcome (Option ℕ × BootInfoFrameAllocator)}
      → (s.range_count < max_ranges → ¬ Fits s alignment size i)
      → Served s alignment size (i + 1) hi o
      → Served s alignment size i hi o
  widen no_fit (served a) = served a
  widen {i} no_fit (refused none_fits) = refused λ k lower upper room. elim (Bool-cases (k == i)) [
    | inl e ↦ subst (λ (j : ℕ). ¬ Fits s alignment size j) (sym ((==_iff k i).0 e)) (no_fit room)
    | inr e ↦ none_fits k (ground arith) upper room
  ]

  alloc_from-Served :
      (n i : ℕ)
      → i + n ≡ s.range_count
      → Served s alignment size i s.range_count (alloc_from size alignment n i s)
  unfolding alloc_from
  alloc_from-Served zero i e = refused λ k lower upper. absurd (omega arith)
  alloc_from-Served (suc n) i e =
      let h : i < s.range_count = omega arith in
      let r = s.free_ranges i in
      let from = align_up r.start alignment in
      let (lower, sum, _, _) = from_facts i h in
      let rest = alloc_from-Served n (i + 1) (omega arith) in
      let needed = count_if (ltb r.start from) + count_if (ltb (from + size) r.end) in
      rw sum (elim (Bool-cases (leb r.start from && leb (from + size) r.end)) [
        | inr e1 ↦ rw e1 (
            widen
              (λ room f. omega (
                arith,
                fits_not r.start from (from + size) r.end lower e1,
                least i h f.0 f.1 f.2,
                f.3,
              ))
              rest)
        | inl e1 ↦ rw e1 (elim (Bool-cases (ltb 1 needed && leb max_ranges s.range_count)) [
          | inl e2 ↦ rw e2 (widen (λ room f. omega (arith, full needed s.range_count e2)) rest)
          | inr e2 ↦
              let (t, et, a) = alloc_at i h (fits r.start from (from + size) r.end e1) (
                room_for_pieces (ltb r.start from) (ltb (from + size) r.end) s.range_count v.bounded
                  e2) in
              rw (e2, et) (served a)
        ])
      ])

-- On valid ranges, with an alignment of whole pages and at most 2^40 pages, the call does not panic.
-- Either it returns the first address of an aligned block, whose addresses were all free and are
-- exactly those that stop being free, counts the block and keeps the invariant; or it changes nothing,
-- and then no range has room for such a block, unless the array of ranges is full.
pub allocate_contiguous_aligned-Served :
    {s : BootInfoFrameAllocator} (count : ℕ) {alignment : ℕ}
    → IsValid s
    → IsAlignment alignment
    → alignment % page_size ≡ 0
    → alignment ≤ phys_limit
    → 0 < count
    → count ≤ 2 ^ 40
    → Served s alignment
        (count * page_size)
        0
        s.range_count
        (allocate_contiguous_aligned s count alignment)
unfolding allocate_contiguous_aligned
allocate_contiguous_aligned-Served {s} count v al on_page align_fits pos small =
    let nonzero : (count == 0) ≡ false = ground arith in
    let exact : mul64 count page_size ≡ count * page_size = omega arith in
    rw (nonzero, exact)
      (alloc_from-Served v al on_page align_fits (omega arith) (omega arith) (omega arith)
        s.range_count 0 (omega arith))

-- A call that returned a block allocated it.
pub Allocated-of_Served :
    {s t : BootInfoFrameAllocator} {alignment size lo hi p : ℕ}
    {o : Outcome (Option ℕ × BootInfoFrameAllocator)}
    → Served s alignment size lo hi o
    → o ≡ ok (some p, t)
    → Allocated s alignment size p t
Allocated-of_Served {s} {alignment} {size} (served {p} {t} a) e =
    subst₂ (Allocated s alignment size) (ground arith) (ground arith) a
Allocated-of_Served (refused f) e = absurd (ground arith)
