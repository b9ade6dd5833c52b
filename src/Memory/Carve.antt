-- ===== src/Memory/Carve.antt =====
-- `allocate_contiguous_aligned` of kernel/src/mm/memory.rs cuts `[from, to)` out of range `i`.
use lymad_os.Base.{
  ℕ, ◌+◌, ◌-◌, ◌≤◌, ◌<◌, ◌≡◌, ◌∙◌, Bool, true, false, refl, some, List, arith, ltb, if◌then◌else◌,
  ap, get_elem?, ok, Bool-cases, inl, inr, ltb→lt,
}
use lymad_os.Memory.{
  PhysRange, range, BootInfoFrameAllocator, max_ranges, count_if, remove_range, insert_range_sorted,
  carve,
}
use lymad_os.Memory.Ranges.{
  delete, insert_sorted, holds, cover, bytes, Chain, All, Apart, cover-insert_sorted,
  bytes-insert_sorted, Chain-insert_sorted, All-insert_sorted,
}
use lymad_os.Memory.Ranges.Delete.{
  cover-delete, bytes-delete, Chain-delete, All-delete, cover-le-one,
}
use lymad_os.Memory.Arrays.{
  active, active-remove_range, remove_range-fields, insert_range_sorted_lem,
}

-- The list with one more range, if there is one to add.
abbrev pub insert_if : Bool → PhysRange → List PhysRange → List PhysRange
insert_if b r xs = if b then insert_sorted r xs else xs

-- What is left of the ranges.
abbrev pub remains : ℕ → PhysRange → ℕ → ℕ → List PhysRange → List PhysRange
remains i r from to xs =
    insert_if (ltb to r.end) (range to r.end)
      (insert_if (ltb r.start from) (range r.start from) (delete i xs))

insert_if_lem :
    (b : Bool) (s : BootInfoFrameAllocator) (r : PhysRange)
    → s.range_count + count_if b ≤ max_ranges
    → (t : BootInfoFrameAllocator) × ((if b then insert_range_sorted s r else ok s) ≡ ok t)
      × (active t ≡ insert_if b r (active s))
      × (t.range_count ≡ s.range_count + count_if b)
      × (t.allocated_bytes ≡ s.allocated_bytes)
      × (t.total_bytes ≡ s.total_bytes)
insert_if_lem true s r h = insert_range_sorted_lem s r (omega arith)
insert_if_lem false s r h = (s, refl, refl, omega arith, refl, refl)

-- With room for the pieces the cut does not panic, and leaves the pieces.
pub carve_lem :
    (s : BootInfoFrameAllocator) (i : ℕ) (r : PhysRange) (from to : ℕ)
    → i < s.range_count
    → s.range_count - 1 + (count_if (ltb r.start from) + count_if (ltb to r.end)) ≤ max_ranges
    → (t : BootInfoFrameAllocator) × (carve s i r from to ≡ ok t)
      × (active t ≡ remains i r from to (active s))
      × (t.range_count ≤ max_ranges)
      × (t.allocated_bytes ≡ s.allocated_bytes)
      × (t.total_bytes ≡ s.total_bytes)
unfolding carve
carve_lem s i r from to h room =
    let removed = remove_range s i in
    let fields = remove_range-fields s i in
    let (u, eu, lu, cu, au, tu) =
      insert_if_lem (ltb r.start from) removed (range r.start from) (omega arith) in
    let (t, et, lt, ct, at, tt') = insert_if_lem (ltb to r.end) u (range to r.end) (omega arith) in
    (
      t,
      rw eu et,
      lt
          ∙ ap (insert_if (ltb to r.end) (range to r.end)) (
              lu
              ∙ ap (insert_if (ltb r.start from) (range r.start from)) (active-remove_range s i h)),
      omega arith,
      cc (fields.1),
      cc (fields.2),
    )

-- One piece, `[from, to)`, that is added if it is not empty.
module _ (from to : ℕ) where
  abbrev with_piece : List PhysRange → List PhysRange
  with_piece = insert_if (ltb from to) (range from to)

  cover-with_piece :
      (a : ℕ) (xs : List PhysRange) → cover a (with_piece xs) ≡ holds a (range from to) + cover a xs
  cover-with_piece a xs = ground (arith, cover-insert_sorted a (range from to) xs)

  bytes-with_piece : (xs : List PhysRange) → bytes (with_piece xs) ≡ (to - from) + bytes xs
  bytes-with_piece xs = ground (arith, bytes-insert_sorted (range from to) xs)

  Chain-with_piece :
      (xs : List PhysRange) → Chain 0 xs → Apart (range from to) xs → Chain 0 (with_piece xs)
  Chain-with_piece xs c apart = elim (Bool-cases (ltb from to)) [
    | inl e ↦
        rw e (Chain-insert_sorted 0 (range from to) xs c (omega arith) (ltb→lt from to e) apart)
    | inr e ↦ rw e c
  ]

  All-with_piece {κ} :
      (P : PhysRange → Type κ) (xs : List PhysRange)
      → P (range from to)
      → All P xs
      → All P (with_piece xs)
  All-with_piece P xs p all = elim (Bool-cases (ltb from to)) [
    | inl e ↦ rw e (All-insert_sorted P (range from to) xs p all)
    | inr e ↦ rw e all
  ]

module _ (i : ℕ) (r : PhysRange) (from to : ℕ) (xs : List PhysRange) (c : Chain 0 xs)
    (at : get_elem? xs i ≡ some r) (lower : r.start ≤ from) (block : from < to)
    (upper : to ≤ r.end) where
  -- Exactly the addresses of the block go.
  pub cover-remains :
      (a : ℕ) → cover a (remains i r from to xs) + holds a (range from to) ≡ cover a xs
  cover-remains a =
      let first = with_piece r.start from (delete i xs) in
      ground (
        arith,
        cover-with_piece to r.end a first,
        cover-with_piece r.start from a (delete i xs),
        cover-delete a i xs at,
      )

  pub bytes-remains : bytes (remains i r from to xs) + (to - from) ≡ bytes xs
  bytes-remains =
      let first = with_piece r.start from (delete i xs) in
      omega (
        arith,
        bytes-with_piece to r.end first,
        bytes-with_piece r.start from (delete i xs),
        bytes-delete i xs at,
      )

  first-Apart : Apart (range r.start from) (delete i xs)
  first-Apart a = ground (arith, cover-delete a i xs at, cover-le-one a 0 xs c)

  second-Apart : Apart (range to r.end) (with_piece r.start from (delete i xs))
  second-Apart a = ground (
    arith,
    cover-with_piece r.start from a (delete i xs),
    cover-delete a i xs at,
    cover-le-one a 0 xs c,
  )

  pub Chain-remains : Chain 0 (remains i r from to xs)
  Chain-remains =
      Chain-with_piece to r.end _
        (Chain-with_piece r.start from _ (Chain-delete 0 i xs c) first-Apart) second-Apart

  pub All-remains {κ} :
      (P : PhysRange → Type κ)
      → P (range r.start from)
      → P (range to r.end)
      → All P xs
      → All P (remains i r from to xs)
  All-remains P p q all =
      All-with_piece to r.end P _ q (All-with_piece r.start from P _ p (All-delete P i xs all))
