-- ===== src/Memory/Coalesce.antt =====
-- `coalesce_ranges` of kernel/src/mm/memory.rs on the list of the ranges in use.
use lymad_os.Base.{
  ℕ, zero, suc, ◌+◌, ◌-◌, ◌≤◌, ◌<◌, ◌≡◌, refl, ◌∙◌, ap, sym, List, [], ◌∷◌, ◌++◌, arith, ltb, ◌==◌,
  if◌then◌else◌, write, length, Bool-cases, inl, inr, true, false,
}
use mathlib.Core.List.{append_assoc}
use lymad_os.Memory.{
  PhysRange, range, BootInfoFrameAllocator, remove_range, coalesce_loop, coalesce_ranges,
}
use lymad_os.Memory.Ranges.{merge_from, merge}
use lymad_os.Memory.Arrays.{
  window, active, length-window, window_ext, window_snoc, window_shift, remove_range-at,
  remove_range-fields,
}

-- Entry `i` takes over the end of entry `i + 1`, which goes.
abbrev unmerged : BootInfoFrameAllocator → ℕ → BootInfoFrameAllocator
unmerged s i = record s {
  free_ranges = write s.free_ranges i (range (s.free_ranges i).start (s.free_ranges (i + 1)).end);
}

abbrev merged : BootInfoFrameAllocator → ℕ → BootInfoFrameAllocator
merged s i = remove_range (unmerged s i) (i + 1)

merged-at :
    (s : BootInfoFrameAllocator) (i j : ℕ)
    → i + 1 < s.range_count
    → j + 1 < s.range_count
    → (merged s i).free_ranges j ≡ (
        if ltb j i
        then s.free_ranges j
        else if j == i
        then range (s.free_ranges i).start (s.free_ranges (i + 1)).end
        else s.free_ranges (j + 1))
merged-at s i j h k = ground (arith, remove_range-at (unmerged s i) (i + 1) j h k)

-- The windows of the merged array, as the next round sees them.
merged-windows :
    (s : BootInfoFrameAllocator) (i m : ℕ)
    → s.range_count ≡ i + suc (suc m)
    → (window (merged s i).free_ranges 0 i ≡ window s.free_ranges 0 i)
      × ((merged s i).free_ranges i ≡ range (s.free_ranges i).start (s.free_ranges (i + 1)).end)
      × (window (merged s i).free_ranges (i + 1) m ≡ window s.free_ranges (i + 1 + 1) m)
merged-windows s i m e = (
  window_ext _ _ 0 i (λ j p q. ground (arith, merged-at s i j)),
  ground (arith, merged-at s i i),
  sym (window_shift _ _ (i + 1) m (λ j p q. ground (arith, merged-at s i j))),
)

coalesce_loop_lem :
    (m fuel i : ℕ) (s : BootInfoFrameAllocator)
    → m < fuel
    → s.range_count ≡ i + suc m
    → active (coalesce_loop fuel i s)
      ≡ window s.free_ranges 0 i ++ merge_from (s.free_ranges i) (window s.free_ranges (i + 1) m)
unfolding coalesce_loop merge_from
coalesce_loop_lem m zero i s h e = absurd (omega arith)
coalesce_loop_lem zero (suc fuel) i s h e =
    let stop : ltb i (s.range_count - 1) ≡ false = ground arith in
    rw stop (ap (window s.free_ranges 0) e ∙ window_snoc s.free_ranges i)
coalesce_loop_lem (suc m) (suc fuel) i s h e =
    let go : ltb i (s.range_count - 1) ≡ true = ground arith in
    rw go (elim (Bool-cases ((s.free_ranges i).end == (s.free_ranges (i + 1)).start)) [
      | inl touch ↦ rw touch (
          let (below, here, above) = merged-windows s i m e in
          let count = (remove_range-fields (unmerged s i) (i + 1)).0 in
          coalesce_loop_lem m fuel i (merged s i) (omega arith) (omega (arith, count))
          ∙ cc (below, here, above))
      | inr gap ↦ rw gap (
          coalesce_loop_lem m fuel (i + 1) s (omega arith) (omega arith)
          ∙ ap (λ xs. xs ++ merge_from (s.free_ranges (i + 1)) (window s.free_ranges (i + 1 + 1) m))
              (window_snoc s.free_ranges i)
          ∙ append_assoc (window s.free_ranges 0 i) (s.free_ranges i ∷ []) _)
    ])

coalesce_loop-fields :
    (fuel i : ℕ) (s : BootInfoFrameAllocator)
    → ((coalesce_loop fuel i s).allocated_bytes ≡ s.allocated_bytes)
      × ((coalesce_loop fuel i s).total_bytes ≡ s.total_bytes)
      × ((coalesce_loop fuel i s).range_count ≤ s.range_count)
unfolding coalesce_loop
coalesce_loop-fields zero i s = (refl, refl, omega arith)
coalesce_loop-fields (suc fuel) i s = ground (
  arith,
  coalesce_loop-fields fuel i (merged s i),
  coalesce_loop-fields fuel (i + 1) s,
  remove_range-fields (unmerged s i) (i + 1),
)

pub coalesce_ranges-fields :
    (s : BootInfoFrameAllocator)
    → ((coalesce_ranges s).allocated_bytes ≡ s.allocated_bytes)
      × ((coalesce_ranges s).total_bytes ≡ s.total_bytes)
      × ((coalesce_ranges s).range_count ≤ s.range_count)
unfolding coalesce_ranges
coalesce_ranges-fields s = ground (arith, coalesce_loop-fields s.range_count 0 s)

merge_short : (xs : List PhysRange) → length xs < 2 → merge xs ≡ xs
unfolding merge_from
merge_short [] h = refl
merge_short (x ∷ []) h = refl
merge_short (x ∷ y ∷ xs) h = absurd (omega arith)

-- `coalesce_ranges` joins the neighbours that touch, from the first range up.
pub active-coalesce_ranges :
    (s : BootInfoFrameAllocator) → active (coalesce_ranges s) ≡ merge (active s)
unfolding coalesce_ranges
active-coalesce_ranges s = elim (Bool-cases (ltb s.range_count 2)) [
  | inl e ↦
      rw e
        (sym (merge_short (active s) (ground (arith, length-window s.free_ranges 0 s.range_count))))
  | inr e ↦ rw e (
      let m = s.range_count - 2 in
      let count : s.range_count ≡ suc (suc m) = ground arith in
      coalesce_loop_lem (suc m) s.range_count 0 s (omega arith) (omega arith)
      ∙ ap (λ n. merge (window s.free_ranges 0 n)) (sym count))
]
