-- ===== src/Memory/Free.antt =====
-- `free_contiguous` of kernel/src/mm/memory.rs: what a free gives back.
use lymad_os.Base.{
  ℕ, ◌+◌, ◌-◌, ◌*◌, ◌%◌, ◌^◌, ◌≤◌, ◌<◌, ◌≡◌, ◌∙◌, ap, refl, false, arith, List, [], ◌∷◌, ◌==◌,
  add64, mul64, panic, ok,
}
use lymad_os.Bits.Mask.{mod-zero_trans}
use lymad_os.Memory.{
  PhysRange, range, BootInfoFrameAllocator, page_size, max_ranges, coalesce_ranges, free_contiguous,
}
use lymad_os.Memory.Ranges.{
  insert_sorted, holds, cover, All, Apart, cover-insert_sorted, bytes-insert_sorted,
  Chain-insert_sorted, All-insert_sorted, merge,
}
use lymad_os.Memory.Ranges.Delete.{cover-le-one}
use lymad_os.Memory.Ranges.Merge.{
  Gapped, cover-merge, bytes-merge, Chain-merge, Gapped-merge, All-merge,
}
use lymad_os.Memory.Arrays.{active, insert_range_sorted_lem, insert_range_sorted_full}
use lymad_os.Memory.Coalesce.{active-coalesce_ranges, coalesce_ranges-fields}
use lymad_os.Memory.Invariant.{phys_limit, IsPageRange, IsValid}
use lymad_os.Memory.Allocate.{Allocated}

-- The block `[start, start + size)` is free again.
pub record Freed (s : BootInfoFrameAllocator) (start size : ℕ) (t : BootInfoFrameAllocator)
    : Type 0 where
  pub given :
      (a : ℕ) → cover a (active t) ≡ cover a (active s) + holds a (range start (start + size))
  pub counted : t.allocated_bytes + size ≡ s.allocated_bytes
  pub joined : Gapped (active t)
  pub valid : IsValid t

join_pages : (x y : PhysRange) → IsPageRange x → IsPageRange y → IsPageRange (range x.start y.end)
join_pages x y p q = record {
  start_on_page = p.start_on_page;
  end_on_page = q.end_on_page;
  physical = q.physical;
}

-- On valid ranges, when the block is of whole pages, no part of it is free and its bytes are counted
-- as allocated, `free_contiguous` panics if all 256 ranges are in use. Otherwise exactly its addresses
-- become free, its bytes are no longer counted, neighbouring ranges no longer touch, and the
-- invariant holds.
pub free_contiguous-Freed :
    {s : BootInfoFrameAllocator} (start count : ℕ)
    → let size = count * page_size in
      0 < count
      → count ≤ 2 ^ 40
      → IsValid s
      → start % page_size ≡ 0
      → start + size ≤ phys_limit
      → Apart (range start (start + size)) (active s)
      → size ≤ s.allocated_bytes
      → (max_ranges ≤ s.range_count → free_contiguous s start count ≡ panic)
        × (s.range_count < max_ranges
            → (t : BootInfoFrameAllocator) × (free_contiguous s start count ≡ ok t)
              × Freed s start size t)
unfolding free_contiguous
free_contiguous-Freed {s} start count pos small v on_page physical apart counted =
    let size = count * page_size in
    let nonzero : (count == 0) ≡ false = ground arith in
    let exact : mul64 count page_size ≡ size = omega arith in
    let end : add64 start size ≡ start + size = omega arith in
    let block = range start (start + size) in
    let s' = record s { allocated_bytes = s.allocated_bytes - size } in
    let xs = insert_sorted block (active s) in
    let chain = Chain-insert_sorted 0 block (active s) v.chain (omega arith) (omega arith) apart in
    (
      λ is_full. rw (nonzero, exact, end, insert_range_sorted_full s' block is_full),
      λ room.
          let (u, eu, lu, cu, au, tu) = insert_range_sorted_lem s' block room in
          let (ac, tc, cc') = coalesce_ranges-fields u in
          let list : active (coalesce_ranges u) ≡ merge xs =
            active-coalesce_ranges u ∙ ap merge lu in
          (
            coalesce_ranges u,
            rw (nonzero, exact, end, eu),
            record {
              given = λ a.
                  rw list
                    (omega (arith, cover-merge a xs chain, cover-insert_sorted a block (active s)));
              counted = omega arith;
              joined = rw list (Gapped-merge xs chain);
              valid = record {
                bounded = omega arith;
                chain = rw list (Chain-merge xs chain);
                pages = rw list (
                    All-merge IsPageRange join_pages xs
                      (All-insert_sorted IsPageRange block (active s) (omega arith) v.pages));
                accounted = rw list (
                    omega (
                      arith,
                      bytes-merge xs chain,
                      bytes-insert_sorted block (active s),
                      v.accounted,
                    ));
                total_fits = omega (arith, v.total_fits);
              };
            },
          ),
    )

cover_above : (a : ℕ) (xs : List PhysRange) → All IsPageRange xs → phys_limit ≤ a → cover a xs ≡ 0
cover_above a [] all h = refl
cover_above a (x ∷ xs) all h = ground (arith, cover_above a xs all.1 h, all.0.physical)

-- Freeing a block that the allocator has just handed out, while there is room for one more range,
-- makes the same addresses free as before the allocation, with the same count of allocated bytes.
pub allocate-free :
    {s t : BootInfoFrameAllocator} {alignment : ℕ} (p count : ℕ)
    → 0 < count
    → count ≤ 2 ^ 40
    → IsValid s
    → alignment % page_size ≡ 0
    → Allocated s alignment (count * page_size) p t
    → t.range_count < max_ranges
    → (u : BootInfoFrameAllocator) × (free_contiguous t p count ≡ ok u)
      × ((a : ℕ) → cover a (active u) ≡ cover a (active s))
      × (u.allocated_bytes ≡ s.allocated_bytes)
      × IsValid u
allocate-free {s} {t} {alignment} p count pos small v on_page got room =
    let apart : Apart (range p (p + count * page_size)) (active t) =
      λ a. omega (arith, got.taken a, cover-le-one a 0 (active s) v.chain) in
    let last = p + count * page_size - 1 in
    let physical : p + count * page_size ≤ phys_limit =
      ground (arith, got.taken last, cover_above last (active s) v.pages) in
    let (u, e, freed) =
      (free_contiguous-Freed p count pos small got.valid
          (mod-zero_trans page_size alignment p on_page got.aligned) physical apart
          (omega (arith, got.counted))).1
        room in
    (
      u,
      e,
      λ a. omega (arith, freed.given a, got.taken a),
      omega (arith, freed.counted, got.counted),
      freed.valid,
    )
