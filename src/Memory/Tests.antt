-- ===== src/Memory/Tests.antt =====
-- Runs of kernel/src/mm/memory.rs, and the theorems on it at concrete memory maps.
use lymad_os.Base.{
  ℕ, ◌*◌, ◌%◌, ◌≤◌, ◌<◌, ◌≡◌, refl, true, false, Option, List, [], ◌∷◌, arith, Outcome, panic, ok,
  write, take,
}
use lymad_os.Bits.Mask.{align_up, align_down}
use lymad_os.Memory.{
  PhysRange, range, empty, BootInfoFrameAllocator, MemoryRegion, page_size, max_ranges,
  remove_range, insert_range_sorted, coalesce_ranges, carve, allocate_contiguous_aligned,
  allocate_contiguous, allocate_frame, free_contiguous,
}
use lymad_os.Memory.Ranges.{insert_sorted, cover, merge}
use lymad_os.Memory.Arrays.{active, insert_range_sorted_lem}
use lymad_os.Memory.Coalesce.{active-coalesce_ranges}
use lymad_os.Memory.Invariant.{phys_limit, IsPageRange, IsValid, page_alignment}
use lymad_os.Memory.Allocate.{Allocated, Served, allocate_contiguous_aligned-Served}
use lymad_os.Memory.Free.{Freed, free_contiguous-Freed, allocate-free}
use lymad_os.Memory.Init.{init, collect, collect_one, sort_from, sink}
use lymad_os.Memory.Init.Valid.{usable_pages}
use lymad_os.Memory.Init.Valid.{region_cover, init-IsValid}
use lymad_os.Memory.Frames.{
  occurrences, usable_frames, occurrences-usable_frames, allocate_frame-usable_frames,
}

-- Unsorted, with a reserved region and a region that is not of whole pages.
abbrev memory_map : List MemoryRegion
memory_map =
    record { start = 0x8000; end = 0xb000; usable = true }
    ∷ record { start = 0x5000; end = 0x8000; usable = false }
    ∷ record { start = 0x1800; end = 0x5000; usable = true }
    ∷ []

init_run : active (init memory_map) ≡ range 0x2000 0x5000 ∷ range 0x8000 0xb000 ∷ []
unfolding init collect collect_one sort_from sink align_up align_down
init_run = refl

init-IsValid_example :
    IsValid (init memory_map)
    × ((init memory_map).allocated_bytes ≡ 0)
    × ((a : ℕ)
        → cover a (active (init memory_map)) ≡ cover a (take max_ranges (usable_pages memory_map)))
    × ((a : ℕ) → cover a (active (init memory_map)) ≤ region_cover a memory_map)
init-IsValid_example =
    init-IsValid memory_map
      (omega arith, omega arith, (omega arith, omega arith, (omega arith, omega arith, tt)))
      (λ a. ground arith)

-- Two free ranges, and the page at 0x5000 in use.
abbrev two_ranges : BootInfoFrameAllocator
two_ranges = record {
  free_ranges = write (write (λ _. empty) 0 (range 0x1000 0x5000)) 1 (range 0x6000 0x8000);
  range_count = 2;
  allocated_bytes = 0x1000;
  total_bytes = 0x7000;
}

IsPageRange-of :
    (start end : ℕ)
    → start % page_size ≡ 0
    → end % page_size ≡ 0
    → end ≤ phys_limit
    → IsPageRange (range start end)
IsPageRange-of start end p q h = record { start_on_page = p; end_on_page = q; physical = h }

two_ranges-IsValid : IsValid two_ranges
two_ranges-IsValid = record {
  bounded = omega arith;
  chain = (omega arith, omega arith, (omega arith, omega arith, tt));
  pages = (
    IsPageRange-of 0x1000 0x5000 refl refl (omega arith),
    (IsPageRange-of 0x6000 0x8000 refl refl (omega arith), tt),
  );
  accounted = refl;
  total_fits = omega arith;
}

allocate_contiguous_aligned_example :
    Served two_ranges page_size
      (2 * page_size)
      0
      2
      (allocate_contiguous_aligned two_ranges 2 page_size)
allocate_contiguous_aligned_example =
    allocate_contiguous_aligned-Served 2 two_ranges-IsValid page_alignment refl (omega arith)
      (omega arith) (omega arith)

-- The ranges once the pages 0x1000 and 0x2000 are allocated.
abbrev after_two : BootInfoFrameAllocator
after_two = record {
  free_ranges = write (write (λ _. empty) 0 (range 0x3000 0x5000)) 1 (range 0x6000 0x8000);
  range_count = 2;
  allocated_bytes = 0x3000;
  total_bytes = 0x7000;
}

after_two-IsValid : IsValid after_two
after_two-IsValid = record {
  bounded = omega arith;
  chain = (omega arith, omega arith, (omega arith, omega arith, tt));
  pages = (
    IsPageRange-of 0x3000 0x5000 refl refl (omega arith),
    (IsPageRange-of 0x6000 0x8000 refl refl (omega arith), tt),
  );
  accounted = refl;
  total_fits = omega arith;
}

-- What a call left, or `two_ranges` after a panic.
state_of : Outcome (Option ℕ × BootInfoFrameAllocator) → BootInfoFrameAllocator
state_of panic = two_ranges
state_of (ok (_, t)) = t

ranges_after : Outcome BootInfoFrameAllocator → List PhysRange
ranges_after panic = []
ranges_after (ok t) = active t

allocate_run :
    active (state_of (allocate_contiguous_aligned two_ranges 2 page_size)) ≡ active after_two
unfolding state_of allocate_contiguous_aligned align_up align_down carve remove_range
    insert_range_sorted
allocate_run = refl

free_run : ranges_after (free_contiguous after_two 0x1000 2) ≡ active two_ranges
unfolding ranges_after free_contiguous insert_range_sorted coalesce_ranges remove_range
free_run = refl

free_contiguous_example :
    (max_ranges ≤ 2 → free_contiguous after_two 0x1000 2 ≡ panic)
    × (2 < max_ranges
        → (t : BootInfoFrameAllocator) × (free_contiguous after_two 0x1000 2 ≡ ok t)
          × Freed after_two 0x1000 (2 * page_size) t)
free_contiguous_example =
    free_contiguous-Freed 0x1000 2 (omega arith) (omega arith) after_two-IsValid refl (omega arith)
      (λ a. ground arith) (omega arith)

after_two-Allocated : Allocated two_ranges page_size (2 * page_size) 0x1000 after_two
after_two-Allocated = record {
  aligned = refl;
  taken = λ a. ground arith;
  counted = refl;
  valid = after_two-IsValid;
}

allocate-free_example :
    (u : BootInfoFrameAllocator) × (free_contiguous after_two 0x1000 2 ≡ ok u)
    × ((a : ℕ) → cover a (active u) ≡ cover a (active two_ranges))
    × (u.allocated_bytes ≡ two_ranges.allocated_bytes)
    × IsValid u
allocate-free_example =
    allocate-free 0x1000 2 (omega arith) (omega arith) two_ranges-IsValid refl after_two-Allocated
      (omega arith)

occurrences-usable_frames_example :
    (occurrences 0x2000 (usable_frames two_ranges) ≡ 1)
    × (occurrences 0x2000 (usable_frames two_ranges) ≤ 1)
occurrences-usable_frames_example = occurrences-usable_frames 0x2000 two_ranges-IsValid

abbrev after_frame : BootInfoFrameAllocator
unfolding state_of
after_frame = state_of (allocate_frame two_ranges)

allocate_frame-usable_frames_example :
    (occurrences 0x1000 (usable_frames two_ranges) ≡ 1)
    × (occurrences 0x1000 (usable_frames after_frame) ≡ 0)
unfolding after_frame allocate_frame allocate_contiguous allocate_contiguous_aligned align_up
    align_down carve remove_range insert_range_sorted
allocate_frame-usable_frames_example = allocate_frame-usable_frames two_ranges-IsValid refl

coalesce_ranges_example : active (coalesce_ranges two_ranges) ≡ merge (active two_ranges)
coalesce_ranges_example = active-coalesce_ranges two_ranges

insert_range_sorted_example :
    (t : BootInfoFrameAllocator) × (insert_range_sorted two_ranges (range 0x5000 0x6000) ≡ ok t)
    × (active t ≡ insert_sorted (range 0x5000 0x6000) (active two_ranges))
    × (t.range_count ≡ 3)
    × (t.allocated_bytes ≡ 0x1000)
    × (t.total_bytes ≡ 0x7000)
insert_range_sorted_example = insert_range_sorted_lem two_ranges (range 0x5000 0x6000) (omega arith)
