-- ===== src/Memory/Init.antt =====
-- `BootInfoFrameAllocator::init` of kernel/src/mm/memory.rs: the usable regions of the boot loader's
-- memory map, rounded to whole pages and sorted by their start.
pub mod Sort
pub mod Sorted
pub mod Collect
pub mod Valid
use lymad_os.Base.{
  ℕ, zero, suc, ◌+◌, ◌-◌, ◌&&◌, List, [], ◌∷◌, ltb, if◌then◌else◌, add64, sub64, Array, write,
}
use lymad_os.Bits.Mask.{align_up, align_down}
use lymad_os.Memory.{
  PhysRange, range, empty, MemoryRegion, BootInfoFrameAllocator, page_size, max_ranges,
}

-- The whole pages of a region.
abbrev pub page_range : MemoryRegion → PhysRange
page_range m = range (align_up m.start page_size) (align_down m.end page_size)

-- The locals `free_ranges`, `count` and `total_bytes` of the first loop.
pub record Collected : Type 0 where
  pub free_ranges : Array PhysRange
  pub count : ℕ
  pub total_bytes : ℕ

unfoldable pub collect_one : MemoryRegion → Collected → Collected
collect_one m c =
    let r = page_range m in
    if m.usable && (ltb r.start r.end && ltb c.count max_ranges)
    then record {
      free_ranges = write c.free_ranges c.count r;
      count = c.count + 1;
      total_bytes = add64 c.total_bytes (sub64 r.end r.start);
    }
    else c

unfoldable pub collect : List MemoryRegion → Collected → Collected
collect [] c = c
collect (m ∷ ms) c = collect ms (collect_one m c)

-- The inner `while` loop and the write after it: `j` is the place for the key.
unfoldable pub sink : ℕ → PhysRange → Array PhysRange → Array PhysRange
sink zero key a = write a 0 key
sink (suc j) key a =
    let moved = sink j key (write a (suc j) (a j)) in
    let stay = write a (suc j) key in if ltb key.start (a j).start then moved else stay

-- The insertion sort: `n` places from `i` up are left to sort in.
unfoldable pub sort_from : ℕ → ℕ → Array PhysRange → Array PhysRange
sort_from zero i a = a
sort_from (suc n) i a = sort_from n (i + 1) (sink i (a i) a)

unfoldable pub init : List MemoryRegion → BootInfoFrameAllocator
init memory_map =
    let c = collect memory_map (record { free_ranges = λ _. empty; count = 0; total_bytes = 0 }) in
    record {
      free_ranges = sort_from (c.count - 1) 1 c.free_ranges;
      range_count = c.count;
      allocated_bytes = 0;
      total_bytes = c.total_bytes;
    }
