-- ===== src/Memory.antt =====
-- kernel/src/mm/memory.rs: `BootInfoFrameAllocator`, the ranges of free physical memory.
--
-- `free_ranges` is the fixed array, and the ranges in use are its first `range_count` entries.
-- A frame is the address that the code hands to, or reads from, `PhysFrame`.
-- `Outcome.panic` is the `panic!` of `insert_range_sorted`.
pub mod Ranges
pub mod Arrays
pub mod Coalesce
pub mod Invariant
pub mod Carve
pub mod Allocate
pub mod Free
pub mod Init
pub mod Frames
mod Tests
use lymad_os.Base.{
  ℕ, zero, suc, ◌+◌, ◌-◌, ◌*◌, Bool, ◌&&◌, Option, none, some, ltb, leb, ◌==◌, if◌then◌else◌, add64,
  sub64, mul64, Outcome, panic, ok, ◌>>=◌, Array, write,
}
use lymad_os.Bits.Mask.{align_up}

abbrev pub page_size : ℕ
page_size = 4096

abbrev pub huge_page_size : ℕ
huge_page_size = 2 * 1024 * 1024

abbrev pub max_ranges : ℕ
max_ranges = 256

pub record PhysRange : Type 0 where
  pub start : ℕ
  pub end : ℕ

abbrev pub range : ℕ → ℕ → PhysRange
range s e = record { start = s; end = e }

abbrev pub empty : PhysRange
empty = range 0 0

pub record BootInfoFrameAllocator : Type 0 where
  pub free_ranges : Array PhysRange
  pub range_count : ℕ
  pub allocated_bytes : ℕ
  pub total_bytes : ℕ

-- An entry of the boot loader's memory map; `usable` is `kind == MemoryRegionKind::Usable`.
pub record MemoryRegion : Type 0 where
  pub start : ℕ
  pub end : ℕ
  pub usable : Bool

-- `free_ranges[j] = free_ranges[j + 1]` for `n` indices from `j` up.
shift_left : ℕ → ℕ → Array PhysRange → Array PhysRange
shift_left zero j a = a
shift_left (suc n) j a = shift_left n (j + 1) (write a j (a (j + 1)))

-- It is called at an index in use, so `range_count` is not 0.
unfoldable pub remove_range : BootInfoFrameAllocator → ℕ → BootInfoFrameAllocator
unfolding shift_left
remove_range s index =
    let last = s.range_count - 1 in
    record s {
      free_ranges = write (shift_left (last - index) index s.free_ranges) last empty;
      range_count = last;
    }

-- The search for the insertion point: `n` indices from `i` up are left to try.
find_pos : ℕ → ℕ → Array PhysRange → ℕ → ℕ
find_pos zero i a start = i
find_pos (suc n) i a start =
    let rest = find_pos n (i + 1) a start in if ltb start (a i).start then i else rest

-- `free_ranges[j + 1] = free_ranges[j]` for `n` indices from `pos + n - 1` down to `pos`.
shift_right : ℕ → ℕ → Array PhysRange → Array PhysRange
shift_right zero pos a = a
shift_right (suc n) pos a = shift_right n pos (write a (pos + n + 1) (a (pos + n)))

unfoldable pub insert_range_sorted :
    BootInfoFrameAllocator → PhysRange → Outcome BootInfoFrameAllocator
unfolding find_pos shift_right
insert_range_sorted s r =
    if leb max_ranges s.range_count
    then panic
    else (let pos = find_pos s.range_count 0 s.free_ranges r.start in
        ok (record s {
          free_ranges = write (shift_right (s.range_count - pos) pos s.free_ranges) pos r;
          range_count = s.range_count + 1;
        }))

-- The `while` loop, on fuel: each round moves `i` up or takes a range away.
coalesce_loop : ℕ → ℕ → BootInfoFrameAllocator → BootInfoFrameAllocator
coalesce_loop zero i s = s
coalesce_loop (suc fuel) i s =
    let a = s.free_ranges in
    let merged = record s { free_ranges = write a i (range (a i).start (a (i + 1)).end) } in
    let merge = coalesce_loop fuel i (remove_range merged (i + 1)) in
    let skip = coalesce_loop fuel (i + 1) s in
    if ltb i (s.range_count - 1)
    then (if (a i).end == (a (i + 1)).start then merge else skip)
    else s

pub coalesce_ranges : BootInfoFrameAllocator → BootInfoFrameAllocator
unfolding coalesce_loop
coalesce_ranges s = if ltb s.range_count 2 then s else coalesce_loop s.range_count 0 s

abbrev pub count_if : Bool → ℕ
count_if b = if b then 1 else 0

-- Range `i`, `r`, gives up `[from, to)`; what is left of it goes back.
unfoldable pub carve :
    BootInfoFrameAllocator → ℕ → PhysRange → ℕ → ℕ → Outcome BootInfoFrameAllocator
carve s i r from to = do
  let removed = remove_range s i
  before ← if ltb r.start from then insert_range_sorted removed (range r.start from) else ok removed
  if ltb to r.end then insert_range_sorted before (range to r.end) else ok before

-- The loop over the ranges: `n` indices from `i` up are left to try.
alloc_from :
    (size alignment : ℕ)
    → ℕ
    → ℕ
    → BootInfoFrameAllocator
    → Outcome (Option ℕ × BootInfoFrameAllocator)
alloc_from size alignment zero i s = ok (none, s)
alloc_from size alignment (suc n) i s =
    let rest = alloc_from size alignment n (i + 1) s in
    let r = s.free_ranges i in
    let aligned_start = align_up r.start alignment in
    let alloc_end = add64 aligned_start size in
    let needed = count_if (ltb r.start aligned_start) + count_if (ltb alloc_end r.end) in
    if leb r.start aligned_start && leb alloc_end r.end
    then (if ltb 1 needed && leb max_ranges s.range_count
        then rest
        else (carve s i r aligned_start alloc_end >>= λ t.
            ok (some aligned_start, record t { allocated_bytes = add64 t.allocated_bytes size })))
    else rest

unfoldable pub allocate_contiguous_aligned :
    BootInfoFrameAllocator → ℕ → ℕ → Outcome (Option ℕ × BootInfoFrameAllocator)
unfolding alloc_from
allocate_contiguous_aligned s count alignment =
    if count == 0
    then ok (none, s)
    else alloc_from (mul64 count page_size) alignment s.range_count 0 s

unfoldable pub allocate_contiguous :
    BootInfoFrameAllocator → ℕ → Outcome (Option ℕ × BootInfoFrameAllocator)
allocate_contiguous s count = allocate_contiguous_aligned s count page_size

-- `allocate_frame` of the `FrameAllocator` implementation.
unfoldable pub allocate_frame : BootInfoFrameAllocator → Outcome (Option ℕ × BootInfoFrameAllocator)
allocate_frame s = allocate_contiguous s 1

pub allocate_huge_page : BootInfoFrameAllocator → Outcome (Option ℕ × BootInfoFrameAllocator)
allocate_huge_page s = allocate_contiguous_aligned s 512 huge_page_size

-- `saturating_sub` is the subtraction of ℕ.
pub free_contiguous : BootInfoFrameAllocator → ℕ → ℕ → Outcome BootInfoFrameAllocator
free_contiguous s start count =
    let size = mul64 count page_size in
    if count == 0
    then ok s
    else (insert_range_sorted (record s { allocated_bytes = s.allocated_bytes - size })
          (range start (add64 start size))
        >>= λ t. ok (coalesce_ranges t))

pub free_frame : BootInfoFrameAllocator → ℕ → Outcome BootInfoFrameAllocator
free_frame s frame = free_contiguous s frame 1

pub free_memory : BootInfoFrameAllocator → ℕ
free_memory s = sub64 s.total_bytes s.allocated_bytes
