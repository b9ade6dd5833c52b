-- ===== src/Buddy.antt =====
-- kernel/src/mm/buddy.rs: the buddy allocator of pages.
--
-- An address is a virtual one, as in the code. The free lists run through the free pages: `memory` is what
-- stands at an address, read as a `FreeFrame`. The bitmap is that of `BITMAP_STORAGE`, and an index out
-- of range panics.
pub mod Pairs
pub mod Bitmap
pub mod FreeLists
pub mod Blocks
pub mod Invariant
pub mod Counting
pub mod Halves
pub mod Alloc
pub mod Dealloc
pub mod Init
mod Tests
use lymad_os.Base.{
  ℕ, zero, suc, ◌+◌, ◌-◌, ◌*◌, ◌/◌, ◌%◌, ◌^◌, bit_and, bit_xor, Bool, ◌||◌, not, Option, none, some,
  ltb, leb, ◌==◌, if◌then◌else◌, add64, sub64, mul64, Outcome, panic, ok, ◌>>=◌, Array, write,
}
use mathlib.Core.Option
use lymad_os.Memory.{page_size}

abbrev pub max_order : ℕ
max_order = 12

abbrev pub max_pages : ℕ
max_pages = 262144

abbrev pub bitmap_size : ℕ
bitmap_size = max_pages / 8

pub record FreeFrame : Type 0 where
  pub next : Option ℕ
  pub prev : Option ℕ

pub record BuddyAllocator : Type 0 where
  pub free_lists : Array (Option ℕ)
  pub bitmap : Array ℕ
  pub offset : ℕ
  pub memory : Array FreeFrame

-- `new`, over the memory that the pages hold.
abbrev pub new : Array FreeFrame → BuddyAllocator
new memory = record { free_lists = λ _. none; bitmap = λ _. 0; offset = 0; memory = memory }

pub set_offset : BuddyAllocator → ℕ → BuddyAllocator
set_offset s offset = record s { offset = offset }

-- The loop of `get_bit_index`: `n` orders from `i` up.
pub order_offset : ℕ → ℕ → ℕ → ℕ
order_offset zero i offset = offset
order_offset (suc n) i offset = order_offset n (i + 1) (add64 offset (max_pages / 2 ^ (i + 1)))

pub get_bit_index : ℕ → ℕ → ℕ
get_bit_index page_idx order = add64 (order_offset order 0 0) (page_idx / 2 ^ (order + 1))

-- Toggles the bit, and returns its new value.
pub toggle_bit : BuddyAllocator → ℕ → ℕ → Outcome (Bool × BuddyAllocator)
toggle_bit s page_idx order =
    let bit_idx = get_bit_index page_idx order in
    let byte_idx = bit_idx / 8 in
    let mask = 2 ^ (bit_idx % 8) in
    let byte = bit_xor (s.bitmap byte_idx) mask in
    if leb bitmap_size byte_idx
    then panic
    else ok (not (bit_and byte mask == 0), record s { bitmap = write s.bitmap byte_idx byte })

pub calculate_buddy_address : BuddyAllocator → ℕ → ℕ → ℕ
calculate_buddy_address s ptr order =
    add64 (bit_xor (sub64 ptr s.offset) (mul64 (2 ^ order) page_size)) s.offset

-- `NonNull::new`
abbrev pub non_null : ℕ → Option ℕ
non_null ptr = if ptr == 0 then none else some ptr

-- `p.prev = q`, if there is a frame.
abbrev pub set_prev : Option ℕ → Option ℕ → Array FreeFrame → Array FreeFrame
set_prev none q memory = memory
set_prev (some p) q memory = write memory p (record (memory p) { prev = q })

-- `self.free_lists[order] = head`
abbrev set_head : ℕ → Option ℕ → BuddyAllocator → Outcome BuddyAllocator
set_head order head s =
    if leb max_order order
    then panic
    else ok (record s { free_lists = write s.free_lists order head })

pub push_free : BuddyAllocator → ℕ → ℕ → Outcome BuddyAllocator
push_free s ptr order =
    let head = s.free_lists order in
    let linked = write s.memory ptr (record { next = head; prev = none }) in
    set_head order (non_null ptr) (record s { memory = set_prev head (non_null ptr) linked })

-- The link to the frame, in the frame before it or at the head of the list, skips the frame.
abbrev skip_frame : ℕ → FreeFrame → Option ℕ → BuddyAllocator → Outcome BuddyAllocator
skip_frame order frame none s = set_head order frame.next s
skip_frame order frame (some prev) s =
    ok (record s { memory = write s.memory prev (record (s.memory prev) { next = frame.next }) })

-- The frame's own fields are read again after the one before it has been written.
pub remove_frame : BuddyAllocator → ℕ → ℕ → Outcome BuddyAllocator
remove_frame s ptr order = do
  let frame = s.memory ptr
  skipped ← skip_frame order frame frame.prev s
  let after = set_prev (skipped.memory ptr).next (skipped.memory ptr).prev skipped.memory
  ok (record skipped { memory = write after ptr (record { next = none; prev = none }) })

abbrev pub page_index : BuddyAllocator → ℕ → ℕ
page_index s ptr = sub64 ptr s.offset / page_size

-- `toggle_bit`, below the largest order only.
abbrev pub toggle_below : BuddyAllocator → ℕ → ℕ → Outcome BuddyAllocator
toggle_below s ptr order =
    if ltb order (max_order - 1)
    then (toggle_bit s (page_index s ptr) order >>= λ (_, t). ok t)
    else ok s

-- `n` orders from `order` up are left to try: at `max_order` there are none.
pub alloc_from : ℕ → ℕ → BuddyAllocator → Outcome (Option ℕ × BuddyAllocator)
alloc_from zero order s = ok (none, s)
alloc_from (suc n) order s =
    let larger = alloc_from n (order + 1) s in
    elim (s.free_lists order) [
      | some frame ↦
          remove_frame s frame order >>= λ t. toggle_below t frame order >>= λ u. ok (some frame, u)
      | none ↦ larger >>= λ (block, t). elim block [
        | none ↦ ok (none, t)
        | some ptr ↦
            let buddy_addr = calculate_buddy_address t ptr order in
            toggle_below t ptr order >>= λ u. push_free u buddy_addr order >>= λ v. ok (some ptr, v)
      ]
    ]

pub alloc : BuddyAllocator → ℕ → Outcome (Option ℕ × BuddyAllocator)
unfolding alloc_from
alloc s order = alloc_from (max_order - order) order s

-- The address lies outside the pages that the allocator manages.
abbrev pub unmanaged : BuddyAllocator → ℕ → Bool
unmanaged s addr = ltb addr s.offset || leb (add64 s.offset (max_pages * page_size)) addr

-- `n` orders from `order` up are left to merge in.
dealloc_from : ℕ → ℕ → ℕ → BuddyAllocator → Outcome BuddyAllocator
dealloc_from zero ptr order s = if unmanaged s ptr then ok s else push_free s ptr order
dealloc_from (suc n) ptr order s =
    if unmanaged s ptr
    then ok s
    else toggle_bit s (page_index s ptr) order >>= λ (is_now_one, t).
        let buddy_addr = calculate_buddy_address t ptr order in
        let merged_addr = if ltb ptr buddy_addr then ptr else buddy_addr in
        if is_now_one
        then push_free t ptr order
        else (remove_frame t buddy_addr order >>= λ u. dealloc_from n merged_addr (order + 1) u)

pub dealloc : BuddyAllocator → ℕ → ℕ → Outcome BuddyAllocator
unfolding dealloc_from
dealloc s ptr order = dealloc_from (max_order - 1 - order) ptr order s

pub add_frame : BuddyAllocator → ℕ → Outcome BuddyAllocator
add_frame s frame = if unmanaged s frame then ok s else dealloc s frame 0

-- `allocate_frame` gives the physical address of the frame.
pub allocate_frame : BuddyAllocator → Outcome (Option ℕ × BuddyAllocator)
allocate_frame s = alloc s 0 >>= λ (block, t).
    ok (Option.map (λ ptr. sub64 ptr t.offset / page_size * page_size) block, t)
