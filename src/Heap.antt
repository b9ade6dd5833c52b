-- ===== src/Heap.antt =====
-- kernel/src/mm/allocator.rs: the heap, the page allocator behind it, and how kernel/src/main.rs fills that.
--
-- A null pointer is 0. The bounds `depth` and `length` are those of the caches' operations in Slub.antt.
-- A lock that holds an `Option` is the `Option`. The memory map's allocator is in Memory.antt.
pub mod Drain
pub mod Fill
pub mod Classes
pub mod Pages
pub mod Cached
pub mod Returned
mod Tests
use lymad_os.Base.{
  ℕ, Option, none, some, List, [], ◌∷◌, ltb, leb, if◌then◌else◌, Outcome, panic, ok, ◌>>=◌, Array,
  index, set,
}
use lymad_os.Address.{AddressOps}
use lymad_os.Buddy.{FreeFrame, BuddyAllocator, new, set_offset}
use lymad_os.Buddy as buddy
use lymad_os.Slub.{page_size, PageProvider, SCache, Memory, Slabs}
use lymad_os.Slub as slub

pub record GlobalPageAllocator : Type 0 where
  pub frame_allocator : BuddyAllocator

pub alloc_page : GlobalPageAllocator → Outcome (Option ℕ × GlobalPageAllocator)
alloc_page p =
    buddy.alloc p.frame_allocator 0 >>= λ (frame, t). ok (frame, record { frame_allocator = t })

pub free_page : GlobalPageAllocator → ℕ → Outcome GlobalPageAllocator
free_page p ptr = buddy.dealloc p.frame_allocator ptr 0 >>= λ t. ok (record { frame_allocator = t })

-- `memory` is what the pages hold.
pub init_heap : Array FreeFrame → ℕ → Option GlobalPageAllocator
init_heap memory offset = some (record { frame_allocator = set_offset (new memory) offset })

pub add_frame : Option GlobalPageAllocator → ℕ → Outcome (Option GlobalPageAllocator)
add_frame none start = ok none
add_frame (some p) start =
    buddy.add_frame p.frame_allocator start >>= λ t. ok (some (record { frame_allocator = t }))

pub allocate_frame : Option GlobalPageAllocator → Outcome (Option ℕ × Option GlobalPageAllocator)
allocate_frame none = ok (none, none)
allocate_frame (some p) = buddy.allocate_frame p.frame_allocator >>= λ (frame, t).
    ok (frame, some (record { frame_allocator = t }))

-- The loop of `main` over the usable frames.
pub add_usable_frames :
    AddressOps
    → (phys_mem_offset : ℕ) → List ℕ
    → Option GlobalPageAllocator
    → Outcome (Option GlobalPageAllocator)
add_usable_frames ops phys_mem_offset [] provider = ok provider
add_usable_frames ops phys_mem_offset (frame ∷ frames) provider =
    ops.add_virt phys_mem_offset frame >>= λ virt_addr.
    add_frame provider virt_addr >>= λ t. add_usable_frames ops phys_mem_offset frames t

-- The implementation of `PageProvider`.
abbrev pub page_provider : PageProvider GlobalPageAllocator
page_provider = record { alloc_page = alloc_page; free_page = free_page }

pub record Layout : Type 0 where
  pub size : ℕ
  pub align : ℕ

-- `SlubAllocator`, with `PAGE_ALLOCATOR` and the memory of the caches' pages.
pub record SlubAllocator : Type 0 where
  pub caches : List SCache
  pub memory : Memory
  pub page_allocator : Option GlobalPageAllocator

abbrev pub new_caches : List SCache
new_caches =
    slub.new 16
    ∷ slub.new 32
    ∷ slub.new 64
    ∷ slub.new 128
    ∷ slub.new 256
    ∷ slub.new 512
    ∷ slub.new 1024
    ∷ slub.new 2048
    ∷ []

abbrev pub size_index : ℕ → ℕ
size_index size =
    if leb size 16
    then 0
    else if leb size 32
    then 1
    else if leb size 64
    then 2
    else if leb size 128
    then 3
    else if leb size 256
    then 4
    else if leb size 512
    then 5
    else if leb size 1024
    then 6
    else 7

-- `unwrap_or(ptr::null_mut())`
abbrev unwrap_or_null : Option ℕ → ℕ
unwrap_or_null none = 0
unwrap_or_null (some ptr) = ptr

abbrev view : SCache → GlobalPageAllocator → SlubAllocator → Slabs GlobalPageAllocator
view cache p s = record { cache = cache; memory = s.memory; pages = p }

-- The cache at the index, the memory and the provider are written back.
abbrev store : ℕ → Slabs GlobalPageAllocator → SlubAllocator → SlubAllocator
store i t s = record {
  caches = set s.caches i t.cache;
  memory = t.memory;
  page_allocator = some t.pages;
}

pub alloc_large : Layout → SlubAllocator → Outcome (ℕ × SlubAllocator)
alloc_large layout s =
    if leb layout.size page_size
    then elim s.page_allocator [
      | none ↦ ok (0, s)
      | some p ↦
          alloc_page p >>= λ (ptr, t). ok (unwrap_or_null ptr, record s { page_allocator = some t })
    ]
    else ok (0, s)

pub alloc : (depth : ℕ) → Layout → SlubAllocator → Outcome (ℕ × SlubAllocator)
alloc depth layout s =
    let i = size_index layout.size in
    if ltb 2048 layout.size
    then alloc_large layout s
    else (index s.caches i >>= λ cache. elim s.page_allocator [
      | none ↦ ok (0, s)
      | some p ↦ slub.alloc page_provider depth (view cache p s) >>= λ (ptr, t).
          ok (unwrap_or_null ptr, store i t s)
    ])

pub dealloc : (length : ℕ) → ℕ → Layout → SlubAllocator → Outcome SlubAllocator
dealloc length ptr layout s =
    let i = size_index layout.size in
    if ltb 2048 layout.size
    then elim s.page_allocator [
      | none ↦ ok s
      | some p ↦ free_page p ptr >>= λ t. ok (record s { page_allocator = some t })
    ]
    else (index s.caches i >>= λ cache. elim s.page_allocator [
      | none ↦ ok s
      | some p ↦ slub.dealloc page_provider length ptr (view cache p s) >>= λ t. ok (store i t s)
    ])
