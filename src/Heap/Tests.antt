-- ===== src/Heap/Tests.antt =====
-- Runs of the heap's page allocator of kernel/src/mm/allocator.rs, and the theorems on it at a concrete
-- memory map.
use lymad_os.Base.{
  index, ◌∷◌, [], inl, ◌⊎◌, ap, sym, ◌%◌, ◌==◌, ℕ, ◌+◌, ◌*◌, ◌<◌, ◌≡◌, refl, arith, List, ltb,
  if◌then◌else◌, Option, none, some, Outcome, panic, ok, Array,
}
use lymad_os.Bits.Mask.{align_up, align_down}
use lymad_os.Memory.{
  range, BootInfoFrameAllocator, page_size, allocate_frame, allocate_contiguous,
  allocate_contiguous_aligned, carve, remove_range, insert_range_sorted,
}
use lymad_os.Memory.Ranges.{cover}
use lymad_os.Memory.Arrays.{active}
use lymad_os.Memory.Invariant as memory
use lymad_os.Memory.Frames.{usable_frames}
use lymad_os.Buddy.{FreeFrame, BuddyAllocator, max_pages}
use lymad_os.Buddy.Blocks.{free_cover}
use lymad_os.Buddy.Blocks as block
use lymad_os.Buddy.Invariant.{IsValid}
use lymad_os.Heap.{init_heap, add_usable_frames}
use mathlib.Core.Path.{subst}
use lymad_os.Buddy.{max_order, new, set_offset}
use lymad_os.Buddy.Blocks.{IsBlock}
use lymad_os.Buddy.Init.{no_blocks, free_cover-no_blocks, new-offset, new-IsValid}
use lymad_os.Slub.{SCache, Slabs, object_start_offset}
use lymad_os.Slub as slub
use lymad_os.Slub.Chains.{Slab}
use lymad_os.Slub.Invariant.{IsSlot}
use lymad_os.Heap.{GlobalPageAllocator, page_provider}
use lymad_os.Heap.Cached as cached
use lymad_os.Heap.Cached.{Given, alloc-Given}
use lymad_os.Heap.Returned.{Returned, dealloc-Returned}
use lymad_os.Heap.{new_caches, size_index}
use lymad_os.Heap.Classes.{Fits, size_index-Fits}
use lymad_os.Address.Example.{checked, checked-IsDocumented}
use lymad_os.Heap.Fill.{Visible, init_heap-Filled}
use lymad_os.Heap.Drain.{Drains, allocate_frame-Drains}

-- Two free pages.
abbrev booted : BootInfoFrameAllocator
booted = record {
  free_ranges = λ _. range 0x2000 0x4000;
  range_count = 1;
  allocated_bytes = 0;
  total_bytes = 0x2000;
}

booted-IsValid : memory.IsValid booted
booted-IsValid = record {
  bounded = omega arith;
  chain = (omega arith, omega arith, tt);
  pages = (record { start_on_page = refl; end_on_page = refl; physical = omega arith }, tt);
  accounted = refl;
  total_fits = omega arith;
}

abbrev contents : Array FreeFrame
contents _ = record { next = none; prev = none }

-- Where the physical memory is mapped.
abbrev offset : ℕ
offset = 0x180_0000_0000

booted-Visible : Visible offset booted
booted-Visible x h = inl (ground arith)

init_heap-Filled_example :
    (t : BuddyAllocator) × (free : ℕ → List ℕ) × (add_usable_frames checked offset
        (usable_frames booted)
        (init_heap contents offset)
      ≡ ok (some (record { frame_allocator = t })))
    × IsValid t free
    × ((x : ℕ)
        → free_cover free (offset + x)
          ≡ (if ltb x (max_pages * page_size) then cover x (active booted) else 0))
    × ((a : ℕ) → a < offset → free_cover free a ≡ 0)
init_heap-Filled_example =
    init_heap-Filled checked-IsDocumented contents offset booted booted-IsValid (omega arith)
      (omega arith) booted-Visible

abbrev state_of : Outcome (Option ℕ × BootInfoFrameAllocator) → BootInfoFrameAllocator
state_of panic = booted
state_of (ok (frame, s)) = s

allocate_frame_run : allocate_frame booted ≡ ok (some 0x2000, state_of (allocate_frame booted))
unfolding allocate_frame allocate_contiguous allocate_contiguous_aligned carve remove_range
    insert_range_sorted align_up align_down
allocate_frame_run = refl

allocate_frame-Drains_example :
    (t : BuddyAllocator) × (xs : List ℕ) × (add_usable_frames checked offset
        (usable_frames booted)
        (init_heap contents offset)
      ≡ ok (some (record { frame_allocator = t })))
    × Drains (record { frame_allocator = t }) xs
    × ((x : ℕ)
        → block.cover 0 (offset + x) xs
          ≡ (if ltb x (max_pages * page_size) then cover x (active booted) else 0))
    × (block.cover 0 (offset + 0x2000) xs ≡ 1)
allocate_frame-Drains_example =
    allocate_frame-Drains checked-IsDocumented contents offset 0x2000 booted
      (state_of (allocate_frame booted)) booted-IsValid (omega arith) (omega arith) booted-Visible
      (omega arith) allocate_frame_run

size_index-Fits_example : (c : SCache) × (index new_caches (size_index 100) ≡ ok c) × Fits 100 c
size_index-Fits_example = size_index-Fits 100 (omega arith)

-- One slab of objects of 1024 bytes, on the second page of the managed memory, with its first object in use.
abbrev slab_page : ℕ
slab_page = 0x180_0000_1000

abbrev no_pages : GlobalPageAllocator
no_pages = record { frame_allocator = set_offset (new contents) offset }

abbrev one_slab : Slabs GlobalPageAllocator
one_slab = record {
  cache = record { partial = some slab_page; size = 1024 };
  memory = record {
    headers = λ _. record { next_slab = none; freelist = some (slab_page + 0x800); in_use = 1 };
    objects =
        λ a. record { next = if a == slab_page + 0x800 then some (slab_page + 0xc00) else none };
  };
  pages = no_pages;
}

abbrev the_slab : Slab
the_slab = record { page = slab_page; free = (slab_page + 0x800) ∷ (slab_page + 0xc00) ∷ [] }

slab_slot : (i : ℕ) → i < 3 → IsSlot 1024 slab_page (slab_page + 0x400 + i * 1024)
unfolding object_start_offset
slab_slot i h = record { index = i; in_range = h; address = omega arith }

one_slab-IsValid : cached.IsValid one_slab (the_slab ∷ []) [] no_blocks
unfolding object_start_offset
one_slab-IsValid = record {
  cache = record {
    size = record { positive = omega arith; some_room = omega arith; behind_header = omega arith };
    chain = (refl, refl);
    partial_slabs = (
      record {
        on_page = record { aligned = refl; positive = omega arith; fits = omega arith };
        linked = (refl, (refl, refl));
        slots = (slab_slot 1 (omega arith), (slab_slot 2 (omega arith), tt));
        once = λ x. ground arith;
        counted = refl;
      },
      tt,
    );
    full_slabs = tt;
    unfilled = (omega arith, tt);
    filled = tt;
    apart = λ p. ground arith;
  };
  pages = new-IsValid contents offset (omega arith) (omega arith);
  aligned = ap (λ (o : ℕ). o % page_size) (new-offset contents offset);
  managed = λ q h.
      let same : slab_page ≡ q = ground arith in
      let base : offset ≡ (set_offset (new contents) offset).offset =
        sym (new-offset contents offset) in
      subst (λ (o : ℕ). IsBlock o 0 q) base
        (subst (λ (p : ℕ). IsBlock offset 0 p) same
          (record { low = omega arith; high = omega arith; aligned = refl }));
  apart = λ a. ground (arith, free_cover-no_blocks a);
}

alloc-Given_example :
    ((slub.alloc page_provider 1 one_slab ≡ ok (none, one_slab))
      × (the_slab ∷ [] ≡ [])
      × ((order : ℕ) → order < max_order → no_blocks order ≡ []))
    ⊎ ((p : ℕ) × (t : Slabs GlobalPageAllocator) × (slabs' : List Slab) × (full' : List Slab)
        × (free' : ℕ → List ℕ) × (slub.alloc page_provider 1 one_slab ≡ ok (some p, t))
        × Given (the_slab ∷ []) no_blocks p t slabs' full' free')
alloc-Given_example = alloc-Given one_slab (the_slab ∷ []) [] no_blocks 0 one_slab-IsValid

dealloc-Returned_example :
    (t : Slabs GlobalPageAllocator) × (slabs' : List Slab) × (full' : List Slab) × (free' : ℕ
      → List ℕ)
    × (slub.dealloc page_provider 2 (slab_page + 0x400) one_slab ≡ ok t)
    × Returned one_slab (the_slab ∷ []) [] (slab_page + 0x400) t slabs' full' free'
dealloc-Returned_example =
    dealloc-Returned one_slab (the_slab ∷ []) [] [] [] no_blocks 2 (slab_page + 0x400) the_slab
      one_slab-IsValid (inl refl) (slab_slot 0 (omega arith)) refl (omega arith)
