-- ===== src/Lib.antt =====
-- lymadOS: a model of the kernel's memory management and tasks, with the theorems that make them
-- correct. The model is of the Rust code under kernel/src.
--
-- Parts, and the files that model them:
--
--   Address         the sums and the conversions of the x86_64 crate's addresses, which panic on bad ones.
--   Bits            the masks `(x + a - 1) & !(a - 1)` and `x & !(a - 1)` that round addresses, and the
--                   operations on single binary digits.
--   Memory          kernel/src/mm/memory.rs, `BootInfoFrameAllocator`: the array of free ranges as it comes
--                   from the boot loader's memory map (Memory/Init), the allocation of aligned blocks
--                   (Memory/Carve, Memory/Allocate), frees with merging (Memory/Free, Memory/Coalesce) and
--                   the iterator over the free frames (Memory/Frames). Memory/Arrays shows what the loops
--                   over the array do to the list of the ranges in use, Memory/Ranges what that does
--                   to the addresses, and Memory/Invariant states what the operations keep.
--   Buddy           kernel/src/mm/buddy.rs: the blocks of pages, split and merged by order. Buddy/Pairs is
--                   about the pairs of buddies and their bits, Buddy/Bitmap about the bits, Buddy/FreeLists
--                   about the doubly linked lists that run through the free pages, Buddy/Blocks about the
--                   addresses that blocks cover. Buddy/Invariant ties the bitmap to the lists; Buddy/Counting
--                   and Buddy/Halves are its lemmas on toggles and on splits, and Buddy/Alloc,
--                   Buddy/Dealloc and Buddy/Init are about the operations under it.
--   Slub            kernel/src/mm/slub.rs, `SCache`: objects of one size on pages, over any `PageProvider`.
--                   Slub/Chains is about the lists of objects and of slabs, Slub/Invariant states what a cache
--                   keeps, Slub/Take, Slub/Fresh and Slub/Alloc are about `alloc`, Slub/Remove about the
--                   loop of `remove_slab_from_partial`, and Slub/Room, Slub/Put, Slub/Moves and
--                   Slub/Dealloc about `dealloc`.
--   Heap            kernel/src/mm/allocator.rs: `GlobalPageAllocator` and `SlubAllocator`. Heap/Classes is
--                   about the size classes, Heap/Fill about the loop of kernel/src/main.rs that adds the
--                   usable frames, Heap/Drain about the pages that are given afterwards, and
--                   Heap/Pages, Heap/Cached and Heap/Returned about a cache that takes its pages from the
--                   buddy allocator.
--   Graphics        kernel/src/graphics.rs, the frame buffer, and the test image of kernel/src/main.rs.
--                   Graphics/Buffers is about the loops over pixels, Graphics/Shown about the back buffer's
--                   block and what is seen.
--   Gdt             kernel/src/gdt.rs, the record `Selectors`.
--   Tasks.Task      kernel/src/tasks/task.rs, the saved registers and the task.
--   Tasks.Load      kernel/src/tasks/task.rs, `Task::from_elf`: a task from an ELF file.
--   Tasks.Start     the end of kernel/src/main.rs, which makes the first task and starts the scheduler.
--   Tasks.Scheduler kernel/src/tasks/scheduler.rs, the round-robin ring.
--   Tasks.Switch    kernel/src/tasks/switch.rs: the tick (`timer_tick`), the assembly around it
--                   (Tasks/Switch/Entry) and the first entry into user mode (`switch_to_first_task`).
--   Tasks.Syscall   kernel/src/tasks/syscall.rs: the calls (`syscall_entry`), the copy of user memory
--                   (`read_user_bytes`), the assembly around them (Tasks/Syscall/Handler) and the value
--                   of STAR (Tasks/Syscall/Star).
--   Loader          kernel/src/tasks/elf.rs and kernel/src/mm/user.rs: `load_elf` and `map_user_page`. `HandsOutFrames`
--                   in Loader/Segment is what the loader relies on of the frame allocator. Loader/Page is
--                   about the contents of a page, Loader/Load and Loader/Segment about loading pages, Loader/Whole
--                   about a whole program.
--
-- How they interact: `timer_interrupt_entry` passes the interrupted registers to `timer_tick`, which asks
-- `Scheduler::schedule` for the next task and copies the registers; `syscall_handler` calls `syscall_entry`.
-- The main function hands the frames of `usable_frames` to the buddy allocator through `add_frame` of the heap,
-- whose `allocate_frame` gives `map_user_page` its frames; `load_elf` calls that for every page of a program,
-- `Task::from_elf` makes a task of what `load_elf` gives, and the main function starts the scheduler with it.
-- `SlubAllocator` picks a cache by size, and the cache takes its pages from the buddy allocator.
--
-- Correspondence. Rust functions and types keep their names. State is passed and returned: a `&mut self`
-- method is a function from the record to the record, inside `Outcome` where the code may panic.
-- Numbers are natural numbers; `add64`, `sub64` and `mul64` wrap at 2^64, as the release build does, and
-- `saturating_sub` is the subtraction of the natural numbers. A fixed array is a function of the index,
-- of which the first `range_count` entries are in use. A pointer into the scheduler's vector is an index.
-- Assembly is a list of instructions that a small interpreter runs; a stack is the list of its words.
--
-- Bounds and fuel. A physical address is at most 2^52. A request is of at most 2^40 pages, with which no sum
-- wraps. The loop of `coalesce_ranges` runs on fuel `range_count`: a round either moves the index
-- up or takes a range away. The other loops are structural. The recursions of `alloc` and
-- `dealloc` of the buddy allocator go from one order to the next, so the distance to the largest order is
-- their fuel. `SCache::alloc` calls itself on a slab without a free object: its fuel is the number of calls
-- that fit the stack, and on a valid cache one is enough. The loop of `remove_slab_from_partial` runs on fuel
-- that the partial list must be shorter than.
--
-- Not modelled: the page tables, the event queue and the drivers. The frame allocator, the page tables and
-- the file's structures that the loader uses are parameters, as are the operations on addresses
-- (`IsDocumented` is what the theorems rely on), whether the global allocator has memory, the text that
-- `from_utf8_lossy` makes, what interrupts do to a system call, the box for a task's kernel stack, the segment
-- selectors, the memory that a system call reads and what a called function leaves in the registers that it
-- need not keep.
mod Base
pub mod Address
pub mod Bits
pub mod Memory
pub mod Buddy
pub mod Gdt
pub mod Slub
pub mod Heap
pub mod Graphics
pub mod Tasks
pub mod Loader
