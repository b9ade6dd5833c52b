-- ===== src/Tasks/Load.antt =====
-- `Task::from_elf` of kernel/src/tasks/task.rs: a task from an ELF file.
use lymad_os.Base.{
  ℕ, ◌<◌, ◌≡◌, refl, Bool, Option, List, word, add64, length, Outcome, ok, panic, ◌>>=◌,
}
use lymad_os.Address.{AddressOps, IsDocumented}
use lymad_os.Gdt.{Selectors}
use lymad_os.Tasks.Task.{Task, TaskState, new_user}
use lymad_os.Loader.{
  ProgramHeader, Header, Error, Result, err, done, Machine, ElfLoadResult, load_elf, user_stack_top,
}
use lymad_os.Loader.Segment.{HandsOutFrames}
use lymad_os.Loader.Whole.{WellFormed, Keeps, Runs, header_at, load_elf-Runs}

-- `NEXT_TASK_ID`, the machine that the loader works on, and the heap.
pub record Kernel (W H : Type 0) : Type 0 where
  pub next_task_id : ℕ
  pub machine : Machine W
  pub heap : H

-- `new_stack` is `Box::new` on the array of zeros: it gives the address of the box, and panics when the
-- global allocator has no memory.
module _ {W H : Type 0} (allocate_frame : Machine W → Option ℕ × Machine W)
    (map_to : (page frame flags : ℕ) → Machine W → Bool × Machine W) (header : List ℕ → Header)
    (program_header : List ℕ → ℕ → ProgramHeader) (ops : AddressOps) (phys_mem_offset : ℕ)
    (new_stack : H → Outcome (ℕ × H)) (gdt : Selectors) where
  -- What `from_elf` does with what the loader gave.
  abbrev pub with_stack :
      (id : ℕ) → Kernel W H → Result ElfLoadResult × Machine W → Outcome (Result Task × Kernel W H)
  with_stack id s (r, m) = elim r [
    | err e ↦ ok (err e, record s { machine = m })
    | done load ↦ new_stack s.heap >>= λ (kernel_stack, h).
        let context = new_user gdt load.entry_point load.stack_top in
        ok (
          done (record {
            id = id;
            state = TaskState.ready;
            context = context;
            kernel_stack = kernel_stack;
          }),
          record s { machine = m; heap = h },
        )
  ]

  pub from_elf : List ℕ → Kernel W H → Outcome (Result Task × Kernel W H)
  from_elf elf_data s =
      let id = s.next_task_id in
      load_elf allocate_frame map_to header program_header ops phys_mem_offset elf_data s.machine
      >>= with_stack id (record s { next_task_id = add64 id 1 })

  module _ {Held : W → ℕ → Type 0}
      (hands : HandsOutFrames allocate_frame map_to header program_header ops phys_mem_offset
        Held) where
    -- A new task, ready to be entered at the entry point on its user stack, or the loader's error.
    pub data Made (entry_point : ℕ) (s : Kernel W H)
        : Outcome (Result Task × Kernel W H) → Type 0 where
      not_loaded :
          (e : Error) (m : Machine W)
          → Keeps allocate_frame map_to header program_header ops phys_mem_offset hands s.machine m
          → Made entry_point s (
              ok (
                err e,
                record { next_task_id = add64 s.next_task_id 1; machine = m; heap = s.heap },
              ))
      no_stack : new_stack s.heap ≡ panic → Made entry_point s panic
      made :
          (kernel_stack : ℕ) (m : Machine W) (h : H)
          → Keeps allocate_frame map_to header program_header ops phys_mem_offset hands s.machine m
          → new_stack s.heap ≡ ok (kernel_stack, h)
          → Made entry_point s (
              ok (
                done (record {
                  id = s.next_task_id;
                  state = TaskState.ready;
                  context = new_user gdt entry_point user_stack_top;
                  kernel_stack = kernel_stack;
                }),
                record { next_task_id = add64 s.next_task_id 1; machine = m; heap = h },
              ))

    -- What the box decides, once the program is loaded.
    with_stack-Made :
        (entry_point : ℕ) (s : Kernel W H) (m : Machine W)
        → Keeps allocate_frame map_to header program_header ops phys_mem_offset hands s.machine m
        → (o : Outcome (ℕ × H)) → new_stack s.heap ≡ o
        → Made entry_point s (
            with_stack s.next_task_id
              (record s { next_task_id = add64 s.next_task_id 1 })
              (done (record { entry_point = entry_point; stack_top = user_stack_top }), m))
    with_stack-Made entry_point s m k panic eq = rw eq (no_stack eq)
    with_stack-Made entry_point s m k (ok (a, h)) eq = rw eq (made a m h k eq)

    -- For a frame allocator and page tables that hand out frames that nobody holds and write none of those held,
    -- and a file shorter than 2^64 bytes whose loadable segments have their bytes in the file and lie in the lower
    -- half of the address space: making a task panics only if the box for its kernel stack
    -- does. Else, no byte of a frame held before has changed, the next task gets the next number, even if this one was not loaded, and a task that is made has the
    -- number that was next, is ready, has the context of a user task at the file's entry point on the user
    -- stack, and its kernel stack is the new box.
    pub from_elf-Made :
        (doc : IsDocumented ops) (elf_data : List ℕ)
        → (small : length elf_data < word) → (s : Kernel W H)
        → ((i : ℕ)
            → i < (header elf_data).e_phnum
            → WellFormed elf_data (
                header_at allocate_frame map_to header program_header ops phys_mem_offset hands doc
                  elf_data small
                  (header elf_data)
                  i))
        → Made (header elf_data).e_entry s (from_elf elf_data s)
    unfolding from_elf
    from_elf-Made doc elf_data small s good = Runs-Made (
        load_elf-Runs allocate_frame map_to header program_header ops phys_mem_offset hands doc
          elf_data small s.machine good)
      where
        Runs-Made :
            {o : Outcome (Result ElfLoadResult × Machine W)}
            → Runs allocate_frame map_to header program_header ops phys_mem_offset hands
                (λ (r : ElfLoadResult).
                  (r.entry_point ≡ (header elf_data).e_entry) × (r.stack_top ≡ user_stack_top))
                s.machine
                o
            → Made (header elf_data).e_entry s (
                o
                >>= with_stack s.next_task_id (record s { next_task_id = add64 s.next_task_id 1 }))
        Runs-Made (Runs.failed e m k) = not_loaded e m k
        Runs-Made (Runs.finished r m (entry, top) k) =
            rw (entry, top)
              (with_stack-Made (header elf_data).e_entry s m k (new_stack s.heap) refl)
