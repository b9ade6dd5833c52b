-- ===== src/Tasks/Start.antt =====
-- The end of `kernel_main` in kernel/src/main.rs, which makes the first task and starts the scheduler.
use lymad_os.Base.{
  ℕ, ◌<◌, ◌≡◌, refl, Bool, true, Option, some, List, word, add64, length, Outcome, ok, panic, ◌>>=◌,
  arith, false, Bool-cases, inl, inr,
}
use lymad_os.Address.{AddressOps, IsDocumented}
use lymad_os.Gdt.{Selectors}
use lymad_os.Tasks.Task.{Task, TaskState, new_user}
use lymad_os.Tasks.Load.{Kernel, from_elf, Made, from_elf-Made}
use lymad_os.Tasks.Scheduler as scheduler
use lymad_os.Tasks.Scheduler.{Scheduler, added, add_task, start, current_context, current_task_id}
use lymad_os.Tasks.Scheduler.Invariant.{IsValid}
use lymad_os.Tasks.Scheduler.Setup.{
  new-IsValid, added-IsValid, start-IsValid, start-only, added-new,
}
use lymad_os.Loader.{ProgramHeader, Header, Error, Result, err, done, Machine, user_stack_top}
use lymad_os.Loader.Segment.{HandsOutFrames}
use lymad_os.Loader.Whole.{WellFormed, Keeps, header_at}

module _ {W H : Type 0} (allocate_frame : Machine W → Option ℕ × Machine W)
    (map_to : (page frame flags : ℕ) → Machine W → Bool × Machine W) (header : List ℕ → Header)
    (program_header : List ℕ → ℕ → ProgramHeader) (ops : AddressOps) (phys_mem_offset : ℕ)
    (new_stack : H → Outcome (ℕ × H)) (gdt : Selectors) (room : ℕ → Bool) where
  -- `match` on the task: without one, the kernel panics. The scheduler is the static `SCHEDULER`.
  abbrev pub with_task : Scheduler → Result Task × Kernel W H → Outcome (Scheduler × Kernel W H)
  with_task s (r, k) = elim r [
    | err e ↦ panic
    | done elf_task ↦ add_task room s elf_task >>= λ t. ok (start t, k)
  ]

  pub start_user_tasks : List ℕ → Scheduler → Kernel W H → Outcome (Scheduler × Kernel W H)
  start_user_tasks hello_elf s k =
      from_elf allocate_frame map_to header program_header ops phys_mem_offset new_stack gdt
        hello_elf k
      >>= with_task s

  module _ {Held : W → ℕ → Type 0}
      (hands : HandsOutFrames allocate_frame map_to header program_header ops phys_mem_offset
        Held) where
    pub data Started (hello_elf : List ℕ) (k : Kernel W H)
        : Outcome (Scheduler × Kernel W H) → Type 0 where
      not_loaded :
          (e : Error) (k' : Kernel W H)
          → from_elf allocate_frame map_to header program_header ops phys_mem_offset new_stack gdt
              hello_elf k
            ≡ ok (err e, k')
          → Started hello_elf k panic
      no_stack : new_stack k.heap ≡ panic → Started hello_elf k panic
      no_room : room 1 ≡ false → Started hello_elf k panic
      running :
          (s : Scheduler) (k' : Kernel W H)
          → Keeps allocate_frame map_to header program_header ops phys_mem_offset hands k.machine
              k'.machine
          → IsValid s
          → s.initialized ≡ true
          → current_context s ≡ ok (some (new_user gdt (header hello_elf).e_entry user_stack_top))
          → current_task_id s ≡ ok (some k.next_task_id)
          → Started hello_elf k (ok (s, k'))

    -- For a frame allocator and page tables that hand out frames that nobody holds and write none of those held,
    -- and a file shorter than 2^64 bytes whose loadable segments have their bytes in the file and lie in the lower
    -- half of the address space: the kernel panics only if the file is not loaded, the box for the kernel
    -- stack panics, or there is no room for a task. Else the new scheduler becomes a valid one that has been
    -- started; its current task has the number that was next, and the context of a user task at the file's
    -- entry point on the user stack, and no byte of a frame held before has changed.
    pub start_user_tasks-Started :
        (doc : IsDocumented ops) (hello_elf : List ℕ) (small : length hello_elf < word)
        (k : Kernel W H)
        → ((i : ℕ)
            → i < (header hello_elf).e_phnum
            → WellFormed hello_elf (
                header_at allocate_frame map_to header program_header ops phys_mem_offset hands doc
                  hello_elf small
                  (header hello_elf)
                  i))
        → Started hello_elf k (start_user_tasks hello_elf scheduler.new k)
    unfolding start_user_tasks add_task
    start_user_tasks-Started doc hello_elf small k good =
        decided
          (from_elf-Made allocate_frame map_to header program_header ops phys_mem_offset new_stack
            gdt hands doc hello_elf small k good)
          refl
      where
        decided :
            {o : Outcome (Result Task × Kernel W H)}
            → Made allocate_frame map_to header program_header ops phys_mem_offset new_stack gdt
                hands
                (header hello_elf).e_entry
                k
                o
            → from_elf allocate_frame map_to header program_header ops phys_mem_offset new_stack gdt
                hello_elf k
              ≡ o
            → Started hello_elf k (o >>= with_task scheduler.new)
        decided (Made.not_loaded e m keeps) eq = not_loaded e _ eq
        decided (Made.no_stack full) eq = no_stack full
        decided (Made.made a m h keeps box) eq = elim (Bool-cases (room 1)) [
          | inr none ↦ rw none (no_room none)
          | inl some_room ↦
              let task : Task = record {
                id = k.next_task_id;
                state = TaskState.ready;
                context = new_user gdt (header hello_elf).e_entry user_stack_top;
                kernel_stack = a;
              } in
              let ready = added-IsValid task new-IsValid refl (omega arith) in
              let (on, context, id) = start-only task in
              rw some_room (
                running (start (added scheduler.new task))
                  (record { next_task_id = add64 k.next_task_id 1; machine = m; heap = h }) keeps
                  ((start-IsValid ready (added-new task)).0) on context id)
        ]
