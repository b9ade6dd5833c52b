-- ===== src/Tasks/Switch.antt =====
-- kernel/src/tasks/switch.rs: the timer tick that switches tasks, and the first entry into user mode.
--
-- `SCHEDULER` is locked for the whole of each function, so its value is passed and returned.
pub mod Isolation
pub mod Runs
pub mod Entry
use mathlib.Core.Option
use lymad_os.Base.{
  ℕ, Bool, Option, none, some, List, [], ◌∷◌, ◌++◌, bit_and, ◌==◌, if◌then◌else◌, set, Outcome,
  panic, ok, ◌>>=◌, index,
}
use lymad_os.Tasks.Task.{Task, TaskContext}
use lymad_os.Tasks.Scheduler.{
  Scheduler, schedule, current_task_id, current_context, current_kernel_stack_top,
}

-- What a tick does besides its writes: `serial_print!` and `end_interrupt`.
pub data Event : Type 0 where
  print_user print_kernel : Event
  print_id : ℕ → Event
  end_interrupt : Event

pub record Cpu : Type 0 where
  pub context : TaskContext  -- `*context_ptr`
  pub scheduler : Scheduler
  pub tss_rsp0 : Option ℕ  -- `*TSS_RSP0_PTR`, `none` for the null pointer
  pub events : List Event

abbrev pub emit : Event → Cpu → Cpu
emit e m = record m { events = m.events ++ e ∷ [] }

abbrev print_task : Option ℕ → Cpu → Cpu
print_task none m = m
print_task (some id) m = emit (print_id id) m

-- `*TSS_RSP0_PTR = stack`, unless the pointer is null.
abbrev pub set_rsp0 : ℕ → Option ℕ → Option ℕ
set_rsp0 stack cell = Option.map (λ _. stack) cell

-- The copies between the interrupted context and the tasks' contexts.
unfoldable pub switch_context : Option (ℕ × ℕ × ℕ) → Cpu → Outcome Cpu
switch_context none m = ok m
switch_context (some (old, new, stack)) m = do
  old_task ← index m.scheduler.tasks old
  let saved = set m.scheduler.tasks old (record old_task { context = m.context })
  new_task ← index saved new
  ok (record m {
    context = new_task.context;
    scheduler = record (m.scheduler) { tasks = saved };
    tss_rsp0 = set_rsp0 stack m.tss_rsp0;
  })

unfoldable pub tick_started : Cpu → Outcome Cpu
unfolding switch_context
tick_started m = do
  id ← current_task_id m.scheduler
  let printed = print_task id m
  (switch, s) ← schedule m.scheduler
  switched ← switch_context switch (record printed { scheduler = s })
  ok (emit end_interrupt switched)

unfoldable pub timer_tick : Cpu → Outcome Cpu
unfolding tick_started
timer_tick m =
    let from_usermode = bit_and m.context.cs 3 == 3 in
    if m.scheduler.initialized
    then tick_started m
    else ok (emit end_interrupt (emit (if from_usermode then print_user else print_kernel) m))

-- What `switch_to_first_task` loads: the frame that `iretq` pops, and the four data segments.
pub record UserEntry : Type 0 where
  pub rip : ℕ
  pub cs : ℕ
  pub rflags : ℕ
  pub rsp : ℕ
  pub ss : ℕ
  pub data_segments : ℕ

expect {ℓ} : {A : Type ℓ} → Option A → Outcome A
expect none = panic
expect (some a) = ok a

unfoldable pub switch_to_first_task : Scheduler → Option ℕ → Outcome (UserEntry × Option ℕ)
unfolding expect
switch_to_first_task s tss_rsp0 = do
  found ← current_context s
  context ← expect found
  stack ← current_kernel_stack_top s
  kernel_stack ← expect stack
  ok (
    record {
      rip = context.rip;
      cs = context.cs;
      rflags = context.rflags;
      rsp = context.rsp;
      ss = context.ss;
      data_segments = context.ss;
    },
    set_rsp0 kernel_stack tss_rsp0,
  )
