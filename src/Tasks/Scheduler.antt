-- ===== src/Tasks/Scheduler.antt =====
-- kernel/src/tasks/scheduler.rs: the round-robin scheduler. A pointer to a task's context is the
-- task's index. An index out of range panics.
pub mod Invariant
pub mod RoundRobin
pub mod Setup
pub mod Current
use lymad_os.Base.{
  ℕ, ◌+◌, ◌%◌, ◌<◌, Bool, true, false, Option, none, some, List, [], ◌∷◌, ◌++◌, ltb, if◌then◌else◌,
  add64, length, set, Outcome, ok, panic, ◌>>=◌, index,
}
use mathlib.Core.Option
use lymad_os.Tasks.Task.{Task, TaskContext, TaskState, kernel_stack_top}

pub record Scheduler : Type 0 where
  pub tasks : List Task
  pub current : ℕ
  pub initialized : Bool

abbrev pub new : Scheduler
new = record { tasks = []; current = 0; initialized = false }

-- The scheduler with the task pushed.
abbrev pub added : Scheduler → Task → Scheduler
added s task = record s { tasks = s.tasks ++ task ∷ [] }

-- `Vec::push` panics when the vector is full and the global allocator has no memory for a larger one:
-- `room n` says whether there is room for `n` tasks.
unfoldable pub add_task : (room : ℕ → Bool) → Scheduler → Task → Outcome Scheduler
add_task room s task = if room (length s.tasks + 1) then ok (added s task) else panic

pub task_count : Scheduler → ℕ
task_count s = length s.tasks

-- `tasks[i].state = st`
abbrev pub set_state : List Task → ℕ → TaskState → Outcome (List Task)
set_state tasks i st = index tasks i >>= λ t. ok (set tasks i (record t { state = st }))

start_tasks : List Task → Scheduler → Scheduler
start_tasks [] s = s
start_tasks (t ∷ ts) s = record s {
  tasks = record t { state = TaskState.running } ∷ ts;
  initialized = true;
}

unfoldable pub start : Scheduler → Scheduler
unfolding start_tasks
start s = start_tasks s.tasks s

-- The field of the current task, if there are tasks.
current_task : List Task → Scheduler → Outcome (Option Task)
current_task [] s = ok none
current_task (_ ∷ _) s = index s.tasks s.current >>= λ t. ok (some t)

unfoldable pub current_context : Scheduler → Outcome (Option TaskContext)
unfolding current_task
current_context s = current_task s.tasks s >>= λ o. ok (Option.map (λ t. t.context) o)

unfoldable pub current_kernel_stack_top : Scheduler → Outcome (Option ℕ)
unfolding current_task
current_kernel_stack_top s = current_task s.tasks s >>= λ o. ok (Option.map kernel_stack_top o)

unfoldable pub current_task_id : Scheduler → Outcome (Option ℕ)
unfolding current_task
current_task_id s = current_task s.tasks s >>= λ o. ok (Option.map (λ t. t.id) o)

unfoldable pub schedule : Scheduler → Outcome (Option (ℕ × ℕ × ℕ) × Scheduler)
schedule s = if ltb (length s.tasks) 2 then ok (none, s) else do
  paused ← set_state s.tasks s.current TaskState.ready
  let next = add64 s.current 1 % length s.tasks
  switched ← set_state paused next TaskState.running
  new_task ← index switched next
  ok (
    some (s.current, next, kernel_stack_top new_task),
    record s { tasks = switched; current = next },
  )
