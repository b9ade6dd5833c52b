-- ===== src/Tasks/Scheduler/Current.antt =====
-- The accessors of kernel/src/tasks/scheduler.rs that read the current task.
use lymad_os.Base.{ℕ, ◌≡◌, some, List, [], ◌∷◌, arith, get_elem?, ok, index_lem}
use lymad_os.Tasks.Task.{Task, kernel_stack_top}
use lymad_os.Tasks.Scheduler.{
  current_task, current_task_id, current_context, current_kernel_stack_top, Scheduler,
}

current_task_lem :
    (xs : List Task) (s : Scheduler) (i : ℕ) {t u : Task}
    → get_elem? xs i ≡ some u
    → get_elem? s.tasks s.current ≡ some t
    → current_task xs s ≡ ok (some t)
unfolding current_task
current_task_lem [] s i h k = absurd (ground arith)
current_task_lem (x ∷ xs) s i h k = rw (index_lem s.tasks s.current k)

-- The accessors read the current task.
pub current_fields :
    (s : Scheduler) {t : Task}
    → get_elem? s.tasks s.current ≡ some t
    → (current_task_id s ≡ ok (some t.id))
      × (current_context s ≡ ok (some t.context))
      × (current_kernel_stack_top s ≡ ok (some (kernel_stack_top t)))
unfolding current_task_id current_context current_kernel_stack_top
current_fields s h =
    let found = current_task_lem s.tasks s s.current h h in (rw found, rw found, rw found)
