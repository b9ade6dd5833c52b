-- ===== src/Tasks/Scheduler/Setup.antt =====
-- The operations of kernel/src/tasks/scheduler.rs before the first switch: `new`, `add_task` and `start`.
use lymad_os.Base.{
  ℕ, zero, suc, ◌+◌, ◌<◌, ◌≡◌, ◌≢◌, refl, ap, sym, true, false, some, List, [], ◌∷◌, arith, word,
  length, get_elem?, length-append, get_elem?-snoc, ok,
}
use mathlib.Core.Path.{subst}
use lymad_os.Tasks.Task.{Task, TaskState}
use lymad_os.Tasks.Scheduler.{
  Scheduler, new, added, start, start_tasks, current_context, current_task, current_task_id,
}
use lymad_os.Tasks.Scheduler.Invariant.{IsValid, state_at}

pub new-IsValid : IsValid new
new-IsValid = record {
  fits = omega arith;
  idle = λ _. refl;
  started = λ h. absurd (ground arith);
  states = λ i t h. absurd (ground arith);
}

-- Adding a task that is ready keeps the invariant, started or not, while the number of tasks fits a
-- 64-bit word.
pub added-IsValid :
    {s : Scheduler} (task : Task)
    → IsValid s
    → task.state ≡ TaskState.ready
    → length s.tasks + 1 < word
    → IsValid (added s task)
added-IsValid {s} task v is_ready room =
    let count = length-append s.tasks (task ∷ []) in
    record {
      fits = omega (arith, count);
      idle = v.idle;
      started = λ on. omega (arith, count, v.started on);
      states =
          λ i t h. ground (arith, get_elem?-snoc s.tasks task i h, v.states i t, v.started, v.idle);
    }

abbrev with_first : Scheduler → Task → List Task → Scheduler
with_first s t ts = record s {
  tasks = record t { state = TaskState.running } ∷ ts;
  initialized = true;
}

with_first-states :
    {s : Scheduler} (t : Task) (ts : List Task)
    → IsValid s
    → s.initialized ≡ false
    → s.tasks ≡ t ∷ ts
    → (i : ℕ) (u : Task) → get_elem? (with_first s t ts).tasks i ≡ some u
    → u.state ≡ state_at (with_first s t ts) i
with_first-states t ts v off e zero u h = ground (arith, v.idle off)
with_first-states t ts v off e (suc i) u h =
    ground (arith, v.idle off, v.states (suc i) u (rw e h), off)

with_first-IsValid :
    {s : Scheduler} (t : Task) (ts : List Task)
    → IsValid s
    → s.initialized ≡ false
    → s.tasks ≡ t ∷ ts
    → IsValid (with_first s t ts)
with_first-IsValid t ts v off e =
    let count = ap (length {A = Task}) e in
    record {
      fits = omega (arith, count, v.fits);
      idle = λ never. absurd (ground arith);
      started = λ _. omega (arith, v.idle off);
      states = with_first-states t ts v off e;
    }

-- Starting a scheduler that keeps the invariant and is not started keeps the invariant, and starts it if it
-- has a task.
pub start-IsValid :
    {s : Scheduler}
    → IsValid s
    → s.initialized ≡ false
    → IsValid (start s) × (s.tasks ≢ [] → (start s).initialized ≡ true)
unfolding start
start-IsValid {s} v off = go s.tasks refl
  where
    go :
        (ts : List Task)
        → s.tasks ≡ ts
        → IsValid (start s) × (s.tasks ≢ [] → (start s).initialized ≡ true)
    go [] e =
        let same : start s ≡ s = ap (λ us. start_tasks us s) e in
        (subst IsValid (sym same) v, λ some_task. absurd (some_task e))
    go (t ∷ ts) e =
        let same : start s ≡ with_first s t ts = ap (λ us. start_tasks us s) e in
        (
          subst IsValid (sym same) (with_first-IsValid t ts v off e),
          λ _. ap (λ u. u.initialized) same,
        )

-- A scheduler with a task that was added to the new one is not started yet.
pub added-new : (t : Task) → (added new t).initialized ≡ false
added-new t = refl

-- The only task is the current one once the scheduler is started.
pub start-only :
    (t : Task)
    → ((start (added new t)).initialized ≡ true)
      × (current_context (start (added new t)) ≡ ok (some t.context))
      × (current_task_id (start (added new t)) ≡ ok (some t.id))
unfolding start start_tasks current_context current_task current_task_id
start-only t = (refl, refl, refl)
