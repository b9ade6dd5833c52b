-- ===== src/Tasks/Switch/Isolation.antt =====
-- The registers of the tasks across a tick of kernel/src/tasks/switch.rs.

use lymad_os.Base.{
  ℕ, ◌+◌, ◌≤◌, ◌<◌, ◌≡◌, refl, ◌∙◌, ap, true, Option, some, arith, ◌==◌, if◌then◌else◌, length,
  length-set, get_elem?, get_elem?-set, get_elem?-lt, get_elem?_total, set, Outcome, ok, bit_and,
  index_lem,
}
use native.Mathlib.Nat.{mod-lt}
use lymad_os.Tasks.Task.{Task, TaskContext, kernel_stack_top}
use lymad_os.Tasks.Scheduler.{Scheduler}
use lymad_os.Tasks.Scheduler.Invariant.{IsValid, next, next-ne, schedule-IsValid, context_at}
use lymad_os.Tasks.Scheduler.Current.{current_fields}
use lymad_os.Tasks.Switch.{
  Cpu, print_id, print_user, print_kernel, end_interrupt, emit, timer_tick, switch_context,
  tick_started, set_rsp0,
}

-- The registers of task `i`: those of the processor while it is the current task, else the saved ones.
abbrev pub registers : Cpu → ℕ → Option TaskContext
registers m i = if i == m.scheduler.current then some m.context else context_at m.scheduler.tasks i

-- Registers saved in a task do not matter to the scheduler.
save-IsValid :
    {s : Scheduler} (i : ℕ) {t : Task} (c : TaskContext)
    → IsValid s
    → get_elem? s.tasks i ≡ some t
    → IsValid (record s { tasks = set s.tasks i (record t { context = c }) })
save-IsValid {s} i {t} c v h =
    let count = length-set s.tasks i (record t { context = c }) in
    record {
      fits = omega (arith, count, v.fits);
      idle = v.idle;
      started = λ on. omega (arith, count, v.started on);
      states = λ j u k. ground (
        arith,
        get_elem?-set s.tasks i j (record t { context = c }) (get_elem?-lt s.tasks i h),
        v.states j u,
        v.states i t h,
      );
    }

pub timer_tick-started : (m : Cpu) → m.scheduler.initialized ≡ true → timer_tick m ≡ tick_started m
unfolding timer_tick
timer_tick-started m on = ap (λ b. if b then tick_started m else idle) on
  where
    idle : Outcome Cpu
    idle = ok (
        emit end_interrupt
          (emit (if bit_and m.context.cs 3 == 3 then print_user else print_kernel) m))

-- What a tick leaves.
pub record Ticked (m m' : Cpu) : Type 0 where
  pub valid : IsValid m'.scheduler
  pub initialized : m'.scheduler.initialized ≡ true
  pub count : length m'.scheduler.tasks ≡ length m.scheduler.tasks
  pub current : m'.scheduler.current ≡ next m.scheduler
  pub kept : (i : ℕ) → registers m' i ≡ registers m i
  pub kernel_stack :
      (b : Task) × (get_elem? m.scheduler.tasks (next m.scheduler) ≡ some b)
      × (m'.tss_rsp0 ≡ set_rsp0 (kernel_stack_top b) m.tss_rsp0)

-- On a started scheduler of two tasks or more, a tick succeeds and makes the next task of the ring the
-- current one. No task's registers change: those of the interrupted task are saved, those of the next
-- are loaded as they were saved. The processor's stack for interrupts becomes the next task's.
pub timer_tick-Ticked :
    {m : Cpu}
    → IsValid m.scheduler
    → m.scheduler.initialized ≡ true
    → 2 ≤ length m.scheduler.tasks
    → (m' : Cpu) × (timer_tick m ≡ ok m') × Ticked m m'
unfolding tick_started switch_context
timer_tick-Ticked {m} v on two =
    let s = m.scheduler in
    let (a, ha) = get_elem?_total s.tasks s.current (v.started on) in
    let (b, t, hb, et, sw) = (schedule-IsValid v on).1 two in
    let in_range : next s < length s.tasks = mod-lt (s.current + 1) (omega arith) in
    let apart = next-ne s.current (length s.tasks) (v.started on) two in
    let (a1, ha1) = get_elem?_total t.tasks s.current (omega (arith, sw.count, v.started on)) in
    let (b1, hb1) = get_elem?_total t.tasks (next s) (omega (arith, sw.count)) in
    let a2 = record a1 { context = m.context } in
    let saved = set t.tasks s.current a2 in
    let at = λ (i : ℕ). get_elem?-set t.tasks s.current i a2 (get_elem?-lt t.tasks s.current ha1) in
    let hb2 : get_elem? saved (next s) ≡ some b1 = ground (arith, at (next s)) in
    (
      record {
        context = b1.context;
        scheduler = record t { tasks = saved };
        tss_rsp0 = set_rsp0 (kernel_stack_top b) m.tss_rsp0;
        events = (emit end_interrupt (emit (print_id a.id) m)).events;
      },
      timer_tick-started m on
          ∙ rw (
            (current_fields s ha).0,
            et,
            index_lem t.tasks s.current ha1,
            index_lem saved (next s) hb2,
          ),
      record {
        valid = save-IsValid s.current m.context sw.valid ha1;
        initialized = sw.initialized;
        count = length-set t.tasks s.current a2 ∙ sw.count;
        current = sw.current;
        kept = λ i. ground (arith, at i, sw.contexts i, sw.contexts (next s), sw.current);
        kernel_stack = (b, hb, refl);
      },
    )
