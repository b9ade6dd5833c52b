-- ===== src/Tasks/Switch/Runs.antt =====
-- Runs of the machine under kernel/src/tasks/switch.rs: the current task executes, and ticks come in
-- between.
use lymad_os.Base.{
  ℕ, ◌<◌, ◌≡◌, ◌≢◌, refl, ◌∙◌, true, arith, ltb, ltb→lt, length, get_elem?_total, ok, Bool-cases,
  inl, inr,
}
use mathlib.Core.Path.{subst}
use lymad_os.Tasks.Task.{TaskContext}
use lymad_os.Tasks.Scheduler.Invariant.{IsValid, schedule-IsValid}
use lymad_os.Tasks.Scheduler.Current.{current_fields}
use lymad_os.Tasks.Scheduler.Current.{current_fields}
use lymad_os.Tasks.Switch.{
  Cpu, print_id, end_interrupt, emit, timer_tick, switch_context, tick_started,
}
use lymad_os.Tasks.Switch.Isolation.{registers, timer_tick-Ticked, timer_tick-started}

-- A started machine whose scheduler keeps its invariant.
pub record IsStarted (m : Cpu) : Type 0 where
  pub valid : IsValid m.scheduler
  pub initialized : m.scheduler.initialized ≡ true

-- Steps from `m`, in which task `i` does not execute: ticks, and instructions of another task that is
-- the current one, which may leave any registers.
pub data RunWithout (i : ℕ) (m : Cpu) : Cpu → Type 0 where
  here : RunWithout i m m
  tick : {n n' : Cpu} → RunWithout i m n → timer_tick n ≡ ok n' → RunWithout i m n'
  execute :
      {n : Cpu} (c : TaskContext)
      → RunWithout i m n
      → i ≢ n.scheduler.current
      → RunWithout i m (record n { context = c })

-- With fewer than two tasks a tick of a started scheduler prints the task and changes nothing else.
pub timer_tick-single :
    {m : Cpu}
    → IsStarted m
    → length m.scheduler.tasks < 2
    → (id : ℕ) × (timer_tick m ≡ ok (emit end_interrupt (emit (print_id id) m)))
unfolding tick_started switch_context
timer_tick-single {m} g few =
    let s = m.scheduler in
    let (a, ha) = get_elem?_total s.tasks s.current (g.valid.started g.initialized) in
    (
      a.id,
      timer_tick-started m g.initialized
          ∙ rw ((current_fields s ha).0, (schedule-IsValid g.valid g.initialized).0 few),
    )

tick-kept :
    {m m' : Cpu} (i : ℕ)
    → IsStarted m
    → timer_tick m ≡ ok m'
    → IsStarted m' × (registers m' i ≡ registers m i)
tick-kept {m} {m'} i g e = elim (Bool-cases (ltb (length m.scheduler.tasks) 2)) [
  | inl few ↦
      let (id, e') = timer_tick-single g (ltb→lt _ _ few) in
      let same : emit end_interrupt (emit (print_id id) m) ≡ m' = cc (e, e') in
      subst (λ n. IsStarted n × (registers n i ≡ registers m i)) same
        (record { valid = g.valid; initialized = g.initialized }, refl)
  | inr many ↦
      let (n, e', t) = timer_tick-Ticked {m = m} g.valid g.initialized (ground arith) in
      let same : n ≡ m' = cc (e, e') in
      subst (λ n. IsStarted n × (registers n i ≡ registers m i)) same
        (record { valid = t.valid; initialized = t.initialized }, t.kept i)
]

run-kept :
    (i : ℕ) {m n : Cpu}
    → IsStarted m
    → RunWithout i m n
    → IsStarted n × (registers n i ≡ registers m i)
run-kept i g here = (g, refl)
run-kept i g (tick r e) =
    let (g', kept) = run-kept i g r in let (g'', kept') = tick-kept i g' e in (g'', kept' ∙ kept)
run-kept i {m} g (execute {n} c r other) =
    let (g', kept) = run-kept i g r in
    (record { valid = g'.valid; initialized = g'.initialized }, ground (arith, kept))

-- On a started machine, in any run in which a task does not execute, however often ticks switch
-- between the other tasks, its registers stay the same: it resumes with the registers that it had.
pub registers_isolated :
    (i : ℕ) {m n : Cpu}
    → IsValid m.scheduler
    → m.scheduler.initialized ≡ true
    → RunWithout i m n
    → registers n i ≡ registers m i
registers_isolated i v on r = (run-kept i (record { valid = v; initialized = on }) r).1
