-- ===== src/Tasks/Scheduler/Invariant.antt =====
-- The invariant of the scheduler of kernel/src/tasks/scheduler.rs, and `schedule`.
use lymad_os.Base.{
  ℕ, ◌+◌, ◌%◌, ◌≤◌, ◌<◌, ◌≡◌, ◌≢◌, refl, ◌∙◌, ap, sym, true, false, ◌&&◌, none, some, List, arith,
  ltb, ◌==◌, if◌then◌else◌, word, add64, length, get_elem?, set, Option, length-set,
  get_elem?-set_self, get_elem?-set_ne, get_elem?_total, get_elem?-lt, ok, index_lem, inl, inr,
  Bool-cases, ltb→lt, ◌⊎◌, get_elem?-set,
}
use native.Mathlib.Nat.{mod-eq_of_lt, mod_self, mod-lt}
use mathlib.Core.Option
use lymad_os.Tasks.Task.{Task, TaskContext, TaskState, kernel_stack_top}
use lymad_os.Tasks.Scheduler.{Scheduler, schedule}

-- The state of task `i`.
abbrev pub state_at : Scheduler → ℕ → TaskState
state_at s i = if s.initialized && i == s.current then TaskState.running else TaskState.ready

pub record IsValid (s : Scheduler) : Type 0 where
  pub fits : length s.tasks < word
  pub idle : s.initialized ≡ false → s.current ≡ 0
  pub started : s.initialized ≡ true → s.current < length s.tasks
  pub states : (i : ℕ) (t : Task) → get_elem? s.tasks i ≡ some t → t.state ≡ state_at s i

-- The saved registers of task `i`.
abbrev pub context_at : List Task → ℕ → Option TaskContext
context_at xs i = Option.map (λ t. t.context) (get_elem? xs i)

-- The index of the next task.
abbrev pub next : Scheduler → ℕ
next s = (s.current + 1) % length s.tasks

-- The next index is one further, or the first again.
pub next_cases :
    (c n : ℕ) → c < n → ((c + 1 < n) × ((c + 1) % n ≡ c + 1)) ⊎ ((c + 1 ≡ n) × ((c + 1) % n ≡ 0))
next_cases c n h = elim (Bool-cases (ltb (c + 1) n)) [
  | inl e ↦ inl (ltb→lt _ _ e, mod-eq_of_lt (ltb→lt _ _ e))
  | inr e ↦
      let last : c + 1 ≡ n = ground arith in inr (last, ap (λ (k : ℕ). k % n) last ∙ mod_self n)
]

pub next-ne : (c n : ℕ) → c < n → 2 ≤ n → (c + 1) % n ≢ c
next-ne c n h two e = ground (arith, next_cases c n h)

-- What `schedule` returns and leaves, with two tasks or more.
pub schedule_lem :
    {s : Scheduler} {a b : Task}
    → IsValid s
    → 2 ≤ length s.tasks
    → get_elem? s.tasks s.current ≡ some a
    → get_elem? s.tasks (next s) ≡ some b
    → schedule s
      ≡ ok (
        some (s.current, next s, kernel_stack_top b),
        record s {
          tasks =
              set
                (set s.tasks s.current (record a { state = TaskState.ready }))
                (next s)
                (record b { state = TaskState.running });
          current = next s;
        },
      )
unfolding schedule kernel_stack_top
schedule_lem {s} {a} {b} v two ha hb =
    let below = get_elem?-lt s.tasks s.current ha in
    let many : ltb (length s.tasks) 2 ≡ false = ground arith in
    let step : add64 s.current 1 ≡ s.current + 1 = omega (arith, v.fits) in
    let apart : s.current ≢ next s = λ e. next-ne s.current (length s.tasks) below two (sym e) in
    let a' = record a { state = TaskState.ready } in
    let b' = record b { state = TaskState.running } in
    let paused = set s.tasks s.current a' in
    let hb' : get_elem? paused (next s) ≡ some b = get_elem?-set_ne s.tasks a' apart ∙ hb in
    let hn : get_elem? (set paused (next s) b') (next s) ≡ some b' =
      get_elem?-set_self paused (next s) b' (get_elem?-lt paused (next s) hb') in
    rw (
      many,
      index_lem s.tasks s.current ha,
      step,
      index_lem paused (next s) hb',
      index_lem _ (next s) hn,
    )

-- The states after a switch.
switched-states :
    {s : Scheduler} (a b : Task)
    → IsValid s
    → s.initialized ≡ true
    → 2 ≤ length s.tasks
    → s.current < length s.tasks
    → (i : ℕ) (t : Task)
    → get_elem?
        (set
          (set s.tasks s.current (record a { state = TaskState.ready }))
          (next s)
          (record b { state = TaskState.running }))
        i
      ≡ some t
    → t.state ≡ (if i == next s then TaskState.running else TaskState.ready)
switched-states {s} a b v on two below i t h =
    let a' = record a { state = TaskState.ready } in
    let b' = record b { state = TaskState.running } in
    let paused = set s.tasks s.current a' in
    let in_range : next s < length s.tasks = mod-lt (s.current + 1) (omega arith) in
    ground (
      arith,
      get_elem?-set paused (next s) i b' (omega (arith, length-set s.tasks s.current a')),
      get_elem?-set s.tasks s.current i a' below,
      v.states i t,
    )

-- The result of `schedule`.
pub record Switched (s t : Scheduler) : Type 0 where
  pub valid : IsValid t
  pub current : t.current ≡ next s
  pub count : length t.tasks ≡ length s.tasks
  pub initialized : t.initialized ≡ true
  pub contexts : (i : ℕ) → context_at t.tasks i ≡ context_at s.tasks i

switched-contexts :
    (xs : List Task) (c n : ℕ) {a b : Task} (i : ℕ)
    → c < length xs
    → n < length xs
    → get_elem? xs c ≡ some a
    → get_elem? xs n ≡ some b
    → context_at
        (set
          (set xs c (record a { state = TaskState.ready }))
          n
          (record b { state = TaskState.running }))
        i
      ≡ context_at xs i
switched-contexts xs c n {a} {b} i hc hn ha hb =
    let a' = record a { state = TaskState.ready } in
    let b' = record b { state = TaskState.running } in
    ground (
      arith,
      get_elem?-set (set xs c a') n i b' (omega (arith, length-set xs c a')),
      get_elem?-set xs c i a' hc,
    )

-- On a started scheduler whose invariant holds, `schedule` does not panic. With fewer than two tasks it
-- changes nothing; else it returns the indices of the old and of the new current task, the new one is
-- the next in the ring, and again exactly it is running and every other task is ready.
pub schedule-IsValid :
    {s : Scheduler}
    → IsValid s
    → s.initialized ≡ true
    → (length s.tasks < 2 → schedule s ≡ ok (none, s))
      × (2 ≤ length s.tasks
          → (b : Task) × (t : Scheduler) × (get_elem? s.tasks (next s) ≡ some b)
            × (schedule s ≡ ok (some (s.current, next s, kernel_stack_top b), t))
            × Switched s t)
unfolding schedule
schedule-IsValid {s} v on = (
  λ few. ground arith,
  λ two.
      let below : s.current < length s.tasks = v.started on in
      let in_range : next s < length s.tasks = mod-lt (s.current + 1) (omega arith) in
      let (a, ha) = get_elem?_total s.tasks s.current below in
      let (b, hb) = get_elem?_total s.tasks (next s) in_range in
      let a' = record a { state = TaskState.ready } in
      let b' = record b { state = TaskState.running } in
      let count =
        length-set (set s.tasks s.current a') (next s) b' ∙ length-set s.tasks s.current a' in
      (
        b,
        record s { tasks = set (set s.tasks s.current a') (next s) b'; current = next s },
        hb,
        schedule_lem v two ha hb,
        record {
          valid = record {
            fits = omega (arith, count, v.fits);
            idle = λ off. absurd (ground (arith, on));
            started = λ _. omega (arith, count);
            states = λ i t h. ground (arith, switched-states a b v on two below i t h, on);
          };
          current = refl;
          count = count;
          initialized = on;
          contexts = λ i. switched-contexts s.tasks s.current (next s) i below in_range ha hb;
        },
      ),
)
