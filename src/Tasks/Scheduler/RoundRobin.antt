-- ===== src/Tasks/Scheduler/RoundRobin.antt =====
-- The scheduler of kernel/src/tasks/scheduler.rs over many ticks.
use lymad_os.Base.{
  ℕ, zero, suc, ◌+◌, ◌-◌, ◌%◌, ◌≤◌, ◌<◌, ◌≡◌, refl, ◌∙◌, ap, sym, true, arith, length, Outcome, ok,
  ◌>>=◌,
}
use native.Mathlib.Nat.{mod-eq_of_lt, mod-lt, mod-add-mod, add-mod-mod, add-mod_right}
use lymad_os.Tasks.Scheduler.{Scheduler, schedule}
use lymad_os.Tasks.Scheduler.Invariant.{IsValid, schedule-IsValid}

-- `n` calls of `schedule`, one behind the other.
abbrev pub schedules : ℕ → Scheduler → Outcome Scheduler
schedules zero s = ok s
schedules (suc n) s = schedule s >>= λ (_, t). schedules n t

-- What `n` calls leave.
pub record Turned (s : Scheduler) (n : ℕ) (t : Scheduler) : Type 0 where
  pub valid : IsValid t
  pub initialized : t.initialized ≡ true
  pub count : length t.tasks ≡ length s.tasks
  pub current : t.current ≡ (s.current + n) % length s.tasks

-- With two tasks or more, any number `n` of calls of `schedule` succeed, and move the turn `n` places on
-- around the ring.
pub schedules-Turned :
    (n : ℕ) {s : Scheduler}
    → IsValid s
    → s.initialized ≡ true
    → 2 ≤ length s.tasks
    → (t : Scheduler) × (schedules n s ≡ ok t) × Turned s n t
schedules-Turned zero {s} v on two = (
  s,
  refl,
  record {
    valid = v;
    initialized = on;
    count = refl;
    current = sym (mod-eq_of_lt (v.started on)) ∙ ap (λ (k : ℕ). k % length s.tasks) (omega arith);
  },
)
schedules-Turned (suc n) {s} v on two =
    let (b, t, hb, e, sw) = (schedule-IsValid v on).1 two in
    let (u, eu, turned) = schedules-Turned n sw.valid sw.initialized (omega (arith, sw.count)) in
    (
      u,
      rw e eu,
      record {
        valid = turned.valid;
        initialized = turned.initialized;
        count = turned.count ∙ sw.count;
        current =
            turned.current
            ∙ cc (sw.current, sw.count)
            ∙ mod-add-mod (s.current + 1) (length s.tasks) n
            ∙ ap (λ (k : ℕ). k % length s.tasks) (omega arith);
      },
    )

-- How far it is from index `c` to index `i` around a ring of `n`.
distance : ℕ → ℕ → ℕ → ℕ
distance n c i = (i + n - c) % n

distance_lem : (n c i : ℕ) → c < n → i < n → (c + distance n c i) % n ≡ i
unfolding distance
distance_lem n c i hc hi =
    add-mod-mod c (i + n - c) n
    ∙ ap (λ (k : ℕ). k % n) (let e : c + (i + n - c) ≡ i + n = omega arith in e)
    ∙ add-mod_right i n
    ∙ mod-eq_of_lt hi

-- With two tasks or more, every task becomes the current one after fewer calls of `schedule` than there
-- are tasks.
pub schedules-fair :
    {s : Scheduler} (i : ℕ)
    → IsValid s
    → s.initialized ≡ true
    → 2 ≤ length s.tasks
    → i < length s.tasks
    → (n : ℕ) × (t : Scheduler) × (n < length s.tasks) × (schedules n s ≡ ok t) × (t.current ≡ i)
unfolding distance
schedules-fair {s} i v on two h =
    let n = distance (length s.tasks) s.current i in
    let (t, e, turned) = schedules-Turned n v on two in
    (
      n,
      t,
      mod-lt _ (omega arith),
      e,
      turned.current ∙ distance_lem (length s.tasks) s.current i (v.started on) h,
    )
