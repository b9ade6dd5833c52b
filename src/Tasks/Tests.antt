-- ===== src/Tasks/Tests.antt =====
-- Runs of kernel/src/tasks, and the theorems on it at concrete tasks and system calls.
use lymad_os.Base.{
  Bool, List, leb, ℕ, ◌+◌, ◌*◌, ◌%◌, ◌<◌, ◌≤◌, ◌≡◌, refl, false, none, some, [], ◌∷◌, arith, ltb,
  if◌then◌else◌, length, get_elem?, Outcome, panic, ok,
}
use lymad_os.Gdt.{Selectors}
use lymad_os.Tasks.Task.{TaskContext, new_user, TaskState, Task, kernel_stack_top}
use lymad_os.Tasks.Scheduler.{Scheduler, new, added, start, schedule, current_task_id}
use lymad_os.Tasks.Scheduler.Invariant.{IsValid, next, Switched, schedule-IsValid}
use lymad_os.Tasks.Scheduler.Setup.{new-IsValid, added-IsValid, start-IsValid}
use lymad_os.Tasks.Scheduler.RoundRobin.{schedules, Turned, schedules-Turned, schedules-fair}
use lymad_os.Tasks.Switch.{Cpu, timer_tick, tick_started, switch_context}
use lymad_os.Tasks.Switch.Isolation.{registers, Ticked, timer_tick-Ticked}
use lymad_os.Tasks.Switch.Runs.{here, tick, execute, registers_isolated}
use lymad_os.Tasks.Switch.Entry.{
  interrupted, run, timer_interrupt_entry, timer_interrupt_entry-tick,
}
use lymad_os.Tasks.Syscall.{
  read_user_bytes, read_from, invalid_pointer, u64_max, write_bytes, syscall_entry,
}
use lymad_os.Tasks.Syscall.Reads.{Read, read_user_bytes-Read}
use lymad_os.Tasks.Syscall.Calls.{syscall_entry-user_memory, Answered, write_bytes-Answered}
use lymad_os.Tasks.Syscall.Star.{star_value, syscall_cs, sysret_cs, sysret_ss, star_value-selectors}
use lymad_os.Tasks.Syscall.Handler
use lymad_os.Tasks.Syscall.Handler.{syscall_handler, at_syscall, returned, syscall_handler-returned}

abbrev selectors : Selectors
selectors = record {
  code = 0x08;
  kernel_data = 0x10;
  user_code = 0x23;
  user_data = 0x1b;
  tss = 0x28;
}

abbrev context : ℕ → TaskContext
unfolding new_user
context entry = new_user selectors entry 0x7fff_0000

abbrev task : ℕ → Task
task i = record {
  id = i;
  state = TaskState.ready;
  context = context (0x40_0000 + i);
  kernel_stack = 0x10_0000 + 0x1000 * i;
}

abbrev idle_ring : Scheduler
idle_ring = added (added new (task 7)) (task 8)

idle_ring-IsValid : IsValid idle_ring
idle_ring-IsValid =
    added-IsValid (task 8) (added-IsValid (task 7) new-IsValid refl (omega arith)) refl
      (omega arith)

abbrev ring : Scheduler
unfolding start
ring = start idle_ring

ring-IsValid : IsValid ring
unfolding ring
ring-IsValid = (start-IsValid idle_ring-IsValid refl).0

schedule-IsValid_example :
    (length ring.tasks < 2 → schedule ring ≡ ok (none, ring))
    × (2 ≤ length ring.tasks
        → (b : Task) × (t : Scheduler) × (get_elem? ring.tasks (next ring) ≡ some b)
          × (schedule ring ≡ ok (some (0, next ring, kernel_stack_top b), t))
          × Switched ring t)
unfolding ring start
schedule-IsValid_example = schedule-IsValid ring-IsValid refl

schedules-Turned_example : (t : Scheduler) × (schedules 3 ring ≡ ok t) × Turned ring 3 t
unfolding ring start
schedules-Turned_example = schedules-Turned 3 ring-IsValid refl (omega arith)

schedules-fair_example :
    (n : ℕ) × (t : Scheduler) × (n < length ring.tasks)
    × (schedules n ring ≡ ok t)
    × (t.current ≡ 1)
unfolding ring start
schedules-fair_example = schedules-fair 1 ring-IsValid refl (omega arith) (omega arith)

-- Task 7 is interrupted at 0x40_1234.
abbrev cpu : Cpu
cpu = record { context = context 0x40_1234; scheduler = ring; tss_rsp0 = some 0; events = [] }

timer_tick-Ticked_example : (m' : Cpu) × (timer_tick cpu ≡ ok m') × Ticked cpu m'
unfolding ring start
timer_tick-Ticked_example = timer_tick-Ticked {m = cpu} ring-IsValid refl (omega arith)

abbrev only_task : Scheduler
unfolding start
only_task = start (added new (task 7))

abbrev lone_cpu : Cpu
lone_cpu = record {
  context = context 0x40_1234;
  scheduler = only_task;
  tss_rsp0 = some 0;
  events = [];
}

only_task-IsValid : IsValid only_task
unfolding only_task
only_task-IsValid = (start-IsValid (added-IsValid (task 7) new-IsValid refl (omega arith)) refl).0

after : Outcome Cpu → Cpu
after panic = cpu
after (ok m) = m

abbrev ticked : Cpu
unfolding after
ticked = after (timer_tick cpu)

-- Task 8 overwrites its registers after the tick.
registers_isolated_example :
    registers (record ticked { context = context 0x40_5678 }) 0 ≡ registers cpu 0
unfolding ticked after timer_tick tick_started switch_context schedule current_task_id
    kernel_stack_top ring start
registers_isolated_example =
    registers_isolated 0 {m = cpu} ring-IsValid refl
      (execute (context 0x40_5678) (tick here refl) (omega arith))

-- The next task runs at its entry point, and the interrupted one stays where it was.
tick_run : (registers ticked 1 ≡ some (context 0x40_0008)) × (ticked.context.rip ≡ 0x40_0008)
unfolding ticked after timer_tick tick_started switch_context schedule current_task_id
    kernel_stack_top ring start context new_user
tick_run = (refl, refl)

timer_interrupt_entry-tick_example :
    run
      (λ _. context 0x40_0008)
      (λ c. c)
      timer_interrupt_entry
      (interrupted (context 0x40_1234) (context 0) (99 ∷ []))
    ≡ some (record { regs = context 0x40_0008; stack = 99 ∷ [] })
timer_interrupt_entry-tick_example =
    timer_interrupt_entry-tick (λ _. context 0x40_0008) (λ c. c) (context 0x40_1234) (context 0)
      (99 ∷ [])

-- The byte at an address is the address itself.
abbrev memory : ℕ → ℕ
memory a = a % 256

-- The same, but for the kernel's half.
abbrev other_memory : ℕ → ℕ
other_memory a = if ltb a 0x8000_0000_0000 then a % 256 else 0

-- The heap has no block of more than a page.
abbrev one_page : ℕ → Bool
one_page n = leb n 4096

-- Bytes that are UTF-8.
abbrev as_text : List ℕ → Outcome (List ℕ)
as_text bs = ok bs

-- A longer buffer of the user's is a panic of the kernel.
long_run : read_user_bytes one_page memory 0x1000 4097 ≡ panic
unfolding read_user_bytes
long_run = refl

read_run : read_user_bytes one_page memory 0x1000 3 ≡ ok (some (0 ∷ 1 ∷ 2 ∷ []))
unfolding read_user_bytes read_from
read_run = refl

kernel_run :
    syscall_entry one_page as_text memory 2 1 0x7fff_ffff_ffff 2 0 0
    ≡ ok (u64_max, invalid_pointer 0x7fff_ffff_ffff 2 ∷ [])
unfolding syscall_entry write_bytes read_user_bytes
kernel_run = refl

read_user_bytes-Read_example :
    Read one_page memory 0x1000 3 (read_user_bytes one_page memory 0x1000 3)
read_user_bytes-Read_example = read_user_bytes-Read one_page memory 0x1000 3

syscall_entry-user_memory_example :
    syscall_entry one_page as_text memory 1 1 0x1000 3 0 0
    ≡ syscall_entry one_page as_text other_memory 1 1 0x1000 3 0 0
syscall_entry-user_memory_example =
    syscall_entry-user_memory one_page as_text memory other_memory 1 1 0x1000 3 0 0
      (λ a p h. ground arith)

write_bytes-Answered_example :
    Answered one_page as_text memory 1 0x1000 3 (write_bytes one_page as_text memory 1 0x1000 3)
write_bytes-Answered_example = write_bytes-Answered one_page as_text memory 1 0x1000 3

abbrev add_all : ℕ → ℕ → ℕ → ℕ → ℕ → ℕ → ℕ
add_all a b c d e f = a + b + c + d + e + f

syscall_handler-returned_example :
    Handler.run add_all
      (λ c. c)
      0x23
      0x1b
      (λ s. s)
      syscall_handler
      (at_syscall (context 0x40_1234) (context 0) 5 (6 ∷ []))
    ≡ some (record {
      regs = returned (context 0x40_1234) 0 0x23 0x1b;
      stack = 0x7fff_0000 ∷ 0x200 ∷ 0x40_1234 ∷ [];
      user_rsp_temp = 0x7fff_0000;
      interrupts = false;
    })
unfolding context new_user
syscall_handler-returned_example =
    syscall_handler-returned add_all (λ c. c) 0x23 0x1b (λ s. s) (λ s. refl) (context 0x40_1234)
      (context 0) 5 (6 ∷ [])

star_value-selectors_example :
    (syscall_cs (star_value selectors) ≡ 0x08)
    × (sysret_cs (star_value selectors) ≡ (new_user selectors 0x40_0000 0x7fff_0000).cs)
    × (sysret_ss (star_value selectors) ≡ (new_user selectors 0x40_0000 0x7fff_0000).ss)
star_value-selectors_example =
    star_value-selectors selectors 0x40_0000 0x7fff_0000 (omega arith) (omega arith) (omega arith)
      refl
