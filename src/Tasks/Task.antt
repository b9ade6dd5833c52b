-- ===== src/Tasks/Task.antt =====
-- kernel/src/tasks/task.rs: the saved registers of a task, and the task.
use lymad_os.Base.{ℕ, bit_or, add64}
use lymad_os.Gdt.{Selectors}

pub record TaskContext : Type 0 where
  pub r15 : ℕ
  pub r14 : ℕ
  pub r13 : ℕ
  pub r12 : ℕ
  pub r11 : ℕ
  pub r10 : ℕ
  pub r9 : ℕ
  pub r8 : ℕ
  pub rbp : ℕ
  pub rdi : ℕ
  pub rsi : ℕ
  pub rdx : ℕ
  pub rcx : ℕ
  pub rbx : ℕ
  pub rax : ℕ
  pub rip : ℕ
  pub cs : ℕ
  pub rflags : ℕ
  pub rsp : ℕ
  pub ss : ℕ

unfoldable pub new_user : Selectors → ℕ → ℕ → TaskContext
new_user gdt entry_point user_stack_top =
    let user_code = bit_or gdt.user_code 3 in
    let user_data = bit_or gdt.user_data 3 in
    record {
      r15 = 0;
      r14 = 0;
      r13 = 0;
      r12 = 0;
      r11 = 0;
      r10 = 0;
      r9 = 0;
      r8 = 0;
      rbp = 0;
      rdi = 0;
      rsi = 0;
      rdx = 0;
      rcx = 0;
      rbx = 0;
      rax = 0;
      rip = entry_point;
      cs = user_code;
      rflags = 0x200;
      rsp = user_stack_top;
      ss = user_data;
    }

pub data TaskState : Type 0 where
  ready running blocked : TaskState

-- `kernel_stack` is the address of the boxed array.
pub record Task : Type 0 where
  pub id : ℕ
  pub state : TaskState
  pub context : TaskContext
  pub kernel_stack : ℕ

abbrev pub kernel_stack_size : ℕ
kernel_stack_size = 4096

unfoldable pub kernel_stack_top : Task → ℕ
kernel_stack_top t = add64 t.kernel_stack kernel_stack_size
