-- ===== src/Tasks/Asm.antt =====
-- The registers and the stack that the assembly of kernel/src/tasks/switch.rs and syscall.rs uses.
-- A stack is the list of its 64-bit words, the top first: word `n` is `[rsp + 8 * n]`.
use lymad_os.Base.{ℕ}
use lymad_os.Tasks.Task.{TaskContext}

-- The registers that `push`, `pop` and `mov` name.
pub data Reg : Type 0 where
  rax rbx rcx rdx rsi rdi rbp r8 r9 r10 r11 r12 r13 r14 r15 : Reg

unfoldable pub get : Reg → TaskContext → ℕ
get rax c = c.rax
get rbx c = c.rbx
get rcx c = c.rcx
get rdx c = c.rdx
get rsi c = c.rsi
get rdi c = c.rdi
get rbp c = c.rbp
get r8 c = c.r8
get r9 c = c.r9
get r10 c = c.r10
get r11 c = c.r11
get r12 c = c.r12
get r13 c = c.r13
get r14 c = c.r14
get r15 c = c.r15

unfoldable pub put : Reg → ℕ → TaskContext → TaskContext
put rax v c = record c { rax = v }
put rbx v c = record c { rbx = v }
put rcx v c = record c { rcx = v }
put rdx v c = record c { rdx = v }
put rsi v c = record c { rsi = v }
put rdi v c = record c { rdi = v }
put rbp v c = record c { rbp = v }
put r8 v c = record c { r8 = v }
put r9 v c = record c { r9 = v }
put r10 v c = record c { r10 = v }
put r11 v c = record c { r11 = v }
put r12 v c = record c { r12 = v }
put r13 v c = record c { r13 = v }
put r14 v c = record c { r14 = v }
put r15 v c = record c { r15 = v }
