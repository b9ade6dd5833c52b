-- ===== src/Tasks/Syscall/Handler.antt =====
-- `syscall_handler` of kernel/src/tasks/syscall.rs: the assembly around `syscall_entry`.
--
-- `stack` holds the words that the handler has put on `SYSCALL_KERNEL_STACK`; while it runs there, the
-- register `rsp` of `regs` is not read. `lea rax` and `call rax` are one instruction. While interrupts
-- are on, an interrupt may come before any instruction; one that comes within `syscall_entry` is taken to come
-- before or after it.
use lymad_os.Base.{
  ℕ, zero, suc, ◌≡◌, refl, Bool, true, false, Option, none, some, List, [], ◌∷◌, bit_and, bit_or,
  sym, if◌then◌else◌,
}
use mathlib.Core.Path.{subst, fun_ext}
use lymad_os.Tasks.Task.{TaskContext}
use lymad_os.Tasks.Asm.{Reg, rax, rcx, rdx, rsi, rdi, r8, r9, r10, r11, get, put}

pub data Instr : Type 0 where
  save_user_rsp : Instr  -- `mov [rip + {user_rsp_temp}], rsp`
  load_kernel_stack : Instr  -- `lea rsp, [rip + {kernel_stack} + {stack_size}]`
  load_user_rsp : Reg → Instr  -- `mov r, [rip + {user_rsp_temp}]`
  push pop : Reg → Instr
  sti cli : Instr
  load : Reg → ℕ → Instr  -- `mov r, [rsp + 8 * n]`
  store : ℕ → Reg → Instr  -- `mov [rsp + 8 * n], r`
  add_rsp : ℕ → Instr  -- `add rsp, 8 * n`
  call_syscall_entry : Instr
  load_rsp : Instr  -- `mov rsp, [rsp]`
  sysretq : Instr

pub record State : Type 0 where
  pub regs : TaskContext
  pub stack : List ℕ
  pub user_rsp_temp : ℕ
  pub interrupts : Bool

load_at : List ℕ → ℕ → Option ℕ
load_at [] n = none
load_at (w ∷ ws) zero = some w
load_at (w ∷ ws) (suc n) = load_at ws n

store_at : List ℕ → ℕ → ℕ → Option (List ℕ)
store_at [] n v = none
store_at (w ∷ ws) zero v = some (v ∷ ws)
store_at (w ∷ ws) (suc n) v = elim (store_at ws n v) [ none ↦ none | some us ↦ some (w ∷ us) ]

drop_words : List ℕ → ℕ → Option (List ℕ)
drop_words ws zero = some ws
drop_words [] (suc n) = none
drop_words (w ∷ ws) (suc n) = drop_words ws n

-- `rflags` after `sysretq`: VM and RF are cleared, bit 1 is set.
abbrev pub sysret_flags : ℕ → ℕ
sysret_flags flags = bit_or (bit_and flags 0x3c7fd7) 2

-- `entry` is what `syscall_entry` returns for its six arguments, `clobber` what it leaves in the
-- registers that a called function need not keep, `user_cs` and `user_ss` what the STAR register gives.
module _ (entry : ℕ → ℕ → ℕ → ℕ → ℕ → ℕ → ℕ) (clobber : TaskContext → TaskContext)
    (user_cs user_ss : ℕ) where
  -- The System V calling convention: `rbx`, `rbp` and `r12` to `r15` are kept.
  abbrev pub after_call : TaskContext → TaskContext
  after_call c =
      let d = clobber c in
      record c {
        rax = entry c.rdi c.rsi c.rdx c.rcx c.r8 c.r9;
        rcx = d.rcx;
        rdx = d.rdx;
        rsi = d.rsi;
        rdi = d.rdi;
        r8 = d.r8;
        r9 = d.r9;
        r10 = d.r10;
        r11 = d.r11;
        rflags = d.rflags;
      }

  exec : Instr → State → Option State
  unfolding get put load_at store_at drop_words
  exec save_user_rsp s = some (record s { user_rsp_temp = s.regs.rsp })
  exec load_kernel_stack s = some (record s { stack = [] })
  exec (load_user_rsp r) s = some (record s { regs = put r s.user_rsp_temp s.regs })
  exec (push r) s = some (record s { stack = get r s.regs ∷ s.stack })
  exec (pop r) s = elim (s.stack) [
    | [] ↦ none
    | w ∷ ws ↦ some (record s { regs = put r w s.regs; stack = ws })
  ]
  exec sti s = some (record s { interrupts = true })
  exec cli s = some (record s { interrupts = false })
  exec (load r n) s = elim (load_at s.stack n) [
    | none ↦ none
    | some w ↦ some (record s { regs = put r w s.regs })
  ]
  exec (store n r) s = elim (store_at s.stack n (get r s.regs)) [
    | none ↦ none
    | some ws ↦ some (record s { stack = ws })
  ]
  exec (add_rsp n) s = elim (drop_words s.stack n) [
    | none ↦ none
    | some ws ↦ some (record s { stack = ws })
  ]
  exec call_syscall_entry s = some (record s { regs = after_call s.regs })
  exec load_rsp s = elim (s.stack) [
    | [] ↦ none
    | w ∷ ws ↦ some (record s { regs = record (s.regs) { rsp = w } })
  ]
  exec sysretq s = some (record s {
    regs = record (s.regs) {
      rip = s.regs.rcx;
      rflags = sysret_flags s.regs.r11;
      cs = user_cs;
      ss = user_ss;
    };
  })

  -- `interrupt` is what the state has become when the handler goes on after the interrupts, if any, that
  -- come before an instruction while they are on.
  pub run : (interrupt : State → State) → List Instr → State → Option State
  unfolding exec
  run interrupt [] s = some s
  run interrupt (i ∷ is) s = elim (exec i (if s.interrupts then interrupt s else s)) [
    | none ↦ none
    | some t ↦ run interrupt is t
  ]

unfoldable pub syscall_handler : List Instr
syscall_handler =
    save_user_rsp
    ∷ load_kernel_stack
    ∷ push rcx
    ∷ push r11
    ∷ load_user_rsp r11
    ∷ push r11
    ∷ push rax
    ∷ push rdi
    ∷ push rsi
    ∷ push rdx
    ∷ push r10
    ∷ push r8
    ∷ push r9
    ∷ sti
    ∷ load rdi 6
    ∷ load rsi 5
    ∷ load rdx 4
    ∷ load rcx 3
    ∷ load r8 2
    ∷ load r9 1
    ∷ call_syscall_entry
    ∷ store 6 rax
    ∷ cli
    ∷ load r9 0
    ∷ load r8 1
    ∷ load r10 2
    ∷ load rdx 3
    ∷ load rsi 4
    ∷ load rdi 5
    ∷ add_rsp 6
    ∷ pop rax
    ∷ load r11 1
    ∷ load rcx 2
    ∷ load_rsp
    ∷ sysretq
    ∷ []

-- The processor at `syscall`, with the next instruction's address in `c.rip`: the handler's `rip`, `cs`
-- and `ss` and the masked flags are those of `kernel`, and SFMASK turns interrupts off.
abbrev pub at_syscall : TaskContext → TaskContext → ℕ → List ℕ → State
at_syscall c kernel temp old = record {
  regs = record c {
    rcx = c.rip;
    r11 = c.rflags;
    rip = kernel.rip;
    cs = kernel.cs;
    ss = kernel.ss;
    rflags = kernel.rflags;
  };
  stack = old;
  user_rsp_temp = temp;
  interrupts = false;
}

-- The registers that a system call with result `result` gives back to the caller.
abbrev pub returned : TaskContext → (result user_cs user_ss : ℕ) → TaskContext
returned c result user_cs user_ss = record c {
  rax = result;
  rcx = c.rip;
  r11 = c.rflags;
  rflags = sysret_flags c.rflags;
  cs = user_cs;
  ss = user_ss;
}

-- The interrupts leave the handler's registers and its stack as they were, as they do unless the task
-- switched to makes a system call of its own, which runs on the same stack.
abbrev pub Resumes : (State → State) → Type 0
Resumes interrupt = (s : State) → interrupt s ≡ s

-- A system call made in any state, whatever is left in `USER_RSP_TEMP` and on the handler's stack and
-- whatever the called function does to the registers that it need not keep, provided that the interrupts
-- between `sti` and `cli` leave the handler's registers and stack as they were: `syscall_entry` gets
-- `rax`, `rdi`, `rsi`, `rdx`, `r10` and `r8`, and if it returns, the caller goes on after the instruction,
-- on its own stack, with the result in `rax`, its flags back as far as `sysretq` restores them, `rcx` and
-- `r11` overwritten by the instruction itself and every other register as it was. Interrupts are off at
-- `sysretq`.
pub syscall_handler-returned :
    (entry : ℕ → ℕ → ℕ → ℕ → ℕ → ℕ → ℕ) (clobber : TaskContext → TaskContext) (user_cs user_ss : ℕ)
    (interrupt : State → State)
    → Resumes interrupt
    → (c kernel : TaskContext) (temp : ℕ) (old : List ℕ)
    → run entry clobber user_cs user_ss interrupt syscall_handler (at_syscall c kernel temp old)
      ≡ some (record {
        regs = returned c (entry c.rax c.rdi c.rsi c.rdx c.r10 c.r8) user_cs user_ss;
        stack = c.rsp ∷ c.rflags ∷ c.rip ∷ [];
        user_rsp_temp = c.rsp;
        interrupts = false;
      })
unfolding run syscall_handler
syscall_handler-returned entry clobber user_cs user_ss interrupt resumes c kernel temp old =
    let same : (λ (s : State). s) ≡ interrupt = sym (fun_ext resumes) in
    subst
      (λ (f : State → State).
        run entry clobber user_cs user_ss f syscall_handler (at_syscall c kernel temp old)
        ≡ some (record {
          regs = returned c (entry c.rax c.rdi c.rsi c.rdx c.r10 c.r8) user_cs user_ss;
          stack = c.rsp ∷ c.rflags ∷ c.rip ∷ [];
          user_rsp_temp = c.rsp;
          interrupts = false;
        }))
      same refl
