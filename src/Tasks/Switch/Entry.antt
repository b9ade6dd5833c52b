-- ===== src/Tasks/Switch/Entry.antt =====
-- `timer_interrupt_entry` of kernel/src/tasks/switch.rs: the assembly around `timer_tick`.
use lymad_os.Base.{ℕ, ◌≡◌, refl, Option, none, some, List, [], ◌∷◌}
use lymad_os.Tasks.Task.{TaskContext}
use lymad_os.Tasks.Asm.{
  Reg, rax, rbx, rcx, rdx, rsi, rdi, rbp, r8, r9, r10, r11, r12, r13, r14, r15, get, put,
}

pub data Instr : Type 0 where
  push pop : Reg → Instr
  call_timer_tick : Instr  -- `mov rdi, rsp`, `call timer_tick`
  iretq : Instr

pub record State : Type 0 where
  pub regs : TaskContext
  pub stack : List ℕ

-- `*context_ptr` at the top of the stack, in the order of the fields of `TaskContext`.
abbrev pub layout : TaskContext → List ℕ → List ℕ
layout c rest =
    c.r15 ∷ c.r14 ∷ c.r13 ∷ c.r12 ∷ c.r11 ∷ c.r10 ∷ c.r9 ∷ c.r8 ∷ c.rbp ∷ c.rdi ∷ c.rsi ∷ c.rdx
    ∷ c.rcx ∷ c.rbx ∷ c.rax ∷ c.rip ∷ c.cs ∷ c.rflags ∷ c.rsp ∷ c.ss ∷ rest

-- Takes one word off the stack.
abbrev with_word {ℓ} : {A : Type ℓ} → List ℕ → (ℕ → List ℕ → Option A) → Option A
with_word [] k = none
with_word (w ∷ ws) k = k w ws

read_context : List ℕ → Option (TaskContext × List ℕ)
read_context ws = with_word ws λ r15 ws. with_word ws λ r14 ws. with_word ws λ r13 ws.
    with_word ws λ r12 ws. with_word ws λ r11 ws. with_word ws λ r10 ws. with_word ws λ r9 ws.
      with_word ws λ r8 ws. with_word ws λ rbp ws. with_word ws λ rdi ws. with_word ws λ rsi ws.
        with_word ws λ rdx ws. with_word ws λ rcx ws. with_word ws λ rbx ws. with_word ws λ rax ws.
          with_word ws λ rip ws. with_word ws λ cs ws. with_word ws λ rflags ws.
            with_word ws λ rsp ws. with_word ws λ ss ws. some (
              record {
                r15 = r15;
                r14 = r14;
                r13 = r13;
                r12 = r12;
                r11 = r11;
                r10 = r10;
                r9 = r9;
                r8 = r8;
                rbp = rbp;
                rdi = rdi;
                rsi = rsi;
                rdx = rdx;
                rcx = rcx;
                rbx = rbx;
                rax = rax;
                rip = rip;
                cs = cs;
                rflags = rflags;
                rsp = rsp;
                ss = ss;
              },
              ws,
            )

-- The processor at an interrupt: it pushes `ss`, `rsp`, `rflags`, `cs` and `rip`, and leaves the general
-- purpose registers. The handler's own frame registers are those of `kernel`.
abbrev pub interrupted : TaskContext → TaskContext → List ℕ → State
interrupted c kernel below = record {
  regs = record c {
    rip = kernel.rip;
    cs = kernel.cs;
    rflags = kernel.rflags;
    rsp = kernel.rsp;
    ss = kernel.ss;
  };
  stack = c.rip ∷ c.cs ∷ c.rflags ∷ c.rsp ∷ c.ss ∷ below;
}

-- `tick` is what `timer_tick` does to the context that it is given, `clobber` what it leaves in the
-- registers.
module _ (tick : TaskContext → TaskContext) (clobber : TaskContext → TaskContext) where
  exec : Instr → State → Option State
  unfolding get put read_context
  exec (push r) s = some (record s { stack = get r s.regs ∷ s.stack })
  exec (pop r) s = with_word s.stack λ w ws. some (record s { regs = put r w s.regs; stack = ws })
  exec call_timer_tick s = elim (read_context s.stack) [
    | none ↦ none
    | some (c, rest) ↦ some (record { regs = clobber s.regs; stack = layout (tick c) rest })
  ]
  exec iretq s = with_word s.stack λ rip ws. with_word ws λ cs ws. with_word ws λ rflags ws.
      with_word ws λ rsp ws. with_word ws λ ss ws. some (record {
        regs = record (s.regs) { rip = rip; cs = cs; rflags = rflags; rsp = rsp; ss = ss };
        stack = ws;
      })

  pub run : List Instr → State → Option State
  unfolding exec
  run [] s = some s
  run (i ∷ is) s = elim (exec i s) [ none ↦ none | some t ↦ run is t ]

unfoldable pub timer_interrupt_entry : List Instr
timer_interrupt_entry =
    push rax
    ∷ push rbx
    ∷ push rcx
    ∷ push rdx
    ∷ push rsi
    ∷ push rdi
    ∷ push rbp
    ∷ push r8
    ∷ push r9
    ∷ push r10
    ∷ push r11
    ∷ push r12
    ∷ push r13
    ∷ push r14
    ∷ push r15
    ∷ call_timer_tick
    ∷ pop r15
    ∷ pop r14
    ∷ pop r13
    ∷ pop r12
    ∷ pop r11
    ∷ pop r10
    ∷ pop r9
    ∷ pop r8
    ∷ pop rbp
    ∷ pop rdi
    ∷ pop rsi
    ∷ pop rdx
    ∷ pop rcx
    ∷ pop rbx
    ∷ pop rax
    ∷ iretq
    ∷ []

-- Interrupted in any state, the entry hands `timer_tick` exactly the interrupted registers and resumes
-- with exactly the registers that it leaves there, whatever else `timer_tick` does to the processor's
-- registers, and with the stack below the interrupt frame as it was.
pub timer_interrupt_entry-tick :
    (tick clobber : TaskContext → TaskContext) (c kernel : TaskContext) (below : List ℕ)
    → run tick clobber timer_interrupt_entry (interrupted c kernel below)
      ≡ some (record { regs = tick c; stack = below })
unfolding run timer_interrupt_entry
timer_interrupt_entry-tick tick clobber c kernel below = refl
