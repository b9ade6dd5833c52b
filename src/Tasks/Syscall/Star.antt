-- ===== src/Tasks/Syscall/Star.antt =====
-- The STAR register of `init_syscalls` in kernel/src/tasks/syscall.rs. The other writes there set bits of
-- the processor's control registers and are not modelled.
use lymad_os.Base.{
  ℕ, ◌+◌, ◌-◌, ◌*◌, ◌/◌, ◌%◌, ◌^◌, ◌≤◌, ◌<◌, ◌≡◌, ◌∙◌, arith, bit_and, bit_or, word, sub64,
}
use lymad_os.Bits.Mask.{low_two_cleared}
use lymad_os.Bits.Join.{bit_or-disjoint, bit_or_three}
use lymad_os.Gdt.{Selectors}
use lymad_os.Tasks.Task.{new_user}

-- `!3` is of 16 bits, as the selector is.
abbrev pub sysret_base : Selectors → ℕ
sysret_base gdt = sub64 (bit_and gdt.user_data 65532) 8

-- `(sysret_base << 48) | (syscall_cs << 32)`
pub star_value : Selectors → ℕ
star_value gdt = bit_or (sysret_base gdt * 2 ^ 48 % word) (gdt.code * 2 ^ 32 % word)

-- What the processor makes of STAR at `syscall` and, for a 64-bit caller, at `sysretq`.
abbrev pub syscall_cs : ℕ → ℕ
syscall_cs star = star / 2 ^ 32 % 2 ^ 16

abbrev pub sysret_cs : ℕ → ℕ
sysret_cs star = bit_or (star / 2 ^ 48 + 16) 3

abbrev pub sysret_ss : ℕ → ℕ
sysret_ss star = bit_or (star / 2 ^ 48 + 8) 3

-- For 16-bit selectors, with the user data segment behind the first entry of the table and the user code
-- segment right behind it, the value written to STAR makes `syscall` load the kernel's code selector,
-- and `sysretq` load the very selectors that a task is created with.
pub star_value-selectors :
    (gdt : Selectors) (entry_point user_stack_top : ℕ)
    → let c = new_user gdt entry_point user_stack_top in
      gdt.code < 65536
      → gdt.user_data < 65536
      → 8 ≤ gdt.user_data
      → gdt.user_code ≡ gdt.user_data + 8
      → (syscall_cs (star_value gdt) ≡ gdt.code)
        × (sysret_cs (star_value gdt) ≡ c.cs)
        × (sysret_ss (star_value gdt) ≡ c.ss)
unfolding star_value new_user
star_value-selectors gdt entry top hc hd behind next =
    let cleared = low_two_cleared gdt.user_data hd in
    let base : sysret_base gdt ≡ gdt.user_data / 4 * 4 - 8 = omega (arith, cleared) in
    let high : sysret_base gdt * 2 ^ 48 % word ≡ sysret_base gdt * 2 ^ 48 = omega (arith, base) in
    let low : gdt.code * 2 ^ 32 % word ≡ gdt.code * 2 ^ 32 = omega arith in
    let value : star_value gdt ≡ sysret_base gdt * 2 ^ 48 + gdt.code * 2 ^ 32 =
      cc (high, low) ∙ bit_or-disjoint 48 (sysret_base gdt) (gdt.code * 2 ^ 32) (omega arith) in
    let star = star_value gdt in
    (
      omega (arith, value),
      omega (arith, value, base, bit_or_three (star / 2 ^ 48 + 16), bit_or_three gdt.user_code),
      omega (arith, value, base, bit_or_three (star / 2 ^ 48 + 8), bit_or_three gdt.user_data),
    )
