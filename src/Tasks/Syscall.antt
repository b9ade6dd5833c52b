-- ===== src/Tasks/Syscall.antt =====
-- kernel/src/tasks/syscall.rs: the system calls.
--
-- `memory` is the byte that a read of an address gives. A line on the serial port is an entry of
-- `Console`. A buffer that the global allocator has no memory for is a panic.
pub mod Reads
pub mod Calls
pub mod Handler
pub mod Star
use lymad_os.Base.{
  ℕ, zero, suc, ◌+◌, ◌-◌, Bool, ◌||◌, not, Option, none, some, List, [], ◌∷◌, ltb, leb, ◌==◌,
  if◌then◌else◌, word, add64, Outcome, panic, ok, ◌>>=◌,
}

abbrev pub user_space_limit : ℕ
user_space_limit = 0x0000_8000_0000_0000

abbrev pub u64_max : ℕ
u64_max = word - 1

-- `a.checked_add(b)`
abbrev pub checked_add : ℕ → ℕ → Option ℕ
checked_add a b = if ltb (a + b) word then some (a + b) else none

-- The reads at `ptr + i`, of which `n` are left.
unfoldable pub read_from : (ℕ → ℕ) → ℕ → ℕ → ℕ → List ℕ
read_from memory ptr zero i = []
read_from memory ptr (suc n) i = memory (add64 ptr i) ∷ read_from memory ptr n (i + 1)

-- `has_memory n` says whether the global allocator has memory for `n` bytes.
unfoldable pub read_user_bytes :
    (has_memory : ℕ → Bool) → (ℕ → ℕ) → ℕ → ℕ → Outcome (Option (List ℕ))
unfolding read_from
read_user_bytes has_memory memory ptr len =
    if leb user_space_limit ptr || ptr == 0 then ok none else elim (checked_add ptr len) [
      | none ↦ ok none
      | some end_addr ↦
          if ltb user_space_limit end_addr
          then ok none
          else if len == 0 || has_memory len
          then ok (some (read_from memory ptr len 0))
          else panic
    ]

pub data Console : Type 0 where
  user : List ℕ → Console
  invalid_pointer : ℕ → ℕ → Console
  unknown_syscall : ℕ → Console

-- The return value, and what is printed.
abbrev pub Reply : Type 0
Reply = ℕ × List Console

-- `from_utf8_lossy` is `String::from_utf8_lossy`, on the bytes of the text that it gives: it panics if it
-- must allocate and there is no memory.
module _ (has_memory : ℕ → Bool) (from_utf8_lossy : List ℕ → Outcome (List ℕ)) where
  -- The number that a call returns for the bytes that it could read, or for a bad pointer.
  abbrev pub print_bytes : (ℕ → ℕ) → ℕ → ℕ → (success failure : ℕ) → Outcome Reply
  print_bytes memory ptr len success failure =
      read_user_bytes has_memory memory ptr len >>= λ buffer. elim buffer [
        | some bytes ↦ from_utf8_lossy bytes >>= λ msg. ok (success, user msg ∷ [])
        | none ↦ ok (failure, invalid_pointer ptr len ∷ [])
      ]

  -- System call 1.
  pub write : (ℕ → ℕ) → (fd ptr len : ℕ) → Outcome Reply
  write memory fd ptr len = if not (fd == 1) then ok (1, []) else print_bytes memory ptr len 0 14

  -- System call 2.
  unfoldable pub write_bytes : (ℕ → ℕ) → (fd ptr len : ℕ) → Outcome Reply
  write_bytes memory fd ptr len =
      if not (fd == 1) then ok (u64_max, []) else print_bytes memory ptr len len u64_max

  unfoldable pub syscall_entry :
      (ℕ → ℕ) → (syscall_num arg1 arg2 arg3 arg4 arg5 : ℕ) → Outcome Reply
  syscall_entry memory syscall_num arg1 arg2 arg3 _ _ =
      if syscall_num == 1
      then write memory arg1 arg2 arg3
      else if syscall_num == 2
      then write_bytes memory arg1 arg2 arg3
      else ok (u64_max, unknown_syscall syscall_num ∷ [])
