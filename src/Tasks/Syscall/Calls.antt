-- ===== src/Tasks/Syscall/Calls.antt =====
-- What the system calls of kernel/src/tasks/syscall.rs answer.
use lymad_os.Base.{
  ℕ, ◌<◌, ◌≡◌, ◌≢◌, refl, sym, ◌∙◌, Bool, false, List, none, some, [], ◌∷◌, arith, inl, inr,
  Bool-cases, ◌==◌, not, Outcome, ok, panic, ◌>>=◌, Option,
}
use lymad_os.Tasks.Syscall.{
  user_space_limit, u64_max, read_user_bytes, Reply, user, invalid_pointer, write, write_bytes,
  syscall_entry,
}
use lymad_os.Tasks.Syscall.Reads.{
  InUserSpace, in_user_space?, Bytes, Read, refused, no_memory, bytes, read_user_bytes-Read,
  read_user_bytes-allocated, read_user_bytes-none, read_from-ext,
}

-- Two memories with the same bytes in user space.
abbrev pub SameUserMemory : (ℕ → ℕ) → (ℕ → ℕ) → Type 0
SameUserMemory m m' = (a : ℕ) → 0 < a → a < user_space_limit → m a ≡ m' a

module _ (has_memory : ℕ → Bool) (from_utf8_lossy : List ℕ → Outcome (List ℕ)) where
  read_user_bytes-same :
      (m m' : ℕ → ℕ) (ptr len : ℕ)
      → SameUserMemory m m'
      → read_user_bytes has_memory m ptr len ≡ read_user_bytes has_memory m' ptr len
  read_user_bytes-same m m' ptr len same = elim (in_user_space? ptr len) [
    | inl u ↦
        let p = u.not_null in
        let e = u.end_below in
        let read = read_from-ext m m' ptr len 0 p (omega arith) same in
        read_user_bytes-allocated has_memory m ptr len u
        ∙ rw read (sym (read_user_bytes-allocated has_memory m' ptr len u))
    | inr out ↦
        read_user_bytes-none has_memory m ptr len out
        ∙ sym (read_user_bytes-none has_memory m' ptr len out)
  ]

  -- No system call, whatever its number and arguments and whatever memory there is to allocate, panics,
  -- returns or prints anything that depends on a byte of the kernel's half of the address space or on
  -- the byte at address 0: two memories that agree on the other user addresses get the same answer.
  pub syscall_entry-user_memory :
      (m m' : ℕ → ℕ) (syscall_num arg1 arg2 arg3 arg4 arg5 : ℕ)
      → SameUserMemory m m'
      → syscall_entry has_memory from_utf8_lossy m syscall_num arg1 arg2 arg3 arg4 arg5
        ≡ syscall_entry has_memory from_utf8_lossy m' syscall_num arg1 arg2 arg3 arg4 arg5
  unfolding syscall_entry write write_bytes
  syscall_entry-user_memory m m' n a1 a2 a3 a4 a5 same =
      let e = read_user_bytes-same m m' a2 a3 same in rw e refl

  -- What system call 2 comes to.
  pub data Answered (memory : ℕ → ℕ) (fd ptr len : ℕ) : Outcome Reply → Type 0 where
    bad_descriptor : fd ≢ 1 → Answered memory fd ptr len (ok (u64_max, []))
    bad_buffer :
        fd ≡ 1
        → ¬ InUserSpace ptr len
        → Answered memory fd ptr len (ok (u64_max, invalid_pointer ptr len ∷ []))
    no_buffer :
        fd ≡ 1
        → InUserSpace ptr len
        → 0 < len
        → has_memory len ≡ false
        → Answered memory fd ptr len panic
    no_text :
        (bs : List ℕ)
        → fd ≡ 1
        → InUserSpace ptr len
        → Bytes memory ptr len bs
        → from_utf8_lossy bs ≡ panic
        → Answered memory fd ptr len panic
    printed :
        (bs text : List ℕ)
        → fd ≡ 1
        → InUserSpace ptr len
        → Bytes memory ptr len bs
        → from_utf8_lossy bs ≡ ok text
        → len ≢ u64_max
        → Answered memory fd ptr len (ok (len, user text ∷ []))

  answer :
      (memory : ℕ → ℕ) (fd ptr len : ℕ) (bs : List ℕ)
      → fd ≡ 1
      → InUserSpace ptr len
      → Bytes memory ptr len bs
      → (o : Outcome (List ℕ)) → from_utf8_lossy bs ≡ o
      → Answered memory fd ptr len (o >>= λ msg. ok (len, user msg ∷ []))
  answer memory fd ptr len bs one u b panic e = no_text bs one u b e
  answer memory fd ptr len bs one u b (ok text) e =
      let h = u.end_below in printed bs text one u b e (omega arith)

  printing :
      (memory : ℕ → ℕ) (fd ptr len : ℕ) {o : Outcome (Option (List ℕ))}
      → fd ≡ 1
      → Read has_memory memory ptr len o
      → Answered memory fd ptr len (
          o >>= λ buffer. elim buffer [
            | some bs ↦ from_utf8_lossy bs >>= λ msg. ok (len, user msg ∷ [])
            | none ↦ ok (u64_max, invalid_pointer ptr len ∷ [])
          ])
  printing memory fd ptr len one (refused out) = bad_buffer one out
  printing memory fd ptr len one (no_memory u pos full) = no_buffer one u pos full
  printing memory fd ptr len one (bytes {bs} u b) =
      answer memory fd ptr len bs one u b (from_utf8_lossy bs) refl

  -- System call 2, for any descriptor, pointer and length, returns its error code -1 for a descriptor other
  -- than 1 and for a buffer outside user space, which it reports. Else it panics if the global allocator
  -- has no memory for a buffer that is not empty, or for its text, and otherwise it prints the text of the
  -- bytes of the buffer and returns their number, which is not the error code.
  pub write_bytes-Answered :
      (memory : ℕ → ℕ) (fd ptr len : ℕ)
      → Answered memory fd ptr len (write_bytes has_memory from_utf8_lossy memory fd ptr len)
  unfolding write_bytes
  write_bytes-Answered memory fd ptr len = elim (Bool-cases (not (fd == 1))) [
    | inl other ↦ rw other (bad_descriptor (λ e. ground arith))
    | inr one ↦
        rw one (
          printing memory fd ptr len (ground arith)
            (read_user_bytes-Read has_memory memory ptr len))
  ]
