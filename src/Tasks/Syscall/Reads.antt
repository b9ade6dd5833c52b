-- ===== src/Tasks/Syscall/Reads.antt =====
-- What `read_user_bytes` of kernel/src/tasks/syscall.rs reads, and when it refuses.
use lymad_os.Base.{
  ℕ, zero, suc, ◌+◌, ◌≤◌, ◌<◌, ◌≡◌, ◌⊎◌, inl, inr, refl, ◌∙◌, ap, Option, none, some, List, ◌∷◌,
  arith, word, add64, length, get_elem?, ltb, leb, ◌&&◌, Bool-cases, sym, Bool, false, ◌==◌, ◌||◌,
  if◌then◌else◌, Outcome, ok, panic,
}
use mathlib.Core.Path.{subst}
use mathlib.Core.Path.{ap₂}
use lymad_os.Tasks.Syscall.{user_space_limit, read_from, read_user_bytes}

-- The buffer lies in user space, and not at address 0.
pub record InUserSpace (ptr len : ℕ) : Type 0 where
  pub not_null : 0 < ptr
  pub below : ptr < user_space_limit
  pub end_below : ptr + len ≤ user_space_limit

length-read_from : (memory : ℕ → ℕ) (ptr n i : ℕ) → length (read_from memory ptr n i) ≡ n
unfolding read_from
length-read_from memory ptr zero i = refl
length-read_from memory ptr (suc n) i = ap suc (length-read_from memory ptr n (i + 1))

get_elem?-read_from :
    (memory : ℕ → ℕ) (ptr n i k : ℕ)
    → ptr + i + n < word
    → k < n
    → get_elem? (read_from memory ptr n i) k ≡ some (memory (ptr + i + k))
unfolding read_from
get_elem?-read_from memory ptr zero i k h lt = elim lt [ ]
get_elem?-read_from memory ptr (suc n) i zero h lt = ap (λ a. some (memory a)) (omega arith)
get_elem?-read_from memory ptr (suc n) i (suc k) h lt =
    get_elem?-read_from memory ptr n (i + 1) k (omega arith) (omega arith)
    ∙ ap (λ a. some (memory a)) (omega arith)

pub read_from-ext :
    (m m' : ℕ → ℕ) (ptr n i : ℕ)
    → 0 < ptr
    → ptr + i + n ≤ user_space_limit
    → ((a : ℕ) → 0 < a → a < user_space_limit → m a ≡ m' a)
    → read_from m ptr n i ≡ read_from m' ptr n i
unfolding read_from
read_from-ext m m' ptr zero i pos h same = refl
read_from-ext m m' ptr (suc n) i pos h same =
    ap₂ ◌∷◌ (same (add64 ptr i) (omega arith) (omega arith))
      (read_from-ext m m' ptr n (i + 1) pos (omega arith) same)

pub read_user_bytes-allocated :
    (has_memory : ℕ → Bool) (memory : ℕ → ℕ) (ptr len : ℕ)
    → InUserSpace ptr len
    → read_user_bytes has_memory memory ptr len
      ≡ (if len == 0 || has_memory len then ok (some (read_from memory ptr len 0)) else panic)
unfolding read_user_bytes
read_user_bytes-allocated has_memory memory ptr len u =
    let not_null = u.not_null in let below = u.below in let end_below = u.end_below in ground arith

read_user_bytes-unbounded :
    (has_memory : ℕ → Bool) (memory : ℕ → ℕ) (ptr len : ℕ)
    → (0 < ptr → ptr < user_space_limit → ptr + len ≤ user_space_limit → ⊥)
    → read_user_bytes has_memory memory ptr len ≡ ok none
unfolding read_user_bytes
read_user_bytes-unbounded has_memory memory ptr len out = ground arith

pub read_user_bytes-none :
    (has_memory : ℕ → Bool) (memory : ℕ → ℕ) (ptr len : ℕ)
    → ¬ InUserSpace ptr len
    → read_user_bytes has_memory memory ptr len ≡ ok none
read_user_bytes-none has_memory memory ptr len out =
    read_user_bytes-unbounded has_memory memory ptr len
      (λ p b e. out (record { not_null = p; below = b; end_below = e }))

-- The bytes of a buffer.
pub record Bytes (memory : ℕ → ℕ) (ptr len : ℕ) (bs : List ℕ) : Type 0 where
  pub size : length bs ≡ len
  pub at : (k : ℕ) → k < len → get_elem? bs k ≡ some (memory (ptr + k))

-- What a read of the buffer comes to.
pub data Read (has_memory : ℕ → Bool) (memory : ℕ → ℕ) (ptr len : ℕ)
    : Outcome (Option (List ℕ)) → Type 0 where
  refused : ¬ InUserSpace ptr len → Read has_memory memory ptr len (ok none)
  no_memory :
      InUserSpace ptr len → 0 < len → has_memory len ≡ false → Read has_memory memory ptr len panic
  bytes :
      {bs : List ℕ}
      → InUserSpace ptr len
      → Bytes memory ptr len bs
      → Read has_memory memory ptr len (ok (some bs))

pub in_user_space? : (ptr len : ℕ) → InUserSpace ptr len ⊎ (¬ InUserSpace ptr len)
in_user_space? ptr len =
    elim (Bool-cases
      (ltb 0 ptr && (ltb ptr user_space_limit && leb (ptr + len) user_space_limit))) [
        | inl t ↦
            inl (record { not_null = ground arith; below = ground arith; end_below = ground arith })
        | inr f ↦ inr (λ u.
            let not_null = u.not_null in
            let below = u.below in let end_below = u.end_below in ground arith)
      ]

-- A read of a user buffer, for any pointer and length, is refused exactly when the buffer has an
-- address outside user space or starts at 0. Else it panics exactly when the buffer is not empty and the
-- global allocator has no memory for its length, and otherwise gives `len` bytes, byte `k` of which is
-- the memory's at `ptr + k`, with no address wrapping around.
pub read_user_bytes-Read :
    (has_memory : ℕ → Bool) (memory : ℕ → ℕ) (ptr len : ℕ)
    → Read has_memory memory ptr len (read_user_bytes has_memory memory ptr len)
read_user_bytes-Read has_memory memory ptr len = elim (in_user_space? ptr len) [
  | inl u ↦
      let e = u.end_below in
      subst (Read has_memory memory ptr len)
        (sym (read_user_bytes-allocated has_memory memory ptr len u))
        (elim (Bool-cases (len == 0 || has_memory len)) [
          | inl room ↦ rw room (
              bytes u (record {
                size = length-read_from memory ptr len 0;
                at = λ k lt.
                    get_elem?-read_from memory ptr len 0 k (omega arith) lt
                    ∙ ap (λ a. some (memory a)) (omega arith);
              }))
          | inr full ↦ rw full (no_memory u (ground arith) (ground arith))
        ])
  | inr out ↦
      subst (Read has_memory memory ptr len)
        (sym (read_user_bytes-none has_memory memory ptr len out)) (refused out)
]
