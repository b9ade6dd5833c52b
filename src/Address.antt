-- ===== src/Address.antt =====
-- The addresses of the x86_64 crate, with which kernel/src/main.rs, kernel/src/graphics.rs and
-- kernel/src/tasks/elf.rs calculate.
pub mod Example
use lymad_os.Base.{ℕ, ◌+◌, ◌≤◌, ◌<◌, ◌≡◌, ◌⊎◌, word, Outcome, ok}

-- `VirtAddr::new`, and the sums of an address and a `u64`.
pub record AddressOps : Type 0 where
  pub new_virt : ℕ → Outcome ℕ
  pub add_virt : ℕ → ℕ → Outcome ℕ
  pub add_phys : ℕ → ℕ → Outcome ℕ

-- Bits 48 to 63 are copies of bit 47.
abbrev pub IsCanonical : ℕ → Type 0
IsCanonical a = (a < 0x8000_0000_0000) ⊎ ((0xffff_8000_0000_0000 ≤ a) × (a < word))

-- What the crate documents: it panics on addresses that are not canonical, and on physical ones of more
-- than 52 bits, and on no others.
pub record IsDocumented (ops : AddressOps) : Type 0 where
  pub new_virt : (a : ℕ) → IsCanonical a → ops.new_virt a ≡ ok a
  pub add_virt : (a b : ℕ) → IsCanonical (a + b) → ops.add_virt a b ≡ ok (a + b)
  pub add_phys : (a b : ℕ) → a + b < 0x10_0000_0000_0000 → ops.add_phys a b ≡ ok (a + b)
