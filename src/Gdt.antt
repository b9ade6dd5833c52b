-- ===== src/Gdt.antt =====
-- kernel/src/gdt.rs: the segment selectors. Their values come from `GlobalDescriptorTable::append`
-- of the x86_64 crate, so they are arguments here.
use lymad_os.Base.{ℕ}

-- `Selectors`, each by its 16-bit number; `kernel_data` is the field `data`.
pub record Selectors : Type 0 where
  pub code : ℕ
  pub kernel_data : ℕ
  pub user_code : ℕ
  pub user_data : ℕ
  pub tss : ℕ
