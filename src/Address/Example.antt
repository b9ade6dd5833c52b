-- ===== src/Address/Example.antt =====
-- Checked operations on addresses, on which the theorems are tried.
use lymad_os.Base.{
  ℕ, ◌+◌, ◌≡◌, Bool, ◌&&◌, ◌||◌, ltb, leb, if◌then◌else◌, word, Outcome, panic, ok, inl, inr, arith,
}
use lymad_os.Address.{AddressOps, IsCanonical, IsDocumented}

abbrev is_canonical : ℕ → Bool
is_canonical a = ltb a 0x8000_0000_0000 || (leb 0xffff_8000_0000_0000 a && ltb a word)

abbrev checked_virt : ℕ → Outcome ℕ
checked_virt a = if is_canonical a then ok a else panic

abbrev pub checked : AddressOps
checked = record {
  new_virt = checked_virt;
  add_virt = λ a b. checked_virt (a + b);
  add_phys = λ a b. if ltb (a + b) 0x10_0000_0000_0000 then ok (a + b) else panic;
}

checked_virt_lem : (a : ℕ) → IsCanonical a → checked_virt a ≡ ok a
checked_virt_lem a (inl low) = ground arith
checked_virt_lem a (inr (high, fits)) = ground arith

pub checked-IsDocumented : IsDocumented checked
checked-IsDocumented = record {
  new_virt = checked_virt_lem;
  add_virt = λ a b. checked_virt_lem (a + b);
  add_phys = λ a b h. ground arith;
}
