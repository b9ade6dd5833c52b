-- ===== src/Base/Fallible.antt =====
-- A run that may panic: out-of-range indices, `expect`, `unwrap` and `panic!`.
use Prim.Native.Nat.{ℕ, zero, suc}
use mathlib.Core.List.{List, [], ◌∷◌}
use mathlib.Core.Path.{◌≡◌}
use mathlib.Core.Option.{some}
use native.Mathlib.Omega.{arith}
use lymad_os.Base.Lists.{get_elem?}
use lymad_os.Base.Tests.{if◌then◌else◌, ◌==◌}

pub data Outcome {ℓ} (A : Type ℓ) : Type ℓ where
  panic : Outcome A
  ok : A → Outcome A

infixl 5 ◌>>=◌
abbrev pub ◌>>=◌ {ℓ κ} : {A : Type ℓ} {B : Type κ} → Outcome A → (A → Outcome B) → Outcome B
panic >>= f = panic
ok a >>= f = f a

-- An array as a function of the index. The bounds of each array are kept by its owner's invariant.
abbrev pub Array {ℓ} : Type ℓ → Type ℓ
Array A = ℕ → A

abbrev pub write {ℓ} : {A : Type ℓ} → Array A → ℕ → A → Array A
write a i v j = if i == j then v else a j

-- An index of a `Vec` or an array: out of range it panics.
abbrev pub index {ℓ} : {A : Type ℓ} → List A → ℕ → Outcome A
index [] i = panic
index (x ∷ xs) zero = ok x
index (x ∷ xs) (suc i) = index xs i

pub index_lem {ℓ} :
    {A : Type ℓ} (xs : List A) (i : ℕ) {x : A} → get_elem? xs i ≡ some x → index xs i ≡ ok x
index_lem [] i h = absurd (ground arith)
index_lem (y ∷ xs) zero h = ground arith
index_lem (y ∷ xs) (suc i) h = index_lem xs i h
