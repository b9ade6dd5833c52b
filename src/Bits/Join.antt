-- ===== src/Bits/Join.antt =====
-- `x | y` of numbers that share no binary digit, and `x | 3`.
use lymad_os.Base.{
  ℕ, zero, suc, ◌+◌, ◌*◌, ◌/◌, ◌%◌, ◌^◌, ◌<◌, bit_or, max, ◌≡◌, refl, ◌∙◌, ap, arith,
}
use native.Mathlib.Nat.{pow-suc}
use lymad_os.Bits.Digits.{bit_or_digits}

bit_or_none : (bound a : ℕ) → a < bound → bit_or a 0 ≡ a
bit_or_none zero a h = elim h [ ]
bit_or_none (suc bound) zero h = refl
bit_or_none (suc bound) (suc a) h =
    omega (arith, bit_or_digits (suc a) 0, bit_or_none bound (suc a / 2) (omega arith))

-- The low `k` digits of the first number are 0, and the second has no others.
pub bit_or-disjoint : (k a b : ℕ) → b < 2 ^ k → bit_or (a * 2 ^ k) b ≡ a * 2 ^ k + b
bit_or-disjoint zero a b h =
    let none_left : b ≡ 0 = omega arith in
    rw none_left (bit_or_none (a * 2 ^ 0 + 1) (a * 2 ^ 0) (omega arith) ∙ omega arith)
bit_or-disjoint (suc k) a b h =
    let two : a * 2 ^ suc k ≡ a * 2 ^ k * 2 = omega (arith, ap (λ (t : ℕ). a * t) (pow-suc 2 k)) in
    let half : a * 2 ^ suc k / 2 ≡ a * 2 ^ k = omega arith in
    let even : a * 2 ^ suc k % 2 ≡ 0 = omega arith in
    let step : bit_or (a * 2 ^ suc k) b ≡ bit_or (a * 2 ^ k) (b / 2) * 2 + max 0 (b % 2) =
      bit_or_digits (a * 2 ^ suc k) b ∙ cc (half, even) in
    omega (arith, step, bit_or-disjoint k a (b / 2) (omega (arith, pow-suc 2 k)), two)

pub bit_or_three : (a : ℕ) → bit_or a 3 ≡ a / 4 * 4 + 3
bit_or_three a = omega (
  arith,
  bit_or_digits a 3,
  bit_or_digits (a / 2) 1,
  bit_or_none (a / 2 / 2 + 1) (a / 2 / 2) (omega arith),
)
