-- ===== src/Bits/Powers.antt =====
-- `x & (1 << k)` and `x ^ (1 << k)`: reading and toggling one binary digit.
use Prim.Native.Nat.{differ}
use lymad_os.Base.{
  ℕ, zero, suc, ◌+◌, ◌*◌, ◌/◌, ◌%◌, ◌^◌, ◌<◌, bit_and, bit_xor, min, ◌≡◌, refl, ◌∙◌, ap, sym, arith,
}
use native.Mathlib.Nat.{pow-suc, pow-succ', div-div-eq-div-mul}
use lymad_os.Bits.Digits.{bit_and_zero, bit_xor_zero, bit_and_digits, bit_xor_digits}

pub differ-zero : (d : ℕ) → differ d 0 ≡ d
differ-zero zero = refl
differ-zero (suc d) = refl

differ-one : (d : ℕ) → d < 2 → differ d 1 + 2 * d ≡ d + 1
differ-one zero h = refl
differ-one (suc zero) h = refl
differ-one (suc (suc d)) h = absurd (omega arith)

bit_and_none : (bound a : ℕ) → a < bound → bit_and a 0 ≡ 0
bit_and_none zero a h = elim h [ ]
bit_and_none (suc bound) zero h = bit_and_zero 0
bit_and_none (suc bound) (suc a) h =
    omega (arith, bit_and_digits (suc a) 0, bit_and_none bound (suc a / 2) (omega arith))

bit_xor_none : (bound a : ℕ) → a < bound → bit_xor a 0 ≡ a
bit_xor_none zero a h = elim h [ ]
bit_xor_none (suc bound) zero h = bit_xor_zero 0
bit_xor_none (suc bound) (suc a) h = omega (
  arith,
  bit_xor_digits (suc a) 0,
  bit_xor_none bound (suc a / 2) (omega arith),
  differ-zero (suc a % 2),
)

-- Half of a power and of a number shifted by it.
pub half_pow : (k : ℕ) → (2 ^ suc k / 2 ≡ 2 ^ k) × (2 ^ suc k % 2 ≡ 0)
half_pow k = let two : 2 ^ suc k ≡ 2 ^ k * 2 = pow-suc 2 k in (omega arith, omega arith)

pub shift_suc : (k a : ℕ) → a / 2 ^ suc k ≡ a / 2 / 2 ^ k
shift_suc k a = ap (λ (t : ℕ). a / t) (pow-succ' 2 k) ∙ sym (div-div-eq-div-mul a 2 (2 ^ k))

bit_and_pow_suc : (k a : ℕ) → bit_and a (2 ^ suc k) ≡ bit_and (a / 2) (2 ^ k) * 2 + min (a % 2) 0
bit_and_pow_suc k a = let (quot, rem) = half_pow k in bit_and_digits a (2 ^ suc k) ∙ cc (quot, rem)

bit_xor_pow_suc : (k a : ℕ) → bit_xor a (2 ^ suc k) ≡ bit_xor (a / 2) (2 ^ k) * 2 + differ (a % 2) 0
bit_xor_pow_suc k a = let (quot, rem) = half_pow k in bit_xor_digits a (2 ^ suc k) ∙ cc (quot, rem)

-- The value of digit `k + 1` in its place is twice that of digit `k` of the half.
place_suc : (k a : ℕ) → a / 2 ^ suc k % 2 * 2 ^ suc k ≡ a / 2 / 2 ^ k % 2 * (2 ^ k * 2)
place_suc k a =
    ap (λ (t : ℕ). t % 2 * 2 ^ suc k) (shift_suc k a)
    ∙ ap (λ (t : ℕ). a / 2 / 2 ^ k % 2 * t) (pow-suc 2 k)

pub bit_and_pow : (k a : ℕ) → bit_and a (2 ^ k) ≡ a / 2 ^ k % 2 * 2 ^ k
bit_and_pow zero a =
    omega (arith, bit_and_digits a 1, bit_and_none (a / 2 + 1) (a / 2) (omega arith))
bit_and_pow (suc k) a = omega (arith, bit_and_pow_suc k a, bit_and_pow k (a / 2), place_suc k a)

-- Toggling digit `k` adds the power if the digit was 0, and takes it away if it was 1.
pub bit_xor_pow : (k a : ℕ) → bit_xor a (2 ^ k) + 2 * (a / 2 ^ k % 2 * 2 ^ k) ≡ a + 2 ^ k
bit_xor_pow zero a = omega (
  arith,
  bit_xor_digits a 1,
  bit_xor_none (a / 2 + 1) (a / 2) (omega arith),
  differ-one (a % 2) (omega arith),
)
bit_xor_pow (suc k) a = omega (
  arith,
  bit_xor_pow_suc k a,
  bit_xor_pow k (a / 2),
  place_suc k a,
  differ-zero (a % 2),
  pow-suc 2 k,
)
