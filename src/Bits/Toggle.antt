-- ===== src/Bits/Toggle.antt =====
-- The binary digits of `x ^ (1 << k)`.
use Prim.Native.Nat.{differ}
use lymad_os.Base.{
  ℕ, zero, suc, ◌-◌, ◌*◌, ◌/◌, ◌%◌, ◌^◌, ◌<◌, bit_and, bit_xor, Bool, true, false, ◌≡◌, refl, ◌∙◌,
  ap, arith, ◌==◌, if◌then◌else◌,
}
use native.Mathlib.Nat.{one-le-pow}
use lymad_os.Bits.Digits.{bit_xor_digits}
use lymad_os.Bits.Powers.{half_pow, shift_suc, bit_and_pow, differ-zero}

-- Binary digit `k`.
abbrev pub digit : ℕ → ℕ → ℕ
digit k a = a / 2 ^ k % 2

digit-suc : (k a : ℕ) → digit (suc k) a ≡ digit k (a / 2)
digit-suc k a = ap (λ (t : ℕ). t % 2) (shift_suc k a)

differ-lt : (c d : ℕ) → c < 2 → d < 2 → differ c d < 2
differ-lt zero d hc hd = hd
differ-lt (suc zero) zero hc hd = omega arith
differ-lt (suc zero) (suc zero) hc hd = omega arith
differ-lt (suc zero) (suc (suc d)) hc hd = absurd (omega arith)
differ-lt (suc (suc c)) d hc hd = absurd (omega arith)

-- Each digit of the result comes from the two digits in its place.
digit-bit_xor : (k a b : ℕ) → digit k (bit_xor a b) ≡ differ (digit k a) (digit k b)
digit-bit_xor zero a b =
    let one : (x : ℕ) → digit 0 x ≡ x % 2 = λ x. omega arith in
    rw (one (bit_xor a b), one a, one b)
      (omega (arith, bit_xor_digits a b, differ-lt (a % 2) (b % 2) (omega arith) (omega arith)))
digit-bit_xor (suc k) a b =
    let half : bit_xor a b / 2 ≡ bit_xor (a / 2) (b / 2) =
      omega (arith, bit_xor_digits a b, differ-lt (a % 2) (b % 2) (omega arith) (omega arith)) in
    digit-suc k (bit_xor a b)
    ∙ ap (digit k) half
    ∙ digit-bit_xor k (a / 2) (b / 2)
    ∙ cc (digit-suc k a, digit-suc k b)

digit-none : (k : ℕ) → digit k 0 ≡ 0
digit-none zero = refl
digit-none (suc k) = digit-suc k 0 ∙ digit-none k

-- A power of two has one digit.
digit-pow : (k j : ℕ) → digit k (2 ^ j) ≡ (if k == j then 1 else 0)
digit-pow zero zero = refl
digit-pow zero (suc j) = ground (arith, half_pow j)
digit-pow (suc k) zero = ground (arith, digit-suc k 1, digit-none k)
digit-pow (suc k) (suc j) =
    ground (arith, digit-suc k (2 ^ suc j) ∙ ap (digit k) (half_pow j).0, digit-pow k j)

differ-if : (b : Bool) (d : ℕ) → d < 2 → differ d (if b then 1 else 0) ≡ (if b then 1 - d else d)
differ-if false d h = differ-zero d
differ-if true zero h = refl
differ-if true (suc zero) h = refl
differ-if true (suc (suc d)) h = absurd (omega arith)

pub digit-toggled :
    (k j a : ℕ) → digit k (bit_xor a (2 ^ j)) ≡ (if k == j then 1 - digit k a else digit k a)
digit-toggled k j a =
    digit-bit_xor k a (2 ^ j)
    ∙ ap (differ (digit k a)) (digit-pow k j)
    ∙ differ-if (k == j) (digit k a) (omega arith)

pub digit-tested : (j a : ℕ) → (bit_and a (2 ^ j) == 0) ≡ (digit j a == 0)
digit-tested j a =
    let place = 2 ^ j in
    let pos : 0 < place = one-le-pow j 2 (omega arith) in
    let test : (d : ℕ) → d < 2 → (d * place == 0) ≡ (d == 0) = tested place pos in
    ap (λ (x : ℕ). x == 0) (bit_and_pow j a) ∙ test (digit j a) (omega arith)
  where
    tested : (p : ℕ) → 0 < p → (d : ℕ) → d < 2 → (d * p == 0) ≡ (d == 0)
    tested p pos zero h = ground arith
    tested p pos (suc zero) h = ground arith
    tested p pos (suc (suc d)) h = absurd (omega arith)
