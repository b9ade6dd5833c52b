-- ===== src/Bits/Digits.antt =====
-- The operations `&` and `^` on 64-bit words, one binary digit at a time.
use Prim.Native.Nat.{digits, bitwise, differ, bit_and-bitwise, bit_or-bitwise, bit_xor-bitwise}
use lymad_os.Base.{
  ℕ, zero, suc, ◌+◌, ◌-◌, ◌*◌, ◌/◌, ◌%◌, ◌≤◌, bit_and, bit_or, bit_xor, min, max, ◌≡◌, refl, ◌∙◌,
  ap, sym, arith,
}

module _ (out : ℕ → ℕ) (op : ℕ → ℕ → ℕ) where
  exhausted : (count b : ℕ) → digits out op count 0 b ≡ out b
  exhausted zero b = refl
  exhausted (suc count) b = refl

  -- A count larger than the first number's does not matter.
  spare_count :
      (a count more b : ℕ) → a ≤ count → digits out op (count + more) a b ≡ digits out op count a b
  spare_count zero count more b h = exhausted (count + more) b ∙ sym (exhausted count b)
  spare_count (suc a) zero more b h = elim h [ ]
  spare_count (suc a) (suc count) more b h =
      ap (λ total. digits out op total (suc a) b)
        (let e : suc count + more ≡ suc (count + more) = omega arith in e)
      ∙ ap (λ high. high * 2 + op (suc a % 2) (b % 2))
          (spare_count (suc a / 2) count more (b / 2) (omega arith))

  lowest_digit :
      (a b : ℕ)
      → bitwise out op (suc a) b ≡ bitwise out op (suc a / 2) (b / 2) * 2 + op (suc a % 2) (b % 2)
  lowest_digit a b =
      let half = suc a / 2 in
      ap (λ count. digits out op count half (b / 2) * 2 + op (suc a % 2) (b % 2))
        (let e : a ≡ half + (a - half) = omega arith in e)
      ∙ ap (λ high. high * 2 + op (suc a % 2) (b % 2))
          (spare_count half half (a - half) (b / 2) (omega arith))

pub bit_and_zero : (b : ℕ) → bit_and 0 b ≡ 0
bit_and_zero b = bit_and-bitwise 0 b

pub bit_xor_zero : (b : ℕ) → bit_xor 0 b ≡ b
bit_xor_zero b = bit_xor-bitwise 0 b

pub bit_and_digits : (a b : ℕ) → bit_and a b ≡ bit_and (a / 2) (b / 2) * 2 + min (a % 2) (b % 2)
bit_and_digits zero b = omega (arith, bit_and_zero b, bit_and_zero (b / 2))
bit_and_digits (suc a) b =
    bit_and-bitwise (suc a) b
    ∙ lowest_digit (λ _. 0) min a b
    ∙ ap (λ (high : ℕ). high * 2 + min (suc a % 2) (b % 2))
        (sym (bit_and-bitwise (suc a / 2) (b / 2)))

pub bit_xor_digits : (a b : ℕ) → bit_xor a b ≡ bit_xor (a / 2) (b / 2) * 2 + differ (a % 2) (b % 2)
bit_xor_digits zero b =
    bit_xor_zero b
    ∙ (let e : b ≡ b / 2 * 2 + b % 2 = omega arith in e)
    ∙ ap (λ (high : ℕ). high * 2 + b % 2) (sym (bit_xor_zero (b / 2)))
bit_xor_digits (suc a) b =
    bit_xor-bitwise (suc a) b
    ∙ lowest_digit (λ y. y) differ a b
    ∙ ap (λ (high : ℕ). high * 2 + differ (suc a % 2) (b % 2))
        (sym (bit_xor-bitwise (suc a / 2) (b / 2)))

bit_or_zero : (b : ℕ) → bit_or 0 b ≡ b
bit_or_zero b = bit_or-bitwise 0 b

pub bit_or_digits : (a b : ℕ) → bit_or a b ≡ bit_or (a / 2) (b / 2) * 2 + max (a % 2) (b % 2)
bit_or_digits zero b =
    bit_or_zero b
    ∙ (let e : b ≡ b / 2 * 2 + max 0 (b % 2) = omega arith in e)
    ∙ ap (λ (high : ℕ). high * 2 + max 0 (b % 2)) (sym (bit_or_zero (b / 2)))
bit_or_digits (suc a) b =
    bit_or-bitwise (suc a) b
    ∙ lowest_digit (λ y. y) max a b
    ∙ ap (λ (high : ℕ). high * 2 + max (suc a % 2) (b % 2))
        (sym (bit_or-bitwise (suc a / 2) (b / 2)))
