-- ===== src/Bits/Mask.antt =====
-- `x & !(2^k - 1)`: rounding down to a multiple of a power of two.
use lymad_os.Bits.Digits.{bit_and_zero, bit_and_digits}
use lymad_os.Base.{
  ℕ, zero, suc, ◌+◌, ◌-◌, ◌*◌, ◌/◌, ◌%◌, ◌^◌, ◌≤◌, ◌<◌, bit_and, min, ◌≡◌, refl, ◌∙◌, ap, sym,
  arith, word, not64, add64, sub64,
}
use native.Mathlib.Nat.{
  suc-mul, lt_of_mul-lt-mul_right, mul-le-mul_right, pow-suc, pow-succ', div-div-eq-div-mul,
  one-le-pow, div-lt_iff_lt-mul, div-mul-le_self, mod-add-div', mod-lt, mul-mod_left,
  dvd_of_mod-eq-zero, mod-eq-zero_of_dvd, dvd_trans,
}

le-zero : (a : ℕ) → a ≤ 0 → a ≡ 0
le-zero a h = omega arith

-- The lowest digit, where the digits of the second number are given.
pub bit_and_digit :
    (a q d : ℕ) → d < 2 → bit_and a (q * 2 + d) ≡ bit_and (a / 2) q * 2 + min (a % 2) d
bit_and_digit a q d h =
    let quot : (q * 2 + d) / 2 ≡ q = omega arith in
    let rem : (q * 2 + d) % 2 ≡ d = omega arith in bit_and_digits a (q * 2 + d) ∙ cc (quot, rem)

-- `2 ^ n - 1`, by its digits.
ones : ℕ → ℕ
ones zero = 0
ones (suc n) = ones n * 2 + 1

ones_lem : (n : ℕ) → ones n + 1 ≡ 2 ^ n
unfolding ones
ones_lem zero = refl
ones_lem (suc n) = omega (arith, ones_lem n, pow-suc 2 n)

bit_and-ones : (n a : ℕ) → a ≤ ones n → bit_and a (ones n) ≡ a
unfolding ones
bit_and-ones zero a h = cc (le-zero a h, bit_and_zero 0)
bit_and-ones (suc n) a h =
    omega (arith, bit_and_digit a (ones n) 1 (omega arith), bit_and-ones n (a / 2) (omega arith))

-- A mask with `k` low zeros below `w` ones clears the low `k` digits.
bit_and_high : (k w a : ℕ) → a / 2 ^ k ≤ ones w → bit_and a (ones w * 2 ^ k) ≡ a / 2 ^ k * 2 ^ k
bit_and_high zero w a h =
    let one : ones w * 2 ^ 0 ≡ ones w = omega arith in
    rw one (omega (arith, bit_and-ones w a (omega arith)))
bit_and_high (suc k) w a h =
    let two : 2 ^ suc k ≡ 2 ^ k * 2 = pow-suc 2 k in
    let half : a / 2 ^ suc k ≡ a / 2 / 2 ^ k =
      ap (λ (t : ℕ). a / t) (pow-succ' 2 k) ∙ sym (div-div-eq-div-mul a 2 (2 ^ k)) in
    let mask : ones w * 2 ^ suc k ≡ ones w * 2 ^ k * 2 + 0 =
      omega (arith, ap (λ (t : ℕ). ones w * t) two) in
    rw mask (
      omega (
        arith,
        bit_and_digit a (ones w * 2 ^ k) 0 (omega arith),
        bit_and_high k w (a / 2) (omega arith),
        half,
        ap (λ (t : ℕ). a / 2 / 2 ^ k * t) two,
        ap (λ (t : ℕ). t * 2 ^ suc k) half,
      ))

-- `x & !3` on 16 bits.
pub low_two_cleared : (a : ℕ) → a < 65536 → bit_and a 65532 ≡ a / 4 * 4
unfolding ones
low_two_cleared a h = bit_and_high 2 14 a (omega arith)

-- An alignment that a 64-bit word can hold: `2 ^ k`, with `w` digits above it.
pub record IsAlignment (align : ℕ) : Type 0 where
  pub k : ℕ
  pub w : ℕ
  pub is_power : align ≡ 2 ^ k
  pub fills : 2 ^ w * 2 ^ k ≡ word

-- `x & !(align - 1)`
unfoldable pub align_down : ℕ → ℕ → ℕ
align_down x align = bit_and x (not64 (align - 1))

-- `(x + align - 1) & !(align - 1)`, with the wrap of the sum.
unfoldable pub align_up : ℕ → ℕ → ℕ
align_up x align = align_down (sub64 (add64 x align) 1) align

-- A multiple of a multiple.
pub mod-zero_trans : (c b a : ℕ) → b % c ≡ 0 → a % b ≡ 0 → a % c ≡ 0
mod-zero_trans c b a h k =
    mod-eq-zero_of_dvd c (dvd_trans c (dvd_of_mod-eq-zero c h) (dvd_of_mod-eq-zero b k))

module _ {align : ℕ} (al : IsAlignment align) where
  pub align-pos : 0 < align
  align-pos = omega (arith, al.is_power, one-le-pow al.k 2 (omega arith))

  mask_eq : not64 (align - 1) ≡ ones al.w * 2 ^ al.k
  mask_eq =
      omega (arith, al.is_power, al.fills, align-pos, ap (λ (t : ℕ). t * 2 ^ al.k) (ones_lem al.w))

  high-le-ones : (x : ℕ) → x < word → x / 2 ^ al.k ≤ ones al.w
  high-le-ones x h =
      let below : x / 2 ^ al.k < 2 ^ al.w =
        (div-lt_iff_lt-mul (one-le-pow al.k 2 (omega arith))).1 (rw al.fills h) in
      omega (arith, ones_lem al.w)

  pub align_down_lem : (x : ℕ) → x < word → align_down x align ≡ x / align * align
  unfolding align_down
  align_down_lem x h = rw (mask_eq, bit_and_high al.k al.w x (high-le-ones x h)) (rw al.is_power)

  -- For a power of two as the alignment, and an address whose sum with it is 2^64 at most: the result is a
  -- multiple of the alignment, not below the address, and less than one alignment above it.
  pub align_up_lem :
      (x : ℕ)
      → x + align ≤ word
      → (x ≤ align_up x align) × (align_up x align < x + align) × (align_up x align % align ≡ 0)
  unfolding align_up
  align_up_lem x h =
      let last : sub64 (add64 x align) 1 ≡ x + align - 1 = omega (arith, align-pos) in
      let z = x + align - 1 in
      let down = align_down_lem z (omega (arith, align-pos)) in
      rw (last, down)
        (
          omega
              (arith, div-mul-le_self z align, mod-add-div' z align, mod-lt z align-pos, align-pos),
          omega (arith, div-mul-le_self z align, align-pos),
          mul-mod_left (z / align) align,
        )

  -- It is the least multiple that is not below the address.
  pub align_up-least : (x p : ℕ) → x + align ≤ word → p % align ≡ 0 → x ≤ p → align_up x align ≤ p
  align_up-least x p h e le =
      let (lower, close, multiple) = align_up_lem x h in
      let i = align_up x align / align in
      let j = p / align in
      let up : i * align ≡ align_up x align =
        omega (arith, mod-add-div' (align_up x align) align) in
      let at : j * align ≡ p = omega (arith, mod-add-div' p align) in
      let near : i * align < suc j * align = omega (arith, suc-mul j align) in
      let below : i < suc j = lt_of_mul-lt-mul_right align near in
      omega (arith, mul-le-mul_right align (let le : i ≤ j = omega arith in le))
