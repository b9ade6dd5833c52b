-- ===== src/Buddy/Pairs.antt =====
-- Buddies and their bits, in kernel/src/mm/buddy.rs.
use lymad_os.Base.{
  ℕ, zero, suc, ◌+◌, ◌-◌, ◌*◌, ◌/◌, ◌%◌, ◌^◌, ◌≤◌, ◌<◌, ◌≡◌, ◌⊎◌, inl, inr, refl, ◌∙◌, ap, arith,
  word, sub64, mul64, bit_xor, Bool-cases, ltb, if◌then◌else◌,
}
use mathlib.Core.Path.{subst}
use lymad_os.Memory.{page_size}
use lymad_os.Buddy.{BuddyAllocator, max_pages, order_offset, get_bit_index, calculate_buddy_address}
use lymad_os.Bits.Powers.{bit_xor_pow}

-- The orders that have a bit: those below the largest.
pub small_order {κ} :
    (P : ℕ → Type κ)
    → P 0
    → P 1
    → P 2
    → P 3
    → P 4
    → P 5
    → P 6
    → P 7
    → P 8
    → P 9
    → P 10
    → (order : ℕ) → order < 11
    → P order
small_order P p0 p1 p2 p3 p4 p5 p6 p7 p8 p9 p10 zero h = p0
small_order P p0 p1 p2 p3 p4 p5 p6 p7 p8 p9 p10 (suc zero) h = p1
small_order P p0 p1 p2 p3 p4 p5 p6 p7 p8 p9 p10 (suc (suc zero)) h = p2
small_order P p0 p1 p2 p3 p4 p5 p6 p7 p8 p9 p10 (suc (suc (suc zero))) h = p3
small_order P p0 p1 p2 p3 p4 p5 p6 p7 p8 p9 p10 (suc (suc (suc (suc zero)))) h = p4
small_order P p0 p1 p2 p3 p4 p5 p6 p7 p8 p9 p10 (suc (suc (suc (suc (suc zero))))) h = p5
small_order P p0 p1 p2 p3 p4 p5 p6 p7 p8 p9 p10 (suc (suc (suc (suc (suc (suc zero)))))) h = p6
small_order P p0 p1 p2 p3 p4 p5 p6 p7 p8 p9 p10 (suc (suc (suc (suc (suc (suc (suc zero))))))) h =
    p7
small_order P p0 p1 p2 p3 p4 p5 p6 p7 p8 p9 p10 (suc (suc (suc (suc (suc (suc (suc (suc zero))))))))
      h =
    p8
small_order P p0 p1 p2 p3 p4 p5 p6 p7 p8 p9 p10
      (suc (suc (suc (suc (suc (suc (suc (suc (suc zero))))))))) h =
    p9
small_order P p0 p1 p2 p3 p4 p5 p6 p7 p8 p9 p10
      (suc (suc (suc (suc (suc (suc (suc (suc (suc (suc zero)))))))))) h =
    p10
small_order P p0 p1 p2 p3 p4 p5 p6 p7 p8 p9 p10
      (suc (suc (suc (suc (suc (suc (suc (suc (suc (suc (suc order))))))))))) h =
    absurd (omega arith)

-- The bits of an order start at its offset, and end where those of the next order start.
Banded : ℕ → Type 0
Banded order =
    (page_idx : ℕ)
    → page_idx < max_pages
    → (order_offset order 0 0 ≤ get_bit_index page_idx order)
      × (get_bit_index page_idx order < order_offset (suc order) 0 0)
      × (order_offset (suc order) 0 0 < max_pages)
      × (get_bit_index page_idx order ≡ order_offset order 0 0 + page_idx / 2 ^ (order + 1))

get_bit_index-Banded : (order : ℕ) → order < 11 → Banded order
unfolding Banded get_bit_index order_offset
get_bit_index-Banded =
    small_order Banded (λ p h. ground arith) (λ p h. ground arith) (λ p h. ground arith)
      (λ p h. ground arith) (λ p h. ground arith) (λ p h. ground arith) (λ p h. ground arith)
      (λ p h. ground arith) (λ p h. ground arith) (λ p h. ground arith) (λ p h. ground arith)

order_offset-increases :
    (order : ℕ) → order < 11 → order_offset order 0 0 ≤ order_offset (suc order) 0 0
unfolding order_offset
order_offset-increases =
    small_order (λ order. order_offset order 0 0 ≤ order_offset (suc order) 0 0) (omega arith)
      (omega arith) (omega arith) (omega arith) (omega arith) (omega arith) (omega arith)
      (omega arith) (omega arith) (omega arith) (omega arith)

-- `n` orders further up.
order_offset-le :
    (n order : ℕ) → order + n ≤ 11 → order_offset order 0 0 ≤ order_offset (order + n) 0 0
order_offset-le zero order h =
    let same : order ≡ order + 0 = omega arith in
    subst (λ (k : ℕ). order_offset order 0 0 ≤ order_offset k 0 0) same (omega arith)
order_offset-le (suc n) order h =
    let same : suc order + n ≡ order + suc n = omega arith in
    subst (λ (k : ℕ). order_offset order 0 0 ≤ order_offset k 0 0) same
      (omega (
        arith,
        order_offset-increases order (omega arith),
        order_offset-le n (suc order) (omega arith),
      ))

bands_apart :
    (order order' page_idx page_idx' : ℕ)
    → order < order'
    → order' < 11
    → page_idx < max_pages
    → page_idx' < max_pages
    → get_bit_index page_idx order < get_bit_index page_idx' order'
unfolding Banded
bands_apart o o' p p' lt h hp hp' =
    let low = get_bit_index-Banded o (omega arith) p hp in
    let high = get_bit_index-Banded o' h p' hp' in
    let top : suc o + (o' - suc o) ≡ o' = omega arith in
    let between : order_offset (suc o) 0 0 ≤ order_offset o' 0 0 =
      subst (λ (k : ℕ). order_offset (suc o) 0 0 ≤ order_offset k 0 0) top
        (order_offset-le (o' - suc o) (suc o) (omega arith)) in
    omega arith

-- For pages and orders that have a bit, the bit lies in the bitmap, and two blocks have the same bit only
-- if they are of the same order and of the same pair of buddies.
pub get_bit_index-injective :
    (order order' page_idx page_idx' : ℕ)
    → order < 11
    → order' < 11
    → page_idx < max_pages
    → page_idx' < max_pages
    → (get_bit_index page_idx order < max_pages)
      × (get_bit_index page_idx order ≡ get_bit_index page_idx' order'
          → (order ≡ order') × (page_idx / 2 ^ (order + 1) ≡ page_idx' / 2 ^ (order' + 1)))
unfolding Banded
get_bit_index-injective o o' p p' h h' hp hp' =
    let low = get_bit_index-Banded o h p hp in
    let high = get_bit_index-Banded o' h' p' hp' in
    (
      omega arith,
      λ same.
          let eq : o ≡ o' = elim (Bool-cases (ltb o o')) [
            | inl lt ↦ ground (arith, bands_apart o o' p p')
            | inr ge ↦ ground (arith, bands_apart o' o p' p)
          ] in
          (eq, omega (arith, ap (λ (k : ℕ). order_offset k 0 0) eq)),
    )

-- `a` and `b` are the addresses, from the start of the managed pages, of two buddies of the order.
pub record BuddyOf (order a b : ℕ) : Type 0 where
  pub managed : b < max_pages * page_size
  pub aligned : b % (2 ^ order * page_size) ≡ 0
  pub halves : (b ≡ a + 2 ^ order * page_size) ⊎ (a ≡ b + 2 ^ order * page_size)
  pub merged : (if ltb a b then a else b) % (2 ^ suc order * page_size) ≡ 0
  pub same_pair : b / page_size / 2 ^ (order + 1) ≡ a / page_size / 2 ^ (order + 1)

-- Toggling the digit of the block's size, there and back.
Toggled : ℕ → Type 0
Toggled order =
    let size = 2 ^ order * page_size in
    (a b c : ℕ)
    → a < max_pages * page_size
    → a % size ≡ 0
    → b + 2 * (a / size % 2 * size) ≡ a + size
    → c + 2 * (b / size % 2 * size) ≡ b + size
    → (b < max_pages * page_size)
      × (b % size ≡ 0)
      × ((b ≡ a + size) ⊎ (a ≡ b + size))
      × ((if ltb a b then a else b) % (2 ^ suc order * page_size) ≡ 0)
      × (b / page_size / 2 ^ (order + 1) ≡ a / page_size / 2 ^ (order + 1))
      × (c ≡ a)

toggled : (order : ℕ) → order < 11 → Toggled order
unfolding Toggled
toggled =
    small_order Toggled (λ a b c h k e e'. ground arith) (λ a b c h k e e'. ground arith)
      (λ a b c h k e e'. ground arith) (λ a b c h k e e'. ground arith)
      (λ a b c h k e e'. ground arith) (λ a b c h k e e'. ground arith)
      (λ a b c h k e e'. ground arith) (λ a b c h k e e'. ground arith)
      (λ a b c h k e e'. ground arith) (λ a b c h k e e'. ground arith)
      (λ a b c h k e e'. ground arith)

-- The size of a block is one binary digit.
Size : ℕ → Type 0
Size order =
    (2 ^ order * page_size ≡ 2 ^ (order + 12)) × (mul64 (2 ^ order) page_size ≡ 2 ^ (order + 12))

size_lem : (order : ℕ) → order < 11 → Size order
unfolding Size
size_lem =
    small_order Size (refl, refl) (refl, refl) (refl, refl) (refl, refl) (refl, refl) (refl, refl)
      (refl, refl) (refl, refl) (refl, refl) (refl, refl) (refl, refl)

-- The address from the start of the managed pages.
relative_buddy : ℕ → ℕ → ℕ
relative_buddy rel order = bit_xor rel (2 ^ (order + 12))

calculate_buddy_address-relative :
    (s : BuddyAllocator) (ptr order : ℕ)
    → order < 11
    → s.offset + max_pages * page_size ≤ word
    → s.offset ≤ ptr
    → ptr < s.offset + max_pages * page_size
    → relative_buddy (ptr - s.offset) order < max_pages * page_size
    → calculate_buddy_address s ptr order ≡ relative_buddy (ptr - s.offset) order + s.offset
unfolding calculate_buddy_address Size relative_buddy
calculate_buddy_address-relative s ptr order small fits low high below =
    let rel : sub64 ptr s.offset ≡ ptr - s.offset = omega arith in
    let size = (size_lem order small).1 in rw (rel, size) (omega arith)

-- The digit of the size, in the form that `toggled` takes.
relative_buddy-toggles :
    (rel order : ℕ)
    → order < 11
    → let size = 2 ^ order * page_size in
      relative_buddy rel order + 2 * (rel / size % 2 * size) ≡ rel + size
unfolding Size relative_buddy
relative_buddy-toggles rel order small =
    let size = (size_lem order small).0 in rw size (bit_xor_pow (order + 12) rel)

-- On a managed address at a block boundary of an order that has a bit, with managed pages that end below
-- 2^64: the address computed is that of the buddy, and computing the buddy of the buddy gives the address
-- back. The two blocks are the halves of one block of the next order, which starts at the lower of
-- the two, and they have the same bit.
pub calculate_buddy_address-BuddyOf :
    (s : BuddyAllocator) (ptr order : ℕ)
    → let buddy = calculate_buddy_address s ptr order in
      order < 11
      → s.offset + max_pages * page_size ≤ word
      → s.offset ≤ ptr
      → ptr < s.offset + max_pages * page_size
      → (ptr - s.offset) % (2 ^ order * page_size) ≡ 0
      → (s.offset ≤ buddy)
        × BuddyOf order (ptr - s.offset) (buddy - s.offset)
        × (calculate_buddy_address s buddy order ≡ ptr)
unfolding Toggled
calculate_buddy_address-BuddyOf s ptr order small fits low high at =
    let rel = ptr - s.offset in
    let b = relative_buddy rel order in
    let all =
      toggled order small rel b (relative_buddy b order) (omega arith) at
        (relative_buddy-toggles rel order small) (relative_buddy-toggles b order small) in
    let there = calculate_buddy_address-relative s ptr order small fits low high all.0 in
    let base : b + s.offset - s.offset ≡ b = omega arith in
    let back : calculate_buddy_address s (b + s.offset) order ≡ ptr =
      calculate_buddy_address-relative s (b + s.offset) order small fits (omega arith)
        (omega (arith, all.0)) (rw base (omega (arith, all)))
      ∙ rw base (omega (arith, all)) in
    rw there (
      omega arith,
      rw base (record {
        managed = all.0;
        aligned = all.1;
        halves = all.2;
        merged = all.3;
        same_pair = all.4;
      }),
      back,
    )
