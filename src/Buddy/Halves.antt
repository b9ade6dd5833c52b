-- ===== src/Buddy/Halves.antt =====
-- The halves of a block, for kernel/src/mm/buddy.rs.
use lymad_os.Base.{
  ℕ, suc, ◌+◌, ◌-◌, ◌*◌, ◌/◌, ◌%◌, ◌^◌, ◌≤◌, ◌<◌, ◌≡◌, ◌≢◌, ◌⊎◌, ◌∙◌, ap, sym, arith, ltb,
  if◌then◌else◌, word,
}
use lymad_os.Memory.{page_size}
use lymad_os.Buddy.{BuddyAllocator, max_pages, calculate_buddy_address}
use lymad_os.Buddy.Pairs.{small_order, calculate_buddy_address-BuddyOf}
use lymad_os.Buddy.Blocks.{size, size-suc, size_pos, block_holds, IsBlock}
use lymad_os.Buddy.Invariant.{page_of}

-- Two blocks of a pair are the same or buddies.
Only : ℕ → Type 0
Only order =
    (x y b : ℕ)
    → x % size order ≡ 0
    → y % size order ≡ 0
    → y / page_size / 2 ^ (order + 1) ≡ x / page_size / 2 ^ (order + 1)
    → b / page_size / 2 ^ (order + 1) ≡ x / page_size / 2 ^ (order + 1)
    → (b ≡ x + size order) ⊎ (x ≡ b + size order)
    → x ≢ y
    → y ≡ b

only : (order : ℕ) → order < 11 → Only order
unfolding Only
only =
    small_order Only (λ x y b h k e e' o n. ground arith) (λ x y b h k e e' o n. ground arith)
      (λ x y b h k e e' o n. ground arith) (λ x y b h k e e' o n. ground arith)
      (λ x y b h k e e' o n. ground arith) (λ x y b h k e e' o n. ground arith)
      (λ x y b h k e e' o n. ground arith) (λ x y b h k e e' o n. ground arith)
      (λ x y b h k e e' o n. ground arith) (λ x y b h k e e' o n. ground arith)
      (λ x y b h k e e' o n. ground arith)

-- A block boundary of the next order is one of the order, and the lower half starts there.
Coarse : ℕ → Type 0
Coarse order =
    (x b : ℕ)
    → x % size (suc order) ≡ 0
    → (x % size order ≡ 0)
      × ((if ltb x b then x else b) % size (suc order) ≡ 0
          → (b ≡ x + size order) ⊎ (x ≡ b + size order)
          → b ≡ x + size order)

coarse : (order : ℕ) → order < 11 → Coarse order
unfolding Coarse
coarse =
    small_order Coarse (λ x b h. ground arith) (λ x b h. ground arith) (λ x b h. ground arith)
      (λ x b h. ground arith) (λ x b h. ground arith) (λ x b h. ground arith)
      (λ x b h. ground arith) (λ x b h. ground arith) (λ x b h. ground arith)
      (λ x b h. ground arith) (λ x b h. ground arith)

pub IsBlock-smaller :
    (base order x : ℕ) → order < 11 → IsBlock base (suc order) x → IsBlock base order x
unfolding Coarse
IsBlock-smaller base order x h b = record {
  low = b.low;
  high = b.high;
  aligned = (coarse order h (x - base) 0 b.aligned).0;
}

-- A block's buddy and the block of the next order that the two make.
pub record IsSplit (base order x buddy : ℕ) : Type 0 where
  pub block : IsBlock base order buddy
  pub pair : page_of base buddy / 2 ^ (order + 1) ≡ page_of base x / 2 ^ (order + 1)
  pub whole : IsBlock base (suc order) (if ltb x buddy then x else buddy)
  pub halves :
      (a : ℕ)
      → block_holds order a x + block_holds order a buddy
        ≡ block_holds (suc order) a (if ltb x buddy then x else buddy)
  pub only :
      (y : ℕ)
      → IsBlock base order y
      → page_of base y / 2 ^ (order + 1) ≡ page_of base x / 2 ^ (order + 1)
      → x ≢ y
      → y ≡ buddy
  pub upper : (x - base) % size (suc order) ≡ 0 → x < buddy

lower_relative :
    (base x b : ℕ)
    → base ≤ x
    → base ≤ b
    → (if ltb (x - base) (b - base) then x - base else b - base) ≡ (if ltb x b then x else b) - base
lower_relative base x b h h' = ground arith

join :
    (order a x b : ℕ)
    → (b ≡ x + size order) ⊎ (x ≡ b + size order)
    → block_holds order a x + block_holds order a b
      ≡ block_holds (suc order) a (if ltb x b then x else b)
join order a x b h = ground (arith, size-suc order, size_pos order)

pub calculate_buddy_address-IsSplit :
    (s : BuddyAllocator) (ptr order : ℕ)
    → order < 11
    → s.offset + max_pages * page_size < word
    → IsBlock s.offset order ptr
    → IsSplit s.offset order ptr (calculate_buddy_address s ptr order)
unfolding Only Coarse
calculate_buddy_address-IsSplit s ptr order small fits b =
    let (low, of, back) =
      calculate_buddy_address-BuddyOf s ptr order small (omega arith) b.low b.high b.aligned in
    let blow = b.low in
    let bhigh = b.high in
    let managed = of.managed in
    let halves = of.halves in
    let merged = of.merged in
    let buddy = calculate_buddy_address s ptr order in
    let apart : (buddy ≡ ptr + size order) ⊎ (ptr ≡ buddy + size order) = ground arith in
    record {
      block = record { low = low; high = omega arith; aligned = of.aligned };
      pair = of.same_pair;
      whole = record {
        low = ground arith;
        high = ground arith;
        aligned =
            ap (λ n. n % size (suc order)) (sym (lower_relative s.offset ptr buddy blow low))
            ∙ merged;
      };
      halves = λ a. join order a ptr buddy apart;
      only = λ y yb pair ne.
          let ylow = yb.low in
          let found =
            only order small (ptr - s.offset) (y - s.offset) (buddy - s.offset) b.aligned yb.aligned
              pair of.same_pair halves (λ e. ne (omega arith)) in
          omega arith;
      upper = λ h.
          let found = (coarse order small (ptr - s.offset) (buddy - s.offset) h).1 merged halves in
          omega (arith, size_pos order);
    }
