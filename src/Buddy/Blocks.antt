-- ===== src/Buddy/Blocks.antt =====
-- The blocks of kernel/src/mm/buddy.rs as address ranges: which addresses the free lists cover, and how
-- often.
use lymad_os.Base.{
  ℕ, zero, suc, ◌+◌, ◌-◌, ◌*◌, ◌%◌, ◌^◌, ◌≤◌, ◌<◌, ◌≡◌, ◌≢◌, refl, arith, List, [], ◌∷◌, ◌++◌, ◌==◌,
  write, Bool-cases, ==_iff, inl, inr,
}
use mathlib.Core.Path.{subst}
use native.Mathlib.Nat.{one-le-pow, pow-suc}
use lymad_os.Memory.{page_size, range}
use lymad_os.Memory.Ranges.{holds}
use lymad_os.Buddy.{max_order, max_pages}
use lymad_os.Buddy.FreeLists.{Absent, Distinct, Disjoint}

-- The bytes of a block.
abbrev pub size : ℕ → ℕ
size order = 2 ^ order * page_size

pub size_pos : (order : ℕ) → 0 < size order
size_pos order = omega (arith, one-le-pow order 2 (omega arith))

pub size-suc : (order : ℕ) → size (suc order) ≡ size order + size order
size-suc order = omega (arith, pow-suc 2 order)

-- 1 if the address lies in the block of the order at `x`, else 0.
abbrev pub block_holds : (order a x : ℕ) → ℕ
block_holds order a x = holds a (range x (x + size order))

-- How many blocks of the order hold the address.
abbrev pub cover : (order a : ℕ) → List ℕ → ℕ
cover order a [] = 0
cover order a (x ∷ xs) = block_holds order a x + cover order a xs

-- The same over the orders below `n`.
abbrev pub cover_below : (n : ℕ) → (ℕ → List ℕ) → (a : ℕ) → ℕ
cover_below zero free a = 0
cover_below (suc n) free a = cover n a (free n) + cover_below n free a

-- How many free blocks hold the address.
unfoldable pub free_cover : (ℕ → List ℕ) → ℕ → ℕ
free_cover = cover_below max_order

-- A block of the order in the managed pages, which start at `base`.
pub record IsBlock (base order x : ℕ) : Type 0 where
  pub low : base ≤ x
  pub high : x < base + max_pages * page_size
  pub aligned : (x - base) % size order ≡ 0

abbrev pub All {κ} : (ℕ → Type κ) → List ℕ → Type κ
All P [] = Unit
All P (x ∷ xs) = P x × All P xs

pub All-append {κ} : (P : ℕ → Type κ) (us vs : List ℕ) → All P (us ++ vs) → All P us × All P vs
All-append P [] vs h = (tt, h)
All-append P (u ∷ us) vs h = let both = All-append P us vs h.1 in ((h.0, both.0), both.1)

pub All-join {κ} : (P : ℕ → Type κ) (us vs : List ℕ) → All P us → All P vs → All P (us ++ vs)
All-join P [] vs h k = k
All-join P (u ∷ us) vs h k = (h.0, All-join P us vs h.1 k)

pub holds_self : (order x : ℕ) → block_holds order x x ≡ 1
holds_self order x = ground (arith, size_pos order)

pub cover-append :
    (order a : ℕ) (us vs : List ℕ) → cover order a (us ++ vs) ≡ cover order a us + cover order a vs
cover-append order a [] vs = omega arith
cover-append order a (u ∷ us) vs = omega (arith, cover-append order a us vs)

cover_below-le :
    (n order a : ℕ) (free : ℕ → List ℕ)
    → order < n
    → cover order a (free order) ≤ cover_below n free a
cover_below-le zero order a free h = elim h [ ]
cover_below-le (suc n) order a free h = ground (arith, cover_below-le n order a free)

-- Two orders.
cover_below-le-two :
    (n order order' a : ℕ) (free : ℕ → List ℕ)
    → order < n
    → order' < n
    → order ≢ order'
    → cover order a (free order) + cover order' a (free order') ≤ cover_below n free a
cover_below-le-two zero o o' a free h h' ne = elim h [ ]
cover_below-le-two (suc n) o o' a free h h' ne =
    ground (
      arith,
      cover_below-le n o a free,
      cover_below-le n o' a free,
      cover_below-le-two n o o' a free,
    )

cover_below-write_above :
    (n order a : ℕ) (free : ℕ → List ℕ) (xs : List ℕ)
    → n ≤ order
    → cover_below n (write free order xs) a ≡ cover_below n free a
cover_below-write_above zero order a free xs h = refl
cover_below-write_above (suc n) order a free xs h =
    ground (arith, cover_below-write_above n order a free xs)

-- One list is replaced.
cover_below-write :
    (n order a : ℕ) (free : ℕ → List ℕ) (xs : List ℕ)
    → order < n
    → cover_below n (write free order xs) a + cover order a (free order)
      ≡ cover_below n free a + cover order a xs
cover_below-write zero order a free xs h = elim h [ ]
cover_below-write (suc n) order a free xs h =
    ground (arith, cover_below-write n order a free xs, cover_below-write_above n order a free xs)

pub free_cover-le :
    (order a : ℕ) (free : ℕ → List ℕ)
    → order < max_order
    → cover order a (free order) ≤ free_cover free a
unfolding free_cover
free_cover-le = cover_below-le max_order

pub free_cover-le-two :
    (order order' a : ℕ) (free : ℕ → List ℕ)
    → order < max_order
    → order' < max_order
    → order ≢ order'
    → cover order a (free order) + cover order' a (free order') ≤ free_cover free a
unfolding free_cover
free_cover-le-two = cover_below-le-two max_order

pub free_cover-write :
    (order a : ℕ) (free : ℕ → List ℕ) (xs : List ℕ)
    → order < max_order
    → free_cover (write free order xs) a + cover order a (free order)
      ≡ free_cover free a + cover order a xs
unfolding free_cover
free_cover-write = cover_below-write max_order

-- What holds of the new list and of the other orders' lists holds of every order's.
pub write_each {κ} :
    (P : ℕ → List ℕ → Type κ) (free : ℕ → List ℕ) (order : ℕ) (xs : List ℕ)
    → P order xs
    → ((order' : ℕ) → order' ≢ order → P order' (free order'))
    → (order' : ℕ) → P order' (write free order xs order')
write_each P free order xs new old order' = elim (Bool-cases (order == order')) [
  | inl e ↦ rw e (subst (λ (o : ℕ). P o xs) ((==_iff order order').0 e) new)
  | inr ne ↦ rw ne (old order' (λ e. ground arith))
]

-- An address that no block of the list holds is none of the blocks.
pub Absent-cover : (order x : ℕ) (xs : List ℕ) → cover order x xs ≡ 0 → Absent x xs
Absent-cover order x [] h = tt
Absent-cover order x (y ∷ ys) h =
    (λ e. ground (arith, holds_self order x), Absent-cover order x ys (omega arith))

pub Distinct-cover : (order : ℕ) (xs : List ℕ) → ((a : ℕ) → cover order a xs ≤ 1) → Distinct xs
Distinct-cover order [] h = tt
Distinct-cover order (x ∷ xs) h = (
  Absent-cover order x xs (omega (arith, h x, holds_self order x)),
  Distinct-cover order xs (λ a. omega (arith, h a)),
)

pub Disjoint-cover :
    (order order' : ℕ) (xs ys : List ℕ)
    → ((a : ℕ) → cover order a xs + cover order' a ys ≤ 1)
    → Disjoint xs ys
Disjoint-cover order order' [] ys h = tt
Disjoint-cover order order' (x ∷ xs) ys h = (
  Absent-cover order' x ys (omega (arith, h x, holds_self order x)),
  Disjoint-cover order order' xs ys (λ a. omega (arith, h a)),
)
