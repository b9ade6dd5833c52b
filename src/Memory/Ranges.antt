-- ===== src/Memory/Ranges.antt =====
-- The ranges of kernel/src/mm/memory.rs as a list: what the array loops compute, which addresses a
-- list of ranges covers and how often, and the order that keeps the ranges apart.
pub mod Delete
pub mod Merge
use lymad_os.Base.{
  ℕ, zero, suc, ◌+◌, ◌-◌, ◌≤◌, ◌<◌, ◌≡◌, ◌&&◌, ◌↔◌, refl, List, [], ◌∷◌, ◌++◌, arith, ltb, leb,
  ◌==◌, if◌then◌else◌, length,
}
use lymad_os.Memory.{PhysRange, range, count_if}

module _ {ℓ} {A : Type ℓ} where
  abbrev pub delete : ℕ → List A → List A
  delete k [] = []
  delete zero (x ∷ xs) = xs
  delete (suc k) (x ∷ xs) = x ∷ delete k xs

  abbrev pub insert_at : ℕ → A → List A → List A
  insert_at zero r xs = r ∷ xs
  insert_at (suc k) r [] = r ∷ []
  insert_at (suc k) r (x ∷ xs) = x ∷ insert_at k r xs

-- Before the first range that starts later.
unfoldable pub insert_sorted : PhysRange → List PhysRange → List PhysRange
insert_sorted r [] = r ∷ []
insert_sorted r (x ∷ xs) = if ltb r.start x.start then r ∷ x ∷ xs else x ∷ insert_sorted r xs

-- `x` is the range that the loop stands at.
unfoldable pub merge_from : PhysRange → List PhysRange → List PhysRange
merge_from x [] = x ∷ []
merge_from x (y ∷ ys) =
    let merged = merge_from (range x.start y.end) ys in
    let apart = x ∷ merge_from y ys in if x.end == y.start then merged else apart

abbrev pub merge : List PhysRange → List PhysRange
merge [] = []
merge (x ∷ xs) = merge_from x xs

-- 1 if the address `a` lies in the range, else 0.
abbrev pub holds : ℕ → PhysRange → ℕ
holds a r = count_if (leb r.start a && ltb a r.end)

-- How many of the ranges hold the address.
abbrev pub cover : ℕ → List PhysRange → ℕ
cover a [] = 0
cover a (r ∷ rs) = holds a r + cover a rs

abbrev pub bytes : List PhysRange → ℕ
bytes [] = 0
bytes (r ∷ rs) = (r.end - r.start) + bytes rs

-- Non-empty ranges, in order and apart, from `lo` up.
abbrev pub Chain : ℕ → List PhysRange → Type 0
Chain lo [] = Unit
Chain lo (r ∷ rs) = (lo ≤ r.start) × (r.start < r.end) × Chain r.end rs

abbrev pub All {κ} : (PhysRange → Type κ) → List PhysRange → Type κ
All P [] = Unit
All P (r ∷ rs) = P r × All P rs

-- No address is in `r` and in one of the ranges.
abbrev pub Apart : PhysRange → List PhysRange → Type 0
Apart r rs = (a : ℕ) → holds a r + cover a rs ≤ 1

pub cover-insert_sorted :
    (a : ℕ) (r : PhysRange) (xs : List PhysRange)
    → cover a (insert_sorted r xs) ≡ holds a r + cover a xs
unfolding insert_sorted
cover-insert_sorted a r [] = refl
cover-insert_sorted a r (x ∷ xs) = ground (arith, cover-insert_sorted a r xs)

pub bytes-insert_sorted :
    (r : PhysRange) (xs : List PhysRange)
    → bytes (insert_sorted r xs) ≡ (r.end - r.start) + bytes xs
unfolding insert_sorted
bytes-insert_sorted r [] = refl
bytes-insert_sorted r (x ∷ xs) = ground (arith, bytes-insert_sorted r xs)

pub length-insert_sorted :
    (r : PhysRange) (xs : List PhysRange) → length (insert_sorted r xs) ≡ suc (length xs)
unfolding insert_sorted
length-insert_sorted r [] = refl
length-insert_sorted r (x ∷ xs) = ground (arith, length-insert_sorted r xs)

pub Chain-insert_sorted :
    (lo : ℕ) (r : PhysRange) (xs : List PhysRange)
    → Chain lo xs
    → lo ≤ r.start
    → r.start < r.end
    → Apart r xs
    → Chain lo (insert_sorted r xs)
unfolding insert_sorted
Chain-insert_sorted lo r [] c h n apart = (h, n, tt)
Chain-insert_sorted lo r (x ∷ xs) c h n apart =
    ground
      (arith, apart x.start, apart r.start, Chain-insert_sorted x.end r xs c.2, λ (a : ℕ). apart a)

pub All-insert_sorted {κ} :
    (P : PhysRange → Type κ) (r : PhysRange) (xs : List PhysRange)
    → P r
    → All P xs
    → All P (insert_sorted r xs)
unfolding insert_sorted
All-insert_sorted P r [] p all = (p, tt)
All-insert_sorted P r (x ∷ xs) p all = ground (arith, All-insert_sorted P r xs p all.1)

pub cover-append : (a : ℕ) (xs ys : List PhysRange) → cover a (xs ++ ys) ≡ cover a xs + cover a ys
cover-append a [] ys = omega arith
cover-append a (x ∷ xs) ys = omega (arith, cover-append a xs ys)

pub bytes-append : (xs ys : List PhysRange) → bytes (xs ++ ys) ≡ bytes xs + bytes ys
bytes-append [] ys = omega arith
bytes-append (x ∷ xs) ys = omega (arith, bytes-append xs ys)

pub All-append {κ} :
    (P : PhysRange → Type κ) (xs ys : List PhysRange) → All P (xs ++ ys) ↔ (All P xs × All P ys)
All-append P [] ys = (λ h. (tt, h), λ h. h.1)
All-append P (x ∷ xs) ys =
    let ih = All-append P xs ys in
    (λ h. ((h.0, (ih.0 h.1).0), (ih.0 h.1).1), λ h. (h.0.0, ih.1 (h.0.1, h.1)))
