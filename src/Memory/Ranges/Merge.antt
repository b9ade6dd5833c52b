-- ===== src/Memory/Ranges/Merge.antt =====
-- Joining neighbours that touch: the addresses and the gaps of the joined list.
use lymad_os.Base.{ℕ, suc, ◌+◌, ◌-◌, ◌≤◌, ◌<◌, ◌≡◌, refl, List, [], ◌∷◌, arith, length}
use lymad_os.Memory.{PhysRange, range}
use lymad_os.Memory.Ranges.{merge_from, merge, holds, cover, bytes, Chain, All}

-- Each range ends before the next one starts.
abbrev pub Gapped : List PhysRange → Type 0
Gapped [] = Unit
Gapped (r ∷ []) = Unit
Gapped (r ∷ q ∷ rs) = (r.end < q.start) × Gapped (q ∷ rs)

cover-merge_from :
    (a lo : ℕ) (x : PhysRange) (xs : List PhysRange)
    → Chain lo (x ∷ xs)
    → cover a (merge_from x xs) ≡ holds a x + cover a xs
unfolding merge_from
cover-merge_from a lo x [] c = refl
cover-merge_from a lo x (y ∷ ys) c =
    ground
      (arith, cover-merge_from a lo (range x.start y.end) ys, cover-merge_from a x.end y ys c.2)

bytes-merge_from :
    (lo : ℕ) (x : PhysRange) (xs : List PhysRange)
    → Chain lo (x ∷ xs)
    → bytes (merge_from x xs) ≡ (x.end - x.start) + bytes xs
unfolding merge_from
bytes-merge_from lo x [] c = refl
bytes-merge_from lo x (y ∷ ys) c =
    ground (arith, bytes-merge_from lo (range x.start y.end) ys, bytes-merge_from x.end y ys c.2)

Chain-merge_from :
    (lo : ℕ) (x : PhysRange) (xs : List PhysRange) → Chain lo (x ∷ xs) → Chain lo (merge_from x xs)
unfolding merge_from
Chain-merge_from lo x [] c = c
Chain-merge_from lo x (y ∷ ys) c =
    ground (arith, Chain-merge_from lo (range x.start y.end) ys, Chain-merge_from x.end y ys c.2)

length-merge_from :
    (x : PhysRange) (xs : List PhysRange) → length (merge_from x xs) ≤ suc (length xs)
unfolding merge_from
length-merge_from x [] = omega arith
length-merge_from x (y ∷ ys) =
    ground (arith, length-merge_from (range x.start y.end) ys, length-merge_from y ys)

All-merge_from {κ} :
    (P : PhysRange → Type κ)
    → ((x y : PhysRange) → P x → P y → P (range x.start y.end))
    → (x : PhysRange) (xs : List PhysRange) → P x
    → All P xs
    → All P (merge_from x xs)
unfolding merge_from
All-merge_from P join x [] p all = (p, tt)
All-merge_from P join x (y ∷ ys) p all = ground (
  arith,
  All-merge_from P join (range x.start y.end) ys (join x y p all.0) all.1,
  All-merge_from P join y ys all.0 all.1,
)

-- The first range of the result starts where `x` does.
FirstFrom : ℕ → List PhysRange → Type 0
FirstFrom s [] = ⊥
FirstFrom s (r ∷ rs) = r.start ≡ s

FirstFrom-merge_from : (x : PhysRange) (xs : List PhysRange) → FirstFrom x.start (merge_from x xs)
unfolding merge_from FirstFrom
FirstFrom-merge_from x [] = refl
FirstFrom-merge_from x (y ∷ ys) = ground (arith, FirstFrom-merge_from (range x.start y.end) ys)

Gapped-cons :
    (x : PhysRange) (s : ℕ) (ys : List PhysRange)
    → x.end < s
    → FirstFrom s ys
    → Gapped ys
    → Gapped (x ∷ ys)
unfolding FirstFrom
Gapped-cons x s [] h f g = tt
Gapped-cons x s (y ∷ ys) h f g = (omega arith, g)

Gapped-merge_from :
    (lo : ℕ) (x : PhysRange) (xs : List PhysRange) → Chain lo (x ∷ xs) → Gapped (merge_from x xs)
unfolding merge_from
Gapped-merge_from lo x [] c = tt
Gapped-merge_from lo x (y ∷ ys) c = ground (
  arith,
  Gapped-merge_from lo (range x.start y.end) ys,
  Gapped-cons x y.start (merge_from y ys),
  FirstFrom-merge_from y ys,
  Gapped-merge_from x.end y ys c.2,
)

pub cover-merge : (a : ℕ) (xs : List PhysRange) → Chain 0 xs → cover a (merge xs) ≡ cover a xs
cover-merge a [] c = refl
cover-merge a (x ∷ xs) c = cover-merge_from a 0 x xs c

pub bytes-merge : (xs : List PhysRange) → Chain 0 xs → bytes (merge xs) ≡ bytes xs
bytes-merge [] c = refl
bytes-merge (x ∷ xs) c = bytes-merge_from 0 x xs c

pub Chain-merge : (xs : List PhysRange) → Chain 0 xs → Chain 0 (merge xs)
Chain-merge [] c = tt
Chain-merge (x ∷ xs) c = Chain-merge_from 0 x xs c

pub Gapped-merge : (xs : List PhysRange) → Chain 0 xs → Gapped (merge xs)
Gapped-merge [] c = tt
Gapped-merge (x ∷ xs) c = Gapped-merge_from 0 x xs c

pub All-merge {κ} :
    (P : PhysRange → Type κ)
    → ((x y : PhysRange) → P x → P y → P (range x.start y.end))
    → (xs : List PhysRange) → All P xs
    → All P (merge xs)
All-merge P join [] all = tt
All-merge P join (x ∷ xs) all = All-merge_from P join x xs all.0 all.1
