-- ===== src/Memory/Ranges/Delete.antt =====
-- A list of ranges without its `k`-th.
use lymad_os.Base.{ℕ, zero, suc, ◌+◌, ◌-◌, ◌≤◌, ◌<◌, ◌≡◌, some, List, [], ◌∷◌, arith, get_elem?}
use mathlib.Core.Path.{subst}
use lymad_os.Memory.{PhysRange}
use lymad_os.Memory.Ranges.{delete, holds, cover, bytes, Chain, All}

pub cover-delete :
    (a k : ℕ) (xs : List PhysRange) {r : PhysRange}
    → get_elem? xs k ≡ some r
    → cover a (delete k xs) + holds a r ≡ cover a xs
cover-delete a k [] h = ground arith
cover-delete a zero (x ∷ xs) h = ground arith
cover-delete a (suc k) (x ∷ xs) h = omega (arith, cover-delete a k xs h)

pub bytes-delete :
    (k : ℕ) (xs : List PhysRange) {r : PhysRange}
    → get_elem? xs k ≡ some r
    → bytes (delete k xs) + (r.end - r.start) ≡ bytes xs
bytes-delete k [] h = ground arith
bytes-delete zero (x ∷ xs) h = ground arith
bytes-delete (suc k) (x ∷ xs) h = omega (arith, bytes-delete k xs h)

pub Chain-mono : {lo lo' : ℕ} (xs : List PhysRange) → Chain lo xs → lo' ≤ lo → Chain lo' xs
Chain-mono [] c h = tt
Chain-mono (x ∷ xs) c h = (omega arith, c.1, c.2)

pub Chain-delete : (lo k : ℕ) (xs : List PhysRange) → Chain lo xs → Chain lo (delete k xs)
Chain-delete lo k [] c = tt
Chain-delete lo zero (x ∷ xs) c = Chain-mono xs c.2 (omega arith)
Chain-delete lo (suc k) (x ∷ xs) c = (c.0, c.1, Chain-delete x.end k xs c.2)

pub Chain-get_elem :
    (lo k : ℕ) (xs : List PhysRange) {r : PhysRange}
    → Chain lo xs
    → get_elem? xs k ≡ some r
    → (lo ≤ r.start) × (r.start < r.end)
Chain-get_elem lo k [] c h = ground arith
Chain-get_elem lo zero (x ∷ xs) c h = ground arith
Chain-get_elem lo (suc k) (x ∷ xs) c h =
    let ih = Chain-get_elem x.end k xs c.2 h in (omega arith, ih.1)

pub All-delete {κ} :
    (P : PhysRange → Type κ) (k : ℕ) (xs : List PhysRange) → All P xs → All P (delete k xs)
All-delete P k [] all = tt
All-delete P zero (x ∷ xs) all = all.1
All-delete P (suc k) (x ∷ xs) all = (all.0, All-delete P k xs all.1)

pub All-get_elem {κ} :
    (P : PhysRange → Type κ) (k : ℕ) (xs : List PhysRange) {r : PhysRange}
    → All P xs
    → get_elem? xs k ≡ some r
    → P r
All-get_elem P k [] all h = absurd (ground arith)
All-get_elem P zero (x ∷ xs) all h = subst P (cc) all.0
All-get_elem P (suc k) (x ∷ xs) all h = All-get_elem P k xs all.1 h

-- Below the first range nothing is covered, and a chain covers no address twice.
pub cover_below : (a lo : ℕ) (xs : List PhysRange) → Chain lo xs → a < lo → cover a xs ≡ 0
cover_below a lo [] c h = ground arith
cover_below a lo (x ∷ xs) c h = ground (arith, cover_below a x.end xs c.2)

pub cover-le-one : (a lo : ℕ) (xs : List PhysRange) → Chain lo xs → cover a xs ≤ 1
cover-le-one a lo [] c = omega arith
cover-le-one a lo (x ∷ xs) c =
    ground (arith, cover-le-one a x.end xs c.2, cover_below a x.end xs c.2)
