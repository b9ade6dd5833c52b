-- ===== src/Memory/Arrays.antt =====
-- The loops of kernel/src/mm/memory.rs over the array `free_ranges`, as operations on the list of
-- the ranges in use.
use lymad_os.Base.{
  ℕ, zero, suc, ◌+◌, ◌-◌, ◌≤◌, ◌<◌, ◌≡◌, ◌&&◌, refl, ◌∙◌, ap, sym, some, List, [], ◌∷◌, ◌++◌, arith,
  ltb, leb, if◌then◌else◌, Array, write, length, get_elem?, panic, ok, Bool-cases, inl, inr,
}
use mathlib.Core.Path.{ap₂}
use lymad_os.Memory.{
  PhysRange, BootInfoFrameAllocator, max_ranges, shift_left, remove_range, find_pos, shift_right,
  insert_range_sorted,
}
use lymad_os.Memory.Ranges.{delete, insert_at, insert_sorted}

-- The entries `lo`, `lo + 1`, … of an array, `n` of them.
abbrev pub window {ℓ} : {A : Type ℓ} → Array A → ℕ → ℕ → List A
window a lo zero = []
window a lo (suc n) = a lo ∷ window a (lo + 1) n

-- The ranges in use.
abbrev pub active : BootInfoFrameAllocator → List PhysRange
active s = window s.free_ranges 0 s.range_count

module _ {ℓ} {A : Type ℓ} where
  pub length-window : (a : Array A) (lo n : ℕ) → length (window a lo n) ≡ n
  length-window a lo zero = refl
  length-window a lo (suc n) = ap suc (length-window a (lo + 1) n)

  pub get_elem?-window :
      (a : Array A) (lo n k : ℕ) → k < n → get_elem? (window a lo n) k ≡ some (a (lo + k))
  get_elem?-window a lo zero k h = elim h [ ]
  get_elem?-window a lo (suc n) zero h = ap (λ i. some (a i)) (omega arith)
  get_elem?-window a lo (suc n) (suc k) h =
      get_elem?-window a (lo + 1) n k (omega arith) ∙ ap (λ i. some (a i)) (omega arith)

  pub window_ext :
      (f a : Array A) (lo n : ℕ)
      → ((i : ℕ) → lo ≤ i → i < lo + n → f i ≡ a i)
      → window f lo n ≡ window a lo n
  window_ext f a lo zero h = refl
  window_ext f a lo (suc n) h =
      ap₂ ◌∷◌ (h lo (omega arith) (omega arith))
        (window_ext f a (lo + 1) n λ i p q. h i (omega arith) (omega arith))

  pub window-append :
      (a : Array A) (lo n m : ℕ) → window a lo (n + m) ≡ window a lo n ++ window a (lo + n) m
  window-append a lo zero m = ap₂ (window a) (omega arith) (omega arith)
  window-append a lo (suc n) m =
      ap (window a lo) (let e : suc n + m ≡ suc (n + m) = omega arith in e)
      ∙ ap (λ xs. a lo ∷ xs) (window-append a (lo + 1) n m)
      ∙ ap (λ k. a lo ∷ (window a (lo + 1) n ++ window a k m)) (omega arith)

  pub window_snoc : (a : Array A) (n : ℕ) → window a 0 (n + 1) ≡ window a 0 n ++ a n ∷ []
  window_snoc a n =
      window-append a 0 n 1
      ∙ ap (λ k. window a 0 n ++ a k ∷ []) (let e : 0 + n ≡ n = omega arith in e)

  pub window_shift :
      (f a : Array A) (lo n : ℕ)
      → ((i : ℕ) → lo ≤ i → i < lo + n → f (i + 1) ≡ a i)
      → window f (lo + 1) n ≡ window a lo n
  window_shift f a lo zero h = refl
  window_shift f a lo (suc n) h =
      ap₂ ◌∷◌ (h lo (omega arith) (omega arith))
        (window_shift f a (lo + 1) n λ i p q. h i (omega arith) (omega arith))

  window-delete :
      (f a : Array A) (n lo k : ℕ)
      → k ≤ n
      → ((i : ℕ) → lo ≤ i → i < lo + k → f i ≡ a i)
      → ((i : ℕ) → lo + k ≤ i → i < lo + n → f i ≡ a (i + 1))
      → window f lo n ≡ delete k (window a lo (suc n))
  window-delete f a zero lo zero h below above = refl
  window-delete f a zero lo (suc k) h below above = absurd (omega arith)
  window-delete f a (suc n) lo zero h below above = ap₂ ◌∷◌ (above lo (omega arith) (omega arith)) (
      window-delete f a n (lo + 1) zero (omega arith) (λ i p q. absurd (omega arith))
        (λ i p q. above i (omega arith) (omega arith)))
  window-delete f a (suc n) lo (suc k) h below above =
      ap₂ ◌∷◌ (below lo (omega arith) (omega arith)) (
        window-delete f a n (lo + 1) k (omega arith) (λ i p q. below i (omega arith) (omega arith))
          (λ i p q. above i (omega arith) (omega arith)))

  window-insert :
      (f a : Array A) (r : A) (n lo k : ℕ)
      → k ≤ n
      → ((i : ℕ) → lo ≤ i → i < lo + k → f i ≡ a i)
      → f (lo + k) ≡ r
      → ((i : ℕ) → lo + k ≤ i → i < lo + n → f (i + 1) ≡ a i)
      → window f lo (suc n) ≡ insert_at k r (window a lo n)
  window-insert f a r n lo zero h below at above =
      ap₂ ◌∷◌ (ap f (omega arith) ∙ at)
        (window_shift f a lo n λ i p q. above i (omega arith) (omega arith))
  window-insert f a r zero lo (suc k) h below at above = absurd (omega arith)
  window-insert f a r (suc n) lo (suc k) h below at above =
      ap₂ ◌∷◌ (below lo (omega arith) (omega arith)) (
        window-insert f a r n (lo + 1) k (omega arith)
          (λ i p q. below i (omega arith) (omega arith)) (ap f (omega arith) ∙ at)
          (λ i p q. above i (omega arith) (omega arith)))

shift_left_lem :
    (n j : ℕ) (a : Array PhysRange) (i : ℕ)
    → shift_left n j a i ≡ (if leb j i && ltb i (j + n) then a (i + 1) else a i)
unfolding shift_left
shift_left_lem zero j a i = ground arith
shift_left_lem (suc n) j a i = ground (arith, shift_left_lem n (j + 1) (write a j (a (j + 1))) i)

shift_right_lem :
    (n pos : ℕ) (a : Array PhysRange) (i : ℕ)
    → shift_right n pos a i ≡ (if ltb pos i && leb i (pos + n) then a (i - 1) else a i)
unfolding shift_right
shift_right_lem zero pos a i = ground arith
shift_right_lem (suc n) pos a i =
    ground (arith, shift_right_lem n pos (write a (pos + n + 1) (a (pos + n))) i, e)
  where
    e : i ≡ pos + n + 1 → a (i - 1) ≡ a (pos + n)
    e h = ap a (omega arith)

find_pos_bounds :
    (n i : ℕ) (a : Array PhysRange) (start : ℕ)
    → (i ≤ find_pos n i a start) × (find_pos n i a start ≤ i + n)
unfolding find_pos
find_pos_bounds zero i a start = omega arith
find_pos_bounds (suc n) i a start = ground (arith, find_pos_bounds n (i + 1) a start)

insert_at-pos :
    (d : ℕ) (r x : PhysRange) (xs : List PhysRange)
    → 0 < d
    → insert_at d r (x ∷ xs) ≡ x ∷ insert_at (d - 1) r xs
insert_at-pos zero r x xs h = absurd (omega arith)
insert_at-pos (suc k) r x xs h = ap (λ d. x ∷ insert_at d r xs) (omega arith)

insert_at-zero : (d : ℕ) (r : PhysRange) (xs : List PhysRange) → d ≡ 0 → insert_at d r xs ≡ r ∷ xs
insert_at-zero zero r xs h = refl
insert_at-zero (suc d) r xs h = absurd (omega arith)

insert_at-find_pos :
    (r : PhysRange) (n lo : ℕ) (a : Array PhysRange)
    → insert_at (find_pos n lo a r.start - lo) r (window a lo n) ≡ insert_sorted r (window a lo n)
unfolding find_pos insert_sorted
insert_at-find_pos r zero lo a = insert_at-zero (lo - lo) r [] (omega arith)
insert_at-find_pos r (suc n) lo a = elim (Bool-cases (ltb r.start (a lo).start)) [
  | inl e ↦ rw e (insert_at-zero (lo - lo) r (a lo ∷ window a (lo + 1) n) (omega arith))
  | inr e ↦ rw e (
      let pos = find_pos n (lo + 1) a r.start in
      let after : lo + 1 ≤ pos = (find_pos_bounds n (lo + 1) a r.start).0 in
      insert_at-pos (pos - lo) r (a lo) (window a (lo + 1) n) (omega arith)
      ∙ ap (λ d. a lo ∷ insert_at d r (window a (lo + 1) n)) (omega arith)
      ∙ ap (λ xs. a lo ∷ xs) (insert_at-find_pos r n (lo + 1) a))
]

-- Below the index an entry stays, and from it on each comes one down.
pub remove_range-at :
    (s : BootInfoFrameAllocator) (k i : ℕ)
    → k < s.range_count
    → i + 1 < s.range_count
    → (remove_range s k).free_ranges i
      ≡ (if ltb i k then s.free_ranges i else s.free_ranges (i + 1))
unfolding remove_range
remove_range-at s k i h below =
    ground (arith, shift_left_lem (s.range_count - 1 - k) k s.free_ranges i)

pub remove_range-fields :
    (s : BootInfoFrameAllocator) (k : ℕ)
    → ((remove_range s k).range_count ≡ s.range_count - 1)
      × ((remove_range s k).allocated_bytes ≡ s.allocated_bytes)
      × ((remove_range s k).total_bytes ≡ s.total_bytes)
unfolding remove_range
remove_range-fields s k = (refl, refl, refl)

-- At an index in use, `remove_range` deletes that entry from the list of the ranges in use, and the others
-- keep their order.
pub active-remove_range :
    (s : BootInfoFrameAllocator) (k : ℕ)
    → k < s.range_count
    → active (remove_range s k) ≡ delete k (active s)
unfolding remove_range
active-remove_range s k h =
    let last = s.range_count - 1 in
    let count : s.range_count ≡ suc last = omega arith in
    window-delete (remove_range s k).free_ranges s.free_ranges last 0 k (omega arith)
      (λ i p q. ground (arith, remove_range-at s k i h))
      (λ i p q. ground (arith, remove_range-at s k i h))
    ∙ ap (λ n. delete k (window s.free_ranges 0 n)) (sym count)

-- With fewer than 256 ranges in use, `insert_range_sorted` succeeds, puts the range before the first of the
-- list that starts later, and leaves the byte counts.
pub insert_range_sorted_lem :
    (s : BootInfoFrameAllocator) (r : PhysRange)
    → s.range_count < max_ranges
    → (t : BootInfoFrameAllocator) × (insert_range_sorted s r ≡ ok t)
      × (active t ≡ insert_sorted r (active s))
      × (t.range_count ≡ s.range_count + 1)
      × (t.allocated_bytes ≡ s.allocated_bytes)
      × (t.total_bytes ≡ s.total_bytes)
unfolding insert_range_sorted
insert_range_sorted_lem s r h =
    let pos = find_pos s.range_count 0 s.free_ranges r.start in
    let bounds = find_pos_bounds s.range_count 0 s.free_ranges r.start in
    let moved = shift_right (s.range_count - pos) pos s.free_ranges in
    let f = write moved pos r in
    let shifted = shift_right_lem (s.range_count - pos) pos s.free_ranges in
    (
      record s { free_ranges = f; range_count = s.range_count + 1 },
      ground arith,
      ap (window f 0) (let e : s.range_count + 1 ≡ suc s.range_count = omega arith in e)
          ∙ window-insert f s.free_ranges r s.range_count 0 pos (omega arith)
              (λ i p q. ground (arith, shifted i)) (ground arith)
              (λ i p q. ground (
                arith,
                shifted (i + 1),
                ap s.free_ranges (let e : i + 1 - 1 ≡ i = omega arith in e),
              ))
          ∙ ap (λ d. insert_at d r (active s)) (let e : pos ≡ pos - 0 = omega arith in e)
          ∙ insert_at-find_pos r s.range_count 0 s.free_ranges,
      refl,
      refl,
      refl,
    )

pub insert_range_sorted_full :
    (s : BootInfoFrameAllocator) (r : PhysRange)
    → max_ranges ≤ s.range_count
    → insert_range_sorted s r ≡ panic
unfolding insert_range_sorted
insert_range_sorted_full s r h = ground arith
