-- ===== src/Buddy/FreeLists.antt =====
-- The free lists of kernel/src/mm/buddy.rs, which run through the free pages, as lists of addresses.
pub mod Remove
pub mod Unlink
use lymad_os.Base.{
  ℕ, zero, suc, ◌+◌, ◌≤◌, ◌<◌, ◌≡◌, ◌≢◌, refl, ◌∙◌, ap, sym, arith, Option, none, some, List, [],
  ◌∷◌, ◌++◌, leb, ltb, ◌==◌, if◌then◌else◌, Array, write, Outcome, panic, ok, ◌>>=◌, Bool-cases,
  inl, inr, false, true,
}
use mathlib.Core.Path.{subst}
use lymad_os.Buddy.{
  FreeFrame, BuddyAllocator, max_order, non_null, set_prev, push_free, remove_frame,
}

-- The frames of a list, in order, from the link `head`: each is at an address other than 0, and points
-- back to the one before it, the first to `prev`.
abbrev pub Linked : Array FreeFrame → (prev head : Option ℕ) → List ℕ → Type 0
Linked memory prev head [] = head ≡ none
Linked memory prev head (x ∷ xs) =
    (head ≡ some x) × (0 < x) × ((memory x).prev ≡ prev) × Linked memory (some x) (memory x).next xs

abbrev pub Absent : ℕ → List ℕ → Type 0
Absent x [] = Unit
Absent x (y ∷ ys) = (x ≢ y) × Absent x ys

abbrev pub Distinct : List ℕ → Type 0
Distinct [] = Unit
Distinct (x ∷ xs) = Absent x xs × Distinct xs

-- No address is in both lists.
abbrev pub Disjoint : List ℕ → List ℕ → Type 0
Disjoint [] ys = Unit
Disjoint (x ∷ xs) ys = Absent x ys × Disjoint xs ys

-- The free list of an order.
abbrev pub FreeList : BuddyAllocator → ℕ → List ℕ → Type 0
FreeList s order xs = Linked s.memory none (s.free_lists order) xs

-- The memories agree on the frames of the list.
abbrev pub Agree : Array FreeFrame → Array FreeFrame → List ℕ → Type 0
Agree m m' [] = Unit
Agree m m' (x ∷ xs) = (m' x ≡ m x) × Agree m m' xs

pub Linked-Agree :
    (m m' : Array FreeFrame) (prev head : Option ℕ) (xs : List ℕ)
    → Agree m m' xs
    → Linked m prev head xs
    → Linked m' prev head xs
Linked-Agree m m' prev head [] same l = l
Linked-Agree m m' prev head (x ∷ xs) same l =
    let rest = Linked-Agree m m' (some x) (m x).next xs same.1 l.3 in
    (l.0, l.1, ap (λ f. f.prev) same.0 ∙ l.2, rw same.0 rest)

-- What `push_free` does to the memory.
abbrev pushed : Array FreeFrame → (ptr : ℕ) → Option ℕ → Array FreeFrame
pushed m ptr head = set_prev head (non_null ptr) (write m ptr (record { next = head; prev = none }))

pushed-elsewhere :
    (m : Array FreeFrame) (ptr y : ℕ) (head : Option ℕ)
    → y ≢ ptr
    → head ≢ some y
    → pushed m ptr head y ≡ m y
pushed-elsewhere m ptr y none ne nh = ground arith
pushed-elsewhere m ptr y (some z) ne nh = ground arith

Agree-pushed :
    (m : Array FreeFrame) (ptr : ℕ) (head : Option ℕ) (ys : List ℕ)
    → Absent ptr ys
    → ((z : ℕ) → head ≡ some z → Absent z ys)
    → Agree m (pushed m ptr head) ys
Agree-pushed m ptr head [] a b = tt
Agree-pushed m ptr head (y ∷ ys) a b = (
  pushed-elsewhere m ptr y head (λ e. a.0 (sym e)) (λ e. (b y e).0 refl),
  Agree-pushed m ptr head ys a.1 (λ z e. (b z e).1),
)

pushed_self :
    (m : Array FreeFrame) (ptr : ℕ) (head : Option ℕ)
    → head ≢ some ptr
    → pushed m ptr head ptr ≡ record { next = head; prev = none }
pushed_self m ptr none nh = ground arith
pushed_self m ptr (some z) nh = ground arith

pushed-head :
    (m : Array FreeFrame) (ptr x : ℕ)
    → 0 < ptr
    → x ≢ ptr
    → pushed m ptr (some x) x ≡ record (m x) { prev = some ptr }
pushed-head m ptr x pos ne = ground arith

pub first-Absent :
    (m : Array FreeFrame) (prev head : Option ℕ) (xs ys : List ℕ)
    → Linked m prev head xs
    → Disjoint xs ys
    → (z : ℕ) → head ≡ some z
    → Absent z ys
first-Absent m prev head [] ys l apart z e = absurd (ground arith)
first-Absent m prev head (x ∷ xs) ys l apart z e =
    let same : x ≡ z = ground (arith, l.0) in subst (λ y. Absent y ys) same apart.0

Linked-pushed :
    (m : Array FreeFrame) (ptr : ℕ) (head : Option ℕ) (xs : List ℕ)
    → 0 < ptr
    → Linked m none head xs
    → Absent ptr xs
    → Distinct xs
    → Linked (pushed m ptr head) none (some ptr) (ptr ∷ xs)
Linked-pushed m ptr head [] pos l a d =
    let e = pushed_self m ptr head (λ h. ground arith) in
    (refl, pos, ap (λ f. f.prev) e, ap (λ f. f.next) e ∙ l)
Linked-pushed m ptr head (x ∷ xs) pos l a d =
    let own = pushed_self m ptr head (λ h. ground (arith, a.0, l.0)) in
    let first : pushed m ptr head x ≡ record (m x) { prev = some ptr } =
      ap (λ h. pushed m ptr h x) l.0 ∙ pushed-head m ptr x pos (λ e. a.0 (sym e)) in
    let rest =
      Linked-Agree m (pushed m ptr head) (some x) (m x).next xs
        (Agree-pushed m ptr head xs a.1 (λ z e. ground (arith, d.0, l.0))) l.3 in
    (
      refl,
      pos,
      ap (λ f. f.prev) own,
      (
        ap (λ f. f.next) own ∙ l.0,
        l.1,
        ap (λ f. f.prev) first,
        subst (λ h. Linked (pushed m ptr head) (some x) h xs) (sym (ap (λ f. f.next) first)) rest,
      ),
    )

-- Onto a list of distinct frames that does not hold it, push_free puts a frame in front, leaves the
-- bitmap and the offset, and changes no other free list that shares no frame with the frame and the list.
pub push_free-FreeList :
    (s : BuddyAllocator) (ptr order : ℕ) (xs : List ℕ)
    → order < max_order
    → 0 < ptr
    → FreeList s order xs
    → Absent ptr xs
    → Distinct xs
    → (t : BuddyAllocator) × (push_free s ptr order ≡ ok t)
      × (t.bitmap ≡ s.bitmap)
      × (t.offset ≡ s.offset)
      × FreeList t order (ptr ∷ xs)
      × ((order' : ℕ) (ys : List ℕ)
          → order' ≢ order
          → FreeList s order' ys
          → Disjoint (ptr ∷ xs) ys
          → FreeList t order' ys)
unfolding push_free
push_free-FreeList s ptr order xs small pos l a d =
    let m = pushed s.memory ptr (s.free_lists order) in
    let lists = write s.free_lists order (non_null ptr) in
    let in_range : leb max_order order ≡ false = ground arith in
    let head : lists order ≡ some ptr = ground arith in
    (
      record s { memory = m; free_lists = lists },
      rw in_range refl,
      refl,
      refl,
      rw head (Linked-pushed s.memory ptr (s.free_lists order) xs pos l a d),
      λ order' ys ne l' apart.
          let other : lists order' ≡ s.free_lists order' = ground arith in
          rw other (
            Linked-Agree s.memory m none (s.free_lists order') ys
              (Agree-pushed s.memory ptr (s.free_lists order) ys apart.0
                (first-Absent s.memory none (s.free_lists order) xs ys l apart.1))
              l'),
    )
