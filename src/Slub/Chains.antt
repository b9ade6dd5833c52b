-- ===== src/Slub/Chains.antt =====
-- The lists of kernel/src/mm/slub.rs that run through the pages: the free objects of a slab, and the slabs.
use lymad_os.Base.{
  ℕ, zero, suc, ◌+◌, ◌*◌, ◌≤◌, ◌<◌, ◌≡◌, refl, ap, arith, Option, none, some, List, [], ◌∷◌, ◌==◌,
  Array, write, length, inl, inr, word, add64, mul64, ◌⊎◌,
}
use lymad_os.Memory.{count_if}
use lymad_os.Slub.{SlabHeader, FreeObject, non_null, link_objects}

-- The objects of a free list, in order, from the link `head`.
abbrev pub Linked : Array FreeObject → (head : Option ℕ) → List ℕ → Type 0
Linked objects head [] = head ≡ none
Linked objects head (x ∷ xs) = (head ≡ some x) × Linked objects (objects x).next xs

-- A slab: its page and its free objects.
pub record Slab : Type 0 where
  pub page : ℕ
  pub free : List ℕ

abbrev pub Chained : Array SlabHeader → (head : Option ℕ) → List Slab → Type 0
Chained headers head [] = head ≡ none
Chained headers head (b ∷ bs) = (head ≡ some b.page) × Chained headers (headers b.page).next_slab bs

-- How many of the slabs are on the page.
abbrev pub pages_count : ℕ → List Slab → ℕ
pages_count p [] = 0
pages_count p (b ∷ bs) = count_if (p == b.page) + pages_count p bs

abbrev pub All {κ} : (Slab → Type κ) → List Slab → Type κ
All P [] = Unit
All P (b ∷ bs) = P b × All P bs

abbrev pub EachIn {κ} : (ℕ → Type κ) → List ℕ → Type κ
EachIn P [] = Unit
EachIn P (x ∷ xs) = P x × EachIn P xs

-- The address is that of one of the objects.
abbrev pub objects_count : ℕ → List ℕ → ℕ
objects_count x [] = 0
objects_count x (y ∷ ys) = count_if (x == y) + objects_count x ys

abbrev pub free_count : ℕ → List Slab → ℕ
free_count x [] = 0
free_count x (b ∷ bs) = objects_count x b.free + free_count x bs

pub Linked-cases :
    (objects : Array FreeObject) (head : Option ℕ) (xs : List ℕ)
    → Linked objects head xs
    → ((head ≡ none) × (xs ≡ [])) ⊎ ((x : ℕ) × (ys : List ℕ) × (head ≡ some x) × (xs ≡ x ∷ ys))
Linked-cases objects head [] l = inl (l, refl)
Linked-cases objects head (x ∷ xs) l = inr (x, xs, l.0, refl)

-- Objects elsewhere are written.
pub Linked-write :
    (objects : Array FreeObject) (head : Option ℕ) (xs : List ℕ) (p : ℕ) (o : FreeObject)
    → objects_count p xs ≡ 0
    → Linked objects head xs
    → Linked (write objects p o) head xs
Linked-write objects head [] p o h l = l
Linked-write objects head (x ∷ xs) p o h l =
    let rest = Linked-write objects (objects x).next xs p o (ground arith) l.1 in
    let same : write objects p o x ≡ objects x = ground arith in (l.0, rw same rest)

-- Headers of other pages are written.
pub Chained-write :
    (headers : Array SlabHeader) (head : Option ℕ) (bs : List Slab) (p : ℕ) (h : SlabHeader)
    → pages_count p bs ≡ 0
    → Chained headers head bs
    → Chained (write headers p h) head bs
Chained-write headers head [] p h z c = c
Chained-write headers head (b ∷ bs) p h z c =
    let rest = Chained-write headers (headers b.page).next_slab bs p h (ground arith) c.1 in
    let same : write headers p h b.page ≡ headers b.page = ground arith in (c.0, rw same rest)

-- The objects that `link_objects` puts in front of a list, in order.
abbrev pub slots_onto : (start size n : ℕ) → List ℕ → List ℕ
slots_onto start size zero xs = xs
slots_onto start size (suc i) xs = slots_onto start size i ((start + i * size) ∷ xs)

EachIn-weaken : (a b : ℕ) (xs : List ℕ) → a ≤ b → EachIn (λ x. b ≤ x) xs → EachIn (λ x. a ≤ x) xs
EachIn-weaken a b [] h e = tt
EachIn-weaken a b (x ∷ xs) h e = (omega (arith, e.0), EachIn-weaken a b xs h e.1)

objects_count-above :
    (p b : ℕ) (xs : List ℕ) → p < b → EachIn (λ x. b ≤ x) xs → objects_count p xs ≡ 0
objects_count-above p b [] h e = refl
objects_count-above p b (x ∷ xs) h e = ground (arith, objects_count-above p b xs h e.1, e.0)

-- The loop links the objects in front of the list.
pub link_objects-Linked :
    (start size n : ℕ) (head : Option ℕ) (objects : Array FreeObject) (xs : List ℕ)
    → 0 < start
    → 0 < size
    → start + n * size < word
    → EachIn (λ x. start + n * size ≤ x) xs
    → Linked objects head xs
    → let r = link_objects start size n head objects in Linked r.1 r.0 (slots_onto start size n xs)
unfolding link_objects
link_objects-Linked start size zero head objects xs pos step fits above l = l
link_objects-Linked start size (suc i) head objects xs pos step fits above l =
    let more : suc i * size ≡ i * size + size = omega arith in
    let ptr : add64 start (mul64 i size) ≡ start + i * size = omega arith in
    let kept =
      Linked-write objects head xs (start + i * size) (record { next = head })
        (objects_count-above (start + i * size) (start + suc i * size) xs (omega arith) above) l in
    let m = write objects (start + i * size) (record { next = head }) in
    let own : m (start + i * size) ≡ record { next = head } = ground arith in
    let first : non_null (start + i * size) ≡ some (start + i * size) = ground arith in
    rw (link_objects, ptr)
      (link_objects-Linked start size i (non_null (start + i * size)) m ((start + i * size) ∷ xs)
        pos step (omega arith)
        (
          omega arith,
          EachIn-weaken (start + i * size) (start + suc i * size) xs (omega arith) above,
        )
        (first, rw own kept))

-- The first of the objects.
pub slots_onto-head :
    (start size n : ℕ) (xs : List ℕ)
    → (ys : List ℕ) × (slots_onto start size (suc n) xs ≡ start ∷ ys)
slots_onto-head start size zero xs = (xs, ap (λ (x : ℕ). x ∷ xs) (omega arith))
slots_onto-head start size (suc n) xs = slots_onto-head start size n ((start + suc n * size) ∷ xs)

pub slots_onto-length :
    (start size n : ℕ) (xs : List ℕ) → length (slots_onto start size n xs) ≡ n + length xs
slots_onto-length start size zero xs = omega arith
slots_onto-length start size (suc i) xs =
    omega (arith, slots_onto-length start size i ((start + i * size) ∷ xs))

pub slots_onto-EachIn {κ} :
    (P : ℕ → Type κ) (start size n : ℕ) (xs : List ℕ)
    → ((i : ℕ) → i < n → P (start + i * size))
    → EachIn P xs
    → EachIn P (slots_onto start size n xs)
slots_onto-EachIn P start size zero xs h e = e
slots_onto-EachIn P start size (suc i) xs h e =
    slots_onto-EachIn P start size i ((start + i * size) ∷ xs) (λ j lt. h j (omega arith))
      (h i (omega arith), e)

-- No address twice.
pub slots_onto-once :
    (start size n : ℕ) (xs : List ℕ)
    → 0 < size
    → EachIn (λ x. start + n * size ≤ x) xs
    → ((x : ℕ) → objects_count x xs ≤ 1)
    → (x : ℕ) → objects_count x (slots_onto start size n xs) ≤ 1
slots_onto-once start size zero xs pos e once = once
slots_onto-once start size (suc i) xs pos e once =
    slots_onto-once start size i ((start + i * size) ∷ xs) pos
      (omega arith, EachIn-weaken (start + i * size) (start + suc i * size) xs (omega arith) e)
      (λ x. ground (
        arith,
        once x,
        objects_count-above (start + i * size) (start + suc i * size) xs (omega arith) e,
      ))
