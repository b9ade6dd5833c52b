-- ===== src/Slub/Room.antt =====
-- A slab of kernel/src/mm/slub.rs with an object in use has fewer free objects than its page has room for.
use lymad_os.Base.{
  ℕ, zero, suc, ◌+◌, ◌*◌, ◌≤◌, ◌<◌, ◌≡◌, ◌∙◌, ap, arith, List, [], ◌∷◌, ◌++◌, ◌==◌, length,
  length-append, Bool-cases, inl, inr,
}
use mathlib.Core.Path.{subst}
use lymad_os.Slub.{object_start_offset, capacity}
use lymad_os.Slub.Chains.{Slab, EachIn, objects_count, slots_onto, slots_onto-length}
use lymad_os.Slub.Invariant.{IsSlot, IsSlab}
use lymad_os.Slub.Fresh.{slots}
use lymad_os.Slub.{Memory}

objects_count-append :
    (x : ℕ) (us vs : List ℕ) → objects_count x (us ++ vs) ≡ objects_count x us + objects_count x vs
objects_count-append x [] vs = omega arith
objects_count-append x (u ∷ us) vs = omega (arith, objects_count-append x us vs)

find_object :
    (x : ℕ) (xs : List ℕ)
    → 0 < objects_count x xs
    → (us : List ℕ) × (vs : List ℕ) × (xs ≡ us ++ x ∷ vs)
find_object x [] h = elim h [ ]
find_object x (y ∷ ys) h = elim (Bool-cases (x == y)) [
  | inl at ↦ let same : y ≡ x = ground arith in ([], ys, ap (λ (z : ℕ). z ∷ ys) same)
  | inr ne ↦ let (us, vs, e) = find_object x ys (ground arith) in (y ∷ us, vs, ap (λ l. y ∷ l) e)
]

-- A list is no longer than one that has each number as often.
length-le :
    (xs ys : List ℕ) → ((x : ℕ) → objects_count x xs ≤ objects_count x ys) → length xs ≤ length ys
length-le [] ys h = omega arith
length-le (x ∷ xs) ys h =
    let (us, vs, e) = find_object x ys (ground (arith, h x)) in
    let rest = length-le xs (us ++ vs) (λ z. ground (
      arith,
      h z,
      ap (objects_count z) e,
      objects_count-append z us (x ∷ vs),
      objects_count-append z us vs,
    )) in
    omega (arith, rest, ap length e, length-append us (x ∷ vs), length-append us vs)

slots_onto-tail :
    (x start size n : ℕ) (xs : List ℕ)
    → objects_count x xs ≤ objects_count x (slots_onto start size n xs)
slots_onto-tail x start size zero xs = omega arith
slots_onto-tail x start size (suc i) xs =
    ground (arith, slots_onto-tail x start size i ((start + i * size) ∷ xs))

slots_onto-holds :
    (x start size n i : ℕ) (xs : List ℕ)
    → i < n
    → x ≡ start + i * size
    → 0 < objects_count x (slots_onto start size n xs)
slots_onto-holds x start size zero i xs h e = elim h [ ]
slots_onto-holds x start size (suc n) i xs h e = elim (Bool-cases (i == n)) [
  | inl last ↦
      let same : x ≡ start + n * size = e ∙ ap (λ (k : ℕ). start + k * size) (ground arith) in
      ground (arith, slots_onto-tail x start size n ((start + n * size) ∷ xs))
  | inr ne ↦ slots_onto-holds x start size n i ((start + n * size) ∷ xs) (ground arith) e
]

EachIn-find {κ} :
    (P : ℕ → Type κ) (x : ℕ) (xs : List ℕ) → EachIn P xs → 0 < objects_count x xs → P x
EachIn-find P x [] e h = elim h [ ]
EachIn-find P x (y ∷ ys) e h = elim (Bool-cases (x == y)) [
  | inl at ↦ let same : y ≡ x = ground arith in subst P same e.0
  | inr ne ↦ EachIn-find P x ys e.1 (ground arith)
]

slots-length : (size page : ℕ) → length (slots size page) ≡ capacity size
slots-length size page =
    slots_onto-length (page + object_start_offset size) size (capacity size) [] ∙ omega arith

pub distinct_slots :
    (size page : ℕ) (xs : List ℕ)
    → EachIn (IsSlot size page) xs
    → ((x : ℕ) → objects_count x xs ≤ 1)
    → length xs ≤ capacity size
distinct_slots size page xs each once =
    let more = length-le xs (slots size page) (λ x. elim (Bool-cases (objects_count x xs == 0)) [
      | inl z ↦ ground arith
      | inr nz ↦
          let s = EachIn-find (IsSlot size page) x xs each (ground arith) in
          let held =
            slots_onto-holds x (page + object_start_offset size) size (capacity size) s.index []
              s.in_range s.address in
          omega (arith, held, once x)
    ]) in
    omega (arith, more, slots-length size page)

pub length-free-lt :
    (m : Memory) (size x : ℕ) (b : Slab)
    → IsSlab m size b
    → IsSlot size b.page x
    → objects_count x b.free ≡ 0
    → length b.free < capacity size
length-free-lt m size x b v s z =
    omega
      (arith, distinct_slots size b.page (x ∷ b.free) (s, v.slots) (λ y. ground (arith, v.once y)))
