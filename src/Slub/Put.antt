-- ===== src/Slub/Put.antt =====
-- An object goes back to its slab: the first half of `dealloc` of kernel/src/mm/slub.rs.
use lymad_os.Base.{ℕ, ◌+◌, ◌≡◌, refl, ◌∙◌, ap, sym, arith, Option, some, List, [], ◌∷◌, ◌++◌, Array}
use mathlib.Core.Path.{subst}
use lymad_os.Slub.{SlabHeader, Slabs, put_object}
use lymad_os.Slub.Chains.{Slab, Linked, Chained, All, objects_count, free_count, Linked-write}
use lymad_os.Slub.Invariant.{IsSize, IsSlot, IsSlab, IsSlot-inside, capacity_small}
use lymad_os.Slub.Remove.{Relinked}
use lymad_os.Slub.Room.{length-free-lt}

-- The slab with one more free object.
abbrev pub with_object : ℕ → Slab → Slab
with_object ptr b = record { page = b.page; free = ptr ∷ b.free }

module _ {P : Type 0} (s : Slabs P) (b : Slab) (ptr : ℕ) where
  pub put_object-same :
      ((put_object b.page ptr s).cache.size ≡ s.cache.size)
      × ((put_object b.page ptr s).pages ≡ s.pages)
  unfolding put_object
  put_object-same = (refl, refl)

  pub put_object-header :
      IsSize s.cache.size
      → IsSlab s.memory s.cache.size b
      → IsSlot s.cache.size b.page ptr
      → objects_count ptr b.free ≡ 0
      → let h = (put_object b.page ptr s).memory.headers b.page in
        (h.freelist ≡ some ptr)
        × (h.in_use + 1 ≡ (s.memory.headers b.page).in_use)
        × (((put_object b.page ptr s).memory.objects ptr).next ≡ (s.memory.headers b.page).freelist)
  unfolding put_object
  put_object-header k v at z =
      let inside = IsSlot-inside s.cache.size b.page ptr k at in
      let used = length-free-lt s.memory s.cache.size ptr b v at z in
      let small = capacity_small s.cache.size k.positive in
      let counted = v.counted in (ground arith, ground arith, ground arith)

  pub put_object-IsSlab :
      IsSize s.cache.size
      → IsSlab s.memory s.cache.size b
      → IsSlot s.cache.size b.page ptr
      → objects_count ptr b.free ≡ 0
      → IsSlab (put_object b.page ptr s).memory s.cache.size (with_object ptr b)
  unfolding put_object
  put_object-IsSlab k v at z =
      let (first, used, next) = put_object-header k v at z in
      record {
        on_page = v.on_page;
        linked = (
          first,
          subst (λ (head : Option ℕ). Linked (put_object b.page ptr s).memory.objects head b.free)
              (sym next)
              (Linked-write s.memory.objects (s.memory.headers b.page).freelist b.free ptr
                (record { next = (s.memory.headers b.page).freelist }) z v.linked),
        );
        slots = (at, v.slots);
        once = λ x. ground (arith, v.once x);
        counted = omega (arith, v.counted);
      }

Chained-links :
    (h h' : Array SlabHeader) (head : Option ℕ) (bs : List Slab)
    → ((q : ℕ) → (h' q).next_slab ≡ (h q).next_slab)
    → Chained h head bs
    → Chained h' head bs
Chained-links h h' head [] same ch = ch
Chained-links h h' head (b ∷ bs) same ch = (
  ch.0,
  subst (λ (l : Option ℕ). Chained h' l bs) (sym (same b.page))
      (Chained-links h h' (h b.page).next_slab bs same ch.1),
)

-- The slabs of the list are on the same pages and have the same links.
pub Chained-replace :
    (h h' : Array SlabHeader) (head : Option ℕ) (us : List Slab) (b c : Slab) (vs : List Slab)
    → ((q : ℕ) → (h' q).next_slab ≡ (h q).next_slab)
    → c.page ≡ b.page
    → Chained h head (us ++ b ∷ vs)
    → Chained h' head (us ++ c ∷ vs)
Chained-replace h h' head [] b c vs same at ch = (
  ch.0 ∙ ap (λ (p : ℕ). some p) (sym at),
  subst (λ (l : Option ℕ). Chained h' l vs) (sym (same c.page ∙ ap (λ (p : ℕ). (h p).next_slab) at))
      (Chained-links h h' (h b.page).next_slab vs same ch.1),
)
Chained-replace h h' head (u ∷ us) b c vs same at ch = (
  ch.0,
  subst (λ (l : Option ℕ). Chained h' l (us ++ c ∷ vs)) (sym (same u.page))
      (Chained-replace h h' (h u.page).next_slab us b c vs same at ch.1),
)

IsSlab-Relinked :
    {P : Type 0} (s t : Slabs P) (size : ℕ) (b : Slab)
    → Relinked s t
    → IsSlab s.memory size b
    → IsSlab t.memory size b
IsSlab-Relinked s t size b r v = record {
  on_page = v.on_page;
  linked = rw (r.objects, r.freelist b.page) v.linked;
  slots = v.slots;
  once = v.once;
  counted = rw (r.in_use b.page) v.counted;
}

pub All-Relinked :
    {P : Type 0} (s t : Slabs P) (size : ℕ) (bs : List Slab)
    → Relinked s t
    → All (IsSlab s.memory size) bs
    → All (IsSlab t.memory size) bs
All-Relinked s t size [] r all = tt
All-Relinked s t size (b ∷ bs) r all =
    (IsSlab-Relinked s t size b r all.0, All-Relinked s t size bs r all.1)

pub All-append {κ} :
    (Q : Slab → Type κ) (us vs : List Slab) → All Q (us ++ vs) → All Q us × All Q vs
All-append Q [] vs h = (tt, h)
All-append Q (u ∷ us) vs h = let both = All-append Q us vs h.1 in ((h.0, both.0), both.1)

pub All-join {κ} : (Q : Slab → Type κ) (us vs : List Slab) → All Q us → All Q vs → All Q (us ++ vs)
All-join Q [] vs h k = k
All-join Q (u ∷ us) vs h k = (h.0, All-join Q us vs h.1 k)

pub free_count-append :
    (x : ℕ) (us vs : List Slab) → free_count x (us ++ vs) ≡ free_count x us + free_count x vs
free_count-append x [] vs = omega arith
free_count-append x (u ∷ us) vs = omega (arith, free_count-append x us vs)
