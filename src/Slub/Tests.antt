-- ===== src/Slub/Tests.antt =====
-- Runs of kernel/src/mm/slub.rs, and the theorems on it at a concrete slab.
use lymad_os.Base.{
  ℕ, ◌+◌, ◌*◌, ◌<◌, ◌≡◌, refl, arith, Option, none, some, List, [], ◌∷◌, ◌==◌, if◌then◌else◌,
  Outcome, panic, ok, ◌⊎◌, inl,
}
use mathlib.Core.Path.{subst}
use lymad_os.Slub.{
  Slabs, PageProvider, page_size, new, object_start_offset, alloc, alloc_new, init_slab,
  link_objects, dealloc, remove_slab_from_partial,
}
use lymad_os.Slub.Chains.{Slab, pages_count}
use lymad_os.Slub.Invariant.{IsSlot, IsPage, IsValid}
use lymad_os.Slub.Alloc.{Serves, alloc-Serves}
use lymad_os.Slub.Remove.{Removed, remove_slab_from_partial-Removed}
use lymad_os.Slub.Dealloc.{Frees, dealloc-Frees}

-- The pages from an address on; a page that comes back is not used again.
abbrev next_page : PageProvider ℕ
next_page = record {
  alloc_page = λ page. ok (some page, page + page_size);
  free_page = λ next page. ok next;
}

abbrev no_slabs : Slabs ℕ
no_slabs = record {
  cache = new 1024;
  memory = record {
    headers = λ _. record { next_slab = none; freelist = none; in_use = 0 };
    objects = λ _. record { next = none };
  };
  pages = 0x1000;
}

abbrev given : Outcome (Option ℕ × Slabs ℕ) → List (Option ℕ)
given panic = []
given (ok (obj, s)) = obj ∷ s.cache.partial ∷ (s.memory.headers 0x1000).freelist ∷ []

-- The first object of a fresh page lies behind the header.
fresh_run : given (alloc next_page 1 no_slabs) ≡ some 0x1400 ∷ some 0x1000 ∷ some 0x1800 ∷ []
unfolding alloc alloc_new init_slab link_objects object_start_offset
fresh_run = refl

-- One slab, with the object at 0x1400 in use.
abbrev one_slab : Slabs ℕ
one_slab = record {
  cache = record { partial = some 0x1000; size = 1024 };
  memory = record {
    headers = λ _. record { next_slab = none; freelist = some 0x1800; in_use = 1 };
    objects = λ a. record { next = if a == 0x1800 then some 0x1c00 else none };
  };
  pages = 0x2000;
}

abbrev the_slab : Slab
the_slab = record { page = 0x1000; free = 0x1800 ∷ 0x1c00 ∷ [] }

slot : (i : ℕ) → i < 3 → IsSlot 1024 0x1000 (0x1400 + i * 1024)
unfolding object_start_offset
slot i h = record { index = i; in_range = h; address = omega arith }

one_slab-IsValid : IsValid one_slab (the_slab ∷ []) []
unfolding object_start_offset
one_slab-IsValid = record {
  size = record { positive = omega arith; some_room = omega arith; behind_header = omega arith };
  chain = (refl, refl);
  partial_slabs = (
    record {
      on_page = record { aligned = refl; positive = omega arith; fits = omega arith };
      linked = (refl, (refl, refl));
      slots = (slot 1 (omega arith), (slot 2 (omega arith), tt));
      once = λ x. ground arith;
      counted = refl;
    },
    tt,
  );
  full_slabs = tt;
  unfilled = (omega arith, tt);
  filled = tt;
  apart = λ p. ground arith;
}

alloc-Serves_example : Serves next_page one_slab (the_slab ∷ []) [] (alloc next_page 1 one_slab)
alloc-Serves_example =
    alloc-Serves next_page one_slab [] (the_slab ∷ []) 0 one_slab-IsValid (λ page pages e.
      let same : 0x2000 ≡ page = cc e in
      (
        subst (λ (p : ℕ). IsPage p) same
            (record { aligned = refl; positive = omega arith; fits = omega arith }),
        refl,
      ))

dealloc-Frees_example :
    Frees next_page one_slab
      (the_slab ∷ [])
      []
      the_slab
      0x1400
      (dealloc next_page 2 0x1400 one_slab)
dealloc-Frees_example =
    dealloc-Frees next_page 2 0x1400 one_slab the_slab [] [] (the_slab ∷ []) [] one_slab-IsValid
      (inl refl) (slot 0 (omega arith)) refl (omega arith)

remove_slab_from_partial-Removed_example :
    ((pages_count 0x1000 (the_slab ∷ []) ≡ 0)
      × (remove_slab_from_partial 2 0x1000 one_slab ≡ some one_slab))
    ⊎ Removed 2 0x1000 one_slab (the_slab ∷ [])
remove_slab_from_partial-Removed_example =
    remove_slab_from_partial-Removed 2 0x1000 one_slab (the_slab ∷ []) (omega arith) (refl, refl)
      (λ q. ground arith)
