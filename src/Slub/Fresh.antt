-- ===== src/Slub/Fresh.antt =====
-- `alloc` of kernel/src/mm/slub.rs on a fresh page.
use lymad_os.Base.{
  ℕ, suc, ◌+◌, ◌-◌, ◌≤◌, ◌≡◌, refl, ◌∙◌, ap, sym, arith, none, some, List, [], ◌∷◌, leb, ◌==◌,
  if◌then◌else◌, Array, write, length, inl, inr, add64, ok, false, Option-cases,
}
use mathlib.Core.Path.{subst}
use native.Mathlib.Nat.{mul-le-mul_right}
use lymad_os.Memory.{count_if}
use lymad_os.Slub.{
  SlabHeader, FreeObject, Memory, Slabs, page_size, object_start_offset, capacity, non_null,
  is_some, set_partial, set_header, link_objects, init_slab,
}
use lymad_os.Slub.Chains.{
  Slab, Linked, EachIn, pages_count, objects_count, free_count, slots_onto, slots_onto-head,
  slots_onto-length, slots_onto-EachIn, slots_onto-once, link_objects-Linked,
}
use lymad_os.Slub.Invariant.{IsSize, IsSlot, IsPage, IsSlab, IsValid, All-filled, capacity_fits}
use lymad_os.Slub.Take.{open_after, full_after}

-- The addresses of the objects of a page.
abbrev pub slots : (size page : ℕ) → List ℕ
slots size page = slots_onto (page + object_start_offset size) size (capacity size) []

-- The first object of a fresh page is taken.
pub record FromPage {P : Type 0} (size : ℕ) (t : Slabs P) (page : ℕ) (full slabs' full' : List Slab)
    (p : ℕ) : Type 0 where
  pub valid : IsValid t slabs' full'
  pub same_size : t.cache.size ≡ size
  pub first : p ≡ page + object_start_offset size
  pub taken : (x : ℕ) → free_count x slabs' + count_if (x == p) ≡ objects_count x (slots size page)
  pub kept :
      (q : ℕ)
      → pages_count q slabs' + pages_count q full' ≡ count_if (q == page) + pages_count q full

-- The objects of a fresh page, linked.
record Fresh (size page : ℕ) (objects : Array FreeObject) : Type 0 where
  pub rest : List ℕ
  pub all : slots size page ≡ (page + object_start_offset size) ∷ rest
  pub linked : Linked objects (objects (page + object_start_offset size)).next rest
  pub each : EachIn (IsSlot size page) rest
  pub once : (x : ℕ) → objects_count x rest ≤ 1
  pub counted : 1 + length rest ≡ capacity size

link_objects-Fresh :
    (size page : ℕ) (objects : Array FreeObject)
    → IsSize size
    → IsPage page
    → let r =
        link_objects (add64 page (object_start_offset size)) size (capacity size) none objects in
      (r.0 ≡ some (page + object_start_offset size)) × Fresh size page r.1
link_objects-Fresh size page objects k p =
    let start = object_start_offset size in
    let n = capacity size in
    let fits = capacity_fits size k in
    let low = p.fits in
    let positive = p.positive in
    let sum : add64 page start ≡ page + start = omega arith in
    let (ys, head) = slots_onto-head (page + start) size (n - 1) [] in
    let last : suc (n - 1) ≡ n = omega (arith, k.some_room) in
    let all : slots size page ≡ (page + start) ∷ ys =
      subst (λ (c : ℕ). slots_onto (page + start) size c [] ≡ (page + start) ∷ ys) last head in
    let r = link_objects (page + start) size n none objects in
    let l : Linked r.1 r.0 ((page + start) ∷ ys) = subst (Linked r.1 r.0) all (
      link_objects-Linked (page + start) size n none objects [] (omega arith) k.positive
        (omega arith) tt refl) in
    let each : EachIn (IsSlot size page) ((page + start) ∷ ys) =
      subst (EachIn (IsSlot size page)) all (
        slots_onto-EachIn (IsSlot size page) (page + start) size n []
          (λ i lt. record { index = i; in_range = lt; address = refl }) tt) in
    let once : (x : ℕ) → objects_count x ((page + start) ∷ ys) ≤ 1 = λ x.
      subst (λ zs. objects_count x zs ≤ 1) all
        (slots_onto-once (page + start) size n [] k.positive tt (λ y. omega arith) x) in
    let counted : length ((page + start) ∷ ys) ≡ n =
      ap length (sym all) ∙ slots_onto-length (page + start) size n [] ∙ omega arith in
    rw sum (
      l.0,
      record {
        rest = ys;
        all = all;
        linked = l.1;
        each = each.1;
        once = λ x. omega (arith, once x);
        counted = omega arith;
      },
    )

-- The state that `init_slab` leaves, with the objects linked as in `objects`.
abbrev started : {P : Type 0} → (page obj : ℕ) → Array FreeObject → Slabs P → Slabs P
started page obj objects s =
    let slab : SlabHeader = record {
      next_slab = none;
      freelist = (objects obj).next;
      in_use = 1;
    } in
    let linked = record s { memory = record { headers = s.memory.headers; objects = objects } } in
    if is_some (objects obj).next
    then set_partial (non_null page)
        (set_header page (record slab { next_slab = s.cache.partial }) linked)
    else set_header page slab linked

started-pages :
    {P : Type 0} (page obj : ℕ) (objects : Array FreeObject) (s : Slabs P)
    → (started page obj objects s).pages ≡ s.pages
started-pages page obj objects s = elim (Option-cases (objects obj).next) [
  | inl e ↦ rw e refl
  | inr (x, e) ↦ rw e refl
]

init_slab_run :
    {P : Type 0} (s : Slabs P) (page obj : ℕ)
    → let size = s.cache.size in
      let r =
        link_objects
          (add64 page (object_start_offset size))
          size
          (capacity size)
          none
          s.memory.objects in
      leb page_size (object_start_offset size) ≡ false
      → (size == 0) ≡ false
      → (capacity size == 0) ≡ false
      → r.0 ≡ some obj
      → init_slab page s ≡ ok (some obj, started page obj r.1 s)
unfolding init_slab
init_slab_run s page obj a b c d = rw (a, b, c, d) refl

IsSlab-started :
    (m : Memory) (size page : ℕ) (h : SlabHeader) (objects : Array FreeObject) (xs : List ℕ)
    → IsPage page
    → (f : Fresh size page objects) → f.rest ≡ xs
    → h.freelist ≡ (objects (page + object_start_offset size)).next
    → h.in_use ≡ 1
    → IsSlab
        (record { headers = write m.headers page h; objects = objects })
        size
        (record { page = page; free = xs })
IsSlab-started m size page h objects xs p f same e one =
    let own : write m.headers page h page ≡ h = ground arith in
    let l : Linked objects (objects (page + object_start_offset size)).next xs =
      subst (Linked objects (objects (page + object_start_offset size)).next) same f.linked in
    record {
      on_page = p;
      linked = rw (own, e) l;
      slots = subst (EachIn (IsSlot size page)) same f.each;
      once = subst (λ (zs : List ℕ). (x : ℕ) → objects_count x zs ≤ 1) same f.once;
      counted = rw own (omega (arith, f.counted, ap length same));
    }

started-FromPage :
    {P : Type 0} (s : Slabs P) (page : ℕ) (objects : Array FreeObject) (full : List Slab)
    (xs : List ℕ)
    → IsValid s [] full
    → IsPage page
    → pages_count page full ≡ 0
    → (f : Fresh s.cache.size page objects) → f.rest ≡ xs
    → let obj = page + object_start_offset s.cache.size in
      let b : Slab = record { page = page; free = [] } in
      FromPage s.cache.size
        (started page obj objects s)
        page
        full
        (open_after b xs [])
        (full_after b xs full)
        obj
started-FromPage s page objects full [] v p z f e =
    let obj = page + object_start_offset s.cache.size in
    let last : (objects obj).next ≡ none = subst (Linked objects (objects obj).next) e f.linked in
    rw last (record {
      valid = record {
        size = v.size;
        chain = v.chain;
        partial_slabs = tt;
        full_slabs = (
          IsSlab-started s.memory s.cache.size page _ objects [] p f e (sym last) refl,
          All-filled s.memory s.cache.size page _ objects full z v.filled v.full_slabs,
        );
        unfilled = tt;
        filled = (refl, v.filled);
        apart = λ q. ground (arith, v.apart q);
      };
      same_size = refl;
      first = refl;
      taken = λ x. ground (arith, ap (objects_count x) f.all, ap (objects_count x) e);
      kept = λ q. omega arith;
    })
started-FromPage s page objects full (y ∷ ys) v p z f e =
    let obj = page + object_start_offset s.cache.size in
    let l : Linked objects (objects obj).next (y ∷ ys) =
      subst (Linked objects (objects obj).next) e f.linked in
    let some_page : non_null page ≡ some page = ground (arith, p.positive) in
    let h : SlabHeader = record { next_slab = s.cache.partial; freelist = some y; in_use = 1 } in
    let own : write s.memory.headers page h page ≡ h = ground arith in
    rw l.0 (record {
      valid = record {
        size = v.size;
        chain = (some_page, rw own v.chain);
        partial_slabs =
            (IsSlab-started s.memory s.cache.size page h objects (y ∷ ys) p f e (sym l.0) refl, tt);
        full_slabs = All-filled s.memory s.cache.size page h objects full z v.filled v.full_slabs;
        unfilled = (omega arith, tt);
        filled = v.filled;
        apart = λ q. ground (arith, v.apart q);
      };
      same_size = refl;
      first = refl;
      taken = λ x. ground (arith, ap (objects_count x) f.all, ap (objects_count x) e);
      kept = λ q. omega arith;
    })

pub init_slab-FromPage :
    {P : Type 0} (s : Slabs P) (full : List Slab) (page : ℕ)
    → IsValid s [] full
    → IsPage page
    → pages_count page full ≡ 0
    → (p : ℕ) × (t : Slabs P) × (slabs' : List Slab) × (full' : List Slab) × (init_slab page s
        ≡ ok (some p, t))
      × (t.pages ≡ s.pages)
      × FromPage s.cache.size t page full slabs' full' p
init_slab-FromPage s full page v p z =
    let start = object_start_offset s.cache.size in
    let (first, f) = link_objects-Fresh s.cache.size page s.memory.objects v.size p in
    let objects =
      (link_objects (add64 page start) s.cache.size (capacity s.cache.size) none
        s.memory.objects).1 in
    let b : Slab = record { page = page; free = [] } in
    (
      page + start,
      started page (page + start) objects s,
      open_after b f.rest [],
      full_after b f.rest full,
      init_slab_run s page (page + start)
          (ground (
            arith,
            capacity_fits s.cache.size v.size,
            v.size.positive,
            mul-le-mul_right s.cache.size v.size.some_room,
          ))
          (ground (arith, v.size.positive)) (ground (arith, v.size.some_room)) first,
      started-pages page (page + start) objects s,
      started-FromPage s page objects full f.rest v p z f refl,
    )
