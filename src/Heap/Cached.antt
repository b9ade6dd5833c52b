-- ===== src/Heap/Cached.antt =====
-- A cache of kernel/src/mm/slub.rs on the heap's own page allocator of kernel/src/mm/allocator.rs.
use lymad_os.Base.{
  ℕ, suc, ◌+◌, ◌%◌, ◌≤◌, ◌<◌, ◌≡◌, ◌≢◌, ◌⊎◌, refl, ap, arith, none, some, List, [], ◌==◌, ok, inl,
  inr, Bool-cases,
}
use mathlib.Core.Path.{subst}
use lymad_os.Memory.{count_if}
use lymad_os.Buddy.{BuddyAllocator, max_order}
use lymad_os.Buddy.Blocks.{block_holds, free_cover, IsBlock}
use lymad_os.Buddy.Invariant as buddy
use lymad_os.Buddy.Alloc.{Taken}
use lymad_os.Slub.{Slabs, page_size, capacity, object_start_offset, alloc}
use lymad_os.Slub.Chains.{
  Slab, EachIn, pages_count, objects_count, free_count, slots_onto-EachIn, slots_onto-once,
}
use lymad_os.Slub.Invariant as slub
use lymad_os.Slub.Invariant.{IsSize, IsPage, IsSlot, IsSlab}
use lymad_os.Slub.Take.{FromSlab}
use lymad_os.Slub.Fresh.{slots, FromPage}
use lymad_os.Slub.Alloc.{FromProvider, alloc-Serves}
use lymad_os.Heap.{GlobalPageAllocator, page_provider, alloc_page}
use lymad_os.Heap.Pages.{
  floor, block-IsPage, block_holds-page, alloc_page-cases, objects_count-off, free_count-le-pages,
}

-- The slabs' pages are not free in the page allocator.
pub record IsValid (s : Slabs GlobalPageAllocator) (slabs full : List Slab) (free : ℕ → List ℕ)
    : Type 0 where
  pub cache : slub.IsValid s slabs full
  pub pages : buddy.IsValid s.pages.frame_allocator free
  pub aligned : s.pages.frame_allocator.offset % page_size ≡ 0
  pub managed :
      (q : ℕ)
      → 0 < pages_count q slabs + pages_count q full
      → IsBlock s.pages.frame_allocator.offset 0 q
  pub apart :
      (a : ℕ) → pages_count (floor a) slabs + pages_count (floor a) full + free_cover free a ≤ 1

-- Neither a free object nor on a free page.
abbrev pub Unfree : List Slab → (ℕ → List ℕ) → ℕ → Type 0
Unfree slabs free x = (free_count x slabs ≡ 0) × (free_cover free x ≡ 0)

-- An object has been given out.
pub record Given (slabs : List Slab) (free : ℕ → List ℕ) (p : ℕ) (t : Slabs GlobalPageAllocator)
    (slabs' full' : List Slab) (free' : ℕ → List ℕ) : Type 0 where
  pub valid : IsValid t slabs' full' free'
  pub held : 0 < pages_count (floor p) slabs' + pages_count (floor p) full'
  pub unfree : Unfree slabs' free' p
  pub others : (x : ℕ) → Unfree slabs free x → Unfree slabs' free' x × (x ≢ p)

from_slab :
    (s t : Slabs GlobalPageAllocator) (slabs full slabs' full' : List Slab) (free : ℕ → List ℕ)
    (p : ℕ)
    → IsValid s slabs full free
    → FromSlab s t slabs full slabs' full' p
    → Given slabs free p t slabs' full' free
from_slab s t slabs full slabs' full' free p v g =
    let before =
      free_count-le-pages s.memory s.cache.size p slabs v.cache.size v.cache.partial_slabs in
    let taken = g.taken p in
    let kept = g.kept (floor p) in
    let apart = v.apart p in
    let one : count_if (p == p) ≡ 1 = ground arith in
    record {
      valid = record {
        cache = g.valid;
        pages = rw g.pages v.pages;
        aligned = rw g.pages v.aligned;
        managed = λ q h. rw g.pages (v.managed q (omega (arith, g.kept q)));
        apart = λ a. omega (arith, g.kept (floor a), v.apart a);
      };
      held = omega arith;
      unfree = (omega arith, omega arith);
      others = λ x u. (
        (omega (arith, g.taken x, u.0), u.1),
        λ e. absurd (omega (arith, ap (λ z. free_count z slabs) e, u.0)),
      );
    }

slots-EachIn : (size page : ℕ) → EachIn (IsSlot size page) (slots size page)
slots-EachIn size page =
    slots_onto-EachIn (IsSlot size page) (page + object_start_offset size) size (capacity size) []
      (λ i lt. record { index = i; in_range = lt; address = refl }) tt

slots-le-page :
    (size page x : ℕ)
    → IsSize size
    → IsPage page
    → objects_count x (slots size page) ≤ count_if (floor x == page)
slots-le-page size page x k p =
    let once =
      slots_onto-once (page + object_start_offset size) size (capacity size) [] k.positive tt
        (λ y. omega arith) x in
    elim (Bool-cases (floor x == page)) [
      | inl at ↦ ground arith
      | inr ne ↦ ground (
        arith,
        objects_count-off size page x (slots size page) k p (slots-EachIn size page)
            (λ e. ground arith),
      )
    ]

from_page :
    (s t : Slabs GlobalPageAllocator) (u : BuddyAllocator) (full slabs' full' : List Slab)
    (free free' : ℕ → List ℕ) (page p : ℕ)
    → IsValid s [] full free
    → Taken s.pages.frame_allocator free 0 page u free'
    → t.pages ≡ record { frame_allocator = u }
    → FromPage s.cache.size t page full slabs' full' p
    → Given [] free p t slabs' full' free'
from_page s t u full slabs' full' free free' page p v taken same g =
    let base = s.pages.frame_allocator.offset in
    let k = v.cache.size in
    let paged =
      block-IsPage base page v.aligned v.pages.listed.positive v.pages.listed.fits taken.block in
    let on_page : (a : ℕ) → block_holds 0 a page ≡ count_if (floor a == page) =
      λ a. block_holds-page a page paged.aligned in
    let slot = slots-le-page s.cache.size page p k paged in
    let own = g.taken p in
    let one : count_if (p == p) ≡ 1 = ground arith in
    let kept = g.kept (floor p) in
    let paged_p = on_page p in
    let covered = taken.cover p in
    let apart = v.apart p in
    record {
      valid = record {
        cache = g.valid;
        pages = rw same taken.valid;
        aligned = rw (same, taken.offset) v.aligned;
        managed = λ q h.
            rw (same, taken.offset)
              (elim (Bool-cases (q == page)) [
                | inl at ↦
                    let here : page ≡ q = ground arith in
                    subst (λ (z : ℕ). IsBlock base 0 z) here taken.block
                | inr ne ↦ v.managed q (ground (arith, g.kept q))
              ]);
        apart = λ a. omega (arith, g.kept (floor a), on_page a, taken.cover a, v.apart a);
      };
      held = omega arith;
      unfree = (omega arith, omega arith);
      others = λ x u. (
        (
          omega (
            arith,
            g.taken x,
            u.1,
            on_page x,
            taken.cover x,
            slots-le-page s.cache.size page x k paged,
          ),
          omega (arith, u.1, taken.cover x),
        ),
        λ e. absurd (omega (arith, ap (λ z. free_cover free z) e, u.1)),
      );
    }

fresh_page :
    (s : Slabs GlobalPageAllocator) (slabs full : List Slab) (free free' : ℕ → List ℕ) (page : ℕ)
    (u : BuddyAllocator)
    → IsValid s slabs full free
    → Taken s.pages.frame_allocator free 0 page u free'
    → IsPage page × (pages_count page full ≡ 0)
fresh_page s slabs full free free' page u v taken =
    let paged =
      block-IsPage s.pages.frame_allocator.offset page v.aligned v.pages.listed.positive
        v.pages.listed.fits taken.block in
    let at = paged.aligned in
    let here : floor page ≡ page = omega arith in
    let apart = v.apart page in
    let held : pages_count (floor page) full ≡ pages_count page full =
      ap (λ (q : ℕ). pages_count q full) here in
    (paged, ground (arith, taken.cover page, block_holds-page page page at))

-- The provider's answer, as `alloc-Serves` asks for it.
answer :
    (s : Slabs GlobalPageAllocator) (slabs full : List Slab) (free : ℕ → List ℕ)
    → IsValid s slabs full free
    → (page : ℕ) (pages : GlobalPageAllocator) → alloc_page s.pages ≡ ok (some page, pages)
    → IsPage page × (pages_count page full ≡ 0)
answer s slabs full free v page pages e = elim (alloc_page-cases s.pages free v.pages) [
  | inl (run, empty) ↦ absurd (cc (run, e))
  | inr (p, t, free', run, taken) ↦
      let same : p ≡ page = cc (run, e) in
      subst (λ (q : ℕ). IsPage q × (pages_count q full ≡ 0)) same
        (fresh_page s slabs full free free' p t v taken)
]

-- A cache on the heap's page allocator, both valid, with no page of a slab free: alloc never panics, whatever
-- room for calls it has, if for one. Either it gives nothing and changes nothing, where the partial list is
-- empty and no page is free. Or it gives an object on a page that the cache then holds: all stays
-- valid, the object is neither free nor on a free page, and the same holds of every other address of which
-- it held before.
pub alloc-Given :
    (s : Slabs GlobalPageAllocator) (slabs full : List Slab) (free : ℕ → List ℕ) (depth : ℕ)
    → IsValid s slabs full free
    → ((alloc page_provider (suc depth) s ≡ ok (none, s))
        × (slabs ≡ [])
        × ((order : ℕ) → order < max_order → free order ≡ []))
      ⊎ ((p : ℕ) × (t : Slabs GlobalPageAllocator) × (slabs' : List Slab) × (full' : List Slab)
          × (free' : ℕ → List ℕ) × (alloc page_provider (suc depth) s ≡ ok (some p, t))
          × Given slabs free p t slabs' full' free')
alloc-Given s slabs full free depth v =
    elim (alloc-Serves page_provider s full slabs depth v.cache (answer s slabs full free v)) [
      | inl (p, t, slabs', full', run, from) ↦
          inr (p, t, slabs', full', free, run, from_slab s t slabs full slabs' full' free p v from)
      | inr (e, served) ↦ elim (alloc_page-cases s.pages free v.pages) [
        | inl (run, empty) ↦
            let r : alloc page_provider (suc depth) s ≡ ok (none, s) =
              subst (λ a. FromProvider s full a (alloc page_provider (suc depth) s)) run served in
            inl (r, e, empty)
        | inr (page, u, free', run, taken) ↦
            let (p, t, slabs', full', run', same, from) =
              subst (λ a. FromProvider s full a (alloc page_provider (suc depth) s)) run served in
            inr (
              p,
              t,
              slabs',
              full',
              free',
              run',
              rw e
                  (from_page s t u full slabs' full' free free' page p (rw e at v) taken same from),
            )
      ]
    ]
