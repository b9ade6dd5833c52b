-- ===== src/Heap/Returned.antt =====
-- The free of an object of a cache of kernel/src/mm/slub.rs on the heap's own page allocator of
-- kernel/src/mm/allocator.rs.
use lymad_os.Base.{
  ℕ, ◌+◌, ◌≤◌, ◌<◌, ◌≡◌, ◌≢◌, ◌⊎◌, ◌∙◌, ap, arith, List, ◌∷◌, ◌++◌, ◌==◌, Outcome, ok, ◌>>=◌, inl,
  inr, Bool-cases, length,
}
use mathlib.Core.Path.{subst}
use lymad_os.Memory.{count_if}
use lymad_os.Buddy.{BuddyAllocator}
use lymad_os.Buddy.Blocks.{block_holds, free_cover}
use lymad_os.Buddy.Dealloc.{Freed}
use lymad_os.Slub.{Slabs, Memory, capacity, dealloc}
use lymad_os.Slub.Chains.{Slab, pages_count, objects_count, free_count}
use lymad_os.Slub.Invariant as slub
use lymad_os.Slub.Put.{All-append}
use lymad_os.Slub.Invariant.{IsSize, IsPage, IsSlot, IsSlab}
use lymad_os.Slub.Alloc.{with_pages, IsValid-with_pages}
use lymad_os.Slub.Room.{distinct_slots}
use lymad_os.Slub.Dealloc.{Kept, Dropped, dealloc-Frees}
use lymad_os.Heap.{GlobalPageAllocator, page_provider, free_page}
use lymad_os.Heap.Pages.{floor, block_holds-page, free_page-Freed, IsSlot-floor}
use lymad_os.Heap.Cached.{IsValid, Unfree}

-- The address is that of an object in use: of a slab of the cache, and not free.
pub record InUse (size : ℕ) (slabs full : List Slab) (x : ℕ) : Type 0 where
  pub slot : IsSlot size (floor x) x
  pub held : 0 < pages_count (floor x) slabs + pages_count (floor x) full
  pub used : free_count x slabs ≡ 0

-- The object is free, or on a free page, and no other object in use has become so.
pub record Returned (s : Slabs GlobalPageAllocator) (slabs full : List Slab) (ptr : ℕ)
    (t : Slabs GlobalPageAllocator) (slabs' full' : List Slab) (free' : ℕ → List ℕ) : Type 0 where
  pub valid : IsValid t slabs' full' free'
  pub free_again : (0 < free_count ptr slabs') ⊎ (0 < free_cover free' ptr)
  pub others : (x : ℕ) → InUse s.cache.size slabs full x → x ≢ ptr → Unfree slabs' free' x

object_back :
    (s t : Slabs GlobalPageAllocator) (slabs full slabs' full' : List Slab) (free : ℕ → List ℕ)
    (ptr : ℕ)
    → IsValid s slabs full free
    → Kept s t slabs full slabs' full' ptr
    → Returned s slabs full ptr t slabs' full' free
object_back s t slabs full slabs' full' free ptr v k =
    let one : count_if (ptr == ptr) ≡ 1 = ground arith in
    record {
      valid = record {
        cache = k.valid;
        pages = rw k.pages v.pages;
        aligned = rw k.pages v.aligned;
        managed = λ q h. rw k.pages (v.managed q (omega (arith, k.kept q)));
        apart = λ a. omega (arith, k.kept (floor a), v.apart a);
      };
      free_again = inl (omega (arith, k.freed ptr));
      others = λ x u ne. (ground (arith, k.freed x, u.used), omega (arith, v.apart x, u.held));
    }

-- In a slab whose last object in use is `ptr`, every other object is free.
no_other :
    (m : Memory) (size ptr x : ℕ) (b : Slab)
    → IsSlab m size b
    → IsSlot size b.page ptr
    → IsSlot size b.page x
    → objects_count ptr b.free ≡ 0
    → objects_count x b.free ≡ 0
    → 1 + length b.free ≡ capacity size
    → x ≡ ptr
no_other m size ptr x b v at at' z z' last = elim (Bool-cases (x == ptr)) [
  | inl same ↦ ground arith
  | inr ne ↦
      let more =
        distinct_slots size b.page (x ∷ ptr ∷ b.free) (at', (at, v.slots))
          (λ y. ground (arith, v.once y)) in
      absurd (omega (arith, more))
]

page_back :
    (s t : Slabs GlobalPageAllocator) (u : BuddyAllocator) (slabs full slabs' full' : List Slab)
    (free free' : ℕ → List ℕ) (b : Slab) (ptr : ℕ)
    → IsValid s slabs full free
    → IsSlab s.memory s.cache.size b
    → IsSlot s.cache.size b.page ptr
    → objects_count ptr b.free ≡ 0
    → Dropped s t slabs full slabs' full' b
    → Freed s.pages.frame_allocator free 0 b.page u free'
    → Returned s slabs full ptr (with_pages (record { frame_allocator = u }) t) slabs' full' free'
page_back s t u slabs full slabs' full' free free' b ptr v slab at z d f =
    let on_page : (a : ℕ) → block_holds 0 a b.page ≡ count_if (floor a == b.page) =
      λ a. block_holds-page a b.page slab.on_page.aligned in
    let here : count_if (floor ptr == b.page) ≡ 1 =
      ground (arith, IsSlot-floor s.cache.size b.page ptr v.cache.size slab.on_page at) in
    record {
      valid = record {
        cache = IsValid-with_pages t slabs' full' (record { frame_allocator = u }) d.valid;
        pages = f.valid;
        aligned = rw f.offset v.aligned;
        managed = λ q h. rw f.offset (v.managed q (omega (arith, d.dropped q)));
        apart = λ a. omega (arith, d.dropped (floor a), f.cover a, on_page a, v.apart a);
      };
      free_again = inr (omega (arith, f.cover ptr, on_page ptr));
      others = λ x w ne. elim (Bool-cases (floor x == b.page)) [
        | inl same ↦
            let page : floor x ≡ b.page = ground arith in
            let slot : IsSlot s.cache.size b.page x =
              subst (λ (q : ℕ). IsSlot s.cache.size q x) page w.slot in
            absurd (
              ne (
                no_other s.memory s.cache.size ptr x b slab at slot z
                  (omega (arith, d.gone x, w.used)) d.last))
        | inr other ↦ (
          omega (arith, d.gone x, w.used),
          ground (arith, f.cover x, on_page x, v.apart x, w.held),
        )
      ];
    }

held_slab :
    (s : Slabs GlobalPageAllocator) (slabs full us vs : List Slab) (b : Slab)
    → slub.IsValid s slabs full
    → (slabs ≡ us ++ b ∷ vs) ⊎ (full ≡ us ++ b ∷ vs)
    → IsSlab s.memory s.cache.size b
held_slab s slabs full us vs b v (inl e) =
    (All-append (IsSlab s.memory s.cache.size) us (b ∷ vs) (rw e at v.partial_slabs)).1.0
held_slab s slabs full us vs b v (inr e) =
    (All-append (IsSlab s.memory s.cache.size) us (b ∷ vs) (rw e at v.full_slabs)).1.0

free_run :
    (s t : Slabs GlobalPageAllocator) (page : ℕ) (u : BuddyAllocator)
    (r : Outcome (Slabs GlobalPageAllocator))
    → r ≡ (free_page s.pages page >>= λ pages. ok (with_pages pages t))
    → free_page s.pages page ≡ ok (record { frame_allocator = u })
    → r ≡ ok (with_pages (record { frame_allocator = u }) t)
free_run s t page u r e run =
    e ∙ ap (λ (a : Outcome GlobalPageAllocator). a >>= λ pages. ok (with_pages pages t)) run

-- A cache on the heap's page allocator, both valid, with no page of a slab free, and a partial list of
-- fewer slabs than the loop has rounds: when an object in use of a slab is given back, dealloc does not
-- panic, and all stays valid. The object is free afterwards, or its page is, and no other object in use has
-- become free or come to lie on a free page.
pub dealloc-Returned :
    (s : Slabs GlobalPageAllocator) (slabs full us vs : List Slab) (free : ℕ → List ℕ) (n ptr : ℕ)
    (b : Slab)
    → IsValid s slabs full free
    → (slabs ≡ us ++ b ∷ vs) ⊎ (full ≡ us ++ b ∷ vs)
    → IsSlot s.cache.size b.page ptr
    → objects_count ptr b.free ≡ 0
    → length slabs < n
    → (t : Slabs GlobalPageAllocator) × (slabs' : List Slab) × (full' : List Slab) × (free' : ℕ
        → List ℕ)
      × (dealloc page_provider n ptr s ≡ ok t)
      × Returned s slabs full ptr t slabs' full' free'
dealloc-Returned s slabs full us vs free n ptr b v in_list at z h =
    elim (dealloc-Frees page_provider n ptr s b us vs slabs full v.cache in_list at z h) [
      | inl (t, slabs', full', run, k) ↦
          (t, slabs', full', free, run, object_back s t slabs full slabs' full' free ptr v k)
      | inr (t, slabs', full', run, d) ↦
          let slab = held_slab s slabs full us vs b v.cache in_list in
          let own : count_if (b.page == b.page) ≡ 1 = ground arith in
          let block = v.managed b.page (omega (arith, d.dropped b.page)) in
          let room : (a : ℕ) → free_cover free a + block_holds 0 a b.page ≤ 1 = λ a. omega (
            arith,
            d.dropped (floor a),
            v.apart a,
            block_holds-page a b.page slab.on_page.aligned,
          ) in
          let (u, free', freed, f) = free_page-Freed s.pages free b.page v.pages block room in
          (
            with_pages (record { frame_allocator = u }) t,
            slabs',
            full',
            free',
            free_run s t b.page u (dealloc page_provider n ptr s) run freed,
            page_back s t u slabs full slabs' full' free free' b ptr v slab at z d f,
          )
    ]
