-- ===== src/Heap/Pages.antt =====
-- The pages that a cache of kernel/src/mm/slub.rs gets from `GlobalPageAllocator` of
-- kernel/src/mm/allocator.rs.
use lymad_os.Base.{
  ℕ, ◌+◌, ◌-◌, ◌*◌, ◌%◌, ◌≤◌, ◌<◌, ◌≡◌, ◌≢◌, ◌⊎◌, refl, ap, arith, Option, none, some, List, [],
  ◌∷◌, ◌==◌, ok, inl, inr, word, Bool-cases,
}
use lymad_os.Memory.{count_if}
use lymad_os.Buddy.{BuddyAllocator, max_order, max_pages}
use lymad_os.Buddy as buddy
use lymad_os.Buddy.Blocks.{block_holds, free_cover, IsBlock}
use lymad_os.Buddy.Invariant.{IsValid}
use lymad_os.Buddy.Alloc.{Taken, alloc-Allocates}
use lymad_os.Buddy.Dealloc.{Freed, dealloc-Freed}
use lymad_os.Slub.{page_size, Memory}
use lymad_os.Slub.Chains.{Slab, All, EachIn, pages_count, objects_count, free_count}
use lymad_os.Slub.Invariant.{IsSize, IsPage, IsSlot, IsSlab, IsSlot-inside}
use lymad_os.Heap.{GlobalPageAllocator, alloc_page, free_page}

-- The page that an address lies in.
abbrev pub floor : ℕ → ℕ
floor a = a - a % page_size

pub block-IsPage :
    (base page : ℕ)
    → base % page_size ≡ 0
    → 0 < base
    → base + max_pages * page_size < word
    → IsBlock base 0 page
    → IsPage page
block-IsPage base page at pos fits b =
    let low = b.low in
    let high = b.high in
    let aligned : (page - base) % page_size ≡ 0 = b.aligned in
    record { aligned = omega arith; positive = omega arith; fits = omega arith }

pub block_holds-page :
    (a page : ℕ) → page % page_size ≡ 0 → block_holds 0 a page ≡ count_if (floor a == page)
block_holds-page a page at = ground arith

alloc_page-step :
    (g : GlobalPageAllocator) (o : Option ℕ) (t : BuddyAllocator)
    → buddy.alloc g.frame_allocator 0 ≡ ok (o, t)
    → alloc_page g ≡ ok (o, record { frame_allocator = t })
unfolding alloc_page
alloc_page-step g o t run = rw run refl

-- A page, or none where no block is free.
pub alloc_page-cases :
    (g : GlobalPageAllocator) (free : ℕ → List ℕ)
    → IsValid g.frame_allocator free
    → ((alloc_page g ≡ ok (none, g)) × ((order : ℕ) → order < max_order → free order ≡ []))
      ⊎ ((p : ℕ) × (t : BuddyAllocator) × (free' : ℕ → List ℕ) × (alloc_page g
            ≡ ok (some p, record { frame_allocator = t }))
          × Taken g.frame_allocator free 0 p t free')
alloc_page-cases g free v = elim (alloc-Allocates g.frame_allocator free 0 v) [
  | inl (run, empty) ↦
      inl (alloc_page-step g none g.frame_allocator run, λ o lt. empty o (omega arith) lt)
  | inr (p, t, free', run, taken) ↦ inr (p, t, free', alloc_page-step g (some p) t run, taken)
]

-- A page that is not free goes back.
pub free_page-Freed :
    (g : GlobalPageAllocator) (free : ℕ → List ℕ) (page : ℕ)
    → IsValid g.frame_allocator free
    → IsBlock g.frame_allocator.offset 0 page
    → ((a : ℕ) → free_cover free a + block_holds 0 a page ≤ 1)
    → (t : BuddyAllocator) × (free' : ℕ → List ℕ) × (free_page g page
        ≡ ok (record { frame_allocator = t }))
      × Freed g.frame_allocator free 0 page t free'
unfolding free_page
free_page-Freed g free page v b room =
    let (t, free', run, freed) =
      dealloc-Freed g.frame_allocator free page 0 (omega arith) v b room in
    (t, free', rw run refl, freed)

pub IsSlot-floor :
    (size page x : ℕ) → IsSize size → IsPage page → IsSlot size page x → floor x ≡ page
IsSlot-floor size page x k p s =
    let inside = IsSlot-inside size page x k s in
    let at = p.aligned in let positive = k.positive in omega arith

pub objects_count-off :
    (size page x : ℕ) (xs : List ℕ)
    → IsSize size
    → IsPage page
    → EachIn (IsSlot size page) xs
    → floor x ≢ page
    → objects_count x xs ≡ 0
objects_count-off size page x [] k p e ne = refl
objects_count-off size page x (y ∷ ys) k p e ne = ground (
  arith,
  objects_count-off size page x ys k p e.1 ne,
  IsSlot-floor size page y k p e.0,
  λ (same : x ≡ y). ap (λ (z : ℕ). floor z) same,
)

-- Of the free objects at an address there is one at most in a slab, and only if that is on its page.
pub free_count-le-pages :
    (m : Memory) (size x : ℕ) (bs : List Slab)
    → IsSize size
    → All (IsSlab m size) bs
    → free_count x bs ≤ pages_count (floor x) bs
free_count-le-pages m size x [] k all = omega arith
free_count-le-pages m size x (b ∷ bs) k all =
    let rest = free_count-le-pages m size x bs k all.1 in
    let once = all.0.once x in
    elim (Bool-cases (floor x == b.page)) [
      | inl at ↦ ground arith
      | inr ne ↦
          let none_here =
            objects_count-off size b.page x b.free k all.0.on_page all.0.slots
              (λ e. ground arith) in
          ground arith
    ]
