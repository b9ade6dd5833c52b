-- ===== src/Heap/Drain.antt =====
-- The pages that the page allocator of kernel/src/mm/allocator.rs gives until it has none, and the frames that
-- it owns together with the memory map's allocator.
use lymad_os.Base.{
  ℕ, zero, suc, ◌+◌, ◌-◌, ◌*◌, ◌/◌, ◌%◌, ◌≤◌, ◌<◌, ◌≡◌, refl, ◌∙◌, ap, arith, List, [], ◌∷◌, ltb,
  ◌==◌, if◌then◌else◌, word, inl, inr, ok, Array, none, some,
}
use lymad_os.Address.{AddressOps, IsDocumented}
use lymad_os.Memory.{page_size, count_if, BootInfoFrameAllocator, allocate_frame}
use lymad_os.Memory.Ranges as ranges
use lymad_os.Memory.Arrays.{active}
use lymad_os.Memory.Invariant.{phys_limit}
use lymad_os.Memory.Invariant as memory
use lymad_os.Memory.Frames.{usable_frames, occurrences-usable_frames, allocate_frame-usable_frames}
use lymad_os.Buddy.{FreeFrame, BuddyAllocator, max_pages, max_order}
use lymad_os.Buddy.Blocks.{cover, cover_below, free_cover}
use lymad_os.Buddy.Invariant.{IsValid}
use lymad_os.Buddy.Alloc.{Taken}
use lymad_os.Heap.{GlobalPageAllocator, alloc_page, init_heap, add_usable_frames}
use lymad_os.Heap.Pages.{alloc_page-cases}
use lymad_os.Heap.Fill.{Visible, init_heap-Filled}

-- The pages that the allocator gives, one call after the other, until it gives none.
pub data Drains : GlobalPageAllocator → List ℕ → Type 0 where
  empty : {g : GlobalPageAllocator} → alloc_page g ≡ ok (none, g) → Drains g []
  page :
      {g g' : GlobalPageAllocator} {x : ℕ} {xs : List ℕ}
      → alloc_page g ≡ ok (some x, g')
      → Drains g' xs
      → Drains g (x ∷ xs)

-- The sum of the first `n` values.
sum_below : ℕ → (ℕ → ℕ) → ℕ
sum_below zero f = 0
sum_below (suc n) f = f n + sum_below n f

-- Values that differ by one at `k` only.
sum_below-at :
    (n k : ℕ) (f g : ℕ → ℕ)
    → ((i : ℕ) → i < n → f i + count_if (i == k) ≡ g i)
    → sum_below n f + count_if (ltb k n) ≡ sum_below n g
unfolding sum_below
sum_below-at zero k f g h = ground arith
sum_below-at (suc n) k f g h =
    let rest = sum_below-at n k f g (λ i lt. h i (omega arith)) in
    ground (arith, rest, h n (omega arith))

-- How many pages are free.
abbrev free_pages : (base : ℕ) → (ℕ → List ℕ) → ℕ
free_pages base free = sum_below max_pages (λ i. free_cover free (base + page_size * i))

free_pages-Taken :
    (s t : BuddyAllocator) (free free' : ℕ → List ℕ) (p : ℕ)
    → Taken s free 0 p t free'
    → free_pages s.offset free' + 1 ≡ free_pages s.offset free
free_pages-Taken s t free free' p taken =
    let b = taken.block in
    let low = b.low in
    let high = b.high in
    let aligned : (p - s.offset) % page_size ≡ 0 = b.aligned in
    let k = (p - s.offset) / page_size in
    let at : s.offset + page_size * k ≡ p = omega arith in
    let all =
      sum_below-at max_pages k (λ i. free_cover free' (s.offset + page_size * i))
        (λ i. free_cover free (s.offset + page_size * i))
        (λ i lt. ground (arith, taken.cover (s.offset + page_size * i), at)) in
    ground (arith, all, at)

cover_below-none :
    (n a : ℕ) (free : ℕ → List ℕ) → ((o : ℕ) → o < n → free o ≡ []) → cover_below n free a ≡ 0
cover_below-none zero a free h = refl
cover_below-none (suc n) a free h =
    rw (h n (omega arith)) (omega (arith, cover_below-none n a free (λ o lt. h o (omega arith))))

free_cover-none :
    (a : ℕ) (free : ℕ → List ℕ) → ((o : ℕ) → o < max_order → free o ≡ []) → free_cover free a ≡ 0
unfolding free_cover
free_cover-none a free h = cover_below-none max_order a free h

-- A valid allocator gives every free page, in at most `n` calls if it has at most `n`.
drained :
    (n : ℕ) (g : GlobalPageAllocator) (free : ℕ → List ℕ)
    → IsValid g.frame_allocator free
    → free_pages g.frame_allocator.offset free ≤ n
    → (xs : List ℕ) × Drains g xs × ((a : ℕ) → cover 0 a xs ≡ free_cover free a)
drained zero g free v few = elim (alloc_page-cases g free v) [
  | inl (run, nothing) ↦ ([], empty run, λ a. omega (arith, free_cover-none a free nothing))
  | inr (p, t, free', run, taken) ↦
      absurd (omega (arith, free_pages-Taken g.frame_allocator t free free' p taken))
]
drained (suc n) g free v few = elim (alloc_page-cases g free v) [
  | inl (run, nothing) ↦ ([], empty run, λ a. omega (arith, free_cover-none a free nothing))
  | inr (p, t, free', run, taken) ↦
      let less = free_pages-Taken g.frame_allocator t free free' p taken in
      let same = ap (λ (b : ℕ). free_pages b free') taken.offset in
      let (xs, rest, exact) =
        drained n (record { frame_allocator = t }) free' taken.valid (omega (arith, less, same)) in
      (p ∷ xs, page run rest, λ a. omega (arith, exact a, taken.cover a))
]

-- With the physical memory mapped at `offset` and valid free ranges that lie at canonical addresses there: main
-- fills the heap's page allocator without a panic. When the heap is then asked for pages until it has none, it
-- gives, after finitely many calls and without a panic, every free page below 1 GiB once. A frame below
-- 1 GiB that the memory map's allocator gives out after main has done so is among them: both allocators
-- hand it out.
pub allocate_frame-Drains :
    {ops : AddressOps} (doc : IsDocumented ops) (contents : Array FreeFrame) (offset p : ℕ)
    (b c : BootInfoFrameAllocator)
    → memory.IsValid b
    → 0 < offset
    → offset + phys_limit < word
    → Visible offset b
    → p < max_pages * page_size
    → allocate_frame b ≡ ok (some p, c)
    → (t : BuddyAllocator) × (xs : List ℕ) × (add_usable_frames ops offset
          (usable_frames b)
          (init_heap contents offset)
        ≡ ok (some (record { frame_allocator = t })))
      × Drains (record { frame_allocator = t }) xs
      × ((x : ℕ)
          → cover 0 (offset + x) xs
            ≡ (if ltb x (max_pages * page_size) then ranges.cover x (active b) else 0))
      × (cover 0 (offset + p) xs ≡ 1)
allocate_frame-Drains doc contents offset p b c v pos fits visible below e =
    let (t, free, run, v', covered, low) =
      init_heap-Filled doc contents offset b v pos fits visible in
    let (xs, all, exact) =
      drained (free_pages t.offset free) (record { frame_allocator = t }) free v' (omega arith) in
    let given = (allocate_frame-usable_frames v e).0 in
    let once = (occurrences-usable_frames p v).0 in
    (
      t,
      xs,
      run,
      all,
      λ x. exact (offset + x) ∙ covered x,
      ground (arith, exact (offset + p), covered p),
    )
