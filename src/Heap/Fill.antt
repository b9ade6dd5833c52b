-- ===== src/Heap/Fill.antt =====
-- The page allocator after `main` of kernel/src/main.rs has added the usable frames to it.
use lymad_os.Base.{
  ℕ, ◌+◌, ◌-◌, ◌*◌, ◌%◌, ◌≤◌, ◌<◌, ◌≡◌, refl, ◌∙◌, ap, arith, List, [], ◌∷◌, ltb, if◌then◌else◌,
  word, Bool-cases, inl, inr, Outcome, ok, Array, Option, some,
}
use lymad_os.Address.{AddressOps, IsCanonical, IsDocumented}
use lymad_os.Memory.{page_size, PhysRange, BootInfoFrameAllocator}
use mathlib.Core.Path.{subst}
use lymad_os.Memory.Ranges as ranges
use lymad_os.Memory.Ranges.Delete.{cover-le-one}
use lymad_os.Memory.Arrays.{active}
use lymad_os.Memory.Invariant.{cover-physical, IsPageRange, phys_limit}
use lymad_os.Memory.Invariant as memory
use lymad_os.Memory.Frames.{usable_frames, occurrences, occurrences-usable_frames}
use lymad_os.Buddy.{FreeFrame, BuddyAllocator, max_pages, new, set_offset}
use lymad_os.Buddy as buddy
use lymad_os.Buddy.Blocks.{free_cover}
use lymad_os.Buddy.Invariant.{IsValid}
use lymad_os.Buddy.Init.{
  no_blocks, free_cover-no_blocks, new-IsValid, new-offset, block_if_managed, add_frame-Added,
}
use lymad_os.Heap.{GlobalPageAllocator, init_heap, add_frame, add_usable_frames}

-- Pages of physical memory, which the kernel sees at canonical addresses.
abbrev AllPages : (base : ℕ) → List ℕ → Type 0
AllPages base [] = Unit
AllPages base (f ∷ fs) =
    (f % page_size ≡ 0) × (f < phys_limit) × IsCanonical (base + f) × AllPages base fs

-- The kernel sees the free physical addresses at canonical ones.
abbrev pub Visible : (base : ℕ) → BootInfoFrameAllocator → Type 0
Visible base b = (x : ℕ) → 0 < ranges.cover x (active b) → IsCanonical (base + x)

-- How many of the frames hold the address, of those in the first GiB.
abbrev frames_cover : (base a : ℕ) → List ℕ → ℕ
frames_cover base a [] = 0
frames_cover base a (f ∷ fs) = block_if_managed base a (base + f) + frames_cover base a fs

AllPages-occurrences :
    (base : ℕ) (fs : List ℕ)
    → ((x : ℕ)
        → 0 < occurrences x fs
        → (x % page_size ≡ 0) × (x < phys_limit) × IsCanonical (base + x))
    → AllPages base fs
AllPages-occurrences base [] h = tt
AllPages-occurrences base (f ∷ fs) h =
    let first = h f (ground arith) in
    (first.0, first.1, first.2, AllPages-occurrences base fs (λ x pos. h x (ground arith)))

frames_cover-occurrences :
    (base x : ℕ) (fs : List ℕ)
    → AllPages base fs
    → frames_cover base (base + x) fs
      ≡ (if ltb x (max_pages * page_size) then occurrences (x - x % page_size) fs else 0)
frames_cover-occurrences base x [] all = ground arith
frames_cover-occurrences base x (f ∷ fs) all =
    ground (arith, all.0, frames_cover-occurrences base x fs all.3)

-- The allocator that holds the frames, which were not there before.
abbrev Filled :
    (base : ℕ) → (before : ℕ → List ℕ) → List ℕ → Outcome (Option GlobalPageAllocator) → Type 0
Filled base before frames r =
    (t : BuddyAllocator) × (free : ℕ → List ℕ) × (r ≡ ok (some (record { frame_allocator = t })))
    × IsValid t free
    × (t.offset ≡ base)
    × ((a : ℕ) → free_cover free a ≡ free_cover before a + frames_cover base a frames)

add_usable_frames-step :
    (ops : AddressOps) (base f x : ℕ) (fs : List ℕ) (s t : BuddyAllocator)
    → ops.add_virt base f ≡ ok x
    → buddy.add_frame s x ≡ ok t
    → add_usable_frames ops base (f ∷ fs) (some (record { frame_allocator = s }))
      ≡ add_usable_frames ops base fs (some (record { frame_allocator = t }))
unfolding add_usable_frames add_frame
add_usable_frames-step ops base f x fs s t sum run = rw (sum, run) refl

add_usable_frames-Filled :
    {ops : AddressOps} (doc : IsDocumented ops) (base : ℕ) (fs : List ℕ) (s : BuddyAllocator)
    (free : ℕ → List ℕ)
    → s.offset ≡ base
    → base + phys_limit < word
    → IsValid s free
    → AllPages base fs
    → ((a : ℕ) → free_cover free a + frames_cover base a fs ≤ 1)
    → Filled base free fs (add_usable_frames ops base fs (some (record { frame_allocator = s })))
unfolding add_usable_frames add_frame
add_usable_frames-Filled {ops} doc base [] s free off fits v all room =
    (s, free, refl, v, off, λ a. omega arith)
add_usable_frames-Filled {ops} doc base (f ∷ fs) s free off fits v all room =
    let sum = doc.add_virt base f all.2 in
    let at : (base + f - s.offset) % page_size ≡ 0 = omega (arith, all.0) in
    let (t, free', run, v', off', covered) =
      add_frame-Added s free (base + f) v at (λ a. rw off (omega (arith, room a))) in
    let added : (a : ℕ)
        → free_cover free' a ≡ free_cover free a + block_if_managed base a (base + f) =
      λ a. covered a ∙ ap (λ (b : ℕ). free_cover free a + block_if_managed b a (base + f)) off in
    let (u, free'', run', v'', off'', covered') =
      add_usable_frames-Filled doc base fs t free' (off' ∙ off) fits v' all.3
        (λ a. omega (arith, added a, room a)) in
    (
      u,
      free'',
      add_usable_frames-step ops base f (base + f) fs s t sum run ∙ run',
      v'',
      off'',
      λ a. omega (arith, covered' a, added a),
    )

-- Whole pages: an address is in the ranges if its page is.
cover-page :
    (x : ℕ) (rs : List PhysRange)
    → ranges.All IsPageRange rs
    → ranges.cover (x - x % page_size) rs ≡ ranges.cover x rs
cover-page x [] all = refl
cover-page x (r ∷ rs) all =
    ground (arith, all.0.start_on_page, all.0.end_on_page, cover-page x rs all.1)

usable_frames-AllPages :
    (base : ℕ) (b : BootInfoFrameAllocator)
    → memory.IsValid b
    → Visible base b
    → AllPages base (usable_frames b)
usable_frames-AllPages base b v visible = AllPages-occurrences base (usable_frames b) (λ x pos.
    let exact = (occurrences-usable_frames x v).0 in
    let one : 0 < ranges.cover x (active b) = ground arith in
    (ground arith, cover-physical x (active b) v.pages one, visible x one))

usable_frames-cover :
    (base x : ℕ) (b : BootInfoFrameAllocator)
    → memory.IsValid b
    → Visible base b
    → frames_cover base (base + x) (usable_frames b)
      ≡ (if ltb x (max_pages * page_size) then ranges.cover x (active b) else 0)
usable_frames-cover base x b v visible = ground (
  arith,
  frames_cover-occurrences base x (usable_frames b) (usable_frames-AllPages base b v visible),
  occurrences-usable_frames (x - x % page_size) v,
  cover-page x (active b) v.pages,
)

frames_cover-below : (base a : ℕ) (fs : List ℕ) → a < base → frames_cover base a fs ≡ 0
frames_cover-below base a [] h = refl
frames_cover-below base a (f ∷ fs) h = ground (arith, frames_cover-below base a fs)

usable_frames-cover-le-one :
    (base a : ℕ) (b : BootInfoFrameAllocator)
    → memory.IsValid b
    → Visible base b
    → frames_cover base a (usable_frames b) ≤ 1
usable_frames-cover-le-one base a b v visible = elim (Bool-cases (ltb a base)) [
  | inl lt ↦ ground (arith, frames_cover-below base a (usable_frames b))
  | inr ge ↦
      let sum : base + (a - base) ≡ a = ground arith in
      subst (λ (k : ℕ). frames_cover base k (usable_frames b) ≤ 1) sum
        (ground (
          arith,
          usable_frames-cover base (a - base) b v visible,
          cover-le-one (a - base) 0 (active b) v.chain,
        ))
]

-- With the physical memory mapped at `offset`, and free ranges that are valid and lie at canonical addresses
-- there, main adds every usable frame without a panic. Then the heap's page allocator is valid, and the free addresses in it are just those of
-- the free ranges below 1 GiB, each once, and none lies below `offset`.
pub init_heap-Filled :
    {ops : AddressOps} (doc : IsDocumented ops) (contents : Array FreeFrame) (offset : ℕ)
    (b : BootInfoFrameAllocator)
    → memory.IsValid b
    → 0 < offset
    → offset + phys_limit < word
    → Visible offset b
    → (t : BuddyAllocator) × (free : ℕ → List ℕ) × (add_usable_frames ops offset
          (usable_frames b)
          (init_heap contents offset)
        ≡ ok (some (record { frame_allocator = t })))
      × IsValid t free
      × ((x : ℕ)
          → free_cover free (offset + x)
            ≡ (if ltb x (max_pages * page_size) then ranges.cover x (active b) else 0))
      × ((a : ℕ) → a < offset → free_cover free a ≡ 0)
unfolding init_heap
init_heap-Filled {ops} doc contents offset b v pos fits visible =
    let room : (a : ℕ) → free_cover no_blocks a + frames_cover offset a (usable_frames b) ≤ 1 =
      λ a. omega (arith, free_cover-no_blocks a, usable_frames-cover-le-one offset a b v visible) in
    let (t, free, run, v', off, covered) =
      add_usable_frames-Filled doc offset (usable_frames b) (set_offset (new contents) offset)
        no_blocks (new-offset contents offset) fits (new-IsValid contents offset pos (omega arith))
        (usable_frames-AllPages offset b v visible) room in
    (
      t,
      free,
      run,
      v',
      λ x. omega (
        arith,
        covered (offset + x),
        free_cover-no_blocks (offset + x),
        usable_frames-cover offset x b v visible,
      ),
      λ a h. omega (
        arith,
        covered a,
        free_cover-no_blocks a,
        frames_cover-below offset a (usable_frames b) h,
      ),
    )
