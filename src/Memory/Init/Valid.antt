-- ===== src/Memory/Init/Valid.antt =====
-- What `BootInfoFrameAllocator::init` of kernel/src/mm/memory.rs establishes.
use lymad_os.Base.{
  ℕ, zero, suc, ◌+◌, ◌-◌, ◌≤◌, ◌<◌, ◌≡◌, refl, ◌∙◌, ap, ◌*◌, ◌/◌, ◌&&◌, ltb, List, [], ◌∷◌, arith,
  if◌then◌else◌, Array, word, take,
}
use mathlib.Core.Path.{subst, ap₂}
use lymad_os.Bits.Mask.{align_up, align_up_lem, align_down_lem}
use lymad_os.Memory.{page_size, PhysRange, range, empty, MemoryRegion, max_ranges}
use lymad_os.Memory.Ranges.{holds, cover, bytes, Chain, All}
use lymad_os.Memory.Arrays.{active, window}
use lymad_os.Memory.Invariant.{phys_limit, IsPageRange, IsValid, page_alignment}
use lymad_os.Memory.Init.{page_range, collect, sort_from, init}
use lymad_os.Memory.Init.Collect.{page_ranges, collect-Collects}
use lymad_os.Memory.Init.Sort.{SortedFrom}
use lymad_os.Memory.Init.Sorted.{SameRanges, sort_from-SameRanges, Chain-of_SortedFrom, bytes-Chain}

abbrev region_holds : ℕ → MemoryRegion → ℕ
region_holds a m = if m.usable then holds a (range m.start m.end) else 0

-- How many usable regions hold the address.
abbrev pub region_cover : ℕ → List MemoryRegion → ℕ
region_cover a [] = 0
region_cover a (m ∷ ms) = region_holds a m + region_cover a ms

-- The regions are physical.
abbrev pub Physical : List MemoryRegion → Type 0
Physical [] = Unit
Physical (m ∷ ms) = (m.start ≤ phys_limit) × (m.end ≤ phys_limit) × Physical ms

-- The pages of 4096 bytes that lie wholly in a region: from the first multiple of 4096 that is not below
-- its start to the last that is not above its end.
abbrev pub whole_pages : MemoryRegion → PhysRange
whole_pages m = range ((m.start + 4095) / 4096 * 4096) (m.end / 4096 * 4096)

-- The whole pages of the usable regions that have any, in the order of the memory map.
abbrev pub usable_pages : List MemoryRegion → List PhysRange
usable_pages [] = []
usable_pages (m ∷ ms) =
    if m.usable && ltb (whole_pages m).start (whole_pages m).end
    then whole_pages m ∷ usable_pages ms
    else usable_pages ms

-- The code's rounding gives the whole pages.
page_range-whole_pages :
    (m : MemoryRegion) → m.start ≤ phys_limit → m.end ≤ phys_limit → page_range m ≡ whole_pages m
page_range-whole_pages m hs he =
    let up = align_up_lem page_alignment m.start (omega arith) in
    let down = align_down_lem page_alignment m.end (omega arith) in
    let first : align_up m.start page_size ≡ (m.start + 4095) / 4096 * 4096 = omega (arith, up) in
    ap₂ range first down

page_ranges-usable_pages : (ms : List MemoryRegion) → Physical ms → page_ranges ms ≡ usable_pages ms
page_ranges-usable_pages [] p = refl
page_ranges-usable_pages (m ∷ ms) p =
    let same = page_range-whole_pages m p.0 p.1 in
    let rest = page_ranges-usable_pages ms p.2 in
    ap₂ (λ r rs. if m.usable && ltb r.start r.end then r ∷ rs else rs) same rest

-- A non-empty range of whole pages.
abbrev Good : PhysRange → Type 0
Good r = (r.start < r.end) × IsPageRange r

-- Rounding to whole pages stays inside the region.
page_range_lem :
    (m : MemoryRegion)
    → m.start ≤ phys_limit
    → m.end ≤ phys_limit
    → (m.start ≤ (page_range m).start) × ((page_range m).end ≤ m.end) × IsPageRange (page_range m)
page_range_lem m hs he =
    let up = align_up_lem page_alignment m.start (omega arith) in
    let down = align_down_lem page_alignment m.end (omega arith) in
    (
      up.0,
      omega arith,
      record { start_on_page = up.2; end_on_page = omega arith; physical = omega arith },
    )

page_ranges-Good : (ms : List MemoryRegion) → Physical ms → All Good (page_ranges ms)
page_ranges-Good [] p = tt
page_ranges-Good (m ∷ ms) p = ground (arith, page_ranges-Good ms p.2, (page_range_lem m p.0 p.1).2)

cover-page_ranges :
    (a : ℕ) (ms : List MemoryRegion) → Physical ms → cover a (page_ranges ms) ≤ region_cover a ms
cover-page_ranges a [] p = omega arith
cover-page_ranges a (m ∷ ms) p =
    ground (arith, cover-page_ranges a ms p.2, page_range_lem m p.0 p.1)

cover-take : (a n : ℕ) (xs : List PhysRange) → cover a (take n xs) ≤ cover a xs
cover-take a zero xs = omega arith
cover-take a (suc n) [] = omega arith
cover-take a (suc n) (x ∷ xs) = omega (arith, cover-take a n xs)

All-take {κ} : (P : PhysRange → Type κ) (n : ℕ) (xs : List PhysRange) → All P xs → All P (take n xs)
All-take P zero xs h = tt
All-take P (suc n) [] h = tt
All-take P (suc n) (x ∷ xs) h = (h.0, All-take P n xs h.1)

All-imp {κ μ} :
    (P : PhysRange → Type κ) (Q : PhysRange → Type μ)
    → ((r : PhysRange) → P r → Q r)
    → (xs : List PhysRange) → All P xs
    → All Q xs
All-imp P Q f [] h = tt
All-imp P Q f (x ∷ xs) h = (f x h.0, All-imp P Q f xs h.1)

-- The sort of the first `n` entries.
sorted_prefix :
    (n : ℕ) (a : Array PhysRange)
    → let b = sort_from (n - 1) 1 a in
      SortedFrom 0 (window b 0 n) × SameRanges Good (window a 0 n) (window b 0 n)
sorted_prefix zero a = (tt, record { covered = λ x. refl; size = refl; all = λ h. h })
sorted_prefix (suc n) a =
    let first : SortedFrom 0 (window a 0 1) = (omega arith, tt) in
    let rounds : n ≡ suc n - 1 = omega arith in
    let count : 1 + n ≡ suc n = omega arith in
    subst
      (λ (k : ℕ).
        SortedFrom 0 (window (sort_from k 1 a) 0 (suc n))
        × SameRanges Good (window a 0 (suc n)) (window (sort_from k 1 a) 0 (suc n)))
      rounds
      (subst
        (λ (k : ℕ).
          SortedFrom 0 (window (sort_from n 1 a) 0 k)
          × SameRanges Good (window a 0 k) (window (sort_from n 1 a) 0 k))
        count (sort_from-SameRanges Good n 1 a first))

-- From a memory map of physical regions whose usable ones do not overlap, `init` builds a valid
-- allocator with nothing allocated. It manages exactly the whole pages of the first 256 usable regions
-- that have any, so every free address lies in a usable region.
pub init-IsValid :
    (m : List MemoryRegion)
    → Physical m
    → ((a : ℕ) → region_cover a m ≤ 1)
    → IsValid (init m)
      × ((init m).allocated_bytes ≡ 0)
      × ((a : ℕ) → cover a (active (init m)) ≡ cover a (take max_ranges (usable_pages m)))
      × ((a : ℕ) → cover a (active (init m)) ≤ region_cover a m)
unfolding init
init-IsValid m p separate =
    let c = collect m (record { free_ranges = λ _. empty; count = 0; total_bytes = 0 }) in
    let xs = take max_ranges (page_ranges m) in
    let good = page_ranges-Good m p in
    let small = All-imp Good (λ r. r.end < word) (λ r g. omega arith) (page_ranges m) good in
    let all =
      collect-Collects m (record { free_ranges = λ _. empty; count = 0; total_bytes = 0 })
        (omega arith) (omega arith) small in
    let (sorted, same) = sorted_prefix c.count c.free_ranges in
    let kept : SameRanges Good xs (active (init m)) =
      subst (λ ys. SameRanges Good ys (active (init m))) all.ranges same in
    let inside : (a : ℕ) → cover a (active (init m)) ≤ region_cover a m = λ a.
      omega
        (arith, kept.covered a, cover-take a max_ranges (page_ranges m), cover-page_ranges a m p) in
    let good' : All Good (active (init m)) =
      kept.all (All-take Good max_ranges (page_ranges m) good) in
    let chain : Chain 0 (active (init m)) =
      Chain-of_SortedFrom 0 (active (init m)) sorted
        (All-imp Good (λ r. r.start < r.end) (λ r g. g.0) _ good')
        (λ a. omega (arith, inside a, separate a)) in
    let limit : bytes (active (init m)) ≤ phys_limit = omega (
      arith,
      bytes-Chain 0 phys_limit (active (init m)) chain
          (All-imp Good (λ r. r.end ≤ phys_limit) (λ r g. g.1.physical) _ good') (omega arith),
    ) in
    (
      record {
        bounded = all.bounded;
        chain = chain;
        pages = All-imp Good IsPageRange (λ r g. g.1) _ good';
        accounted = omega (arith, all.total, kept.size, limit);
        total_fits = omega (arith, all.total);
      },
      refl,
      λ a. kept.covered a ∙ ap (λ rs. cover a (take max_ranges rs)) (page_ranges-usable_pages m p),
      inside,
    )
