-- ===== src/Memory/Frames.antt =====
-- `usable_frames` of kernel/src/mm/memory.rs: the free frames, as `main` of kernel/src/main.rs hands
-- them to the buddy allocator.
use lymad_os.Base.{
  ℕ, zero, suc, ◌+◌, ◌-◌, ◌*◌, ◌/◌, ◌%◌, ◌≤◌, ◌<◌, ◌≡◌, refl, ◌∙◌, ap, List, [], ◌∷◌, ◌++◌, some,
  arith, ◌==◌, if◌then◌else◌, Array, ok,
}
use lymad_os.Memory.{
  PhysRange, range, BootInfoFrameAllocator, page_size, count_if, allocate_contiguous,
  allocate_frame,
}
use lymad_os.Memory.Ranges.{holds, cover, All, Chain}
use lymad_os.Memory.Ranges.Delete.{cover-le-one}
use lymad_os.Memory.Arrays.{active, window}
use lymad_os.Memory.Invariant.{IsPageRange, IsValid, page_alignment}
use lymad_os.Memory.Allocate.{Allocated, Allocated-of_Served, allocate_contiguous_aligned-Served}

-- `n` frames from `start` up.
step_pages : ℕ → ℕ → List ℕ
step_pages zero start = []
step_pages (suc n) start = start ∷ step_pages n (start + page_size)

-- `(start..end).step_by(PAGE_SIZE)`
range_frames : PhysRange → List ℕ
range_frames r = step_pages ((r.end - r.start + (page_size - 1)) / page_size) r.start

frames_from : ℕ → ℕ → Array PhysRange → List ℕ
unfolding range_frames step_pages
frames_from zero i a = []
frames_from (suc n) i a = range_frames (a i) ++ frames_from n (i + 1) a

pub usable_frames : BootInfoFrameAllocator → List ℕ
unfolding frames_from
usable_frames s = frames_from s.range_count 0 s.free_ranges

-- How often the number stands in the list.
abbrev pub occurrences : ℕ → List ℕ → ℕ
occurrences x [] = 0
occurrences x (y ∷ ys) = count_if (x == y) + occurrences x ys

occurrences-append :
    (x : ℕ) (ys zs : List ℕ) → occurrences x (ys ++ zs) ≡ occurrences x ys + occurrences x zs
occurrences-append x [] zs = omega arith
occurrences-append x (y ∷ ys) zs = omega (arith, occurrences-append x ys zs)

abbrev on_page : ℕ → ℕ → ℕ
on_page x n = if x % page_size == 0 then n else 0

occurrences-step_pages :
    (x n start : ℕ)
    → start % page_size ≡ 0
    → occurrences x (step_pages n start) ≡ on_page x (holds x (range start (start + n * page_size)))
unfolding step_pages
occurrences-step_pages x zero start h = ground arith
occurrences-step_pages x (suc n) start h =
    ground (arith, occurrences-step_pages x n (start + page_size))

occurrences-range_frames :
    (x : ℕ) (r : PhysRange)
    → IsPageRange r
    → r.start < r.end
    → occurrences x (range_frames r) ≡ on_page x (holds x r)
unfolding range_frames
occurrences-range_frames x r p n =
    let rounds = (r.end - r.start + (page_size - 1)) / page_size in
    let last : r.start + rounds * page_size ≡ r.end =
      omega (arith, p.start_on_page, p.end_on_page) in
    occurrences-step_pages x rounds r.start p.start_on_page
    ∙ ap (λ e. on_page x (holds x (range r.start e))) last

occurrences-frames_from :
    (x n i lo : ℕ) (a : Array PhysRange)
    → All IsPageRange (window a i n)
    → Chain lo (window a i n)
    → occurrences x (frames_from n i a) ≡ on_page x (cover x (window a i n))
unfolding frames_from
occurrences-frames_from x zero i lo a p c = ground arith
occurrences-frames_from x (suc n) i lo a p c = ground (
  arith,
  occurrences-append x (range_frames (a i)) (frames_from n (i + 1) a),
  occurrences-range_frames x (a i) p.0 c.1,
  occurrences-frames_from x n (i + 1) (a i).end a p.1 c.2,
)

-- On valid ranges, the iterator yields an address as often as the ranges cover it, once at most, if it
-- lies on a page boundary, and never otherwise.
pub occurrences-usable_frames :
    {s : BootInfoFrameAllocator} (x : ℕ)
    → IsValid s
    → (occurrences x (usable_frames s) ≡ (if x % page_size == 0 then cover x (active s) else 0))
      × (occurrences x (usable_frames s) ≤ 1)
unfolding usable_frames
occurrences-usable_frames {s} x v =
    let exact = occurrences-frames_from x s.range_count 0 0 s.free_ranges v.pages v.chain in
    (exact, ground (arith, exact, cover-le-one x 0 (active s) v.chain))

-- A frame that `allocate_frame` returns, on valid ranges, is one of the frames that `usable_frames`
-- yielded just before, and is not one of those that it yields afterwards.
pub allocate_frame-usable_frames :
    {s t : BootInfoFrameAllocator} {p : ℕ}
    → IsValid s
    → allocate_frame s ≡ ok (some p, t)
    → (occurrences p (usable_frames s) ≡ 1) × (occurrences p (usable_frames t) ≡ 0)
unfolding allocate_frame allocate_contiguous
allocate_frame-usable_frames {s} {t} {p} v e =
    let got : Allocated s page_size (1 * page_size) p t =
      Allocated-of_Served
        (allocate_contiguous_aligned-Served 1 v page_alignment refl (omega arith) (omega arith)
          (omega arith))
        e in
    let before = occurrences-usable_frames p v in
    let after = occurrences-usable_frames p got.valid in
    let one = cover-le-one p 0 (active s) v.chain in
    (
      ground (arith, before.0, got.aligned, got.taken p, one),
      ground (arith, after.0, got.taken p, one),
    )
