-- ===== src/Buddy/Init.antt =====
-- `new`, `set_offset` and `add_frame` of kernel/src/mm/buddy.rs.
use lymad_os.Base.{
  ℕ, zero, suc, ◌+◌, ◌-◌, ◌*◌, ◌%◌, ◌≤◌, ◌<◌, ◌≡◌, refl, arith, List, [], ltb, leb, ◌||◌,
  if◌then◌else◌, word, Bool-cases, inl, inr, ok, Array,
}
use lymad_os.Memory.{page_size}
use lymad_os.Buddy.{
  FreeFrame, BuddyAllocator, max_order, max_pages, new, set_offset, unmanaged, add_frame,
}
use lymad_os.Buddy.Blocks.{block_holds, cover_below, free_cover, IsBlock}
use lymad_os.Buddy.Invariant.{IsValid}
use lymad_os.Buddy.Dealloc.{dealloc-Freed}

-- No block is free.
abbrev pub no_blocks : ℕ → List ℕ
no_blocks order = []

cover_below-no_blocks : (n a : ℕ) → cover_below n no_blocks a ≡ 0
cover_below-no_blocks zero a = refl
cover_below-no_blocks (suc n) a = omega (arith, cover_below-no_blocks n a)

pub free_cover-no_blocks : (a : ℕ) → free_cover no_blocks a ≡ 0
unfolding free_cover
free_cover-no_blocks = cover_below-no_blocks max_order

pub new-offset :
    (memory : Array FreeFrame) (offset : ℕ) → (set_offset (new memory) offset).offset ≡ offset
unfolding set_offset
new-offset memory offset = refl

pub new-IsValid :
    (memory : Array FreeFrame) (offset : ℕ)
    → 0 < offset
    → offset + max_pages * page_size < word
    → IsValid (set_offset (new memory) offset) no_blocks
unfolding set_offset
new-IsValid memory offset pos fits = record {
  listed = record {
    positive = pos;
    fits = fits;
    lists = λ o h. refl;
    blocks = λ o h. tt;
    apart = λ a. omega (arith, free_cover-no_blocks a);
  };
  counts = λ o p h hp. ground arith;
}

-- The frame lies among the managed pages, as a block of order 0 that overlaps no free one, or outside.
abbrev pub block_if_managed : (base a frame : ℕ) → ℕ
block_if_managed base a frame =
    if ltb frame base || leb (base + max_pages * page_size) frame then 0 else block_holds 0 a frame

-- A page that overlaps no free block is added if it lies among the managed pages; any other is left alone.
-- Then add_frame does not panic, the invariant holds of the new free lists, and of every address the number
-- of free blocks that hold it goes up by what an added page holds.
pub add_frame-Added :
    (s : BuddyAllocator) (free : ℕ → List ℕ) (frame : ℕ)
    → IsValid s free
    → (frame - s.offset) % page_size ≡ 0
    → ((a : ℕ) → free_cover free a + block_if_managed s.offset a frame ≤ 1)
    → (t : BuddyAllocator) × (free' : ℕ → List ℕ) × (add_frame s frame ≡ ok t)
      × IsValid t free'
      × (t.offset ≡ s.offset)
      × ((a : ℕ) → free_cover free' a ≡ free_cover free a + block_if_managed s.offset a frame)
unfolding add_frame
add_frame-Added s free frame v at room =
    let fits = v.listed.fits in
    let same : unmanaged s frame
        ≡ (ltb frame s.offset || leb (s.offset + max_pages * page_size) frame) =
      ground arith in
    elim (Bool-cases (unmanaged s frame)) [
      | inl out ↦ (s, free, rw out refl, v, refl, λ a. ground (arith, same))
      | inr inside ↦
          let block : IsBlock s.offset 0 frame = record {
            low = ground arith;
            high = ground arith;
            aligned = at;
          } in
          let (t, free', run, freed) =
            dealloc-Freed s free frame 0 (omega arith) v block
              (λ a. ground (arith, same, room a)) in
          (
            t,
            free',
            ground arith,
            freed.valid,
            freed.offset,
            λ a. ground (arith, same, freed.cover a),
          )
    ]
