-- ===== src/Buddy/Tests.antt =====
-- Runs of kernel/src/mm/buddy.rs, and the theorems on it at concrete pages.
use lymad_os.Base.{
  ℕ, ◌-◌, ◌/◌, ◌^◌, ◌≤◌, ◌<◌, ◌≡◌, ◌≢◌, refl, not, if◌then◌else◌, Option, none, some, List, [], ◌∷◌,
  arith, ◌==◌, ok, panic, Outcome, ◌>>=◌,
}
use lymad_os.Buddy.{
  BuddyAllocator, max_pages, new, set_offset, get_bit_index, order_offset, toggle_bit,
  calculate_buddy_address, push_free, remove_frame, alloc, dealloc, add_frame,
}
use lymad_os.Buddy.Pairs.{BuddyOf, get_bit_index-injective, calculate_buddy_address-BuddyOf}
use lymad_os.Buddy.FreeLists.{Disjoint, FreeList}
use lymad_os.Buddy.FreeLists.Unlink.{remove_frame-FreeList}
use lymad_os.Buddy.Invariant.{IsValid}
use lymad_os.Buddy.Alloc.{Allocates, alloc-Allocates}
use lymad_os.Buddy.Dealloc.{Freed, dealloc-Freed}
use lymad_os.Buddy.Init.{no_blocks, free_cover-no_blocks, new-IsValid}
use lymad_os.Buddy.Bitmap.{pair_bit, Toggled, toggle_bit-Toggled}

abbrev fresh : BuddyAllocator
unfolding set_offset
fresh = set_offset (new (λ _. record { next = none; prev = none })) 0x10_0000

abbrev add_frames : List ℕ → BuddyAllocator → Outcome BuddyAllocator
add_frames [] s = ok s
add_frames (p ∷ ps) s = add_frame s p >>= add_frames ps

abbrev heads : Outcome BuddyAllocator → List (Option ℕ)
heads panic = []
heads (ok s) = s.free_lists 0 ∷ s.free_lists 1 ∷ s.free_lists 2 ∷ []

-- Four pages become one block of order 2.
merge_run :
    heads (add_frames (0x10_0000 ∷ 0x10_2000 ∷ 0x10_1000 ∷ 0x10_3000 ∷ []) fresh)
    ≡ none ∷ none ∷ some 0x10_0000 ∷ []
unfolding fresh set_offset add_frame dealloc toggle_bit get_bit_index order_offset push_free
    remove_frame calculate_buddy_address
merge_run = refl

-- A page from that block splits it.
split_run :
    heads (
      add_frames (0x10_0000 ∷ 0x10_2000 ∷ 0x10_1000 ∷ 0x10_3000 ∷ []) fresh >>= λ s.
      alloc s 0 >>= λ (_, t). ok t)
    ≡ some 0x10_1000 ∷ some 0x10_2000 ∷ none ∷ []
unfolding fresh set_offset add_frame dealloc toggle_bit get_bit_index order_offset push_free
    remove_frame calculate_buddy_address alloc
split_run = refl

abbrev order : ℕ
order = 1

get_bit_index-injective_example :
    (get_bit_index 6 1 < max_pages)
    × (get_bit_index 6 1 ≡ get_bit_index 5 1 → (order ≡ 1) × (6 / 2 ^ 2 ≡ 5 / 2 ^ 2))
get_bit_index-injective_example =
    get_bit_index-injective order 1 6 5 (omega arith) (omega arith) (omega arith) (omega arith)

calculate_buddy_address-BuddyOf_example :
    (0x10_0000 ≤ calculate_buddy_address fresh 0x10_4000 1)
    × BuddyOf 1 0x4000 (calculate_buddy_address fresh 0x10_4000 1 - 0x10_0000)
    × (calculate_buddy_address fresh (calculate_buddy_address fresh 0x10_4000 1) 1 ≡ 0x10_4000)
unfolding fresh set_offset
calculate_buddy_address-BuddyOf_example =
    calculate_buddy_address-BuddyOf fresh 0x10_4000 1 (omega arith) (omega arith) (omega arith)
      (omega arith) refl

toggle_bit-Toggled_example :
    (t : BuddyAllocator) × (toggle_bit fresh 6 1 ≡ ok (not (pair_bit t 6 1 == 0), t))
    × Toggled fresh 6 1 t
toggle_bit-Toggled_example = toggle_bit-Toggled fresh 6 1 (omega arith) (omega arith)

-- Two pages of order 0, at 0x10_1000 and 0x10_3000.
abbrev two_frames : BuddyAllocator
unfolding fresh set_offset
two_frames = record fresh {
  free_lists = λ order. if order == 0 then some 0x10_1000 else none;
  memory = λ a.
      if a == 0x10_1000
      then record { next = some 0x10_3000; prev = none }
      else record { next = none; prev = some 0x10_1000 };
}

remove_frame-FreeList_example :
    (t : BuddyAllocator) × (remove_frame two_frames 0x10_3000 0 ≡ ok t)
    × (t.bitmap ≡ two_frames.bitmap)
    × (t.offset ≡ two_frames.offset)
    × FreeList t 0 (0x10_1000 ∷ [])
    × ((order' : ℕ) (ys : List ℕ)
        → order' ≢ 0
        → FreeList two_frames order' ys
        → Disjoint (0x10_1000 ∷ 0x10_3000 ∷ []) ys
        → FreeList t order' ys)
unfolding two_frames
remove_frame-FreeList_example =
    remove_frame-FreeList two_frames 0x10_3000 0 (0x10_1000 ∷ []) [] (omega arith)
      (refl, omega arith, refl, (refl, omega arith, refl, refl)) ((omega arith, tt), (tt, tt))

fresh-IsValid : IsValid fresh no_blocks
unfolding fresh
fresh-IsValid =
    new-IsValid (λ _. record { next = none; prev = none }) 0x10_0000 (omega arith) (omega arith)

-- The block of four pages at 0x10_4000.
dealloc-Freed_example :
    (t : BuddyAllocator) × (free' : ℕ → List ℕ) × (dealloc fresh 0x10_4000 2 ≡ ok t)
    × Freed fresh no_blocks 2 0x10_4000 t free'
unfolding fresh
dealloc-Freed_example =
    dealloc-Freed fresh no_blocks 0x10_4000 2 (omega arith) fresh-IsValid
      (record { low = omega arith; high = omega arith; aligned = refl })
      (λ a. ground (arith, free_cover-no_blocks a))

-- A page out of that block.
alloc-Allocates_example :
    let filled = dealloc-Freed_example in Allocates filled.0 filled.1 0 (alloc filled.0 0)
alloc-Allocates_example =
    let filled = dealloc-Freed_example in alloc-Allocates filled.0 filled.1 0 filled.3.valid
