-- ===== src/Memory/Invariant.antt =====
-- What `BootInfoFrameAllocator` of kernel/src/mm/memory.rs keeps true.
use lymad_os.Base.{ℕ, ◌+◌, ◌%◌, ◌^◌, ◌≤◌, ◌<◌, ◌≡◌, refl, word, List, [], ◌∷◌, arith}
use lymad_os.Bits.Mask.{IsAlignment}
use lymad_os.Memory.{PhysRange, BootInfoFrameAllocator, page_size, huge_page_size, max_ranges}
use lymad_os.Memory.Ranges.{bytes, Chain, All, cover}
use lymad_os.Memory.Arrays.{active}

-- A physical address has 52 bits.
abbrev pub phys_limit : ℕ
phys_limit = 2 ^ 52

-- A range of whole pages.
pub record IsPageRange (r : PhysRange) : Type 0 where
  pub start_on_page : r.start % page_size ≡ 0
  pub end_on_page : r.end % page_size ≡ 0
  pub physical : r.end ≤ phys_limit

-- The addresses in such ranges are physical.
pub cover-physical :
    (x : ℕ) (rs : List PhysRange) → All IsPageRange rs → 0 < cover x rs → x < phys_limit
cover-physical x [] all h = elim h [ ]
cover-physical x (r ∷ rs) all h = ground (arith, all.0.physical, cover-physical x rs all.1)

pub record IsValid (s : BootInfoFrameAllocator) : Type 0 where
  pub bounded : s.range_count ≤ max_ranges
  pub chain : Chain 0 (active s)
  pub pages : All IsPageRange (active s)
  pub accounted : bytes (active s) + s.allocated_bytes ≡ s.total_bytes
  pub total_fits : s.total_bytes < word

abbrev pub page_alignment : IsAlignment page_size
page_alignment = record { k = 12; w = 52; is_power = refl; fills = refl }

abbrev pub huge_alignment : IsAlignment huge_page_size
huge_alignment = record { k = 21; w = 43; is_power = refl; fills = refl }
