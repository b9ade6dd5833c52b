-- ===== src/Buddy/Bitmap.antt =====
-- The bitmap of kernel/src/mm/buddy.rs: one bit for each pair of buddies.
use lymad_os.Base.{
  ℕ, ◌+◌, ◌-◌, ◌/◌, ◌%◌, ◌^◌, ◌<◌, bit_and, bit_xor, not, ◌≡◌, ◌≢◌, refl, ◌∙◌, ap, sym, arith, leb,
  ◌==◌, if◌then◌else◌, Array, write, ok, false,
}
use lymad_os.Bits.Toggle.{digit, digit-toggled, digit-tested}
use lymad_os.Buddy.{BuddyAllocator, max_pages, bitmap_size, get_bit_index, toggle_bit}
use lymad_os.Buddy.Pairs.{get_bit_index-injective}

-- Bit `k` of the bytes.
abbrev pub bit_at : Array ℕ → ℕ → ℕ
bit_at bytes k = digit (k % 8) (bytes (k / 8))

-- The bit of the pair that a page and an order stand for.
abbrev pub pair_bit : BuddyAllocator → ℕ → ℕ → ℕ
pair_bit s page_idx order = bit_at s.bitmap (get_bit_index page_idx order)

bit_at-toggled :
    (bytes : Array ℕ) (i k : ℕ)
    → bit_at (write bytes (i / 8) (bit_xor (bytes (i / 8)) (2 ^ (i % 8)))) k
      ≡ (if k == i then 1 - bit_at bytes k else bit_at bytes k)
bit_at-toggled bytes i k = ground (arith, digit-toggled (k % 8) (i % 8) (bytes (i / 8)))

-- What a toggle of the bit of a page and an order leaves.
pub record Toggled (s : BuddyAllocator) (page_idx order : ℕ) (t : BuddyAllocator) : Type 0 where
  pub flipped : pair_bit t page_idx order ≡ 1 - pair_bit s page_idx order
  pub others :
      (page_idx' order' : ℕ)
      → page_idx' < max_pages
      → order' < 11
      → order ≢ order'
      → pair_bit t page_idx' order' ≡ pair_bit s page_idx' order'
  pub same_order :
      (page_idx' : ℕ)
      → page_idx' < max_pages
      → page_idx / 2 ^ (order + 1) ≢ page_idx' / 2 ^ (order + 1)
      → pair_bit t page_idx' order ≡ pair_bit s page_idx' order
  pub free_lists : t.free_lists ≡ s.free_lists
  pub offset : t.offset ≡ s.offset
  pub memory : t.memory ≡ s.memory

-- For a page that the bitmap covers and an order below the largest, toggle_bit does not panic, returns
-- whether the pair's bit is 1 afterwards, flips that bit, and changes no bit of another pair or of
-- another order, and nothing but the bitmap.
pub toggle_bit-Toggled :
    (s : BuddyAllocator) (page_idx order : ℕ)
    → page_idx < max_pages
    → order < 11
    → (t : BuddyAllocator) × (toggle_bit s page_idx order
        ≡ ok (not (pair_bit t page_idx order == 0), t))
      × Toggled s page_idx order t
unfolding toggle_bit
toggle_bit-Toggled s page_idx order hp ho =
    let i = get_bit_index page_idx order in
    let inside = (get_bit_index-injective order order page_idx page_idx ho ho hp hp).0 in
    let in_range : leb bitmap_size (i / 8) ≡ false = ground arith in
    let byte = bit_xor (s.bitmap (i / 8)) (2 ^ (i % 8)) in
    let bytes = write s.bitmap (i / 8) byte in
    let at = bit_at-toggled s.bitmap i in
    let own : bytes (i / 8) ≡ byte = ground arith in
    let t = record s { bitmap = bytes } in
    let tested : not (bit_and byte (2 ^ (i % 8)) == 0) ≡ not (bit_at bytes i == 0) =
      ap not (digit-tested (i % 8) byte ∙ ap (λ b. digit (i % 8) b == 0) (sym own)) in
    (
      t,
      rw in_range (ap (λ b. ok (b, t)) tested),
      record {
        flipped = ground (arith, at i);
        others = λ p o hp' ho' apart. ground (
          arith,
          at (get_bit_index p o),
          get_bit_index-injective order o page_idx p ho ho' hp hp',
        );
        same_order = λ p hp' apart. ground (
          arith,
          at (get_bit_index p order),
          get_bit_index-injective order order page_idx p ho ho hp hp',
        );
        free_lists = refl;
        offset = refl;
        memory = refl;
      },
    )
