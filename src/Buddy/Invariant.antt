-- ===== src/Buddy/Invariant.antt =====
-- What `BuddyAllocator` of kernel/src/mm/buddy.rs keeps true: the free lists hold blocks that do not
-- overlap, and the bit of a pair of buddies counts those of the two that are free.
use lymad_os.Base.{
  ℕ, ◌+◌, ◌-◌, ◌*◌, ◌/◌, ◌^◌, ◌≤◌, ◌<◌, ◌≡◌, ◌≢◌, ap, sym, arith, List, [], ◌∷◌, ◌++◌, ◌==◌, write,
  word, ok,
}
use mathlib.Core.Path.{subst}
use lymad_os.Memory.{page_size, count_if}
use lymad_os.Buddy.{BuddyAllocator, max_order, max_pages, push_free, remove_frame}
use lymad_os.Buddy.FreeLists.{Absent, Distinct, Disjoint, FreeList, push_free-FreeList}
use lymad_os.Buddy.FreeLists.Unlink.{remove_frame-FreeList}
use lymad_os.Buddy.Bitmap.{pair_bit}
use lymad_os.Buddy.Blocks.{
  block_holds, cover, free_cover, IsBlock, All, All-append, All-join, cover-append, free_cover-le,
  free_cover-le-two, free_cover-write, write_each, holds_self, Absent-cover, Distinct-cover,
  Disjoint-cover,
}

-- The page that a block starts with.
abbrev pub page_of : (base x : ℕ) → ℕ
page_of base x = (x - base) / page_size

-- 1 if the block at `x` is of the same pair of the order as the page, else 0.
abbrev pub in_pair : (base order page_idx x : ℕ) → ℕ
in_pair base order page_idx x =
    count_if (page_of base x / 2 ^ (order + 1) == page_idx / 2 ^ (order + 1))

abbrev pub pair_count : (base order page_idx : ℕ) → List ℕ → ℕ
pair_count base order page_idx [] = 0
pair_count base order page_idx (x ∷ xs) =
    in_pair base order page_idx x + pair_count base order page_idx xs

-- The free lists, without the bitmap.
pub record IsListed (s : BuddyAllocator) (free : ℕ → List ℕ) : Type 0 where
  pub positive : 0 < s.offset
  pub fits : s.offset + max_pages * page_size < word
  pub lists : (order : ℕ) → order < max_order → FreeList s order (free order)
  pub blocks : (order : ℕ) → order < max_order → All (IsBlock s.offset order) (free order)
  pub apart : (a : ℕ) → free_cover free a ≤ 1

-- The bits count.
abbrev pub Counts : BuddyAllocator → (ℕ → List ℕ) → Type 0
Counts s free =
    (order page_idx : ℕ)
    → order < 11
    → page_idx < max_pages
    → pair_bit s page_idx order ≡ pair_count s.offset order page_idx (free order)

pub record IsValid (s : BuddyAllocator) (free : ℕ → List ℕ) : Type 0 where
  pub listed : IsListed s free
  pub counts : Counts s free

-- A state that differs in the free lists.
pub record Relisted (s : BuddyAllocator) (free : ℕ → List ℕ) (t : BuddyAllocator) : Type 0 where
  pub listed : IsListed t free
  pub bitmap : t.bitmap ≡ s.bitmap
  pub offset : t.offset ≡ s.offset

module _ {s : BuddyAllocator} {free : ℕ → List ℕ} (v : IsListed s free) (order : ℕ)
    (small : order < max_order) where
  pub free-Distinct : Distinct (free order)
  free-Distinct =
      Distinct-cover order (free order)
        (λ a. omega (arith, free_cover-le order a free small, v.apart a))

  free-Disjoint :
      (order' : ℕ) → order' < max_order → order' ≢ order → Disjoint (free order) (free order')
  free-Disjoint order' small' ne = Disjoint-cover order order' (free order) (free order') (λ a.
      omega
        (arith, free_cover-le-two order order' a free small small' (λ e. ne (sym e)), v.apart a))

  module _ (x : ℕ) where
    -- A block that overlaps no free one becomes free.
    pub push_free-Relisted :
        IsBlock s.offset order x
        → ((a : ℕ) → free_cover free a + block_holds order a x ≤ 1)
        → let free' = write free order (x ∷ free order) in
          (t : BuddyAllocator) × (push_free s x order ≡ ok t)
          × Relisted s free' t
          × ((a : ℕ) → free_cover free' a ≡ free_cover free a + block_holds order a x)
    push_free-Relisted b room =
        let pos = v.positive in
        let low = b.low in
        let absent : (o : ℕ) → o < max_order → Absent x (free o) = λ o h.
          Absent-cover o x (free o)
            (omega (arith, free_cover-le o x free h, room x, holds_self order x)) in
        let covered : (a : ℕ)
            → free_cover (write free order (x ∷ free order)) a
              ≡ free_cover free a + block_holds order a x =
          λ a. omega (arith, free_cover-write order a free (x ∷ free order) small) in
        let (t, e, bm, off, own, other) =
          push_free-FreeList s x order (free order) small (omega arith) (v.lists order small)
            (absent order small) free-Distinct in
        (
          t,
          e,
          record {
            listed = record {
              positive = rw off pos;
              fits = rw off v.fits;
              lists =
                  write_each (λ o xs. o < max_order → FreeList t o xs) free order (x ∷ free order)
                    (λ _. own)
                    (λ o ne h.
                      other o (free o) ne (v.lists o h) (absent o h, free-Disjoint o h ne));
              blocks =
                  write_each (λ o xs. o < max_order → All (IsBlock t.offset o) xs) free order
                    (x ∷ free order)
                    (λ _.
                      subst (λ (base : ℕ). All (IsBlock base order) (x ∷ free order)) (sym off)
                        (b, v.blocks order small))
                    (λ o ne h. rw off (v.blocks o h));
              apart = λ a. omega (arith, covered a, room a);
            };
            bitmap = bm;
            offset = off;
          },
          covered,
        )

    -- A free block is taken.
    pub remove_frame-Relisted :
        (us vs : List ℕ)
        → free order ≡ us ++ x ∷ vs
        → let free' = write free order (us ++ vs) in
          (t : BuddyAllocator) × (remove_frame s x order ≡ ok t)
          × Relisted s free' t
          × ((a : ℕ) → free_cover free' a + block_holds order a x ≡ free_cover free a)
    remove_frame-Relisted us vs split =
        let covered : (a : ℕ)
            → free_cover (write free order (us ++ vs)) a + block_holds order a x
              ≡ free_cover free a =
          λ a. omega (
            arith,
            free_cover-write order a free (us ++ vs) small,
            ap (cover order a) split,
            cover-append order a us (x ∷ vs),
            cover-append order a us vs,
          ) in
        let (t, e, bm, off, own, other) =
          remove_frame-FreeList s x order us vs small (rw split at (v.lists order small))
            (rw split at free-Distinct) in
        let all : All (IsBlock s.offset order) (us ++ x ∷ vs) =
          rw split at (v.blocks order small) in
        let (left, right) = All-append (IsBlock s.offset order) us (x ∷ vs) all in
        (
          t,
          e,
          record {
            listed = record {
              positive = rw off v.positive;
              fits = rw off v.fits;
              lists =
                  write_each (λ o xs. o < max_order → FreeList t o xs) free order (us ++ vs)
                    (λ _. own)
                    (λ o ne h.
                      other o (free o) ne (v.lists o h) (rw split at (free-Disjoint o h ne)));
              blocks =
                  write_each (λ o xs. o < max_order → All (IsBlock t.offset o) xs) free order
                    (us ++ vs) (λ _. rw off (All-join (IsBlock s.offset order) us vs left right.1))
                    (λ o ne h. rw off (v.blocks o h));
              apart = λ a. omega (arith, covered a, v.apart a);
            };
            bitmap = bm;
            offset = off;
          },
          covered,
        )
