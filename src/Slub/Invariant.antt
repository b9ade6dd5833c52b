-- ===== src/Slub/Invariant.antt =====
-- What a cache of kernel/src/mm/slub.rs keeps true: the slabs on their pages and their free objects.
use lymad_os.Base.{
  ℕ, suc, ◌+◌, ◌-◌, ◌*◌, ◌%◌, ◌≤◌, ◌<◌, ◌≡◌, ◌≢◌, refl, ◌∙◌, ap, arith, List, [], ◌∷◌, Array, write,
  length, word,
}
use native.Mathlib.Nat.{mul-le-mul_left, mul-le-mul_right, div-mul-le_self}
use lymad_os.Bits.Mask.{align_down, align_down_lem}
use lymad_os.Memory.Invariant.{page_alignment}
use lymad_os.Slub.{
  SlabHeader, FreeObject, Memory, Slabs, page_size, header_size, object_start_offset, capacity,
  page_of,
}
use lymad_os.Slub.Chains.{
  Slab, Linked, Chained, All, EachIn, pages_count, objects_count, Linked-write,
}

-- A size that a page has room for.
pub record IsSize (size : ℕ) : Type 0 where
  pub positive : 0 < size
  pub some_room : 0 < capacity size
  pub behind_header : header_size ≤ object_start_offset size

-- The address is that of an object of the page.
pub record IsSlot (size page x : ℕ) : Type 0 where
  pub index : ℕ
  pub in_range : index < capacity size
  pub address : x ≡ page + object_start_offset size + index * size

pub record IsPage (page : ℕ) : Type 0 where
  pub aligned : page % page_size ≡ 0
  pub positive : 0 < page
  pub fits : page + page_size < word

pub record IsSlab (m : Memory) (size : ℕ) (b : Slab) : Type 0 where
  pub on_page : IsPage b.page
  pub linked : Linked m.objects (m.headers b.page).freelist b.free
  pub slots : EachIn (IsSlot size b.page) b.free
  pub once : (x : ℕ) → objects_count x b.free ≤ 1
  pub counted : (m.headers b.page).in_use + length b.free ≡ capacity size

-- `slabs` is the partial list, and `full` are the slabs without a free object.
pub record IsValid {P : Type 0} (s : Slabs P) (slabs full : List Slab) : Type 0 where
  pub size : IsSize s.cache.size
  pub chain : Chained s.memory.headers s.cache.partial slabs
  pub partial_slabs : All (IsSlab s.memory s.cache.size) slabs
  pub full_slabs : All (IsSlab s.memory s.cache.size) full
  pub unfilled : All (λ b. 0 < length b.free) slabs
  pub filled : All (λ b. b.free ≡ []) full
  pub apart : (p : ℕ) → pages_count p slabs + pages_count p full ≤ 1

-- An object lies behind the header, and in its page.
pub IsSlot-inside :
    (size page x : ℕ)
    → IsSize size
    → IsSlot size page x
    → (page + header_size ≤ x) × (x + size ≤ page + page_size)
IsSlot-inside size page x k s =
    let start = object_start_offset size in
    let last : suc s.index * size ≤ capacity size * size = mul-le-mul_right size s.in_range in
    let room = div-mul-le_self (page_size - start) size in
    let next : suc s.index * size ≡ s.index * size + size = omega arith in
    (omega (arith, k.behind_header, s.address), omega (arith, s.address, k.some_room, k.positive))

pub page_of_lem :
    (size page x : ℕ) → IsSize size → IsPage page → IsSlot size page x → page_of x ≡ page
unfolding page_of align_down
page_of_lem size page x k p s =
    let inside = IsSlot-inside size page x k s in
    let low = p.fits in
    let at = p.aligned in align_down_lem page_alignment x (omega arith) ∙ omega arith

-- The header and the objects of the slab are as before.
IsSlab-same :
    (m m' : Memory) (size : ℕ) (b : Slab)
    → m'.headers b.page ≡ m.headers b.page
    → Linked m'.objects (m.headers b.page).freelist b.free
    → IsSlab m size b
    → IsSlab m' size b
IsSlab-same m m' size b e l v = record {
  on_page = v.on_page;
  linked = rw e l;
  slots = v.slots;
  once = v.once;
  counted = rw e v.counted;
}

-- Headers of other pages are written.
pub All-write_header :
    (m : Memory) (size p : ℕ) (h : SlabHeader) (bs : List Slab)
    → pages_count p bs ≡ 0
    → All (IsSlab m size) bs
    → All (IsSlab (record { headers = write m.headers p h; objects = m.objects }) size) bs
All-write_header m size p h [] z all = tt
All-write_header m size p h (b ∷ bs) z all = (
  IsSlab-same m (record { headers = write m.headers p h; objects = m.objects }) size b
      (ground arith) all.0.linked all.0,
  All-write_header m size p h bs (ground arith) all.1,
)

-- An object of one page is none of another page's.
objects_count-elsewhere :
    (size page x : ℕ) (xs : List ℕ)
    → IsSize size
    → IsPage page
    → EachIn (IsSlot size page) xs
    → page_of x ≢ page
    → objects_count x xs ≡ 0
objects_count-elsewhere size page x [] k p e ne = refl
objects_count-elsewhere size page x (y ∷ ys) k p e ne = ground (
  arith,
  objects_count-elsewhere size page x ys k p e.1 ne,
  page_of_lem size page y k p e.0,
  λ (same : x ≡ y). ap page_of same,
)

-- A header and an object of another page are written.
pub All-write_object :
    (m : Memory) (size p x : ℕ) (h : SlabHeader) (o : FreeObject) (bs : List Slab)
    → IsSize size
    → page_of x ≡ p
    → pages_count p bs ≡ 0
    → All (IsSlab m size) bs
    → All (IsSlab (record { headers = write m.headers p h; objects = write m.objects x o }) size) bs
All-write_object m size p x h o [] k at z all = tt
All-write_object m size p x h o (b ∷ bs) k at z all =
    let other : page_of x ≢ b.page = λ e. ground arith in
    (
      IsSlab-same m (record { headers = write m.headers p h; objects = write m.objects x o }) size b
          (ground arith)
          (Linked-write m.objects (m.headers b.page).freelist b.free x o
            (objects_count-elsewhere size b.page x b.free k all.0.on_page all.0.slots other)
            all.0.linked)
          all.0,
      All-write_object m size p x h o bs k at (ground arith) all.1,
    )

-- Slabs without a free object do not mind what the objects hold.
pub All-filled :
    (m : Memory) (size p : ℕ) (h : SlabHeader) (objects : Array FreeObject) (bs : List Slab)
    → pages_count p bs ≡ 0
    → All (λ b. b.free ≡ []) bs
    → All (IsSlab m size) bs
    → All (IsSlab (record { headers = write m.headers p h; objects = objects }) size) bs
All-filled m size p h objects [] z e all = tt
All-filled m size p h objects (b ∷ bs) z e all =
    let l : Linked m.objects (m.headers b.page).freelist [] = rw e.0 at all.0.linked in
    (
      IsSlab-same m (record { headers = write m.headers p h; objects = objects }) size b
          (ground arith) (rw e.0 l) all.0,
      All-filled m size p h objects bs (ground arith) e.1 all.1,
    )

pub capacity_small : (size : ℕ) → 0 < size → capacity size < word
capacity_small size pos =
    let k = capacity size in
    let least : k * 1 ≤ k * size = mul-le-mul_left k pos in
    omega (arith, div-mul-le_self (page_size - object_start_offset size) size)

pub capacity_fits :
    (size : ℕ) → IsSize size → object_start_offset size + capacity size * size ≤ page_size
capacity_fits size k =
    let least : 1 * size ≤ capacity size * size = mul-le-mul_right size k.some_room in
    omega (arith, div-mul-le_self (page_size - object_start_offset size) size, k.positive)
