-- ===== src/Slub.antt =====
-- kernel/src/mm/slub.rs: caches of objects of one size, on pages that a provider hands out.
--
-- A page starts with a `SlabHeader`, and a free object holds the address of the next. `headers` is what
-- stands at an address, read as a header, and `objects` what stands there, read as a free object. The
-- provider is any implementation of the trait, over a state of its own.
pub mod Chains
pub mod Invariant
pub mod Take
pub mod Fresh
pub mod Alloc
pub mod Remove
pub mod Room
pub mod Put
pub mod Moves
pub mod Dealloc
mod Tests
use lymad_os.Base.{
  ℕ, zero, suc, ◌+◌, ◌-◌, ◌*◌, ◌/◌, ◌%◌, ◌^◌, bit_and, Bool, ◌&&◌, true, false, not, Option, none,
  some, ltb, leb, ◌==◌, if◌then◌else◌, add64, sub64, mul64, not64, Outcome, panic, ok, ◌>>=◌, Array,
  write,
}

abbrev pub page_size : ℕ
page_size = 4096

pub record PageProvider (P : Type 0) : Type 0 where
  pub alloc_page : P → Outcome (Option ℕ × P)
  pub free_page : P → ℕ → Outcome P

pub record SlabHeader : Type 0 where
  pub next_slab : Option ℕ
  pub freelist : Option ℕ
  pub in_use : ℕ

-- `mem::size_of::<SlabHeader>()`: three words.
abbrev pub header_size : ℕ
header_size = 24

pub record FreeObject : Type 0 where
  pub next : Option ℕ

pub record SCache : Type 0 where
  pub partial : Option ℕ
  pub size : ℕ

pub record Memory : Type 0 where
  pub headers : Array SlabHeader
  pub objects : Array FreeObject

-- A cache with the memory and the provider that its operations are given.
pub record Slabs (P : Type 0) : Type 0 where
  pub cache : SCache
  pub memory : Memory
  pub pages : P

abbrev pub new : ℕ → SCache
new size = record { partial = none; size = size }

-- `NonNull::new`
abbrev pub non_null : ℕ → Option ℕ
non_null ptr = if ptr == 0 then none else some ptr

-- `usize::is_power_of_two`
abbrev pub is_power_of_two : ℕ → Bool
is_power_of_two n = not (n == 0) && (bit_and n (n - 1) == 0)

unfoldable pub object_start_offset : ℕ → ℕ
object_start_offset size =
    let align_mask = if is_power_of_two size then size - 1 else 7 in
    bit_and (add64 header_size align_mask) (not64 align_mask)

abbrev pub capacity : ℕ → ℕ
capacity size = (page_size - object_start_offset size) / size

-- The loop that links the objects, from the last, at index `n - 1`, down to the first.
pub link_objects :
    (object_start size n : ℕ) → Option ℕ → Array FreeObject → Option ℕ × Array FreeObject
link_objects object_start size zero next_ptr objects = (next_ptr, objects)
link_objects object_start size (suc i) next_ptr objects =
    let ptr = add64 object_start (mul64 i size) in
    link_objects object_start size i (non_null ptr) (write objects ptr (record { next = next_ptr }))

abbrev pub is_some : Option ℕ → Bool
is_some none = false
is_some (some x) = true

-- `self.partial = partial`
abbrev pub set_partial : {P : Type 0} → Option ℕ → Slabs P → Slabs P
set_partial partial s = record s { cache = record { partial = partial; size = s.cache.size } }

-- A header is written.
abbrev pub set_header : {P : Type 0} → ℕ → SlabHeader → Slabs P → Slabs P
set_header slab header s = record s {
  memory = record { headers = write s.memory.headers slab header; objects = s.memory.objects };
}

-- The first object is taken from the free list of the slab, the first of the partial list.
pub take_object : {P : Type 0} → ℕ → ℕ → Slabs P → Slabs P
take_object slab obj s =
    let header = s.memory.headers slab in
    let freelist = (s.memory.objects obj).next in
    let taken = record header { freelist = freelist; in_use = add64 header.in_use 1 } in
    if is_some freelist
    then set_header slab taken s
    else set_partial header.next_slab (set_header slab (record taken { next_slab = none }) s)

-- The page becomes a slab, and its first object is taken.
pub init_slab : {P : Type 0} → ℕ → Slabs P → Outcome (Option ℕ × Slabs P)
init_slab page_ptr s =
    let size = s.cache.size in
    let start = object_start_offset size in
    let (next_ptr, objects) =
      link_objects (add64 page_ptr start) size (capacity size) none s.memory.objects in
    let linked = record s { memory = record { headers = s.memory.headers; objects = objects } } in
    if leb page_size start
    then ok (none, s)
    else (if size == 0
        then panic
        else (if capacity size == 0 then ok (none, s) else (elim next_ptr [
          | none ↦ panic
          | some obj ↦
              let freelist = (objects obj).next in
              let slab : SlabHeader = record {
                next_slab = none;
                freelist = freelist;
                in_use = 1;
              } in
              ok (
                some obj,
                if is_some freelist
                    then set_partial (non_null page_ptr)
                        (set_header page_ptr (record slab { next_slab = s.cache.partial }) linked)
                    else set_header page_ptr slab linked,
              )
        ])))

module _ {P : Type 0} (provider : PageProvider P) where
  pub alloc_new : Slabs P → Outcome (Option ℕ × Slabs P)
  alloc_new s = provider.alloc_page s.pages >>= λ (page, pages). elim page [
    | none ↦ ok (none, record s { pages = pages })
    | some page_ptr ↦ init_slab page_ptr (record s { pages = pages })
  ]

  -- A slab without a free object is dropped from the list, and `alloc` calls itself: `depth` calls fit
  -- the stack.
  pub alloc : (depth : ℕ) → Slabs P → Outcome (Option ℕ × Slabs P)
  alloc zero s = panic
  alloc (suc depth) s = elim s.cache.partial [
    | none ↦ alloc_new s
    | some slab ↦ elim (s.memory.headers slab).freelist [
      | some obj ↦ ok (some obj, take_object slab obj s)
      | none ↦ alloc depth (set_partial (s.memory.headers slab).next_slab s)
    ]
  ]

-- The link that the loop stands at: that of a slab, or the head of the list.
abbrev pub read_link : {P : Type 0} → Option ℕ → Slabs P → Option ℕ
read_link none s = s.cache.partial
read_link (some slab) s = (s.memory.headers slab).next_slab

abbrev pub write_link : {P : Type 0} → Option ℕ → Option ℕ → Slabs P → Slabs P
write_link none next s = set_partial next s
write_link (some slab) next s =
    set_header slab (record (s.memory.headers slab) { next_slab = next }) s

-- The loop, over at most `n` links.
pub remove_from : {P : Type 0} → ℕ → Option ℕ → ℕ → Slabs P → Option (Slabs P)
remove_from zero cur slab_ptr s = none
remove_from (suc n) cur slab_ptr s = elim (read_link cur s) [
  | none ↦ some s
  | some node ↦
      let rest = remove_from n (some node) slab_ptr s in
      if node == slab_ptr then some (write_link cur (s.memory.headers node).next_slab s) else rest
]

-- `none` if the list has more than `n` slabs before the one to remove.
pub remove_slab_from_partial : {P : Type 0} → ℕ → ℕ → Slabs P → Option (Slabs P)
remove_slab_from_partial n slab_ptr s = remove_from n none slab_ptr s

-- The object is put in front of the free list of its slab.
pub put_object : {P : Type 0} → ℕ → ℕ → Slabs P → Slabs P
put_object slab ptr s =
    let header = s.memory.headers slab in
    let freed = record header { freelist = non_null ptr; in_use = sub64 header.in_use 1 } in
    record s {
      memory = record {
        headers = write s.memory.headers slab freed;
        objects = write s.memory.objects ptr (record { next = header.freelist });
      };
    }

-- The page of an object.
pub page_of : ℕ → ℕ
page_of ptr = bit_and ptr (not64 (page_size - 1))

-- `length` bounds the partial list: a longer one is a `panic` of the model.
pub dealloc : {P : Type 0} → PageProvider P → (length : ℕ) → ℕ → Slabs P → Outcome (Slabs P)
dealloc provider length ptr s =
    let page_ptr = page_of ptr in
    let freed = put_object page_ptr ptr s in
    let header = freed.memory.headers page_ptr in
    if header.in_use == 0
    then elim (remove_slab_from_partial length page_ptr freed) [
      | none ↦ panic
      | some t ↦ provider.free_page t.pages page_ptr >>= λ pages. ok (record t { pages = pages })
    ]
    else ok (
        if is_some (freed.memory.objects ptr).next
        then freed
        else set_partial (non_null page_ptr)
            (set_header page_ptr (record header { next_slab = freed.cache.partial }) freed))
