-- ===== src/Slub/Take.antt =====
-- `alloc` of kernel/src/mm/slub.rs where a slab of the list has a free object.
use lymad_os.Base.{
  ℕ, ◌+◌, ◌<◌, ◌≡◌, refl, ap, sym, arith, none, some, List, [], ◌∷◌, ◌==◌, write, length, word,
  add64,
}
use lymad_os.Memory.{count_if}
use lymad_os.Slub.{SlabHeader, Memory, Slabs, capacity, take_object}
use lymad_os.Slub.Chains.{
  Slab, Linked, EachIn, pages_count, objects_count, free_count, Chained-write,
}
use lymad_os.Slub.Invariant.{IsSlot, IsSlab, IsValid, All-write_header}

-- The lists once a slab has the objects `xs` left.
abbrev pub open_after : Slab → List ℕ → List Slab → List Slab
open_after b [] bs = bs
open_after b (x ∷ xs) bs = record { page = b.page; free = x ∷ xs } ∷ bs

abbrev pub full_after : Slab → List ℕ → List Slab → List Slab
full_after b [] full = record { page = b.page; free = [] } ∷ full
full_after b (x ∷ xs) full = full

-- An object that was free is taken from a slab of the list.
pub record FromSlab {P : Type 0} (s t : Slabs P) (slabs full slabs' full' : List Slab) (p : ℕ)
    : Type 0 where
  pub valid : IsValid t slabs' full'
  pub size : t.cache.size ≡ s.cache.size
  pub pages : t.pages ≡ s.pages
  pub taken : (x : ℕ) → free_count x slabs' + count_if (x == p) ≡ free_count x slabs
  pub kept :
      (q : ℕ)
      → pages_count q slabs' + pages_count q full' ≡ pages_count q slabs + pages_count q full

-- A valid slab at the head of the list, with the object gone.
IsSlab-taken :
    (m : Memory) (size : ℕ) (b : Slab) (x : ℕ) (xs : List ℕ) (h : SlabHeader)
    → IsSlab m size b
    → b.free ≡ x ∷ xs
    → h.freelist ≡ (m.objects x).next
    → h.in_use ≡ add64 (m.headers b.page).in_use 1
    → capacity size < word
    → IsSlab
        (record { headers = write m.headers b.page h; objects = m.objects })
        size
        (record { page = b.page; free = xs })
IsSlab-taken m size b x xs h v e next more small =
    let l : Linked m.objects (m.headers b.page).freelist (x ∷ xs) = rw e at v.linked in
    let slots : EachIn (IsSlot size b.page) (x ∷ xs) = rw e at v.slots in
    let own : write m.headers b.page h b.page ≡ h = ground arith in
    record {
      on_page = v.on_page;
      linked = rw (own, next) l.1;
      slots = slots.1;
      once = λ y. ground (arith, v.once y, ap (objects_count y) e);
      counted = rw own (omega (arith, v.counted, ap length e, more));
    }

pub take_object-FromSlab :
    {P : Type 0} (s : Slabs P) (b : Slab) (bs full : List Slab) (x : ℕ) (xs : List ℕ)
    → IsValid s (b ∷ bs) full
    → b.free ≡ x ∷ xs
    → capacity s.cache.size < word
    → FromSlab s
        (take_object b.page x s)
        (b ∷ bs)
        full
        (open_after b xs bs)
        (full_after b xs full)
        x
unfolding take_object
take_object-FromSlab s b bs full x [] v e small =
    let l : Linked s.memory.objects (s.memory.headers b.page).freelist (x ∷ []) =
      rw e at v.partial_slabs.0.linked in
    let last : (s.memory.objects x).next ≡ none = l.1 in
    rw last (record {
      valid = record {
        size = v.size;
        chain =
            Chained-write s.memory.headers (s.memory.headers b.page).next_slab bs b.page _
              (ground (arith, v.apart b.page)) v.chain.1;
        partial_slabs =
            All-write_header s.memory s.cache.size b.page _ bs (ground (arith, v.apart b.page))
              v.partial_slabs.1;
        full_slabs = (
          IsSlab-taken s.memory s.cache.size b x [] _ v.partial_slabs.0 e (sym last) refl small,
          All-write_header s.memory s.cache.size b.page _ full (ground (arith, v.apart b.page))
              v.full_slabs,
        );
        unfilled = v.unfilled.1;
        filled = (refl, v.filled);
        apart = λ p. ground (arith, v.apart p);
      };
      size = refl;
      pages = refl;
      taken = λ y. ground (arith, ap (objects_count y) e);
      kept = λ q. omega arith;
    })
take_object-FromSlab s b bs full x (y ∷ ys) v e small =
    let l : Linked s.memory.objects (s.memory.headers b.page).freelist (x ∷ y ∷ ys) =
      rw e at v.partial_slabs.0.linked in
    let next : (s.memory.objects x).next ≡ some y = l.1.0 in
    let h : SlabHeader = record (s.memory.headers b.page) {
      freelist = some y;
      in_use = add64 (s.memory.headers b.page).in_use 1;
    } in
    let own : write s.memory.headers b.page h b.page ≡ h = ground arith in
    rw next (record {
      valid = record {
        size = v.size;
        chain = (
          v.chain.0,
          rw own (
              Chained-write s.memory.headers (s.memory.headers b.page).next_slab bs b.page h
                (ground (arith, v.apart b.page)) v.chain.1),
        );
        partial_slabs = (
          IsSlab-taken s.memory s.cache.size b x (y ∷ ys) _ v.partial_slabs.0 e (sym next) refl
              small,
          All-write_header s.memory s.cache.size b.page _ bs (ground (arith, v.apart b.page))
              v.partial_slabs.1,
        );
        full_slabs =
            All-write_header s.memory s.cache.size b.page _ full (ground (arith, v.apart b.page))
              v.full_slabs;
        unfilled = (omega arith, v.unfilled.1);
        filled = v.filled;
        apart = v.apart;
      };
      size = refl;
      pages = refl;
      taken = λ z. ground (arith, ap (objects_count z) e);
      kept = λ q. refl;
    })
