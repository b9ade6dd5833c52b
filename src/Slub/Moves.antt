-- ===== src/Slub/Moves.antt =====
-- The steps of `dealloc` of kernel/src/mm/slub.rs on the lists of slabs.
use lymad_os.Base.{
  ℕ, ◌+◌, ◌≤◌, ◌<◌, ◌≡◌, refl, ap, arith, some, List, [], ◌∷◌, ◌++◌, ◌==◌, write, length,
}
use lymad_os.Memory.{count_if}
use lymad_os.Slub.{
  SlabHeader, Slabs, non_null, set_partial, set_header, remove_slab_from_partial, put_object,
}
use lymad_os.Slub.Chains.{Slab, pages_count, objects_count, Chained-write}
use lymad_os.Slub.Invariant.{IsSlot, IsSlab, IsValid, page_of_lem, All-write_object}
use lymad_os.Slub.Remove.{Relinked, pages_count-append, remove_slab_from_partial_split}
use lymad_os.Slub.Put.{
  with_object, put_object-IsSlab, Chained-replace, All-Relinked, All-append, All-join,
}

-- The other slabs are on other pages.
pub others :
    (b : Slab) (us vs bs : List Slab)
    → ((q : ℕ) → pages_count q (us ++ b ∷ vs) + pages_count q bs ≤ 1)
    → (pages_count b.page us ≡ 0) × (pages_count b.page vs ≡ 0) × (pages_count b.page bs ≡ 0)
others b us vs bs apart =
    let one = apart b.page in
    let split = pages_count-append b.page us (b ∷ vs) in (ground arith, ground arith, ground arith)

-- A slab of the partial list gets an object back.
pub put_object-IsValid :
    {P : Type 0} (s : Slabs P) (ptr : ℕ) (b : Slab) (us vs full : List Slab)
    → IsValid s (us ++ b ∷ vs) full
    → IsSlot s.cache.size b.page ptr
    → objects_count ptr b.free ≡ 0
    → IsValid (put_object b.page ptr s) (us ++ with_object ptr b ∷ vs) full
unfolding put_object
put_object-IsValid s ptr b us vs full v at z =
    let size = s.cache.size in
    let (away, away', away'') = others b us vs full v.apart in
    let (left, right) = All-append (IsSlab s.memory size) us (b ∷ vs) v.partial_slabs in
    let (left', right') = All-append (λ c. 0 < length c.free) us (b ∷ vs) v.unfilled in
    let page = page_of_lem size b.page ptr v.size right.0.on_page at in
    record {
      size = v.size;
      chain =
          Chained-replace s.memory.headers (put_object b.page ptr s).memory.headers s.cache.partial
            us b (with_object ptr b) vs (λ q. ground arith) refl v.chain;
      partial_slabs =
          All-join (IsSlab (put_object b.page ptr s).memory size) us (with_object ptr b ∷ vs)
            (All-write_object s.memory size b.page ptr _ _ us v.size page away left)
            (
              put_object-IsSlab s b ptr v.size right.0 at z,
              All-write_object s.memory size b.page ptr _ _ vs v.size page away' right.1,
            );
      full_slabs =
          All-write_object s.memory size b.page ptr _ _ full v.size page away'' v.full_slabs;
      unfilled =
          All-join (λ c. 0 < length c.free) us (with_object ptr b ∷ vs) left'
            (omega arith, right'.1);
      filled = v.filled;
      apart = λ q. omega (
        arith,
        v.apart q,
        pages_count-append q us (b ∷ vs),
        pages_count-append q us (with_object ptr b ∷ vs),
      );
    }

-- A slab is taken off the partial list.
pub drop_slab :
    {P : Type 0} (n : ℕ) (s : Slabs P) (b : Slab) (us vs full : List Slab)
    → length (us ++ b ∷ vs) < n
    → IsValid s (us ++ b ∷ vs) full
    → (t : Slabs P) × (remove_slab_from_partial n b.page s ≡ some t)
      × Relinked s t
      × IsValid t (us ++ vs) full
drop_slab n s b us vs full h v =
    let (t, run, r, chain) =
      remove_slab_from_partial_split n s b us vs h v.chain (λ q. omega (arith, v.apart q)) in
    let (left, right) = All-append (IsSlab s.memory s.cache.size) us (b ∷ vs) v.partial_slabs in
    let (left', right') = All-append (λ c. 0 < length c.free) us (b ∷ vs) v.unfilled in
    let slabs =
      All-Relinked s t s.cache.size (us ++ vs) r
        (All-join (IsSlab s.memory s.cache.size) us vs left right.1) in
    let fulls = All-Relinked s t s.cache.size full r v.full_slabs in
    (
      t,
      run,
      r,
      record {
        size = rw r.size v.size;
        chain = chain;
        partial_slabs = rw r.size slabs;
        full_slabs = rw r.size fulls;
        unfilled = All-join (λ c. 0 < length c.free) us vs left' right'.1;
        filled = v.filled;
        apart = λ q.
            omega (arith, v.apart q, pages_count-append q us (b ∷ vs), pages_count-append q us vs);
      },
    )

-- A full slab has got an object back, and is not yet on a list.
pub put_object_full :
    {P : Type 0} (s : Slabs P) (ptr : ℕ) (b : Slab) (slabs us vs : List Slab)
    → IsValid s slabs (us ++ b ∷ vs)
    → IsSlot s.cache.size b.page ptr
    → let t = put_object b.page ptr s in
      IsValid t slabs (us ++ vs)
      × IsSlab t.memory s.cache.size (with_object ptr b)
      × (b.free ≡ [])
      × (pages_count b.page slabs ≡ 0)
unfolding put_object
put_object_full s ptr b slabs us vs v at =
    let size = s.cache.size in
    let (away, away', away'') = others b us vs slabs (λ q. omega (arith, v.apart q)) in
    let (left, right) = All-append (IsSlab s.memory size) us (b ∷ vs) v.full_slabs in
    let (left', right') = All-append (λ c. c.free ≡ []) us (b ∷ vs) v.filled in
    let page = page_of_lem size b.page ptr v.size right.0.on_page at in
    let t = put_object b.page ptr s in
    let none_free : b.free ≡ [] = right'.0 in
    (
      record {
        size = v.size;
        chain = Chained-write s.memory.headers s.cache.partial slabs b.page _ away'' v.chain;
        partial_slabs =
            All-write_object s.memory size b.page ptr _ _ slabs v.size page away'' v.partial_slabs;
        full_slabs =
            All-join (IsSlab t.memory size) us vs
              (All-write_object s.memory size b.page ptr _ _ us v.size page away left)
              (All-write_object s.memory size b.page ptr _ _ vs v.size page away' right.1);
        unfilled = v.unfilled;
        filled = All-join (λ c. c.free ≡ []) us vs left' right'.1;
        apart = λ q.
            omega (arith, v.apart q, pages_count-append q us (b ∷ vs), pages_count-append q us vs);
      },
      put_object-IsSlab s b ptr v.size right.0 at (ap (objects_count ptr) none_free),
      none_free,
      away'',
    )

-- The slab goes to the head of the partial list.
abbrev pub push_slab : {P : Type 0} → ℕ → Slabs P → Slabs P
push_slab page t =
    set_partial (non_null page)
      (set_header page (record (t.memory.headers page) { next_slab = t.cache.partial }) t)

pub push_slab-IsValid :
    {P : Type 0} (t : Slabs P) (c : Slab) (slabs full : List Slab)
    → IsValid t slabs full
    → IsSlab t.memory t.cache.size c
    → 0 < length c.free
    → ((q : ℕ) → count_if (q == c.page) + (pages_count q slabs + pages_count q full) ≤ 1)
    → IsValid (push_slab c.page t) (c ∷ slabs) full
push_slab-IsValid t c slabs full v k pos apart =
    let h : SlabHeader = record (t.memory.headers c.page) { next_slab = t.cache.partial } in
    let own : write t.memory.headers c.page h c.page ≡ h = ground arith in
    let some_page : non_null c.page ≡ some c.page = ground (arith, k.on_page.positive) in
    let away : pages_count c.page slabs ≡ 0 = ground (arith, apart c.page) in
    let away' : pages_count c.page full ≡ 0 = ground (arith, apart c.page) in
    let r : Relinked t (push_slab c.page t) = record {
      size = refl;
      pages = refl;
      objects = refl;
      freelist = λ q. ground arith;
      in_use = λ q. ground arith;
    } in
    record {
      size = v.size;
      chain = (
        some_page,
        rw own (Chained-write t.memory.headers t.cache.partial slabs c.page h away v.chain),
      );
      partial_slabs =
          All-Relinked t (push_slab c.page t) t.cache.size (c ∷ slabs) r (k, v.partial_slabs);
      full_slabs = All-Relinked t (push_slab c.page t) t.cache.size full r v.full_slabs;
      unfilled = (pos, v.unfilled);
      filled = v.filled;
      apart = λ q. omega (arith, apart q);
    }
