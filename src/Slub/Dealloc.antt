-- ===== src/Slub/Dealloc.antt =====
-- `dealloc` of kernel/src/mm/slub.rs against the free objects of the slabs.
use lymad_os.Base.{
  ℕ, ◌+◌, ◌<◌, ◌≡◌, ◌∙◌, ap, arith, none, some, List, ◌∷◌, ◌++◌, ◌==◌, length, length-append,
  Outcome, ok, ◌>>=◌, ◌⊎◌, inl, inr, Bool-cases,
}
use mathlib.Core.Path.{subst}
use lymad_os.Memory.{count_if}
use lymad_os.Slub.{
  capacity, Slabs, PageProvider, remove_slab_from_partial, put_object, page_of, dealloc,
}
use lymad_os.Slub.Chains.{Slab, Linked, pages_count, objects_count, free_count, Linked-cases}
use lymad_os.Slub.Invariant.{IsSlot, IsSlab, IsValid, page_of_lem}
use lymad_os.Slub.Alloc.{with_pages}
use lymad_os.Slub.Remove.{pages_count-append, remove_slab_from_partial_absent}
use lymad_os.Slub.Put.{
  with_object, put_object-same, put_object-header, All-append, free_count-append,
}
use lymad_os.Slub.Moves.{
  put_object-IsValid, drop_slab, put_object_full, push_slab, push_slab-IsValid,
}

-- The object has become free, in a slab that stays.
pub record Kept {P : Type 0} (s t : Slabs P) (slabs full slabs' full' : List Slab) (ptr : ℕ)
    : Type 0 where
  pub valid : IsValid t slabs' full'
  pub size : t.cache.size ≡ s.cache.size
  pub pages : t.pages ≡ s.pages
  pub freed : (x : ℕ) → free_count x slabs' ≡ free_count x slabs + count_if (x == ptr)
  pub kept :
      (q : ℕ)
      → pages_count q slabs' + pages_count q full' ≡ pages_count q slabs + pages_count q full

-- The slab had no other object in use, and is gone with its page.
pub record Dropped {P : Type 0} (s t : Slabs P) (slabs full slabs' full' : List Slab) (b : Slab)
    : Type 0 where
  pub valid : IsValid t slabs' full'
  pub size : t.cache.size ≡ s.cache.size
  pub pages : t.pages ≡ s.pages
  pub last : 1 + length b.free ≡ capacity s.cache.size
  pub gone : (x : ℕ) → free_count x slabs' + objects_count x b.free ≡ free_count x slabs
  pub dropped :
      (q : ℕ)
      → pages_count q slabs' + pages_count q full' + count_if (q == b.page)
        ≡ pages_count q slabs + pages_count q full

-- The runs of `dealloc`.
module _ {P : Type 0} (provider : PageProvider P) (n ptr page : ℕ) (s : Slabs P)
    (at : page_of ptr ≡ page) where
  dealloc-kept :
      (x : ℕ)
      → 0 < ((put_object page ptr s).memory.headers page).in_use
      → ((put_object page ptr s).memory.objects ptr).next ≡ some x
      → dealloc provider n ptr s ≡ ok (put_object page ptr s)
  unfolding dealloc
  dealloc-kept x used e = rw at (ground arith)

  dealloc-pushed :
      0 < ((put_object page ptr s).memory.headers page).in_use
      → ((put_object page ptr s).memory.objects ptr).next ≡ none
      → dealloc provider n ptr s ≡ ok (push_slab page (put_object page ptr s))
  unfolding dealloc
  dealloc-pushed used e = rw at (ground arith)

  dealloc-dropped :
      (t : Slabs P)
      → ((put_object page ptr s).memory.headers page).in_use ≡ 0
      → remove_slab_from_partial n page (put_object page ptr s) ≡ some t
      → dealloc provider n ptr s
        ≡ (provider.free_page t.pages page >>= λ pages. ok (with_pages pages t))
  unfolding dealloc
  dealloc-dropped t used e = rw at (ground arith)

-- What a free comes to.
abbrev pub Frees :
    {P : Type 0}
    → PageProvider P
    → Slabs P
    → List Slab
    → List Slab
    → Slab
    → (ptr : ℕ) → Outcome (Slabs P)
    → Type 0
Frees {P} provider s slabs full b ptr r =
    ((t : Slabs P) × (slabs' : List Slab) × (full' : List Slab) × (r ≡ ok t)
      × Kept s t slabs full slabs' full' ptr)
    ⊎ ((t : Slabs P) × (slabs' : List Slab) × (full' : List Slab) × (r
          ≡ (provider.free_page s.pages b.page >>= λ pages. ok (with_pages pages t)))
        × Dropped s t slabs full slabs' full' b)

module _ {P : Type 0} (provider : PageProvider P) (n ptr : ℕ) (s : Slabs P) (b : Slab)
    (us vs : List Slab) where
  -- The slab is on the partial list.
  dealloc_partial :
      (full : List Slab)
      → IsValid s (us ++ b ∷ vs) full
      → IsSlot s.cache.size b.page ptr
      → objects_count ptr b.free ≡ 0
      → length (us ++ b ∷ vs) < n
      → Frees provider s (us ++ b ∷ vs) full b ptr (dealloc provider n ptr s)
  dealloc_partial full v at z h =
      let t = put_object b.page ptr s in
      let right = (All-append (IsSlab s.memory s.cache.size) us (b ∷ vs) v.partial_slabs).1 in
      let some_free = (All-append (λ c. 0 < length c.free) us (b ∷ vs) v.unfilled).1.0 in
      let page = page_of_lem s.cache.size b.page ptr v.size right.0.on_page at in
      let (first, used, next) = put_object-header s b ptr v.size right.0 at z in
      let v' = put_object-IsValid s ptr b us vs full v at z in
      let (same, same_pages) = put_object-same s b ptr in
      elim (Bool-cases ((t.memory.headers b.page).in_use == 0)) [
        | inl zeroed ↦
            let (u, run, r, v'') =
              drop_slab n t (with_object ptr b) us vs full
                (omega
                  (arith, length-append us (b ∷ vs), length-append us (with_object ptr b ∷ vs)))
                v' in
            let pages : u.pages ≡ s.pages = r.pages ∙ same_pages in
            inr (
              u,
              us ++ vs,
              full,
              dealloc-dropped provider n ptr b.page s page u (ground arith) run
                  ∙ ap (λ (ps : P). provider.free_page ps b.page >>= λ left. ok (with_pages left u))
                      pages,
              record {
                valid = v'';
                size = r.size ∙ same;
                pages = pages;
                last = ground (arith, used, right.0.counted);
                gone =
                    λ x. omega (arith, free_count-append x us (b ∷ vs), free_count-append x us vs);
                dropped = λ q.
                    omega (arith, pages_count-append q us (b ∷ vs), pages_count-append q us vs);
              },
            )
        | inr in_use ↦
            elim (Linked-cases s.memory.objects (s.memory.headers b.page).freelist b.free
              right.0.linked) [
                | inl (e, none_free) ↦ absurd (omega (arith, some_free, ap length none_free))
                | inr (x, xs, e, free) ↦ inl (
                  t,
                  us ++ with_object ptr b ∷ vs,
                  full,
                  dealloc-kept provider n ptr b.page s page x (ground arith) (next ∙ e),
                  record {
                    valid = v';
                    size = same;
                    pages = same_pages;
                    freed = λ y. omega (
                      arith,
                      free_count-append y us (b ∷ vs),
                      free_count-append y us (with_object ptr b ∷ vs),
                    );
                    kept = λ q. omega (
                      arith,
                      pages_count-append q us (b ∷ vs),
                      pages_count-append q us (with_object ptr b ∷ vs),
                    );
                  },
                )
              ]
      ]

  -- The slab is full.
  dealloc_full :
      (slabs : List Slab)
      → IsValid s slabs (us ++ b ∷ vs)
      → IsSlot s.cache.size b.page ptr
      → length slabs < n
      → Frees provider s slabs (us ++ b ∷ vs) b ptr (dealloc provider n ptr s)
  dealloc_full slabs v at h =
      let t = put_object b.page ptr s in
      let c = with_object ptr b in
      let right = (All-append (IsSlab s.memory s.cache.size) us (b ∷ vs) v.full_slabs).1 in
      let page = page_of_lem s.cache.size b.page ptr v.size right.0.on_page at in
      let (v', k, none_free, away) = put_object_full s ptr b slabs us vs v at in
      let z : objects_count ptr b.free ≡ 0 = ap (objects_count ptr) none_free in
      let (first, used, next) = put_object-header s b ptr v.size right.0 at z in
      let (same, same_pages) = put_object-same s b ptr in
      let last : (s.memory.headers b.page).freelist ≡ none =
        subst (Linked s.memory.objects (s.memory.headers b.page).freelist) none_free
          right.0.linked in
      elim (Bool-cases ((t.memory.headers b.page).in_use == 0)) [
        | inl zeroed ↦
            let run = remove_slab_from_partial_absent n t b.page slabs h v'.chain away in
            inr (
              t,
              slabs,
              us ++ vs,
              dealloc-dropped provider n ptr b.page s page t (ground arith) run
                  ∙ ap (λ (ps : P). provider.free_page ps b.page >>= λ left. ok (with_pages left t))
                      same_pages,
              record {
                valid = v';
                size = same;
                pages = same_pages;
                last = ground (arith, used, right.0.counted);
                gone = λ x. omega (arith, ap (objects_count x) none_free);
                dropped = λ q.
                    omega (arith, pages_count-append q us (b ∷ vs), pages_count-append q us vs);
              },
            )
        | inr in_use ↦ inl (
          push_slab b.page t,
          c ∷ slabs,
          us ++ vs,
          dealloc-pushed provider n ptr b.page s page (ground arith) (next ∙ last),
          record {
            valid = push_slab-IsValid t c slabs (us ++ vs) v' (rw same k) (omega arith) (λ q.
                omega
                  (arith, v.apart q, pages_count-append q us (b ∷ vs), pages_count-append q us vs));
            size = same;
            pages = same_pages;
            freed = λ x. omega (arith, ap (objects_count x) none_free);
            kept = λ q. omega (arith, pages_count-append q us (b ∷ vs), pages_count-append q us vs);
          },
        )
      ]

  -- An object of a slab of a valid cache that is not free, on the partial list or full, is given back, and the
  -- list has fewer slabs than the loop has rounds. Either the slab stays: the cache stays valid, and just that
  -- object has become free. Or it was the slab's last object in use: the slab leaves the lists, which stay
  -- valid, its free objects are gone with it, and the page goes to the provider, whose answer decides
  -- whether the free panics.
  pub dealloc-Frees :
      (slabs full : List Slab)
      → IsValid s slabs full
      → (slabs ≡ us ++ b ∷ vs) ⊎ (full ≡ us ++ b ∷ vs)
      → IsSlot s.cache.size b.page ptr
      → objects_count ptr b.free ≡ 0
      → length slabs < n
      → Frees provider s slabs full b ptr (dealloc provider n ptr s)
  dealloc-Frees slabs full v (inl e) at z h =
      rw e (dealloc_partial full (rw e at v) at z (omega (arith, ap length e)))
  dealloc-Frees slabs full v (inr e) at z h = rw e (dealloc_full slabs (rw e at v) at h)
