-- ===== src/Slub/Alloc.antt =====
-- `alloc` of kernel/src/mm/slub.rs against the free objects of the slabs.
use lymad_os.Base.{
  ℕ, suc, ◌≡◌, refl, ap, arith, Option, none, some, List, [], ◌∷◌, length, inl, inr, Outcome, panic,
  ok, ◌⊎◌,
}
use lymad_os.Slub.{Slabs, PageProvider, take_object, alloc_new, alloc}
use lymad_os.Slub.Chains.{Slab, pages_count, Linked-cases}
use lymad_os.Slub.Invariant.{IsPage, IsValid, capacity_small}
use lymad_os.Slub.Take.{FromSlab, take_object-FromSlab, open_after, full_after}
use lymad_os.Slub.Fresh.{FromPage, init_slab-FromPage}

-- The state with what the provider has left.
abbrev pub with_pages : {P : Type 0} → P → Slabs P → Slabs P
with_pages pages s = record s { pages = pages }

-- What the provider's answer leads to.
abbrev pub FromProvider :
    {P : Type 0}
    → Slabs P
    → List Slab
    → Outcome (Option ℕ × P)
    → Outcome (Option ℕ × Slabs P)
    → Type 0
FromProvider s full panic r = r ≡ panic
FromProvider s full (ok (none, pages)) r = r ≡ ok (none, with_pages pages s)
FromProvider {P} s full (ok (some page, pages)) r =
    (p : ℕ) × (t : Slabs P) × (slabs' : List Slab) × (full' : List Slab) × (r ≡ ok (some p, t))
    × (t.pages ≡ pages)
    × FromPage s.cache.size t page full slabs' full' p

-- What an allocation comes to: an object of a slab of the list, or, where the list is empty, the first object
-- of a page.
abbrev pub Serves :
    {P : Type 0}
    → PageProvider P
    → Slabs P
    → List Slab
    → List Slab
    → Outcome (Option ℕ × Slabs P)
    → Type 0
Serves {P} provider s slabs full r =
    ((p : ℕ) × (t : Slabs P) × (slabs' : List Slab) × (full' : List Slab) × (r ≡ ok (some p, t))
      × FromSlab s t slabs full slabs' full' p)
    ⊎ ((slabs ≡ []) × FromProvider s full (provider.alloc_page s.pages) r)

pub IsValid-with_pages :
    {P : Type 0} (s : Slabs P) (slabs full : List Slab) (pages : P)
    → IsValid s slabs full
    → IsValid (with_pages pages s) slabs full
IsValid-with_pages s slabs full pages v = record {
  size = v.size;
  chain = v.chain;
  partial_slabs = v.partial_slabs;
  full_slabs = v.full_slabs;
  unfilled = v.unfilled;
  filled = v.filled;
  apart = v.apart;
}

-- The runs of `alloc`.
module _ {P : Type 0} (provider : PageProvider P) (s : Slabs P) (depth : ℕ) where
  alloc-none : s.cache.partial ≡ none → alloc provider (suc depth) s ≡ alloc_new provider s
  unfolding alloc
  alloc-none e = ground arith

  alloc-some :
      (slab obj : ℕ)
      → s.cache.partial ≡ some slab
      → (s.memory.headers slab).freelist ≡ some obj
      → alloc provider (suc depth) s ≡ ok (some obj, take_object slab obj s)
  unfolding alloc
  alloc-some slab obj e e' = cc (e, e')

module _ {P : Type 0} (provider : PageProvider P) (s : Slabs P) (full : List Slab) where
  alloc_new-FromProvider :
      (answer : Outcome (Option ℕ × P))
      → provider.alloc_page s.pages ≡ answer
      → IsValid s [] full
      → ((page : ℕ) (pages : P)
          → answer ≡ ok (some page, pages)
          → IsPage page × (pages_count page full ≡ 0))
      → FromProvider s full answer (alloc_new provider s)
  unfolding alloc_new
  alloc_new-FromProvider panic e v fresh = rw e refl
  alloc_new-FromProvider (ok (none, pages)) e v fresh = rw e refl
  alloc_new-FromProvider (ok (some page, pages)) e v fresh =
      let (p, z) = fresh page pages refl in
      let (obj, t, slabs', full', run, kept, from) =
        init_slab-FromPage (with_pages pages s) full page (IsValid-with_pages s [] full pages v) p
          z in
      (obj, t, slabs', full', rw e run, kept, from)

  -- On a valid cache, with a provider whose pages are whole, aligned, not at 0 and not held by the cache, and
  -- with room for one call, alloc does what the free objects of the slabs say. Where the partial list has
  -- a slab, a free object of it is taken, nothing else is, and the cache stays valid. Where it has none, the
  -- provider's answer decides: a panic and the lack of a page are passed on, and of a page the first object
  -- is given, the others become free, and the cache is valid.
  pub alloc-Serves :
      (slabs : List Slab) (depth : ℕ)
      → IsValid s slabs full
      → ((page : ℕ) (pages : P)
          → provider.alloc_page s.pages ≡ ok (some page, pages)
          → IsPage page × (pages_count page full ≡ 0))
      → Serves provider s slabs full (alloc provider (suc depth) s)
  alloc-Serves [] depth v fresh =
      let got = alloc_new-FromProvider (provider.alloc_page s.pages) refl v fresh in
      inr (refl, rw (alloc-none provider s depth v.chain) got)
  alloc-Serves (b ∷ bs) depth v fresh =
      elim (Linked-cases s.memory.objects (s.memory.headers b.page).freelist b.free
        v.partial_slabs.0.linked) [
          | inl (e, none_free) ↦ absurd (ground (arith, v.unfilled.0, ap length none_free))
          | inr (x, xs, e, free) ↦ inl (
            x,
            take_object b.page x s,
            open_after b xs bs,
            full_after b xs full,
            alloc-some provider s depth b.page x v.chain.0 e,
            take_object-FromSlab s b bs full x xs v free
                (capacity_small s.cache.size v.size.positive),
          )
        ]
