-- ===== src/Slub/Remove.antt =====
-- `remove_slab_from_partial` of kernel/src/mm/slub.rs.
use lymad_os.Base.{
  ℕ, zero, suc, ◌+◌, ◌≤◌, ◌<◌, ◌≡◌, ◌≢◌, refl, ◌∙◌, ap, arith, Option, none, some, List, [], ◌∷◌,
  ◌++◌, ◌==◌, write, length, length-append, ◌⊎◌, Bool-cases, inl, inr,
}
use mathlib.Core.Path.{subst}
use lymad_os.Memory.{count_if}
use lymad_os.Slub.{SlabHeader, Slabs, read_link, write_link, remove_from, remove_slab_from_partial}
use lymad_os.Slub.Chains.{Slab, Chained, pages_count, Chained-write}

-- 1 if the link is that of the slab at the page.
abbrev link_count : ℕ → Option ℕ → ℕ
link_count q none = 0
link_count q (some c) = count_if (q == c)

pub pages_count-append :
    (q : ℕ) (us vs : List Slab) → pages_count q (us ++ vs) ≡ pages_count q us + pages_count q vs
pages_count-append q [] vs = omega arith
pages_count-append q (u ∷ us) vs = omega (arith, pages_count-append q us vs)

-- Only links have changed.
pub record Relinked {P : Type 0} (s t : Slabs P) : Type 0 where
  pub size : t.cache.size ≡ s.cache.size
  pub pages : t.pages ≡ s.pages
  pub objects : t.memory.objects ≡ s.memory.objects
  pub freelist : (q : ℕ) → (t.memory.headers q).freelist ≡ (s.memory.headers q).freelist
  pub in_use : (q : ℕ) → (t.memory.headers q).in_use ≡ (s.memory.headers q).in_use

pub Relinked-refl : {P : Type 0} (s : Slabs P) → Relinked s s
Relinked-refl s = record {
  size = refl;
  pages = refl;
  objects = refl;
  freelist = λ q. refl;
  in_use = λ q. refl;
}

write_link-Relinked :
    {P : Type 0} (cur next : Option ℕ) (s : Slabs P) → Relinked s (write_link cur next s)
write_link-Relinked none next s = record {
  size = refl;
  pages = refl;
  objects = refl;
  freelist = λ q. refl;
  in_use = λ q. refl;
}
write_link-Relinked (some slab) next s = record {
  size = refl;
  pages = refl;
  objects = refl;
  freelist = λ q. ground arith;
  in_use = λ q. ground arith;
}

-- The loop from the link `cur` on took the slab out of the list that starts there.
record Unlinked {P : Type 0} (cur : Option ℕ) (s t : Slabs P) (us vs : List Slab) : Type 0 where
  pub relinked : Relinked s t
  pub chain : Chained t.memory.headers (read_link cur t) (us ++ vs)
  pub elsewhere :
      (q : ℕ) → link_count q cur + pages_count q us ≡ 0 → t.memory.headers q ≡ s.memory.headers q
  pub head : cur ≢ none → t.cache.partial ≡ s.cache.partial

unlink_here :
    {P : Type 0} (cur : Option ℕ) (s : Slabs P) (b : Slab) (vs : List Slab)
    → Chained s.memory.headers (s.memory.headers b.page).next_slab vs
    → ((q : ℕ) → link_count q cur + pages_count q vs ≤ 1)
    → Unlinked cur s (write_link cur (s.memory.headers b.page).next_slab s) [] vs
unlink_here none s b vs c apart = record {
  relinked = write_link-Relinked none (s.memory.headers b.page).next_slab s;
  chain = c;
  elsewhere = λ q z. refl;
  head = λ ne. absurd (ne refl);
}
unlink_here (some slab) s b vs c apart =
    let next = (s.memory.headers b.page).next_slab in
    let h : SlabHeader = record (s.memory.headers slab) { next_slab = next } in
    let own : write s.memory.headers slab h slab ≡ h = ground arith in
    record {
      relinked = write_link-Relinked (some slab) next s;
      chain =
          rw (read_link, own)
            (Chained-write s.memory.headers next vs slab h (ground (arith, apart slab)) c);
      elsewhere = λ q z. ground arith;
      head = λ ne. refl;
    }

unlink_later :
    {P : Type 0} (cur : Option ℕ) (s t : Slabs P) (u : Slab) (us vs : List Slab)
    → read_link cur s ≡ some u.page
    → ((q : ℕ) → link_count q cur + (pages_count q (u ∷ us) + pages_count q vs) ≤ 1)
    → Unlinked (some u.page) s t us vs
    → Unlinked cur s t (u ∷ us) vs
unlink_later none s t u us vs e apart k = record {
  relinked = k.relinked;
  chain = (k.head (λ e'. ground arith) ∙ e, k.chain);
  elsewhere = λ q z. k.elsewhere q (omega arith);
  head = λ ne. absurd (ne refl);
}
unlink_later (some slab) s t u us vs e apart k = record {
  relinked = k.relinked;
  chain = (
    ap (λ (h : SlabHeader). h.next_slab) (k.elsewhere slab (ground (arith, apart slab))) ∙ e,
    k.chain,
  );
  elsewhere = λ q z. k.elsewhere q (omega arith);
  head = λ ne. k.head (λ e'. ground arith);
}

-- The runs of the loop.
module _ {P : Type 0} (n : ℕ) (cur : Option ℕ) (slab : ℕ) (s : Slabs P) where
  remove_from-end : read_link cur s ≡ none → remove_from (suc n) cur slab s ≡ some s
  unfolding remove_from
  remove_from-end e = ground arith

  remove_from-here :
      read_link cur s ≡ some slab
      → remove_from (suc n) cur slab s ≡ some (write_link cur (s.memory.headers slab).next_slab s)
  unfolding remove_from
  remove_from-here e = ground arith

  remove_from-later :
      (node : ℕ)
      → read_link cur s ≡ some node
      → node ≢ slab
      → remove_from (suc n) cur slab s ≡ remove_from n (some node) slab s
  unfolding remove_from
  remove_from-later node e ne = ground arith

remove_from-Unlinked :
    {P : Type 0} (n : ℕ) (cur : Option ℕ) (s : Slabs P) (b : Slab) (us vs : List Slab)
    → length us < n
    → Chained s.memory.headers (read_link cur s) (us ++ b ∷ vs)
    → ((q : ℕ) → link_count q cur + pages_count q (us ++ b ∷ vs) ≤ 1)
    → (t : Slabs P) × (remove_from n cur b.page s ≡ some t) × Unlinked cur s t us vs
remove_from-Unlinked zero cur s b us vs h c apart = elim h [ ]
remove_from-Unlinked (suc n) cur s b [] vs h c apart = (
  write_link cur (s.memory.headers b.page).next_slab s,
  remove_from-here n cur b.page s c.0,
  unlink_here cur s b vs c.1 (λ q. ground (arith, apart q)),
)
remove_from-Unlinked (suc n) cur s b (u ∷ us) vs h c apart =
    let (t, run, k) =
      remove_from-Unlinked n (some u.page) s b us vs (omega arith) c.1
        (λ q. omega (arith, apart q)) in
    let ne : u.page ≢ b.page =
      λ e. ground (arith, apart u.page, pages_count-append u.page us (b ∷ vs)) in
    (
      t,
      remove_from-later n cur b.page s u.page c.0 ne ∙ run,
      unlink_later cur s t u us vs c.0
          (λ q. ground (arith, apart q, pages_count-append q us (b ∷ vs))) k,
    )

-- The loop of a slab that is not in the list.
remove_from-absent :
    {P : Type 0} (n : ℕ) (cur : Option ℕ) (s : Slabs P) (slab : ℕ) (bs : List Slab)
    → length bs < n
    → Chained s.memory.headers (read_link cur s) bs
    → pages_count slab bs ≡ 0
    → remove_from n cur slab s ≡ some s
remove_from-absent zero cur s slab bs h c z = elim h [ ]
remove_from-absent (suc n) cur s slab [] h c z = remove_from-end n cur slab s c
remove_from-absent (suc n) cur s slab (b ∷ bs) h c z =
    remove_from-later n cur slab s b.page c.0 (λ e. ground arith)
    ∙ remove_from-absent n (some b.page) s slab bs (omega arith) c.1 (ground arith)

-- The slab is on the list.
pub remove_slab_from_partial_split :
    {P : Type 0} (n : ℕ) (s : Slabs P) (b : Slab) (us vs : List Slab)
    → length (us ++ b ∷ vs) < n
    → Chained s.memory.headers s.cache.partial (us ++ b ∷ vs)
    → ((q : ℕ) → pages_count q (us ++ b ∷ vs) ≤ 1)
    → (t : Slabs P) × (remove_slab_from_partial n b.page s ≡ some t)
      × Relinked s t
      × Chained t.memory.headers t.cache.partial (us ++ vs)
unfolding remove_slab_from_partial
remove_slab_from_partial_split n s b us vs h c apart =
    let (t, run, k) =
      remove_from-Unlinked n none s b us vs (omega (arith, length-append us (b ∷ vs))) c
        (λ q. omega (arith, apart q)) in
    (t, run, k.relinked, k.chain)

pub remove_slab_from_partial_absent :
    {P : Type 0} (n : ℕ) (s : Slabs P) (slab : ℕ) (bs : List Slab)
    → length bs < n
    → Chained s.memory.headers s.cache.partial bs
    → pages_count slab bs ≡ 0
    → remove_slab_from_partial n slab s ≡ some s
unfolding remove_slab_from_partial
remove_slab_from_partial_absent n s slab bs = remove_from-absent n none s slab bs

find_page :
    (slab : ℕ) (bs : List Slab)
    → (pages_count slab bs ≡ 0)
      ⊎ ((us : List Slab) × (b : Slab) × (vs : List Slab) × (bs ≡ us ++ b ∷ vs) × (b.page ≡ slab))
find_page slab [] = inl refl
find_page slab (b ∷ bs) = elim (Bool-cases (slab == b.page)) [
  | inl at ↦ inr ([], b, bs, refl, ground arith)
  | inr ne ↦ elim (find_page slab bs) [
    | inl none_later ↦ inl (ground arith)
    | inr (us, c, vs, e, at) ↦ inr (b ∷ us, c, vs, ap (λ l. b ∷ l) e, at)
  ]
]

-- The list without the slab, and the state that has it.
pub record Removed {P : Type 0} (n slab : ℕ) (s : Slabs P) (bs : List Slab) : Type 0 where
  pub before : List Slab
  pub found : Slab
  pub after : List Slab
  pub split : bs ≡ before ++ found ∷ after
  pub page : found.page ≡ slab
  pub state : Slabs P
  pub run : remove_slab_from_partial n slab s ≡ some state
  pub relinked : Relinked s state
  pub chain : Chained state.memory.headers state.cache.partial (before ++ after)

-- On a partial list of slabs on different pages, of fewer slabs than the bound on the rounds, the loop ends.
-- Either the slab is not in the list, and nothing changes, or it is taken out, wherever it stands: the others
-- stay in order, and nothing but links changes.
pub remove_slab_from_partial-Removed :
    {P : Type 0} (n slab : ℕ) (s : Slabs P) (bs : List Slab)
    → length bs < n
    → Chained s.memory.headers s.cache.partial bs
    → ((q : ℕ) → pages_count q bs ≤ 1)
    → ((pages_count slab bs ≡ 0) × (remove_slab_from_partial n slab s ≡ some s))
      ⊎ Removed n slab s bs
remove_slab_from_partial-Removed n slab s bs h c apart = elim (find_page slab bs) [
  | inl z ↦ inl (z, remove_slab_from_partial_absent n s slab bs h c z)
  | inr (us, b, vs, e, at) ↦
      let (t, run, relinked, chain) =
        remove_slab_from_partial_split n s b us vs (omega (arith, ap length e)) (rw e at c)
          (λ q. omega (arith, apart q, ap (pages_count q) e)) in
      inr (record {
        before = us;
        found = b;
        after = vs;
        split = e;
        page = at;
        state = t;
        run = subst (λ (p : ℕ). remove_slab_from_partial n p s ≡ some t) at run;
        relinked = relinked;
        chain = chain;
      })
]
