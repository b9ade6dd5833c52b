-- ===== src/Memory/Init/Sorted.antt =====
-- The whole insertion sort of kernel/src/mm/memory.rs, and what a sorted list without overlap is.
use lymad_os.Base.{
  ℕ, zero, suc, ◌+◌, ◌≤◌, ◌<◌, ◌≡◌, refl, ◌∙◌, ap, sym, List, [], ◌∷◌, ◌++◌, arith, Array,
}
use mathlib.Core.Path.{subst}
use lymad_os.Memory.{PhysRange}
use lymad_os.Memory.Ranges.{
  insert_sorted, cover, bytes, Chain, All, cover-insert_sorted, bytes-insert_sorted,
  All-insert_sorted, cover-append, bytes-append, All-append,
}
use lymad_os.Memory.Arrays.{window, window_ext, window-append}
use lymad_os.Memory.Init.{sink, sort_from}
use lymad_os.Memory.Init.Sort.{SortedFrom, SortedFrom-insert_sorted, window-sink, sink-above}

-- The same ranges in another order, as far as addresses, bytes and the predicate `P` tell.
pub record SameRanges (P : PhysRange → Type 0) (xs ys : List PhysRange) : Type 0 where
  pub covered : (a : ℕ) → cover a ys ≡ cover a xs
  pub size : bytes ys ≡ bytes xs
  pub all : All P xs → All P ys

module _ (P : PhysRange → Type 0) where
  SameRanges-trans :
      {xs ys zs : List PhysRange} → SameRanges P xs ys → SameRanges P ys zs → SameRanges P xs zs
  SameRanges-trans p q = record {
    covered = λ a. q.covered a ∙ p.covered a;
    size = q.size ∙ p.size;
    all = λ h. q.all (p.all h);
  }

  SameRanges-insert :
      (r : PhysRange) (xs ys : List PhysRange)
      → SameRanges P (xs ++ r ∷ ys) (insert_sorted r xs ++ ys)
  SameRanges-insert r xs ys = record {
    covered = λ a. omega (
      arith,
      cover-append a xs (r ∷ ys),
      cover-append a (insert_sorted r xs) ys,
      cover-insert_sorted a r xs,
    );
    size = omega (
      arith,
      bytes-append xs (r ∷ ys),
      bytes-append (insert_sorted r xs) ys,
      bytes-insert_sorted r xs,
    );
    all = λ h.
        let both = (All-append P xs (r ∷ ys)).0 h in
        (All-append P (insert_sorted r xs) ys).1
          (All-insert_sorted P r xs both.1.0 both.0, both.1.1);
  }

  -- One round of the sort.
  SameRanges-sink :
      (n i : ℕ) (a : Array PhysRange)
      → SortedFrom 0 (window a 0 i)
      → SameRanges P (window a 0 (i + suc n)) (window (sink i (a i) a) 0 (i + 1 + n))
  SameRanges-sink n i a s =
      let f = sink i (a i) a in
      let old : window a 0 (i + suc n) ≡ window a 0 i ++ a i ∷ window a (i + 1) n =
        window-append a 0 i (suc n)
        ∙ ap (λ k. window a 0 i ++ window a k (suc n)) (let e : 0 + i ≡ i = omega arith in e) in
      let rest : window f (0 + (i + 1)) n ≡ window a (i + 1) n =
        ap (λ k. window f k n) (let e : 0 + (i + 1) ≡ i + 1 = omega arith in e)
        ∙ window_ext f a (i + 1) n (λ k p q. sink-above i (a i) a k (omega arith)) in
      let new : window f 0 (i + 1 + n) ≡ insert_sorted (a i) (window a 0 i) ++ window a (i + 1) n =
        window-append f 0 (i + 1) n ∙ cc (window-sink i (a i) a s, rest) in
      rw (old, new) (SameRanges-insert (a i) (window a 0 i) (window a (i + 1) n))

  pub sort_from-SameRanges :
      (n i : ℕ) (a : Array PhysRange)
      → SortedFrom 0 (window a 0 i)
      → SortedFrom 0 (window (sort_from n i a) 0 (i + n))
        × SameRanges P (window a 0 (i + n)) (window (sort_from n i a) 0 (i + n))
  unfolding sort_from
  sort_from-SameRanges zero i a s =
      let e : i ≡ i + 0 = omega arith in
      (
        subst (λ (k : ℕ). SortedFrom 0 (window a 0 k)) e s,
        record { covered = λ x. refl; size = refl; all = λ h. h },
      )
  sort_from-SameRanges (suc n) i a s =
      let f = sink i (a i) a in
      let sorted : SortedFrom 0 (window f 0 (i + 1)) =
        subst (SortedFrom 0) (sym (window-sink i (a i) a s))
          (SortedFrom-insert_sorted 0 (a i) (window a 0 i) (omega arith) s) in
      let e : i + suc n ≡ i + 1 + n = omega arith in
      let (s', same) = sort_from-SameRanges n (i + 1) f sorted in
      (
        subst (λ (k : ℕ). SortedFrom 0 (window (sort_from n (i + 1) f) 0 k)) (sym e) s',
        SameRanges-trans (SameRanges-sink n i a s) (
            subst
              (λ (k : ℕ).
                SameRanges P (window f 0 (i + 1 + n)) (window (sort_from n (i + 1) f) 0 k))
              (sym e) same),
      )

-- A sorted list of non-empty ranges that covers no address twice is a chain.
pub Chain-of_SortedFrom :
    (lo : ℕ) (xs : List PhysRange)
    → SortedFrom lo xs
    → All (λ r. r.start < r.end) xs
    → ((a : ℕ) → cover a xs ≤ 1)
    → Chain lo xs
Chain-of_SortedFrom lo [] s n c = tt
Chain-of_SortedFrom lo (x ∷ []) s n c = (s.0, n.0, tt)
Chain-of_SortedFrom lo (x ∷ y ∷ ys) s n c = (
  s.0,
  n.0,
  Chain-of_SortedFrom x.end (y ∷ ys) (ground (arith, c y.start), s.1.1) n.1
      (λ a. omega (arith, c a)),
)

-- The ranges of a chain lie one behind the other.
pub bytes-Chain :
    (lo limit : ℕ) (xs : List PhysRange)
    → Chain lo xs
    → All (λ r. r.end ≤ limit) xs
    → lo ≤ limit
    → lo + bytes xs ≤ limit
bytes-Chain lo limit [] c all h = omega arith
bytes-Chain lo limit (x ∷ xs) c all h = omega (arith, bytes-Chain x.end limit xs c.2 all.1)
