-- ===== src/Memory/Init/Sort.antt =====
-- The insertion sort of kernel/src/mm/memory.rs as operations on lists.
use lymad_os.Base.{
  ℕ, zero, suc, ◌+◌, ◌≤◌, ◌<◌, ◌≡◌, refl, ◌∙◌, ap, sym, List, [], ◌∷◌, ◌++◌, arith, ltb, Array,
  write, Bool-cases, inl, inr, ltb→lt,
}
use mathlib.Core.Path.{subst}
use lymad_os.Memory.{PhysRange}
use lymad_os.Memory.Ranges.{insert_sorted}
use lymad_os.Memory.Arrays.{window, window_ext, window_snoc}
use lymad_os.Memory.Init.{sink}

-- In the order of their starts, from `lo` up.
abbrev pub SortedFrom : ℕ → List PhysRange → Type 0
SortedFrom lo [] = Unit
SortedFrom lo (r ∷ rs) = (lo ≤ r.start) × SortedFrom r.start rs

pub SortedFrom-insert_sorted :
    (lo : ℕ) (r : PhysRange) (xs : List PhysRange)
    → lo ≤ r.start
    → SortedFrom lo xs
    → SortedFrom lo (insert_sorted r xs)
unfolding insert_sorted
SortedFrom-insert_sorted lo r [] h s = (h, tt)
SortedFrom-insert_sorted lo r (x ∷ xs) h s = ground (arith, SortedFrom-insert_sorted x.start r xs)

-- What comes before the last of a sorted list.
abbrev UpTo : ℕ → List PhysRange → Type 0
UpTo s [] = Unit
UpTo s (r ∷ rs) = (r.start ≤ s) × UpTo s rs

SortedFrom-last :
    (lo : ℕ) (xs : List PhysRange) (y : PhysRange)
    → SortedFrom lo (xs ++ y ∷ [])
    → SortedFrom lo xs × UpTo y.start xs × (lo ≤ y.start)
SortedFrom-last lo [] y s = (tt, tt, s.0)
SortedFrom-last lo (x ∷ xs) y s =
    let (s', u, h) = SortedFrom-last x.start xs y s.1 in ((s.0, s'), (h, u), omega arith)

insert_sorted-before :
    (key : PhysRange) (xs : List PhysRange) (y : PhysRange)
    → key.start < y.start
    → insert_sorted key (xs ++ y ∷ []) ≡ insert_sorted key xs ++ y ∷ []
unfolding insert_sorted
insert_sorted-before key [] y h = ground arith
insert_sorted-before key (x ∷ xs) y h = ground (arith, insert_sorted-before key xs y h)

insert_sorted-after :
    (key : PhysRange) (xs : List PhysRange)
    → UpTo key.start xs
    → insert_sorted key xs ≡ xs ++ key ∷ []
unfolding insert_sorted
insert_sorted-after key [] u = refl
insert_sorted-after key (x ∷ xs) u = ground (arith, insert_sorted-after key xs u.1)

UpTo-snoc :
    (s t : ℕ) (xs : List PhysRange) (y : PhysRange)
    → UpTo s xs
    → s ≤ t
    → y.start ≤ t
    → UpTo t (xs ++ y ∷ [])
UpTo-snoc s t [] y u h k = (k, tt)
UpTo-snoc s t (x ∷ xs) y u h k = (omega arith, UpTo-snoc s t xs y u.1 h k)

pub sink-above :
    (j : ℕ) (key : PhysRange) (a : Array PhysRange) (k : ℕ) → j < k → sink j key a k ≡ a k
unfolding sink
sink-above zero key a k h = ground arith
sink-above (suc j) key a k h = ground (arith, sink-above j key (write a (suc j) (a j)) k)

-- The key goes behind the ranges that start no later.
pub window-sink :
    (j : ℕ) (key : PhysRange) (a : Array PhysRange)
    → SortedFrom 0 (window a 0 j)
    → window (sink j key a) 0 (j + 1) ≡ insert_sorted key (window a 0 j)
unfolding sink
window-sink zero key a s = ap (λ r. r ∷ []) (ground arith) ∙ sym (insert_sorted-after key [] tt)
window-sink (suc j) key a s =
    let before = window a 0 j in
    let snoc : window a 0 (suc j) ≡ before ++ a j ∷ [] =
      ap (window a 0) (let e : suc j ≡ j + 1 = omega arith in e) ∙ window_snoc a j in
    let (s', u, _) = SortedFrom-last 0 before (a j) (subst (SortedFrom 0) snoc s) in
    elim (Bool-cases (ltb key.start (a j).start)) [
      | inl e ↦ rw e (
          let b = write a (suc j) (a j) in
          let kept : window b 0 j ≡ before = window_ext b a 0 j (λ i p q. ground arith) in
          let last : sink j key b (j + 1) ≡ a j =
            sink-above j key b (j + 1) (omega arith) ∙ ground arith in
          ap (window (sink j key b) 0) (let n : suc j + 1 ≡ j + 1 + 1 = omega arith in n)
          ∙ window_snoc (sink j key b) (j + 1)
          ∙ cc (window-sink j key b (subst (SortedFrom 0) (sym kept) s'), kept, last)
          ∙ sym (insert_sorted-before key before (a j) (ltb→lt _ _ e))
          ∙ ap (insert_sorted key) (sym snoc))
      | inr e ↦ rw e (
          let f = write a (suc j) key in
          let kept : window f 0 (suc j) ≡ window a 0 (suc j) =
            window_ext f a 0 (suc j) (λ i p q. ground arith) in
          let here : f (suc j) ≡ key = ground arith in
          let upto : UpTo key.start (window a 0 (suc j)) =
            subst (UpTo key.start) (sym snoc)
              (UpTo-snoc (a j).start key.start before (a j) u (ground arith) (ground arith)) in
          window_snoc f (suc j)
          ∙ cc (kept, here)
          ∙ sym (insert_sorted-after key (window a 0 (suc j)) upto))
    ]
