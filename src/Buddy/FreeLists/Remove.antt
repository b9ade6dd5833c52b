-- ===== src/Buddy/FreeLists/Remove.antt =====
-- A doubly linked list of kernel/src/mm/buddy.rs without one of its frames.
use lymad_os.Base.{ℕ, ◌≡◌, ◌≢◌, refl, ◌∙◌, ap, sym, arith, Option, some, List, [], ◌∷◌, ◌++◌, Array}
use mathlib.Core.Path.{subst}
use lymad_os.Buddy.{FreeFrame}
use lymad_os.Buddy.FreeLists.{Linked, Absent, Distinct, Agree, Linked-Agree}

-- The memory `m'` is `m` without the frame `x`.
pub record Removed (m : Array FreeFrame) (x : ℕ) (m' : Array FreeFrame) : Type 0 where
  pub elsewhere : (y : ℕ) → y ≢ x → (m x).prev ≢ some y → (m x).next ≢ some y → m' y ≡ m y
  pub after :
      (y : ℕ)
      → y ≢ x
      → (m x).prev ≢ some y
      → (m x).next ≡ some y
      → m' y ≡ record (m y) { prev = (m x).prev }
  pub before :
      (y : ℕ)
      → y ≢ x
      → (m x).prev ≡ some y
      → (m x).next ≢ some y
      → m' y ≡ record (m y) { next = (m x).next }

abbrev pub head_after : List ℕ → (head next : Option ℕ) → Option ℕ
head_after [] head next = next
head_after (_ ∷ _) head next = head

pub Absent-append : (z : ℕ) (us vs : List ℕ) → Absent z (us ++ vs) → Absent z us × Absent z vs
Absent-append z [] vs a = (tt, a)
Absent-append z (u ∷ us) vs a = let both = Absent-append z us vs a.1 in ((a.0, both.0), both.1)

pub Absent-before : (x : ℕ) (us vs : List ℕ) → Distinct (us ++ x ∷ vs) → Absent x us
Absent-before x [] vs d = tt
Absent-before x (u ∷ us) vs d =
    (λ e. (Absent-append u us (x ∷ vs) d.0).1.0 (sym e), Absent-before x us vs d.1)

module _ (m : Array FreeFrame) (x : ℕ) where
  pub Linked-behind :
      (p h : Option ℕ) (us vs : List ℕ)
      → Linked m p h (us ++ x ∷ vs)
      → Linked m (some x) (m x).next vs
  Linked-behind p h [] vs l = l.3
  Linked-behind p h (u ∷ us) vs l = Linked-behind (some u) (m u).next us vs l.3

  pub prev-ne :
      (p h : Option ℕ) (us vs : List ℕ) (z : ℕ)
      → Linked m p h (us ++ x ∷ vs)
      → p ≢ some z
      → Absent z us
      → (m x).prev ≢ some z
  prev-ne p h [] vs z l np a = λ e. np (sym l.2 ∙ e)
  prev-ne p h (u ∷ us) vs z l np a =
      prev-ne (some u) (m u).next us vs z l.3 (λ e. a.0 (ground arith)) a.1

  pub next-ne :
      (vs : List ℕ) (z : ℕ) → Linked m (some x) (m x).next vs → Absent z vs → (m x).next ≢ some z
  next-ne [] z l a = λ e. ground arith
  next-ne (v ∷ vs) z l a = λ e. ground (arith, l.0, a.0)

  pub prev-some :
      (w : ℕ) (h : Option ℕ) (us vs : List ℕ)
      → Linked m (some w) h (us ++ x ∷ vs)
      → (z : ℕ) × ((m x).prev ≡ some z)
  prev-some w h [] vs l = (w, l.2)
  prev-some w h (u ∷ us) vs l = prev-some u (m u).next us vs l.3

  module _ {m' : Array FreeFrame} (r : Removed m x m') where
    pub Agree-removed :
        (ys : List ℕ)
        → Absent x ys
        → ((z : ℕ) → (m x).prev ≡ some z → Absent z ys)
        → ((z : ℕ) → (m x).next ≡ some z → Absent z ys)
        → Agree m m' ys
    Agree-removed [] a b c = tt
    Agree-removed (y ∷ ys) a b c = (
      r.elsewhere y (λ e. a.0 (sym e)) (λ e. (b y e).0 refl) (λ e. (c y e).0 refl),
      Agree-removed ys a.1 (λ z e. (b z e).1) (λ z e. (c z e).1),
    )

    pub Linked-removed :
        (p h : Option ℕ) (us vs : List ℕ)
        → Linked m p h (us ++ x ∷ vs)
        → Distinct (us ++ x ∷ vs)
        → ((z : ℕ) → p ≡ some z → Absent z (us ++ x ∷ vs))
        → Linked m' p (head_after us h (m x).next) (us ++ vs)
    Linked-removed p h [] [] l d b = l.3
    Linked-removed p h [] (z ∷ zs) l d b =
        let own : m' z ≡ record (m z) { prev = (m x).prev } =
          r.after z (λ e. d.0.0 (sym e)) (λ e. (b z (sym l.2 ∙ e)).1.0 refl) l.3.0 in
        let same =
          Agree-removed zs d.0.1 (λ w e. (b w (sym l.2 ∙ e)).1.1)
            (λ w e. ground (arith, l.3.0, d.1.0)) in
        (
          l.3.0,
          l.3.1,
          ap (λ f. f.prev) own ∙ l.2,
          subst (λ n. Linked m' (some z) n zs) (sym (ap (λ f. f.next) own))
              (Linked-Agree m m' (some z) (m z).next zs same l.3.3),
        )
    Linked-removed p h (u ∷ []) vs l d b =
        let own : m' u ≡ record (m u) { next = (m x).next } =
          r.before u d.0.0 l.3.2 (next-ne vs u l.3.3 d.0.1) in
        let rest = Linked-removed (some u) (m u).next [] vs l.3 d.1 (λ z e. ground (arith, d.0)) in
        (
          l.0,
          l.1,
          ap (λ f. f.prev) own ∙ l.2,
          subst (λ n. Linked m' (some u) n vs) (sym (ap (λ f. f.next) own)) rest,
        )
    Linked-removed p h (u ∷ w ∷ us) vs l d b =
        let apart = Absent-append u (w ∷ us) (x ∷ vs) d.0 in
        let own : m' u ≡ m u =
          r.elsewhere u apart.1.0
            (prev-ne (some w) (m w).next us vs u l.3.3 (λ e. apart.0.0 (ground arith)) apart.0.1)
            (next-ne vs u (Linked-behind (some w) (m w).next us vs l.3.3) apart.1.1) in
        let rest =
          Linked-removed (some u) (m u).next (w ∷ us) vs l.3 d.1 (λ z e. ground (arith, d.0)) in
        (
          l.0,
          l.1,
          ap (λ f. f.prev) own ∙ l.2,
          subst (λ n. Linked m' (some u) n (w ∷ us ++ vs)) (sym (ap (λ f. f.next) own)) rest,
        )
