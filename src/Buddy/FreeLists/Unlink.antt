-- ===== src/Buddy/FreeLists/Unlink.antt =====
-- `remove_frame` of kernel/src/mm/buddy.rs takes a frame out of its free list.
use lymad_os.Base.{
  ℕ, ◌<◌, ◌≡◌, ◌≢◌, refl, ◌∙◌, ap, sym, arith, Option, none, some, List, [], ◌∷◌, ◌++◌, leb, Array,
  write, Outcome, ok, ◌>>=◌, false,
}
use mathlib.Core.Path.{subst}
use lymad_os.Buddy.{FreeFrame, BuddyAllocator, max_order, set_prev, skip_frame, remove_frame}
use lymad_os.Buddy.FreeLists.{
  Linked, Absent, Distinct, Disjoint, FreeList, Linked-Agree, first-Absent,
}
use lymad_os.Buddy.FreeLists.Remove.{
  Removed, head_after, Absent-before, Linked-behind, prev-ne, prev-some, Agree-removed,
  Linked-removed,
}

abbrev cleared : FreeFrame
cleared = record { next = none; prev = none }

-- What `remove_frame` does to the memory.
abbrev skipped : Array FreeFrame → FreeFrame → Option ℕ → Array FreeFrame
skipped m frame none = m
skipped m frame (some prev) = write m prev (record (m prev) { next = frame.next })

abbrev removed : Array FreeFrame → ℕ → Array FreeFrame
removed m x =
    let m1 = skipped m (m x) (m x).prev in write (set_prev (m1 x).next (m1 x).prev m1) x cleared

-- The frame's own fields have not been written when they are read again.
skipped_self :
    (m : Array FreeFrame) (x : ℕ) (frame : FreeFrame) (q : Option ℕ)
    → q ≢ some x
    → skipped m frame q x ≡ m x
skipped_self m x frame none np = refl
skipped_self m x frame (some w) np = ground arith

module _ (m : Array FreeFrame) (x y : ℕ) (frame : FreeFrame) (ne : y ≢ x) where
  abbrev unlinked : (prev next : Option ℕ) → FreeFrame
  unlinked q n = write (set_prev n q (skipped m frame q)) x cleared y

  unlinked-elsewhere : (q n : Option ℕ) → q ≢ some y → n ≢ some y → unlinked q n ≡ m y
  unlinked-elsewhere none none nq nn = ground arith
  unlinked-elsewhere none (some z) nq nn = ground arith
  unlinked-elsewhere (some w) none nq nn = ground arith
  unlinked-elsewhere (some w) (some z) nq nn = ground arith

  unlinked-after :
      (q n : Option ℕ) → q ≢ some y → n ≡ some y → unlinked q n ≡ record (m y) { prev = q }
  unlinked-after none none nq e = absurd (ground arith)
  unlinked-after none (some z) nq e = ground arith
  unlinked-after (some w) none nq e = absurd (ground arith)
  unlinked-after (some w) (some z) nq e = ground arith

  unlinked-before :
      (q n : Option ℕ) → q ≡ some y → n ≢ some y → unlinked q n ≡ record (m y) { next = frame.next }
  unlinked-before none n e nn = absurd (ground arith)
  unlinked-before (some w) none e nn = ground arith
  unlinked-before (some w) (some z) e nn = ground arith

removed-Removed : (m : Array FreeFrame) (x : ℕ) → (m x).prev ≢ some x → Removed m x (removed m x)
removed-Removed m x np =
    let self = skipped_self m x (m x) (m x).prev np in
    let at = λ (y : ℕ).
      ap (λ f. write (set_prev f.next f.prev (skipped m (m x) (m x).prev)) x cleared y) self in
    record {
      elsewhere =
          λ y ne nq nn. at y ∙ unlinked-elsewhere m x y (m x) ne (m x).prev (m x).next nq nn;
      after = λ y ne nq e. at y ∙ unlinked-after m x y (m x) ne (m x).prev (m x).next nq e;
      before = λ y ne e nn. at y ∙ unlinked-before m x y (m x) ne (m x).prev (m x).next e nn;
    }

prev-Absent :
    (m : Array FreeFrame) (x : ℕ) (p h : Option ℕ) (us vs ys : List ℕ)
    → Linked m p h (us ++ x ∷ vs)
    → ((z : ℕ) → p ≡ some z → Absent z ys)
    → Disjoint us ys
    → (z : ℕ) → (m x).prev ≡ some z
    → Absent z ys
prev-Absent m x p h [] vs ys l a disjoint z e = a z (sym l.2 ∙ e)
prev-Absent m x p h (u ∷ us) vs ys l a disjoint z e =
    prev-Absent m x (some u) (m u).next us vs ys l.3
      (λ w e. let same : u ≡ w = ground arith in subst (λ k. Absent k ys) same disjoint.0)
      disjoint.1 z e

Disjoint-append : (us xs ys : List ℕ) → Disjoint (us ++ xs) ys → Disjoint us ys × Disjoint xs ys
Disjoint-append [] xs ys d = (tt, d)
Disjoint-append (u ∷ us) xs ys d =
    let both = Disjoint-append us xs ys d.1 in ((d.0, both.0), both.1)

-- The heads of the lists after `skip_frame`.
abbrev heads : BuddyAllocator → (order : ℕ) → (next prev : Option ℕ) → Array (Option ℕ)
heads s order next none = write s.free_lists order next
heads s order next (some _) = s.free_lists

skip_frame-lem :
    (s : BuddyAllocator) (order : ℕ) (frame : FreeFrame)
    → order < max_order
    → (q : Option ℕ)
    → skip_frame order frame q s
      ≡ ok (record s { memory = skipped s.memory frame q; free_lists = heads s order frame.next q })
skip_frame-lem s order frame small none =
    let in_range : leb max_order order ≡ false = ground arith in rw in_range refl
skip_frame-lem s order frame small (some w) = refl

heads-order :
    (s : BuddyAllocator) (x order : ℕ) (us vs : List ℕ)
    → FreeList s order (us ++ x ∷ vs)
    → heads s order (s.memory x).next (s.memory x).prev order
      ≡ head_after us (s.free_lists order) (s.memory x).next
heads-order s x order [] vs l = ap (λ q. heads s order (s.memory x).next q order) l.2 ∙ ground arith
heads-order s x order (u ∷ us) vs l =
    let (z, e) = prev-some s.memory x u (s.memory u).next us vs l.3 in
    ap (λ q. heads s order (s.memory x).next q order) e

heads-other :
    (s : BuddyAllocator) (order order' : ℕ) (next q : Option ℕ)
    → order' ≢ order
    → heads s order next q order' ≡ s.free_lists order'
heads-other s order order' next none ne = ground arith
heads-other s order order' next (some _) ne = refl

-- The end of `remove_frame`.
abbrev cleared_frame : ℕ → BuddyAllocator → Outcome BuddyAllocator
cleared_frame x t =
    ok (record t {
      memory = write (set_prev (t.memory x).next (t.memory x).prev t.memory) x cleared;
    })

-- From a list of distinct frames, remove_frame takes the frame out, wherever it stands, keeps the
-- others in order, leaves the bitmap and the offset, and changes no other free list that shares no
-- frame with this one.
pub remove_frame-FreeList :
    (s : BuddyAllocator) (x order : ℕ) (us vs : List ℕ)
    → order < max_order
    → FreeList s order (us ++ x ∷ vs)
    → Distinct (us ++ x ∷ vs)
    → (t : BuddyAllocator) × (remove_frame s x order ≡ ok t)
      × (t.bitmap ≡ s.bitmap)
      × (t.offset ≡ s.offset)
      × FreeList t order (us ++ vs)
      × ((order' : ℕ) (ys : List ℕ)
          → order' ≢ order
          → FreeList s order' ys
          → Disjoint (us ++ x ∷ vs) ys
          → FreeList t order' ys)
unfolding remove_frame
remove_frame-FreeList s x order us vs small l d =
    let m = s.memory in
    let q = (m x).prev in
    let np =
      prev-ne m x none (s.free_lists order) us vs x l (λ e. ground arith)
        (Absent-before x us vs d) in
    let r = removed-Removed m x np in
    (
      record s { memory = removed m x; free_lists = heads s order (m x).next q },
      ap (λ o. o >>= cleared_frame x) (skip_frame-lem s order (m x) small q),
      refl,
      refl,
      subst (λ h. Linked (removed m x) none h (us ++ vs)) (sym (heads-order s x order us vs l))
          (Linked-removed m x r none (s.free_lists order) us vs l d (λ z e. ground arith)),
      λ order' ys ne l' disjoint.
          let (du, dx) = Disjoint-append us (x ∷ vs) ys disjoint in
          subst (λ h. Linked (removed m x) none h ys)
            (sym (heads-other s order order' (m x).next q ne))
            (Linked-Agree m (removed m x) none (s.free_lists order') ys
              (Agree-removed m x r ys dx.0
                (prev-Absent m x none (s.free_lists order) us vs ys l (λ z e. ground arith) du)
                (first-Absent m (some x) (m x).next vs ys
                  (Linked-behind m x none (s.free_lists order) us vs l) dx.1))
              l'),
    )
