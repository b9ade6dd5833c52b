-- ===== src/Memory/Init/Collect.antt =====
-- The first loop of `BootInfoFrameAllocator::init` in kernel/src/mm/memory.rs.
use lymad_os.Base.{
  ℕ, ◌+◌, ◌-◌, ◌%◌, ◌≤◌, ◌<◌, ◌≡◌, refl, ◌∙◌, ap, sym, Bool, true, false, ◌&&◌, List, [], ◌∷◌, ◌++◌,
  arith, ltb, if◌then◌else◌, word, write, add64, sub64, take, take-nil, take-cons, Bool-cases, inl,
  inr,
}
use mathlib.Core.List.{append-nil, append_assoc}
use lymad_os.Memory.{PhysRange, MemoryRegion, max_ranges}
use lymad_os.Memory.Ranges.{bytes, All}
use lymad_os.Memory.Arrays.{window, window_ext, window_snoc}
use lymad_os.Memory.Init.{page_range, Collected, collect_one, collect}

abbrev pub keeps_page : MemoryRegion → Bool
keeps_page m = m.usable && ltb (page_range m).start (page_range m).end

-- The ranges that the loop takes, in the order of the memory map.
abbrev pub page_ranges : List MemoryRegion → List PhysRange
page_ranges [] = []
page_ranges (m ∷ ms) = if keeps_page m then page_range m ∷ page_ranges ms else page_ranges ms

abbrev pub collected : Collected → List PhysRange
collected c = window c.free_ranges 0 c.count

abbrev added : MemoryRegion → Collected → Collected
added m c = record {
  free_ranges = write c.free_ranges c.count (page_range m);
  count = c.count + 1;
  total_bytes = add64 c.total_bytes (sub64 (page_range m).end (page_range m).start);
}

and_regroup : (a b c : Bool) → (a && (b && c)) ≡ ((a && b) && c)
and_regroup true b c = refl
and_regroup false b c = refl

collect_one_lem :
    (m : MemoryRegion) (c : Collected)
    → collect_one m c ≡ (if keeps_page m && ltb c.count max_ranges then added m c else c)
unfolding collect_one
collect_one_lem m c =
    ap (λ t. if t then added m c else c)
      (and_regroup m.usable (ltb (page_range m).start (page_range m).end) (ltb c.count max_ranges))

collected-added :
    (m : MemoryRegion) (c : Collected) → collected (added m c) ≡ collected c ++ page_range m ∷ []
collected-added m c =
    let f = write c.free_ranges c.count (page_range m) in
    let kept : window f 0 c.count ≡ collected c =
      window_ext f c.free_ranges 0 c.count (λ i p q. ground arith) in
    let here : f c.count ≡ page_range m = ground arith in window_snoc f c.count ∙ cc (kept, here)

-- What the loop has collected, with the sum of the bytes as a word.
pub record Collects (rs : List PhysRange) (c d : Collected) : Type 0 where
  pub ranges : collected d ≡ collected c ++ take (max_ranges - c.count) rs
  pub bounded : d.count ≤ max_ranges
  pub total : d.total_bytes ≡ (c.total_bytes + bytes (take (max_ranges - c.count) rs)) % word

pub collect-Collects :
    (ms : List MemoryRegion) (c : Collected)
    → c.count ≤ max_ranges
    → c.total_bytes < word
    → All (λ r. r.end < word) (page_ranges ms)
    → Collects (page_ranges ms) c (collect ms c)
unfolding collect
collect-Collects [] c h t e = record {
  ranges = rw take-nil (sym (append-nil (collected c)));
  bounded = h;
  total = rw take-nil (omega arith);
}
collect-Collects (m ∷ ms) c h t e = elim (Bool-cases (keeps_page m)) [
  | inr none ↦ rw (collect_one_lem m c, none) (collect-Collects ms c h t (rw none at e))
  | inl kept ↦
      let r = page_range m in
      let e' : All (λ r. r.end < word) (r ∷ page_ranges ms) = rw kept at e in
      elim (Bool-cases (ltb c.count max_ranges)) [
        | inl room ↦
            let ih = collect-Collects ms (added m c) (ground arith) (omega arith) e'.1 in
            let cons = take-cons (max_ranges - c.count) r (page_ranges ms) (ground arith) in
            let left : max_ranges - (c.count + 1) ≡ max_ranges - c.count - 1 = omega arith in
            let one : collect_one m c ≡ added m c = collect_one_lem m c ∙ rw (kept, room) in
            rw (one, kept)
              (record {
                ranges = rw cons (
                    ih.ranges
                    ∙ cc (collected-added m c, left)
                    ∙ append_assoc (collected c) (r ∷ [])
                        (take (max_ranges - c.count - 1) (page_ranges ms)));
                bounded = ih.bounded;
                total = rw cons (
                    let rest = λ (k : ℕ). bytes (take k (page_ranges ms)) in
                    let exact : sub64 r.end r.start ≡ r.end - r.start = ground (arith, e'.0) in
                    omega (arith, ih.total, exact, ap rest left));
              })
        | inr is_full ↦
            let ih = collect-Collects ms c h t e'.1 in
            let no_room : max_ranges - c.count ≡ 0 = ground arith in
            let one : collect_one m c ≡ c = collect_one_lem m c ∙ rw (kept, is_full) in
            rw (one, kept)
              (record {
                ranges = rw no_room (rw no_room at ih.ranges);
                bounded = ih.bounded;
                total = rw no_room (rw no_room at ih.total);
              })
      ]
]
