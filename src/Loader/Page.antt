-- ===== src/Loader/Page.antt =====
-- What one page holds once `load_elf` of kernel/src/tasks/elf.rs has filled it.
use lymad_os.Base.{
  ℕ, ◌+◌, ◌-◌, ◌≤◌, ◌<◌, ◌≡◌, refl, ap, min, max, true, false, ◌&&◌, ◌||◌, List, ltb, leb,
  if◌then◌else◌, word, add64, sub64, length, arith, ok, Array, Bool-cases, inl, inr,
}
use lymad_os.Loader.{ProgramHeader, byte_at, write_bytes, copy_bytes, copy_page}

-- The byte of the segment at an address: the file's, or 0 behind its part of the file.
abbrev pub segment_byte : List ℕ → ProgramHeader → ℕ → ℕ
segment_byte file ph vaddr =
    if leb ph.p_vaddr vaddr && ltb vaddr (ph.p_vaddr + ph.p_filesz)
    then byte_at file (ph.p_offset + (vaddr - ph.p_vaddr))
    else 0

-- The page's share of the segment stands in `after`, where the page is seen at `kernel_ptr`.
pub record Filled (file : List ℕ) (ph : ProgramHeader) (page_vaddr kernel_ptr : ℕ)
    (before after : Array ℕ) : Type 0 where
  pub inside : (i : ℕ) → i < 4096 → after (kernel_ptr + i) ≡ segment_byte file ph (page_vaddr + i)
  pub outside : (a : ℕ) → a < kernel_ptr → after a ≡ before a
  pub behind : (a : ℕ) → kernel_ptr + 4096 ≤ a → after a ≡ before a

-- On a page that is zeroed first, with a segment, a part of the file and a page that end at 2^64 at the
-- latest, and the segment's bytes all in the file, the copy does not panic. Afterwards byte `i` of the
-- page is the file's byte for address `page_vaddr + i` where the segment has one there and 0
-- elsewhere, and no byte outside the page has changed.
pub copy_page-Filled :
    (file : List ℕ) (ph : ProgramHeader) (page_vaddr kernel_ptr : ℕ) (memory : Array ℕ)
    → ph.p_vaddr + ph.p_filesz < word
    → page_vaddr + 4096 < word
    → ph.p_offset + ph.p_filesz ≤ length file
    → length file < word
    → (after : Array ℕ) × (copy_page file ph page_vaddr kernel_ptr
          (write_bytes memory kernel_ptr 0 4096)
        ≡ ok after)
      × Filled file ph page_vaddr kernel_ptr memory after
unfolding copy_page
copy_page-Filled file ph v k memory hs hp hf hl =
    let zeroed = write_bytes memory k 0 4096 in
    let from = max ph.p_vaddr v in
    let to = min (ph.p_vaddr + ph.p_filesz) (v + 4096) in
    let n = to - from in
    let copied = copy_bytes file zeroed (ph.p_offset + (from - ph.p_vaddr)) (k + (from - v)) n in
    let page_end : add64 v 4096 ≡ v + 4096 = omega arith in
    let file_end : add64 ph.p_vaddr ph.p_filesz ≡ ph.p_vaddr + ph.p_filesz = omega arith in
    elim (Bool-cases (ltb from to)) [
      | inl some_bytes ↦
          let overlap : (ltb v (ph.p_vaddr + ph.p_filesz) && ltb ph.p_vaddr (v + 4096)) ≡ true =
            ground arith in
          let len : sub64 to from ≡ n = ground arith in
          let start : sub64 from ph.p_vaddr ≡ from - ph.p_vaddr = omega arith in
          let offset : add64 ph.p_offset (from - ph.p_vaddr) ≡ ph.p_offset + (from - ph.p_vaddr) =
            ground arith in
          let end : add64 (ph.p_offset + (from - ph.p_vaddr)) n
              ≡ ph.p_offset + (from - ph.p_vaddr) + n =
            ground arith in
          let place : sub64 from v ≡ from - v = omega arith in
          let not_empty : ltb 0 n ≡ true = ground arith in
          let in_file : (ltb (ph.p_offset + (from - ph.p_vaddr) + n)
                  (ph.p_offset + (from - ph.p_vaddr))
                || ltb (length file) (ph.p_offset + (from - ph.p_vaddr) + n))
              ≡ false =
            ground arith in
          (
            copied,
            rw (page_end, file_end, len, start, offset, end, place, overlap, not_empty, in_file)
                refl,
            record {
              inside = λ i h. elim (Bool-cases (leb from (v + i) && ltb (v + i) to)) [
                | inl in_part ↦
                    let at : ph.p_offset + (from - ph.p_vaddr) + (k + i - (k + (from - v)))
                        ≡ ph.p_offset + (v + i - ph.p_vaddr) =
                      ground arith in
                    ground (arith, ap (byte_at file) at)
                | inr out ↦ ground arith
              ];
              outside = λ a h. ground arith;
              behind = λ a h. ground arith;
            },
          )
      | inr no_bytes ↦ (
        zeroed,
        rw (page_end, file_end) (ground arith),
        record {
          inside = λ i h. ground arith;
          outside = λ a h. ground arith;
          behind = λ a h. ground arith;
        },
      )
    ]
