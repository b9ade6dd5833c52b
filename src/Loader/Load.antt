-- ===== src/Loader/Load.antt =====
-- Loading one page of a segment, in kernel/src/tasks/elf.rs.
use lymad_os.Base.{
  ℕ, ◌+◌, ◌≤◌, ◌<◌, ◌≡◌, refl, Bool, Option, some, List, word, add64, length, Outcome, ok, Array,
}
use lymad_os.Address.{AddressOps, IsCanonical, IsDocumented}
use lymad_os.Loader.{
  ProgramHeader, Header, Error, Result, err, done, Machine, map_user_page, fill_page, load_page,
}
use lymad_os.Loader.Page.{Filled, copy_page-Filled}

module _ {W : Type 0} (allocate_frame : Machine W → Option ℕ × Machine W)
    (map_to : (page frame flags : ℕ) → Machine W → Bool × Machine W) (header : List ℕ → Header)
    (program_header : List ℕ → ℕ → ProgramHeader) (ops : AddressOps) (phys_mem_offset : ℕ) where
  abbrev pub mapping : (vaddr flags : ℕ) → Machine W → Result ℕ × Machine W
  mapping = map_user_page allocate_frame map_to header program_header ops phys_mem_offset

  abbrev pub page_load :
      (page_vaddr flags : ℕ)
      → Option (List ℕ × ProgramHeader)
      → Machine W
      → Outcome (Result (Unit {0}) × Machine W)
  page_load = load_page allocate_frame map_to header program_header ops phys_mem_offset

  abbrev page_fill :
      (page_vaddr : ℕ)
      → Option (List ℕ × ProgramHeader)
      → Result ℕ × Machine W
      → Outcome (Result (Unit {0}) × Machine W)
  page_fill = fill_page allocate_frame map_to header program_header ops phys_mem_offset

  -- The outcomes of one page.
  pub data Loaded (file : List ℕ) (ph : ProgramHeader) (page_vaddr flags : ℕ) (m : Machine W)
      : Outcome (Result (Unit {0}) × Machine W) → Type 0 where
    refused :
        (e : Error) (m' : Machine W)
        → mapping page_vaddr flags m ≡ (err e, m')
        → Loaded file ph page_vaddr flags m (ok (err e, m'))
    filled :
        (phys_addr : ℕ) (m' : Machine W) (after : Array ℕ)
        → mapping page_vaddr flags m ≡ (done phys_addr, m')
        → Filled file ph page_vaddr (add64 phys_mem_offset phys_addr) m'.memory after
        → Loaded file ph page_vaddr flags m (ok (done tt, record m' { memory = after }))

  -- For any frame allocator and any page tables, with a page at a canonical address, a segment and a page
  -- that end below 2^64 and the segment's bytes all in a file shorter than that, loading a page does not
  -- panic. If no frame is given or the mapping fails, the error is returned and nothing is written after
  -- the mapping; else the page's frame holds the page's share of the segment and zeros around it, and
  -- no other memory is written after the mapping.
  pub load_page-Loaded :
      (doc : IsDocumented ops) (file : List ℕ) (ph : ProgramHeader) (page_vaddr flags : ℕ)
      (m : Machine W)
      → ph.p_vaddr + ph.p_filesz < word
      → IsCanonical page_vaddr
      → page_vaddr + 4096 < word
      → ph.p_offset + ph.p_filesz ≤ length file
      → length file < word
      → Loaded file ph page_vaddr flags m (page_load page_vaddr flags (some (file, ph)) m)
  unfolding load_page
  load_page-Loaded doc file ph v flags m hs canonical hp hf hl =
      rw (doc.new_virt v canonical) (go (mapping v flags m) refl)
    where
      go :
          (r : Result ℕ × Machine W)
          → mapping v flags m ≡ r
          → Loaded file ph v flags m (page_fill v (some (file, ph)) r)
      go (err e, m') eq = refused e m' eq
      go (done phys_addr, m') eq =
          let (after, run, filling) =
            copy_page-Filled file ph v (add64 phys_mem_offset phys_addr) m'.memory hs hp hf hl in
          rw run (filled phys_addr m' after eq filling)
