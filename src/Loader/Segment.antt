-- ===== src/Loader/Segment.antt =====
-- Loading all the pages of a segment, in kernel/src/tasks/elf.rs.
use lymad_os.Base.{
  ℕ, zero, suc, ◌+◌, ◌-◌, ◌*◌, ltb, leb, Bool-cases, inl, inr, ltb→lt, ◌≤◌, ◌<◌, ◌≡◌, refl, ◌∙◌,
  Bool, Option, some, List, word, add64, length, arith, Outcome, ok, ◌>>=◌, Array,
}
use mathlib.Core.Path.{subst}
use lymad_os.Address.{AddressOps, IsDocumented}
use lymad_os.Loader.{ProgramHeader, Header, Error, Result, err, done, Machine, load_pages}
use lymad_os.Loader.Page.{Filled, segment_byte}
use lymad_os.Loader.Load.{Loaded, refused, filled, mapping, load_page-Loaded}

module _ {W : Type 0} (allocate_frame : Machine W → Option ℕ × Machine W)
    (map_to : (page frame flags : ℕ) → Machine W → Bool × Machine W) (header : List ℕ → Header)
    (program_header : List ℕ → ℕ → ProgramHeader) (ops : AddressOps) (phys_mem_offset : ℕ) where
  abbrev map_page : (vaddr flags : ℕ) → Machine W → Result ℕ × Machine W
  map_page = mapping allocate_frame map_to header program_header ops phys_mem_offset

  -- The frame allocator hands out frames that nobody holds, and neither it nor `map_to`, which writes page
  -- tables, writes those held: `Held w a` says that the byte at the kernel's address `a` is in a frame that a
  -- page was mapped to before `w`, or that is held otherwise. Frames of page tables need not be among them.
  pub record HandsOutFrames (Held : W → ℕ → Type 0) : Type 0 where
    pub fresh :
        (vaddr flags phys_addr : ℕ) (m m' : Machine W) (i : ℕ)
        → map_page vaddr flags m ≡ (done phys_addr, m')
        → i < 4096
        → ¬ Held m.paging (add64 phys_mem_offset phys_addr + i)
    pub given :
        (vaddr flags phys_addr : ℕ) (m m' : Machine W) (i : ℕ)
        → map_page vaddr flags m ≡ (done phys_addr, m')
        → i < 4096
        → Held m'.paging (add64 phys_mem_offset phys_addr + i)
    pub still :
        (vaddr flags : ℕ) (r : Result ℕ) (m m' : Machine W) (a : ℕ)
        → map_page vaddr flags m ≡ (r, m')
        → Held m.paging a
        → Held m'.paging a
    pub kept :
        (vaddr flags : ℕ) (r : Result ℕ) (m m' : Machine W) (a : ℕ)
        → map_page vaddr flags m ≡ (r, m')
        → Held m.paging a
        → m'.memory a ≡ m.memory a

  module _ {Held : W → ℕ → Type 0} (hands : HandsOutFrames Held) (file : List ℕ)
      (ph : ProgramHeader) (flags : ℕ) where
    -- The bytes of frames held before have not changed.
    pub record Kept (m m' : Machine W) : Type 0 where
      pub memory : (a : ℕ) → Held m.paging a → m'.memory a ≡ m.memory a
      pub frames : (a : ℕ) → Held m.paging a → Held m'.paging a

    -- A page was mapped to the frame that the kernel sees at `ptr`, whose bytes are the page's.
    pub record Holds (vaddr ptr : ℕ) (memory : Array ℕ) : Type 0 where
      pub mapped :
          (m : Machine W) × (m' : Machine W) × (phys_addr : ℕ) × (map_page vaddr flags m
            ≡ (done phys_addr, m'))
          × (ptr ≡ add64 phys_mem_offset phys_addr)
      pub content : (i : ℕ) → i < 4096 → memory (ptr + i) ≡ segment_byte file ph (vaddr + i)

    pub data LoadedPages (n vaddr : ℕ) (m : Machine W)
        : Outcome (Result (Unit {0}) × Machine W) → Type 0 where
      stopped : (e : Error) (m' : Machine W) → Kept m m' → LoadedPages n vaddr m (ok (err e, m'))
      loaded :
          (m' : Machine W) (ptr : ℕ → ℕ)
          → Kept m m'
          → ((k : ℕ) → k < n → Holds (vaddr + 4096 * k) (ptr k) m'.memory)
          → LoadedPages n vaddr m (ok (done tt, m'))

    abbrev pub pages_load : (n vaddr : ℕ) → Machine W → Outcome (Result (Unit {0}) × Machine W)
    pages_load n vaddr =
        load_pages allocate_frame map_to header program_header ops phys_mem_offset n vaddr flags
          (some (file, ph))

    Kept-trans : (m m' m'' : Machine W) → Kept m m' → Kept m' m'' → Kept m m''
    Kept-trans m m' m'' k k' = record {
      memory = λ a h. k'.memory a (k.frames a h) ∙ k.memory a h;
      frames = λ a h. k'.frames a (k.frames a h);
    }

    -- A page that fills a fresh frame leaves the other frames.
    Kept-Filled :
        (vaddr phys_addr : ℕ) (m w : Machine W) (after : Array ℕ)
        → map_page vaddr flags m ≡ (done phys_addr, w)
        → Filled file ph vaddr (add64 phys_mem_offset phys_addr) w.memory after
        → Kept m (record w { memory = after })
    Kept-Filled vaddr phys_addr m w after e f = record {
      memory = λ a h.
          let ptr = add64 phys_mem_offset phys_addr in
          elim (Bool-cases (ltb a ptr)) [
            | inl low ↦ f.outside a (ltb→lt _ _ low) ∙ hands.kept vaddr flags _ m w a e h
            | inr at_least ↦ elim (Bool-cases (leb (ptr + 4096) a)) [
              | inl high ↦ f.behind a (ground arith) ∙ hands.kept vaddr flags _ m w a e h
              | inr within ↦
                  let same : a ≡ ptr + (a - ptr) = ground arith in
                  absurd (
                    hands.fresh vaddr flags phys_addr m w (a - ptr) e (ground arith)
                      (subst (Held m.paging) same h))
            ]
          ];
      frames = λ a h. hands.still vaddr flags _ m w a e h;
    }

    ptrs : ℕ → (ℕ → ℕ) → ℕ → ℕ
    ptrs first rest zero = first
    ptrs first rest (suc k) = rest k

    -- What the loop does after a page.
    abbrev continue :
        (n vaddr : ℕ) → Result (Unit {0}) × Machine W → Outcome (Result (Unit {0}) × Machine W)
    continue n vaddr (r, m') = elim r [
      | err e ↦ ok (err e, m')
      | done _ ↦ pages_load n (vaddr + 4096) m'
    ]

    module _ (n vaddr : ℕ) (m : Machine W) where
      first_page :
          (phys_addr : ℕ) (w : Machine W) (after : Array ℕ)
          → map_page vaddr flags m ≡ (done phys_addr, w)
          → Filled file ph vaddr (add64 phys_mem_offset phys_addr) w.memory after
          → (m' : Machine W) → Kept (record w { memory = after }) m'
          → Holds (vaddr + 4096 * 0) (add64 phys_mem_offset phys_addr) m'.memory
      first_page phys_addr w after e f m' k =
          let same : vaddr ≡ vaddr + 4096 * 0 = omega arith in
          let ptr = add64 phys_mem_offset phys_addr in
          subst (λ (v : ℕ). Holds v ptr m'.memory) same
            (record {
              mapped = (m, w, phys_addr, e, refl);
              content = λ i lt.
                  k.memory (ptr + i) (hands.given vaddr flags phys_addr m w i e lt) ∙ f.inside i lt;
            })

      -- A first page before the others.
      extend :
          (phys_addr : ℕ) (w : Machine W) (after : Array ℕ)
          → map_page vaddr flags m ≡ (done phys_addr, w)
          → Filled file ph vaddr (add64 phys_mem_offset phys_addr) w.memory after
          → {o : Outcome (Result (Unit {0}) × Machine W)}
          → LoadedPages n (vaddr + 4096) (record w { memory = after }) o
          → LoadedPages (suc n) vaddr m o
      unfolding ptrs
      extend p w after e f (stopped error m' k) =
          stopped error m'
            (Kept-trans m (record w { memory = after }) m' (Kept-Filled vaddr p m w after e f) k)
      extend p w after e f (loaded m' ptr k all) =
          loaded m' (ptrs (add64 phys_mem_offset p) ptr)
            (Kept-trans m (record w { memory = after }) m' (Kept-Filled vaddr p m w after e f) k)
            holds
        where
          holds :
              (i : ℕ)
              → i < suc n
              → Holds (vaddr + 4096 * i) (ptrs (add64 phys_mem_offset p) ptr i) m'.memory
          holds zero lt = first_page p w after e f m' k
          holds (suc i) lt =
              let same : vaddr + 4096 + 4096 * i ≡ vaddr + 4096 * suc i = omega arith in
              subst (λ (v : ℕ). Holds v (ptr i) m'.memory) same (all i (omega arith))

      step :
          {o : Outcome (Result (Unit {0}) × Machine W)}
          → Loaded allocate_frame map_to header program_header ops phys_mem_offset file ph vaddr
              flags m o
          → ((m1 : Machine W) → LoadedPages n (vaddr + 4096) m1 (pages_load n (vaddr + 4096) m1))
          → LoadedPages (suc n) vaddr m (o >>= continue n vaddr)
      step (refused e w eq) rest = stopped e w (record {
        memory = λ a h. hands.kept vaddr flags (err e) m w a eq h;
        frames = λ a h. hands.still vaddr flags (err e) m w a eq h;
      })
      step (filled p w after eq f) rest = extend p w after eq f (rest (record w { memory = after }))

    -- For a frame allocator and page tables that hand out frames that nobody holds and write none of those
    -- held, with a segment that ends below 2^64, pages of the lower half of the address space and the segment's
    -- bytes all in a file shorter than 2^64, loading the pages does not panic. It changes no byte of a frame
    -- held before, and if it succeeds, every page is mapped to a frame that holds, at the end, the page's
    -- share of the segment and zeros around it.
    pub load_pages-LoadedPages :
        (doc : IsDocumented ops) (n vaddr : ℕ) (m : Machine W)
        → ph.p_vaddr + ph.p_filesz < word
        → vaddr + 4096 * n ≤ 0x8000_0000_0000
        → ph.p_offset + ph.p_filesz ≤ length file
        → length file < word
        → LoadedPages n vaddr m (pages_load n vaddr m)
    unfolding load_pages ptrs
    load_pages-LoadedPages doc zero v m hs hp hf hl =
        loaded m (λ k. 0) (record { memory = λ a h. refl; frames = λ a h. h }) (λ k lt. elim lt [ ])
    load_pages-LoadedPages doc (suc n) v m hs hp hf hl =
        step n v m
          (load_page-Loaded allocate_frame map_to header program_header ops phys_mem_offset doc file
            ph v flags m hs (inl (omega arith)) (omega arith) hf hl)
          (λ m1. load_pages-LoadedPages doc n (v + 4096) m1 hs (omega arith) hf hl)
