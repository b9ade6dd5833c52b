-- ===== src/Loader/Whole.antt =====
-- Loading a whole program, in kernel/src/tasks/elf.rs.
use lymad_os.Base.{
  ℕ, zero, suc, ◌+◌, ◌-◌, ◌*◌, ◌/◌, ltb, leb, ◌&&◌, ◌==◌, not, if◌then◌else◌, Bool-cases, inl, inr,
  ◌≤◌, ◌<◌, ◌≡◌, refl, ◌∙◌, Bool, Option, none, List, word, add64, mul64, length, arith, Outcome,
  ok, ◌>>=◌, bit_and,
}
use lymad_os.Bits.Mask.{align_down, align_down_lem}
use lymad_os.Memory.Invariant.{page_alignment}
use lymad_os.Address.{AddressOps, IsCanonical, IsDocumented}
use lymad_os.Loader.{
  ProgramHeader, Header, Error, Result, err, done, Machine, ElfLoadResult, load_page, load_pages,
  load_segment, load_headers, load_elf, write_bytes, user_stack_top, user_stack_size,
  user_stack_pages, fill_page, is_elf,
}
use lymad_os.Loader.Load.{mapping, page_load}
use lymad_os.Loader.Segment.{HandsOutFrames, LoadedPages, stopped, loaded, load_pages-LoadedPages}

-- The bytes of a loadable segment lie in the file, and it lies in the lower half of the address
-- space.
abbrev pub WellFormed : List ℕ → ProgramHeader → Type 0
WellFormed file ph =
    ph.p_type ≡ 1
    → (ph.p_vaddr + ph.p_filesz < word)
      × (ph.p_vaddr + ph.p_memsz ≤ 0x8000_0000_0000)
      × (ph.p_offset + ph.p_filesz ≤ length file)

-- The pages of a segment end where its memory does, at a page's end.
pages_end :
    (vaddr memsz : ℕ)
    → vaddr + memsz ≤ 0x8000_0000_0000
    → let start = align_down vaddr 4096 in
      let end = align_down (add64 (add64 vaddr memsz) 0xfff) 4096 in
      start + 4096 * ((end - start + 4095) / 4096) ≤ 0x8000_0000_0000
pages_end vaddr memsz h =
    let sum : add64 (add64 vaddr memsz) 0xfff ≡ vaddr + memsz + 0xfff = omega arith in
    let low = align_down_lem page_alignment vaddr (omega arith) in
    let high = align_down_lem page_alignment (vaddr + memsz + 0xfff) (omega arith) in
    rw (sum, low, high) (omega arith)

module _ {W : Type 0} (allocate_frame : Machine W → Option ℕ × Machine W)
    (map_to : (page frame flags : ℕ) → Machine W → Bool × Machine W) (header : List ℕ → Header)
    (program_header : List ℕ → ℕ → ProgramHeader) (ops : AddressOps) (phys_mem_offset : ℕ)
    {Held : W → ℕ → Type 0}
    (hands : HandsOutFrames allocate_frame map_to header program_header ops phys_mem_offset
      Held) where
  -- The bytes of frames held before have not changed.
  pub record Keeps (m m' : Machine W) : Type 0 where
    pub memory : (a : ℕ) → Held m.paging a → m'.memory a ≡ m.memory a
    pub frames : (a : ℕ) → Held m.paging a → Held m'.paging a

  Keeps-refl : (m : Machine W) → Keeps m m
  Keeps-refl m = record { memory = λ a h. refl; frames = λ a h. h }

  Keeps-trans : (m m' m'' : Machine W) → Keeps m m' → Keeps m' m'' → Keeps m m''
  Keeps-trans m m' m'' k k' = record {
    memory = λ a h. k'.memory a (k.frames a h) ∙ k.memory a h;
    frames = λ a h. k'.frames a (k.frames a h);
  }

  -- A run that does not panic and keeps the frames, with a result of which `Q` holds.
  pub data Runs {A : Type 0} (Q : A → Type 0) (m : Machine W)
      : Outcome (Result A × Machine W) → Type 0 where
    failed : (e : Error) (m' : Machine W) → Keeps m m' → Runs Q m (ok (err e, m'))
    finished : (a : A) (m' : Machine W) → Q a → Keeps m m' → Runs Q m (ok (done a, m'))

  Runs-after :
      {A : Type 0} (Q : A → Type 0) (m m' : Machine W) {o : Outcome (Result A × Machine W)}
      → Keeps m m'
      → Runs Q m' o
      → Runs Q m o
  Runs-after Q m m' k (failed e m'' k') = failed e m'' (Keeps-trans m m' m'' k k')
  Runs-after Q m m' k (finished a m'' q k') = finished a m'' q (Keeps-trans m m' m'' k k')

  -- What follows a step that may fail.
  abbrev and_then :
      {A : Type 0}
      → (Machine W → Outcome (Result A × Machine W))
      → Result (Unit {0}) × Machine W
      → Outcome (Result A × Machine W)
  and_then f (r, m') = elim r [ err e ↦ ok (err e, m') | done x ↦ f m' ]

  Runs-then :
      {A : Type 0} (Q : A → Type 0) (m : Machine W) {o : Outcome (Result (Unit {0}) × Machine W)}
      (f : Machine W → Outcome (Result A × Machine W))
      → Runs (λ x. Unit {0}) m o
      → ((m' : Machine W) → Runs Q m' (f m'))
      → Runs Q m (o >>= and_then f)
  Runs-then Q m f (failed e m' k) rest = failed e m' k
  Runs-then Q m f (finished x m' q k) rest = Runs-after Q m m' k (rest m')

  -- A page of the stack.
  stack_page :
      (doc : IsDocumented ops) (v flags : ℕ) (m : Machine W)
      → IsCanonical v
      → Runs
          (λ x. Unit {0})
          m
          (page_load allocate_frame map_to header program_header ops phys_mem_offset v flags none m)
  unfolding load_page
  stack_page doc v flags m canonical =
      rw (doc.new_virt v canonical) (
        go (mapping allocate_frame map_to header program_header ops phys_mem_offset v flags m) refl)
    where
      go :
          (r : Result ℕ × Machine W)
          → mapping allocate_frame map_to header program_header ops phys_mem_offset v flags m ≡ r
          → Runs
              (λ x. Unit {0})
              m
              (fill_page allocate_frame map_to header program_header ops phys_mem_offset v none r)
      go (err e, w) eq = failed e w (record {
        memory = λ a h. hands.kept v flags (err e) m w a eq h;
        frames = λ a h. hands.still v flags (err e) m w a eq h;
      })
      go (done p, w) eq =
          let ptr = add64 phys_mem_offset p in
          finished tt (record w { memory = write_bytes w.memory ptr 0 4096 }) tt
            (record {
              memory = λ a h. elim (Bool-cases (leb ptr a && ltb a (ptr + 4096))) [
                | inl inside ↦
                    let at : ptr + (a - ptr) ≡ a = ground arith in
                    let h' : Held m.paging (ptr + (a - ptr)) = rw at h in
                    absurd (hands.fresh v flags p m w (a - ptr) eq (ground arith) h')
                | inr outside ↦ rw outside (hands.kept v flags (done p) m w a eq h)
              ];
              frames = λ a h. hands.still v flags (done p) m w a eq h;
            })

  stack_pages :
      (doc : IsDocumented ops) (n v flags : ℕ) (m : Machine W)
      → v + 4096 * n ≤ 0x8000_0000_0000
      → Runs
          (λ x. Unit {0})
          m
          (load_pages allocate_frame map_to header program_header ops phys_mem_offset n v flags none
            m)
  unfolding load_pages
  stack_pages doc zero v flags m low = finished tt m tt (Keeps-refl m)
  stack_pages doc (suc n) v flags m low =
      Runs-then (λ x. Unit {0}) m
        (load_pages allocate_frame map_to header program_header ops phys_mem_offset n (v + 4096)
          flags none)
        (stack_page doc v flags m (inl (omega arith)))
        (λ m'. stack_pages doc n (v + 4096) flags m' (omega arith))

  pages-Runs :
      (file : List ℕ) (ph : ProgramHeader) (flags n v : ℕ) (m : Machine W)
      {o : Outcome (Result (Unit {0}) × Machine W)}
      → LoadedPages allocate_frame map_to header program_header ops phys_mem_offset hands file ph
          flags n v m o
      → Runs (λ x. Unit {0}) m o
  pages-Runs file ph flags n v m (stopped e m' k) =
      failed e m' (record { memory = k.memory; frames = k.frames })
  pages-Runs file ph flags n v m (loaded m' ptr k all) =
      finished tt m' tt (record { memory = k.memory; frames = k.frames })

  module _ (doc : IsDocumented ops) (file : List ℕ) (small : length file < word) where
    segment-Runs :
        (ph : ProgramHeader) (m : Machine W)
        → ph.p_type ≡ 1
        → WellFormed file ph
        → Runs
            (λ x. Unit {0})
            m
            (load_segment allocate_frame map_to header program_header ops phys_mem_offset file ph m)
    unfolding load_segment
    segment-Runs ph m kind good =
        let (a, b, c) = good kind in
        let flags = if bit_and ph.p_flags 1 == 0 then 7 + 0x8000_0000_0000_0000 else 7 in
        pages-Runs file ph flags _ _ m (
          load_pages-LoadedPages allocate_frame map_to header program_header ops phys_mem_offset
            hands file ph flags doc _ _ m a (pages_end ph.p_vaddr ph.p_memsz b) c small)

    -- What comes between the headers: a segment that is to be loaded, or nothing.
    header-Runs :
        (ph : ProgramHeader) (m : Machine W)
        → WellFormed file ph
        → Runs
            (λ x. Unit {0})
            m
            (if ph.p_type == 1
              then load_segment allocate_frame map_to header program_header ops phys_mem_offset file
                  ph m
              else ok (done tt, m))
    header-Runs ph m good = elim (Bool-cases (ph.p_type == 1)) [
      | inl load ↦ rw load (segment-Runs ph m (ground (arith, load)) good)
      | inr other ↦ rw other (finished tt m tt (Keeps-refl m))
    ]

    -- The program header that the file has at an index of its table.
    abbrev pub header_at : Header → ℕ → ProgramHeader
    header_at h i = program_header file (add64 h.e_phoff (mul64 i h.e_phentsize))

    headers-Runs :
        (h : Header) (n i : ℕ) (m : Machine W)
        → ((j : ℕ) → i ≤ j → j < i + n → WellFormed file (header_at h j))
        → Runs
            (λ x. Unit {0})
            m
            (load_headers allocate_frame map_to header program_header ops phys_mem_offset file h n i
              m)
    unfolding load_headers
    headers-Runs h zero i m good = finished tt m tt (Keeps-refl m)
    headers-Runs h (suc n) i m good =
        let rest =
          load_headers allocate_frame map_to header program_header ops phys_mem_offset file h n
            (i + 1) in
        elim (Bool-cases (ltb (length file) (add64 (add64 h.e_phoff (mul64 i h.e_phentsize)) 56))) [
          | inl short ↦ rw short (failed _ m (Keeps-refl m))
          | inr inside ↦ rw inside (
              Runs-then (λ x. Unit {0}) m rest
                (header-Runs (header_at h i) m (good i (omega arith) (omega arith)))
                (λ m'. headers-Runs h n (i + 1) m' (λ j lo hi. good j (omega arith) (omega arith))))
        ]

    -- The segments of a program, and its stack.
    body-Runs :
        (h : Header) (m : Machine W)
        → ((i : ℕ) → i < h.e_phnum → WellFormed file (header_at h i))
        → Runs
            (λ (r : ElfLoadResult). (r.entry_point ≡ h.e_entry) × (r.stack_top ≡ user_stack_top))
            m
            (load_headers allocate_frame map_to header program_header ops phys_mem_offset file h
                h.e_phnum 0 m
              >>= and_then (λ m'.
                load_pages allocate_frame map_to header program_header ops phys_mem_offset
                  user_stack_pages
                  (user_stack_top - user_stack_size)
                  (7 + 0x8000_0000_0000_0000)
                  none
                  m'
                >>= and_then (λ m''.
                  ok (done (record { entry_point = h.e_entry; stack_top = user_stack_top }), m''))))
    body-Runs h m good =
        let Q : ElfLoadResult → Type 0 =
          λ r. (r.entry_point ≡ h.e_entry) × (r.stack_top ≡ user_stack_top) in
        let end : Machine W → Outcome (Result ElfLoadResult × Machine W) =
          λ m''. ok (done (record { entry_point = h.e_entry; stack_top = user_stack_top }), m'') in
        Runs-then Q m
          (λ m'.
            load_pages allocate_frame map_to header program_header ops phys_mem_offset
              user_stack_pages (user_stack_top - user_stack_size) (7 + 0x8000_0000_0000_0000) none
              m'
            >>= and_then end)
          (headers-Runs h h.e_phnum 0 m (λ j lo hi. good j (omega arith)))
          (λ m'.
            Runs-then Q m' end
              (stack_pages doc user_stack_pages (user_stack_top - user_stack_size)
                (7 + 0x8000_0000_0000_0000) m' (omega arith))
              (λ m''. finished _ m'' (refl, refl) (Keeps-refl m'')))

    -- For a frame allocator and page tables that hand out frames that nobody holds and write none of those held,
    -- and a file shorter than 2^64 bytes whose loadable segments have their bytes in the file and lie in the lower
    -- half of the address space: loading the program does not panic, whether it ends in an error or not, and
    -- changes no byte of a frame held before. If it succeeds, it gives the file's entry point and the top of the user stack.
    pub load_elf-Runs :
        (m : Machine W)
        → ((i : ℕ) → i < (header file).e_phnum → WellFormed file (header_at (header file) i))
        → Runs
            (λ (r : ElfLoadResult).
              (r.entry_point ≡ (header file).e_entry) × (r.stack_top ≡ user_stack_top))
            m
            (load_elf allocate_frame map_to header program_header ops phys_mem_offset file m)
    unfolding load_elf
    load_elf-Runs m good =
        let Q : ElfLoadResult → Type 0 =
          λ r. (r.entry_point ≡ (header file).e_entry) × (r.stack_top ≡ user_stack_top) in
        elim (Bool-cases (ltb (length file) 64)) [
          | inl a ↦ rw a (failed _ m (Keeps-refl m))
          | inr a ↦
              rw a
                (elim (Bool-cases (
                  not (
                    is_elf allocate_frame map_to header program_header ops phys_mem_offset
                      (header file)))) [
                        | inl b ↦ rw b (failed _ m (Keeps-refl m))
                        | inr b ↦ rw b (elim (Bool-cases (not ((header file).e_ident 4 == 2))) [
                          | inl c ↦ rw c (failed _ m (Keeps-refl m))
                          | inr c ↦ rw c (body-Runs (header file) m good)
                        ])
                      ])
        ]
