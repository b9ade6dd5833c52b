-- ===== src/Loader.antt =====
-- kernel/src/tasks/elf.rs and kernel/src/mm/user.rs: loading a program into user pages.
--
-- The frame allocator and the page tables are the x86_64 crate's traits, so their state `W` and their
-- operations, which may write memory, are parameters, as are the fields that goblin reads from the file.
-- `memory` is the byte at an address of the kernel's.
pub mod Page
pub mod Load
pub mod Segment
pub mod Whole
mod Tests
use lymad_os.Base.{
  ℕ, zero, suc, ◌+◌, ◌-◌, ◌*◌, ◌/◌, ◌%◌, min, max, bit_and, bit_or, Bool, ◌&&◌, ◌||◌, not, Option,
  none, some, List, [], ◌∷◌, ltb, leb, ◌==◌, if◌then◌else◌, add64, sub64, mul64, length, get_elem?,
  Outcome, panic, ok, ◌>>=◌, Array,
}
use mathlib.Core.Option
use lymad_os.Address.{AddressOps}
use lymad_os.Bits.Mask.{align_down}

-- The messages of `MappingFailed`.
pub data Error : Type 0 where
  too_small invalid_magic not_64_bit header_out_of_bounds : Error
  frame_not_allocated page_not_mapped : Error

-- The fields of goblin's `Header` that are read.
pub record Header : Type 0 where
  pub e_ident : Array ℕ
  pub e_entry : ℕ
  pub e_phoff : ℕ
  pub e_phnum : ℕ
  pub e_phentsize : ℕ

pub record ProgramHeader : Type 0 where
  pub p_type : ℕ
  pub p_flags : ℕ
  pub p_offset : ℕ
  pub p_vaddr : ℕ
  pub p_filesz : ℕ
  pub p_memsz : ℕ

pub record ElfLoadResult : Type 0 where
  pub entry_point : ℕ
  pub stack_top : ℕ

-- A `Result` with this error.
pub data Result {ℓ} (A : Type ℓ) : Type ℓ where
  err : Error → Result A
  done : A → Result A

abbrev pub user_stack_top : ℕ
user_stack_top = 0x7_ffff_f000

abbrev pub user_stack_pages : ℕ
user_stack_pages = 16

abbrev pub user_stack_size : ℕ
user_stack_size = user_stack_pages * 4096

-- The bits of `PageTableFlags`. Distinct ones are joined by a sum.
abbrev present : ℕ
present = 1

abbrev writable : ℕ
writable = 2

abbrev user_accessible : ℕ
user_accessible = 4

abbrev no_execute : ℕ
no_execute = 0x8000_0000_0000_0000

-- `byte` of a file that is long enough, else 0.
abbrev pub byte_at : List ℕ → ℕ → ℕ
byte_at data_bytes i = Option.get_or (get_elem? data_bytes i) 0

-- `write_bytes(ptr, value, n)`
abbrev pub write_bytes : Array ℕ → (ptr value n : ℕ) → Array ℕ
write_bytes memory ptr value n a = if leb ptr a && ltb a (ptr + n) then value else memory a

-- `copy_nonoverlapping` of `n` bytes of the file from `from`, to `ptr`.
abbrev pub copy_bytes : List ℕ → Array ℕ → (from ptr n : ℕ) → Array ℕ
copy_bytes file memory from ptr n a =
    if leb ptr a && ltb a (ptr + n) then byte_at file (from + (a - ptr)) else memory a

-- The copy into the page at `page_vaddr`, which the kernel writes at `kernel_ptr`: a slice out of range
-- panics.
pub copy_page : List ℕ → ProgramHeader → (page_vaddr kernel_ptr : ℕ) → Array ℕ → Outcome (Array ℕ)
copy_page file ph page_vaddr kernel_ptr memory =
    let page_end = add64 page_vaddr 4096 in
    let seg_file_end = add64 ph.p_vaddr ph.p_filesz in
    let copy_start = max ph.p_vaddr page_vaddr in
    let copy_end = min seg_file_end page_end in
    let copy_len = sub64 copy_end copy_start in
    let file_offset = add64 ph.p_offset (sub64 copy_start ph.p_vaddr) in
    let file_end = add64 file_offset copy_len in
    let page_offset = sub64 copy_start page_vaddr in
    if ltb page_vaddr seg_file_end && ltb ph.p_vaddr page_end
    then (if ltb 0 copy_len
        then (if ltb file_end file_offset || ltb (length file) file_end
            then panic
            else ok (copy_bytes file memory file_offset (kernel_ptr + page_offset) copy_len))
        else ok memory)
    else ok memory

-- The machine as the loader sees it.
pub record Machine (W : Type 0) : Type 0 where
  pub memory : Array ℕ
  pub paging : W

-- `allocate_frame` gives the physical address of a frame, `map_to` whether the mapping was made;
-- `header` and `program_header` read the file's structures.
module _ {W : Type 0} (allocate_frame : Machine W → Option ℕ × Machine W)
    (map_to : (page frame flags : ℕ) → Machine W → Bool × Machine W) (header : List ℕ → Header)
    (program_header : List ℕ → ℕ → ProgramHeader) (ops : AddressOps) (phys_mem_offset : ℕ) where
  pub map_user_page : (vaddr flags : ℕ) → Machine W → Result ℕ × Machine W
  map_user_page vaddr flags m =
      let page = align_down vaddr 4096 in
      let (frame, allocated) = allocate_frame m in
      elim frame [
        | none ↦ (err frame_not_allocated, allocated)
        | some phys_addr ↦
            let (is_mapped, mapped) = map_to page phys_addr flags allocated in
            if is_mapped then (done phys_addr, mapped) else (err page_not_mapped, mapped)
      ]

  -- The rest of the work on a page, with what the mapping gave: the page is zeroed, and gets its share
  -- of the segment, if there is one.
  abbrev pub fill_page :
      (page_vaddr : ℕ)
      → Option (List ℕ × ProgramHeader)
      → Result ℕ × Machine W
      → Outcome (Result (Unit {0}) × Machine W)
  fill_page page_vaddr segment (err e, m) = ok (err e, m)
  fill_page page_vaddr none (done phys_addr, m) =
      let kernel_ptr = add64 phys_mem_offset phys_addr in
      ok (done tt, record m { memory = write_bytes m.memory kernel_ptr 0 4096 })
  fill_page page_vaddr (some (file, ph)) (done phys_addr, m) =
      let kernel_ptr = add64 phys_mem_offset phys_addr in
      copy_page file ph page_vaddr kernel_ptr (write_bytes m.memory kernel_ptr 0 4096) >>= λ memory.
      ok (done tt, record m { memory = memory })

  pub load_page :
      (page_vaddr flags : ℕ)
      → Option (List ℕ × ProgramHeader)
      → Machine W
      → Outcome (Result (Unit {0}) × Machine W)
  load_page page_vaddr flags segment m = ops.new_virt page_vaddr >>= λ vaddr.
      fill_page page_vaddr segment (map_user_page vaddr flags m)

  -- The loops over pages: `n` pages from `page_vaddr` up.
  pub load_pages :
      (n page_vaddr flags : ℕ)
      → Option (List ℕ × ProgramHeader)
      → Machine W
      → Outcome (Result (Unit {0}) × Machine W)
  load_pages zero page_vaddr flags segment m = ok (done tt, m)
  load_pages (suc n) page_vaddr flags segment m =
      load_page page_vaddr flags segment m >>= λ (r, m'). elim r [
        | err e ↦ ok (err e, m')
        | done _ ↦ load_pages n (page_vaddr + 4096) flags segment m'
      ]

  -- `(start..end).step_by(4096)`
  abbrev pub page_steps : (start end : ℕ) → ℕ
  page_steps start end = (end - start + 4095) / 4096

  pub load_segment : List ℕ → ProgramHeader → Machine W → Outcome (Result (Unit {0}) × Machine W)
  load_segment file ph m =
      let base_flags = present + user_accessible + writable in
      let page_flags = if bit_and ph.p_flags 1 == 0 then base_flags + no_execute else base_flags in
      let start_page = align_down ph.p_vaddr 4096 in
      let end_page = align_down (add64 (add64 ph.p_vaddr ph.p_memsz) 0xfff) 4096 in
      load_pages (page_steps start_page end_page) start_page page_flags (some (file, ph)) m

  -- The loop over the program headers: `n` of them from the `i`-th up.
  pub load_headers :
      List ℕ → Header → (n i : ℕ) → Machine W → Outcome (Result (Unit {0}) × Machine W)
  load_headers file h zero i m = ok (done tt, m)
  load_headers file h (suc n) i m =
      let ph_start = add64 h.e_phoff (mul64 i h.e_phentsize) in
      let ph = program_header file ph_start in
      if ltb (length file) (add64 ph_start 56)
      then ok (err header_out_of_bounds, m)
      else (if ph.p_type == 1 then load_segment file ph m else ok (done tt, m)) >>= λ (r, m').
          elim r [ err e ↦ ok (err e, m') | done _ ↦ load_headers file h n (i + 1) m' ]

  -- `\x7fELF`
  abbrev pub is_elf : Header → Bool
  is_elf h =
      (h.e_ident 0 == 0x7f && h.e_ident 1 == 0x45) && (h.e_ident 2 == 0x4c && h.e_ident 3 == 0x46)

  pub load_elf : List ℕ → Machine W → Outcome (Result ElfLoadResult × Machine W)
  load_elf file m =
      let h = header file in
      let stack_flags = present + writable + user_accessible + no_execute in
      if ltb (length file) 64
      then ok (err too_small, m)
      else if not (is_elf h)
      then ok (err invalid_magic, m)
      else if not (h.e_ident 4 == 2)
      then ok (err not_64_bit, m)
      else load_headers file h h.e_phnum 0 m >>= λ (r, m'). elim r [
        | err e ↦ ok (err e, m')
        | done _ ↦
            load_pages user_stack_pages (user_stack_top - user_stack_size) stack_flags none m'
            >>= λ (r', m''). elim r' [
              | err e ↦ ok (err e, m'')
              | done _ ↦
                  ok (done (record { entry_point = h.e_entry; stack_top = user_stack_top }), m'')
            ]
      ]
