-- ===== src/Loader/Tests.antt =====
-- The theorems on the loader of kernel/src/tasks/elf.rs, and on the first task, at a small file.
use lymad_os.Base.{
  ℕ, Outcome, ok, ◌==◌, Bool-cases, inl, inr, refl, ap, sym, ◌∙◌, ◌+◌, ◌≡◌, Bool, true, Option,
  some, List, [], ◌∷◌, arith, Array, if◌then◌else◌, ltb, leb, ◌≤◌, ◌<◌, none, suc, zero, get_elem?,
}
use mathlib.Core.Option
use lymad_os.Address.Example.{checked, checked-IsDocumented}
use lymad_os.Loader.Segment.{HandsOutFrames, LoadedPages, pages_load, load_pages-LoadedPages}
use lymad_os.Gdt.{Selectors}
use lymad_os.Tasks.Load.{Kernel, from_elf, Made, from_elf-Made}
use lymad_os.Tasks.Scheduler as scheduler
use lymad_os.Tasks.Start.{start_user_tasks, Started, start_user_tasks-Started}
use lymad_os.Loader.Whole.{Runs, load_elf-Runs}
use lymad_os.Loader.{
  ElfLoadResult, load_elf, user_stack_top, Result, done, err, frame_not_allocated, map_user_page,
  ProgramHeader, Header, Machine,
}
use lymad_os.Loader.Load.{mapping, Loaded, page_load, load_page-Loaded}

abbrev file : List ℕ
file = 9 ∷ 8 ∷ 7 ∷ 6 ∷ 5 ∷ []

-- Three bytes at 0x40_0ffe: the last comes to the next page.
abbrev segment : ProgramHeader
segment = record {
  p_type = 1;
  p_flags = 5;
  p_offset = 2;
  p_vaddr = 0x40_0ffe;
  p_filesz = 3;
  p_memsz = 0x1000;
}

abbrev blank : Array ℕ
blank _ = 0xff

-- Frames from the state up, and page tables that take any mapping, with one entry for all.
abbrev next_frame : Machine ℕ → Option ℕ × Machine ℕ
next_frame m = (some m.paging, record m { paging = m.paging + 4096 })

abbrev any_map : (page frame flags : ℕ) → Machine ℕ → Bool × Machine ℕ
any_map page frame flags m =
    (true, record m { memory = λ a. if a == 0x5000 then flags else m.memory a })

-- The ident of a 64-bit ELF file.
abbrev elf_ident : ℕ → ℕ
elf_ident i = Option.get_or (get_elem? (0x7f ∷ 0x45 ∷ 0x4c ∷ 0x46 ∷ 2 ∷ []) i) 0

abbrev elf_header : List ℕ → Header
elf_header _ = record {
  e_ident = elf_ident;
  e_entry = 0x40_0ffe;
  e_phoff = 64;
  e_phnum = 2;
  e_phentsize = 56;
}

abbrev only_segment : List ℕ → ℕ → ProgramHeader
only_segment _ _ = segment

abbrev machine : Machine ℕ
machine = record { memory = blank; paging = 0x9000 }

load_page-Loaded_example :
    Loaded next_frame any_map elf_header only_segment checked 0x10_0000 file segment 0x40_1000 5
      machine
      (page_load next_frame any_map elf_header only_segment checked 0x10_0000 0x40_1000 5
        (some (file, segment))
        machine)
load_page-Loaded_example =
    load_page-Loaded next_frame any_map elf_header only_segment checked 0x10_0000
      checked-IsDocumented file segment 0x40_1000 5 machine (omega arith) (inl (omega arith))
      (omega arith) (omega arith) (omega arith)

-- Frames from the state up, below 4 GiB.
abbrev bounded_frame : Machine ℕ → Option ℕ × Machine ℕ
bounded_frame m =
    if ltb m.paging 0x1_0000_0000
    then (some m.paging, record m { paging = m.paging + 4096 })
    else (none, m)

-- The frames below the state are held. The page table is none of them.
abbrev Held : ℕ → ℕ → Type 0
Held w a = (0x10_0000 ≤ a) × (a < 0x10_0000 + w)

abbrev map_bounded : (vaddr flags : ℕ) → Machine ℕ → Result ℕ × Machine ℕ
map_bounded = mapping bounded_frame any_map elf_header only_segment checked 0x10_0000

-- What a mapping comes to.
map_bounded_lem :
    (vaddr flags : ℕ) (m : Machine ℕ)
    → map_bounded vaddr flags m ≡ (
        if ltb m.paging 0x1_0000_0000
        then (
          done m.paging,
          record {
            memory = λ a. if a == 0x5000 then flags else m.memory a;
            paging = m.paging + 4096;
          },
        )
        else (err frame_not_allocated, m))
unfolding map_user_page
map_bounded_lem v f m = ground arith

map_bounded-done :
    (vaddr flags phys_addr : ℕ) (m m' : Machine ℕ)
    → map_bounded vaddr flags m ≡ (done phys_addr, m')
    → (phys_addr ≡ m.paging) × (m'.paging ≡ m.paging + 4096) × (m.paging < 0x1_0000_0000)
map_bounded-done v f p m m' e = ground (arith, map_bounded_lem v f m)

map_bounded-grows :
    (vaddr flags : ℕ) (r : Result ℕ) (m m' : Machine ℕ)
    → map_bounded vaddr flags m ≡ (r, m')
    → m.paging ≤ m'.paging
map_bounded-grows v f r m m' e = ground (arith, map_bounded_lem v f m)

map_bounded-keeps :
    (vaddr flags : ℕ) (r : Result ℕ) (m m' : Machine ℕ) (a : ℕ)
    → map_bounded vaddr flags m ≡ (r, m')
    → 0x10_0000 ≤ a
    → m'.memory a ≡ m.memory a
map_bounded-keeps v f r m m' a e high =
    ap (λ (o : Result ℕ × Machine ℕ). o.1.memory a) (sym e ∙ map_bounded_lem v f m)
    ∙ elim (Bool-cases (ltb m.paging 0x1_0000_0000)) [
      | inl b ↦ rw b (ground arith)
      | inr b ↦ rw b refl
    ]

bounded_frame-HandsOutFrames :
    HandsOutFrames bounded_frame any_map elf_header only_segment checked 0x10_0000 Held
bounded_frame-HandsOutFrames = record {
  fresh = λ v f p m m' i e lt h. ground (arith, map_bounded-done v f p m m' e);
  given = λ v f p m m' i e lt. ground (arith, map_bounded-done v f p m m' e);
  still = λ v f r m m' a e h. ground (arith, map_bounded-grows v f r m m' e);
  kept = λ v f r m m' a e h. map_bounded-keeps v f r m m' a e h.0;
}

load_pages-LoadedPages_example :
    LoadedPages bounded_frame any_map elf_header only_segment checked 0x10_0000
      bounded_frame-HandsOutFrames file segment 5 2 0x40_0000 machine
      (pages_load bounded_frame any_map elf_header only_segment checked 0x10_0000
        bounded_frame-HandsOutFrames file segment 5 2 0x40_0000 machine)
load_pages-LoadedPages_example =
    load_pages-LoadedPages bounded_frame any_map elf_header only_segment checked 0x10_0000
      bounded_frame-HandsOutFrames file segment 5 checked-IsDocumented 2 0x40_0000 machine
      (omega arith) (omega arith) (omega arith) (omega arith)

-- A file that has room for its header and two program headers.
abbrev bytes : ℕ → List ℕ
bytes zero = []
bytes (suc n) = n ∷ bytes n

abbrev elf_file : List ℕ
elf_file = bytes 200

load_elf-Runs_example :
    Runs bounded_frame any_map elf_header only_segment checked 0x10_0000
      bounded_frame-HandsOutFrames
      (λ (r : ElfLoadResult). (r.entry_point ≡ 0x40_0ffe) × (r.stack_top ≡ user_stack_top))
      machine
      (load_elf bounded_frame any_map elf_header only_segment checked 0x10_0000 elf_file machine)
load_elf-Runs_example =
    load_elf-Runs bounded_frame any_map elf_header only_segment checked 0x10_0000
      bounded_frame-HandsOutFrames checked-IsDocumented elf_file (omega arith) machine
      (λ i lt kind. (omega arith, omega arith, omega arith))

-- Boxes from the state up.
abbrev next_box : ℕ → Outcome (ℕ × ℕ)
next_box h = ok (h, h + 4096)

abbrev gdt : Selectors
gdt = record { code = 8; kernel_data = 16; user_data = 24; user_code = 32; tss = 40 }

abbrev kernel : Kernel ℕ ℕ
kernel = record { next_task_id = 1; machine = machine; heap = 0x4444_0000 }

from_elf-Made_example :
    Made bounded_frame any_map elf_header only_segment checked 0x10_0000 next_box gdt
      bounded_frame-HandsOutFrames 0x40_0ffe kernel
      (from_elf bounded_frame any_map elf_header only_segment checked 0x10_0000 next_box gdt
        elf_file kernel)
from_elf-Made_example =
    from_elf-Made bounded_frame any_map elf_header only_segment checked 0x10_0000 next_box gdt
      bounded_frame-HandsOutFrames checked-IsDocumented elf_file (omega arith) kernel
      (λ i lt kind. (omega arith, omega arith, omega arith))

-- Room for a hundred tasks.
abbrev room : ℕ → Bool
room n = leb n 100

start_user_tasks-Started_example :
    Started bounded_frame any_map elf_header only_segment checked 0x10_0000 next_box gdt room
      bounded_frame-HandsOutFrames elf_file kernel
      (start_user_tasks bounded_frame any_map elf_header only_segment checked 0x10_0000 next_box gdt
        room elf_file scheduler.new kernel)
start_user_tasks-Started_example =
    start_user_tasks-Started bounded_frame any_map elf_header only_segment checked 0x10_0000
      next_box gdt room bounded_frame-HandsOutFrames checked-IsDocumented elf_file (omega arith)
      kernel (λ i lt kind. (omega arith, omega arith, omega arith))
