-- ===== src/Graphics/Tests.antt =====
-- The theorems on kernel/src/graphics.rs at a small frame buffer.
use lymad_os.Base.{ℕ, ◌+◌, ◌*◌, ◌<◌, ◌≡◌, ◌≢◌, refl, arith, inl, Array}
use lymad_os.Address.Example.{checked, checked-IsDocumented}
use lymad_os.Memory.{range, BootInfoFrameAllocator}
use lymad_os.Memory.Invariant.{IsValid}
use lymad_os.Graphics.{FrameBufferInfo, Framebuffer, new, show_green, green}
use lymad_os.Graphics.Shown.{Visible, Frames, new-Frames, show_green-visible}

-- Three columns on a stride of four, and two rows.
abbrev info : FrameBufferInfo
info = record { buffer = 0xfd00_0000; width = 3; height = 2; stride = 4 }

abbrev one_range : BootInfoFrameAllocator
one_range = record {
  free_ranges = λ _. range 0x2000 0x4000;
  range_count = 1;
  allocated_bytes = 0;
  total_bytes = 0x2000;
}

one_range-IsValid : IsValid one_range
one_range-IsValid = record {
  bounded = omega arith;
  chain = (omega arith, omega arith, tt);
  pages = (record { start_on_page = refl; end_on_page = refl; physical = omega arith }, tt);
  accounted = refl;
  total_fits = omega arith;
}

one_range-Visible : Visible 0x180_0000_0000 one_range
one_range-Visible x h = ground arith

abbrev memory : Array ℕ
memory a = a

new-Frames_example :
    Frames info one_range 0x180_0000_0000 memory (new checked info one_range 0x180_0000_0000 memory)
new-Frames_example =
    new-Frames checked-IsDocumented info one_range 0x180_0000_0000 memory one_range-IsValid
      (omega arith) (omega arith) one_range-Visible

abbrev small : Framebuffer
small = record {
  front_buffer = 0xfd00_0000;
  back_buffer = 0x180_0000_2000;
  width = 3;
  height = 2;
  stride = 4;
}

show_green-visible_example :
    ((y x : ℕ) → y < 2 → x < 3 → show_green small memory (0xfd00_0000 + 4 * (y * 4 + x)) ≡ green)
    × ((a : ℕ)
        → ((i : ℕ) → i < 8 → (a ≢ 0xfd00_0000 + 4 * i) × (a ≢ 0x180_0000_2000 + 4 * i))
        → show_green small memory a ≡ memory a)
show_green-visible_example =
    show_green-visible small memory (omega arith) (omega arith) (omega arith) (inl (omega arith))
