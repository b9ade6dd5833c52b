-- ===== src/Graphics.antt =====
-- kernel/src/graphics.rs: the frame buffer with its back buffer, and the test image of kernel/src/main.rs.
--
-- `memory` is what stands at an address, read as a `u32`. The boot loader's `FrameBuffer` is the address of
-- its buffer and its sizes.
pub mod Buffers
pub mod Shown
mod Tests
use lymad_os.Base.{
  ℕ, zero, suc, ◌+◌, ◌*◌, ◌/◌, Option, none, some, add64, mul64, Outcome, panic, ok, ◌>>=◌, Array,
  write,
}
use lymad_os.Address.{AddressOps}
use lymad_os.Memory.{BootInfoFrameAllocator, allocate_contiguous}

pub record FrameBufferInfo : Type 0 where
  pub buffer : ℕ
  pub width : ℕ
  pub height : ℕ
  pub stride : ℕ

pub record Framebuffer : Type 0 where
  pub front_buffer : ℕ
  pub back_buffer : ℕ
  pub width : ℕ
  pub height : ℕ
  pub stride : ℕ

-- `ptr.add(i)` of a `*mut u32`.
abbrev pub pixel : (buffer i : ℕ) → ℕ
pixel buffer i = add64 buffer (4 * i)

-- `write_bytes(buffer, 0, n)`
pub write_zeros : (buffer n : ℕ) → Array ℕ → Array ℕ
write_zeros buffer zero memory = memory
write_zeros buffer (suc n) memory = write (write_zeros buffer n memory) (pixel buffer n) 0

-- `copy_nonoverlapping(from, to, n)`
pub copy_pixels : (from to n : ℕ) → Array ℕ → Array ℕ
copy_pixels from to zero memory = memory
copy_pixels from to (suc n) memory =
    write (copy_pixels from to n memory) (pixel to n) (memory (pixel from n))

pub new :
    AddressOps
    → FrameBufferInfo
    → BootInfoFrameAllocator
    → (phys_mem_offset : ℕ) → Array ℕ
    → Outcome (Framebuffer × BootInfoFrameAllocator × Array ℕ)
new ops info allocator phys_mem_offset memory =
    let buffer_size = mul64 (mul64 info.stride info.height) 4 in
    let pages_needed = add64 buffer_size 4095 / 4096 in
    allocate_contiguous allocator pages_needed >>= λ (phys_addr, t). elim phys_addr [
      | none ↦ panic
      | some phys ↦ ops.add_phys phys phys_mem_offset >>= λ back_buffer. ok (
        record {
          front_buffer = info.buffer;
          back_buffer = back_buffer;
          width = info.width;
          height = info.height;
          stride = info.stride;
        },
        t,
        write_zeros back_buffer (mul64 info.stride info.height) memory,
      )
    ]

pub flip : Framebuffer → Array ℕ → Array ℕ
flip fb memory = copy_pixels fb.back_buffer fb.front_buffer (mul64 fb.stride fb.height) memory

-- The inner loop of `main`, over `n` columns of row `y`.
pub paint_row : Framebuffer → (y colour n : ℕ) → Array ℕ → Array ℕ
paint_row fb y colour zero memory = memory
paint_row fb y colour (suc n) memory =
    write (paint_row fb y colour n memory) (pixel fb.back_buffer (add64 (mul64 y fb.stride) n))
      colour

-- The outer loop of `main`, over `n` rows.
pub paint_rows : Framebuffer → (colour n : ℕ) → Array ℕ → Array ℕ
paint_rows fb colour zero memory = memory
paint_rows fb colour (suc n) memory = paint_row fb n colour fb.width (paint_rows fb colour n memory)

abbrev pub green : ℕ
green = 0x00FF00

-- The test of `main`: a green image in the back buffer, which is then shown.
pub show_green : Framebuffer → Array ℕ → Array ℕ
show_green fb memory = flip fb (paint_rows fb green fb.height memory)
