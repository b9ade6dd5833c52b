-- ===== src/Graphics/Shown.antt =====
-- The frame buffer of kernel/src/graphics.rs in the memory that `BootInfoFrameAllocator` hands out, and
-- the test image of kernel/src/main.rs on it.
use lymad_os.Base.{
  ℕ, ◌+◌, ◌-◌, ◌*◌, ◌/◌, ◌^◌, ◌≤◌, ◌<◌, ◌≡◌, ◌≢◌, ◌⊎◌, refl, ◌∙◌, ap, arith, Option, add64, mul64,
  word, Outcome, panic, ok, Array, inl, inr,
}
use lymad_os.Address.{AddressOps, IsDocumented}
use lymad_os.Memory.{
  BootInfoFrameAllocator, allocate_contiguous, allocate_contiguous_aligned, page_size, max_ranges,
}
use lymad_os.Memory.Ranges.{cover}
use lymad_os.Memory.Arrays.{active}
use lymad_os.Memory.Invariant.{IsValid, page_alignment}
use lymad_os.Memory.Allocate.{
  Allocated, Fits, Served, served, refused, allocate_contiguous_aligned-Served,
}
use lymad_os.Graphics.{
  FrameBufferInfo, Framebuffer, write_zeros, new, flip, paint_rows, show_green, green,
}
use lymad_os.Graphics.Buffers.{
  Painted, write_zeros-Painted, copy_pixels-Painted, row_end, paint_rows-at, paint_rows-outside,
}

-- The pages of the back buffer.
abbrev pub pages_for : FrameBufferInfo → ℕ
pages_for info = (info.stride * info.height * 4 + 4095) / 4096

-- A frame buffer whose back buffer is a block of its own, zeroed.
pub record Framed (info : FrameBufferInfo) (s : BootInfoFrameAllocator) (offset : ℕ)
    (memory : Array ℕ) (fb : Framebuffer) (t : BootInfoFrameAllocator) (memory' : Array ℕ)
    : Type 0 where
  pub phys : ℕ
  pub block : Allocated s page_size (pages_for info * page_size) phys t
  pub back : fb.back_buffer ≡ offset + phys
  pub room : 4 * (info.stride * info.height) ≤ pages_for info * page_size
  pub fits : fb.back_buffer + pages_for info * page_size ≤ word
  pub front : fb.front_buffer ≡ info.buffer
  pub width : fb.width ≡ info.width
  pub height : fb.height ≡ info.height
  pub stride : fb.stride ≡ info.stride
  pub zeroed : Painted fb.back_buffer (info.stride * info.height) (λ i. 0) memory memory'

-- What `new` comes to: a frame buffer, or a panic where no free range has a block of the size.
abbrev pub Frames :
    FrameBufferInfo
    → BootInfoFrameAllocator
    → ℕ
    → Array ℕ
    → Outcome (Framebuffer × BootInfoFrameAllocator × Array ℕ)
    → Type 0
Frames info s offset memory r =
    ((fb : Framebuffer) × (t : BootInfoFrameAllocator) × (memory' : Array ℕ) × (r
        ≡ ok (fb, t, memory'))
      × Framed info s offset memory fb t memory')
    ⊎ ((r ≡ panic)
        × ((k : ℕ)
            → k < s.range_count
            → s.range_count < max_ranges
            → ¬ Fits s page_size (pages_for info * page_size) k))

-- The sizes do not wrap.
sizes :
    (info : FrameBufferInfo)
    → info.stride * info.height ≤ 2 ^ 40
    → (mul64 info.stride info.height ≡ info.stride * info.height)
      × (add64 (mul64 (info.stride * info.height) 4) 4095 / 4096 ≡ pages_for info)
sizes info small =
    let exact : mul64 info.stride info.height ≡ info.stride * info.height = omega arith in
    (exact, omega arith)

-- An allocated block was free.
block-free :
    (s t : BootInfoFrameAllocator) (alignment size p x : ℕ)
    → Allocated s alignment size p t
    → p ≤ x
    → x < p + size
    → 0 < cover x (active s)
block-free s t alignment size p x a low high = ground (arith, a.taken x)

-- The kernel sees the free physical addresses below 2^52.
abbrev pub Visible : (offset : ℕ) → BootInfoFrameAllocator → Type 0
Visible offset s = (x : ℕ) → 0 < cover x (active s) → x + offset < 0x10_0000_0000_0000

frames :
    {ops : AddressOps} (doc : IsDocumented ops) (info : FrameBufferInfo)
    (s : BootInfoFrameAllocator) (offset : ℕ) (memory : Array ℕ)
    (o : Outcome (Option ℕ × BootInfoFrameAllocator))
    → IsValid s
    → 0 < info.stride * info.height
    → info.stride * info.height ≤ 2 ^ 40
    → Visible offset s
    → allocate_contiguous s (pages_for info) ≡ o
    → Served s page_size (pages_for info * page_size) 0 s.range_count o
    → Frames info s offset memory (new ops info s offset memory)
unfolding new
frames {ops = ops} doc info s offset memory o v pos small visible e (served {p} {t} a) =
    let (exact, pages) = sizes info small in
    let n = info.stride * info.height in
    let size = pages_for info * page_size in
    let enough : 4 * n ≤ size = omega arith in
    let last =
      visible (p + size - 1)
        (block-free s t page_size size p (p + size - 1) a (omega arith) (omega arith)) in
    let sum : ops.add_phys p offset ≡ ok (offset + p) =
      doc.add_phys p offset (omega arith)
      ∙ ap ok (let e : p + offset ≡ offset + p = omega arith in e) in
    let fb : Framebuffer = record {
      front_buffer = info.buffer;
      back_buffer = offset + p;
      width = info.width;
      height = info.height;
      stride = info.stride;
    } in
    let out : ℕ → Outcome (Framebuffer × BootInfoFrameAllocator × Array ℕ) =
      λ k. ok (fb, t, write_zeros (offset + p) k memory) in
    inl (
      fb,
      t,
      write_zeros (offset + p) n memory,
      rw (exact, pages, e, sum) (ap out exact),
      record {
        phys = p;
        block = a;
        back = refl;
        room = enough;
        fits = omega arith;
        front = refl;
        width = refl;
        height = refl;
        stride = refl;
        zeroed = write_zeros-Painted (offset + p) n memory (omega arith);
      },
    )
frames doc info s offset memory o v pos small visible e (refused f) =
    let (exact, pages) = sizes info small in
    inr (rw (exact, pages, e) refl, λ k lt room. f k (omega arith) lt room)

-- With the physical memory mapped at `offset`, valid free ranges whose addresses lie below 2^52 there, and a frame
-- buffer of at least one and at most 2^40 pixels: the new frame buffer has a back buffer in a block of whole pages, taken from the free
-- ranges, that has room for every pixel of the frame buffer; the pixels are zero, and no other memory is
-- written. Only if no free range has such a block, with room left in the array of ranges, does `new` panic.
pub new-Frames :
    {ops : AddressOps} (doc : IsDocumented ops) (info : FrameBufferInfo)
    (s : BootInfoFrameAllocator) (offset : ℕ) (memory : Array ℕ)
    → IsValid s
    → 0 < info.stride * info.height
    → info.stride * info.height ≤ 2 ^ 40
    → Visible offset s
    → Frames info s offset memory (new ops info s offset memory)
unfolding allocate_contiguous
new-Frames doc info s offset memory v pos small visible =
    frames doc info s offset memory (allocate_contiguous_aligned s (pages_for info) page_size) v pos
      small visible refl
      (allocate_contiguous_aligned-Served (pages_for info) v page_alignment refl (omega arith)
        (omega arith) (omega arith))

-- A frame buffer whose two buffers do not wrap and do not overlap, as `copy_nonoverlapping` asks for, and whose
-- rows are no longer than its stride: once main has painted and shown its test image, every visible pixel of the front buffer is
-- green, and memory outside the two buffers is as it was.
pub show_green-visible :
    (fb : Framebuffer) (memory : Array ℕ)
    → fb.width ≤ fb.stride
    → fb.back_buffer + 4 * (fb.stride * fb.height) ≤ word
    → fb.front_buffer + 4 * (fb.stride * fb.height) ≤ word
    → (fb.front_buffer + 4 * (fb.stride * fb.height) ≤ fb.back_buffer)
      ⊎ (fb.back_buffer + 4 * (fb.stride * fb.height) ≤ fb.front_buffer)
    → ((y x : ℕ)
        → y < fb.height
        → x < fb.width
        → show_green fb memory (fb.front_buffer + 4 * (y * fb.stride + x)) ≡ green)
      × ((a : ℕ)
          → ((i : ℕ)
              → i < fb.stride * fb.height
              → (a ≢ fb.front_buffer + 4 * i) × (a ≢ fb.back_buffer + 4 * i))
          → show_green fb memory a ≡ memory a)
unfolding show_green flip
show_green-visible fb memory wide fits fits' apart =
    let n = fb.stride * fb.height in
    let exact : mul64 fb.stride fb.height ≡ n = omega arith in
    let painted = paint_rows fb green fb.height memory in
    let copied = copy_pixels-Painted fb.back_buffer fb.front_buffer n painted fits fits' in
    (
      λ y x hy hx.
          let inside : y * fb.stride + x < n = omega (arith, row_end fb green fits wide y hy) in
          rw exact (copied.inside (y * fb.stride + x) inside)
          ∙ paint_rows-at fb green fits wide fb.height y x memory (omega arith) hy hx,
      λ a off.
          rw exact (copied.outside a (λ i h. (off i h).0))
          ∙ paint_rows-outside fb green fits wide fb.height a memory (omega arith) (λ y x hy hx.
            (off (y * fb.stride + x) (omega (arith, row_end fb green fits wide y hy))).1),
    )
