-- ===== src/Heap/Classes.antt =====
-- The size classes of the heap of kernel/src/mm/allocator.rs.
use lymad_os.Base.{
  ℕ, ◌+◌, ◌*◌, ◌%◌, ◌≤◌, ◌<◌, ◌≡◌, ◌⊎◌, refl, arith, ok, index, leb, Bool-cases, inl, inr,
}
use lymad_os.Slub.{SCache, page_size, object_start_offset, header_size, capacity}
use lymad_os.Slub as slub
use lymad_os.Slub.Invariant.{IsSize, IsSlot, IsPage, IsSlot-inside}
use lymad_os.Heap.{new_caches, size_index}

-- A cache for requests of the size: its objects are at least as large, less than twice as large unless
-- they are of the smallest class, and lie in the page, behind the header, at multiples of their size.
pub record Fits (request : ℕ) (c : SCache) : Type 0 where
  pub size : IsSize c.size
  pub enough : request ≤ c.size
  pub tight : (c.size ≡ 16) ⊎ (c.size < 2 * request)
  pub aligned : (page x : ℕ) → IsPage page → IsSlot c.size page x → x % c.size ≡ 0
  pub inside :
      (page x : ℕ)
      → IsPage page
      → IsSlot c.size page x
      → (page + header_size ≤ x) × (x + request ≤ page + page_size)

class-Fits :
    (request c : ℕ)
    → IsSize c
    → request ≤ c
    → (c ≡ 16) ⊎ (c < 2 * request)
    → ((page x : ℕ) → IsPage page → IsSlot c page x → x % c ≡ 0)
    → Fits request (slub.new c)
class-Fits request c k le tight at = record {
  size = k;
  enough = le;
  tight = tight;
  aligned = at;
  inside = λ page x p s. let got = IsSlot-inside c page x k s in (got.0, omega (arith, got.1));
}

-- For a request of at most 2048 bytes, the heap takes an object of a cache whose objects are at least
-- as large as the request, and of 16 bytes or less than twice as large as it. A page has room for at least one,
-- and each lies in its page, behind the header, at a multiple of the cache's size.
pub size_index-Fits :
    (request : ℕ)
    → request ≤ 2048
    → (c : SCache) × (index new_caches (size_index request) ≡ ok c) × Fits request c
unfolding object_start_offset
size_index-Fits request h = elim (Bool-cases (leb request 16)) [
  | inl a ↦ (
    slub.new 16,
    rw (a) refl,
    class-Fits request 16
        (record { positive = omega arith; some_room = omega arith; behind_header = omega arith })
        (ground arith) (inl refl) (λ page x p s. omega (arith, p.aligned, s.address)),
  )
  | inr a ↦ elim (Bool-cases (leb request 32)) [
    | inl b ↦ (
      slub.new 32,
      rw (a, b) refl,
      class-Fits request 32
          (record { positive = omega arith; some_room = omega arith; behind_header = omega arith })
          (ground arith) (ground arith) (λ page x p s. omega (arith, p.aligned, s.address)),
    )
    | inr b ↦ elim (Bool-cases (leb request 64)) [
      | inl c ↦ (
        slub.new 64,
        rw (a, b, c) refl,
        class-Fits request 64
            (record {
              positive = omega arith;
              some_room = omega arith;
              behind_header = omega arith;
            })
            (ground arith) (ground arith) (λ page x p s. omega (arith, p.aligned, s.address)),
      )
      | inr c ↦ elim (Bool-cases (leb request 128)) [
        | inl d ↦ (
          slub.new 128,
          rw (a, b, c, d) refl,
          class-Fits request 128
              (record {
                positive = omega arith;
                some_room = omega arith;
                behind_header = omega arith;
              })
              (ground arith) (ground arith) (λ page x p s. omega (arith, p.aligned, s.address)),
        )
        | inr d ↦ elim (Bool-cases (leb request 256)) [
          | inl e ↦ (
            slub.new 256,
            rw (a, b, c, d, e) refl,
            class-Fits request 256
                (record {
                  positive = omega arith;
                  some_room = omega arith;
                  behind_header = omega arith;
                })
                (ground arith) (ground arith) (λ page x p s. omega (arith, p.aligned, s.address)),
          )
          | inr e ↦ elim (Bool-cases (leb request 512)) [
            | inl f ↦ (
              slub.new 512,
              rw (a, b, c, d, e, f) refl,
              class-Fits request 512
                  (record {
                    positive = omega arith;
                    some_room = omega arith;
                    behind_header = omega arith;
                  })
                  (ground arith) (ground arith) (λ page x p s. omega (arith, p.aligned, s.address)),
            )
            | inr f ↦ elim (Bool-cases (leb request 1024)) [
              | inl g ↦ (
                slub.new 1024,
                rw (a, b, c, d, e, f, g) refl,
                class-Fits request 1024
                    (record {
                      positive = omega arith;
                      some_room = omega arith;
                      behind_header = omega arith;
                    })
                    (ground arith) (ground arith)
                    (λ page x p s. omega (arith, p.aligned, s.address)),
              )
              | inr g ↦ (
                slub.new 2048,
                rw (a, b, c, d, e, f, g) refl,
                class-Fits request 2048
                    (record {
                      positive = omega arith;
                      some_room = omega arith;
                      behind_header = omega arith;
                    })
                    (ground arith) (ground arith)
                    (λ page x p s. omega (arith, p.aligned, s.address)),
              )
            ]
          ]
        ]
      ]
    ]
  ]
]
