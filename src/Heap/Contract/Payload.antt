-- ===== src/Heap/Contract/Payload.antt =====
-- The bytes that `calloc` and `realloc` leave in a block.
use thuban.Base.{
  ℕ, ◌+◌, ◌*◌, ◌%◌, ◌^◌, ◌≤◌, ◌<◌, ◌≡◌, ◌≢◌, ◌⊎◌, refl, ap, ◌∙◌, true, false, not, leb, some, ◌==◌,
  if◌then◌else◌, arith, Bool-cases, inl, inr,
}
use thuban.CString.{memset, memcpy}
use thuban.CString.Memory.{in_block, memset_lem, Moved, memcpy-Moved}
use thuban.Heap.{
  Heap, null, header_size, heap_magic, sub64, malloc, calloc, realloc, free, acquire, release,
}

-- `free` leaves the bytes alone.
memory-free : {W : Type 0} (p : ℕ) (h : Heap W) → (free p h).memory ≡ h.memory
unfolding free acquire release
memory-free p h = elim (Bool-cases (p == null)) [
  | inl e ↦ rw e refl
  | inr e ↦ elim (Bool-cases (not ((h.blocks (sub64 p header_size)).magic == heap_magic))) [
    | inl wrong ↦ rw (e, wrong) refl
    | inr right ↦ elim (Bool-cases (h.blocks (sub64 p header_size)).free) [
      | inl twice ↦ rw (e, right, twice) refl
      | inr once ↦ rw (e, right, once) refl
    ]
  ]
]

module _ {W : Type 0} (vmm_alloc : ℕ → W → ℕ × W) where
  -- The bytes of a block from `calloc`.
  pub calloc_lem :
      (k fuel num size : ℕ) (h : Heap W) (r : ℕ) (g : Heap W)
      → malloc vmm_alloc k fuel (num * size % 2 ^ 64) h ≡ some (r, g)
      → r ≢ null
      → (x : Heap W) × (calloc vmm_alloc k fuel num size h ≡ some (r, x))
        × ((a : ℕ) → x.memory a ≡ (if in_block r (num * size % 2 ^ 64) a then 0 else g.memory a))
  unfolding calloc
  calloc_lem k fuel num size h r g q ne =
      let total = num * size % 2 ^ 64 in
      let given : (r == null) ≡ false = ground arith in
      (
        record g { memory = memset g.memory r 0 total },
        rw q (rw given refl),
        (λ a. memset_lem g.memory r 0 total a ∙ ground arith),
      )

  -- The bytes that `realloc` copies into a new block.
  pub realloc_lem :
      (k fuel ptr size : ℕ) (h : Heap W) (r : ℕ) (g : Heap W)
      → ptr ≢ null
      → size ≢ 0
      → (h.blocks (sub64 ptr header_size)).magic ≡ heap_magic
      → (h.blocks (sub64 ptr header_size)).size < size
      → malloc vmm_alloc k fuel size (release (acquire h)) ≡ some (r, g)
      → r ≢ null
      → (r ≤ ptr) ⊎ (ptr + (g.blocks (sub64 ptr header_size)).size ≤ r)
      → (x : Heap W) × (realloc vmm_alloc k fuel ptr size h ≡ some (r, x))
        × Moved g.memory r ptr (g.blocks (sub64 ptr header_size)).size x.memory
  unfolding realloc acquire
  realloc_lem k fuel ptr size h r g given asked right small q ne apart =
      let n = (g.blocks (sub64 ptr header_size)).size in
      let e : Heap W = record g { memory = memcpy g.memory r ptr n } in
      let not_null : (ptr == null) ≡ false = ground arith in
      let not_zero : (size == 0) ≡ false = ground arith in
      let marked : ((h.blocks (sub64 ptr header_size)).magic == heap_magic) ≡ true =
        ground (arith, right) in
      let short : leb size (h.blocks (sub64 ptr header_size)).size ≡ false =
        ground (arith, small) in
      let there : (r == null) ≡ false = ground arith in
      (
        free ptr e,
        rw (not_null, not_zero, marked, short) (rw q (rw there refl)),
        (λ a. ap (λ m. m a) (memory-free ptr e) ∙ memcpy-Moved g.memory r ptr n apart a),
      )
