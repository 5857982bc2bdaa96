-- ===== src/Heap/Contract/Malloc/Served.antt =====
-- What `malloc` and `calloc` return, in all cases.
use thuban.Base.{
  ℕ, suc, ◌+◌, ◌-◌, ◌*◌, ◌^◌, ◌≤◌, ◌<◌, ◌≡◌, ◌≢◌, ◌⊎◌, refl, ap, sym, ◌∙◌, Bool, true, false, List,
  [], ◌∷◌, ◌++◌, length, length-append, Option, none, some, ◌==◌, if◌then◌else◌, inl, inr, arith,
}
use mathlib.Core.Option
use mathlib.Core.Path.{subst}
use thuban.Heap.{
  Heap, null, header_size, align_16, pages_for, find, exhausted, expand_heap, malloc, acquire,
  release, take_block, free,
}
use thuban.Heap.Cells.{Cell, alloc, fits, taken, take_cell}
use thuban.Heap.Cells.Space.{FirstFit, NoFit, Allocated, alloc-Allocated}
use thuban.Heap.Cells.Undo.{IsCoalesced, release_at-FirstFit, In-FirstFit}
use thuban.Heap.Contract.Free.{free-Represents}
use thuban.Heap.Cells.Grow.{alloc-NoFit, FirstFit-append}
use thuban.Heap.Chain.{find-alloc, search_result}
use thuban.Heap.Chain.Append.{fresh}
use thuban.Heap.Contract.{Represents}
use thuban.Heap.Contract.Malloc.{
  malloc-FirstFit, expand_heap-Represents, acquire-Represents, release-Represents, same_blocks,
}

-- `vmm_alloc` returns NULL, or pages above what the heap has.
abbrev pub GivesAbove : {W : Type 0} → (hi pages : ℕ) → ℕ × W → Type 0
GivesAbove hi pages (p, w) = (p ≡ null) ⊎ ((hi ≤ p) × (p + pages * 4096 + 256 ≤ 2 ^ 64))

-- The block of new pages.
abbrev pub expansion : (p n : ℕ) → Cell
expansion p n = fresh p (pages_for n * 4096 - header_size)

-- What a request for `n` bytes leads to: the first block that fits is taken; or none fits and the
-- blocks stay; or none fits, and the request is served from new pages behind the last block.
abbrev pub Served : {W : Type 0} → (n : ℕ) → List Cell → (hi : ℕ) → ℕ × Heap W → Type 0
Served n cells hi (r, g) =
    ((t : Cell) × (ds : List Cell) × FirstFit n cells t ds
      × (r ≡ t.addr + header_size)
      × Represents g ds hi)
    ⊎ (NoFit n cells
        × (((r ≡ null) × Represents g cells hi)
            ⊎ ((p : ℕ) × (hi ≤ p)
                × (r ≡ p + header_size)
                × Represents g (cells ++ take_cell n (expansion p n) []) (p + pages_for n * 4096))))

align_16-le : (size : ℕ) → size ≤ 2 ^ 63 → align_16 size ≤ 2 ^ 63 + 15
unfolding align_16
align_16-le size h = omega (arith, h)

align_16-pos : (size : ℕ) → size ≢ 0 → size ≤ 2 ^ 63 → align_16 size ≢ 0
unfolding align_16
align_16-pos size ne h = λ z. omega (arith, h, z, ne)

align_16-align_16 : (size : ℕ) → size ≤ 2 ^ 63 → align_16 (align_16 size) ≡ align_16 size
unfolding align_16
align_16-align_16 size h = omega (arith, h)

-- New pages hold the request.
fits-expansion : (p n : ℕ) → n ≤ 2 ^ 63 + 15 → fits n (expansion p n) ≡ true
unfolding pages_for
fits-expansion p n h = ground (arith, h)

module _ {W : Type 0} (vmm_alloc : ℕ → W → ℕ × W) where
  -- No block fits: what the expansion says decides.
  malloc-NoFit :
      (k fuel size : ℕ) (h : Heap W) (cells : List Cell) (hi : ℕ) (more : Bool) (e : Heap W)
      → length cells < fuel
      → size ≢ 0
      → Represents h cells hi
      → NoFit (align_16 size) cells
      → expand_heap vmm_alloc fuel (align_16 size) (acquire h) ≡ some (more, e)
      → malloc vmm_alloc (suc k) fuel size h ≡ (
          if more
          then malloc vmm_alloc k fuel (align_16 size) (release e)
          else some (null, release e))
  unfolding malloc search_result acquire Option.bind
  malloc-NoFit k fuel size h cells hi more e l ne r no_fit q =
      let n = align_16 size in
      let asked : (size == 0) ≡ false = ground arith in
      let search : find fuel h.blocks n h.heap_start ≡ some exhausted =
        rw
          (
            r.start,
            find-alloc fuel n null 1 hi h.blocks cells l (omega arith) r.ordered r.chain,
            alloc-NoFit n cells no_fit,
          )
          refl in
      rw (asked, search, q) refl

  expand_heap-null :
      (fuel n : ℕ) (h : Heap W) (w : W)
      → vmm_alloc (pages_for n) h.vmm ≡ (null, w)
      → expand_heap vmm_alloc fuel n h ≡ some (false, record h { vmm = w })
  unfolding expand_heap
  expand_heap-null fuel n h w e = rw e refl

  malloc-grown :
      (k fuel size : ℕ) (h : Heap W) (cells : List Cell) (hi p : ℕ) (w : W)
      → length cells + 1 < fuel
      → size ≢ 0
      → size ≤ 2 ^ 63
      → Represents h cells hi
      → NoFit (align_16 size) cells
      → vmm_alloc (pages_for (align_16 size)) h.vmm ≡ (p, w)
      → hi ≤ p
      → p + pages_for (align_16 size) * 4096 + 256 ≤ 2 ^ 64
      → (r : ℕ) × (g : Heap W) × (malloc vmm_alloc (suc (suc k)) fuel size h ≡ some (r, g))
        × Served (align_16 size) cells hi (r, g)
  unfolding acquire
  malloc-grown k fuel size h [] hi p w l ne small r no_fit e above fit = absurd (r.some_block refl)
  malloc-grown k fuel size h (c ∷ cs) hi p w l ne small r no_fit e above fit =
      let n = align_16 size in
      let b = expansion p n in
      let locked = acquire-Represents h (c ∷ cs) hi r in
      let (x, q, there) =
        expand_heap-Represents vmm_alloc fuel n (acquire h) c cs hi p w (omega arith)
          (align_16-le size small) locked e above fit in
      let first_call =
        malloc-NoFit (suc k) fuel size h (c ∷ cs) hi true x (omega arith) ne r no_fit q in
      let f = FirstFit-append b n (c ∷ cs) no_fit (fits-expansion p n (align_16-le size small)) in
      let same = align_16-align_16 size small in
      let open_heap = release-Represents x (c ∷ cs ++ b ∷ []) (p + pages_for n * 4096) there in
      let (second_call, ready) =
        malloc-FirstFit vmm_alloc k fuel n (release x) (c ∷ cs ++ b ∷ []) (p + pages_for n * 4096)
          (taken n b) (c ∷ cs ++ take_cell n b []) (omega (arith, l, length-append cs (b ∷ [])))
          (align_16-pos size ne small) open_heap
          (subst (λ m. FirstFit m (c ∷ cs ++ b ∷ []) (taken n b) (c ∷ cs ++ take_cell n b []))
            (sym same) f) in
      (
        p + header_size,
        release (take_block (align_16 n) p (acquire (release x))),
        first_call ∙ second_call,
        inr (no_fit, inr (p, above, refl, ready)),
      )

  -- For a heap whose headers are those of a list of blocks, none overlapping another, and for a
  -- request of 1 to 2^63 bytes: if `vmm_alloc` returns NULL or pages above the heap, then with two
  -- calls of itself and more fuel than blocks `malloc` returns. It takes the first free block that
  -- fits and cuts off what is left; or no block fits, it returns NULL and the blocks stay; or no
  -- block fits, and it serves the request from new pages behind the last block. The headers and
  -- both sizes are right again.
  pub malloc-Served :
      (k fuel size : ℕ) (h : Heap W) (cells : List Cell) (hi : ℕ)
      → length cells + 1 < fuel
      → size ≢ 0
      → size ≤ 2 ^ 63
      → Represents h cells hi
      → GivesAbove hi (pages_for (align_16 size)) (vmm_alloc (pages_for (align_16 size)) h.vmm)
      → (r : ℕ) × (g : Heap W) × (malloc vmm_alloc (suc (suc k)) fuel size h ≡ some (r, g))
        × Served (align_16 size) cells hi (r, g)
  unfolding acquire
  malloc-Served k fuel size h cells hi l ne small r gives =
      let n = align_16 size in
      let vmm = vmm_alloc (pages_for n) h.vmm in
      let answer : List Cell → Type 0 = λ cs.
        (r : ℕ) × (g : Heap W) × (malloc vmm_alloc (suc (suc k)) fuel size h ≡ some (r, g))
        × Served n cs hi (r, g) in
      let split_on : (o : Option (Cell × List Cell)) → Allocated n cells o → answer cells = λ o.
        elim o as (λ x. Allocated n cells x → answer cells) [
          | none ↦ λ no_fit. elim gives [
            | inl z ↦
                let e : vmm_alloc (pages_for n) h.vmm ≡ (null, vmm.1) = ap (λ p. (p, vmm.1)) z in
                let x : Heap W = record (acquire h) { vmm = vmm.1 } in
                let locked =
                  same_blocks (acquire h) cells hi vmm.1 (acquire-Represents h cells hi r) in
                (
                  null,
                  release x,
                  malloc-NoFit (suc k) fuel size h cells hi false x (omega arith) ne r no_fit
                      (expand_heap-null fuel n (acquire h) vmm.1 e),
                  inr (no_fit, inl (refl, release-Represents x cells hi locked)),
                )
            | inr (above, fit) ↦
                malloc-grown k fuel size h cells hi vmm.0 vmm.1 l ne small r no_fit refl above fit
          ]
          | some (t, ds) ↦ λ f.
              let (q, kept) =
                malloc-FirstFit vmm_alloc (suc k) fuel size h cells hi t ds (omega arith) ne r f in
              (t.addr + header_size, _, q, inl (t, ds, f, refl, kept))
        ] in
      split_on (alloc n cells) (alloc-Allocated n cells)

  -- For a heap in which no free block follows another, and a request that a block fits: freeing
  -- what `malloc` returned gives back the blocks from before, the split undone.
  pub free-malloc :
      (k fuel size : ℕ) (h : Heap W) (cells : List Cell) (hi : ℕ) (t : Cell) (ds : List Cell)
      → length cells < fuel
      → size ≢ 0
      → Represents h cells hi
      → IsCoalesced cells
      → FirstFit (align_16 size) cells t ds
      → (g : Heap W) × (malloc vmm_alloc (suc k) fuel size h ≡ some (t.addr + header_size, g))
        × Represents (free (t.addr + header_size) g) cells hi
  free-malloc k fuel size h cells hi t ds l ne r c f =
      let n = align_16 size in
      let (q, kept) = malloc-FirstFit vmm_alloc k fuel size h cells hi t ds l ne r f in
      let (there, in_use) = In-FirstFit n 1 hi cells t ds f r.ordered in
      let g = release (take_block n t.addr (acquire h)) in
      (
        g,
        q,
        subst (λ (cs : List Cell). Represents (free (t.addr + header_size) g) cs hi)
            (release_at-FirstFit n 1 hi cells t ds (omega arith) f r.ordered c)
            (free-Represents g ds hi t kept there in_use),
      )
