-- ===== src/Heap/Contract/Free.antt =====
-- `free`, `heap_get_total`, `heap_get_used` and `heap_get_free`.
use thuban.Base.{
  ℕ, ◌+◌, ◌-◌, ◌^◌, ◌≤◌, ◌≡◌, refl, ap, sym, ◌∙◌, true, false, inl, inr, List, [], ◌∷◌, ◌==◌, arith,
}
use mathlib.Core.Path.{subst}
use thuban.Heap.{
  Heap, Block, null, header_size, heap_magic, sub64, add64, free, acquire, release, heap_get_free,
}
use thuban.Heap.Cells.{Cell, end, Ordered, In, release_at, total, busy}
use thuban.Heap.Cells.Space.{release_at-Ordered, total-release_at, busy-release_at, Ordered-end}
use thuban.Heap.Cells.Grow.{busy-le-total, total-le}
use thuban.Heap.Chain.{Chain}
use thuban.Heap.Chain.Release.{coalesce-release_at, first-release_at}
use thuban.Heap.Contract.{Represents}

-- What the header of a block says, and where the block lies.
InChain :
    (blocks : ℕ → Block) (prev lo hi : ℕ) (b : Cell) (cells : List Cell)
    → Ordered lo cells hi
    → Chain blocks prev cells
    → In b cells
    → ((blocks b.addr).magic ≡ heap_magic)
      × ((blocks b.addr).size ≡ b.size)
      × ((blocks b.addr).free ≡ b.free)
      × (lo ≤ b.addr)
      × (end b ≤ hi)
InChain blocks prev lo hi b [] o h i = absurd i
InChain blocks prev lo hi b (c ∷ cs) o h (inl e) =
    let up = Ordered-end (end c) hi cs o.1 in
    subst
      (λ (x : Cell).
        ((blocks x.addr).magic ≡ heap_magic)
        × ((blocks x.addr).size ≡ x.size)
        × ((blocks x.addr).free ≡ x.free)
        × (lo ≤ x.addr)
        × (end x ≤ hi))
      e (ap (λ x. x.magic) h.0, ap (λ x. x.size) h.0, ap (λ x. x.free) h.0, o.0, up)
InChain blocks prev lo hi b (c ∷ cs) o h (inr (ne, i)) =
    let r = InChain blocks c.addr (end c) hi b cs o.1 h.1 i in
    (r.0, r.1, r.2, omega (arith, r.3, o.0), r.4)

-- Freeing a block that is in use frees it in the list of blocks, joined with a free block behind it
-- and then with a free block before it, and the headers, their links in both directions and both
-- sizes are right again.
pub free-Represents :
    {W : Type 0} (h : Heap W) (cells : List Cell) (hi : ℕ) (b : Cell)
    → Represents h cells hi
    → In b cells
    → b.free ≡ false
    → Represents (free (b.addr + header_size) h) (release_at b.addr cells) hi
unfolding free acquire release
free-Represents h cells hi b r i e =
    let (magic, size, was, low, high) = InChain h.blocks null 1 hi b cells r.ordered r.chain i in
    let given : (b.addr + header_size == null) ≡ false = ground arith in
    let block : sub64 (b.addr + header_size) header_size ≡ b.addr = omega (arith, high, r.top) in
    let right : ((h.blocks b.addr).magic == heap_magic) ≡ true = ground (arith, magic) in
    let in_use = was ∙ e in
    let less = busy-release_at b cells i e in
    let few = busy-le-total cells in
    let room = total-le 1 hi cells r.ordered in
    let ordered = release_at-Ordered b.addr 1 hi cells r.ordered in
    let chain =
      coalesce-release_at 1 hi h.blocks b cells (omega arith) r.ordered (omega (arith, r.top))
        r.chain i in
    rw (given, block, right, in_use)
      (record {
        start = r.start ∙ sym (first-release_at b.addr cells);
        some_block = λ z. r.some_block (sym (first-release_at b.addr cells) ∙ z);
        chain = chain;
        ordered = ordered;
        top = r.top;
        whole = r.whole ∙ sym (total-release_at b.addr cells);
        used =
            ap (λ n. sub64 h.used_heap_size (add64 n header_size)) size
            ∙ omega (arith, r.used, less, few, room, r.top);
      })

-- `free` on a block that is free already only takes the lock and releases it.
pub free_twice :
    {W : Type 0} (h : Heap W) (cells : List Cell) (hi : ℕ) (b : Cell)
    → Represents h cells hi
    → In b cells
    → b.free ≡ true
    → free (b.addr + header_size) h ≡ release (acquire h)
unfolding free acquire release
free_twice h cells hi b r i e =
    let (magic, size, was, low, high) = InChain h.blocks null 1 hi b cells r.ordered r.chain i in
    let given : (b.addr + header_size == null) ≡ false = ground arith in
    let block : sub64 (b.addr + header_size) header_size ≡ b.addr = omega (arith, high, r.top) in
    let right : ((h.blocks b.addr).magic == heap_magic) ≡ true = ground (arith, magic) in
    let is_free = was ∙ e in rw (given, block, right, is_free) refl

-- When every byte of the heap is in a block in use, `heap_get_free` returns 2^64 - 40: the bytes in
-- use count 40 more than there are.
pub heap_get_free_wraps :
    {W : Type 0} (h : Heap W) (cells : List Cell) (hi : ℕ)
    → Represents h cells hi
    → busy cells ≡ total cells
    → (heap_get_free h).0 ≡ 2 ^ 64 - header_size
unfolding heap_get_free
heap_get_free_wraps h cells hi r e =
    omega (arith, r.whole, r.used, e, total-le 1 hi cells r.ordered, r.top)
