-- ===== src/Heap/Contract/Malloc.antt =====
-- The cases of `malloc`: a block that fits, and an expansion.
pub mod Served
use thuban.Base.{
  ℕ, zero, suc, ◌+◌, ◌-◌, ◌*◌, ◌/◌, ◌%◌, ◌^◌, ◌≤◌, ◌<◌, ◌≡◌, ◌≢◌, ◌⊎◌, refl, ap, sym, ◌∙◌, Bool,
  true, false, not, ◌&&◌, List, [], ◌∷◌, ◌++◌, length, length-append, Option, none, some, leb, ◌==◌,
  if◌then◌else◌, inl, inr, arith,
}
use mathlib.Core.Option
use mathlib.Core.Path.{subst}
use thuban.Base.Store.{update, update_self, update_ne}
use thuban.Heap.{
  Heap, Block, null, header_size, heap_magic, sub64, add64, align_16, pages_for, new_block, split,
  find, corrupt, found, exhausted, take_block, append_block, last, expand_heap, malloc, acquire,
  release,
}
use thuban.Heap.Cells.{Cell, first, end, Ordered, alloc, total, busy, fits, taken, take_cell}
use thuban.Heap.Cells.Space.{
  FirstFit, NoFit, Allocated, alloc-Allocated, FirstFit-Ordered, total-FirstFit, busy-FirstFit,
  Ordered-end,
}
use thuban.Heap.Cells.Grow.{
  alloc-FirstFit, alloc-NoFit, busy-le-total, total-le, Ordered-append, total-append, busy-append,
  FirstFit-append,
}
use thuban.Heap.Chain.{header, Chain, Chain-between, find-alloc, search_result}
use thuban.Heap.Chain.Take.{take_at, take_at-FirstFit, first-FirstFit, size-FirstFit}
use thuban.Heap.Chain.Append.{last_addr, last-last_addr, appended, appended-Moved, fresh}
use thuban.Heap.Contract.{Represents}

module _ {W : Type 0} where
  -- The block that fits is taken.
  take_block-Represents :
      (size : ℕ) (h : Heap W) (cells : List Cell) (hi : ℕ) (t : Cell) (ds : List Cell)
      → Represents h cells hi
      → FirstFit size cells t ds
      → Represents (take_block size t.addr h) ds hi
  unfolding take_block
  take_block-Represents size h cells hi t ds r f =
      let m =
        take_at-FirstFit size 1 null hi h.blocks cells t ds (omega arith) r.ordered r.top r.chain
          f in
      let same = first-FirstFit size cells t ds f in
      let granted = size-FirstFit size (take_at size t.addr h.blocks) null cells t ds f m.chain in
      let ordered = FirstFit-Ordered size 1 hi cells t ds f r.ordered in
      let bs = split size t.addr h.blocks in
      let written : Block = record (bs t.addr) { free = false } in
      let size_of : (bs t.addr).size ≡ t.size =
        sym (ap (λ b. b.size) (update_self bs t.addr written)) ∙ granted in
      record {
        start = r.start ∙ sym same;
        some_block = λ z. r.some_block (sym same ∙ z);
        chain = m.chain;
        ordered = ordered;
        top = r.top;
        whole = r.whole ∙ sym (total-FirstFit size cells t ds f);
        used =
            ap (λ n. add64 h.used_heap_size (add64 n header_size)) size_of
            ∙ omega (
              arith,
              r.used,
              busy-FirstFit size cells t ds f,
              busy-le-total ds,
              total-le 1 hi ds ordered,
              r.top,
            );
      }

  -- The state behind `vmm_alloc`, and the lock, do not touch the blocks.
  pub same_blocks :
      (h : Heap W) (cells : List Cell) (hi : ℕ) (w : W)
      → Represents h cells hi
      → Represents (record h { vmm = w }) cells hi
  same_blocks h cells hi w r = record {
    start = r.start;
    some_block = r.some_block;
    chain = r.chain;
    ordered = r.ordered;
    top = r.top;
    whole = r.whole;
    used = r.used;
  }

  pub acquire-Represents :
      (h : Heap W) (cells : List Cell) (hi : ℕ)
      → Represents h cells hi
      → Represents (acquire h) cells hi
  unfolding acquire
  acquire-Represents h cells hi r = record {
    start = r.start;
    some_block = r.some_block;
    chain = r.chain;
    ordered = r.ordered;
    top = r.top;
    whole = r.whole;
    used = r.used;
  }

  pub release-Represents :
      (h : Heap W) (cells : List Cell) (hi : ℕ)
      → Represents h cells hi
      → Represents (release h) cells hi
  unfolding release
  release-Represents h cells hi r = record {
    start = r.start;
    some_block = r.some_block;
    chain = r.chain;
    ordered = r.ordered;
    top = r.top;
    whole = r.whole;
    used = r.used;
  }

  -- The new block stands behind the last one.
  append_block-Represents :
      (h : Heap W) (c : Cell) (cs : List Cell) (hi p size : ℕ)
      → Represents h (c ∷ cs) hi
      → hi ≤ p
      → header_size ≤ size
      → p + size + 256 ≤ 2 ^ 64
      → Represents
          (append_block p size (last_addr c cs) h)
          (c ∷ cs ++ fresh p (size - header_size) ∷ [])
          (p + size)
  unfolding append_block
  append_block-Represents h c cs hi p size r above large fit =
      let new = fresh p (size - header_size) in
      let left : sub64 size header_size ≡ size - header_size = omega (arith, large, fit) in
      let m =
        appended-Moved 1 null hi p (size - header_size) h.blocks c cs r.ordered above r.chain in
      let up : end new ≤ p + size = omega (arith, large) in
      let ordered = Ordered-append new 1 hi (p + size) (c ∷ cs) r.ordered above up in
      let most = total-le 1 (p + size) (c ∷ cs ++ new ∷ []) ordered in
      let whole = total-append new (c ∷ cs) in
      record {
        start = r.start;
        some_block = r.some_block;
        chain =
            subst (λ k. Chain (appended p k (last_addr c cs) h.blocks) null (c ∷ cs ++ new ∷ []))
              (sym left) m.chain;
        ordered = ordered;
        top = fit;
        whole = omega (arith, r.whole, whole, most, large, fit);
        used = r.used ∙ ap (λ k. header_size + k) (sym (busy-append new (c ∷ cs) refl));
      }

module _ {W : Type 0} (vmm_alloc : ℕ → W → ℕ × W) where
  -- A block is large enough: no expansion.
  pub malloc-FirstFit :
      (k fuel size : ℕ) (h : Heap W) (cells : List Cell) (hi : ℕ) (t : Cell) (ds : List Cell)
      → length cells < fuel
      → size ≢ 0
      → Represents h cells hi
      → FirstFit (align_16 size) cells t ds
      → let g = release (take_block (align_16 size) t.addr (acquire h)) in
        (malloc vmm_alloc (suc k) fuel size h ≡ some (t.addr + header_size, g)) × Represents g ds hi
  unfolding malloc search_result acquire Option.bind
  malloc-FirstFit k fuel size h cells hi t ds l ne r f =
      let n = align_16 size in
      let asked : (size == 0) ≡ false = ground arith in
      let search : find fuel h.blocks n h.heap_start ≡ some (found t.addr) =
        rw
          (
            r.start,
            find-alloc fuel n null 1 hi h.blocks cells l (omega arith) r.ordered r.chain,
            alloc-FirstFit n cells t ds f,
          )
          refl in
      let locked =
        take_block-Represents n (acquire h) cells hi t ds (acquire-Represents h cells hi r) f in
      (rw (asked, search) refl, release-Represents (take_block n t.addr (acquire h)) ds hi locked)

  -- The memory is there: a block behind the last one.
  pub expand_heap-Represents :
      (fuel n : ℕ) (h : Heap W) (c : Cell) (cs : List Cell) (hi p : ℕ) (w : W)
      → length cs < fuel
      → n ≤ 2 ^ 63 + 15
      → Represents h (c ∷ cs) hi
      → vmm_alloc (pages_for n) h.vmm ≡ (p, w)
      → hi ≤ p
      → p + pages_for n * 4096 + 256 ≤ 2 ^ 64
      → (g : Heap W) × (expand_heap vmm_alloc fuel n h ≡ some (true, g))
        × Represents g
            (c ∷ cs ++ fresh p (pages_for n * 4096 - header_size) ∷ [])
            (p + pages_for n * 4096)
  unfolding expand_heap pages_for
  expand_heap-Represents fuel n h c cs hi p w l small r e above fit =
      let size = pages_for n * 4096 in
      let kept : size % 2 ^ 64 ≡ size = omega (arith, fit) in
      let large : header_size ≤ size = omega (arith, small) in
      let given : (p == null) ≡ false =
        ground (arith, r.ordered, above, Ordered-end 1 hi (c ∷ cs) r.ordered) in
      let bs = update h.blocks p (new_block (sub64 size header_size) null null) in
      let there : Chain bs null (c ∷ cs) =
        Chain-between h.blocks bs null 1 hi (c ∷ cs) r.ordered
          (λ a lo up.
            update_ne h.blocks p a (new_block (sub64 size header_size) null null)
              (omega (arith, above)))
          r.chain in
      let end_of : last fuel bs h.heap_start ≡ some (last_addr c cs) =
        rw r.start (last-last_addr fuel null 1 hi bs c cs l (omega arith) r.ordered there) in
      let g : Heap W = record h { vmm = w } in
      (
        append_block p size (last_addr c cs) g,
        rw (e, given, kept, end_of) refl,
        append_block-Represents g c cs hi p size (same_blocks h (c ∷ cs) hi w r) above large fit,
      )
