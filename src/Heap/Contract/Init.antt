-- ===== src/Heap/Contract/Init.antt =====
-- `heap_init`.
use thuban.Base.{ℕ, ◌+◌, ◌-◌, ◌^◌, ◌≤◌, ◌<◌, refl, [], ◌∷◌, arith}
use Prim.{tt}
use thuban.Base.Store.{update_self}
use thuban.Heap.{Heap, null, header_size, initial_heap_size, new_block, heap_init}
use thuban.Heap.Cells.{total, busy}
use thuban.Heap.Chain.Append.{fresh}
use thuban.Heap.Contract.{Represents}

-- The heap after `heap_init`.
pub heap_init-Represents :
    {W : Type 0} (initial_heap lock_name : ℕ) (h : Heap W)
    → 0 < initial_heap
    → initial_heap + initial_heap_size + 256 ≤ 2 ^ 64
    → Represents
        (heap_init initial_heap lock_name h)
        (fresh initial_heap (initial_heap_size - header_size) ∷ [])
        (initial_heap + initial_heap_size)
unfolding heap_init new_block total busy
heap_init-Represents initial_heap lock_name h pos fit = record {
  start = refl;
  some_block = λ z. omega (arith, pos, z);
  chain = (
    update_self h.blocks initial_heap (new_block (initial_heap_size - header_size) null null),
    tt,
  );
  ordered = (omega arith, omega arith);
  top = fit;
  whole = omega arith;
  used = omega arith;
}
