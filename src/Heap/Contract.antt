-- ===== src/Heap/Contract.antt =====
-- What the functions of the heap promise, on the abstract blocks.
pub mod Malloc
pub mod Free
pub mod Init
pub mod Payload
pub mod Gap
pub mod Paged
use thuban.Base.{ℕ, ◌+◌, ◌^◌, ◌≤◌, ◌≡◌, ◌≢◌, List}
use thuban.Heap.{Heap, null, header_size}
use thuban.Heap.Cells.{Cell, first, Ordered, total, busy}
use thuban.Heap.Chain.{Chain}

-- The headers are those of the blocks, which lie one behind the other below `hi`, and the two sizes
-- are right: the one in use counts 40 bytes more than the blocks in use.
pub record Represents {W : Type 0} (h : Heap W) (cells : List Cell) (hi : ℕ) : Type 0 where
  pub start : h.heap_start ≡ first cells
  pub some_block : first cells ≢ null
  pub chain : Chain h.blocks null cells
  pub ordered : Ordered 1 cells hi
  pub top : hi + 256 ≤ 2 ^ 64
  pub whole : h.total_heap_size ≡ total cells
  pub used : h.used_heap_size ≡ header_size + busy cells
