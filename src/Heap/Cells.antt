-- ===== src/Heap/Cells.antt =====
-- The abstract heap: the blocks in the order of the list, each with its address and its size.
pub mod Space
pub mod Grow
pub mod Undo
use thuban.Base.{
  ℕ, ◌+◌, ◌-◌, ◌≤◌, ◌≡◌, ◌≢◌, ◌⊎◌, Bool, true, false, ◌&&◌, List, [], ◌∷◌, Option, none, some, leb,
  ◌==◌, if◌then◌else◌,
}
use mathlib.Core.Option
use thuban.Heap.{null, header_size}

pub record Cell : Type 0 where
  pub addr : ℕ
  pub size : ℕ
  pub free : Bool

-- The address of the first block, or NULL.
abbrev pub first : List Cell → ℕ
first [] = null
first (c ∷ cs) = c.addr

-- Where the block ends.
abbrev pub end : Cell → ℕ
end c = c.addr + header_size + c.size

-- The blocks lie one behind the other between `lo` and `hi`.
abbrev pub Ordered : ℕ → List Cell → ℕ → Type 0
Ordered lo [] hi = lo ≤ hi
Ordered lo (c ∷ cs) hi = (lo ≤ c.addr) × Ordered (end c) cs hi

-- `b` is the first block at its address.
abbrev pub In : Cell → List Cell → Type 0
In b [] = ⊥
In b (c ∷ cs) = (c ≡ b) ⊎ ((c.addr ≢ b.addr) × In b cs)

-- The block that a request gets, and the free rest if that has room for 64 bytes.
abbrev pub taken : ℕ → Cell → Cell
taken size c = record c { size = if leb (size + 104) c.size then size else c.size; free = false }

abbrev pub rest : ℕ → Cell → Cell
rest size c = record {
  addr = c.addr + header_size + size;
  size = c.size - size - header_size;
  free = true;
}

abbrev pub fits : ℕ → Cell → Bool
fits size c = c.free && leb size c.size

abbrev pub take_cell : ℕ → Cell → List Cell → List Cell
take_cell size c cs =
    if leb (size + 104) c.size then taken size c ∷ rest size c ∷ cs else taken size c ∷ cs

-- First fit: the block that is taken, and the heap behind it.
unfoldable pub alloc : ℕ → List Cell → Option (Cell × List Cell)
alloc size [] = none
alloc size (c ∷ cs) =
    let later = Option.map (λ (t, ds). (t, c ∷ ds)) (alloc size cs) in
    if fits size c then some (taken size c, take_cell size c cs) else later

-- A free block and a free block behind it become one.
unfoldable pub join : Cell → List Cell → List Cell
join c [] = c ∷ []
join c (d ∷ ds) =
    if d.free then record c { size = c.size + header_size + d.size } ∷ ds else c ∷ d ∷ ds

-- The block at `a` is free, and takes in the one behind it.
unfoldable pub join_at : ℕ → List Cell → List Cell
join_at a [] = []
join_at a (c ∷ cs) = if c.addr == a then join (record c { free = true }) cs else c ∷ join_at a cs

-- The block before the one at `a` takes that in.
unfoldable pub join_before : ℕ → List Cell → List Cell
join_before a [] = []
join_before a (c ∷ cs) =
    if first cs == a then (if c.free then join c cs else c ∷ cs) else c ∷ join_before a cs

unfoldable pub release_at : ℕ → List Cell → List Cell
release_at a cells =
    let after = join_at a cells in if first cells == a then after else join_before a after

-- All bytes of the heap, and those of the blocks in use.
unfoldable pub total : List Cell → ℕ
total [] = 0
total (c ∷ cs) = header_size + c.size + total cs

unfoldable pub busy : List Cell → ℕ
busy [] = 0
busy (c ∷ cs) = (if c.free then 0 else header_size + c.size) + busy cs
