-- ===== src/Heap.antt =====
-- mm/heap.c: the list of blocks, and the functions of the allocator.
-- `blocks` gives the header at each address, and `memory` the bytes of the payloads: a header is
-- written only by the functions of the file, and no header shares bytes with another. A pointer is
-- an address, NULL is 0, and adding to a pointer does not wrap. `vmm_alloc` of mm/vmm.c is a
-- parameter, which changes a state `W` of its own; the flags are always PAGE_WRITE. The messages
-- that are printed are left out.
pub mod Cells
pub mod Chain
pub mod Contract
mod Tests
use thuban.Base.{
  ℕ, zero, suc, ◌+◌, ◌-◌, ◌*◌, ◌/◌, ◌%◌, ◌^◌, Bool, true, false, not, ◌&&◌, Option, none, some, leb,
  ◌==◌, if◌then◌else◌,
}
use mathlib.Core.Option
use thuban.Base.Store.{update}
use thuban.CString.{Mem, memset, memcpy}
use thuban.Lock.{Guard, spin_lock, spin_unlock, spin_lock_init}

abbrev pub null : ℕ
null = 0

-- "HEAP"
abbrev pub heap_magic : ℕ
heap_magic = 0x48454150

abbrev pub initial_heap_size : ℕ
initial_heap_size = 256 * 1024

-- `sizeof(heap_block_t)`
abbrev pub header_size : ℕ
header_size = 40

-- `heap_block_t`
pub record Block : Type 0 where
  pub magic : ℕ
  pub size : ℕ
  pub free : Bool
  pub next : ℕ
  pub prev : ℕ

-- The static variables of the file, the memory, and the state behind `vmm_alloc`.
pub record Heap (W : Type 0) : Type 0 where
  pub blocks : ℕ → Block
  pub memory : Mem
  pub heap_start : ℕ
  pub total_heap_size : ℕ
  pub used_heap_size : ℕ
  pub guard : Guard
  pub vmm : W

-- Sums and differences of type `size_t`.
abbrev pub add64 : ℕ → ℕ → ℕ
add64 a b = (a + b) % 2 ^ 64

abbrev pub sub64 : ℕ → ℕ → ℕ
sub64 a b = (a + (2 ^ 64 - b)) % 2 ^ 64

-- `(size + 15) & ~15`
pub align_16 : ℕ → ℕ
align_16 size = let n = add64 size 15 in n - n % 16

-- The header of a new free block.
pub new_block : (size next prev : ℕ) → Block
new_block size next prev = record {
  magic = heap_magic;
  size = size;
  free = true;
  next = next;
  prev = prev;
}

-- `if (p) p->prev = prev;`
pub set_prev : (p prev : ℕ) → (ℕ → Block) → ℕ → Block
set_prev p prev blocks =
    if p == null then blocks else update blocks p (record (blocks p) { prev = prev })

-- Where the loop of `malloc` over the list ends: at a header without the magic number, at a free
-- block that is large enough, or behind the last block.
pub data Search : Type 0 where
  corrupt : ℕ → Search
  found : ℕ → Search
  exhausted : Search

pub find : (fuel : ℕ) → (ℕ → Block) → (size current : ℕ) → Option Search
find zero blocks size current = none
find (suc f) blocks size current =
    let rest = find f blocks size (blocks current).next in
    if current == null
    then some exhausted
    else if not ((blocks current).magic == heap_magic)
    then some (corrupt current)
    else if (blocks current).free && leb size (blocks current).size
    then some (found current)
    else rest

-- Cut the block in two, if what is left is worth a block.
pub split : (size current : ℕ) → (ℕ → Block) → ℕ → Block
split size current blocks =
    let b = blocks current in
    let rest = current + header_size + size in
    if leb (add64 (add64 size header_size) 64) b.size
    then (let with_rest =
          update blocks rest (new_block (sub64 (sub64 b.size size) header_size) b.next current) in
        let linked = set_prev b.next rest with_rest in
        update linked current (record (linked current) { next = rest; size = size }))
    else blocks

-- `block->size += sizeof(heap_block_t) + other->size; block->next = other->next;` and the link back.
pub absorb : (block other : ℕ) → (ℕ → Block) → ℕ → Block
absorb block other blocks =
    let joined = update blocks block (record (blocks block) {
      size = add64 (blocks block).size (add64 header_size (blocks other).size);
      next = (blocks other).next;
    }) in
    set_prev (joined block).next block joined

-- The two halves of `coalesce`: with the block behind, and with the one before.
pub absorb_next : ℕ → (ℕ → Block) → ℕ → Block
absorb_next block blocks =
    let next = (blocks block).next in
    if not (next == null) && (blocks next).free then absorb block next blocks else blocks

pub absorb_prev : ℕ → (ℕ → Block) → ℕ → Block
absorb_prev block blocks =
    let prev = (blocks block).prev in
    if not (prev == null) && (blocks prev).free then absorb prev block blocks else blocks

pub coalesce : ℕ → (ℕ → Block) → ℕ → Block
coalesce block blocks = absorb_prev block (absorb_next block blocks)

-- The pages of an expansion.
pub pages_for : ℕ → ℕ
pages_for needed_size = add64 (add64 needed_size header_size) 4095 / 4096

-- The last block of the list: the loop `while (current->next)`.
pub last : (fuel : ℕ) → (ℕ → Block) → (current : ℕ) → Option ℕ
last zero blocks current = none
last (suc f) blocks current =
    let rest = last f blocks (blocks current).next in
    if (blocks current).next == null then some current else rest

module _ {W : Type 0} where
  pub acquire : Heap W → Heap W
  acquire h = record h { guard = spin_lock h.guard }

  pub release : Heap W → Heap W
  release h = record h { guard = spin_unlock h.guard }

  -- `initial_heap` is the address of the array.
  pub heap_init : (initial_heap lock_name : ℕ) → Heap W → Heap W
  heap_init initial_heap lock_name h = record h {
    blocks = update h.blocks initial_heap (new_block (initial_heap_size - header_size) null null);
    heap_start = initial_heap;
    total_heap_size = initial_heap_size;
    used_heap_size = header_size;
    guard = spin_lock_init lock_name h.guard;
  }

  -- The free block at `current` is taken.
  pub take_block : (size current : ℕ) → Heap W → Heap W
  take_block size current h =
      let blocks = split size current h.blocks in
      record h {
        blocks = update blocks current (record (blocks current) { free = false });
        used_heap_size = add64 h.used_heap_size (add64 (blocks current).size header_size);
      }

  pub heap_get_total : Heap W → ℕ × Heap W
  heap_get_total h = (h.total_heap_size, release (acquire h))

  pub heap_get_used : Heap W → ℕ × Heap W
  heap_get_used h = (h.used_heap_size, release (acquire h))

  pub heap_get_free : Heap W → ℕ × Heap W
  heap_get_free h = (sub64 h.total_heap_size h.used_heap_size, release (acquire h))

  -- The new memory as a block behind the last one.
  pub append_block : (new_mem size last_block : ℕ) → Heap W → Heap W
  append_block new_mem size last_block h =
      let blocks = update h.blocks new_mem (new_block (sub64 size header_size) null null) in
      let linked = update blocks last_block (record (blocks last_block) { next = new_mem }) in
      record h {
        blocks = update linked new_mem (record (linked new_mem) { prev = last_block });
        total_heap_size = add64 h.total_heap_size size;
      }

  pub free : ℕ → Heap W → Heap W
  free ptr h =
      if ptr == null
      then h
      else (let g = acquire h in
          let block = sub64 ptr header_size in
          let b = g.blocks block in
          if not (b.magic == heap_magic)
          then release g
          else if b.free
          then release g
          else release (record g {
            blocks = coalesce block (update g.blocks block (record b { free = true }));
            used_heap_size = sub64 g.used_heap_size (add64 b.size header_size);
          }))

module _ {W : Type 0} (vmm_alloc : ℕ → W → ℕ × W) where
  -- 1 and 0 are `true` and `false`.
  pub expand_heap : (fuel : ℕ) → ℕ → Heap W → Option (Bool × Heap W)
  expand_heap fuel needed_size h =
      let pages = pages_for needed_size in
      let (new_mem, vmm) = vmm_alloc pages h.vmm in
      let g : Heap W = record h { vmm = vmm } in
      let size = pages * 4096 % 2 ^ 64 in
      -- The walk begins behind the write of the new header, which is not in the list yet.
      if new_mem == null
      then some (false, g)
      else Option.map (λ last_block. (true, append_block new_mem size last_block g))
          (last fuel (update g.blocks new_mem (new_block (sub64 size header_size) null null))
            g.heap_start)

  -- `rounds` bounds the calls of `malloc` by itself, `fuel` the walks along the list.
  pub malloc : (rounds fuel : ℕ) → ℕ → Heap W → Option (ℕ × Heap W)
  malloc zero fuel size h = none
  malloc (suc k) fuel size h =
      let again = malloc k fuel (align_16 size) in
      if size == 0
      then some (null, h)
      else (let g = acquire h in
          Option.bind (find fuel g.blocks (align_16 size) g.heap_start) (λ s. elim s [
            | corrupt p ↦ some (null, release g)
            | found p ↦ some (p + header_size, release (take_block (align_16 size) p g))
            | exhausted ↦
                Option.bind (expand_heap fuel (align_16 size) g)
                  (λ (grown, e). if grown then again (release e) else some (null, release e))
          ]))

  pub calloc : (rounds fuel : ℕ) → (num size : ℕ) → Heap W → Option (ℕ × Heap W)
  calloc rounds fuel num size h =
      let total = num * size % 2 ^ 64 in
      Option.map
        (λ (ptr, g).
          (ptr, if ptr == null then g else record g { memory = memset g.memory ptr 0 total }))
        (malloc rounds fuel total h)

  pub realloc : (rounds fuel : ℕ) → (ptr size : ℕ) → Heap W → Option (ℕ × Heap W)
  realloc rounds fuel ptr size h =
      let g = acquire h in
      let block = sub64 ptr header_size in
      if ptr == null
      then malloc rounds fuel size h
      else if size == 0
      then some (null, free ptr h)
      else if not ((g.blocks block).magic == heap_magic)
      then some (null, release g)
      else if leb size (g.blocks block).size
      then some (ptr, release g)
      else Option.map
          (λ (new_ptr, e). if new_ptr == null then (null, e) else (
            new_ptr,
            free ptr (record e { memory = memcpy e.memory new_ptr ptr (e.blocks block).size }),
          ))
          (malloc rounds fuel size (release g))
