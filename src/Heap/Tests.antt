-- ===== src/Heap/Tests.antt =====
-- The heap after `heap_init`, one with a gap, and theorems applied to them.
use thuban.Base.{
  ℕ, ◌+◌, ◌*◌, ◌-◌, ◌^◌, ◌≡◌, refl, arith, true, false, [], ◌∷◌, some, ◌==◌, if◌then◌else◌, inl,
  inr,
}
use Prim.{tt}
use thuban.Heap.{
  Heap, heap_magic, header_size, initial_heap_size, align_16, pages_for, heap_init, malloc, free,
  heap_get_free,
}
use thuban.Heap.Cells.{Cell, total, busy, end, taken, take_cell, release_at}
use thuban.Heap.Cells.Space.{FirstFit, here}
use thuban.Heap.Chain.Append.{fresh}
use thuban.Heap.Contract.{Represents}
use thuban.Vmm.{Vmm, page_write, vmm_alloc}
use thuban.Vmm.Tests as PageTests
use thuban.Heap.Contract.Paged.{malloc-Paged}
use thuban.Heap.Contract.Init.{heap_init-Represents}
use thuban.Heap.Contract.Malloc.Served.{Served, malloc-Served, free-malloc}
use thuban.Heap.Contract.Free.{free-Represents, heap_get_free_wraps}
use thuban.Heap.Contract.Gap.{Covered, both, free_joins_gap}

-- Pages from an address that only grows.
abbrev bump : ℕ → ℕ → ℕ × ℕ
bump pages w = (w, w + pages * 4096)

abbrev empty : Heap ℕ
empty = record {
  blocks = λ a. record { magic = 0; size = 0; free = false; next = 0; prev = 0 };
  memory = λ a. 0;
  heap_start = 0;
  total_heap_size = 0;
  used_heap_size = 0;
  guard = record { lock = record { flags = 0; locked = 0; name = 0 }; rflags = 2 ^ 9 };
  vmm = 0x200000;
}

abbrev whole : Cell
whole = fresh 0x100000 (initial_heap_size - header_size)

abbrev started : Heap ℕ
started = heap_init 0x100000 7 empty

started-Represents : Represents started (whole ∷ []) (0x100000 + initial_heap_size)
started-Represents = heap_init-Represents 0x100000 7 empty (omega arith) (omega arith)

malloc-Served_example :
    (r : ℕ) × (g : Heap ℕ) × (malloc bump 2 3 100 started ≡ some (r, g))
    × Served (align_16 100) (whole ∷ []) (0x100000 + initial_heap_size) (r, g)
unfolding heap_init align_16 pages_for
malloc-Served_example =
    malloc-Served bump 0 3 100 started (whole ∷ []) (0x100000 + initial_heap_size) (omega arith)
      (omega arith) (omega arith) started-Represents (inr (omega arith, omega arith))

-- A heap over the page tables.
abbrev unstarted : Heap Vmm
unstarted = record {
  blocks = λ a. record { magic = 0; size = 0; free = false; next = 0; prev = 0 };
  memory = λ a. 0;
  heap_start = 0;
  total_heap_size = 0;
  used_heap_size = 0;
  guard = record { lock = record { flags = 0; locked = 0; name = 0 }; rflags = 2 ^ 9 };
  vmm = PageTests.started;
}

abbrev paged : Heap Vmm
paged = heap_init 0x100000 7 unstarted

malloc-Paged_example :
    (r : ℕ) × (g : Heap Vmm) × (malloc
        (λ pages. vmm_alloc PageTests.root pages page_write)
        2
        3
        8192
        paged
      ≡ some (r, g))
    × Served (align_16 8192) (whole ∷ []) (0x100000 + initial_heap_size) (r, g)
unfolding heap_init align_16 pages_for
malloc-Paged_example =
    malloc-Paged PageTests.root 0 3 8192 paged (whole ∷ []) (0x100000 + initial_heap_size)
      PageTests.level (omega arith) (omega arith) (omega arith)
      (heap_init-Represents 0x100000 7 unstarted (omega arith) (omega arith))
      PageTests.started-IsTree (λ i low. PageTests.heap_page-Unshared i (omega (arith, low)))
      (omega arith) (omega arith)

first_fit :
    FirstFit
      (align_16 100)
      (whole ∷ [])
      (taken (align_16 100) whole)
      (take_cell (align_16 100) whole [])
unfolding align_16
first_fit = here refl

free-malloc_example :
    (g : Heap ℕ) × (malloc bump 1 3 100 started ≡ some (0x100000 + header_size, g))
    × Represents (free (0x100000 + header_size) g) (whole ∷ []) (0x100000 + initial_heap_size)
free-malloc_example =
    free-malloc bump 0 3 100 started (whole ∷ []) (0x100000 + initial_heap_size)
      (taken (align_16 100) whole) (take_cell (align_16 100) whole []) (omega arith) (omega arith)
      started-Represents ((λ _. tt), tt) first_fit

-- One block in use, a free one behind a gap.
abbrev used_block : Cell
used_block = record { addr = 0x1000; size = 64; free = false }

abbrev far_block : Cell
far_block = record { addr = 0x3000; size = 256; free = true }

abbrev gapped : Heap ℕ
gapped = record empty {
  blocks = λ a.
      if a == 0x1000
      then record { magic = heap_magic; size = 64; free = false; next = 0x3000; prev = 0 }
      else record { magic = heap_magic; size = 256; free = true; next = 0; prev = 0x1000 };
  heap_start = 0x1000;
  total_heap_size = 400;
  used_heap_size = 144;
}

gapped-Represents : Represents gapped (used_block ∷ far_block ∷ []) 0x4000
unfolding total busy
gapped-Represents = record {
  start = refl;
  some_block = omega arith;
  chain = (refl, (refl, tt));
  ordered = (omega arith, (omega arith, omega arith));
  top = omega arith;
  whole = refl;
  used = refl;
}

free-Represents_example :
    Represents
      (free (0x1000 + header_size) gapped)
      (release_at 0x1000 (used_block ∷ far_block ∷ []))
      0x4000
free-Represents_example =
    free-Represents gapped (used_block ∷ far_block ∷ []) 0x4000 used_block gapped-Represents
      (inl refl) refl

free_joins_gap_example :
    (¬ Covered (end used_block) (used_block ∷ far_block ∷ []))
    × Represents (free (0x1000 + header_size) gapped) (both used_block far_block ∷ []) 0x4000
    × Covered (end used_block) (both used_block far_block ∷ [])
free_joins_gap_example =
    free_joins_gap gapped used_block far_block [] 0x4000 gapped-Represents refl refl (omega arith)

-- One block, in use.
abbrev full : Heap ℕ
full = record empty {
  blocks = λ a. record { magic = heap_magic; size = 64; free = false; next = 0; prev = 0 };
  heap_start = 0x1000;
  total_heap_size = 104;
  used_heap_size = 144;
}

full-Represents : Represents full (used_block ∷ []) 0x4000
unfolding total busy
full-Represents = record {
  start = refl;
  some_block = omega arith;
  chain = (refl, tt);
  ordered = (omega arith, omega arith);
  top = omega arith;
  whole = refl;
  used = refl;
}

heap_get_free_wraps_example : (heap_get_free full).0 ≡ 2 ^ 64 - header_size
unfolding total busy
heap_get_free_wraps_example = heap_get_free_wraps full (used_block ∷ []) 0x4000 full-Represents refl
