-- ===== src/Heap/Contract/Paged.antt =====
-- The heap over the page tables: `malloc` with the `vmm_alloc` of mm/vmm.c.
use thuban.Base.{ℕ, suc, ◌+◌, ◌*◌, ◌^◌, ◌<◌, ◌≤◌, ◌≡◌, ◌≢◌, List, length, some, inl, inr, arith}
use thuban.Vmm.{Vmm, page_write, vmm_alloc}
use thuban.Vmm.Walk.{IsTree}
use thuban.Vmm.Pages.{Unshared}
use thuban.Vmm.Alloc.{nth_page}
use thuban.Vmm.Alloc.Outcome.{vmm_alloc-Outcome}
use thuban.Heap.{Heap, align_16, pages_for, malloc}
use thuban.Heap.Cells.{Cell}
use thuban.Heap.Contract.{Represents}
use thuban.Heap.Contract.Malloc.Served.{GivesAbove, Served, malloc-Served}

pages_for-pos : (n : ℕ) → 0 < n → n ≤ 2 ^ 63 + 15 → 0 < pages_for n
unfolding pages_for
pages_for-pos n pos small = omega (arith, pos, small)

align_16-bounds : (n : ℕ) → n ≢ 0 → n ≤ 2 ^ 63 → (0 < align_16 n) × (align_16 n ≤ 2 ^ 63 + 15)
unfolding align_16
align_16-bounds n ne small = (omega (arith, ne, small), omega (arith, small))

module _ (p4 : ℕ) where
  vmm_alloc-GivesAbove :
      (level : ℕ → ℕ) (hi pages : ℕ) (v : Vmm)
      → 0 < pages
      → IsTree p4 level v
      → ((i : ℕ) → i < pages → Unshared (nth_page v.next_virt_addr i))
      → hi ≤ v.next_virt_addr
      → v.next_virt_addr + pages * 4096 + 256 ≤ 2 ^ 64
      → GivesAbove hi pages (vmm_alloc p4 pages page_write v)
  vmm_alloc-GivesAbove level hi pages v pos tree c above room =
      elim (vmm_alloc-Outcome p4 pages page_write level v pos tree c) [
        | inl (z, _, _, _) ↦ inl z
        | inr (_, _, _, a, _, _, _, _, _, _, _) ↦
            inr (omega (arith, a, above), omega (arith, a, room))
      ]

  -- `malloc` with the `vmm_alloc` of mm/vmm.c: if the headers are those of a list of blocks, the
  -- tables have the invariant `IsTree`, `next_virt_addr` is above the heap and the new pages are
  -- `Unshared` and end 256 bytes below 2^64, then for 1 to 2^63 bytes `malloc` returns with two
  -- calls of itself. It takes the first free block that fits; or no block fits, and it returns
  -- NULL, or serves the request from new pages behind the last block.
  pub malloc-Paged :
      (k fuel size : ℕ) (h : Heap Vmm) (cells : List Cell) (hi : ℕ) (level : ℕ → ℕ)
      → length cells + 1 < fuel
      → size ≢ 0
      → size ≤ 2 ^ 63
      → Represents h cells hi
      → IsTree p4 level h.vmm
      → ((i : ℕ) → i < pages_for (align_16 size) → Unshared (nth_page h.vmm.next_virt_addr i))
      → hi ≤ h.vmm.next_virt_addr
      → h.vmm.next_virt_addr + pages_for (align_16 size) * 4096 + 256 ≤ 2 ^ 64
      → (r : ℕ) × (g : Heap Vmm) × (malloc
            (λ pages. vmm_alloc p4 pages page_write)
            (suc (suc k))
            fuel
            size
            h
          ≡ some (r, g))
        × Served (align_16 size) cells hi (r, g)
  malloc-Paged k fuel size h cells hi level l ne small r tree c above room =
      let (pos, bound) = align_16-bounds size ne small in
      let n = align_16 size in
      malloc-Served (λ pages. vmm_alloc p4 pages page_write) k fuel size h cells hi l ne small r
        (vmm_alloc-GivesAbove level hi (pages_for n) h.vmm (pages_for-pos n pos bound) tree c above
          room)
