-- ===== src/Vmm/Tests.antt =====
-- The tables of boot.s in pages 3, 4 and 5 of a memory of 64 pages, and theorems applied to them.
use thuban.Base.{
  ℕ, none, some, false, ◌+◌, ◌%◌, ◌<◌, ◌≤◌, ◌^◌, ◌≡◌, refl, true, arith, ◌==◌, if◌then◌else◌, ◌⊎◌,
}
use Prim.{tt}
use mathlib.Core.Path.{subst}
use mathlib.Core.Option.{some-injective}
use thuban.Pmm.{Pmm, bitmap_test}
use thuban.Pmm.Bitmap.{used_below}
use thuban.Pmm.Invariant.{IsValid, in_use}
use thuban.Vmm.{
  Vmm, page_write, frame, vmm_map, vmm_get_phys, vmm_alloc, vmm_free, new_pte, pml4_idx, pdpt_idx,
  pd_idx,
}
use thuban.Vmm.Tree.{boot_entry, descend, IsShape, Clear}
use thuban.Vmm.Walk.{page_at, Full, IsTree}
use thuban.Vmm.Walk.Start.{boot_tables, boot_level, IsTree-boot_tables}
use thuban.Vmm.Pages.{Unshared, page_of}
use thuban.Vmm.Translate.{vmm_get_phys-vmm_map}
use thuban.Vmm.Alloc.{nth_page}
use thuban.Vmm.Alloc.Outcome.{Fails, Gives, vmm_alloc-Outcome}
use thuban.Vmm.Free.Loop.{Freed, vmm_free-Freed}
use thuban.Vmm.Paging.{huge, paging_get_phys}
use thuban.Vmm.Paging.Huge.{OnlySmall, paging_get_phys-vmm_get_phys}

abbrev pub pages_64 : Pmm
pages_64 = record {
  bitmap = λ w. if w == 0 then 0x39 else 0;
  total_pages = 64;
  used_pages = 4;
  guard = record { lock = record { flags = 0; locked = 0; name = 0 }; rflags = 2 ^ 9 };
}

pages_64-IsValid : IsValid pages_64
unfolding used_below bitmap_test
pages_64-IsValid = record { covered = omega arith; counted = refl }

pages_64-in_use :
    (in_use pages_64 0 ≡ true) × (in_use pages_64 3 ≡ true) × (in_use pages_64 4 ≡ true)
unfolding bitmap_test
pages_64-in_use = (refl, refl, refl)

abbrev pub root : ℕ
root = page_at 3

abbrev pub level : ℕ → ℕ
level = boot_level 3 4

abbrev pub heap_base : ℕ
heap_base = 0xFFFF_FFFF_C000_0000

abbrev pub started : Vmm
started = record {
  tables = boot_tables 3 4 5;
  next_virt_addr = heap_base;
  guard = record { lock = record { flags = 0; locked = 0; name = 0 }; rflags = 2 ^ 9 };
  pmm = pages_64;
}

pub started-IsTree : IsTree root level started
started-IsTree =
    let (first, used3, used4) = pages_64-in_use in
    IsTree-boot_tables 3 4 5 started refl (omega arith) (omega arith) (omega arith) used3 used4
      first pages_64-IsValid

written_entry : new_pte 0x7ABC page_write ≡ 0x7003
unfolding new_pte
written_entry = refl

indices : (pml4_idx heap_base ≡ 511) × (pdpt_idx heap_base ≡ 511) × (pd_idx heap_base ≡ 0)
unfolding pml4_idx pdpt_idx pd_idx
indices = (refl, refl, refl)

-- The addresses from the start of the heap on: none uses an index of boot.s.
high-Unshared : (a : ℕ) → heap_base ≤ a → a < 2 ^ 64 → Unshared a
unfolding Unshared Clear boot_entry pml4_idx pdpt_idx
high-Unshared a lo hi = (ground (arith, lo, hi), (ground (arith, lo, hi), (refl, tt)))

pub heap_page-Unshared : (i : ℕ) → i < 1000 → Unshared (nth_page heap_base i)
heap_page-Unshared i l = high-Unshared (nth_page heap_base i) (omega (arith, l)) (omega (arith, l))

vmm_get_phys-vmm_map_example :
    let w = vmm_map root heap_base 0x7000 page_write started in
    (Full w × ((x : ℕ) → Unshared x → (vmm_get_phys root x w).0 ≡ (vmm_get_phys root x started).0))
    ⊎ ((x : ℕ)
        → Unshared x
        → (vmm_get_phys root x w).0 ≡ (
            if page_of heap_base == page_of x
            then frame 0x7000 + x % 4096
            else (vmm_get_phys root x started).0))
vmm_get_phys-vmm_map_example =
    vmm_get_phys-vmm_map root level heap_base 0x7000 page_write started started-IsTree
      (heap_page-Unshared 0 (omega arith)) (omega arith)

vmm_alloc-Outcome_example :
    Fails root 3 page_write started (vmm_alloc root 3 page_write started)
    ⊎ Gives root 3 page_write started (vmm_alloc root 3 page_write started)
vmm_alloc-Outcome_example =
    vmm_alloc-Outcome root 3 page_write level started (omega arith) started-IsTree
      (λ i low. heap_page-Unshared i (omega (arith, low)))

vmm_free-Freed_example :
    IsShape level (vmm_free root heap_base 3 started).tables
    × Freed root heap_base 3 0 started (vmm_free root heap_base 3 started)
vmm_free-Freed_example =
    vmm_free-Freed root heap_base 3 level started (omega arith) (started-IsTree.shape)
      (started-IsTree.root) (λ i low. heap_page-Unshared i (omega (arith, low)))

only_small : OnlySmall root heap_base started.tables
unfolding descend boot_tables pml4_idx pdpt_idx pd_idx huge
only_small = record {
  pdpt_small = λ t d pr.
      let at : page_at 4 ≡ t = some-injective (page_at 4) t d in
      subst (λ x. huge (started.tables x 511) ≡ false) at refl;
  pd_small = λ t d pr. let clash : none ≡ some t = d in absurd cc;
}

paging_get_phys-vmm_get_phys_example :
    paging_get_phys root heap_base started.tables ≡ (vmm_get_phys root heap_base started).0
paging_get_phys-vmm_get_phys_example =
    paging_get_phys-vmm_get_phys root heap_base started only_small
