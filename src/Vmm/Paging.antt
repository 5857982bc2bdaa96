-- ===== src/Vmm/Paging.antt =====
-- mm/paging.c: the page tables without the allocator. Nothing is made here: where a table is
-- missing, the functions return. `paging_init` is empty, and `invlpg` has no effect on the state.
pub mod Huge
use thuban.Base.{
  ℕ, ◌+◌, ◌-◌, ◌*◌, ◌/◌, ◌%◌, ◌^◌, bit_or, Bool, true, false, not, Option, none, some, ◌==◌,
  if◌then◌else◌,
}
use mathlib.Core.Option
use thuban.Vmm.{pml4_idx, pdpt_idx, pd_idx, pt_idx, present, frame, table_of, set_entry, new_pte}

-- `entry & PAGING_HUGE`, which is bit 7.
unfoldable pub huge : ℕ → Bool
huge entry = entry / 128 % 2 == 1

-- The table that an entry leads to, if the entry is present.
pub lower : (ℕ → ℕ → ℕ) → (table index : ℕ) → Option ℕ
lower m table index = if present (m table index) then some (table_of (m table index)) else none

-- The table of the last level, through three present entries.
pub last_table : (p4_table virt : ℕ) → (ℕ → ℕ → ℕ) → Option ℕ
last_table p4_table virt m =
    Option.bind (lower m p4_table (pml4_idx virt))
      (λ pdpt. Option.bind (lower m pdpt (pdpt_idx virt)) (λ pd. lower m pd (pd_idx virt)))

pub paging_map : (p4_table virt phys flags : ℕ) → (ℕ → ℕ → ℕ) → ℕ → ℕ → ℕ
paging_map p4_table virt phys flags m = elim (last_table p4_table virt m) [
  | none ↦ m
  | some pt ↦ set_entry pt (pt_idx virt) (new_pte phys flags) m
]

pub paging_unmap : (p4_table virt : ℕ) → (ℕ → ℕ → ℕ) → ℕ → ℕ → ℕ
paging_unmap p4_table virt m = elim (last_table p4_table virt m) [
  | none ↦ m
  | some pt ↦ set_entry pt (pt_idx virt) 0 m
]

-- The last step of `paging_get_phys`, in the table of the last level.
pub small_page : (pt virt : ℕ) → (ℕ → ℕ → ℕ) → ℕ
small_page pt virt m =
    let entry = m pt (pt_idx virt) in
    if not (present entry) then 0 else bit_or (frame entry) (virt % 4096)

-- The steps from the table of the third level on: a page of 2 MB, or the next table.
pub from_pd : (pd virt : ℕ) → (ℕ → ℕ → ℕ) → ℕ
from_pd pd virt m =
    let entry = m pd (pd_idx virt) in
    if not (present entry)
    then 0
    else if huge entry
    then bit_or (entry - entry % 2 ^ 21) (virt % 2 ^ 21)
    else small_page (table_of entry) virt m

pub from_pdpt : (pdpt virt : ℕ) → (ℕ → ℕ → ℕ) → ℕ
from_pdpt pdpt virt m =
    let entry = m pdpt (pdpt_idx virt) in
    if not (present entry)
    then 0
    else if huge entry
    then bit_or (entry - entry % 2 ^ 30) (virt % 2 ^ 30)
    else from_pd (table_of entry) virt m

pub paging_get_phys : (p4_table virt : ℕ) → (ℕ → ℕ → ℕ) → ℕ
paging_get_phys p4_table virt m =
    let entry = m p4_table (pml4_idx virt) in
    if not (present entry) then 0 else from_pdpt (table_of entry) virt m
