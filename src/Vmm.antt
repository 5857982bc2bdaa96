-- ===== src/Vmm.antt =====
-- mm/vmm.c and mm/paging.c: page tables, and the memory that is mapped for the heap.
-- `tables` gives the 512 entries of the table at each address. The address of `p4_table` is a
-- parameter; each other table is the page of its entry, seen at KERNEL_VIRT_BASE. `invlpg` has no
-- effect on the state, and the messages that are printed are left out.
pub mod Entries
pub mod Tree
pub mod Walk
pub mod Pages
pub mod Map
pub mod Translate
pub mod Alloc
pub mod Free
pub mod Paging
pub mod Tests
use thuban.Base.{
  ℕ, zero, suc, ◌+◌, ◌-◌, ◌*◌, ◌/◌, ◌%◌, ◌^◌, bit_or, Bool, true, false, not, ◌&&◌, Option, none,
  some, ◌==◌, if◌then◌else◌,
}
use thuban.Base.Store.{update}
use thuban.Lock.{Guard, spin_lock, spin_unlock, spin_lock_init}
use thuban.Pmm.{Pmm, null, pmm_alloc, pmm_alloc_pages, pmm_free, pmm_free_pages}

abbrev pub kernel_virt_base : ℕ
kernel_virt_base = 0xFFFF_FFFF_8000_0000

abbrev pub page_present : ℕ
page_present = 1

abbrev pub page_write : ℕ
page_write = 2

-- The static variables of mm/vmm.c, the tables, and the allocator of pages.
pub record Vmm : Type 0 where
  pub tables : ℕ → ℕ → ℕ
  pub next_virt_addr : ℕ
  pub guard : Guard
  pub pmm : Pmm

-- `entry & PAGE_PRESENT`, whose bit is the lowest, and `entry & ~0xFFF`.
abbrev pub present : ℕ → Bool
present entry = entry % 2 == 1

abbrev pub frame : ℕ → ℕ
frame entry = entry - entry % 4096

-- The table of an entry.
abbrev pub table_of : ℕ → ℕ
table_of entry = (frame entry + kernel_virt_base) % 2 ^ 64

-- `table[index] = entry`
pub set_entry : (table index entry : ℕ) → (ℕ → ℕ → ℕ) → ℕ → ℕ → ℕ
set_entry table index entry tables = update tables table (update (tables table) index entry)

-- One level of `get_pte`: the table of the next level, which is made if `create` says so.
pub next_level : (create : Bool) → (table index : ℕ) → Vmm → Option ℕ × Vmm
next_level create table index v =
    let entry = v.tables table index in
    let (page, pmm) = pmm_alloc v.pmm in
    let made = bit_or (bit_or page page_present) page_write in
    let zeroed = update v.tables ((page + kernel_virt_base) % 2 ^ 64) (λ _. 0) in
    if present entry
    then (some (table_of entry), v)
    else if not create
    then (none, v)
    else if page == null
    then (none, record v { pmm = pmm })
    else (some (table_of made), record v { pmm = pmm; tables = set_entry table index made zeroed })

pub pml4_idx : ℕ → ℕ
pml4_idx virt = virt / 2 ^ 39 % 512

pub pdpt_idx : ℕ → ℕ
pdpt_idx virt = virt / 2 ^ 30 % 512

pub pd_idx : ℕ → ℕ
pd_idx virt = virt / 2 ^ 21 % 512

pub pt_idx : ℕ → ℕ
pt_idx virt = virt / 2 ^ 12 % 512

-- A level, and what follows if it has a table.
abbrev pub then_level : Option ℕ × Vmm → (ℕ → Vmm → Option ℕ × Vmm) → Option ℕ × Vmm
then_level (t, v) k = elim t [ none ↦ (none, v) | some table ↦ k table v ]

pub acquire : Vmm → Vmm
acquire v = record v { guard = spin_lock v.guard }

pub release : Vmm → Vmm
release v = record v { guard = spin_unlock v.guard }

pub vmm_init : ℕ → Vmm → Vmm
vmm_init lock_name v = record v { guard = spin_lock_init lock_name v.guard }

-- `(phys & ~0xFFF) | flags | PAGE_PRESENT`
pub new_pte : (phys flags : ℕ) → ℕ
new_pte phys flags = bit_or (bit_or (frame phys) flags) page_present

module _ (p4_table : ℕ) where
  -- The table of the last level; the entry is the one at `pt_idx virt`.
  pub get_pte : (create : Bool) → (virt : ℕ) → Vmm → Option ℕ × Vmm
  get_pte create virt v = then_level (next_level create p4_table (pml4_idx virt) v) (λ pdpt v₁.
      then_level (next_level create pdpt (pdpt_idx virt) v₁)
        (λ pd v₂. next_level create pd (pd_idx virt) v₂))

  -- `*pte = entry`
  abbrev pub write_pte : (pt virt entry : ℕ) → Vmm → Vmm
  write_pte pt virt entry v = record v { tables = set_entry pt (pt_idx virt) entry v.tables }

  pub vmm_map : (virt phys flags : ℕ) → Vmm → Vmm
  vmm_map virt phys flags v =
      let (pte, w) = get_pte true virt (acquire v) in
      elim pte [ none ↦ release w | some pt ↦ release (write_pte pt virt (new_pte phys flags) w) ]

  pub vmm_unmap : (virt : ℕ) → Vmm → Vmm
  vmm_unmap virt v =
      let (pte, w) = get_pte false virt (acquire v) in
      elim pte [ none ↦ release w | some pt ↦ release (write_pte pt virt 0 w) ]

  -- The loop over `i`, with the rounds left; `false` when a table is missing.
  pub map_loop : ℕ → (i phys flags : ℕ) → Vmm → Bool × Vmm
  map_loop zero i phys flags v = (true, v)
  map_loop (suc n) i phys flags v =
      let virt = (v.next_virt_addr + i * 4096) % 2 ^ 64 in
      let (pte, w) = get_pte true virt v in
      elim pte [
        | none ↦ (false, w)
        | some pt ↦
            map_loop n (i + 1) phys flags
              (write_pte pt virt (new_pte ((phys + i * 4096) % 2 ^ 64) flags) w)
      ]

  -- The address, or NULL.
  pub vmm_alloc : (pages flags : ℕ) → Vmm → ℕ × Vmm
  vmm_alloc pages flags v =
      let (phys, pmm) = pmm_alloc_pages pages v.pmm in
      let locked = acquire (record v { pmm = pmm }) in
      let (mapped, w) = map_loop pages 0 phys flags locked in
      let failed = release w in
      if phys == null
      then (null, record v { pmm = pmm })
      else if not mapped
      then (null, record failed { pmm = pmm_free_pages phys pages failed.pmm })
      else (
        v.next_virt_addr,
        release (record w { next_virt_addr = (w.next_virt_addr + pages * 4096) % 2 ^ 64 }),
      )

  -- The loop over `i`, with the rounds left.
  pub unmap_loop : ℕ → (i virt : ℕ) → Vmm → Vmm
  unmap_loop zero i virt v = v
  unmap_loop (suc n) i virt v =
      let addr = (virt + i * 4096) % 2 ^ 64 in
      let (pte, w) = get_pte false addr v in
      unmap_loop n (i + 1) virt (elim pte [
        | none ↦ w
        | some pt ↦
            (let entry = w.tables pt (pt_idx addr) in
              if present entry
              then write_pte pt addr 0 (record w { pmm = pmm_free (frame entry) w.pmm })
              else w)
      ])

  pub vmm_free : (virt pages : ℕ) → Vmm → Vmm
  vmm_free virt pages v = release (unmap_loop pages 0 virt (acquire v))

  pub vmm_get_phys : (virt : ℕ) → Vmm → ℕ × Vmm
  vmm_get_phys virt v =
      let (pte, w) = get_pte false virt (acquire v) in
      elim pte [
        | none ↦ (0, release w)
        | some pt ↦
            (let entry = w.tables pt (pt_idx virt) in
              (if present entry then bit_or (frame entry) (virt % 4096) else 0, release w))
      ]
