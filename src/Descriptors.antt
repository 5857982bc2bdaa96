-- ===== src/Descriptors.antt =====
-- kernel/hardware/gdt.c and kernel/hardware/idt.c: the tables of segments and of interrupt handlers.
-- The addresses of the tables and of the entry points isr0 to isr31 and irq0 to irq15 are
-- parameters. Loading the tables into the processor is left out.
pub mod Fields
mod Tests
use thuban.Base.{ℕ, zero, suc, ◌+◌, ◌-◌, ◌*◌, ◌/◌, ◌%◌, ◌^◌, bit_or}
use thuban.Base.Store.{update}

-- `struct gdt_entry`, `struct gdt_ptr` and, of `struct tss_entry`, what the code writes.
pub record GdtEntry : Type 0 where
  pub limit_low : ℕ
  pub base_low : ℕ
  pub base_middle : ℕ
  pub access : ℕ
  pub granularity : ℕ
  pub base_high : ℕ

pub record TablePtr : Type 0 where
  pub limit : ℕ
  pub base : ℕ

pub record TssEntry : Type 0 where
  pub rsp0 : ℕ
  pub iomap_base : ℕ

pub record Gdt : Type 0 where
  pub gdt : ℕ → GdtEntry
  pub gdt_pointer : TablePtr
  pub tss : TssEntry

pub gdt_set_gate : (num base limit access gran : ℕ) → (ℕ → GdtEntry) → ℕ → GdtEntry
gdt_set_gate num base limit access gran gdt = update gdt num (record {
  base_low = base % 2 ^ 16;
  base_middle = base / 2 ^ 16 % 2 ^ 8;
  base_high = base / 2 ^ 24 % 2 ^ 8;
  limit_low = limit % 2 ^ 16;
  granularity = bit_or (limit / 2 ^ 16 % 2 ^ 4) (gran - gran % 2 ^ 4);
  access = access;
})

pub gdt_set_tss : (num base limit access gran : ℕ) → (ℕ → GdtEntry) → ℕ → GdtEntry
gdt_set_tss num base limit access gran gdt =
    update (gdt_set_gate num base limit access gran gdt) (num + 1) (record {
      limit_low = base / 2 ^ 32 % 2 ^ 16;
      base_low = base / 2 ^ 48 % 2 ^ 16;
      base_middle = 0;
      access = 0;
      granularity = 0;
      base_high = 0;
    })

-- `sizeof(struct tss_entry)`
abbrev pub tss_size : ℕ
tss_size = 104

pub gdt_init : (gdt_address tss_address : ℕ) → Gdt → Gdt
gdt_init gdt_address tss_address g =
    let g0 = gdt_set_gate 0 0 0 0 0 g.gdt in
    let g1 = gdt_set_gate 1 0 0xFFFF_FFFF 0x9A 0xA0 g0 in
    let g2 = gdt_set_gate 2 0 0xFFFF_FFFF 0x92 0xC0 g1 in
    let g3 = gdt_set_gate 3 0 0xFFFF_FFFF 0xFA 0xA0 g2 in
    let g4 = gdt_set_gate 4 0 0xFFFF_FFFF 0xF2 0xC0 g3 in
    record {
      gdt = gdt_set_tss 5 tss_address tss_size 0x89 0x00 g4;
      gdt_pointer = record { limit = 8 * 7 - 1; base = gdt_address };
      tss = record { rsp0 = 0; iomap_base = tss_size };
    }

pub gdt_set_kernel_stack : (stack : ℕ) → Gdt → Gdt
gdt_set_kernel_stack stack g = record g { tss = record (g.tss) { rsp0 = stack } }

-- `struct idt_entry`
pub record IdtEntry : Type 0 where
  pub offset_low : ℕ
  pub selector : ℕ
  pub ist : ℕ
  pub type_attr : ℕ
  pub offset_mid : ℕ
  pub offset_high : ℕ
  pub zeroed : ℕ

pub record Idt : Type 0 where
  pub idt : ℕ → IdtEntry
  pub idt_pointer : TablePtr

abbrev pub idt_gate_interrupt : ℕ
idt_gate_interrupt = 0x8E

pub idt_set_gate : (num handler selector type_attr : ℕ) → (ℕ → IdtEntry) → ℕ → IdtEntry
idt_set_gate num handler selector type_attr idt = update idt num (record {
  offset_low = handler % 2 ^ 16;
  offset_mid = handler / 2 ^ 16 % 2 ^ 16;
  offset_high = handler / 2 ^ 32 % 2 ^ 32;
  selector = selector;
  ist = 0;
  type_attr = type_attr;
  zeroed = 0;
})

-- The calls of `idt_set_gate` for the vectors below `n`, with the address of each entry point.
pub set_gates : (ℕ → ℕ) → (n : ℕ) → (ℕ → IdtEntry) → ℕ → IdtEntry
set_gates stub zero idt = idt
set_gates stub (suc n) idt = idt_set_gate n (stub n) 0x08 idt_gate_interrupt (set_gates stub n idt)

-- An entry after `memset`.
abbrev pub zero_entry : IdtEntry
zero_entry = record {
  offset_low = 0;
  selector = 0;
  ist = 0;
  type_attr = 0;
  offset_mid = 0;
  offset_high = 0;
  zeroed = 0;
}

-- `stub` gives isr0 to isr31 and then irq0 to irq15.
pub idt_init : (stub : ℕ → ℕ) → (idt_address : ℕ) → Idt
idt_init stub idt_address = record {
  idt = set_gates stub 48 (λ _. zero_entry);
  idt_pointer = record { limit = 16 * 256 - 1; base = idt_address };
}
