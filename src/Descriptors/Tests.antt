-- ===== src/Descriptors/Tests.antt =====
-- The tables at concrete addresses, and theorems applied to them.
use thuban.Base.{ℕ, ◌+◌, ◌*◌, ◌^◌, ◌%◌, ◌<◌, ◌≤◌, ◌≡◌, false, arith}
use thuban.Descriptors.{Gdt, GdtEntry, gdt_init, gdt_set_kernel_stack, idt_init}
use thuban.Descriptors.Fields.{
  Flat, Interrupt, tss_base, gate_present, gdt_init-Segments, idt_init-Interrupt,
}

abbrev nothing : GdtEntry
nothing = record {
  limit_low = 0;
  base_low = 0;
  base_middle = 0;
  access = 0;
  granularity = 0;
  base_high = 0;
}

abbrev unset : Gdt
unset = record {
  gdt = λ i. nothing;
  gdt_pointer = record { limit = 0; base = 0 };
  tss = record { rsp0 = 0; iomap_base = 0 };
}

-- The entry points, 16 bytes each.
abbrev stubs : ℕ → ℕ
stubs v = 0xFFFF_FFFF_8010_0000 + v % 256 * 16

gdt_init-Segments_example :
    let after =
      gdt_set_kernel_stack 0x9000 (gdt_init 0xFFFF_FFFF_8020_0000 0xFFFF_FFFF_8020_1000 unset) in
    Flat 0x9A (after.gdt 1)
    × Flat 0x92 (after.gdt 2)
    × Flat 0xFA (after.gdt 3)
    × Flat 0xF2 (after.gdt 4)
    × (tss_base after.gdt 5 ≡ 0xFFFF_FFFF_8020_1000)
    × ((after.gdt 5).access ≡ 0x89)
    × (after.tss.rsp0 ≡ 0x9000)
gdt_init-Segments_example =
    gdt_init-Segments 0xFFFF_FFFF_8020_0000 0xFFFF_FFFF_8020_1000 0x9000 unset (omega arith)

stubs-bound : (v : ℕ) → stubs v < 2 ^ 64
stubs-bound v = omega arith

idt_init-Interrupt_example :
    let t = idt_init stubs 0xFFFF_FFFF_8030_0000 in
    ((v : ℕ) → v < 48 → Interrupt stubs v (t.idt v))
    × ((v : ℕ) → 48 ≤ v → gate_present (t.idt v) ≡ false)
idt_init-Interrupt_example = idt_init-Interrupt stubs 0xFFFF_FFFF_8030_0000 stubs-bound
