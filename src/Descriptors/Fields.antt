-- ===== src/Descriptors/Fields.antt =====
-- What the processor reads out of the entries: the base, the limit, and the handler's address.
use thuban.Base.{
  ℕ, zero, suc, ◌+◌, ◌-◌, ◌*◌, ◌/◌, ◌%◌, ◌^◌, ◌<◌, ◌≤◌, ◌≡◌, ◌≢◌, refl, sym, ap, ◌∙◌, Bool, false,
  ◌==◌, inl, inr, arith, Bool-cases, ==_iff, bit_or,
}
use mathlib.Core.Path.{subst}
use thuban.Base.Store.{update, update_self, update_ne}
use thuban.Base.Bits.{bit_or_step}
use thuban.Descriptors.{
  GdtEntry, Gdt, IdtEntry, gdt_set_gate, gdt_set_tss, gdt_init, gdt_set_kernel_stack, idt_set_gate,
  set_gates, idt_init, idt_gate_interrupt, zero_entry, tss_size,
}

-- The fields of a segment descriptor as the processor puts them together.
pub segment_base : GdtEntry → ℕ
segment_base e = e.base_low + e.base_middle * 2 ^ 16 + e.base_high * 2 ^ 24

pub segment_limit : GdtEntry → ℕ
segment_limit e = e.limit_low + e.granularity % 2 ^ 4 * 2 ^ 16

-- The base of the task state segment, whose descriptor takes two entries.
pub tss_base : (ℕ → GdtEntry) → ℕ → ℕ
tss_base gdt num =
    segment_base (gdt num) + (gdt (num + 1)).limit_low * 2 ^ 32 + (gdt (num + 1)).base_low * 2 ^ 48

-- The address of the handler of an interrupt, and whether there is one.
pub gate_handler : IdtEntry → ℕ
gate_handler e = e.offset_low + e.offset_mid * 2 ^ 16 + e.offset_high * 2 ^ 32

pub gate_present : IdtEntry → Bool
gate_present e = e.type_attr / 128 % 2 == 1

low_nibble : (a b : ℕ) → b % 16 ≡ 0 → bit_or a b % 16 ≡ a % 16
low_nibble a b h = omega (
  arith,
  h,
  bit_or_step a b,
  bit_or_step (a / 2) (b / 2),
  bit_or_step (a / 2 / 2) (b / 2 / 2),
  bit_or_step (a / 2 / 2 / 2) (b / 2 / 2 / 2),
)

-- The entry that `gdt_set_gate` writes has the low 32 bits of the base, the low 20 bits of the
-- limit, and the rights; the other entries stay.
pub segment-gdt_set_gate :
    (num base limit access gran : ℕ) (gdt : ℕ → GdtEntry)
    → let after = gdt_set_gate num base limit access gran gdt in
      (segment_base (after num) ≡ base % 2 ^ 32)
      × (segment_limit (after num) ≡ limit % 2 ^ 20)
      × ((after num).access ≡ access)
      × ((j : ℕ) → num ≢ j → after j ≡ gdt j)
unfolding gdt_set_gate segment_base segment_limit
segment-gdt_set_gate num base limit access gran gdt =
    let e = update_self gdt num _ in
    (
      ap segment_base e ∙ omega arith,
      ap segment_limit e
          ∙ omega (arith, low_nibble (limit / 2 ^ 16 % 2 ^ 4) (gran - gran % 2 ^ 4) (omega arith)),
      ap (λ x. x.access) e,
      λ j ne. update_ne gdt num j _ ne,
    )

-- The two entries that `gdt_set_tss` writes have the whole base, the low 20 bits of the limit,
-- and the rights; the other entries stay.
pub tss_base-gdt_set_tss :
    (num base limit access gran : ℕ) (gdt : ℕ → GdtEntry)
    → base < 2 ^ 64
    → let after = gdt_set_tss num base limit access gran gdt in
      (tss_base after num ≡ base)
      × (segment_limit (after num) ≡ limit % 2 ^ 20)
      × ((after num).access ≡ access)
      × ((j : ℕ) → num ≢ j → num + 1 ≢ j → after j ≡ gdt j)
unfolding gdt_set_tss tss_base
tss_base-gdt_set_tss num base limit access gran gdt l =
    let (b, limits, rights, others) = segment-gdt_set_gate num base limit access gran gdt in
    let gates = gdt_set_gate num base limit access gran gdt in
    let after = gdt_set_tss num base limit access gran gdt in
    let third : (after (num + 1)).limit_low ≡ base / 2 ^ 32 % 2 ^ 16 =
      ap (λ x. x.limit_low) (update_self gates (num + 1) _) in
    let fourth : (after (num + 1)).base_low ≡ base / 2 ^ 48 % 2 ^ 16 =
      ap (λ x. x.base_low) (update_self gates (num + 1) _) in
    let lower : after num ≡ gates num = update_ne gates (num + 1) num _ (λ q. omega (arith, q)) in
    let low : segment_base (after num) ≡ base % 2 ^ 32 = ap segment_base lower ∙ b in
    (
      omega (arith, l, low, third, fourth),
      ap segment_limit lower ∙ limits,
      ap (λ x. x.access) lower ∙ rights,
      λ j ne ne'. update_ne gates (num + 1) j _ ne' ∙ others j ne,
    )

-- An entry that is set for the vector `v`.
abbrev pub Interrupt : (stub : ℕ → ℕ) (v : ℕ) → IdtEntry → Type 0
Interrupt stub v e =
    (gate_handler e ≡ stub v) × (e.selector ≡ 0x08) × (e.type_attr ≡ idt_gate_interrupt)

idt_set_gate-Interrupt :
    (stub : ℕ → ℕ) (v : ℕ) (idt : ℕ → IdtEntry)
    → stub v < 2 ^ 64
    → Interrupt stub v (idt_set_gate v (stub v) 0x08 idt_gate_interrupt idt v)
unfolding idt_set_gate gate_handler
idt_set_gate-Interrupt stub v idt l =
    let e = update_self idt v _ in
    (ap gate_handler e ∙ omega (arith, l), ap (λ x. x.selector) e, ap (λ x. x.type_attr) e)

set_gates-suc :
    (stub : ℕ → ℕ) (n v : ℕ) (idt : ℕ → IdtEntry)
    → n ≢ v
    → set_gates stub (suc n) idt v ≡ set_gates stub n idt v
unfolding set_gates idt_set_gate
set_gates-suc stub n v idt ne = update_ne (set_gates stub n idt) n v _ ne

last_gate :
    (stub : ℕ → ℕ) (v : ℕ) (idt : ℕ → IdtEntry)
    → stub v < 2 ^ 64
    → Interrupt stub v (set_gates stub (suc v) idt v)
unfolding set_gates
last_gate stub v idt l = idt_set_gate-Interrupt stub v (set_gates stub v idt) l

set_gates-Interrupt :
    (stub : ℕ → ℕ) (n v : ℕ) (idt : ℕ → IdtEntry)
    → stub v < 2 ^ 64
    → v < n
    → Interrupt stub v (set_gates stub n idt v)
set_gates-Interrupt stub zero v idt l h = absurd (omega (arith, h))
set_gates-Interrupt stub (suc n) v idt l h = elim (Bool-cases (n == v)) [
  | inl e ↦
      subst (λ k. Interrupt stub v (set_gates stub (suc k) idt v)) (sym ((==_iff n v).0 e))
        (last_gate stub v idt l)
  | inr e ↦
      subst (Interrupt stub v) (sym (set_gates-suc stub n v idt (λ q. ground (arith, e, q))))
        (set_gates-Interrupt stub n v idt l (ground (arith, e, h)))
]

set_gates-above :
    (stub : ℕ → ℕ) (n v : ℕ) (idt : ℕ → IdtEntry) → n ≤ v → set_gates stub n idt v ≡ idt v
unfolding set_gates
set_gates-above stub zero v idt h = refl
set_gates-above stub (suc n) v idt h =
    set_gates-suc stub n v idt (λ q. omega (arith, q, h))
    ∙ set_gates-above stub n v idt (omega (arith, h))

zero_entry-absent : gate_present zero_entry ≡ false
unfolding gate_present
zero_entry-absent = refl

-- After `idt_init`, each of the vectors 0 to 47 has the address of its entry point, the selector of
-- kernel code and the type of an interrupt gate; no vector from 48 on has a gate that is present.
pub idt_init-Interrupt :
    (stub : ℕ → ℕ) (address : ℕ)
    → ((v : ℕ) → stub v < 2 ^ 64)
    → let t = idt_init stub address in
      ((v : ℕ) → v < 48 → Interrupt stub v (t.idt v))
      × ((v : ℕ) → 48 ≤ v → gate_present (t.idt v) ≡ false)
unfolding idt_init
idt_init-Interrupt stub address l = (
  λ v h. set_gates-Interrupt stub 48 v (λ _. zero_entry) (l v) h,
  λ v h. ap gate_present (set_gates-above stub 48 v (λ _. zero_entry) h) ∙ zero_entry-absent,
)

-- What `gdt_init` sets up: a flat segment of the given rights at each selector, and the task state
-- segment.
abbrev pub Flat : (access : ℕ) → GdtEntry → Type 0
Flat access e = (segment_base e ≡ 0) × (segment_limit e ≡ 0xF_FFFF) × (e.access ≡ access)

-- After `gdt_init` and `gdt_set_kernel_stack`, the entries 1 to 4 are segments of base 0 and the
-- largest limit with the rights of kernel code, kernel data, user code and user data; the two
-- entries from 5 on give back the 64-bit address of the task state segment, with its rights, and
-- its `rsp0` is the stack.
pub gdt_init-Segments :
    (gdt_address tss_address stack : ℕ) (g : Gdt)
    → tss_address < 2 ^ 64
    → let after = gdt_set_kernel_stack stack (gdt_init gdt_address tss_address g) in
      Flat 0x9A (after.gdt 1)
      × Flat 0x92 (after.gdt 2)
      × Flat 0xFA (after.gdt 3)
      × Flat 0xF2 (after.gdt 4)
      × (tss_base after.gdt 5 ≡ tss_address)
      × ((after.gdt 5).access ≡ 0x89)
      × (after.tss.rsp0 ≡ stack)
unfolding gdt_init gdt_set_kernel_stack gdt_set_gate segment_base segment_limit update
gdt_init-Segments gdt_address tss_address stack g l =
    let g0 = gdt_set_gate 0 0 0 0 0 g.gdt in
    let g1 = gdt_set_gate 1 0 0xFFFF_FFFF 0x9A 0xA0 g0 in
    let g2 = gdt_set_gate 2 0 0xFFFF_FFFF 0x92 0xC0 g1 in
    let g3 = gdt_set_gate 3 0 0xFFFF_FFFF 0xFA 0xA0 g2 in
    let g4 = gdt_set_gate 4 0 0xFFFF_FFFF 0xF2 0xC0 g3 in
    let (base, _, rights, others) = tss_base-gdt_set_tss 5 tss_address tss_size 0x89 0x00 g4 l in
    let flat : (i access : ℕ)
        → Flat access (g4 i)
        → i < 5
        → Flat access (gdt_set_tss 5 tss_address tss_size 0x89 0x00 g4 i) =
      λ i access f h.
        subst (Flat access) (sym (others i (λ q. omega (arith, q, h)) (λ q. omega (arith, q, h))))
          f in
    (
      flat 1 0x9A (refl, refl, refl) (omega arith),
      flat 2 0x92 (refl, refl, refl) (omega arith),
      flat 3 0xFA (refl, refl, refl) (omega arith),
      flat 4 0xF2 (refl, refl, refl) (omega arith),
      base,
      rights,
      refl,
    )
