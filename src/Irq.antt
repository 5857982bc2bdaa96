-- ===== src/Irq.antt =====
-- kernel/hardware/interrupts.c and include/thuban/interrupts.h: the interrupt controller, the table
-- of handlers, and the two entries from assembly.
-- A handler is an address, NULL is 0. What a handler and a panic do is the parameter `W`; the ports
-- are written in the order of the list `sent`, of pairs of port and byte.
pub mod Dispatch
mod Tests
use thuban.Base.{
  ℕ, zero, suc, ◌+◌, ◌-◌, ◌*◌, ◌/◌, ◌%◌, ◌^◌, Bool, true, false, not, ◌&&◌, ◌||◌, List, [], ◌∷◌,
  ◌++◌, Option, none, some, ltb, ◌==◌, get_or, if◌then◌else◌,
}
use thuban.Base.Int.{ℤ, pos, negsuc}
use thuban.Base.Store.{update}

abbrev pub pic1_command : ℕ
pic1_command = 0x20

abbrev pub pic1_data : ℕ
pic1_data = 0x21

abbrev pub pic2_command : ℕ
pic2_command = 0xA0

abbrev pub pic2_data : ℕ
pic2_data = 0xA1

abbrev pub pic_eoi : ℕ
pic_eoi = 0x20

abbrev pub Ports : Type 0
Ports = List (ℕ × ℕ)

-- `exception_error_codes`, with the values of panic.h: general failure is 1.
abbrev pub exception_error_codes : List ℕ
exception_error_codes =
    1 ∷ 1 ∷ 1 ∷ 1 ∷ 1 ∷ 1 ∷ 0x6B ∷ 1 ∷ 0x7F ∷ 1 ∷ 1 ∷ 1 ∷ 0x77 ∷ 0x1E ∷ 0x50 ∷ 1 ∷ 1 ∷ 1 ∷ 1 ∷ 1 ∷ 1
    ∷ 1 ∷ 1 ∷ 1 ∷ 1 ∷ 1 ∷ 1 ∷ 1 ∷ 1 ∷ 1 ∷ 1 ∷ 1 ∷ []

-- `pic_remap`: the masks that were read are written back at the end.
pub pic_remap : (a1 a2 : ℕ) → Ports
pic_remap a1 a2 =
    (pic1_command, 0x11)
    ∷ (pic2_command, 0x11)
    ∷ (pic1_data, 0x20)
    ∷ (pic2_data, 0x28)
    ∷ (pic1_data, 0x04)
    ∷ (pic2_data, 0x02)
    ∷ (pic1_data, 0x01)
    ∷ (pic2_data, 0x01)
    ∷ (pic1_data, a1)
    ∷ (pic2_data, a2)
    ∷ []

-- `pic_send_eoi`, whose argument is a byte.
pub pic_send_eoi : ℕ → Ports
pic_send_eoi irq =
    if not (ltb irq 8)
    then (pic2_command, pic_eoi) ∷ (pic1_command, pic_eoi) ∷ []
    else ((pic1_command, pic_eoi) ∷ [])

-- `irq >= 0 && irq < 16`
pub line_of : ℤ → Option ℕ
line_of (negsuc n) = none
line_of (pos n) = if ltb n 16 then some n else none

-- The number that `isr_handler` gives to the panic, for an exception.
pub isr_handler : (int_no : ℕ) → Option ℕ
isr_handler int_no = if ltb int_no 32 then some (get_or exception_error_codes int_no 0) else none

-- `int irq = regs->int_no - 32;`, as a word of 32 bits in two's complement.
pub irq_number : ℕ → ℕ
irq_number int_no = (int_no + (2 ^ 64 - 32)) % 2 ^ 64 % 2 ^ 32

-- The handlers by their line, and the ports that are written.
pub record Irq : Type 0 where
  pub irq_handlers : ℕ → ℕ
  pub sent : Ports

pub irq_install_handler : ℤ → ℕ → Irq → Irq
unfolding line_of
irq_install_handler irq handler s = elim (line_of irq) [
  | none ↦ s
  | some i ↦ record s { irq_handlers = update s.irq_handlers i handler }
]

pub irq_uninstall_handler : ℤ → Irq → Irq
unfolding line_of
irq_uninstall_handler irq s = elim (line_of irq) [
  | none ↦ s
  | some i ↦ record s { irq_handlers = update s.irq_handlers i 0 }
]

pub interrupts_init : (a1 a2 : ℕ) → Irq → Irq
unfolding pic_remap
interrupts_init a1 a2 s = record s { sent = s.sent ++ pic_remap a1 a2 }

module _ {W : Type 0} where
  -- `call` is what the function at an address does; it may install handlers and write ports.
  pub irq_handler : (call : ℕ → Irq → W → Irq × W) → (int_no : ℕ) → Irq → W → Irq × W
  irq_handler call int_no s w =
      let irq = irq_number int_no in
      let (s', w') : Irq × W =
        if ltb irq 16 && not (s.irq_handlers irq == 0)
        then call (s.irq_handlers irq) s w
        else (s, w) in
      (record s' { sent = s'.sent ++ pic_send_eoi (irq % 2 ^ 8) }, w')
