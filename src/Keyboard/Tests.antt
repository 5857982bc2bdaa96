-- ===== src/Keyboard/Tests.antt =====
-- A keyboard with one character waiting at the end of the ring, and theorems applied to it.
use thuban.Base.{◌^◌, ◌≡◌, refl, true, false, arith, [], ◌∷◌, get_or}
use thuban.Keyboard.{Keyboard, keyboard_irq_handler, scancode_to_ascii, is_lower}
use thuban.Keyboard.Queue as Queue
use thuban.Keyboard.Ring.{IsValid, contents}
use thuban.Keyboard.Layout.{char_of, key_in}
use thuban.Keyboard.Handler.{typed, one_char, keyboard_irq_handler_refines}
use thuban.Keyboard.Modifiers.{flags, next_flags, flags-keyboard_irq_handler}

abbrev one_waiting : Keyboard
one_waiting = record {
  shift_pressed = true;
  ctrl_pressed = false;
  alt_pressed = false;
  capslock_active = false;
  extended_key = false;
  kb_buffer = λ i. 104;
  kb_buffer_start = 255;
  kb_buffer_end = 0;
  kb_lock = record { lock = record { flags = 0; locked = 0; name = 0 }; rflags = 2 ^ 9 };
}

one_waiting-IsValid : IsValid one_waiting
one_waiting-IsValid = record { start_in = omega arith; end_in = omega arith }

-- Under Shift the key of "a" types "A".
keyboard_irq_handler_refines_example :
    contents (keyboard_irq_handler 0x1E one_waiting)
    ≡ Queue.add_all (contents one_waiting) (typed one_waiting 0x1E)
keyboard_irq_handler_refines_example = keyboard_irq_handler_refines 0x1E one_waiting-IsValid

typed_capital : typed one_waiting 0x1E ≡ 65 ∷ []
unfolding typed one_char char_of key_in
typed_capital = refl

flags-keyboard_irq_handler_example :
    flags (keyboard_irq_handler 0xAA one_waiting) ≡ next_flags 0xAA (flags one_waiting)
flags-keyboard_irq_handler_example = flags-keyboard_irq_handler 0xAA one_waiting (omega arith)

letter_c : is_lower (get_or scancode_to_ascii 0x2E 0) ≡ true
unfolding get_or
letter_c = refl
