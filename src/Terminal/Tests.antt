-- ===== src/Terminal/Tests.antt =====
-- A terminal at the last cell of the screen, and a theorem applied to it.
use thuban.Base.{◌≡◌, refl, arith, ◌+◌, ◌==◌, ◌&&◌, if◌then◌else◌}
use thuban.Vga.{vga_read_cell}
use thuban.Vga.Screen.{blank}
use thuban.Terminal.{Terminal, putchar}
use thuban.Terminal.Cursor.{IsValid, written, putchar_lem}

abbrev at_end : Terminal
at_end = record {
  term_x = 79;
  term_y = 24;
  vga = record { buffer = λ a. a; current_color = 15; cursor_x = 79; cursor_y = 24 };
}

at_end-IsValid : IsValid at_end
at_end-IsValid = record { x_in = omega arith; y_in = omega arith; x_shown = refl; y_shown = refl }

putchar_lem_example : vga_read_cell 79 23 (putchar 97 at_end).vga ≡ (
    if 79 == 79 && 24 == 24
    then (if 23 == 24 then blank at_end.vga else written 97 at_end 79 (23 + 1))
    else written 97 at_end 79 23)
putchar_lem_example =
    putchar_lem 97 79 23 at_end-IsValid (omega arith) (omega arith) (omega arith) (omega arith)
      (omega arith) (omega arith)
