-- ===== src/Terminal.antt =====
-- lib/stdio.c, from `terminal_reset` to `puts`: the terminal's position on the VGA screen.
-- A character is its code, from 0 to 255. The bytes that `vga_set_cursor_pos` sends to the
-- controller are left out here.
pub mod Cursor
mod Tests
use thuban.Base.{ℕ, zero, suc, ◌+◌, ◌-◌, ◌%◌, not, List, [], ◌∷◌, ltb, ◌==◌, if◌then◌else◌}
use thuban.Vga.{Vga, vga_width, vga_height, vga_set_cursor_pos, vga_write_cell, vga_scroll_up}

-- The static variables of the file, with the screen.
pub record Terminal : Type 0 where
  pub term_x : ℕ
  pub term_y : ℕ
  pub vga : Vga

pub terminal_reset : Terminal → Terminal
terminal_reset t = record t { term_x = 0; term_y = 0 }

-- `vga_set_cursor_pos(term_x, term_y)`
pub show_cursor : Terminal → Terminal
show_cursor t = record t { vga = (vga_set_cursor_pos t.term_x t.term_y t.vga).1 }

pub term_scroll : Terminal → Terminal
term_scroll t = record t { vga = vga_scroll_up t.vga; term_y = vga_height - 1 }

pub term_newline : Terminal → Terminal
unfolding term_scroll show_cursor
term_newline t =
    let u = record t { term_x = 0; term_y = t.term_y + 1 } in
    show_cursor (if not (ltb u.term_y vga_height) then term_scroll u else u)

pub term_advance : Terminal → Terminal
unfolding term_newline show_cursor
term_advance t =
    let u = record t { term_x = t.term_x + 1 } in
    if not (ltb u.term_x vga_width) then term_newline u else show_cursor u

-- The end of `putchar`, which a character reaches that is none of the four control codes.
pub put_cell : ℕ → Terminal → Terminal
unfolding term_advance
put_cell c t =
    term_advance (record t { vga = vga_write_cell c t.vga.current_color t.term_x t.term_y t.vga })

-- The loop at a tab: its calls `putchar(' ')` reach the end of the function.
pub put_spaces : ℕ → Terminal → Terminal
unfolding put_cell
put_spaces zero t = t
put_spaces (suc n) t = put_spaces n (put_cell 32 t)

pub putchar : ℕ → Terminal → Terminal
unfolding term_newline show_cursor put_spaces put_cell
putchar c t =
    if c == 10
    then term_newline t
    else if c == 13
    then show_cursor (record t { term_x = 0 })
    else if c == 9
    then put_spaces (4 - t.term_x % 4) t
    else if c == 8
    then (if ltb 0 t.term_x then show_cursor (record t { term_x = t.term_x - 1 }) else t)
    else put_cell c t

-- A loop of calls of `putchar`.
pub put_all : List ℕ → Terminal → Terminal
unfolding putchar
put_all [] t = t
put_all (c ∷ cs) t = put_all cs (putchar c t)

-- The variable `count` of `puts`.
pub puts_count : List ℕ → ℕ
puts_count [] = 0
puts_count (c ∷ cs) = puts_count cs + 1

-- `puts` of a string, with the value that it returns.
pub puts : List ℕ → Terminal → ℕ × Terminal
unfolding put_all putchar puts_count
puts s t = (puts_count s + 1, putchar 10 (put_all s t))
