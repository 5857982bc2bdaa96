-- ===== src/Terminal/Cursor.antt =====
-- Where the cursor is after a character, and what the screen shows.
use thuban.Base.{
  ℕ, zero, suc, ◌+◌, ◌-◌, ◌%◌, ◌<◌, ◌≡◌, ◌≢◌, ap, ◌∙◌, ◌&&◌, true, false, List, [], ◌∷◌, ltb, ◌==◌,
  if◌then◌else◌, arith, Bool-cases, inl, inr,
}
use thuban.Vga.{vga_width, vga_height, vga_entry, vga_write_cell, vga_read_cell}
use thuban.Vga.Screen.{
  blank, vga_read_cell-write, vga_scroll_up_lem, vga_set_cursor_pos_lem, color-write,
}
use thuban.Terminal.{
  Terminal, show_cursor, term_scroll, term_newline, term_advance, put_cell, put_spaces, putchar,
  put_all,
}

-- The position is on the screen, and the screen's cursor stands there.
pub record IsValid (t : Terminal) : Type 0 where
  pub x_in : t.term_x < vga_width
  pub y_in : t.term_y < vga_height
  pub x_shown : t.vga.cursor_x ≡ t.term_x
  pub y_shown : t.vga.cursor_y ≡ t.term_y

show_cursor-IsValid :
    (t : Terminal) → t.term_x < vga_width → t.term_y < vga_height → IsValid (show_cursor t)
unfolding show_cursor
show_cursor-IsValid t hx hy =
    let at = vga_set_cursor_pos_lem t.term_x t.term_y 0 0 t.vga hx hy in
    record { x_in = hx; y_in = hy; x_shown = at.0; y_shown = at.1 }

term_newline-IsValid : (t : Terminal) → t.term_y < vga_height → IsValid (term_newline t)
unfolding term_newline term_scroll
term_newline-IsValid t hy = elim (Bool-cases (ltb (t.term_y + 1) vga_height)) [
  | inl e ↦ rw (term_newline, e) (show_cursor-IsValid _ (omega arith) (ground arith))
  | inr e ↦ rw (term_newline, e) (show_cursor-IsValid _ (omega arith) (omega arith))
]

term_advance-IsValid :
    (t : Terminal) → t.term_x < vga_width → t.term_y < vga_height → IsValid (term_advance t)
unfolding term_advance
term_advance-IsValid t hx hy = elim (Bool-cases (ltb (t.term_x + 1) vga_width)) [
  | inl e ↦ rw (term_advance, e) (show_cursor-IsValid _ (ground arith) hy)
  | inr e ↦ rw (term_advance, e) (term_newline-IsValid (record t { term_x = t.term_x + 1 }) hy)
]

put_cell-IsValid : (c : ℕ) {t : Terminal} → IsValid t → IsValid (put_cell c t)
unfolding put_cell
put_cell-IsValid c v = term_advance-IsValid _ v.x_in v.y_in

put_spaces-IsValid : (n : ℕ) {t : Terminal} → IsValid t → IsValid (put_spaces n t)
unfolding put_spaces
put_spaces-IsValid zero v = v
put_spaces-IsValid (suc n) v = put_spaces-IsValid n (put_cell-IsValid 32 v)

putchar-IsValid : (c : ℕ) {t : Terminal} → IsValid t → IsValid (putchar c t)
unfolding putchar
putchar-IsValid c {t} v = elim (Bool-cases (c == 10)) [
  | inl e ↦ rw (putchar, e) (term_newline-IsValid t v.y_in)
  | inr e ↦ elim (Bool-cases (c == 13)) [
    | inl f ↦ rw (putchar, e, f) (show_cursor-IsValid _ (omega arith) v.y_in)
    | inr f ↦ elim (Bool-cases (c == 9)) [
      | inl g ↦ rw (putchar, e, f, g) (put_spaces-IsValid (4 - t.term_x % 4) v)
      | inr g ↦ elim (Bool-cases (c == 8)) [
        | inr h ↦ rw (putchar, e, f, g, h) (put_cell-IsValid c v)
        | inl h ↦ elim (Bool-cases (ltb 0 t.term_x)) [
          | inl k ↦
              rw (putchar, e, f, g, h, k) (show_cursor-IsValid _ (omega (arith, v.x_in)) v.y_in)
          | inr k ↦ rw (putchar, e, f, g, h, k) v
        ]
      ]
    ]
  ]
]

-- Whatever characters are printed, the position stays on the screen, and the cursor of the screen
-- stands there.
pub put_all-IsValid : (cs : List ℕ) {t : Terminal} → IsValid t → IsValid (put_all cs t)
unfolding put_all
put_all-IsValid [] v = v
put_all-IsValid (c ∷ cs) v = put_all-IsValid cs (putchar-IsValid c v)

-- What a cell shows after a character was written at the terminal's position.
abbrev pub written : ℕ → Terminal → (i j : ℕ) → ℕ
written c t i j =
    if t.term_x == i && t.term_y == j
    then vga_entry c t.vga.current_color
    else vga_read_cell i j t.vga

cells-show_cursor :
    (t : Terminal) (i j : ℕ)
    → t.term_x < vga_width
    → t.term_y < vga_height
    → vga_read_cell i j (show_cursor t).vga ≡ vga_read_cell i j t.vga
unfolding show_cursor
cells-show_cursor t i j hx hy = (vga_set_cursor_pos_lem t.term_x t.term_y i j t.vga hx hy).2

cells-term_newline :
    (t : Terminal) (i j : ℕ)
    → t.term_y < vga_height
    → i < vga_width
    → j < vga_height
    → vga_read_cell i j (term_newline t).vga ≡ (
        if t.term_y == 24
        then (if j == 24 then blank t.vga else vga_read_cell i (j + 1) t.vga)
        else vga_read_cell i j t.vga)
unfolding term_newline term_scroll
cells-term_newline t i j hy hi hj = elim (Bool-cases (t.term_y == 24)) [
  | inl e ↦
      let low : ltb (t.term_y + 1) vga_height ≡ false = ground arith in
      rw (term_newline, e, low)
        (cells-show_cursor _ i j (omega arith) (omega arith) ∙ vga_scroll_up_lem i j t.vga hi hj)
  | inr e ↦
      let high : ltb (t.term_y + 1) vga_height ≡ true = ground arith in
      rw (term_newline, e, high) (cells-show_cursor _ i j (omega arith) (ground arith))
]

-- With the position on the screen, `putchar` of a character that is no control code writes it there
-- in the current colour and no other cell changes; at the last cell of the screen every row then
-- moves up by one, and the last is blank.
pub putchar_lem :
    (c i j : ℕ) {t : Terminal}
    → IsValid t
    → c ≢ 8
    → c ≢ 9
    → c ≢ 10
    → c ≢ 13
    → i < vga_width
    → j < vga_height
    → vga_read_cell i j (putchar c t).vga ≡ (
        if t.term_x == 79 && t.term_y == 24
        then (if j == 24 then blank t.vga else written c t i (j + 1))
        else written c t i j)
unfolding putchar put_cell term_advance
putchar_lem c i j {t} v n8 n9 n10 n13 hi hj =
    let e8 : (c == 8) ≡ false = ground arith in
    let e9 : (c == 9) ≡ false = ground arith in
    let e10 : (c == 10) ≡ false = ground arith in
    let e13 : (c == 13) ≡ false = ground arith in
    let w = vga_write_cell c t.vga.current_color t.term_x t.term_y t.vga in
    let color = ap (vga_entry 32) (color-write c t.vga.current_color t.term_x t.term_y t.vga) in
    let cell = vga_read_cell-write c t.vga.current_color t.term_x t.term_y i j t.vga hi hj in
    let u = record t { vga = w; term_x = t.term_x + 1 } in
    rw (putchar, e8, e9, e10, e13)
      (elim (Bool-cases (ltb (t.term_x + 1) vga_width)) [
        | inl e ↦
            rw (put_cell, term_advance, e)
              (cells-show_cursor u i j (ground arith) v.y_in ∙ ground (arith, cell))
        | inr e ↦
            rw (put_cell, term_advance, e)
              (cells-term_newline u i j v.y_in hi hj ∙ elim (Bool-cases (j == 24)) [
                | inl last ↦ ground (arith, cell, color, v.x_in)
                | inr above ↦
                    let below =
                      vga_read_cell-write c t.vga.current_color t.term_x t.term_y i (j + 1) t.vga hi
                        (ground arith) in
                    ground (arith, cell, below, v.x_in)
              ])
      ])
