-- ===== src/Vga/Screen.antt =====
-- What is on the screen after clearing, writing and scrolling.
use thuban.Base.{
  ℕ, zero, suc, ◌+◌, ◌-◌, ◌*◌, ◌/◌, ◌%◌, ◌<◌, ◌≤◌, ◌≡◌, refl, ap, ◌∙◌, ◌&&◌, arith, ltb, leb, ◌==◌,
  if◌then◌else◌, Bool-cases, ltb→lt, inl, inr, [], ◌∷◌,
}
use native.Mathlib.Decide.{ℕ_discrete}
use mathlib.Core.Path.{subst}
use thuban.Base.Store.{update, update_self, update_ne}
use thuban.Vga.{
  Vga, vga_width, vga_height, vga_entry, vga_write_cell, vga_read_cell, vga_set_cursor_pos,
  blank_row, blank_rows, vga_clear_screen, copy_row, copy_rows, vga_scroll_up,
}

-- A written cell reads back, and no other cell of the screen changes.
pub vga_read_cell-write :
    (c color x y i j : ℕ) (v : Vga)
    → i < vga_width
    → j < vga_height
    → vga_read_cell i j (vga_write_cell c color x y v)
      ≡ (if x == i && y == j then vga_entry c color else vga_read_cell i j v)
unfolding vga_read_cell vga_write_cell update
vga_read_cell-write c color x y i j v hi hj = ground arith

-- No cell is written outside the buffer of 2000 cells.
pub vga_write_cell_bounds :
    (c color x y a : ℕ) (v : Vga) → 2000 ≤ a → (vga_write_cell c color x y v).buffer a ≡ v.buffer a
unfolding vga_write_cell update
vga_write_cell_bounds c color x y a v h = ground arith

-- One row, copied from the row below: the cells from the round's `x` on.
copy_row_lem :
    (n x y : ℕ) (b : ℕ → ℕ) (a : ℕ)
    → x + n ≤ vga_width
    → copy_row n x y b a ≡ (
        if leb (y * vga_width + x) a && ltb a (y * vga_width + x + n)
        then b (a + vga_width)
        else b a)
unfolding copy_row
copy_row_lem zero x y b a h = ground arith
copy_row_lem (suc n) x y b a h =
    let here = y * vga_width + x in
    let v = b ((y + 1) * vga_width + x) in
    let from : v ≡ b (here + vga_width) = ap b (omega arith) in
    copy_row_lem n (x + 1) y (update b here v) a (omega arith) ∙ elim (ℕ_discrete here a) [
      | yes e ↦
          let at : update b here v a ≡ b (a + vga_width) =
            subst (λ i. update b here v i ≡ b (i + vga_width)) e (update_self b here v ∙ from) in
          ground (arith, at)
      | no ne ↦ elim (Bool-cases (ltb here a)) [
        | inl l ↦ ground (
          arith,
          update_ne b here a v ne,
          update_ne b here (a + vga_width) v (ground arith),
          ltb→lt here a l,
        )
        | inr g ↦ ground (arith, update_ne b here a v ne)
      ]
    ]

-- All rows from `y` on: what stands one row below moves up.
copy_rows_lem :
    (n y : ℕ) (b : ℕ → ℕ) (a : ℕ)
    → copy_rows n y b a
      ≡ (if leb (y * vga_width) a && ltb a ((y + n) * vga_width) then b (a + vga_width) else b a)
unfolding copy_rows
copy_rows_lem zero y b a = ground arith
copy_rows_lem (suc n) y b a =
    let b' = copy_row vga_width 0 y b in
    copy_rows_lem n (y + 1) b' a
    ∙ ground (arith, copy_row_lem vga_width 0 y b a, copy_row_lem vga_width 0 y b (a + vga_width))

pub color-write :
    (c color x y : ℕ) (v : Vga) → (vga_write_cell c color x y v).current_color ≡ v.current_color
unfolding vga_write_cell
color-write c color x y v = ground arith

color-blank_row : (n x y : ℕ) (v : Vga) → (blank_row n x y v).current_color ≡ v.current_color
unfolding blank_row
color-blank_row zero x y v = refl
color-blank_row (suc n) x y v =
    color-blank_row n (x + 1) y (vga_write_cell 32 v.current_color x y v)
    ∙ color-write 32 v.current_color x y v

abbrev pub blank : Vga → ℕ
blank v = vga_entry 32 v.current_color

blank_row_lem :
    (n x y i j : ℕ) (v : Vga)
    → i < vga_width
    → j < vga_height
    → x + n ≤ vga_width
    → vga_read_cell i j (blank_row n x y v)
      ≡ (if leb x i && ltb i (x + n) && y == j then blank v else vga_read_cell i j v)
unfolding blank_row
blank_row_lem zero x y i j v hi hj h = ground arith
blank_row_lem (suc n) x y i j v hi hj h =
    let w = vga_write_cell 32 v.current_color x y v in
    let same : blank w ≡ blank v = ap (vga_entry 32) (color-write 32 v.current_color x y v) in
    blank_row_lem n (x + 1) y i j w hi hj (omega arith)
    ∙ ground (arith, same, vga_read_cell-write 32 v.current_color x y i j v hi hj)

blank_rows_lem :
    (n y i j : ℕ) (v : Vga)
    → i < vga_width
    → j < vga_height
    → vga_read_cell i j (blank_rows n y v)
      ≡ (if leb y j && ltb j (y + n) then blank v else vga_read_cell i j v)
unfolding blank_rows
blank_rows_lem zero y i j v hi hj = ground arith
blank_rows_lem (suc n) y i j v hi hj =
    let w = blank_row vga_width 0 y v in
    let same : blank w ≡ blank v = ap (vga_entry 32) (color-blank_row vga_width 0 y v) in
    blank_rows_lem n (y + 1) i j w hi hj
    ∙ ground (arith, same, blank_row_lem vga_width 0 y i j v hi hj (omega arith))

read-same :
    (i j : ℕ) (v : Vga) (x y : ℕ)
    → vga_read_cell i j (record v { cursor_x = x; cursor_y = y }) ≡ vga_read_cell i j v
unfolding vga_read_cell
read-same i j v x y = refl

-- `vga_clear_screen` leaves every cell of the screen blank in the current colour, and the cursor in
-- the corner.
pub vga_clear_screen_lem :
    (i j : ℕ) (v : Vga)
    → i < vga_width
    → j < vga_height
    → let w = (vga_clear_screen v).1 in
      (vga_read_cell i j w ≡ blank v) × (w.cursor_x ≡ 0) × (w.cursor_y ≡ 0)
unfolding vga_clear_screen vga_set_cursor_pos
vga_clear_screen_lem i j v hi hj = (
  read-same i j (blank_rows vga_height 0 v) 0 0
      ∙ blank_rows_lem vga_height 0 i j v hi hj
      ∙ ground arith,
  refl,
  refl,
)

scrolled :
    (i j : ℕ) (v : Vga)
    → i < vga_width
    → j < vga_height
    → (if leb 0 i && ltb i 80 && 24 == j
        then blank v
        else vga_read_cell i j (record v { buffer = copy_rows 24 0 v.buffer }))
      ≡ (if j == 24 then blank v else vga_read_cell i (j + 1) v)
unfolding vga_read_cell
scrolled i j v hi hj =
    let moved : v.buffer (j * 80 + i + 80) ≡ v.buffer ((j + 1) * 80 + i) =
      ap v.buffer (omega arith) in
    ground (arith, copy_rows_lem 24 0 v.buffer (j * 80 + i), moved)

-- On the screen of 80 columns and 25 rows, `vga_scroll_up` moves every row up by one, drops the
-- first, and blanks the last in the current colour.
pub vga_scroll_up_lem :
    (i j : ℕ) (v : Vga)
    → i < vga_width
    → j < vga_height
    → vga_read_cell i j (vga_scroll_up v)
      ≡ (if j == (vga_height - 1) then blank v else vga_read_cell i (j + 1) v)
unfolding vga_scroll_up
vga_scroll_up_lem i j v hi hj =
    let w = record v { buffer = copy_rows (vga_height - 1) 0 v.buffer } in
    blank_row_lem vga_width 0 (vga_height - 1) i j w hi hj (omega arith) ∙ scrolled i j v hi hj

-- The cursor stays on the screen, wherever it is sent.
pub vga_set_cursor_pos_bounds :
    (x y : ℕ) (v : Vga)
    → let w = (vga_set_cursor_pos x y v).1 in
      (w.cursor_x < vga_width)
      × (w.cursor_y < vga_height)
      × ((vga_set_cursor_pos x y v).0
          ≡ (0x3D4, 0x0F)
            ∷ (0x3D5, (w.cursor_y * 80 + w.cursor_x) % 256)
            ∷ (0x3D4, 0x0E)
            ∷ (0x3D5, (w.cursor_y * 80 + w.cursor_x) / 256)
            ∷ [])
unfolding vga_set_cursor_pos
vga_set_cursor_pos_bounds x y v = ground arith

-- On the screen, moving the cursor does just that.
pub vga_set_cursor_pos_lem :
    (x y i j : ℕ) (v : Vga)
    → x < vga_width
    → y < vga_height
    → let w = (vga_set_cursor_pos x y v).1 in
      (w.cursor_x ≡ x) × (w.cursor_y ≡ y) × (vga_read_cell i j w ≡ vga_read_cell i j v)
unfolding vga_set_cursor_pos vga_read_cell
vga_set_cursor_pos_lem x y i j v hx hy = (ground arith, ground arith, refl)
