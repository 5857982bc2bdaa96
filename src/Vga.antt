-- ===== src/Vga.antt =====
-- drivers/video/vga.c and include/thuban/vga.h: the text screen as an array of 16-bit cells, the
-- cursor and the colour. A write to a port is a pair of port and byte in the list that a function
-- returns beside the state. `vga_get_cursor_pos` and `vga_get_color` return fields.
pub mod Screen
use thuban.Base.{
  ℕ, zero, suc, ◌+◌, ◌-◌, ◌*◌, ◌/◌, ◌%◌, ◌^◌, bit_or, Bool, not, ◌||◌, List, [], ◌∷◌, ◌++◌, ltb,
  if◌then◌else◌,
}
use thuban.Base.Store.{update}

abbrev pub vga_width : ℕ
vga_width = 80

abbrev pub vga_height : ℕ
vga_height = 25

-- The static variables of the file.
pub record Vga : Type 0 where
  pub buffer : ℕ → ℕ
  pub current_color : ℕ
  pub cursor_x : ℕ
  pub cursor_y : ℕ

-- `(uint16_t)c`: a `char` is signed, so a code from 128 on is a negative number and its high byte
-- is all ones.
pub uint16_of_char : ℕ → ℕ
uint16_of_char c = if ltb c 128 then c else c + 0xFF00

-- `(uint16_t)c | ((uint16_t)color << 8)`
pub vga_entry : ℕ → ℕ → ℕ
unfolding uint16_of_char
vga_entry c color = bit_or (uint16_of_char c) ((color * 2 ^ 8) % 2 ^ 16)

-- `fg | (bg << 4)` on 8 bits.
pub make_color : ℕ → ℕ → ℕ
make_color fg bg = (bit_or fg (bg * 2 ^ 4)) % 2 ^ 8

pub vga_set_color : ℕ → ℕ → Vga → Vga
unfolding make_color
vga_set_color fg bg v = record v { current_color = make_color fg bg }

abbrev pub Ports : Type 0
Ports = List (ℕ × ℕ)

-- `vga_set_cursor_pos`, with the four bytes that it sends to the controller.
pub vga_set_cursor_pos : ℕ → ℕ → Vga → Ports × Vga
vga_set_cursor_pos x y v =
    let x' = if not (ltb x vga_width) then vga_width - 1 else x in
    let y' = if not (ltb y vga_height) then vga_height - 1 else y in
    let pos = (y' * vga_width + x') % 2 ^ 16 in
    (
      (0x3D4, 0x0F) ∷ (0x3D5, pos % 2 ^ 8) ∷ (0x3D4, 0x0E) ∷ (0x3D5, pos / 2 ^ 8 % 2 ^ 8) ∷ [],
      record v { cursor_x = x'; cursor_y = y' },
    )

pub vga_enable_cursor : Ports
vga_enable_cursor = (0x3D4, 0x0A) ∷ (0x3D5, 0x00) ∷ (0x3D4, 0x0B) ∷ (0x3D5, 0x0F) ∷ []

pub vga_disable_cursor : Ports
vga_disable_cursor = (0x3D4, 0x0A) ∷ (0x3D5, 0x20) ∷ []

pub vga_write_cell : ℕ → ℕ → ℕ → ℕ → Vga → Vga
unfolding vga_entry
vga_write_cell c color x y v =
    if not (ltb x vga_width) || not (ltb y vga_height)
    then v
    else record v { buffer = update v.buffer (y * vga_width + x) (vga_entry c color) }

pub vga_read_cell : ℕ → ℕ → Vga → ℕ
vga_read_cell x y v =
    if not (ltb x vga_width) || not (ltb y vga_height) then 0 else v.buffer (y * vga_width + x)

-- The loop over `x` on one row, with the rounds left: blanks in the current colour.
pub blank_row : ℕ → ℕ → ℕ → Vga → Vga
blank_row zero x y v = v
blank_row (suc n) x y v = blank_row n (x + 1) y (vga_write_cell 32 v.current_color x y v)

-- The loop over `y`.
pub blank_rows : ℕ → ℕ → Vga → Vga
blank_rows zero y v = v
blank_rows (suc n) y v = blank_rows n (y + 1) (blank_row vga_width 0 y v)

pub vga_clear_screen : Vga → Ports × Vga
vga_clear_screen v =
    let w = blank_rows vga_height 0 v in
    vga_set_cursor_pos 0 0 (record w { cursor_x = 0; cursor_y = 0 })

pub vga_init : Vga → Ports × Vga
vga_init v =
    let (sent, w) =
      vga_clear_screen (record v { current_color = make_color 15 0; cursor_x = 0; cursor_y = 0 }) in
    (sent ++ vga_enable_cursor, w)

-- The two loops of `vga_scroll_up`: one row up, from the first row on.
pub copy_row : ℕ → ℕ → ℕ → (ℕ → ℕ) → ℕ → ℕ
copy_row zero x y b = b
copy_row (suc n) x y b =
    copy_row n (x + 1) y (update b (y * vga_width + x) (b ((y + 1) * vga_width + x)))

pub copy_rows : ℕ → ℕ → (ℕ → ℕ) → ℕ → ℕ
copy_rows zero y b = b
copy_rows (suc n) y b = copy_rows n (y + 1) (copy_row vga_width 0 y b)

pub vga_scroll_up : Vga → Vga
vga_scroll_up v =
    blank_row vga_width 0 (vga_height - 1)
      (record v { buffer = copy_rows (vga_height - 1) 0 v.buffer })
