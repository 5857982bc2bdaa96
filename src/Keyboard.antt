-- ===== src/Keyboard.antt =====
-- drivers/input/keyboard/ps2.c and include/thuban/keyboard.h: the keyboard's modifiers, its ring of
-- characters, and the interrupt handler that turns scancodes into characters.
-- The byte that `inb` reads is an argument of the handler. The `uint8_t` flags hold 0 or 1 and are
-- truth values here. A character is its code. Not modelled: `keyboard_wait_for_keypress`, which
-- polls the ports, and the unmasking of IRQ 1 in `keyboard_init`.
pub mod Queue
pub mod Ring
pub mod Layout
pub mod Handler
pub mod Modifiers
mod Tests
use thuban.Base.{
  ℕ, ◌+◌, ◌-◌, ◌%◌, ◌∷◌, [], List, get_or, Bool, true, false, not, ◌&&◌, ◌||◌, ltb, leb, ◌==◌,
  if◌then◌else◌,
}
use thuban.Base.Store.{update}
use thuban.Base.Int.{ℤ, pos, negsuc}
use thuban.Lock.{Guard, spin_lock, spin_unlock, spin_lock_init}

abbrev pub kb_buffer_size : ℕ
kb_buffer_size = 256

-- The static variables of the file.
pub record Keyboard : Type 0 where
  pub shift_pressed : Bool
  pub ctrl_pressed : Bool
  pub alt_pressed : Bool
  pub capslock_active : Bool
  pub extended_key : Bool
  pub kb_buffer : ℕ → ℕ
  pub kb_buffer_start : ℕ
  pub kb_buffer_end : ℕ
  pub kb_lock : Guard

-- Key codes.
abbrev pub key_lctrl : ℕ
key_lctrl = 0x1D

abbrev pub key_lshift : ℕ
key_lshift = 0x2A

abbrev pub key_rshift : ℕ
key_rshift = 0x36

abbrev pub key_lalt : ℕ
key_lalt = 0x38

abbrev pub key_capslock : ℕ
key_capslock = 0x3A

abbrev pub key_left : ℕ
key_left = 0x4B

abbrev pub key_right : ℕ
key_right = 0x4D

abbrev pub scancode_to_ascii : List ℕ
scancode_to_ascii =
    0 ∷ 0 ∷ b'1' ∷ b'2' ∷ b'3' ∷ b'4' ∷ b'5' ∷ b'6' ∷ b'7' ∷ b'8' ∷ b'9' ∷ b'0' ∷ b'-' ∷ b'=' ∷ 8
    ∷ 9 ∷ b'q' ∷ b'w' ∷ b'e' ∷ b'r' ∷ b't' ∷ b'y' ∷ b'u' ∷ b'i' ∷ b'o' ∷ b'p' ∷ b'[' ∷ b']' ∷ 10 ∷ 0
    ∷ b'a' ∷ b's' ∷ b'd' ∷ b'f' ∷ b'g' ∷ b'h' ∷ b'j' ∷ b'k' ∷ b'l' ∷ b';' ∷ 39 ∷ b'`' ∷ 0 ∷ 92
    ∷ b'z' ∷ b'x' ∷ b'c' ∷ b'v' ∷ b'b' ∷ b'n' ∷ b'm' ∷ b',' ∷ b'.' ∷ b'/' ∷ 0 ∷ b'*' ∷ 0 ∷ 32 ∷ []

abbrev pub scancode_to_ascii_shift : List ℕ
scancode_to_ascii_shift =
    0 ∷ 0 ∷ b'!' ∷ b'@' ∷ b'#' ∷ b'$' ∷ b'%' ∷ b'^' ∷ b'&' ∷ b'*' ∷ b'(' ∷ b')' ∷ b'_' ∷ b'+' ∷ 8
    ∷ 9 ∷ b'Q' ∷ b'W' ∷ b'E' ∷ b'R' ∷ b'T' ∷ b'Y' ∷ b'U' ∷ b'I' ∷ b'O' ∷ b'P' ∷ b'{' ∷ b'}' ∷ 10 ∷ 0
    ∷ b'A' ∷ b'S' ∷ b'D' ∷ b'F' ∷ b'G' ∷ b'H' ∷ b'J' ∷ b'K' ∷ b'L' ∷ b':' ∷ b'"' ∷ b'~' ∷ 0 ∷ b'|'
    ∷ b'Z' ∷ b'X' ∷ b'C' ∷ b'V' ∷ b'B' ∷ b'N' ∷ b'M' ∷ b'<' ∷ b'>' ∷ b'?' ∷ 0 ∷ b'*' ∷ 0 ∷ 32 ∷ []

pub kb_buffer_add : ℕ → Keyboard → Keyboard
kb_buffer_add c k =
    let next = (k.kb_buffer_end + 1) % kb_buffer_size in
    if not (next == k.kb_buffer_start)
    then record k { kb_buffer = update k.kb_buffer k.kb_buffer_end c; kb_buffer_end = next }
    else k

-- The other extended keys are ignored, by name or by default.
pub handle_extended_key : ℕ → Keyboard → Keyboard
handle_extended_key scancode k =
    if scancode == key_left
    then kb_buffer_add b'D' (kb_buffer_add b'[' (kb_buffer_add 0x1B k))
    else if scancode == key_right
    then kb_buffer_add b'C' (kb_buffer_add b'[' (kb_buffer_add 0x1B k))
    else k

-- The keys that never print: ESC, F1 to F10 with NUMLOCK and SCROLLLOCK behind them, F11, F12.
pub is_special : ℕ → Bool
is_special s =
    s == 0x01
    || s == 0x3B
    || s == 0x3C
    || s == 0x3D
    || s == 0x3E
    || s == 0x3F
    || s == 0x40
    || s == 0x41
    || s == 0x42
    || s == 0x43
    || s == 0x44
    || s == 0x57
    || s == 0x58
    || s == 0x45
    || s == 0x46

abbrev pub is_lower : ℕ → Bool
is_lower c = leb b'a' c && leb c b'z'

-- The character of a key under the modifiers; 0 for a key that has none. The caller looks up only
-- scancodes below 58, the tables' length.
unfoldable pub translate : (shift caps ctrl : Bool) → ℕ → ℕ
translate shift caps ctrl scancode =
    let plain = get_or scancode_to_ascii scancode 0 in
    let cased = if caps && is_lower plain then plain - b'a' + b'A' else plain in
    let c = if shift then get_or scancode_to_ascii_shift scancode 0 else cased in
    if ctrl && is_lower c then c - b'a' + 1 else c

-- `convert scancode to ASCII` to the end of the handler.
pub type_key : ℕ → Keyboard → Keyboard
type_key scancode k =
    if ltb scancode 58
    then (let c = translate k.shift_pressed k.capslock_active k.ctrl_pressed scancode in
        if not (c == 0) then kb_buffer_add c k else k)
    else k

-- A key is released: `scancode` has lost its bit 7.
pub release_key : ℕ → Keyboard → Keyboard
release_key scancode k =
    let k' =
      if scancode == key_lshift || scancode == key_rshift
      then record k { shift_pressed = false }
      else if scancode == key_lctrl
      then record k { ctrl_pressed = false }
      else if scancode == key_lalt
      then record k { alt_pressed = false }
      else k in
    record k' { extended_key = false }

-- A key with no prefix is pressed.
pub press_key : ℕ → Keyboard → Keyboard
press_key scancode k =
    if scancode == key_lshift || scancode == key_rshift
    then record k { shift_pressed = true }
    else if scancode == key_lctrl
    then record k { ctrl_pressed = true }
    else if scancode == key_lalt
    then record k { alt_pressed = true }
    else if scancode == key_capslock
    then record k { capslock_active = not k.capslock_active }
    else if is_special scancode
    then k
    else type_key scancode k

-- The handler between `spin_lock` and `spin_unlock`; a byte below 256 has bit 7 set from 128 on.
pub handle : ℕ → Keyboard → Keyboard
handle scancode k =
    if scancode == 0xE0
    then record k { extended_key = true }
    else if leb 0x80 scancode
    then release_key (scancode % 0x80) k
    else if k.extended_key
    then record (handle_extended_key scancode k) { extended_key = false }
    else press_key scancode k

pub acquire : Keyboard → Keyboard
acquire k = record k { kb_lock = spin_lock k.kb_lock }

pub release : Keyboard → Keyboard
release k = record k { kb_lock = spin_unlock k.kb_lock }

pub keyboard_irq_handler : ℕ → Keyboard → Keyboard
unfolding acquire release
keyboard_irq_handler scancode k = release (handle scancode (acquire k))

-- `keyboard_init`, less the interrupt controller: the modifiers stay as they are.
pub keyboard_init : ℕ → Keyboard → Keyboard
keyboard_init name k = record k {
  kb_lock = spin_lock_init name k.kb_lock;
  kb_buffer_start = 0;
  kb_buffer_end = 0;
}

-- A `char` as an `int`.
pub int_of_char : ℕ → ℤ
int_of_char c = if ltb c 128 then pos c else negsuc (255 - c)

pub keyboard_getchar : Keyboard → ℤ × Keyboard
unfolding acquire release
keyboard_getchar k =
    let h = acquire k in
    if h.kb_buffer_start == h.kb_buffer_end
    then (negsuc 0, release h)
    else (let c = h.kb_buffer h.kb_buffer_start in
        (
          int_of_char c,
          release (record h { kb_buffer_start = (h.kb_buffer_start + 1) % kb_buffer_size }),
        ))

pub keyboard_available : Keyboard → Bool × Keyboard
unfolding acquire release
keyboard_available k = let h = acquire k in (not (h.kb_buffer_start == h.kb_buffer_end), release h)

pub keyboard_flush : Keyboard → Keyboard
unfolding acquire release
keyboard_flush k = release (record (acquire k) { kb_buffer_start = 0; kb_buffer_end = 0 })
