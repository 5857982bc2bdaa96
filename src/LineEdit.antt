-- ===== src/LineEdit.antt =====
-- lib/stdio.c, `fgets` and `gets`: a line that is read from the keyboard and edited.
-- The characters that `getchar` returns are a list; `none` as a result means that more are waited
-- for. The characters that are sent to the screen for the user are a list too: `echo` is in the
-- order of the calls of `putchar`.
pub mod Edits
pub mod Refine
pub mod Keys
mod Tests
use thuban.Base.{
  false, ℕ, zero, suc, ◌+◌, ◌-◌, Bool, not, ◌&&◌, ◌||◌, List, [], ◌∷◌, ◌++◌, Option, none, some,
  ltb, leb, ◌==◌, if◌then◌else◌,
}
use mathlib.Core.Option
use thuban.Base.Store.{update}

-- Whether an escape sequence has begun: after ESC, and after ESC and `[`.
pub data Mode : Type 0 where
  normal : Mode
  escape : Mode
  bracket : Mode

-- The buffer and the two counters of `fgets`.
pub record Line : Type 0 where
  pub s : ℕ → ℕ
  pub len : ℕ
  pub cursor_pos : ℕ
  pub echo : List ℕ

pub put : ℕ → Line → Line
put c l = record l { echo = l.echo ++ (c ∷ []) }

-- `for (i = len; i > cursor_pos; i--) s[i] = s[i - 1];`, with the rounds left.
pub shift_up : ℕ → ℕ → (ℕ → ℕ) → ℕ → ℕ
shift_up zero i s = s
shift_up (suc n) i s = shift_up n (i - 1) (update s i (s (i - 1)))

-- `for (i = cursor_pos - 1; i < len - 1; i++) s[i] = s[i + 1];`
pub shift_down : ℕ → ℕ → (ℕ → ℕ) → ℕ → ℕ
shift_down zero i s = s
shift_down (suc n) i s = shift_down n (i + 1) (update s i (s (i + 1)))

-- `putchar(s[i])` for each `i` from the second argument on.
pub redraw : ℕ → ℕ → Line → Line
unfolding put
redraw zero i l = l
redraw (suc n) i l = redraw n (i + 1) (put (l.s i) l)

pub backspaces : ℕ → Line → Line
unfolding put
backspaces zero l = l
backspaces (suc n) l = backspaces n (put 8 l)

pub move_left : Line → Line
unfolding put
move_left l = if ltb 0 l.cursor_pos then put 8 (record l { cursor_pos = l.cursor_pos - 1 }) else l

pub move_right : Line → Line
unfolding put
move_right l =
    if ltb l.cursor_pos l.len
    then record (put (l.s l.cursor_pos) l) { cursor_pos = l.cursor_pos + 1 }
    else l

pub delete_char : Line → Line
unfolding shift_down redraw backspaces put
delete_char l =
    if not (ltb 0 l.cursor_pos)
    then l
    else (let m = record l {
      s = shift_down (l.len - l.cursor_pos) (l.cursor_pos - 1) l.s;
      len = l.len - 1;
      cursor_pos = l.cursor_pos - 1;
    } in
        let drawn = redraw (m.len - m.cursor_pos) m.cursor_pos (put 8 m) in
        backspaces (m.len - m.cursor_pos + 1) (put 32 drawn))

pub insert_char : ℕ → Line → Line
unfolding shift_up redraw backspaces
insert_char c l =
    let m = record l {
      s = update (shift_up (l.len - l.cursor_pos) l.len l.s) l.cursor_pos c;
      len = l.len + 1;
    } in
    let drawn = redraw (m.len - m.cursor_pos) m.cursor_pos m in
    let moved = record drawn { cursor_pos = m.cursor_pos + 1 } in
    backspaces (m.len - (m.cursor_pos + 1)) moved

pub is_newline : ℕ → Bool
is_newline c = c == 10 || c == 13

-- A character that is neither ESC nor the end of the line.
pub type_char : (size : ℕ) → ℕ → Line → Line
unfolding delete_char insert_char
type_char size c l =
    if c == 8
    then delete_char l
    else if leb 32 c && leb c 126 && ltb l.len (size - 1)
    then insert_char c l
    else l

-- The round for one character, but for the end of the line.
pub step : (size : ℕ) → Mode → ℕ → Line → Mode × Line
unfolding type_char move_left move_right
step size normal c l = if c == 0x1B then (escape, l) else (normal, type_char size c l)
step size escape c l = (if c == 91 then bracket else normal, l)
step size bracket c l =
    (normal, if c == 68 then move_left l else if c == 67 then move_right l else l)

abbrev pub ends_line : Mode → ℕ → Bool
ends_line normal c = is_newline c
ends_line escape c = false
ends_line bracket c = false

-- `s[len] = '\0'; putchar('\n');`
pub finish : Line → Line
unfolding put
finish l = put 10 (record l { s = update l.s l.len 0 })

pub fgets_loop : (size : ℕ) → Mode → List ℕ → Line → Option Line
unfolding step finish
fgets_loop size mode [] l = none
fgets_loop size mode (c ∷ cs) l =
    let (mode', l') = step size mode c l in
    let rest = fgets_loop size mode' cs l' in if ends_line mode c then some (finish l) else rest

-- For a buffer that is not NULL and a size above 0.
pub fgets : (ℕ → ℕ) → (size : ℕ) → List ℕ → Option Line
unfolding fgets_loop
fgets s size input =
    fgets_loop size normal input (record { s = s; len = 0; cursor_pos = 0; echo = [] })

-- `gets`, which knows no limit; `len` is its `i`.
pub gets_loop : List ℕ → Line → Option Line
unfolding put finish is_newline
gets_loop [] l = none
gets_loop (c ∷ cs) l =
    let rest = gets_loop cs (
      if c == 8
      then (if ltb 0 l.len then put 8 (record l { len = l.len - 1 }) else l)
      else if leb 32 c && leb c 126
      then put c (record l { s = update l.s l.len c; len = l.len + 1 })
      else l) in
    if is_newline c then some (finish l) else rest

pub gets : (ℕ → ℕ) → List ℕ → Option Line
unfolding gets_loop
gets s input = gets_loop input (record { s = s; len = 0; cursor_pos = 0; echo = [] })
