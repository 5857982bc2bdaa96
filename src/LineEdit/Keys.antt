-- ===== src/LineEdit/Keys.antt =====
-- `fgets` on what is typed with keys: the line that is read is the one that the keys make.
use thuban.Base.{
  ℕ, ◌+◌, ◌≡◌, Bool, true, not, ◌&&◌, List, [], ◌∷◌, ◌++◌, Option, ltb, leb, ◌==◌, if◌then◌else◌,
  length,
}
use thuban.LineEdit.{Line}
use thuban.LineEdit.Edits.{Edit, insert, delete, left, right, edit_of}
use thuban.LineEdit.Refine.{Good}

-- What is typed before the line ends. After ESC, one character is passed over, whatever it is, and
-- two if the first is `[`.
pub data Key : Type 0 where
  char : ℕ → Key
  backspace : Key
  arrow_left : Key
  arrow_right : Key
  control : ℕ → Key
  escaped : ℕ → Key
  sequence : ℕ → Key

-- The characters that a key sends.
unfoldable pub codes : Key → List ℕ
codes (char c) = c ∷ []
codes backspace = 8 ∷ []
codes arrow_left = 0x1B ∷ 91 ∷ 68 ∷ []
codes arrow_right = 0x1B ∷ 91 ∷ 67 ∷ []
codes (control c) = c ∷ []
codes (escaped c) = 0x1B ∷ c ∷ []
codes (sequence c) = 0x1B ∷ 91 ∷ c ∷ []

unfoldable pub all_codes : List Key → List ℕ
all_codes [] = []
all_codes (k ∷ ks) = codes k ++ all_codes ks

-- A character is printable; a control character is not, and none of those with a meaning; a
-- sequence is not that of an arrow.
unfoldable pub proper : Key → Bool
proper (char c) = leb 32 c && leb c 126
proper backspace = true
proper arrow_left = true
proper arrow_right = true
proper (control c) =
    not (leb 32 c && leb c 126) && not (c == 8) && not (c == 10) && not (c == 13) && not (c == 0x1B)
proper (escaped c) = not (c == 91)
proper (sequence c) = not (c == 68) && not (c == 67)

unfoldable pub all_proper : List Key → Bool
all_proper [] = true
all_proper (k ∷ ks) = proper k && all_proper ks

-- What a key does to the line: `capacity` characters fit.
unfoldable pub press : (capacity : ℕ) → Key → Edit → Edit
press capacity (char c) e =
    if ltb (length e.before + length e.after) capacity then insert c e else e
press capacity backspace e = delete e
press capacity arrow_left e = left e
press capacity arrow_right e = right e
press capacity (control c) e = e
press capacity (escaped c) e = e
press capacity (sequence c) e = e

unfoldable pub press_all : (capacity : ℕ) → List Key → Edit → Edit
press_all capacity [] e = e
press_all capacity (k ∷ ks) e = press_all capacity ks (press capacity k e)

abbrev empty : Edit
empty = record { before = []; after = [] }

-- The line that was read is the edited text, terminated and inside the buffer.
abbrev pub ReadLine : (size : ℕ) → (ℕ → ℕ) → Edit → Line → Type 0
ReadLine size s e l = (edit_of l ≡ e) × (l.s l.len ≡ 0) × Good size s l
