-- ===== src/Keyboard/Layout.antt =====
-- The keys of a US keyboard and what each types, described by rows of keys, against `translate` and
-- its two tables.
use thuban.Base.{
  ℕ, zero, suc, ◌+◌, ◌-◌, ◌≤◌, ◌<◌, ◌≡◌, refl, ap, ◌∙◌, Bool, true, false, ◌&&◌, ◌||◌, List, [],
  ◌∷◌, length, get_or, ltb, leb, ◌==◌, ==_iff, if◌then◌else◌, arith, Bool-cases, inl, inr,
}
use thuban.Keyboard.{translate}

-- A key that types a letter, given as the small one; a key with one character and another under
-- Shift; or none.
pub data Key : Type 0 where
  letter : ℕ → Key
  symbol : (plain shifted : ℕ) → Key
  no_char : Key

-- Caps Lock is for letters only, Shift wins over it, and Ctrl makes a control code of a letter that
-- neither of them makes a capital.
unfoldable pub char_of : (shift caps ctrl : Bool) → Key → ℕ
char_of shift caps ctrl (letter c) = if shift || caps then c - 32 else if ctrl then c - 96 else c
char_of shift caps ctrl (symbol plain shifted) = if shift then shifted else plain
char_of shift caps ctrl no_char = 0

-- Keys with scancodes that follow one another.
abbrev pub Row : Type 0
Row = ℕ × List Key

unfoldable nth : List Key → ℕ → Key
nth [] n = no_char
nth (k ∷ ks) zero = k
nth (k ∷ ks) (suc n) = nth ks n

unfoldable pub key_in : List Row → ℕ → Key
unfolding nth
key_in [] s = no_char
key_in ((first, keys) ∷ rows) s =
    let other = key_in rows s in
    if leb first s && ltb s (first + length keys) then nth keys (s - first) else other

-- The scancodes of the first key of each row, and the keys.
abbrev pub layout : List Row
layout =
    (
      0x02,
      symbol b'1' b'!'
          ∷ symbol b'2' b'@'
          ∷ symbol b'3' b'#'
          ∷ symbol b'4' b'$'
          ∷ symbol b'5' b'%'
          ∷ symbol b'6' b'^'
          ∷ symbol b'7' b'&'
          ∷ symbol b'8' b'*'
          ∷ symbol b'9' b'('
          ∷ symbol b'0' b')'
          ∷ symbol b'-' b'_'
          ∷ symbol b'=' b'+'
          ∷ symbol 8 8
          ∷ symbol 9 9
          ∷ [],
    )
    ∷ (
      0x10,
      letter b'q'
          ∷ letter b'w'
          ∷ letter b'e'
          ∷ letter b'r'
          ∷ letter b't'
          ∷ letter b'y'
          ∷ letter b'u'
          ∷ letter b'i'
          ∷ letter b'o'
          ∷ letter b'p'
          ∷ symbol b'[' b'{'
          ∷ symbol b']' b'}'
          ∷ symbol 10 10
          ∷ [],
    )
    ∷ (
      0x1E,
      letter b'a'
          ∷ letter b's'
          ∷ letter b'd'
          ∷ letter b'f'
          ∷ letter b'g'
          ∷ letter b'h'
          ∷ letter b'j'
          ∷ letter b'k'
          ∷ letter b'l'
          ∷ symbol b';' b':'
          ∷ symbol 39 b'"'
          ∷ symbol b'`' b'~'
          ∷ [],
    )
    ∷ (
      0x2B,
      symbol 92 b'|'
          ∷ letter b'z'
          ∷ letter b'x'
          ∷ letter b'c'
          ∷ letter b'v'
          ∷ letter b'b'
          ∷ letter b'n'
          ∷ letter b'm'
          ∷ symbol b',' b'<'
          ∷ symbol b'.' b'>'
          ∷ symbol b'/' b'?'
          ∷ [],
    )
    ∷ (0x37, symbol b'*' b'*' ∷ [])
    ∷ (0x39, symbol 32 32 ∷ [])
    ∷ []

-- Do the tables and the layout agree on a scancode, under all modifiers?
agree_at : (shift caps ctrl : Bool) → ℕ → Bool
agree_at shift caps ctrl s =
    translate shift caps ctrl s == char_of shift caps ctrl (key_in layout s)

all_below : (ℕ → Bool) → ℕ → Bool
all_below p zero = true
all_below p (suc n) = p n && all_below p n

all_below-at : (p : ℕ → Bool) (n s : ℕ) → all_below p n ≡ true → s < n → p s ≡ true
unfolding all_below
all_below-at p zero s h l = absurd (omega (arith, l))
all_below-at p (suc n) s h l = elim (Bool-cases (s == n)) [
  | inl e ↦ let same : s ≡ n = (==_iff s n).0 e in ap p same ∙ ground (arith, h)
  | inr e ↦ all_below-at p n s (ground (arith, h)) (ground (arith, e, l))
]

agree : (shift caps ctrl : Bool) → all_below (agree_at shift caps ctrl) 58 ≡ true
unfolding all_below agree_at translate char_of key_in nth get_or
agree true true true = refl
agree true true false = refl
agree true false true = refl
agree true false false = refl
agree false true true = refl
agree false true false = refl
agree false false true = refl
agree false false false = refl

-- `translate` is the layout, below the tables' length.
pub translate-layout :
    (shift caps ctrl : Bool) (s : ℕ)
    → s < 58
    → translate shift caps ctrl s ≡ char_of shift caps ctrl (key_in layout s)
unfolding agree_at
translate-layout shift caps ctrl s l =
    (==_iff (translate shift caps ctrl s) (char_of shift caps ctrl (key_in layout s))).0
      (all_below-at (agree_at shift caps ctrl) 58 s (agree shift caps ctrl) l)

-- No key of the layout has another scancode.
pub layout-beyond :
    (shift caps ctrl : Bool) (s : ℕ) → 58 ≤ s → char_of shift caps ctrl (key_in layout s) ≡ 0
unfolding key_in char_of
layout-beyond shift caps ctrl s h = ground (arith, h)
