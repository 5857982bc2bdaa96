-- ===== src/Printf/Convert/Pieces.antt =====
-- Formats of characters and conversions without flags, width and precision: what is printed for
-- them, with enough fuel.
use thuban.Base.{
  ℕ, zero, suc, ◌+◌, ◌-◌, ◌%◌, ◌^◌, ◌<◌, ◌≡◌, ◌≢◌, refl, sym, ap, ◌∙◌, Bool, true, false, ◌&&◌,
  ◌||◌, List, [], ◌∷◌, ◌++◌, length, length-append, some, ltb, leb, ◌==◌, if◌then◌else◌, arith,
  Bool-cases, inl, inr,
}
use Prim.{Unit}
use mathlib.Core.Option
use thuban.Base.Int.{negsuc}
use thuban.CString.{Mem}
use thuban.CString.Text.{IsText}
use thuban.Printf.Number.{int_of_word, text_upto}
use thuban.Printf.Spec.{
  Spec, start, is_digit, read_flags, number_or_star, read_width, read_precision, read_length,
  read_spec,
}
use thuban.Printf.Convert.{
  signed_arg, unsigned_arg, plain_digits, convert_string_internal, convert_unsigned_internal,
  convert_signed_internal, convert_internal, format_loop, vprintf_internal,
}

-- A part of a format, with its argument: a character, `%d`, `%u`, `%x`, `%c`, or `%s` with the
-- address of a string and its characters.
pub data Piece : Type 0 where
  literal : ℕ → Piece
  signed : ℕ → Piece
  unsigned : ℕ → Piece
  hex : ℕ → Piece
  character : ℕ → Piece
  text : ℕ → List ℕ → Piece

unfoldable pub codes : Piece → List ℕ
codes (literal c) = c ∷ []
codes (signed a) = 37 ∷ b'd' ∷ []
codes (unsigned a) = 37 ∷ b'u' ∷ []
codes (hex a) = 37 ∷ b'x' ∷ []
codes (character a) = 37 ∷ b'c' ∷ []
codes (text s cs) = 37 ∷ b's' ∷ []

unfoldable pub all_codes : List Piece → List ℕ
all_codes [] = []
all_codes (p ∷ ps) = codes p ++ all_codes ps

unfoldable pub all_args : List Piece → List ℕ
all_args [] = []
all_args (literal c ∷ ps) = all_args ps
all_args (signed a ∷ ps) = a ∷ all_args ps
all_args (unsigned a ∷ ps) = a ∷ all_args ps
all_args (hex a ∷ ps) = a ∷ all_args ps
all_args (character a ∷ ps) = a ∷ all_args ps
all_args (text s cs ∷ ps) = s ∷ all_args ps

-- An `int` in decimal, from its 32 bits.
unfoldable pub int_text : ℕ → List ℕ
int_text w =
    if ltb w (2 ^ 31) then plain_digits 10 false w else 45 ∷ plain_digits 10 false (2 ^ 32 - w)

unfoldable pub shown : Piece → List ℕ
shown (literal c) = c ∷ []
shown (signed a) = int_text (a % 2 ^ 32)
shown (unsigned a) = plain_digits 10 false (a % 2 ^ 32)
shown (hex a) = plain_digits 16 false (a % 2 ^ 32)
shown (character a) = a % 256 ∷ []
shown (text s cs) = cs

unfoldable pub all_shown : List Piece → List ℕ
all_shown [] = []
all_shown (p ∷ ps) = shown p ++ all_shown ps

-- A character is not `%` and not the terminator; a string stands at its address, which is not NULL,
-- and is shorter than `bound`.
unfoldable pub Proper : (bound : ℕ) → Mem → Piece → Type 0
Proper bound m (literal c) = (c ≢ 37) × (c ≢ 0)
Proper bound m (signed a) = Unit
Proper bound m (unsigned a) = Unit
Proper bound m (hex a) = Unit
Proper bound m (character a) = Unit
Proper bound m (text s cs) = (s ≢ 0) × IsText m s cs × (length cs < bound)

unfoldable pub AllProper : (bound : ℕ) → Mem → List Piece → Type 0
AllProper bound m [] = Unit
AllProper bound m (p ∷ ps) = Proper bound m p × AllProper bound m ps

-- The letter of a conversion is no flag, no digit, and nothing else that is read before it.
letter_only : ℕ → Bool
letter_only c = c == b'd' || c == b'u' || c == b'x' || c == b'c' || c == b's'

read_spec-letter :
    (f : ℕ) (m : Mem) (p : ℕ) (args : List ℕ)
    → letter_only (m p) ≡ true
    → read_spec (suc f) m p args ≡ some (start p args)
unfolding letter_only read_spec read_flags read_width read_precision number_or_star is_digit
    read_length start Option.bind Option.map
read_spec-letter f m p args h =
    let flag : (m p == 45 || m p == 48) ≡ false = ground (arith, h) in
    let digit : (leb 48 (m p) && leb (m p) 57) ≡ false = ground (arith, h) in
    let star : (m p == 42) ≡ false = ground (arith, h) in
    let dot : (m p == 46) ≡ false = ground (arith, h) in
    let l : (m p == 108) ≡ false = ground (arith, h) in
    let hh : (m p == 104) ≡ false = ground (arith, h) in
    let z : (m p == 122 || m p == 116) ≡ false = ground (arith, h) in
    rw (flag, digit, star, dot, l, hh, z) refl

-- The whole string is counted.
text_upto-IsText :
    (f : ℕ) (m : Mem) (s : ℕ) (cs : List ℕ)
    → length cs < f
    → IsText m s cs
    → text_upto f (negsuc 0) m s ≡ some cs
unfolding text_upto
text_upto-IsText zero m s cs l h = absurd (omega (arith, l))
text_upto-IsText (suc f) m s [] l h =
    let stop : (m s == 0) ≡ true = ground (arith, h) in rw stop refl
text_upto-IsText (suc f) m s (c ∷ cs) l h =
    let go : (m s == 0) ≡ false = ground (arith, h.0, h.1) in
    rw (go, text_upto-IsText f m (s + 1) cs (omega (arith, l)) h.2, h.0) refl

-- One conversion, and then the rest of the format.
loop-conversion :
    (f letter : ℕ) (m : Mem) (format : ℕ) (args args' out rest : List ℕ)
    → letter_only letter ≡ true
    → m format ≡ 37
    → m (format + 1) ≡ letter
    → convert_internal (suc f) m (start (format + 1) args) letter ≡ some (out, length out, args')
    → format_loop convert_internal (suc f) m (format + 1 + 1) args' ≡ some (rest, length rest)
    → format_loop convert_internal (suc (suc f)) m format args
      ≡ some (out ++ rest, length (out ++ rest))
unfolding format_loop start Option.bind Option.map
loop-conversion f letter m format args args' out rest only sign at made later =
    let go : (m format == 0) ≡ false = ground (arith, sign) in
    let percent : (m format == 37) ≡ true = ground (arith, sign) in
    rw (go, percent, read_spec-letter f m (format + 1) args (ap letter_only at ∙ only))
      (rw (at, made, later) (ap (λ n. some (out ++ rest, n)) (sym (length-append out rest))))

signed-int_text :
    (s : Spec) (a : ℕ) (args : List ℕ)
    → s.long_flag ≡ false
    → convert_signed_internal s a args
      ≡ some (int_text (a % 2 ^ 32), length (int_text (a % 2 ^ 32)), args)
unfolding convert_signed_internal signed_arg int_text
signed-int_text s a args short =
    let w = a % 2 ^ 32 in
    elim (Bool-cases (ltb w (2 ^ 31))) [
      | inl e ↦
          let small : ltb w (2 ^ 63) ≡ true = ground (arith, e) in rw (short, e) (rw small refl)
      | inr e ↦
          let big : ltb (w + (2 ^ 64 - 2 ^ 32)) (2 ^ 63) ≡ false = ground (arith, e) in
          let size : (2 ^ 64 - (w + (2 ^ 64 - 2 ^ 32))) % 2 ^ 64 ≡ 2 ^ 32 - w = ground (arith, e) in
          rw (short, e) (rw (big, size) refl)
    ]

text-convert :
    (f : ℕ) (m : Mem) (s : Spec) (a : ℕ) (args cs : List ℕ)
    → s.precision ≡ 2 ^ 32 - 1
    → a ≢ 0
    → length cs < f
    → IsText m a cs
    → convert_string_internal f m s a args ≡ some (cs, length cs, args)
unfolding convert_string_internal int_of_word Option.map
text-convert f m s a args cs whole ne l h =
    let given : (a == 0) ≡ false = ground (arith, ne) in
    rw (given, whole) (rw (text_upto-IsText f m a cs l h) refl)

format_loop-pieces :
    (ps : List Piece) (bound f : ℕ) (m : Mem) (format : ℕ)
    → length ps + bound + 1 < f
    → IsText m format (all_codes ps)
    → AllProper bound m ps
    → format_loop convert_internal f m format (all_args ps)
      ≡ some (all_shown ps, length (all_shown ps))
unfolding all_codes codes all_args all_shown shown AllProper Proper format_loop letter_only
    convert_internal convert_unsigned_internal unsigned_arg start
format_loop-pieces ps bound zero m format l h p = absurd (omega (arith, l))
format_loop-pieces ps bound (suc zero) m format l h p = absurd (omega (arith, l))
format_loop-pieces [] bound (suc (suc f)) m format l h p =
    let stop : (m format == 0) ≡ true = ground (arith, h) in rw stop refl
format_loop-pieces (literal c ∷ ps) bound (suc (suc f)) m format l h p =
    let go : (m format == 0) ≡ false = ground (arith, h.0, h.1) in
    let plain : (m format == 37) ≡ false = ground (arith, h.0, p.0.0) in
    let later = format_loop-pieces ps bound (suc f) m (format + 1) (omega (arith, l)) h.2 p.1 in
    rw (go, plain, later, h.0) (ap (λ n. some (c ∷ all_shown ps, n)) (omega arith))
format_loop-pieces (signed a ∷ ps) bound (suc (suc f)) m format l h p =
    loop-conversion f b'd' m format (a ∷ all_args ps) (all_args ps) (int_text (a % 2 ^ 32))
      (all_shown ps) refl h.0 h.2.0
      (signed-int_text (start (format + 1) (a ∷ all_args ps)) a (all_args ps) refl)
      (format_loop-pieces ps bound (suc f) m (format + 1 + 1) (omega (arith, l)) h.2.2 p.1)
format_loop-pieces (unsigned a ∷ ps) bound (suc (suc f)) m format l h p =
    loop-conversion f b'u' m format (a ∷ all_args ps) (all_args ps)
      (plain_digits 10 false (a % 2 ^ 32)) (all_shown ps) refl h.0 h.2.0 refl
      (format_loop-pieces ps bound (suc f) m (format + 1 + 1) (omega (arith, l)) h.2.2 p.1)
format_loop-pieces (hex a ∷ ps) bound (suc (suc f)) m format l h p =
    loop-conversion f b'x' m format (a ∷ all_args ps) (all_args ps)
      (plain_digits 16 false (a % 2 ^ 32)) (all_shown ps) refl h.0 h.2.0 refl
      (format_loop-pieces ps bound (suc f) m (format + 1 + 1) (omega (arith, l)) h.2.2 p.1)
format_loop-pieces (character a ∷ ps) bound (suc (suc f)) m format l h p =
    loop-conversion f b'c' m format (a ∷ all_args ps) (all_args ps) (a % 256 ∷ []) (all_shown ps)
      refl h.0 h.2.0 refl
      (format_loop-pieces ps bound (suc f) m (format + 1 + 1) (omega (arith, l)) h.2.2 p.1)
format_loop-pieces (text s cs ∷ ps) bound (suc (suc f)) m format l h p =
    loop-conversion f b's' m format (s ∷ all_args ps) (all_args ps) (cs) (all_shown ps) refl h.0
      h.2.0
      (text-convert (suc f) m (start (format + 1) (s ∷ all_args ps)) s (all_args ps) cs refl p.0.0
        (omega (arith, l, p.0.2)) p.0.1)
      (format_loop-pieces ps bound (suc f) m (format + 1 + 1) (omega (arith, l)) h.2.2 p.1)

-- A format of such pieces, with fuel for them and for the longest string, is printed as its pieces
-- are shown, and the result is the number of the characters.
pub vprintf_internal-pieces :
    (ps : List Piece) (bound fuel : ℕ) (m : Mem) (format : ℕ)
    → length ps + bound + 1 < fuel
    → IsText m format (all_codes ps)
    → AllProper bound m ps
    → vprintf_internal fuel m format (all_args ps)
      ≡ some (all_shown ps, length (all_shown ps) % 2 ^ 32)
unfolding vprintf_internal Option.map
vprintf_internal-pieces ps bound fuel m format l h p =
    rw (format_loop-pieces ps bound fuel m format l h p) refl
