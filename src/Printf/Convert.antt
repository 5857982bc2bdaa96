-- ===== src/Printf/Convert.antt =====
-- lib/stdio.c, the loop of `vprintf` and of `vprintf_internal` over the format, and the conversions
-- of the two.
pub mod Literal
pub mod Pieces
use thuban.Base.{
  ℕ, zero, suc, ◌+◌, ◌-◌, ◌*◌, ◌/◌, ◌%◌, ◌^◌, Bool, true, false, not, ◌&&◌, ◌||◌, List, [], ◌∷◌,
  ◌++◌, length, take, Option, none, some, ltb, ◌==◌, if◌then◌else◌,
}
use mathlib.Core.Option
use mathlib.Core.List.{reverse}
use thuban.Base.Int.{ℤ, pos, negsuc}
use thuban.CString.{Mem, strlen}
use thuban.Printf.Number.{
  int_of_word, digit_char, digits, print_uint, print_int, print_ptr, text_upto, print_string,
}
use thuban.Printf.Spec.{Spec, read_spec}

-- What a conversion prints, what it adds to the count, and the arguments that it leaves.
abbrev pub Converted : Type 0
Converted = List ℕ × ℕ × List ℕ

-- `va_arg` for an `int`, or a `long`.
pub signed_arg : Spec → ℕ → ℕ
signed_arg s a =
    let w = a % 2 ^ 32 in
    if s.long_flag then a else if ltb w (2 ^ 31) then w else w + (2 ^ 64 - 2 ^ 32)

pub unsigned_arg : Spec → ℕ → ℕ
unsigned_arg s a = if s.long_flag then a else a % 2 ^ 32

-- "(null)"
abbrev pub null_text : List ℕ
null_text = 40 ∷ 110 ∷ 117 ∷ 108 ∷ 108 ∷ 41 ∷ []

-- The bytes of a literal that a precision leaves.
pub cut : ℤ → List ℕ → List ℕ
cut (pos n) xs = take n xs
cut (negsuc n) xs = xs

abbrev pub with_arg : List ℕ → (ℕ → List ℕ → Option Converted) → Option Converted
with_arg [] k = none
with_arg (a ∷ args) k = k a args

-- The case `'s'` of `vprintf`; the count grows by the whole length.
pub convert_string : (fuel : ℕ) → Mem → Spec → ℕ → List ℕ → Option Converted
unfolding cut
convert_string fuel m s a args =
    let width = int_of_word s.width in
    let precision = int_of_word s.precision in
    if a == 0
    then some (print_string (cut precision null_text) width s.left_align, length null_text, args)
    else Option.bind (text_upto fuel precision m a) (λ text.
      Option.map (λ len. (print_string text width s.left_align, len, args)) (strlen fuel m a))

pub convert_unsigned : (base : ℕ) → Bool → Spec → ℕ → List ℕ → Option Converted
unfolding unsigned_arg
convert_unsigned base uppercase s a args = some (
  print_uint (unsigned_arg s a) base (int_of_word s.width) (int_of_word s.precision) s.left_align
      s.zero_pad uppercase,
  1,
  args,
)

-- The `switch` of `vprintf`, on the character behind the length.
pub convert : (fuel : ℕ) → Mem → Spec → ℕ → Option Converted
unfolding convert_string convert_unsigned signed_arg
convert fuel m s c =
    if c == 99
    then with_arg s.args (λ a args. some (a % 256 ∷ [], 1, args))
    else if c == 115
    then with_arg s.args (convert_string fuel m s)
    else if c == 100 || c == 105
    then with_arg s.args (λ a args. some (
      print_int (signed_arg s a) 10 (int_of_word s.width) (int_of_word s.precision) s.left_align
          s.zero_pad true false,
      1,
      args,
    ))
    else if c == 117
    then with_arg s.args (convert_unsigned 10 false s)
    else if c == 120
    then with_arg s.args (convert_unsigned 16 false s)
    else if c == 88
    then with_arg s.args (convert_unsigned 16 true s)
    else if c == 111
    then with_arg s.args (convert_unsigned 8 false s)
    else if c == 112
    then with_arg s.args (λ a args. some (print_ptr a, 1, args))
    else some (c ∷ [], 1, s.args)

-- The `case 's'` of `vprintf_internal`: no width, and the count grows by what is printed.
pub convert_string_internal : (fuel : ℕ) → Mem → Spec → ℕ → List ℕ → Option Converted
unfolding cut
convert_string_internal fuel m s a args =
    let precision = int_of_word s.precision in
    let printed : List ℕ → Converted = λ text. (text, length text, args) in
    if a == 0
    then some (printed (cut precision null_text))
    else Option.map printed (text_upto fuel precision m a)

-- The digits of a number without width and precision, the highest first.
pub plain_digits : (base : ℕ) → Bool → ℕ → List ℕ
plain_digits base uppercase n = reverse (if n == 0 then 48 ∷ [] else digits 64 base uppercase n)

pub convert_unsigned_internal : (base : ℕ) → Bool → Spec → ℕ → List ℕ → Option Converted
unfolding unsigned_arg plain_digits
convert_unsigned_internal base uppercase s a args =
    let out = plain_digits base uppercase (unsigned_arg s a) in some (out, length out, args)

pub convert_signed_internal : Spec → ℕ → List ℕ → Option Converted
unfolding signed_arg plain_digits
convert_signed_internal s a args =
    let num = signed_arg s a in
    let negative = not (ltb num (2 ^ 63)) in
    let ds = plain_digits 10 false (if negative then (2 ^ 64 - num) % 2 ^ 64 else num) in
    let out = (if negative then 45 ∷ [] else []) ++ ds in some (out, length out, args)

-- `(num >> (60 - j * 4)) & 0xF` for `j` below 16, with the rounds left.
pub hex_digits : ℕ → ℕ → List ℕ
hex_digits zero num = []
hex_digits (suc k) num = digit_char false (num / 2 ^ (k * 4) % 16) ∷ hex_digits k num

pub convert_internal : (fuel : ℕ) → Mem → Spec → ℕ → Option Converted
unfolding convert_string_internal convert_unsigned_internal convert_signed_internal hex_digits
convert_internal fuel m s c =
    if c == 99
    then with_arg s.args (λ a args. some (a % 256 ∷ [], 1, args))
    else if c == 115
    then with_arg s.args (convert_string_internal fuel m s)
    else if c == 100 || c == 105
    then with_arg s.args (convert_signed_internal s)
    else if c == 117
    then with_arg s.args (convert_unsigned_internal 10 false s)
    else if c == 120
    then with_arg s.args (convert_unsigned_internal 16 false s)
    else if c == 88
    then with_arg s.args (convert_unsigned_internal 16 true s)
    else if c == 111
    then with_arg s.args (convert_unsigned_internal 8 false s)
    else if c == 112
    then with_arg s.args (λ a args. some (48 ∷ 120 ∷ hex_digits 16 a, 18, args))
    else some (c ∷ [], 1, s.args)

-- The loop over the format, for one `switch` or the other.
module _ (switch : ℕ → Mem → Spec → ℕ → Option Converted) where
  pub format_loop : (fuel : ℕ) → Mem → (format : ℕ) → List ℕ → Option (List ℕ × ℕ)
  format_loop zero m format args = none
  format_loop (suc f) m format args =
      let c = m format in
      let literal = Option.map (λ r. (c ∷ r.0, r.1 + 1)) (format_loop f m (format + 1) args) in
      let conversion = Option.bind (read_spec f m (format + 1) args) (λ s.
        Option.bind (switch f m s (m s.format)) (λ (out, n, args').
          Option.map (λ r. (out ++ r.0, n + r.1)) (format_loop f m (s.format + 1) args'))) in
      if c == 0 then some ([], 0) else if not (c == 37) then literal else conversion

-- The characters that are sent to the screen, and the `int` that is returned.
pub vprintf : (fuel : ℕ) → Mem → (format : ℕ) → List ℕ → Option (List ℕ × ℕ)
unfolding format_loop convert
vprintf fuel m format args =
    Option.map (λ r. (r.0, r.1 % 2 ^ 32)) (format_loop convert fuel m format args)

pub vprintf_internal : (fuel : ℕ) → Mem → (format : ℕ) → List ℕ → Option (List ℕ × ℕ)
unfolding format_loop convert_internal
vprintf_internal fuel m format args =
    Option.map (λ r. (r.0, r.1 % 2 ^ 32)) (format_loop convert_internal fuel m format args)
