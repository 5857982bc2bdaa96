-- ===== src/Printf/Spec.antt =====
-- lib/stdio.c, the part of `vprintf` that reads a conversion from the format: flags, width,
-- precision and length.
use thuban.Base.{
  ℕ, zero, suc, ◌+◌, ◌-◌, ◌*◌, ◌%◌, ◌^◌, Bool, true, false, ◌&&◌, ◌||◌, List, [], ◌∷◌, Option, none,
  some, leb, ◌==◌, if◌then◌else◌,
}
use mathlib.Core.Option
use thuban.CString.{Mem}

-- The local variables, with the pointer `format` and the arguments left. `width` and `precision`
-- are words of 32 bits, and the precision -1 is 2^32 - 1.
pub record Spec : Type 0 where
  pub format : ℕ
  pub args : List ℕ
  pub left_align : Bool
  pub zero_pad : Bool
  pub width : ℕ
  pub precision : ℕ
  pub long_flag : Bool
  pub long_long_flag : Bool

unfoldable pub start : (format : ℕ) → List ℕ → Spec
start format args = record {
  format = format;
  args = args;
  left_align = false;
  zero_pad = false;
  width = 0;
  precision = 2 ^ 32 - 1;
  long_flag = false;
  long_long_flag = false;
}

unfoldable pub is_digit : ℕ → Bool
is_digit c = leb 48 c && leb c 57

unfoldable pub read_flags : (fuel : ℕ) → Mem → Spec → Option Spec
read_flags zero m s = none
read_flags (suc f) m s =
    let c = m s.format in
    let rest = read_flags f m (record s {
      format = s.format + 1;
      left_align = s.left_align || c == 45;
      zero_pad = s.zero_pad || c == 48;
    }) in
    if c == 45 || c == 48 then rest else some s

-- The loop over decimal digits: the number and the pointer behind it.
pub read_number : (fuel : ℕ) → Mem → (p n : ℕ) → Option (ℕ × ℕ)
unfolding is_digit
read_number zero m p n = none
read_number (suc f) m p n =
    let rest = read_number f m (p + 1) ((n * 10 + (m p - 48)) % 2 ^ 32) in
    if is_digit (m p) then rest else some (n, p)

-- A number, or `*` and the next argument, or neither: the number from before.
unfoldable pub number_or_star : (fuel : ℕ) → Mem → (p before : ℕ) → List ℕ → Option (ℕ × ℕ × List ℕ)
unfolding read_number is_digit
number_or_star fuel m p before args =
    if is_digit (m p)
    then Option.map (λ r. (r.0, r.1, args)) (read_number fuel m p before)
    else if m p == 42
    then elim args [ [] ↦ none | a ∷ rest ↦ some (a % 2 ^ 32, p + 1, rest) ]
    else some (before, p, args)

unfoldable pub read_width : (fuel : ℕ) → Mem → Spec → Option Spec
unfolding number_or_star
read_width fuel m s =
    Option.map (λ r. record s { width = r.0; format = r.1; args = r.2 })
      (number_or_star fuel m s.format s.width s.args)

unfoldable pub read_precision : (fuel : ℕ) → Mem → Spec → Option Spec
unfolding number_or_star
read_precision fuel m s =
    if m s.format == 46
    then Option.map (λ r. record s { precision = r.0; format = r.1; args = r.2 })
        (number_or_star fuel m (s.format + 1) 0 s.args)
    else some s

unfoldable pub read_length : Mem → Spec → Spec
read_length m s =
    let c = m s.format in
    let c' = m (s.format + 1) in
    if c == 108
    then (if c' == 108
        then record s { format = s.format + 2; long_flag = true; long_long_flag = true }
        else record s { format = s.format + 1; long_flag = true })
    else if c == 104
    then record s { format = if c' == 104 then s.format + 2 else s.format + 1 }
    else if c == 122 || c == 116
    then record s { format = s.format + 1; long_flag = true }
    else s

-- All of it, from behind the `%`.
unfoldable pub read_spec : (fuel : ℕ) → Mem → (format : ℕ) → List ℕ → Option Spec
unfolding start read_flags read_width read_precision read_length
read_spec fuel m format args = Option.bind (read_flags fuel m (start format args)) (λ s.
    Option.bind (read_width fuel m s) (λ s'. Option.map (read_length m) (read_precision fuel m s')))
