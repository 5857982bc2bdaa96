-- ===== src/Printf/Number.antt =====
-- lib/stdio.c, `print_string`, `print_int`, `print_uint` and `print_ptr`.
pub mod Digits
use thuban.Base.{
  ℕ, zero, suc, ◌+◌, ◌-◌, ◌*◌, ◌/◌, ◌%◌, ◌^◌, Bool, true, false, not, ◌&&◌, List, [], ◌∷◌, ◌++◌,
  length, take, Option, none, some, ltb, ◌==◌, if◌then◌else◌,
}
use mathlib.Core.List.{reverse}
use mathlib.Core.Option
use thuban.Base.Int.{ℤ, pos, negsuc}
use thuban.CString.{Mem}

-- A word of 32 bits as an `int`.
unfoldable pub int_of_word : ℕ → ℤ
int_of_word w = let n = w % 2 ^ 32 in if ltb n (2 ^ 31) then pos n else negsuc (2 ^ 32 - 1 - n)

-- How often a loop up to a signed bound runs.
unfoldable pub rounds : ℤ → ℕ
rounds (pos n) = n
rounds (negsuc n) = 0

pub repeat : ℕ → ℕ → List ℕ
repeat zero c = []
repeat (suc n) c = c ∷ repeat n c

pub digit_char : (uppercase : Bool) → ℕ → ℕ
digit_char uppercase d = if ltb d 10 then 48 + d else (if uppercase then 65 else 97) + (d - 10)

-- The loop `while (n > 0)`: the lowest digit first. A number of 64 bits takes at most 64 rounds.
pub digits : (fuel : ℕ) → (base : ℕ) → Bool → ℕ → List ℕ
digits zero base uppercase n = []
digits (suc f) base uppercase n =
    let rest = digits f base uppercase (n / base) in
    if n == 0 then [] else digit_char uppercase (n % base) ∷ rest

-- `buffer` before it is turned round, up to the zeros of the precision. It has 64 bytes in the
-- source, which writes past them for a precision above 64; the list is the buffer up to 64.
pub digit_buffer : (base : ℕ) → Bool → (precision : ℤ) → ℕ → List ℕ
digit_buffer base uppercase precision n =
    let ds = if n == 0 then 48 ∷ [] else digits 64 base uppercase n in
    ds ++ repeat (rounds precision - length ds) 48

pub print_uint :
    (num base : ℕ) → (width precision : ℤ) → (left_align zero_pad uppercase : Bool) → List ℕ
print_uint num base width precision left_align zero_pad uppercase =
    let buffer = digit_buffer base uppercase precision num in
    let padding = rounds width - length buffer in
    (if not left_align && not zero_pad then repeat padding 32 else [])
    ++ ((if not left_align && zero_pad then repeat padding 48 else [])
        ++ (reverse buffer ++ (if left_align then repeat padding 32 else [])))

-- `num` is a word of 64 bits in two's complement. The sign is the last byte of the buffer; with
-- `zero_pad` it is printed first, and taken off.
pub print_int :
    (num base : ℕ) → (width precision : ℤ) → (left_align zero_pad sign uppercase : Bool) → List ℕ
print_int num base width precision left_align zero_pad sign uppercase =
    let negative = sign && not (ltb num (2 ^ 63)) in
    let n = if negative then (2 ^ 64 - num) % 2 ^ 64 else num in
    let ds = digit_buffer base uppercase precision n in
    let len = length ds + (if negative then 1 else 0) in
    let padding = rounds width - len in
    (if not left_align && not zero_pad then repeat padding 32 else [])
    ++ ((if negative && zero_pad then 45 ∷ [] else [])
        ++ ((if not left_align && zero_pad then repeat padding 48 else [])
            ++ ((if negative && not zero_pad then 45 ∷ [] else [])
                ++ (reverse ds ++ (if left_align then repeat padding 32 else [])))))

pub print_ptr : ℕ → List ℕ
print_ptr ptr = 48 ∷ 120 ∷ print_uint ptr 16 (pos 16) (negsuc 0) false true false

-- `while (*p && (precision < 0 || len < precision))`: the bytes that are counted.
unfoldable pub text_upto : (fuel : ℕ) → (precision : ℤ) → Mem → ℕ → Option (List ℕ)
text_upto zero precision m s = none
text_upto (suc f) (pos zero) m s = some []
text_upto (suc f) (pos (suc n)) m s =
    let rest = text_upto f (pos n) m (s + 1) in
    if m s == 0 then some [] else Option.map (λ cs. m s ∷ cs) rest
text_upto (suc f) (negsuc n) m s =
    let rest = text_upto f (negsuc n) m (s + 1) in
    if m s == 0 then some [] else Option.map (λ cs. m s ∷ cs) rest

-- `print_string`, of the bytes that were counted.
pub print_string : List ℕ → (width : ℤ) → (left_align : Bool) → List ℕ
print_string s width left_align =
    let padding = rounds width - length s in
    (if not left_align then repeat padding 32 else [])
    ++ (s ++ (if left_align then repeat padding 32 else []))
