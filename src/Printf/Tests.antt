-- ===== src/Printf/Tests.antt =====
-- A text printed into a short buffer, some numbers, and theorems applied to them.
use thuban.Base.{
  ℕ, length, ◌≤◌, ◌-◌, ◌^◌, ◌≡◌, arith, List, [], ◌∷◌, if◌then◌else◌, ◌==◌, true, false,
}
use thuban.Base.Int.{pos, negsuc}
use thuban.CString.{Mem}
use thuban.Printf.Number.{rounds, digit_buffer, print_uint}
use thuban.Printf.Number.Digits.{read_back, read_back-print_uint}
use thuban.Printf.Convert.Pieces.{Piece, literal, signed, text}

-- "hello" at 100.
abbrev texts : Mem
texts a =
    if a == 100
    then 104
    else if a == 101
    then 101
    else if a == 102
    then 108
    else if a == 103
    then 108
    else if a == 104
    then 111
    else 0

abbrev hello : List ℕ
hello = 104 ∷ 101 ∷ 108 ∷ 108 ∷ 111 ∷ []

-- "%s %d" at 200, for "hello" and -7.
abbrev memory : Mem
memory a =
    if a == 200
    then 37
    else if a == 201
    then b's'
    else if a == 202
    then 32
    else if a == 203
    then 37
    else if a == 204
    then b'd'
    else texts a

abbrev pieces : List Piece
pieces = text 100 hello ∷ literal 32 ∷ signed (2 ^ 32 - 7) ∷ []

short_precision : rounds (negsuc 0) ≤ 64
unfolding rounds
short_precision = omega arith

read_back-print_uint_example :
    (length (digit_buffer 16 true (negsuc 0) 0xBEEF) ≤ 64)
    × (read_back 16 0 (print_uint 0xBEEF 16 (pos 8) (negsuc 0) false true true) ≡ 0xBEEF)
read_back-print_uint_example =
    read_back-print_uint 0xBEEF 16 (pos 8) (negsuc 0) true (omega arith) (omega arith) (omega arith)
      short_precision
