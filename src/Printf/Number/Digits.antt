-- ===== src/Printf/Number/Digits.antt =====
-- Reading a printed number back, and how long it is.
use thuban.Base.{
  ℕ, zero, suc, ◌+◌, ◌-◌, ◌*◌, ◌/◌, ◌%◌, ◌^◌, ◌<◌, ◌≤◌, ◌≡◌, refl, ap, ◌∙◌, Bool, true, false, not,
  ◌&&◌, List, [], ◌∷◌, ◌++◌, length, length-append, ltb, ◌==◌, if◌then◌else◌, arith, Bool-cases,
  inl, inr,
}
use Prim.Native.Nat.{max}
use mathlib.Core.List.{reverse, reverse-append, append-nil, append_assoc}
use native.Mathlib.Nat.{pow-suc, zero-mul, mul-le-mul_left, div-add-mod', mod-lt, div-lt_iff_lt-mul}
use thuban.Base.Int.{ℤ}
use thuban.Printf.Number.{rounds, repeat, digit_char, digits, digit_buffer, print_uint}

-- The value of a digit, in either case.
pub digit_value : ℕ → ℕ
digit_value c = if ltb c 58 then c - 48 else if ltb c 91 then c - 55 else c - 87

-- The number that a reader has after the characters, from the number before them.
pub read_back : (base : ℕ) → ℕ → List ℕ → ℕ
read_back base n [] = n
read_back base n (c ∷ cs) = read_back base (n * base + digit_value c) cs

read_back-append :
    (base n : ℕ) (xs ys : List ℕ)
    → read_back base n (xs ++ ys) ≡ read_back base (read_back base n xs) ys
unfolding read_back
read_back-append base n [] ys = refl
read_back-append base n (x ∷ xs) ys = read_back-append base (n * base + digit_value x) xs ys

digit_value-digit_char :
    (uppercase : Bool) (d : ℕ) → d < 16 → digit_value (digit_char uppercase d) ≡ d
unfolding digit_value digit_char
digit_value-digit_char true d h = ground arith
digit_value-digit_char false d h = ground arith

quotient_lt : (f base n : ℕ) → 2 ≤ base → n < 2 ^ suc f → n / base < 2 ^ f
quotient_lt f base n hb h =
    (div-lt_iff_lt-mul (omega arith)).1 (omega (arith, pow-suc 2 f, mul-le-mul_left (2 ^ f) hb))

read_back-snoc :
    (base : ℕ) (ds : List ℕ) (c : ℕ)
    → read_back base 0 (reverse (c ∷ ds)) ≡ read_back base 0 (reverse ds) * base + digit_value c
unfolding read_back
read_back-snoc base ds c =
    ap (read_back base 0) (reverse-append (c ∷ []) ds)
    ∙ read_back-append base 0 (reverse ds) (c ∷ [])

-- Enough rounds print every digit.
read_back-digits :
    (f base : ℕ) (uppercase : Bool) (n : ℕ)
    → 2 ≤ base
    → base ≤ 16
    → n < 2 ^ f
    → read_back base 0 (reverse (digits f base uppercase n)) ≡ n
unfolding digits read_back
read_back-digits zero base uppercase n h2 h16 h = omega arith
read_back-digits (suc f) base uppercase n h2 h16 h = elim (Bool-cases (n == 0)) [
  | inl e ↦ let z : 0 ≡ n = ground arith in rw (digits, e) z
  | inr e ↦
      let c = digit_char uppercase (n % base) in
      let ds = digits f base uppercase (n / base) in
      let ih = read_back-digits f base uppercase (n / base) h2 h16 (quotient_lt f base n h2 h) in
      let low =
        digit_value-digit_char uppercase (n % base)
          (omega (arith, mod-lt n (let p : 0 < base = omega arith in p))) in
      rw (digits, e) (read_back-snoc base ds c ∙ rw (ih, low) (div-add-mod' n base))
]

read_back-zeros :
    (base n : ℕ) (xs : List ℕ) → read_back base 0 (repeat n 48 ++ xs) ≡ read_back base 0 xs
unfolding repeat read_back digit_value
read_back-zeros base zero xs = refl
read_back-zeros base (suc n) xs =
    let z : 0 * base + 0 ≡ 0 = omega (arith, zero-mul base) in
    ap (λ k. read_back base k (repeat n 48 ++ xs)) z ∙ read_back-zeros base n xs

read_back-reverse_zeros :
    (base n : ℕ) (xs : List ℕ)
    → read_back base 0 (reverse (repeat n 48) ++ xs) ≡ read_back base 0 xs
unfolding repeat
read_back-reverse_zeros base zero xs = refl
read_back-reverse_zeros base (suc n) xs =
    ap (λ ys. read_back base 0 (ys ++ xs)) (reverse-append (48 ∷ []) (repeat n 48))
    ∙ ap (read_back base 0) (append_assoc (reverse (repeat n 48)) (48 ∷ []) xs)
    ∙ read_back-reverse_zeros base n (48 ∷ xs)
    ∙ read_back-zeros base 1 xs

read_back-digit_buffer :
    (base : ℕ) (uppercase : Bool) (precision : ℤ) (n : ℕ)
    → 2 ≤ base
    → base ≤ 16
    → n < 2 ^ 64
    → read_back base 0 (reverse (digit_buffer base uppercase precision n)) ≡ n
unfolding digit_buffer read_back digit_value
read_back-digit_buffer base uppercase precision n h2 h16 h =
    let ds = if n == 0 then 48 ∷ [] else digits 64 base uppercase n in
    let k = rounds precision - length ds in
    let plain : read_back base 0 (reverse ds) ≡ n = elim (Bool-cases (n == 0)) [
      | inl e ↦ rw e (ground arith)
      | inr e ↦ rw e (read_back-digits 64 base uppercase n h2 h16 h)
    ] in
    ap (read_back base 0) (reverse-append ds (repeat k 48))
    ∙ read_back-reverse_zeros base k (reverse ds)
    ∙ plain

length-repeat : (n c : ℕ) → length (repeat n c) ≡ n
unfolding repeat
length-repeat zero c = refl
length-repeat (suc n) c = omega (arith, length-repeat n c)

length-reverse : (xs : List ℕ) → length (reverse xs) ≡ length xs
length-reverse [] = refl
length-reverse (x ∷ xs) =
    ap length (reverse-append (x ∷ []) xs)
    ∙ length-append (reverse xs) (x ∷ [])
    ∙ omega (arith, length-reverse xs)

length_padded :
    (n : ℕ) (left_align zero_pad : Bool) (xs : List ℕ)
    → length (
        (if not left_align && not zero_pad then repeat n 32 else [])
        ++ ((if not left_align && zero_pad then repeat n 48 else [])
            ++ (xs ++ (if left_align then repeat n 32 else []))))
      ≡ length xs + n
length_padded n true zero_pad xs =
    length-append xs (repeat n 32) ∙ ap (λ k. length xs + k) (length-repeat n 32)
length_padded n false true xs =
    length-append (repeat n 48) (xs ++ []) ∙ omega (arith, length-repeat n 48, length-append xs [])
length_padded n false false xs =
    length-append (repeat n 32) (xs ++ []) ∙ omega (arith, length-repeat n 32, length-append xs [])

-- How much is printed: the width, or more if the digits need it.
pub length-print_uint :
    (num base : ℕ) (width precision : ℤ) (left_align zero_pad uppercase : Bool)
    → length (print_uint num base width precision left_align zero_pad uppercase)
      ≡ max (rounds width) (length (digit_buffer base uppercase precision num))
unfolding print_uint
length-print_uint num base width precision left_align zero_pad uppercase =
    let buffer = digit_buffer base uppercase precision num in
    length_padded (rounds width - length buffer) left_align zero_pad (reverse buffer)
    ∙ omega (arith, length-reverse buffer)

length-digits : (f base : ℕ) (uppercase : Bool) (n : ℕ) → length (digits f base uppercase n) ≤ f
unfolding digits
length-digits zero base uppercase n = omega arith
length-digits (suc f) base uppercase n = elim (Bool-cases (n == 0)) [
  | inl e ↦ rw (digits, e) (omega arith)
  | inr e ↦ rw (digits, e) (omega (arith, length-digits f base uppercase (n / base)))
]

-- The digits and zeros that `print_uint` puts into its buffer of 64 bytes are at least as many as
-- the precision, and at most that or 64, whichever is more.
pub length-digit_buffer :
    (base : ℕ) (uppercase : Bool) (precision : ℤ) (n : ℕ)
    → (rounds precision ≤ length (digit_buffer base uppercase precision n))
      × (length (digit_buffer base uppercase precision n) ≤ max 64 (rounds precision))
unfolding digit_buffer
length-digit_buffer base uppercase precision n =
    let ds = if n == 0 then 48 ∷ [] else digits 64 base uppercase n in
    let few : length ds ≤ 64 = elim (Bool-cases (n == 0)) [
      | inl e ↦ rw e (omega arith)
      | inr e ↦ rw e (length-digits 64 base uppercase n)
    ] in
    let whole = length-append ds (repeat (rounds precision - length ds) 48) in
    let zeros = length-repeat (rounds precision - length ds) 48 in
    (omega (arith, whole, zeros), omega (arith, few, whole, zeros))

-- For a base from 2 to 16, a number of 64 bits and a precision of at most 64: the digits and zeros
-- fit the buffer of 64 bytes, and what `print_uint` prints with zeros before it, of any width,
-- reads back as the number in that base.
pub read_back-print_uint :
    (num base : ℕ) (width precision : ℤ) (uppercase : Bool)
    → 2 ≤ base
    → base ≤ 16
    → num < 2 ^ 64
    → rounds precision ≤ 64
    → (length (digit_buffer base uppercase precision num) ≤ 64)
      × (read_back base 0 (print_uint num base width precision false true uppercase) ≡ num)
unfolding print_uint read_back
read_back-print_uint num base width precision uppercase h2 h16 h fits =
    let buffer = digit_buffer base uppercase precision num in
    (
      omega (arith, fits, (length-digit_buffer base uppercase precision num).1),
      read_back-zeros base (rounds width - length buffer) (reverse buffer ++ [])
          ∙ ap (read_back base 0) (append-nil (reverse buffer))
          ∙ read_back-digit_buffer base uppercase precision num h2 h16 h,
    )
