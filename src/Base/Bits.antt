-- ===== src/Base/Bits.antt =====
-- The bits of a machine word: what `|`, `&` and `&` with a complement do to each of them, for
-- every width.
use Prim.Native.Nat.{
  ℕ, zero, suc, ◌+◌, ◌-◌, ◌*◌, ◌/◌, ◌%◌, ◌^◌, ◌≤◌, ◌<◌, min, max, bit_and, bit_or, digits,
  bit_and-bitwise, bit_or-bitwise,
}
use mathlib.Core.Path.{◌≡◌, refl, sym, ap, ◌∙◌}
use mathlib.Core.Bool.{Bool, true, false, not, ◌&&◌, ◌||◌}
use native.Mathlib.Omega.{arith}
use native.Mathlib.Nat.{pow-suc}
use thuban.Base.Tests.{ltb, ◌==◌, if◌then◌else◌}

-- A native operation on the digits is given fuel; `low` is its result when the first number is 0.
module _ (low : ℕ → ℕ) (op : ℕ → ℕ → ℕ) where
  -- The fuel does not matter, if there is as much of it as the first number.
  enough_fuel : (x f g y : ℕ) → x ≤ f → x ≤ g → digits low op f x y ≡ digits low op g x y
  enough_fuel zero zero zero y hf hg = refl
  enough_fuel zero zero (suc g) y hf hg = refl
  enough_fuel zero (suc f) zero y hf hg = refl
  enough_fuel zero (suc f) (suc g) y hf hg = refl
  enough_fuel (suc x) zero g y hf hg = absurd (omega (arith, hf))
  enough_fuel (suc x) (suc f) zero y hf hg = absurd (omega (arith, hg))
  enough_fuel (suc x) (suc f) (suc g) y hf hg =
      let half = suc x / 2 in
      ap (λ d. d * 2 + op (suc x % 2) (y % 2))
        (enough_fuel half f g (y / 2) (omega arith) (omega arith))

  -- The lowest digit apart.
  digits-split :
      (x y : ℕ)
      → op 0 (y % 2) + low (y / 2) * 2 ≡ low y
      → digits low op x x y ≡ op (x % 2) (y % 2) + digits low op (x / 2) (x / 2) (y / 2) * 2
  digits-split zero y h = sym h
  digits-split (suc x) y h =
      omega (arith, enough_fuel (suc x / 2) x (suc x / 2) (y / 2) (omega arith) (omega arith))

-- The laws of `&` and `|` for the lowest digit.
pub bit_and_step : (a b : ℕ) → bit_and a b ≡ bit_and (a / 2) (b / 2) * 2 + min (a % 2) (b % 2)
bit_and_step a b =
    let split = digits-split (λ _. zero) min a b (omega arith) in
    omega (arith, split, bit_and-bitwise a b, bit_and-bitwise (a / 2) (b / 2))

pub bit_or_step : (a b : ℕ) → bit_or a b ≡ bit_or (a / 2) (b / 2) * 2 + max (a % 2) (b % 2)
bit_or_step a b =
    let split = digits-split (λ y. y) max a b (omega arith) in
    omega (arith, split, bit_or-bitwise a b, bit_or-bitwise (a / 2) (b / 2))

-- Bit `b` of the word `w`.
unfoldable pub bit : ℕ → ℕ → Bool
bit w zero = (w % 2) == 1
bit w (suc b) = bit (w / 2) b

pub bit-zero : (b : ℕ) → bit 0 b ≡ false
unfolding bit
bit-zero zero = refl
bit-zero (suc b) = bit-zero b

digits-right_zero : (f x : ℕ) → digits (λ _. zero) min f x 0 ≡ 0
digits-right_zero zero x = refl
digits-right_zero (suc f) zero = refl
digits-right_zero (suc f) (suc x) = omega (arith, digits-right_zero f (suc x / 2))

pub bit_and-zero : (a : ℕ) → bit_and a 0 ≡ 0
bit_and-zero a = omega (arith, bit_and-bitwise a 0, digits-right_zero a a)

half_pow : (b : ℕ) → 2 ^ suc b / 2 ≡ 2 ^ b
half_pow b = omega (arith, pow-suc 2 b)

pub pow_pos : (b : ℕ) → 0 < 2 ^ b
pow_pos zero = omega arith
pow_pos (suc b) = omega (arith, pow-suc 2 b, pow_pos b)

pub pow_lt : (b n : ℕ) → b < n → 2 ^ b < 2 ^ n
pow_lt b zero h = absurd (omega arith)
pow_lt zero (suc n) h = omega (arith, pow-suc 2 n, pow_pos n)
pow_lt (suc b) (suc n) h = omega (arith, pow-suc 2 n, pow-suc 2 b, pow_lt b n (omega arith))

-- Testing a mask of one bit reads that bit.
pub bit_and-mask : (w b : ℕ) → bit_and w (2 ^ b) ≡ (if bit w b then 2 ^ b else 0)
unfolding bit
bit_and-mask w zero = ground (arith, bit_and_step w 1, bit_and-zero (w / 2))
bit_and-mask w (suc b) =
    ground (arith, bit_and_step w (2 ^ suc b), pow-suc 2 b, half_pow b, bit_and-mask (w / 2) b)

pub bit-bit_or : (a b c : ℕ) → bit (bit_or a b) c ≡ (bit a c || bit b c)
unfolding bit
bit-bit_or a b zero = ground (arith, bit_or_step a b)
bit-bit_or a b (suc c) =
    let e : bit_or a b / 2 ≡ bit_or (a / 2) (b / 2) = omega (arith, bit_or_step a b) in
    rw e (bit-bit_or (a / 2) (b / 2) c)

pub bit-bit_and : (a b c : ℕ) → bit (bit_and a b) c ≡ (bit a c && bit b c)
unfolding bit
bit-bit_and a b zero = ground (arith, bit_and_step a b)
bit-bit_and a b (suc c) =
    let e : bit_and a b / 2 ≡ bit_and (a / 2) (b / 2) = omega (arith, bit_and_step a b) in
    rw e (bit-bit_and (a / 2) (b / 2) c)

pub bit-mask : (b c : ℕ) → bit (2 ^ b) c ≡ (b == c)
unfolding bit
bit-mask zero zero = refl
bit-mask zero (suc c) = bit-zero c ∙ ground arith
bit-mask (suc b) zero = ground (arith, pow-suc 2 b)
bit-mask (suc b) (suc c) = rw (half_pow b) (bit-mask b c ∙ ground arith)

-- The word of `n` ones.
pub bit-ones : (n c : ℕ) → bit (2 ^ n - 1) c ≡ ltb c n
unfolding bit
bit-ones zero zero = refl
bit-ones zero (suc c) = bit-zero c ∙ ground arith
bit-ones (suc n) zero = ground (arith, pow-suc 2 n, pow_pos n)
bit-ones (suc n) (suc c) =
    let e : (2 ^ suc n - 1) / 2 ≡ 2 ^ n - 1 = omega (arith, pow-suc 2 n, pow_pos n) in
    rw e (bit-ones n c ∙ ground arith)

-- `~(1 << b)` in a word of `n` bits.
pub complement_mask : ℕ → ℕ → ℕ
complement_mask n b = 2 ^ n - 1 - 2 ^ b

pub bit-complement_mask :
    (n b c : ℕ) → b < n → bit (complement_mask n b) c ≡ (ltb c n && not (b == c))
unfolding bit complement_mask
bit-complement_mask zero b c h = absurd (omega arith)
bit-complement_mask (suc n) zero zero h = ground (arith, pow-suc 2 n, pow_pos n)
bit-complement_mask (suc n) zero (suc c) h =
    let e : (2 ^ suc n - 1 - 2 ^ 0) / 2 ≡ 2 ^ n - 1 = omega (arith, pow-suc 2 n, pow_pos n) in
    rw e (bit-ones n c ∙ ground arith)
bit-complement_mask (suc n) (suc b) zero h =
    ground (arith, pow-suc 2 n, pow-suc 2 b, pow_lt b n (omega arith))
bit-complement_mask (suc n) (suc b) (suc c) h =
    let e : (2 ^ suc n - 1 - 2 ^ suc b) / 2 ≡ 2 ^ n - 1 - 2 ^ b =
      omega (arith, pow-suc 2 n, pow-suc 2 b, pow_lt b n (omega arith)) in
    rw e (bit-complement_mask n b c (omega arith) ∙ ground arith)

-- `w |= 1 << b` sets bit `b` and leaves the others.
pub bit-set_mask : (w b c : ℕ) → bit (bit_or w (2 ^ b)) c ≡ (if b == c then true else bit w c)
bit-set_mask w b c = rw (bit-bit_or, bit-mask) (ground arith)

-- `w &= ~(1 << b)` clears bit `b` and leaves the others below the width.
pub bit-clear_mask :
    (n w b c : ℕ)
    → b < n
    → c < n
    → bit (bit_and w (complement_mask n b)) c ≡ (if b == c then false else bit w c)
bit-clear_mask n w b c hb hc = rw (bit-bit_and, bit-complement_mask n b c hb) (ground arith)
