-- ===== src/Pmm/Bitmap.antt =====
-- The three bit operations of mm/pmm.c, and the count of the bits that are set.
use thuban.Base.{
  ℕ, zero, suc, ◌+◌, ◌/◌, ◌%◌, ◌<◌, ◌≤◌, ◌≡◌, ◌≢◌, refl, sym, ◌∙◌, true, false, arith, ◌==◌,
  if◌then◌else◌,
}
use native.Mathlib.Decide.{ℕ_discrete}
use mathlib.Core.Path.{subst}
use thuban.Base.Bits.{bit, bit_and-mask, bit-set_mask, bit-clear_mask, pow_pos}
use thuban.Base.Store.{update}
use thuban.Pmm.{bitmap_set, bitmap_clear, bitmap_test}

-- `bitmap_test` reads bit `i % 32` of word `i / 32`.
pub bitmap_test-bit : (m : ℕ → ℕ) (i : ℕ) → bitmap_test m i ≡ bit (m (i / 32)) (i % 32)
unfolding bitmap_test
bitmap_test-bit m i = ground (arith, bit_and-mask (m (i / 32)) (i % 32), pow_pos (i % 32))

-- After `bitmap_set` the page is in use, and the others are what they were.
pub bitmap_test-set :
    (m : ℕ → ℕ) (i j : ℕ)
    → bitmap_test (bitmap_set m i) j ≡ (if i == j then true else bitmap_test m j)
unfolding bitmap_set update
bitmap_test-set m i j =
    rw (bitmap_test-bit, bitmap_test-bit)
      (ground (arith, bit-set_mask (m (i / 32)) (i % 32) (j % 32)))

-- After `bitmap_clear` the page is free, and the others are what they were.
pub bitmap_test-clear :
    (m : ℕ → ℕ) (i j : ℕ)
    → bitmap_test (bitmap_clear m i) j ≡ (if i == j then false else bitmap_test m j)
unfolding bitmap_clear update
bitmap_test-clear m i j =
    rw (bitmap_test-bit, bitmap_test-bit)
      (ground (arith, bit-clear_mask 32 (m (i / 32)) (i % 32) (j % 32)))

-- How many of the pages below `n` are in use.
unfoldable pub used_below : (ℕ → ℕ) → ℕ → ℕ
used_below m zero = 0
used_below m (suc n) = (if bitmap_test m n then 1 else 0) + used_below m n

pub used_below-le : (m : ℕ → ℕ) (n : ℕ) → used_below m n ≤ n
unfolding used_below
used_below-le m zero = omega arith
used_below-le m (suc n) = ground (arith, used_below-le m n)

pub used_below-congr :
    (m m' : ℕ → ℕ) (n : ℕ)
    → ((j : ℕ) → j < n → bitmap_test m' j ≡ bitmap_test m j)
    → used_below m' n ≡ used_below m n
unfolding used_below
used_below-congr m m' zero h = refl
used_below-congr m m' (suc n) h =
    ground (arith, h n, used_below-congr m m' n (λ j l. h j (omega arith)))

-- Two bitmaps that differ in one page below `n` differ by one in the count.
used_below-flip :
    (m m' : ℕ → ℕ) (i n : ℕ)
    → i < n
    → bitmap_test m i ≡ false
    → bitmap_test m' i ≡ true
    → ((j : ℕ) → i ≢ j → bitmap_test m' j ≡ bitmap_test m j)
    → used_below m' n ≡ used_below m n + 1
unfolding used_below
used_below-flip m m' i zero h e e' same = absurd (omega arith)
used_below-flip m m' i (suc n) h e e' same = elim (ℕ_discrete i n) [
  | yes at ↦
      let new : bitmap_test m' n ≡ true = subst (λ k. bitmap_test m' k ≡ true) at e' in
      let old : bitmap_test m n ≡ false = subst (λ k. bitmap_test m k ≡ false) at e in
      rw (new, old) (omega (arith, used_below-congr m m' n (λ j l. same j (omega arith))))
  | no ne ↦ ground (arith, same n, used_below-flip m m' i n (omega arith) e e' same)
]

pub used_below-set :
    (m : ℕ → ℕ) (i n : ℕ)
    → i < n
    → bitmap_test m i ≡ false
    → used_below (bitmap_set m i) n ≡ used_below m n + 1
used_below-set m i n h e =
    used_below-flip m (bitmap_set m i) i n h e (bitmap_test-set m i i ∙ ground arith)
      (λ j ne. bitmap_test-set m i j ∙ ground arith)

pub used_below-clear :
    (m : ℕ → ℕ) (i n : ℕ)
    → i < n
    → bitmap_test m i ≡ true
    → used_below (bitmap_clear m i) n + 1 ≡ used_below m n
used_below-clear m i n h e = sym (
    used_below-flip (bitmap_clear m i) m i n h (bitmap_test-clear m i i ∙ ground arith) e
      (λ j ne. sym (bitmap_test-clear m i j ∙ ground arith)))

pub used_below-pos : (m : ℕ → ℕ) (i n : ℕ) → i < n → bitmap_test m i ≡ true → 0 < used_below m n
used_below-pos m i n h e = omega (arith, used_below-clear m i n h e)

pub used_below-lt : (m : ℕ → ℕ) (i n : ℕ) → i < n → bitmap_test m i ≡ false → used_below m n < n
used_below-lt m i n h e = omega (arith, used_below-set m i n h e, used_below-le (bitmap_set m i) n)
