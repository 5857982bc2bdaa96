-- ===== src/CString/Compare.antt =====
-- `strcmp` and `strncmp` against a comparison of byte lists.
use thuban.Base.{
  ℕ, zero, suc, ◌+◌, ◌<◌, ◌≡◌, ◌≢◌, ◌↔◌, refl, ap, ◌∙◌, Bool, true, false, not, ◌&&◌, arith, ◌==◌,
  if◌then◌else◌, Bool-cases, inl, inr, List, [], ◌∷◌, some, length,
}
use mathlib.Core.Path.{ap₂}
use thuban.Base.Int.{ℤ, pos, negsuc, sub_ℕ, sub_ℕ-zero_iff}
use thuban.CString.{Mem, strcmp, strncmp}
use thuban.CString.Text.{IsText}

-- The order of two byte strings: the difference of the first bytes that differ, where the end
-- counts as 0.
pub compare_text : List ℕ → List ℕ → ℤ
compare_text [] [] = pos 0
compare_text [] (y ∷ ys) = sub_ℕ 0 y
compare_text (x ∷ xs) [] = sub_ℕ x 0
compare_text (x ∷ xs) (y ∷ ys) = if x == y then compare_text xs ys else sub_ℕ x y

-- No byte is 0.
abbrev pub NonZero : List ℕ → Type 0
NonZero [] = Unit
NonZero (x ∷ xs) = (x ≢ 0) × NonZero xs

pub IsText-NonZero : (m : Mem) (s : ℕ) (xs : List ℕ) → IsText m s xs → NonZero xs
IsText-NonZero m s [] h = tt
IsText-NonZero m s (x ∷ xs) h = (h.1, IsText-NonZero m (s + 1) xs h.2)

-- With more fuel than the first string has bytes, `strcmp` returns the order of the two.
pub strcmp-compare_text :
    (f : ℕ) (m : Mem) (s t : ℕ) (xs ys : List ℕ)
    → length xs < f
    → IsText m s xs
    → IsText m t ys
    → strcmp f m s t ≡ some (compare_text xs ys)
unfolding strcmp compare_text
strcmp-compare_text zero m s t xs ys l h k = absurd (omega arith)
strcmp-compare_text (suc f) m s t [] [] l h k = rw (h, k)
strcmp-compare_text (suc f) m s t [] (y ∷ ys) l h k = rw (h, k.0)
strcmp-compare_text (suc f) m s t (x ∷ xs) [] l h k =
    let e : (not (x == 0) && x == 0) ≡ false = ground arith in rw (h.0, k, e)
strcmp-compare_text (suc f) m s t (x ∷ xs) (y ∷ ys) l h k =
    ground
      (arith, h.0, h.1, k.0, strcmp-compare_text f m (s + 1) (t + 1) xs ys (omega arith) h.2 k.2)

-- The order is 0 for equal strings only.
pub compare_text-zero :
    (xs ys : List ℕ) → NonZero xs → NonZero ys → compare_text xs ys ≡ pos 0 → xs ≡ ys
unfolding compare_text
compare_text-zero [] [] h k e = refl
compare_text-zero [] (y ∷ ys) h k e = absurd (k.0 (ground (arith, sub_ℕ-zero_iff 0 y e)))
compare_text-zero (x ∷ xs) [] h k e = absurd (h.0 (ground (arith, sub_ℕ-zero_iff x 0 e)))
compare_text-zero (x ∷ xs) (y ∷ ys) h k e = elim (Bool-cases (x == y)) [
  | inl same ↦ ap₂ ◌∷◌ (ground arith) (compare_text-zero xs ys h.1 k.1 (rw same at e))
  | inr differ ↦ absurd (ground (arith, sub_ℕ-zero_iff x y (rw differ at e)))
]

pub compare_text_self : (xs : List ℕ) → compare_text xs xs ≡ pos 0
unfolding compare_text
compare_text_self [] = refl
compare_text_self (x ∷ xs) = ground (arith, compare_text_self xs)

-- With more fuel than the first string has bytes, `strcmp` returns 0 exactly for equal strings.
pub strcmp-zero_iff :
    (f : ℕ) (m : Mem) (s t : ℕ) (xs ys : List ℕ)
    → length xs < f
    → IsText m s xs
    → IsText m t ys
    → (strcmp f m s t ≡ some (pos 0)) ↔ (xs ≡ ys)
strcmp-zero_iff f m s t xs ys l h k =
    let e = strcmp-compare_text f m s t xs ys l h k in
    (
      (λ z. compare_text-zero xs ys (IsText-NonZero m s xs h) (IsText-NonZero m t ys k) (cc)),
      λ same. e ∙ ap some (rw (← same) (compare_text_self xs)),
    )

is_zero : ℤ → Bool
is_zero (pos n) = n == 0
is_zero (negsuc n) = false

-- `strcmp(a, b) == 0`, for two strings that the memory holds.
unfoldable pub same_text : List ℕ → List ℕ → Bool
unfolding is_zero compare_text
same_text xs ys = is_zero (compare_text xs ys)

pub same_text_self : (xs : List ℕ) → same_text xs xs ≡ true
unfolding is_zero same_text
same_text_self xs = rw (compare_text_self xs) refl

same_byte : (x y : ℕ) → is_zero (sub_ℕ x y) ≡ (x == y)
unfolding is_zero
same_byte x y = ground arith

pub same_text_comm : (xs ys : List ℕ) → same_text xs ys ≡ same_text ys xs
unfolding same_text
same_text_comm [] [] = refl
same_text_comm [] (y ∷ ys) = same_byte 0 y ∙ ground (arith, same_byte y 0)
same_text_comm (x ∷ xs) [] = same_byte x 0 ∙ ground (arith, same_byte 0 x)
same_text_comm (x ∷ xs) (y ∷ ys) = elim (Bool-cases (x == y)) [
  | inl e ↦ let e' : (y == x) ≡ true = ground arith in rw (e, e') (same_text_comm xs ys)
  | inr ne ↦
      let ne' : (y == x) ≡ false = ground arith in
      rw (ne, ne') (same_byte x y ∙ ground (arith, same_byte y x))
]

-- `strncmp` with the length of the second string tests for a prefix.
unfoldable pub is_prefix : List ℕ → List ℕ → Bool
is_prefix [] ys = true
is_prefix (x ∷ xs) [] = false
is_prefix (x ∷ xs) (y ∷ ys) = x == y && is_prefix xs ys

pub strncmp-is_prefix :
    (m : Mem) (s t : ℕ) (xs ys : List ℕ)
    → IsText m s xs
    → IsText m t ys
    → (strncmp m s t (length ys) ≡ pos 0) ↔ (is_prefix ys xs ≡ true)
unfolding strncmp is_prefix
strncmp-is_prefix m s t xs [] h k = (λ e. refl, λ e. refl)
strncmp-is_prefix m s t [] (y ∷ ys) h k = ground (arith, h, k.0, k.1)
strncmp-is_prefix m s t (x ∷ xs) (y ∷ ys) h k =
    ground (arith, h.0, h.1, k.0, k.1, strncmp-is_prefix m (s + 1) (t + 1) xs ys h.2 k.2)
