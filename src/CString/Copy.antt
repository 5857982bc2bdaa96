-- ===== src/CString/Copy.antt =====
-- `strcpy`, `strncpy`, `strcat` and `strncat`: the string that they leave, and what they spare.
use thuban.Base.{
  ℕ, zero, suc, ◌+◌, ◌-◌, ◌<◌, ◌≤◌, ◌≡◌, ◌⊎◌, refl, ap, ◌∙◌, false, ◌&&◌, arith, ltb, leb, ◌==◌,
  if◌then◌else◌, Bool-cases, inl, inr, List, [], ◌∷◌, ◌++◌, some, length, length-append, get_or,
  take,
}
use mathlib.Core.Path.{subst}
use mathlib.Core.Option
use native.Mathlib.Decide.{ℕ_discrete}
use thuban.Base.Store.{update, update_self, update_ne}
use thuban.CString.{
  Mem, copy_text, strcpy, fill_zeros, strncpy, to_end, strcat, copy_at_most, strncat,
}
use thuban.CString.Text.{IsText, IsText-congr}

-- The two blocks of a copy of `n` bytes do not overlap.
abbrev pub Apart : ℕ → ℕ → ℕ → Type 0
Apart d s n = (s + n ≤ d) ⊎ (d + n ≤ s)

-- The string at `s`, its terminator included, stands at `d`, and the rest of the memory is as before.
pub record Copied (m : Mem) (d : ℕ) (xs : List ℕ) (m' : Mem) : Type 0 where
  pub text : IsText m' d xs
  pub spared : (a : ℕ) → (a < d) ⊎ (d + length xs < a) → m' a ≡ m a

pub copy_text-Copied :
    (f : ℕ) (m : Mem) (d s : ℕ) (xs : List ℕ)
    → length xs < f
    → IsText m s xs
    → Apart d s (suc (length xs))
    → (m' : Mem) × (copy_text f m d s ≡ some m') × Copied m d xs m'
unfolding copy_text
copy_text-Copied zero m d s xs l h apart = absurd (omega arith)
copy_text-Copied (suc f) m d s [] l h apart = (
  update m d 0,
  rw h refl,
  record { text = update_self m d 0; spared = λ a o. update_ne m d a 0 (omega arith) },
)
copy_text-Copied (suc f) m d s (x ∷ xs) l h apart =
    let m₁ = update m d (m s) in
    let kept : IsText m₁ (s + 1) xs =
      IsText-congr m m₁ (s + 1) xs (λ a lo hi. update_ne m d a (m s) (omega arith)) h.2 in
    let (m', e, c) = copy_text-Copied f m₁ (d + 1) (s + 1) xs (omega arith) kept (omega arith) in
    let ne : (m s == 0) ≡ false = ground (arith, h.0, h.1) in
    (
      m',
      rw ne e,
      record {
        text = (c.spared d (omega arith) ∙ update_self m d (m s) ∙ h.0, h.1, c.text);
        spared = λ a o. c.spared a (omega arith) ∙ update_ne m d a (m s) (omega arith);
      },
    )

-- With more fuel than the string has bytes, and blocks that do not overlap, `strcpy` returns,
-- leaves the string with its terminator at the destination, and writes nowhere else.
pub strcpy-Copied :
    (f : ℕ) (m : Mem) (d s : ℕ) (xs : List ℕ)
    → length xs < f
    → IsText m s xs
    → Apart d s (suc (length xs))
    → (m' : Mem) × (strcpy f m d s ≡ some m') × Copied m d xs m'
unfolding strcpy
strcpy-Copied f m d s xs l h apart = copy_text-Copied f m d s xs l h apart

to_end-IsText :
    (f : ℕ) (m : Mem) (d : ℕ) (ys : List ℕ)
    → length ys < f
    → IsText m d ys
    → to_end f m d ≡ some (d + length ys)
unfolding to_end
to_end-IsText zero m d ys l h = absurd (omega arith)
to_end-IsText (suc f) m d [] l h = rw h (ap some (omega arith))
to_end-IsText (suc f) m d (y ∷ ys) l h =
    let ne : (m d == 0) ≡ false = ground (arith, h.0, h.1) in
    rw ne (to_end-IsText f m (d + 1) ys (omega arith) h.2 ∙ ap some (omega arith))

-- A string that is continued at its end by another.
IsText-append :
    (m m' : Mem) (d : ℕ) (ys xs : List ℕ)
    → IsText m d ys
    → ((a : ℕ) → a < d + length ys → m' a ≡ m a)
    → IsText m' (d + length ys) xs
    → IsText m' d (ys ++ xs)
IsText-append m m' d [] xs h same k = subst (λ a. IsText m' a xs) (omega arith) k
IsText-append m m' d (y ∷ ys) xs h same k = (
  same d (omega arith) ∙ h.0,
  h.1,
  IsText-append m m' (d + 1) ys xs h.2 (λ a l. same a (omega arith))
      (subst (λ a. IsText m' a xs) (omega arith) k),
)

-- With more fuel than either string has bytes, and the source apart from where it is copied,
-- `strcat` returns, leaves the two strings joined at the destination, and writes only from the old
-- terminator to the new one.
pub strcat-append :
    (f : ℕ) (m : Mem) (d s : ℕ) (ys xs : List ℕ)
    → length ys < f
    → length xs < f
    → IsText m d ys
    → IsText m s xs
    → Apart (d + length ys) s (suc (length xs))
    → (m' : Mem) × (strcat f m d s ≡ some m')
      × IsText m' d (ys ++ xs)
      × ((a : ℕ) → (a < d + length ys) ⊎ (d + length (ys ++ xs) < a) → m' a ≡ m a)
unfolding strcat Option.bind
strcat-append f m d s ys xs ly lx hy hx apart =
    let (m', e, c) = copy_text-Copied f m (d + length ys) s xs lx hx apart in
    (
      m',
      rw (to_end-IsText f m d ys ly hy) e,
      IsText-append m m' d ys xs hy (λ a l. c.spared a (omega arith)) c.text,
      λ a o. c.spared a (omega (arith, length-append {0} ys xs)),
    )

fill_zeros_lem :
    (n : ℕ) (m : Mem) (d a : ℕ) → fill_zeros n m d a ≡ (if leb d a && ltb a (d + n) then 0 else m a)
unfolding fill_zeros update
fill_zeros_lem zero m d a = ground arith
fill_zeros_lem (suc n) m d a = fill_zeros_lem n (update m d 0) (d + 1) a ∙ ground arith

-- What a padded copy leaves at the address `a`.
abbrev pub padded : Mem → ℕ → ℕ → List ℕ → ℕ → ℕ
padded m d n xs a = if leb d a && ltb a (d + n) then get_or xs (a - d) 0 else m a

padded_step :
    (m : Mem) (d n : ℕ) (x : ℕ) (xs : List ℕ) (a : ℕ)
    → padded (update m d x) (d + 1) n xs a ≡ padded m d (suc n) (x ∷ xs) a
unfolding get_or update
padded_step m d n x xs a = elim (ℕ_discrete d a) [
  | yes here ↦ let e : a - d ≡ 0 = omega arith in rw e (ground arith)
  | no ne ↦ elim (Bool-cases (ltb a d)) [
    | inl before ↦ ground arith
    | inr after ↦ let e : a - d ≡ suc (a - (d + 1)) = ground arith in rw e (ground arith)
  ]
]

-- `strncpy`, when its destination of `n` bytes does not overlap the string, writes those bytes and
-- no other: the string's bytes, and zeros behind them. So a string of `n` bytes or more is left
-- without a terminator.
pub strncpy-padded :
    (m : Mem) (d s n : ℕ) (xs : List ℕ)
    → IsText m s xs
    → (s + length xs < d) ⊎ (d + n ≤ s)
    → (a : ℕ) → strncpy m d s n a ≡ padded m d n xs a
unfolding strncpy
strncpy-padded m d s zero xs h apart a = ground arith
strncpy-padded m d s (suc n) [] h apart a = unfold get_or in rw h (fill_zeros_lem (suc n) m d a)
strncpy-padded m d s (suc n) (x ∷ xs) h apart a =
    let m₁ = update m d (m s) in
    let kept : IsText m₁ (s + 1) xs =
      IsText-congr m m₁ (s + 1) xs (λ b lo hi. update_ne m d b (m s) (omega arith)) h.2 in
    let ne : (m s == 0) ≡ false = ground (arith, h.0, h.1) in
    rw ne (
      strncpy-padded m₁ (d + 1) (s + 1) n xs kept (omega arith) a
      ∙ ap (λ v. padded (update m d v) (d + 1) n xs a) h.0
      ∙ padded_step m d n x xs a)

copy_at_most-Copied :
    (n : ℕ) (m : Mem) (d s : ℕ) (xs : List ℕ)
    → IsText m s xs
    → (s + length xs < d) ⊎ (d + n < s)
    → Copied m d (take n xs) (copy_at_most n m d s)
unfolding copy_at_most
copy_at_most-Copied zero m d s xs h apart = record {
  text = update_self m d 0;
  spared = λ a o. update_ne m d a 0 (omega arith);
}
copy_at_most-Copied (suc n) m d s [] h apart =
    rw h (record { text = update_self m d 0; spared = λ a o. update_ne m d a 0 (omega arith) })
copy_at_most-Copied (suc n) m d s (x ∷ xs) h apart =
    let m₁ = update m d (m s) in
    let kept : IsText m₁ (s + 1) xs =
      IsText-congr m m₁ (s + 1) xs (λ a lo hi. update_ne m d a (m s) (omega arith)) h.2 in
    let c = copy_at_most-Copied n m₁ (d + 1) (s + 1) xs kept (omega arith) in
    let ne : (m s == 0) ≡ false = ground (arith, h.0, h.1) in
    rw ne (record {
      text = (c.spared d (omega arith) ∙ update_self m d (m s) ∙ h.0, h.1, c.text);
      spared = λ a o. c.spared a (omega arith) ∙ update_ne m d a (m s) (omega arith);
    })

-- With more fuel than the destination has bytes, and the source apart from where it is copied,
-- `strncat` returns and leaves the first `n` bytes of the source, or all of it, joined to the
-- destination and terminated.
pub strncat-append :
    (f : ℕ) (m : Mem) (d s n : ℕ) (ys xs : List ℕ)
    → length ys < f
    → IsText m d ys
    → IsText m s xs
    → (s + length xs < d) ⊎ (d + length ys + n < s)
    → (m' : Mem) × (strncat f m d s n ≡ some m') × IsText m' d (ys ++ take n xs)
unfolding strncat Option.map
strncat-append f m d s n ys xs ly hy hx apart =
    let c = copy_at_most-Copied n m (d + length ys) s xs hx (omega arith) in
    (
      copy_at_most n m (d + length ys) s,
      rw (to_end-IsText f m d ys ly hy) refl,
      IsText-append m (copy_at_most n m (d + length ys) s) d ys (take n xs) hy
          (λ a l. c.spared a (omega arith)) c.text,
    )
