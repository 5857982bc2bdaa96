-- ===== src/CString/Search.antt =====
-- `strchr`, `strrchr` and `strstr` against searches in lists.
use thuban.Base.{
  ℕ, zero, suc, ◌+◌, ◌<◌, ◌≡◌, refl, ap, ◌∙◌, false, arith, ◌==◌, if◌then◌else◌, Bool-cases, inl,
  inr, List, [], ◌∷◌, ◌++◌, Option, none, some, length,
}
use mathlib.Core.Option
use thuban.CString.{Mem, null, char, strchr, strrchr_from, strrchr, match_at, strstr_from, strstr}
use thuban.CString.Text.{IsText}
use thuban.CString.Compare.{is_prefix}

-- The first and the last position of a byte.
pub first_index : ℕ → List ℕ → Option ℕ
first_index c [] = none
first_index c (x ∷ xs) = if x == c then some 0 else Option.map suc (first_index c xs)

pub last_index : ℕ → List ℕ → Option ℕ
last_index c [] = none
last_index c (x ∷ xs) = elim (last_index c xs) [
  | some i ↦ some (suc i)
  | none ↦ if x == c then some 0 else none
]

-- The pointer to a position in the string at `s`, or another if there is none.
abbrev pub pointer : ℕ → ℕ → Option ℕ → ℕ
pointer s other none = other
pointer s other (some i) = s + i

pointer-suc :
    (s other : ℕ) (o : Option ℕ) → pointer (s + 1) other o ≡ pointer s other (Option.map suc o)
unfolding Option.map
pointer-suc s other none = refl
pointer-suc s other (some i) = omega arith

-- With more fuel than the string has bytes, `strchr` returns the first place of the character among
-- the string's bytes and its terminator, or NULL.
pub strchr-first_index :
    (f : ℕ) (m : Mem) (s c : ℕ) (xs : List ℕ)
    → length xs < f
    → IsText m s xs
    → strchr f m s c ≡ some (pointer s null (first_index (char c) (xs ++ (0 ∷ []))))
unfolding strchr first_index
strchr-first_index zero m s c xs l h = absurd (omega arith)
strchr-first_index (suc f) m s c [] l h = elim (Bool-cases (0 == char c)) [
  | inl e ↦ rw (h, e) (ap some (omega arith))
  | inr ne ↦ unfold Option.map in rw (h, ne) refl
]
strchr-first_index (suc f) m s c (x ∷ xs) l h = elim (Bool-cases (x == char c)) [
  | inl e ↦ rw (h.0, e) (ap some (omega arith))
  | inr ne ↦
      let nz : (x == 0) ≡ false = ground (arith, h.1) in
      rw (h.0, ne, nz)
        (strchr-first_index f m (s + 1) c xs (omega arith) h.2
          ∙ ap some (pointer-suc s null (first_index (char c) (xs ++ (0 ∷ [])))))
]

strrchr_from-last_index :
    (f : ℕ) (m : Mem) (s c last : ℕ) (xs : List ℕ)
    → length xs < f
    → IsText m s xs
    → strrchr_from f m s c last ≡ some (pointer s last (last_index (char c) (xs ++ (0 ∷ []))))
unfolding strrchr_from last_index
strrchr_from-last_index zero m s c last xs l h = absurd (omega arith)
strrchr_from-last_index (suc f) m s c last [] l h = ground arith
strrchr_from-last_index (suc f) m s c last (x ∷ xs) l h = ground (
  arith,
  h.0,
  h.1,
  strrchr_from-last_index f m (s + 1) c (if m s == char c then s else last) xs (omega arith) h.2,
)

-- `strrchr` returns the last such place, or NULL.
pub strrchr-last_index :
    (f : ℕ) (m : Mem) (s c : ℕ) (xs : List ℕ)
    → length xs < f
    → IsText m s xs
    → strrchr f m s c ≡ some (pointer s null (last_index (char c) (xs ++ (0 ∷ []))))
unfolding strrchr
strrchr-last_index f m s c xs l h = strrchr_from-last_index f m s c null xs l h

pub match_at-is_prefix :
    (f : ℕ) (m : Mem) (h n : ℕ) (xs ys : List ℕ)
    → length xs < f
    → IsText m h xs
    → IsText m n ys
    → match_at f m h n ≡ some (is_prefix ys xs)
unfolding match_at is_prefix
match_at-is_prefix zero m h n xs ys l p q = absurd (omega arith)
match_at-is_prefix (suc f) m h n [] [] l p q = ground (arith, p, q)
match_at-is_prefix (suc f) m h n [] (y ∷ ys) l p q = ground (arith, p, q.0, q.1)
match_at-is_prefix (suc f) m h n (x ∷ xs) [] l p q = ground (arith, p.0, p.1, q)
match_at-is_prefix (suc f) m h n (x ∷ xs) (y ∷ ys) l p q =
    ground (
      arith,
      p.0,
      p.1,
      q.0,
      q.1,
      match_at-is_prefix f m (h + 1) (n + 1) xs ys (omega arith) p.2 q.2,
    )

-- The first position at which `ys` begins.
pub find_text : List ℕ → List ℕ → Option ℕ
find_text ys [] = none
find_text ys (x ∷ xs) = if is_prefix ys (x ∷ xs) then some 0 else Option.map suc (find_text ys xs)

strstr_from-find_text :
    (f g : ℕ) (m : Mem) (s n : ℕ) (xs ys : List ℕ)
    → length xs < f
    → length xs < g
    → IsText m s xs
    → IsText m n ys
    → strstr_from f g m s n ≡ some (pointer s null (find_text ys xs))
unfolding strstr_from find_text Option.bind
strstr_from-find_text f zero m s n xs ys l k p q = absurd (omega arith)
strstr_from-find_text f (suc g) m s n [] ys l k p q = rw p
strstr_from-find_text f (suc g) m s n (x ∷ xs) ys l k p q =
    let nz : (m s == 0) ≡ false = ground (arith, p.0, p.1) in
    let rest = strstr_from-find_text f g m (s + 1) n xs ys (omega arith) (omega arith) p.2 q in
    rw (nz, match_at-is_prefix f m s n (x ∷ xs) ys l p q)
      (elim (Bool-cases (is_prefix ys (x ∷ xs))) [
        | inl here ↦ rw here (ap some (omega arith))
        | inr later ↦ rw later (rest ∙ ap some (pointer-suc s null (find_text ys xs)))
      ])

-- With more fuel than the haystack has bytes, `strstr` returns the first place at which the needle
-- stands in it, the haystack itself for an empty needle, or NULL.
pub strstr-find_text :
    (f : ℕ) (m : Mem) (s n : ℕ) (xs ys : List ℕ)
    → length xs < f
    → IsText m s xs
    → IsText m n ys
    → strstr f m s n ≡ some (if length ys == 0 then s else pointer s null (find_text ys xs))
unfolding strstr
strstr-find_text f m s n xs [] l p q = rw q refl
strstr-find_text f m s n xs (y ∷ ys) l p q =
    let nz : (m n == 0) ≡ false = ground (arith, q.0, q.1) in
    let e : (length (y ∷ ys) == 0) ≡ false = ground arith in
    rw (nz, e) (strstr_from-find_text f f m s n xs (y ∷ ys) l l p q)
