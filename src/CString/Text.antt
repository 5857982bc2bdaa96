-- ===== src/CString/Text.antt =====
-- Strings in memory, and their length.
use thuban.Base.{
  ℕ, zero, suc, ◌+◌, ◌<◌, ◌≤◌, ◌≡◌, ◌≢◌, ap, ◌∙◌, false, arith, ◌==◌, List, [], ◌∷◌, some, length,
  min,
}
use mathlib.Core.Path.{subst}
use thuban.CString.{Mem, strlen_from, strlen, strnlen_from, strnlen}

-- From `s` on the memory holds the bytes `xs`, none of them 0, and then the terminator.
abbrev pub IsText : Mem → ℕ → List ℕ → Type 0
IsText m s [] = m s ≡ 0
IsText m s (x ∷ xs) = (m s ≡ x) × (x ≢ 0) × IsText m (s + 1) xs

-- A string depends only on its own bytes and its terminator.
pub IsText-congr :
    (m m' : Mem) (s : ℕ) (xs : List ℕ)
    → ((a : ℕ) → s ≤ a → a ≤ s + length xs → m' a ≡ m a)
    → IsText m s xs
    → IsText m' s xs
IsText-congr m m' s [] same h = same s (omega arith) (omega arith) ∙ h
IsText-congr m m' s (x ∷ xs) same h = (
  same s (omega arith) (omega arith) ∙ h.0,
  h.1,
  IsText-congr m m' (s + 1) xs (λ a l u. same a (omega arith) (omega arith)) h.2,
)

-- The address of the terminator.
pub IsText-end : (m : Mem) (s : ℕ) (xs : List ℕ) → IsText m s xs → m (s + length xs) ≡ 0
IsText-end m s [] h = ap m (omega arith) ∙ h
IsText-end m s (x ∷ xs) h = ap m (omega arith) ∙ IsText-end m (s + 1) xs h.2

strlen_from-IsText :
    (f : ℕ) (m : Mem) (s len : ℕ) (xs : List ℕ)
    → length xs < f
    → IsText m (s + len) xs
    → strlen_from f m s len ≡ some (len + length xs)
unfolding strlen_from
strlen_from-IsText zero m s len xs l h = absurd (omega arith)
strlen_from-IsText (suc f) m s len [] l h = ground arith
strlen_from-IsText (suc f) m s len (x ∷ xs) l h =
    let at : s + len + 1 ≡ s + (len + 1) = omega arith in
    let next : IsText m (s + (len + 1)) xs = subst (λ a. IsText m a xs) at h.2 in
    let ne : (m (s + len) == 0) ≡ false = ground (arith, h.0, h.1) in
    rw ne (strlen_from-IsText f m s (len + 1) xs (omega arith) next ∙ ap some (omega arith))

-- With more fuel than the string has bytes, `strlen` returns their number.
pub strlen-length :
    (f : ℕ) (m : Mem) (s : ℕ) (xs : List ℕ)
    → length xs < f
    → IsText m s xs
    → strlen f m s ≡ some (length xs)
unfolding strlen
strlen-length f m s xs l h =
    strlen_from-IsText f m s 0 xs l (subst (λ a. IsText m a xs) (omega arith) h)
    ∙ ap some (omega arith)

strnlen_from-IsText :
    (n : ℕ) (m : Mem) (s len : ℕ) (xs : List ℕ)
    → IsText m (s + len) xs
    → strnlen_from n m s len ≡ len + min n (length xs)
unfolding strnlen_from
strnlen_from-IsText zero m s len xs h = omega arith
strnlen_from-IsText (suc n) m s len [] h = ground arith
strnlen_from-IsText (suc n) m s len (x ∷ xs) h =
    let at : s + len + 1 ≡ s + (len + 1) = omega arith in
    let next : IsText m (s + (len + 1)) xs = subst (λ a. IsText m a xs) at h.2 in
    let ne : (m (s + len) == 0) ≡ false = ground (arith, h.0, h.1) in
    rw ne (strnlen_from-IsText n m s (len + 1) xs next ∙ omega arith)

-- `strnlen` returns the length, or the limit if that is less.
pub strnlen-length :
    (m : Mem) (s maxlen : ℕ) (xs : List ℕ)
    → IsText m s xs
    → strnlen m s maxlen ≡ min maxlen (length xs)
unfolding strnlen
strnlen-length m s maxlen xs h =
    strnlen_from-IsText maxlen m s 0 xs (subst (λ a. IsText m a xs) (omega arith) h) ∙ omega arith
