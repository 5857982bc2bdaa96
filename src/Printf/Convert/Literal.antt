-- ===== src/Printf/Convert/Literal.antt =====
-- A format without conversions.
use thuban.Base.{
  ℕ, zero, suc, ◌+◌, ◌%◌, ◌^◌, ◌<◌, ◌≡◌, ◌≢◌, refl, ap, false, true, List, [], ◌∷◌, Option, some,
  ◌==◌, arith, length,
}
use Prim.{Unit}
use thuban.CString.{Mem}
use thuban.CString.Text.{IsText}
use thuban.Printf.Spec.{Spec}
use thuban.Printf.Convert.{
  Converted, format_loop, vprintf, convert, vprintf_internal, convert_internal,
}

-- No character is `%`.
abbrev pub IsLiteral : List ℕ → Type 0
IsLiteral [] = Unit
IsLiteral (c ∷ cs) = (c ≢ 37) × IsLiteral cs

format_loop-IsLiteral :
    (switch : ℕ → Mem → Spec → ℕ → Option Converted) (fuel : ℕ) (m : Mem) (format : ℕ)
    (args text : List ℕ)
    → length text < fuel
    → IsText m format text
    → IsLiteral text
    → format_loop switch fuel m format args ≡ some (text, length text)
unfolding format_loop
format_loop-IsLiteral switch zero m format args text l h p = absurd (omega arith)
format_loop-IsLiteral switch (suc f) m format args [] l h p =
    let stop : (m format == 0) ≡ true = ground (arith, h) in rw stop refl
format_loop-IsLiteral switch (suc f) m format args (c ∷ cs) l h p =
    let ih = format_loop-IsLiteral switch f m (format + 1) args cs (omega arith) h.2 p.1 in
    let go : (m format == 0) ≡ false = ground (arith, h.0, h.1) in
    let plain : (m format == 37) ≡ false = ground (arith, h.0, p.0) in
    rw (go, plain, ih, h.0) (ap (λ n. some (c ∷ cs, n)) (omega arith))

-- A format without conversions is printed as it is.
pub vprintf-IsLiteral :
    (fuel : ℕ) (m : Mem) (format : ℕ) (args text : List ℕ)
    → length text < fuel
    → IsText m format text
    → IsLiteral text
    → vprintf fuel m format args ≡ some (text, length text % 2 ^ 32)
unfolding vprintf
vprintf-IsLiteral fuel m format args text l h p =
    rw (format_loop-IsLiteral convert fuel m format args text l h p) refl

pub vprintf_internal-IsLiteral :
    (fuel : ℕ) (m : Mem) (format : ℕ) (args text : List ℕ)
    → length text < fuel
    → IsText m format text
    → IsLiteral text
    → vprintf_internal fuel m format args ≡ some (text, length text % 2 ^ 32)
unfolding vprintf_internal
vprintf_internal-IsLiteral fuel m format args text l h p =
    rw (format_loop-IsLiteral convert_internal fuel m format args text l h p) refl
