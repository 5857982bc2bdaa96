-- ===== src/Vmm/Entries.antt =====
-- The entries of a table: a frame with flags in its lower 12 bits.
use thuban.Base.{
  ℕ, zero, suc, ◌+◌, ◌*◌, ◌/◌, ◌%◌, ◌^◌, ◌≤◌, ◌<◌, ◌≡◌, ap, ◌∙◌, bit_or, true, ◌==◌, arith, refl,
  inl, inr, Bool-cases,
}
use mathlib.Core.Path.{subst}
use native.Mathlib.Nat.{pow-suc}
use thuban.Base.Bits.{bit_or_step}
use thuban.Vmm.{page_present, page_write, present, frame, new_pte}

bit_or-zero_le : (f a : ℕ) → a ≤ f → bit_or a 0 ≡ a
bit_or-zero_le zero a l = let z : 0 ≡ a = omega arith in subst (λ x. bit_or x 0 ≡ x) z refl
bit_or-zero_le (suc f) a l = elim (Bool-cases (a == 0)) [
  | inl e ↦ let z : 0 ≡ a = ground (arith, e) in subst (λ x. bit_or x 0 ≡ x) z refl
  | inr e ↦
      let pos : 0 < a = ground (arith, e) in
      omega (arith, bit_or_step a 0, bit_or-zero_le f (a / 2) (omega (arith, pos, l)))
]

bit_or-zero : (a : ℕ) → bit_or a 0 ≡ a
bit_or-zero a = bit_or-zero_le a a (omega arith)

-- The lower `n` bits of a word that has only those on the right.
bit_or-low :
    (n a e f : ℕ) → e < 2 ^ n → f < 2 ^ n → bit_or (a * 2 ^ n + e) f ≡ a * 2 ^ n + bit_or e f
bit_or-low zero a e f le lf =
    let ze : 0 ≡ e = omega (arith, le) in
    let zf : 0 ≡ f = omega (arith, lf) in
    subst (λ y. bit_or (a * 2 ^ 0 + y) f ≡ a * 2 ^ 0 + bit_or y f) ze
      (subst (λ z. bit_or (a * 2 ^ 0 + 0) z ≡ a * 2 ^ 0 + bit_or 0 z) zf
        (bit_or-zero (a * 2 ^ 0 + 0) ∙ omega (arith, bit_or-zero 0)))
bit_or-low (suc n) a e f le lf =
    let p = pow-suc 2 n in
    let double : a * 2 ^ suc n ≡ 2 * (a * 2 ^ n) = ap (λ x. a * x) p ∙ omega arith in
    let half : (a * 2 ^ suc n + e) / 2 ≡ a * 2 ^ n + e / 2 = omega (arith, double) in
    let same : (a * 2 ^ suc n + e) % 2 ≡ e % 2 = omega (arith, double) in
    let step = bit_or_step (a * 2 ^ suc n + e) f in
    let below = bit_or-low n a (e / 2) (f / 2) (omega (arith, le, p)) (omega (arith, lf, p)) in
    let upper = ap (λ x. bit_or x (f / 2)) half ∙ below in
    step ∙ omega (arith, bit_or_step e f, double, same, upper)

pub bit_or-lt : (n e f : ℕ) → e < 2 ^ n → f < 2 ^ n → bit_or e f < 2 ^ n
bit_or-lt zero e f le lf =
    let ze : 0 ≡ e = omega (arith, le) in
    let zf : 0 ≡ f = omega (arith, lf) in
    subst (λ y. bit_or y f < 1) ze (subst (λ z. bit_or 0 z < 1) zf (omega (arith, bit_or-zero 0)))
bit_or-lt (suc n) e f le lf =
    let p = pow-suc 2 n in
    let low = bit_or-lt n (e / 2) (f / 2) (omega (arith, le, p)) (omega (arith, lf, p)) in
    omega (arith, bit_or_step e f, p, low)

bit_or-low_page :
    (a e f : ℕ) → e < 4096 → f < 4096 → bit_or (a * 4096 + e) f ≡ a * 4096 + bit_or e f
bit_or-low_page a e f le lf = bit_or-low 12 a e f le lf

zero-bit_or_le : (n f : ℕ) → f ≤ n → bit_or 0 f ≡ f
zero-bit_or_le zero f l = let z : 0 ≡ f = omega arith in subst (λ x. bit_or 0 x ≡ x) z refl
zero-bit_or_le (suc n) f l = elim (Bool-cases (f == 0)) [
  | inl e ↦ let z : 0 ≡ f = ground (arith, e) in subst (λ x. bit_or 0 x ≡ x) z refl
  | inr e ↦
      let pos : 0 < f = ground (arith, e) in
      omega (arith, bit_or_step 0 f, zero-bit_or_le n (f / 2) (omega (arith, pos, l)))
]

-- `frame | offset`
pub bit_or-frame : (x f : ℕ) → f < 4096 → bit_or (frame x) f ≡ frame x + f
bit_or-frame x f l =
    let split : frame x ≡ x / 4096 * 4096 + 0 = omega arith in
    ap (λ y. bit_or y f) split
    ∙ bit_or-low_page (x / 4096) 0 f (omega arith) l
    ∙ omega (arith, zero-bit_or_le f f (omega arith))

pub present-bit_or : (x : ℕ) → present (bit_or x 1) ≡ true
present-bit_or x = ground (arith, bit_or_step x 1)

pub present-new_pte : (phys flags : ℕ) → present (new_pte phys flags) ≡ true
unfolding new_pte
present-new_pte phys flags = present-bit_or (bit_or (frame phys) flags)

pub frame-new_pte : (phys flags : ℕ) → flags < 4096 → frame (new_pte phys flags) ≡ frame phys
unfolding new_pte
frame-new_pte phys flags l =
    let a = phys / 4096 in
    let inner = bit_or-frame phys flags l in
    let split : frame phys + flags ≡ a * 4096 + flags = omega arith in
    let outer = bit_or-low_page a flags 1 l (omega arith) in
    let low = bit_or-lt 12 flags 1 l (omega arith) in
    let e = ap (λ x. bit_or x 1) (inner ∙ split) ∙ outer in omega (arith, e, low)

-- The entry of a table that `get_pte` makes.
pub made-eq : (n : ℕ) → bit_or (bit_or (n * 4096) page_present) page_write ≡ n * 4096 + 3
made-eq n =
    let inner = bit_or-low_page n 0 1 (omega arith) (omega arith) in
    let e : n * 4096 ≡ n * 4096 + 0 = omega arith in
    ap (λ x. bit_or (bit_or x 1) 2) e
    ∙ ap (λ x. bit_or x 2) inner
    ∙ bit_or-low_page n (bit_or 0 1) 2 (omega arith) (omega arith)
