-- ===== src/CString/Memory.antt =====
-- `memset`, `memcpy`, `memmove` and `memcmp`: which bytes they write and what they compare.
use thuban.Base.{
  ℕ, zero, suc, ◌+◌, ◌-◌, ◌%◌, ◌<◌, ◌≤◌, ◌≡◌, ◌≢◌, ◌⊎◌, inl, inr, refl, ap, ◌∙◌, Bool, ◌&&◌, arith,
  ltb, leb, ◌==◌, if◌then◌else◌, Bool-cases,
}
use native.Mathlib.Decide.{ℕ_discrete}
use thuban.Base.Store.{update}
use thuban.Base.Int.{ℤ, pos, sub_ℕ}
use thuban.CString.{Mem, memset, memcpy, copy_back, memmove, memcmp}

abbrev pub in_block : ℕ → ℕ → ℕ → Bool
in_block p n a = leb p a && ltb a (p + n)

-- `memset` gives each byte of the block the value `c % 256`, and writes nothing else.
pub memset_lem :
    (m : Mem) (p c n a : ℕ) → memset m p c n a ≡ (if in_block p n a then c % 256 else m a)
unfolding memset update
memset_lem m p c zero a = ground arith
memset_lem m p c (suc n) a = memset_lem (update m p (c % 256)) (p + 1) c n a ∙ ground arith

-- The block at `d` holds afterwards what the block at `s` held before, and the rest is unchanged.
abbrev pub Moved : Mem → ℕ → ℕ → ℕ → Mem → Type 0
Moved m d s n m' = (a : ℕ) → m' a ≡ (if in_block d n a then m (s + (a - d)) else m a)

-- One round of each loop, for the byte at `a`.
memcpy_step :
    (m : Mem) (d s n a : ℕ)
    → (d ≤ s) ⊎ (s + suc n ≤ d)
    → (if in_block (d + 1) n a
        then update m d (m s) (s + 1 + (a - (d + 1)))
        else update m d (m s) a)
      ≡ (if in_block d (suc n) a then m (s + (a - d)) else m a)
unfolding update
memcpy_step m d s n a h = elim (Bool-cases (in_block (d + 1) n a)) [
  | inl later ↦ let e : s + 1 + (a - (d + 1)) ≡ s + (a - d) = ground arith in rw e (ground arith)
  | inr other ↦ elim (ℕ_discrete d a) [
    | yes here ↦ let e : s + (a - d) ≡ s = omega arith in rw e (ground arith)
    | no ne ↦ ground arith
  ]
]

copy_back_step :
    (m : Mem) (d s n a : ℕ)
    → s ≤ d
    → (if in_block d n a
        then update m (d + n) (m (s + n)) (s + (a - d))
        else update m (d + n) (m (s + n)) a)
      ≡ (if in_block d (suc n) a then m (s + (a - d)) else m a)
unfolding update
copy_back_step m d s n a h = elim (ℕ_discrete (d + n) a) [
  | yes here ↦ let e : s + (a - d) ≡ s + n = omega arith in rw e (ground arith)
  | no ne ↦ ground arith
]

-- `memcpy` copies upwards, so it is right for blocks that do not overlap, or when the destination
-- begins first.
pub memcpy-Moved : (m : Mem) (d s n : ℕ) → (d ≤ s) ⊎ (s + n ≤ d) → Moved m d s n (memcpy m d s n)
unfolding memcpy update
memcpy-Moved m d s zero h a = ground arith
memcpy-Moved m d s (suc n) h a =
    memcpy-Moved (update m d (m s)) (d + 1) (s + 1) n (omega arith) a ∙ memcpy_step m d s n a h

copy_back-Moved : (m : Mem) (d s n : ℕ) → s ≤ d → Moved m d s n (copy_back m d s n)
unfolding copy_back update
copy_back-Moved m d s zero h a = ground arith
copy_back-Moved m d s (suc n) h a =
    copy_back-Moved (update m (d + n) (m (s + n))) d s n h a ∙ copy_back_step m d s n a h

-- `memmove` leaves in the destination the bytes that the source held before, however the two blocks
-- overlap, and changes no byte outside the destination.
pub memmove-Moved : (m : Mem) (d s n : ℕ) → Moved m d s n (memmove m d s n)
unfolding memmove
memmove-Moved m d s n a = elim (Bool-cases (ltb d s)) [
  | inl lt ↦ rw lt (memcpy-Moved m d s n (inl (ground arith)) a)
  | inr ge ↦ rw ge (copy_back-Moved m d s n (ground arith) a)
]

abbrev pub SameBytes : Mem → ℕ → ℕ → ℕ → Type 0
SameBytes m p q n = (i : ℕ) → i < n → m (p + i) ≡ m (q + i)

SameBytes-cons :
    (m : Mem) (p q n : ℕ) → m p ≡ m q → SameBytes m (p + 1) (q + 1) n → SameBytes m p q (suc n)
SameBytes-cons m p q n e h zero l = ap m (omega arith) ∙ e ∙ ap m (omega arith)
SameBytes-cons m p q n e h (suc i) l = ap m (omega arith) ∙ h i (omega arith) ∙ ap m (omega arith)

-- What a comparison of two blocks returns: 0 for equal blocks, else the difference of the first
-- two bytes that differ.
abbrev pub Compared : Mem → ℕ → ℕ → ℕ → ℤ → Type 0
Compared m p q n r =
    (SameBytes m p q n × (r ≡ pos 0))
    ⊎ ((i : ℕ) × (i < n)
        × SameBytes m p q i
        × (m (p + i) ≢ m (q + i))
        × (r ≡ sub_ℕ (m (p + i)) (m (q + i))))

Compared-cons :
    (m : Mem) (p q n : ℕ) (r : ℤ)
    → m p ≡ m q
    → Compared m (p + 1) (q + 1) n r
    → Compared m p q (suc n) r
Compared-cons m p q n r e (inl (same, z)) = inl (SameBytes-cons m p q n e same, z)
Compared-cons m p q n r e (inr (i, l, same, ne, d)) =
    let ep : m (p + 1 + i) ≡ m (p + suc i) = ap m (omega arith) in
    let eq : m (q + 1 + i) ≡ m (q + suc i) = ap m (omega arith) in
    inr (suc i, omega arith, SameBytes-cons m p q i e same, rw (← ep, ← eq) ne, rw (← ep, ← eq) d)

-- `memcmp` returns 0 when all bytes of the two blocks are equal, and otherwise the difference of
-- the first two that are not.
pub memcmp-Compared : (m : Mem) (p q n : ℕ) → Compared m p q n (memcmp m p q n)
unfolding memcmp
memcmp-Compared m p q zero = inl ((λ i l. absurd (omega arith)), refl)
memcmp-Compared m p q (suc n) = elim (Bool-cases (m p == m q)) [
  | inl same ↦ rw same (
      Compared-cons m p q n (memcmp m (p + 1) (q + 1) n) (ground arith)
        (memcmp-Compared m (p + 1) (q + 1) n))
  | inr differ ↦
      let ep : m (p + 0) ≡ m p = ap m (omega arith) in
      let eq : m (q + 0) ≡ m q = ap m (omega arith) in
      rw (differ, ← ep, ← eq)
        (inr (0, omega arith, (λ i l. absurd (omega arith)), (λ e. ground (arith, ep, eq)), refl))
]
