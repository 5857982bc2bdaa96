-- ===== src/Syscall/Line.antt =====
-- Reading from the keyboard through `sys_read`: a line, or the part of it that fits.
use thuban.Base.{
  ℕ, zero, suc, ◌+◌, ◌%◌, Bool, true, ◌≤◌, ◌<◌, ◌≡◌, ◌≢◌, refl, sym, ap, ◌∙◌, false, ◌||◌, List, [],
  ◌∷◌, length, get_or, some, ◌==◌, if◌then◌else◌, inl, inr, ◌⊎◌, arith, Bool-cases,
}
use mathlib.Core.Path.{subst}
use thuban.Syscall.{Os, read_loop, sys_read_impl}

-- What the console and memory do: if characters were typed, `getchar` returns the first of them and
-- leaves the others; if none was, it waits, and nothing is said. Neither part disturbs the other.
pub record Typing {S : Type 0} (os : Os S) (typed : S → List ℕ) : Type 0 where
  pub key :
      (s : S) (c : ℕ) (cs : List ℕ)
      → typed s ≡ c ∷ cs
      → ((os.getchar s).0 ≡ some c) × (typed (os.getchar s).1 ≡ cs)
  pub memory : (s : S) (a : ℕ) → os.load (os.getchar s).1 a ≡ os.load s a
  pub stored :
      (s : S) (a byte x : ℕ)
      → os.load (os.store a byte s) x ≡ (if a == x then byte else os.load s x)
  pub kept : (s : S) (a byte : ℕ) → typed (os.store a byte s) ≡ typed s

-- The first line of what was typed, with its newline, cut at `count` characters; and what is left.
unfoldable pub line : (count : ℕ) → List ℕ → List ℕ
line zero cs = []
line (suc n) [] = []
line (suc n) (c ∷ cs) = c ∷ (if c == 10 then [] else line n cs)

unfoldable pub after_line : (count : ℕ) → List ℕ → List ℕ
after_line zero cs = cs
after_line (suc n) [] = []
after_line (suc n) (c ∷ cs) = if c == 10 then cs else after_line n cs

-- Are there `count` characters, or a newline before?
unfoldable pub enough : (count : ℕ) → List ℕ → Bool
enough zero cs = true
enough (suc n) [] = false
enough (suc n) (c ∷ cs) = if c == 10 then true else enough n cs

module _ {S : Type 0} (os : Os S) (typed : S → List ℕ) (t : Typing os typed) where
  -- The characters stand in memory from `at` on, and the rest of memory is as before.
  abbrev Holds : (at : ℕ) → List ℕ → S → S → Type 0
  Holds at cs s s' =
      ((k : ℕ) → k < length cs → os.load s' (at + k) ≡ get_or cs k 0 % 256)
      × ((a : ℕ) → (a < at) ⊎ (at + length cs ≤ a) → os.load s' a ≡ os.load s a)

  pub ReadsLine : (count at done : ℕ) → List ℕ → S → ℕ × S → Type 0
  ReadsLine count at done cs s (r, s') =
      (r ≡ done + length (line count cs))
      × (typed s' ≡ after_line count cs)
      × Holds at (line count cs) s s'

  -- One character is stored, and the others behind it.
  Holds-cons :
      (at c : ℕ) (cs : List ℕ) (s g s' : S)
      → ((a : ℕ) → os.load g a ≡ os.load s a)
      → Holds (at + 1) cs (os.store at (c % 256) g) s'
      → Holds at (c ∷ cs) s s'
  unfolding get_or
  Holds-cons at c cs s g s' same (inside, outside) = (
    λ k. elim k as (λ j. j < suc (length cs) → os.load s' (at + j) ≡ get_or (c ∷ cs) j 0 % 256) [
      | zero ↦ λ h.
          ap (os.load s') (omega arith)
          ∙ outside at (inl (omega arith))
          ∙ t.stored g at (c % 256) at
          ∙ ground arith
      | suc j ↦ λ h. ap (os.load s') (omega arith) ∙ inside j (omega (arith, h))
    ],
    λ a far.
        outside a (ground (arith, far)) ∙ t.stored g at (c % 256) a ∙ ground (arith, far, same a),
  )

  read_loop-some :
      (n done buf c : ℕ) (s : S)
      → (os.getchar s).0 ≡ some c
      → let stored = os.store (buf + done) (c % 256) (os.getchar s).1 in
        read_loop os (suc n) done buf s
        ≡ (if c == 10 then (done + 1, stored) else read_loop os n (done + 1) buf stored)
  unfolding read_loop
  read_loop-some n done buf c s e = rw (read_loop, e) refl

  read_loop-ReadsLine :
      (n done buf : ℕ) (cs : List ℕ) (s : S)
      → typed s ≡ cs
      → enough n cs ≡ true
      → ReadsLine n (buf + done) done cs s (read_loop os n done buf s)
  unfolding read_loop line after_line ReadsLine enough
  read_loop-ReadsLine zero done buf cs s e all =
      (omega arith, e, (λ k h. absurd (omega (arith, h)), λ a h. refl))
  read_loop-ReadsLine (suc n) done buf [] s e all = absurd cc
  read_loop-ReadsLine (suc n) done buf (c ∷ cs) s e all =
      let (a_key, others) = t.key s c cs e in
      let g = (os.getchar s).1 in
      let at = buf + done in
      let stored = os.store at (c % 256) g in
      let left : typed stored ≡ cs = t.kept g at (c % 256) ∙ others in
      subst (ReadsLine (suc n) at done (c ∷ cs) s) (sym (read_loop-some n done buf c s a_key))
        (elim (Bool-cases (c == 10)) [
          | inl q ↦ rw q (
            refl,
            left,
            Holds-cons at c [] s g stored (t.memory s)
                (λ k h. absurd (omega (arith, h)), λ a h. refl),
          )
          | inr q ↦
              let (r, rest, held) =
                read_loop-ReadsLine n (done + 1) buf cs stored left (rw q at all) in
              rw q (
                omega (arith, r),
                rest,
                Holds-cons at c (line n cs) s g (read_loop os n (done + 1) buf stored).1
                    (t.memory s)
                    (subst
                      (λ b. Holds b (line n cs) stored (read_loop os n (done + 1) buf stored).1)
                      (omega arith) held),
              )
        ])

  -- Over a console whose `getchar` returns the typed characters in their order and waits when there
  -- are none, for a buffer and a count that are not 0, and when `count` characters or a newline
  -- before have been typed: `sys_read` on descriptor 0 takes the typed characters up to the first
  -- newline, or `count` of them, returns how many it took, and leaves them in the buffer; the rest
  -- of memory and what was typed after them are as before.
  pub sys_read-ReadsLine :
      (buf count : ℕ) (s : S)
      → buf ≢ 0
      → count ≢ 0
      → enough count (typed s) ≡ true
      → ReadsLine count buf 0 (typed s) s (sys_read_impl os 0 buf count 0 0 0 s)
  unfolding sys_read_impl ReadsLine
  sys_read-ReadsLine buf count s nb nc all =
      let valid : (buf == 0 || count == 0) ≡ false = ground arith in
      rw valid (
        subst (λ b. ReadsLine count b 0 (typed s) s (read_loop os count 0 buf s)) (omega arith)
          (read_loop-ReadsLine count 0 buf (typed s) s refl all))
