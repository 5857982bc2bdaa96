-- ===== src/Vmm/Tree.antt =====
-- The tables as a tree: which table a list of indices leads to, which entry it reads, and what a
-- new table and a written entry change.
pub mod Grow
pub mod Write
use thuban.Base.{
  ℕ, zero, suc, ◌+◌, ◌*◌, ◌%◌, ◌^◌, ◌<◌, ◌≡◌, ◌≢◌, refl, sym, ap, ◌∙◌, Bool, true, false, ◌==◌,
  if◌then◌else◌, List, [], ◌∷◌, ◌++◌, length, Option, none, some, inl, inr, ◌⊎◌, arith, Bool-cases,
  ==_iff, ◌&&◌, ◌||◌,
}
use Prim.{Unit}
use mathlib.Core.Path.{subst}
use mathlib.Core.Option.{some-injective}
use thuban.Base.Store.{update, update_self, update_ne}
use thuban.Vmm.{present, table_of, set_entry}

-- The table that indices lead to.
unfoldable pub descend : List ℕ → ℕ → (ℕ → ℕ → ℕ) → Option ℕ
descend [] t m = some t
descend (i ∷ is) t m =
    let rest = descend is (table_of (m t i)) m in if present (m t i) then rest else none

-- The entry `j` of that table; 0 where there is none.
unfoldable pub entry_of : List ℕ → ℕ → ℕ → (ℕ → ℕ → ℕ) → ℕ
entry_of [] j t m = m t j
entry_of (i ∷ is) j t m =
    let rest = entry_of is j (table_of (m t i)) m in if present (m t i) then rest else 0

-- The indices of the entries that arch/x86_64/boot.s makes, in the tables of levels 4 and 3, but
-- for the last of level 4: those entries share their tables and lead to pages of 2 MB.
unfoldable pub boot_entry : (level index : ℕ) → Bool
boot_entry level index = (level == 4 && index == 0) || (level == 3 && (index == 0 || index == 510))

-- No index of the list, from a table of level `n` on, is one of those.
unfoldable pub Clear : (n : ℕ) → List ℕ → Type 0
Clear n [] = Unit
Clear zero (i ∷ is) = Unit
Clear (suc n) (i ∷ is) = (boot_entry (suc n) i ≡ false) × Clear n is

-- `level t` is 4 for the root, one less at each step down, and 0 for what is not a table. No table
-- has two entries that lead to it. The entries with the indices of boot.s may be any.
pub record IsShape (level : ℕ → ℕ) (m : ℕ → ℕ → ℕ) : Type 0 where
  pub below :
      (t i n : ℕ)
      → level t ≡ suc (suc n)
      → boot_entry (suc (suc n)) i ≡ false
      → present (m t i) ≡ true
      → level (table_of (m t i)) ≡ suc n
  pub single :
      (t i u j n : ℕ)
      → level t ≡ suc (suc n)
      → level u ≡ suc (suc n)
      → boot_entry (suc (suc n)) i ≡ false
      → boot_entry (suc (suc n)) j ≡ false
      → present (m t i) ≡ true
      → present (m u j) ≡ true
      → table_of (m t i) ≡ table_of (m u j)
      → (t ≡ u) × (i ≡ j)

pub descend-present :
    (i : ℕ) (is : List ℕ) (t p : ℕ) (m : ℕ → ℕ → ℕ)
    → descend (i ∷ is) t m ≡ some p
    → (present (m t i) ≡ true) × (descend is (table_of (m t i)) m ≡ some p)
unfolding descend
descend-present i is t p m d =
    let rest = descend is (table_of (m t i)) m in
    elim (Bool-cases (present (m t i))) [
      | inl e ↦ (e, subst (λ b. (if b then rest else none) ≡ some p) e d)
      | inr e ↦
          (let clash : none ≡ some p = subst (λ b. (if b then rest else none) ≡ some p) e d in cc)
    ]

pub present-descend :
    (i : ℕ) (is : List ℕ) (t : ℕ) (m : ℕ → ℕ → ℕ)
    → present (m t i) ≡ true
    → descend (i ∷ is) t m ≡ descend is (table_of (m t i)) m
unfolding descend
present-descend i is t m e = rw e refl

pub descend-append :
    (is js : List ℕ) (t u : ℕ) (m : ℕ → ℕ → ℕ)
    → descend is t m ≡ some u
    → descend (is ++ js) t m ≡ descend js u m
unfolding descend
descend-append [] js t u m d = ap (λ x. descend js x m) (some-injective t u d)
descend-append (i ∷ is) js t u m d =
    let (e, rest) = descend-present i is t u m d in
    rw e (descend-append is js (table_of (m t i)) u m rest)

pub descend-level :
    (is : List ℕ) (t p : ℕ) (level : ℕ → ℕ) (m : ℕ → ℕ → ℕ)
    → IsShape level m
    → level t ≡ suc (length is)
    → Clear (suc (length is)) is
    → descend is t m ≡ some p
    → level p ≡ 1
unfolding descend Clear
descend-level [] t p level m s h c d = ap level (sym (some-injective t p d)) ∙ h
descend-level (i ∷ is) t p level m s h c d =
    let (e, rest) = descend-present i is t p m d in
    descend-level is (table_of (m t i)) p level m s (s.below t i (length is) h c.0 e) c.1 rest

-- Two ways to one table are the same.
pub descend_unique :
    (is js : List ℕ) (t u p : ℕ) (level : ℕ → ℕ) (m : ℕ → ℕ → ℕ)
    → IsShape level m
    → level t ≡ suc (length is)
    → level u ≡ suc (length is)
    → length js ≡ length is
    → Clear (suc (length is)) is
    → Clear (suc (length js)) js
    → descend is t m ≡ some p
    → descend js u m ≡ some p
    → (t ≡ u) × (is ≡ js)
unfolding descend Clear
descend_unique [] [] t u p level m s lt lu l c c' d d' =
    (some-injective t p d ∙ sym (some-injective u p d'), refl)
descend_unique [] (j ∷ js) t u p level m s lt lu l c c' d d' = absurd (omega (arith, l))
descend_unique (i ∷ is) [] t u p level m s lt lu l c c' d d' = absurd (omega (arith, l))
descend_unique (i ∷ is) (j ∷ js) t u p level m s lt lu l c c' d d' =
    let (e, rest) = descend-present i is t p m d in
    let (e', rest') = descend-present j js u p m d' in
    let lengths : length js ≡ length is = omega (arith, l) in
    let same_level = subst (λ k. boot_entry (suc (suc k)) j ≡ false) lengths c'.0 in
    let (same, tail) =
      descend_unique is js (table_of (m t i)) (table_of (m u j)) p level m s
        (s.below t i (length is) lt c.0 e) (s.below u j (length is) lu same_level e')
        (omega (arith, l)) c.1 c'.1 rest rest' in
    let (tables, head) = s.single t i u j (length is) lt lu c.0 same_level e e' same in
    (tables, ap (λ x. x ∷ is) head ∙ ap (λ xs. j ∷ xs) tail)

pub entry_of-present :
    (i : ℕ) (is : List ℕ) (j t : ℕ) (m : ℕ → ℕ → ℕ)
    → present (m t i) ≡ true
    → entry_of (i ∷ is) j t m ≡ entry_of is j (table_of (m t i)) m
unfolding entry_of
entry_of-present i is j t m e = rw e refl

pub entry_of-absent :
    (i : ℕ) (is : List ℕ) (j t : ℕ) (m : ℕ → ℕ → ℕ)
    → present (m t i) ≡ false
    → entry_of (i ∷ is) j t m ≡ 0
unfolding entry_of
entry_of-absent i is j t m e = rw e refl

-- The entry `j` of a table that may be missing.
unfoldable pub read_in : (ℕ → ℕ → ℕ) → ℕ → Option ℕ → ℕ
read_in m j none = 0
read_in m j (some t) = m t j

-- The entry is read in the table that is found.
pub entry_of-descend :
    (is : List ℕ) (j t : ℕ) (m : ℕ → ℕ → ℕ) → entry_of is j t m ≡ read_in m j (descend is t m)
unfolding entry_of descend read_in
entry_of-descend [] j t m = refl
entry_of-descend (i ∷ is) j t m = elim (Bool-cases (present (m t i))) [
  | inl e ↦ rw e (entry_of-descend is j (table_of (m t i)) m)
  | inr e ↦ rw e refl
]

pub set_entry_self : (t i e : ℕ) (m : ℕ → ℕ → ℕ) → set_entry t i e m t i ≡ e
unfolding set_entry
set_entry_self t i e m = ap (λ f. f i) (update_self m t (update (m t) i e)) ∙ update_self (m t) i e

pub set_entry_ne :
    (t i e x j : ℕ) (m : ℕ → ℕ → ℕ) → ¬ ((t ≡ x) × (i ≡ j)) → set_entry t i e m x j ≡ m x j
unfolding set_entry
set_entry_ne t i e x j m h = elim (Bool-cases (t == x)) [
  | inl y ↦
      let same = (==_iff t x).0 y in
      let other : i ≢ j = λ q. h (same, q) in
      subst (λ z. update m t (update (m t) i e) z j ≡ m z j) same
        (ap (λ f. f j) (update_self m t (update (m t) i e)) ∙ update_ne (m t) i j e other)
  | inr y ↦ ap (λ f. f j) (update_ne m t x (update (m t) i e) (λ q. ground (arith, y, q)))
]
