-- ===== src/Vmm/Tree/Write.antt =====
-- An entry of a table of the last level is written: no way through the tables changes.
use thuban.Base.{
  ℕ, suc, ◌≡◌, refl, sym, ap, ◌∙◌, true, List, [], ◌∷◌, length, Option, none, some, inl, inr, arith,
  Bool-cases,
}
use mathlib.Core.Path.{subst}
use thuban.Vmm.{present, table_of, set_entry}
use thuban.Vmm.Tree.{
  Clear, descend, entry_of, IsShape, entry_of-descend, set_entry_self, set_entry_ne, read_in,
}

module _ (level : ℕ → ℕ) (m : ℕ → ℕ → ℕ) (s : IsShape level m) (pt : ℕ) (last : level pt ≡ 1)
    (k e : ℕ) where
  abbrev written : ℕ → ℕ → ℕ
  written = set_entry pt k e m

  same_above : (t i n : ℕ) → level t ≡ suc (suc n) → written t i ≡ m t i
  same_above t i n h =
      set_entry_ne pt k e t i m
        (λ (q, r). let clash = sym last ∙ ap level q ∙ h in omega (arith, clash))

  pub IsShape-set_entry : IsShape level written
  IsShape-set_entry = record {
    below = λ t i n h b pr.
        let same = same_above t i n h in
        subst (λ x. level (table_of x) ≡ suc n) (sym same)
          (s.below t i n h b (subst (λ x. present x ≡ true) same pr));
    single = λ t i u j n h h' b b' pr pr' q.
        let same = same_above t i n h in
        let same' = same_above u j n h' in
        s.single t i u j n h h' b b' (subst (λ x. present x ≡ true) same pr)
          (subst (λ x. present x ≡ true) same' pr')
          (sym (ap table_of same) ∙ q ∙ ap table_of same');
  }

  pub descend-set_entry :
      (is : List ℕ) (t : ℕ)
      → level t ≡ suc (length is)
      → Clear (suc (length is)) is
      → descend is t written ≡ descend is t m
  unfolding descend Clear
  descend-set_entry [] t h c = refl
  descend-set_entry (i ∷ is) t h c =
      let same = same_above t i (length is) h in
      elim (Bool-cases (present (m t i))) [
        | inl pr ↦
            rw (same, pr)
              (descend-set_entry is (table_of (m t i)) (s.below t i (length is) h c.0 pr) c.1)
        | inr pr ↦ rw (same, pr) refl
      ]

  -- The way to the table reads what was written.
  pub entry_of-set_entry_self :
      (is : List ℕ) (t : ℕ)
      → level t ≡ suc (length is)
      → Clear (suc (length is)) is
      → descend is t m ≡ some pt
      → entry_of is k t written ≡ e
  unfolding read_in
  entry_of-set_entry_self is t h c d =
      let found : descend is t written ≡ some pt = descend-set_entry is t h c ∙ d in
      entry_of-descend is k t written ∙ rw found (set_entry_self pt k e m)

  table_cases :
      (r : Option ℕ) (j : ℕ) → ¬ ((r ≡ some pt) × (k ≡ j)) → read_in written j r ≡ read_in m j r
  unfolding read_in
  table_cases none j other = refl
  table_cases (some p) j other = set_entry_ne pt k e p j m (λ (q, r). other (ap some (sym q), r))

  -- Another way, or another index, reads what was there.
  pub entry_of-set_entry_ne :
      (is : List ℕ) (j t : ℕ)
      → level t ≡ suc (length is)
      → Clear (suc (length is)) is
      → ¬ ((descend is t m ≡ some pt) × (k ≡ j))
      → entry_of is j t written ≡ entry_of is j t m
  entry_of-set_entry_ne is j t h c other =
      let same : read_in written j (descend is t m) ≡ read_in m j (descend is t m) =
        table_cases (descend is t m) j other in
      entry_of-descend is j t written
      ∙ rw (descend-set_entry is t h c) same
      ∙ sym (entry_of-descend is j t m)
