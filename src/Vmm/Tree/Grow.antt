-- ===== src/Vmm/Tree/Grow.antt =====
-- A new table, all of whose entries are 0, is put in the place of an entry that was not present:
-- what was mapped stays mapped, and nothing else is.
use thuban.Base.{
  ℕ, zero, suc, ◌<◌, ◌≡◌, ◌≢◌, sym, ap, ◌∙◌, true, false, ◌==◌, List, [], ◌∷◌, length, some, inl,
  inr, ◌⊎◌, arith, Bool-cases, ==_iff, ◌&&◌,
}
use mathlib.Core.Path.{subst}
use thuban.Base.Store.{update, update_self, update_ne}
use thuban.Vmm.{present, table_of, set_entry}
use thuban.Vmm.Tree.{
  Clear, descend, entry_of, IsShape, descend-present, entry_of-present, entry_of-absent,
  set_entry_self, set_entry_ne,
}

module _ (level : ℕ → ℕ) (m : ℕ → ℕ → ℕ) (s : IsShape level m) (table index made new n : ℕ)
    (here : level table ≡ suc (suc n)) (absent : present (m table index) ≡ false)
    (unused : level new ≡ 0) (is_made : present made ≡ true) (leads : table_of made ≡ new) where
  abbrev grown : ℕ → ℕ → ℕ
  grown = set_entry table index made (update m new (λ _. 0))

  abbrev level_after : ℕ → ℕ
  level_after = update level new (suc n)

  fresh : (x : ℕ) → level x ≢ 0 → new ≢ x
  fresh x h q = h (ap level (sym q) ∙ unused)

  pub level-kept : (x : ℕ) → level x ≢ 0 → level_after x ≡ level x
  level-kept x h = update_ne level new x (suc n) (fresh x h)

  -- A present entry of a table stays.
  kept : (x i : ℕ) → level x ≢ 0 → present (m x i) ≡ true → grown x i ≡ m x i
  kept x i h pr =
      set_entry_ne table index made x i (update m new (λ _. 0)) (λ (q, r).
        let same = ap (λ y. present (m y index)) q ∙ ap (λ j. present (m x j)) r in
        let clash : false ≡ true = sym absent ∙ same ∙ pr in cc)
      ∙ ap (λ f. f i) (update_ne m new x (λ _. 0) (fresh x h))

  other : (x i : ℕ) → level x ≢ 0 → ¬ ((table ≡ x) × (index ≡ i)) → grown x i ≡ m x i
  other x i h away =
      set_entry_ne table index made x i (update m new (λ _. 0)) away
      ∙ ap (λ f. f i) (update_ne m new x (λ _. 0) (fresh x h))

  here_made : grown table index ≡ made
  here_made = set_entry_self table index made (update m new (λ _. 0))

  empty : (i : ℕ) → grown new i ≡ 0
  empty i =
      set_entry_ne table index made new i (update m new (λ _. 0))
        (λ (q, r). let clash = sym here ∙ ap level q ∙ unused in omega (arith, clash))
      ∙ ap (λ f. f i) (update_self m new (λ _. 0))

  -- The present entries above the last level: the new one, and those that were there.
  Origin : (x i k : ℕ) → Type 0
  Origin x i k =
      ((table ≡ x) × (index ≡ i) × (table_of (grown x i) ≡ new) × (n ≡ k))
      ⊎ ((level x ≡ suc (suc k)) × (present (m x i) ≡ true) × (grown x i ≡ m x i))

  origin : (x i k : ℕ) → level_after x ≡ suc (suc k) → present (grown x i) ≡ true → Origin x i k
  unfolding Origin
  origin x i k h pr = elim (Bool-cases (new == x)) [
    | inl e ↦
        let q = (==_iff new x).0 e in
        let gone : grown x i ≡ 0 = subst (λ z. grown z i ≡ 0) q (empty i) in
        let clash : false ≡ true = sym (ap present gone) ∙ pr in absurd cc
    | inr e ↦
        let old : level x ≡ suc (suc k) =
          sym (update_ne level new x (suc n) (λ q. ground (arith, e, q))) ∙ h in
        let table_above : level x ≢ 0 = λ z. omega (arith, z, old) in
        elim (Bool-cases (table == x)) [
          | inl t ↦ elim (Bool-cases (index == i)) [
            | inl j ↦
                let qt = (==_iff table x).0 t in
                let qi = (==_iff index i).0 j in
                let made_here : grown x i ≡ made =
                  subst (λ z. grown z i ≡ made) qt
                    (subst (λ z. grown table z ≡ made) qi here_made) in
                let levels = sym here ∙ ap level qt ∙ old in
                inl (qt, qi, ap table_of made_here ∙ leads, omega (arith, levels))
            | inr j ↦
                let same = other x i table_above (λ (q, r). ground (arith, j, r)) in
                inr (old, subst (λ y. present y ≡ true) same pr, same)
          ]
          | inr t ↦
              let same = other x i table_above (λ (q, r). ground (arith, t, q)) in
              inr (old, subst (λ y. present y ≡ true) same pr, same)
        ]
  ]

  pub IsShape-grown : IsShape level_after grown
  unfolding Origin
  IsShape-grown = record {
    below = λ x i k h b pr. elim (origin x i k h pr) [
      | inl (_, _, q, same) ↦ ap level_after q ∙ update_self level new (suc n) ∙ ap suc same
      | inr (old, was, same) ↦
          let next = s.below x i k old b was in
          ap level_after (ap table_of same)
          ∙ level-kept (table_of (m x i)) (λ z. omega (arith, z, next))
          ∙ next
    ];
    single = λ x i u j k h h' b b' pr pr' q. elim (origin x i k h pr) [
      | inl (t, index_i, to_new, _) ↦ elim (origin u j k h' pr') [
        | inl (t', index_j, _, _) ↦ (sym t ∙ t', sym index_i ∙ index_j)
        | inr (old, was, same) ↦
            let next = s.below u j k old b' was in
            let lost = ap level (sym (ap table_of same) ∙ sym q ∙ to_new) ∙ unused in
            absurd (omega (arith, next, lost))
      ]
      | inr (old, was, same) ↦ elim (origin u j k h' pr') [
        | inl (_, _, to_new, _) ↦
            let next = s.below x i k old b was in
            let lost = ap level (sym (ap table_of same) ∙ q ∙ to_new) ∙ unused in
            absurd (omega (arith, next, lost))
        | inr (old', was', same') ↦
            s.single x i u j k old old' b b' was was'
              (sym (ap table_of same) ∙ q ∙ ap table_of same')
      ]
    ];
  }

  -- What the ways through the tables lead to stays.
  pub descend-grown :
      (is : List ℕ) (t p k : ℕ)
      → level t ≡ k
      → length is < k
      → Clear k is
      → descend is t m ≡ some p
      → descend is t grown ≡ some p
  unfolding descend Clear
  descend-grown [] t p k e h c d = d
  descend-grown (i ∷ is) t p zero e h c d = absurd (omega (arith, h))
  descend-grown (i ∷ is) t p (suc zero) e h c d = absurd (omega (arith, h))
  descend-grown (i ∷ is) t p (suc (suc k)) e h c d =
      let (pr, rest) = descend-present i is t p m d in
      let same = kept t i (λ z. omega (arith, z, e)) pr in
      let next = s.below t i k e c.0 pr in
      rw (same, pr) (descend-grown is (table_of (m t i)) p (suc k) next (omega (arith, h)) c.1 rest)

  entry_of-empty : (is : List ℕ) (j : ℕ) → entry_of is j new grown ≡ 0
  unfolding entry_of
  entry_of-empty [] j = empty j
  entry_of-empty (i ∷ is) j = entry_of-absent i is j new grown (ap present (empty i))

  entry_of-absent_before :
      (i : ℕ) (is : List ℕ) (j t : ℕ)
      → level t ≢ 0
      → present (m t i) ≡ false
      → entry_of (i ∷ is) j t grown ≡ entry_of (i ∷ is) j t m
  entry_of-absent_before i is j t h ab =
      let zero_before = entry_of-absent i is j t m ab in
      elim (Bool-cases (table == t && index == i)) [
        | inl e ↦
            let qt : table ≡ t = ground (arith, e) in
            let qi : index ≡ i = ground (arith, e) in
            let there : grown t i ≡ made =
              subst (λ z. grown z i ≡ made) qt (subst (λ z. grown table z ≡ made) qi here_made) in
            entry_of-present i is j t grown (ap present there ∙ is_made)
            ∙ ap (λ y. entry_of is j y grown) (ap table_of there ∙ leads)
            ∙ entry_of-empty is j
            ∙ sym zero_before
        | inr e ↦
            let same = other t i h (λ (q, r). ground (arith, e, q, r)) in
            entry_of-absent i is j t grown (ap present same ∙ ab) ∙ sym zero_before
      ]

  -- Each way to the last level reads the entry that it read before.
  pub entry_of-grown :
      (is : List ℕ) (j t : ℕ)
      → level t ≡ suc (length is)
      → Clear (suc (length is)) is
      → entry_of is j t grown ≡ entry_of is j t m
  unfolding entry_of Clear
  entry_of-grown [] j t h c =
      other t j (λ z. omega (arith, z, h))
        (λ (q, r). let clash = sym here ∙ ap level q ∙ h in omega (arith, clash))
  entry_of-grown (i ∷ is) j t h c =
      let table_above : level t ≢ 0 = λ z. omega (arith, z, h) in
      elim (Bool-cases (present (m t i))) [
        | inl pr ↦
            let same = kept t i table_above pr in
            let next = s.below t i (length is) h c.0 pr in
            rw (same, pr) (entry_of-grown is j (table_of (m t i)) next c.1)
        | inr pr ↦ entry_of-absent_before i is j t table_above pr
      ]

  pub descend-made : descend (index ∷ []) table grown ≡ some new
  unfolding descend
  descend-made = rw (here_made, is_made) (ap some leads)
