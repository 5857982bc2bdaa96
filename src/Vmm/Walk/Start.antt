-- ===== src/Vmm/Walk/Start.antt =====
-- The tables that arch/x86_64/boot.s makes, from which the kernel starts.
use thuban.Base.{
  ℕ, suc, ◌+◌, ◌*◌, ◌<◌, ◌≡◌, ◌≢◌, refl, sym, ap, ◌∙◌, true, false, ◌==◌, ◌||◌, ==_iff,
  if◌then◌else◌, inl, inr, ◌⊎◌, arith, Bool-cases,
}
use mathlib.Core.Path.{subst}
use thuban.Pmm.Invariant.{in_use, IsValid}
use thuban.Vmm.{Vmm, present, table_of}
use thuban.Vmm.Tree.{boot_entry}
use thuban.Vmm.Walk.{page_at, IsTree}

-- `p4_table`, `p3_table` and `p2_table` in the pages of these numbers: the first and the last entry
-- of `p4_table` lead to `p3_table`, the entries 0 and 510 there to `p2_table`, and the entries there
-- to the first gigabyte, in pages of 2 MB.
unfoldable pub boot_tables : (p4 p3 p2 : ℕ) → ℕ → ℕ → ℕ
boot_tables p4 p3 p2 table index =
    if table == page_at p4
    then (if index == 0 || index == 511 then p3 * 4096 + 3 else 0)
    else if table == page_at p3
    then (if index == 0 || index == 510 then p2 * 4096 + 3 else 0)
    else if table == page_at p2
    then 0x200000 * index + 0x83
    else 0

abbrev pub boot_level : (p4 p3 : ℕ) → ℕ → ℕ
boot_level p4 p3 t = if t == page_at p4 then 4 else if t == page_at p3 then 3 else 0

boot_level-cases : (p4 p3 t : ℕ) → boot_level p4 p3 t ≢ 0 → (t ≡ page_at p4) ⊎ (t ≡ page_at p3)
boot_level-cases p4 p3 t h = elim (Bool-cases (t == page_at p4)) [
  | inl e ↦ inl ((==_iff t (page_at p4)).0 e)
  | inr e ↦ elim (Bool-cases (t == page_at p3)) [
    | inl e' ↦ inr ((==_iff t (page_at p3)).0 e')
    | inr e' ↦ (let none_else : boot_level p4 p3 t ≡ 0 = rw (e, e') refl in absurd (h none_else))
  ]
]

-- Of the entries that may not be any, one leads to a table.
only_way :
    (p4 p3 p2 t i n : ℕ)
    → boot_level p4 p3 t ≡ suc (suc n)
    → boot_entry (suc (suc n)) i ≡ false
    → present (boot_tables p4 p3 p2 t i) ≡ true
    → (t ≡ page_at p4) × (i ≡ 511) × (n ≡ 2) × (table_of (boot_tables p4 p3 p2 t i) ≡ page_at p3)
unfolding boot_tables boot_entry
only_way p4 p3 p2 t i n h b pr = elim (Bool-cases (t == page_at p4)) [
  | inl e ↦
      let at : boot_level p4 p3 t ≡ 4 = rw e refl in
      let two : n ≡ 2 = omega (arith, h, at) in
      let free : boot_entry 4 i ≡ false = subst (λ k. boot_entry (suc (suc k)) i ≡ false) two b in
      let entry : boot_tables p4 p3 p2 t i ≡ (if i == 0 || i == 511 then p3 * 4096 + 3 else 0) =
        rw e refl in
      let last : i ≡ 511 = ground (arith, free, sym (ap present entry) ∙ pr) in
      let way : boot_tables p4 p3 p2 t i ≡ p3 * 4096 + 3 = entry ∙ ground (arith, last) in
      ((==_iff t (page_at p4)).0 e, last, two, ap table_of way ∙ omega arith)
  | inr e ↦ elim (Bool-cases (t == page_at p3)) [
    | inl e' ↦
        let at : boot_level p4 p3 t ≡ 3 = rw (e, e') refl in
        let one : n ≡ 1 = omega (arith, h, at) in
        let free : boot_entry 3 i ≡ false = subst (λ k. boot_entry (suc (suc k)) i ≡ false) one b in
        let entry : boot_tables p4 p3 p2 t i ≡ (if i == 0 || i == 510 then p2 * 4096 + 3 else 0) =
          rw (e, e') refl in
        absurd (ground (arith, free, sym (ap present entry) ∙ pr))
    | inr e' ↦ let at : boot_level p4 p3 t ≡ 0 = rw (e, e') refl in absurd (omega (arith, h, at))
  ]
]

-- The tables of boot.s have the invariant `IsTree`, if the first two are in different pages, both
-- of them in use.
pub IsTree-boot_tables :
    (p4 p3 p2 : ℕ) (v : Vmm)
    → v.tables ≡ boot_tables p4 p3 p2
    → page_at p4 ≢ page_at p3
    → p4 < v.pmm.total_pages
    → p3 < v.pmm.total_pages
    → in_use v.pmm p4 ≡ true
    → in_use v.pmm p3 ≡ true
    → in_use v.pmm 0 ≡ true
    → IsValid v.pmm
    → IsTree (page_at p4) (boot_level p4 p3) v
IsTree-boot_tables p4 p3 p2 v made ne l4 l3 used4 used3 first valid =
    let level = boot_level p4 p3 in
    let way : (t i n : ℕ)
        → level t ≡ suc (suc n)
        → boot_entry (suc (suc n)) i ≡ false
        → present (v.tables t i) ≡ true
        → (t ≡ page_at p4) × (i ≡ 511) × (n ≡ 2) × (table_of (v.tables t i) ≡ page_at p3) =
      λ t i n h b pr.
        let same = ap (λ m. m t i) made in
        let (at, last, two, to) = only_way p4 p3 p2 t i n h b (ap present (sym same) ∙ pr) in
        (at, last, two, ap table_of same ∙ to) in
    let second : level (page_at p3) ≡ 3 = ground (arith, ne) in
    record {
      root = ground arith;
      shape = record {
        below = λ t i n h b pr.
            let (_, _, two, to) = way t i n h b pr in ap level to ∙ second ∙ omega (arith, two);
        single = λ t i u j n h h' b b' pr pr' q.
            let (at, last, _, _) = way t i n h b pr in
            let (at', last', _, _) = way u j n h' b' pr' in (at ∙ sym at', last ∙ sym last');
      };
      owned = λ t h. elim (boot_level-cases p4 p3 t h) [
        | inl e ↦ (p4, e, l4, used4)
        | inr e ↦ (p3, e, l3, used3)
      ];
      valid = valid;
      first_used = first;
    }
