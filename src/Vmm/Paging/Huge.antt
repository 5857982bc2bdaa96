-- ===== src/Vmm/Paging/Huge.antt =====
-- mm/paging.c beside mm/vmm.c: they agree where no page is larger than 4 KB.
use thuban.Base.{
  ℕ, ◌≡◌, refl, sym, ap, ◌∙◌, true, false, [], ◌∷◌, Option, none, some, inl, inr, ◌⊎◌, Bool-cases,
}
use mathlib.Core.Option
use mathlib.Core.Path.{subst}
use thuban.Vmm.{
  Vmm, pml4_idx, pdpt_idx, pd_idx, pt_idx, present, table_of, new_pte, vmm_get_phys, vmm_unmap,
  acquire, release, write_pte, set_entry,
}
use thuban.Vmm.Tree.{descend, entry_of, descend-level}
use thuban.Vmm.Pages.{Unshared, route, pte_at, get_pte-false}
use thuban.Vmm.Walk.{IsTree}
use thuban.Vmm.Map.{Written, IsTree-write_pte, write_pte-Written}
use thuban.Vmm.Translate.{translated, vmm_get_phys-translated}
use thuban.Vmm.Paging.{
  huge, lower, last_table, paging_map, paging_unmap, small_page, from_pd, from_pdpt,
  paging_get_phys,
}

module _ (p4 virt : ℕ) where
  -- No present entry on the way to the page of `virt` is one of a larger page.
  pub record OnlySmall (m : ℕ → ℕ → ℕ) : Type 0 where
    pub pdpt_small :
        (t : ℕ)
        → descend (pml4_idx virt ∷ []) p4 m ≡ some t
        → present (m t (pdpt_idx virt)) ≡ true
        → huge (m t (pdpt_idx virt)) ≡ false
    pub pd_small :
        (t : ℕ)
        → descend (pml4_idx virt ∷ pdpt_idx virt ∷ []) p4 m ≡ some t
        → present (m t (pd_idx virt)) ≡ true
        → huge (m t (pd_idx virt)) ≡ false

  last_table-descend : (m : ℕ → ℕ → ℕ) → last_table p4 virt m ≡ descend (route virt) p4 m
  unfolding last_table lower descend Option.bind
  last_table-descend m =
      let t1 = table_of (m p4 (pml4_idx virt)) in
      elim (Bool-cases (present (m p4 (pml4_idx virt)))) [
        | inl e ↦ rw e (elim (Bool-cases (present (m t1 (pdpt_idx virt)))) [
          | inl e' ↦ rw e' refl
          | inr e' ↦ rw e' refl
        ])
        | inr e ↦ rw e refl
      ]

  get_phys-pte_at :
      (m : ℕ → ℕ → ℕ) → OnlySmall m → paging_get_phys p4 virt m ≡ translated (pte_at p4 virt m) virt
  unfolding paging_get_phys from_pdpt from_pd small_page pte_at entry_of translated descend
  get_phys-pte_at m o =
      let e1 = m p4 (pml4_idx virt) in
      let e2 = m (table_of e1) (pdpt_idx virt) in
      let e3 = m (table_of e2) (pd_idx virt) in
      elim (Bool-cases (present e1)) [
        | inl a ↦ elim (Bool-cases (present e2)) [
          | inl b ↦
              let small = o.pdpt_small (table_of e1) (rw a refl) b in
              elim (Bool-cases (present e3)) [
                | inl c ↦
                    let small' = o.pd_small (table_of e2) (rw (a, b) refl) c in
                    elim (Bool-cases (present (m (table_of e3) (pt_idx virt)))) [
                      | inl d ↦ rw (a, b, small, c, small', d) refl
                      | inr d ↦ rw (a, b, small, c, small', d) refl
                    ]
                | inr c ↦ rw (a, b, small, c) refl
              ]
          | inr b ↦ rw (a, b) refl
        ]
        | inr a ↦ rw a refl
      ]

  -- Where no present entry on the way to an address is one of a page larger than 4 KB,
  -- `paging_get_phys` and `vmm_get_phys` return the same.
  pub paging_get_phys-vmm_get_phys :
      (v : Vmm) → OnlySmall v.tables → paging_get_phys p4 virt v.tables ≡ (vmm_get_phys p4 virt v).0
  paging_get_phys-vmm_get_phys v o =
      get_phys-pte_at v.tables o ∙ sym (ap (λ x. x.0) (vmm_get_phys-translated p4 virt v))

  same_write :
      (v : Vmm) (r : Option ℕ)
      → let w : Vmm = elim r [ none ↦ release v | some pt ↦ release (write_pte p4 pt virt 0 v) ] in
        Path
          (ℕ → ℕ → ℕ)
          (elim r [ none ↦ v.tables | some pt ↦ set_entry pt (pt_idx virt) 0 v.tables ])
          w.tables
  unfolding release
  same_write v none = refl
  same_write v (some pt) = refl

  -- `paging_unmap` leaves the tables that `vmm_unmap` leaves.
  pub paging_unmap-vmm_unmap :
      (v : Vmm) → paging_unmap p4 virt v.tables ≡ (vmm_unmap p4 virt v).tables
  unfolding paging_unmap vmm_unmap acquire release
  paging_unmap-vmm_unmap v =
      let locked = acquire v in
      ap
        (λ r.
          let m : ℕ → ℕ → ℕ = elim r [
            | none ↦ v.tables
            | some pt ↦ set_entry pt (pt_idx virt) 0 v.tables
          ] in
          m)
        (last_table-descend v.tables)
      ∙ same_write locked (descend (route virt) p4 v.tables)
      ∙ ap
          (λ x.
            let w : Vmm = elim x.0 [
              | none ↦ release x.1
              | some pt ↦ release (write_pte p4 pt virt 0 x.1)
            ] in
            w.tables)
          (sym (get_pte-false p4 virt locked))

  -- `paging_map`, once the table is known.
  abbrev mapped : (phys flags : ℕ) → Option ℕ → (ℕ → ℕ → ℕ) → ℕ → ℕ → ℕ
  mapped phys flags r m = elim r [
    | none ↦ m
    | some pt ↦ set_entry pt (pt_idx virt) (new_pte phys flags) m
  ]

  mapped-Written :
      (level : ℕ → ℕ) (phys flags : ℕ) (v : Vmm) (r : Option ℕ)
      → IsTree p4 level v
      → Unshared virt
      → descend (route virt) p4 v.tables ≡ r
      → let w : Vmm = record v { tables = mapped phys flags r v.tables } in
        ((descend (route virt) p4 v.tables ≡ none) × (w.tables ≡ v.tables))
        ⊎ (IsTree p4 level w × Written p4 virt (new_pte phys flags) v w)
  unfolding Unshared
  mapped-Written level phys flags v none s c d = inl (d, refl)
  mapped-Written level phys flags v (some pt) s c d =
      let last : level pt ≡ 1 =
        descend-level (route virt) p4 pt level v.tables s.shape s.root c d in
      inr (
        IsTree-write_pte p4 level pt virt (new_pte phys flags) v s last,
        write_pte-Written p4 level pt virt (new_pte phys flags) v s last c d,
      )

  -- For an `Unshared` address, `paging_map` changes the entry of the one page, of all `Unshared`
  -- ones, and keeps the invariant `IsTree`; or a table is missing, and the tables stay.
  pub paging_map-Written :
      (level : ℕ → ℕ) (phys flags : ℕ) (v : Vmm)
      → IsTree p4 level v
      → Unshared virt
      → let w = record v { tables = paging_map p4 virt phys flags v.tables } in
        ((descend (route virt) p4 v.tables ≡ none) × (w.tables ≡ v.tables))
        ⊎ (IsTree p4 level w × Written p4 virt (new_pte phys flags) v w)
  unfolding paging_map
  paging_map-Written level phys flags v s c =
      subst
        (λ r.
          let w : Vmm = record v { tables = mapped phys flags r v.tables } in
          ((descend (route virt) p4 v.tables ≡ none) × (w.tables ≡ v.tables))
          ⊎ (IsTree p4 level w × Written p4 virt (new_pte phys flags) v w))
        (sym (last_table-descend v.tables))
        (mapped-Written level phys flags v (descend (route virt) p4 v.tables) s c refl)
