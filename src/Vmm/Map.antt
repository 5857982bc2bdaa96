-- ===== src/Vmm/Map.antt =====
-- What `vmm_map`, `vmm_unmap` and `vmm_get_phys` do to the page map.
use thuban.Base.{
  ℕ, ◌≡◌, refl, sym, ap, ◌∙◌, true, ◌==◌, if◌then◌else◌, Option, none, some, inl, inr, ◌⊎◌, arith,
  Bool-cases, ==_iff,
}
use mathlib.Core.Path.{subst}
use mathlib.Core.Option.{some-injective}
use thuban.Lock.{Guard, spin_unlock}
use thuban.Vmm.{
  Vmm, pt_idx, get_pte, write_pte, set_entry, acquire, release, new_pte, vmm_map, vmm_unmap,
}
use thuban.Vmm.Tree.{
  IsShape, descend, entry_of, entry_of-descend, descend_unique, descend-level, read_in,
}
use thuban.Vmm.Tree.Write.{IsShape-set_entry, entry_of-set_entry_self, entry_of-set_entry_ne}
use thuban.Vmm.Walk.{IsTree, Full, Reached}
use thuban.Vmm.Pages.{
  Unshared, route, pte_at, page_of, route-page_of, page_of-route, get_pte-false, get_pte-Reached,
}

module _ (p4 : ℕ) where
  -- The page map of `w` is that of `v` with another entry for the page of `virt`.
  abbrev pub Written : (virt entry : ℕ) → Vmm → Vmm → Type 0
  Written virt entry v w =
      (x : ℕ)
      → Unshared x
      → pte_at p4 x w.tables ≡ (if page_of virt == page_of x then entry else pte_at p4 x v.tables)

  pub IsTree-same :
      (level : ℕ → ℕ) (v : Vmm) (g : Guard) (a : ℕ)
      → IsTree p4 level v
      → IsTree p4 level (record v { guard = g; next_virt_addr = a })
  IsTree-same level v g a s = record {
    root = s.root;
    shape = s.shape;
    owned = s.owned;
    valid = s.valid;
    first_used = s.first_used;
  }

  pub IsTree-write_pte :
      (level : ℕ → ℕ) (pt virt entry : ℕ) (v : Vmm)
      → IsTree p4 level v
      → level pt ≡ 1
      → IsTree p4 level (write_pte p4 pt virt entry v)
  IsTree-write_pte level pt virt entry v s last = record {
    root = s.root;
    shape = IsShape-set_entry level v.tables s.shape pt last (pt_idx virt) entry;
    owned = s.owned;
    valid = s.valid;
    first_used = s.first_used;
  }

  -- One written entry changes the entry of one page.
  pub written-pte_at :
      (level : ℕ → ℕ) (pt virt entry : ℕ) (m : ℕ → ℕ → ℕ)
      → IsShape level m
      → level p4 ≡ 4
      → level pt ≡ 1
      → Unshared virt
      → descend (route virt) p4 m ≡ some pt
      → (x : ℕ) → Unshared x
      → pte_at p4 x (set_entry pt (pt_idx virt) entry m)
        ≡ (if page_of virt == page_of x then entry else pte_at p4 x m)
  unfolding pte_at Unshared
  written-pte_at level pt virt entry m s root last c d x cx =
      let k = pt_idx virt in
      elim (Bool-cases (page_of virt == page_of x)) [
        | inl e ↦
            let (r, i) = page_of-route virt x ((==_iff (page_of virt) (page_of x)).0 e) in
            rw e (
              subst (λ is. entry_of is (pt_idx x) p4 (set_entry pt (pt_idx virt) entry m) ≡ entry) r
                (subst
                  (λ j. entry_of (route virt) j p4 (set_entry pt (pt_idx virt) entry m) ≡ entry) i
                  (entry_of-set_entry_self level m s pt last k entry (route virt) p4 root c d)))
        | inr e ↦ rw e (
            entry_of-set_entry_ne level m s pt last k entry (route x) (pt_idx x) p4 root cx
              (λ (d', i).
                let (_, r) =
                  descend_unique (route virt) (route x) p4 p4 pt level m s root root refl c cx d
                    d' in
                let same = route-page_of virt x r i in ground (arith, e, same)))
      ]

  pub write_pte-Written :
      (level : ℕ → ℕ) (pt virt entry : ℕ) (v : Vmm)
      → IsTree p4 level v
      → level pt ≡ 1
      → Unshared virt
      → descend (route virt) p4 v.tables ≡ some pt
      → Written virt entry v (write_pte p4 pt virt entry v)
  write_pte-Written level pt virt entry v s last c d =
      written-pte_at level pt virt entry v.tables s.shape s.root last c d

  -- The outcomes of a call that writes the entry of the page of `virt`: all pages are in use and no
  -- mapping has changed, or exactly this one has.
  abbrev pub Maps : (virt entry : ℕ) → Vmm → Vmm → Type 0
  Maps virt entry v w =
      (after : ℕ → ℕ) × IsTree p4 after w
      × ((Full w × ((x : ℕ) → Unshared x → pte_at p4 x w.tables ≡ pte_at p4 x v.tables))
          ⊎ Written virt entry v w)

  map_found :
      (level : ℕ → ℕ) (virt entry : ℕ) (v : Vmm) (x : Option ℕ × Vmm)
      → IsTree p4 level v
      → Unshared virt
      → Reached p4 level p4 (route virt) 1 v x
      → Maps virt entry v
          (elim x.0 [ none ↦ release x.1 | some pt ↦ release (write_pte p4 pt virt entry x.1) ])
  unfolding release pte_at Unshared
  map_found level virt entry v (none, w) s c (e, inl (q, full)) = (
    e.level_after,
    IsTree-same e.level_after w (spin_unlock w.guard) w.next_virt_addr e.tree,
    inl (full, λ y cy. e.entries (route y) (pt_idx y) p4 s.root cy),
  )
  map_found level virt entry v (none, w) s c (e, inr (p, q, _, _)) = absurd cc
  map_found level virt entry v (some p, w) s c (e, inl (q, full)) = absurd cc
  map_found level virt entry v (some p, w) s c (e, inr (p', q, at, d)) =
      let same : p' ≡ p = sym (some-injective p p' q) in
      let last : e.level_after p ≡ 1 = ap e.level_after (sym same) ∙ at in
      let u = write_pte p4 p virt entry w in
      (
        e.level_after,
        IsTree-same e.level_after u (spin_unlock u.guard) u.next_virt_addr
            (IsTree-write_pte e.level_after p virt entry w e.tree last),
        inr (λ y cy.
            write_pte-Written e.level_after p virt entry w e.tree last c (d ∙ ap some same) y cy
            ∙ ap (λ b. if page_of virt == page_of y then entry else b)
                (e.entries (route y) (pt_idx y) p4 s.root cy)),
      )

  pub vmm_map-Maps :
      (level : ℕ → ℕ) (virt phys flags : ℕ) (v : Vmm)
      → IsTree p4 level v
      → Unshared virt
      → Maps virt (new_pte phys flags) v (vmm_map p4 virt phys flags v)
  unfolding vmm_map acquire
  vmm_map-Maps level virt phys flags v s c =
      let locked = acquire v in
      let tree = IsTree-same level v locked.guard v.next_virt_addr s in
      map_found level virt (new_pte phys flags) locked (get_pte p4 true virt locked) tree c
        (get_pte-Reached p4 level virt locked tree c)

  -- The page map where the table is missing.
  missing-Written :
      (virt : ℕ) (v : Vmm) → descend (route virt) p4 v.tables ≡ none → Written virt 0 v v
  unfolding pte_at read_in
  missing-Written virt v d x cx = elim (Bool-cases (page_of virt == page_of x)) [
    | inl e ↦
        let (r, i) = page_of-route virt x ((==_iff (page_of virt) (page_of x)).0 e) in
        rw e (
          entry_of-descend (route x) (pt_idx x) p4 v.tables
          ∙ ap (read_in v.tables (pt_idx x)) (ap (λ is. descend is p4 v.tables) (sym r) ∙ d))
    | inr e ↦ rw e refl
  ]

  vmm_unmap-found :
      (level : ℕ → ℕ) (virt : ℕ) (v : Vmm) (r : Option ℕ)
      → IsTree p4 level v
      → Unshared virt
      → descend (route virt) p4 v.tables ≡ r
      → let w : Vmm = elim r [ none ↦ release v | some pt ↦ release (write_pte p4 pt virt 0 v) ] in
        IsTree p4 level w × Written virt 0 v w
  unfolding release Unshared
  vmm_unmap-found level virt v none s c d =
      (IsTree-same level v (spin_unlock v.guard) v.next_virt_addr s, missing-Written virt v d)
  vmm_unmap-found level virt v (some pt) s c d =
      let last : level pt ≡ 1 =
        descend-level (route virt) p4 pt level v.tables s.shape s.root c d in
      let u = write_pte p4 pt virt 0 v in
      (
        IsTree-same level u (spin_unlock u.guard) u.next_virt_addr
            (IsTree-write_pte level pt virt 0 v s last),
        write_pte-Written level pt virt 0 v s last c d,
      )

  pub vmm_unmap-Written :
      (level : ℕ → ℕ) (virt : ℕ) (v : Vmm)
      → IsTree p4 level v
      → Unshared virt
      → IsTree p4 level (vmm_unmap p4 virt v) × Written virt 0 v (vmm_unmap p4 virt v)
  unfolding vmm_unmap acquire
  vmm_unmap-Written level virt v s c =
      let locked = acquire v in
      let tree = IsTree-same level v locked.guard v.next_virt_addr s in
      subst
        (λ x.
          let w : Vmm = elim x.0 [
            | none ↦ release x.1
            | some pt ↦ release (write_pte p4 pt virt 0 x.1)
          ] in
          IsTree p4 level w × Written virt 0 v w)
        (sym (get_pte-false p4 virt locked))
        (vmm_unmap-found level virt locked (descend (route virt) p4 locked.tables) tree c refl)
