-- ===== src/Vmm/Translate.antt =====
-- What `vmm_get_phys` returns, and that it reads back what `vmm_map` wrote.
use thuban.Base.{
  ℕ, ◌+◌, ◌%◌, ◌<◌, ◌≡◌, refl, sym, ap, ◌∙◌, ◌==◌, if◌then◌else◌, Option, none, some, inl, inr, ◌⊎◌,
  arith, Bool-cases, bit_or,
}
use thuban.Vmm.{
  Vmm, pt_idx, present, frame, acquire, release, new_pte, vmm_map, vmm_unmap, vmm_get_phys,
}
use thuban.Vmm.Entries.{bit_or-frame, present-new_pte, frame-new_pte}
use thuban.Vmm.Tree.{descend, entry_of-descend, read_in}
use thuban.Vmm.Walk.{IsTree, Full}
use thuban.Vmm.Pages.{Unshared, route, pte_at, page_of, get_pte-false}
use thuban.Vmm.Map.{vmm_map-Maps, vmm_unmap-Written}

-- What an entry says of an address: where it is, or 0.
unfoldable pub translated : (entry virt : ℕ) → ℕ
translated entry virt = if present entry then bit_or (frame entry) (virt % 4096) else 0

pub translated-new_pte :
    (phys flags virt : ℕ)
    → flags < 4096
    → translated (new_pte phys flags) virt ≡ frame phys + virt % 4096
unfolding translated
translated-new_pte phys flags virt l =
    let e = frame-new_pte phys flags l in
    rw (present-new_pte phys flags)
      (ap (λ x. bit_or x (virt % 4096)) e ∙ bit_or-frame phys (virt % 4096) (omega arith))

translated-zero : (virt : ℕ) → translated 0 virt ≡ 0
unfolding translated
translated-zero virt = refl

module _ (p4 : ℕ) where
  found_or_zero :
      (virt : ℕ) (v : Vmm) (r : Option ℕ)
      → Path
          (ℕ × Vmm)
          (elim r [
            | none ↦ (0, release v)
            | some pt ↦
                (let entry = v.tables pt (pt_idx virt) in
                  (if present entry then bit_or (frame entry) (virt % 4096) else 0, release v))
          ])
          (translated (read_in v.tables (pt_idx virt) r) virt, release v)
  unfolding translated read_in
  found_or_zero virt v none = refl
  found_or_zero virt v (some pt) = refl

  pub vmm_get_phys-translated :
      (virt : ℕ) (v : Vmm)
      → vmm_get_phys p4 virt v ≡ (translated (pte_at p4 virt v.tables) virt, release (acquire v))
  unfolding vmm_get_phys pte_at acquire
  vmm_get_phys-translated virt v =
      let locked = acquire v in
      ap
        (λ x.
          let out : ℕ × Vmm = elim x.0 [
            | none ↦ (0, release x.1)
            | some pt ↦
                (let entry = x.1.tables pt (pt_idx virt) in
                  (if present entry then bit_or (frame entry) (virt % 4096) else 0, release x.1))
          ] in
          out)
        (get_pte-false p4 virt locked)
      ∙ found_or_zero virt locked (descend (route virt) p4 locked.tables)
      ∙ ap (λ e. (translated e virt, release locked))
          (sym (entry_of-descend (route virt) (pt_idx virt) p4 v.tables))

  -- The address that `vmm_get_phys` returns.
  phys_eq :
      (virt : ℕ) (v : Vmm) → (vmm_get_phys p4 virt v).0 ≡ translated (pte_at p4 virt v.tables) virt
  phys_eq virt v = ap (λ x. x.0) (vmm_get_phys-translated virt v)

  -- For tables with the invariant `IsTree`, an address that is `Unshared` and flags below 4096:
  -- after `vmm_map`, `vmm_get_phys` returns for every address of the mapped page the frame of
  -- `phys` with the offset in the page, and for every other `Unshared` address what it returned
  -- before; or all pages are in use, and it returns for every `Unshared` address what it returned
  -- before.
  pub vmm_get_phys-vmm_map :
      (level : ℕ → ℕ) (virt phys flags : ℕ) (v : Vmm)
      → IsTree p4 level v
      → Unshared virt
      → flags < 4096
      → let w = vmm_map p4 virt phys flags v in
        (Full w × ((x : ℕ) → Unshared x → (vmm_get_phys p4 x w).0 ≡ (vmm_get_phys p4 x v).0))
        ⊎ ((x : ℕ)
            → Unshared x
            → (vmm_get_phys p4 x w).0 ≡ (
                if page_of virt == page_of x
                then frame phys + x % 4096
                else (vmm_get_phys p4 x v).0))
  vmm_get_phys-vmm_map level virt phys flags v s c l =
      let w = vmm_map p4 virt phys flags v in
      let (_, _, outcome) = vmm_map-Maps p4 level virt phys flags v s c in
      elim outcome [
        | inl (full, same) ↦
            inl
              (full, λ x cx. phys_eq x w ∙ ap (λ e. translated e x) (same x cx) ∙ sym (phys_eq x v))
        | inr written ↦ inr (λ x cx.
            phys_eq x w
            ∙ ap (λ e. translated e x) (written x cx)
            ∙ elim (Bool-cases (page_of virt == page_of x)) [
              | inl e ↦ rw e (translated-new_pte phys flags x l)
              | inr e ↦ rw e (sym (phys_eq x v))
            ])
      ]

  -- For an `Unshared` address, `vmm_unmap` keeps the invariant `IsTree`; `vmm_get_phys` then returns
  -- 0 for every address of the page, and for every other `Unshared` address what it returned before.
  pub vmm_get_phys-vmm_unmap :
      (level : ℕ → ℕ) (virt : ℕ) (v : Vmm)
      → IsTree p4 level v
      → Unshared virt
      → let w = vmm_unmap p4 virt v in
        IsTree p4 level w
        × ((x : ℕ)
            → Unshared x
            → (vmm_get_phys p4 x w).0
              ≡ (if page_of virt == page_of x then 0 else (vmm_get_phys p4 x v).0))
  vmm_get_phys-vmm_unmap level virt v s c =
      let w = vmm_unmap p4 virt v in
      let (tree, written) = vmm_unmap-Written p4 level virt v s c in
      (
        tree,
        λ x cx.
            phys_eq x w
            ∙ ap (λ e. translated e x) (written x cx)
            ∙ elim (Bool-cases (page_of virt == page_of x)) [
              | inl e ↦ rw e (translated-zero x)
              | inr e ↦ rw e (sym (phys_eq x v))
            ],
      )
