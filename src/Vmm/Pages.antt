-- ===== src/Vmm/Pages.antt =====
-- The page map that the tables stand for: `pte_at` gives the entry of each page, and `get_pte` finds
-- where it stands.
use thuban.Base.{
  ℕ, ◌/◌, ◌%◌, ◌^◌, ◌≡◌, refl, ap, true, false, List, [], ◌∷◌, inl, inr, arith, Bool-cases, get_or,
}
use thuban.Vmm.{
  Vmm, pml4_idx, pdpt_idx, pd_idx, pt_idx, present, table_of, next_level, then_level, get_pte,
}
use Prim.{tt}
use thuban.Vmm.Tree.{Clear, descend, entry_of}
use thuban.Vmm.Walk.{IsTree, Reached, Reached-then}
use thuban.Vmm.Walk.Level.{next_level-Next}

abbrev pub route : ℕ → List ℕ
route virt = pml4_idx virt ∷ pdpt_idx virt ∷ pd_idx virt ∷ []

-- Does the way to the page of `virt` use none of the indices of arch/x86_64/boot.s?
unfoldable pub Unshared : ℕ → Type 0
Unshared virt = Clear 4 (route virt)

-- The entry of the page of `virt`, 0 where a table is missing.
unfoldable pub pte_at : (p4 virt : ℕ) → (ℕ → ℕ → ℕ) → ℕ
pte_at p4 virt m = entry_of (route virt) (pt_idx virt) p4 m

-- Are the two addresses in the same page, of the 2^36 pages that 48 bits name?
abbrev pub page_of : ℕ → ℕ
page_of virt = virt / 4096 % 2 ^ 36

pub route-page_of : (a b : ℕ) → route a ≡ route b → pt_idx a ≡ pt_idx b → page_of a ≡ page_of b
unfolding pml4_idx pdpt_idx pd_idx pt_idx get_or
route-page_of a b r l =
    let first : pml4_idx a ≡ pml4_idx b = ap (λ xs. get_or xs 0 0) r in
    let second : pdpt_idx a ≡ pdpt_idx b = ap (λ xs. get_or xs 1 0) r in
    let third : pd_idx a ≡ pd_idx b = ap (λ xs. get_or xs 2 0) r in
    omega (arith, first, second, third, l)

pub page_of-route : (a b : ℕ) → page_of a ≡ page_of b → (route a ≡ route b) × (pt_idx a ≡ pt_idx b)
unfolding pml4_idx pdpt_idx pd_idx pt_idx
page_of-route a b e = (
  (let first : pml4_idx a ≡ pml4_idx b = omega (arith, e) in
      let second : pdpt_idx a ≡ pdpt_idx b = omega (arith, e) in
      let third : pd_idx a ≡ pd_idx b = omega (arith, e) in rw (first, second, third) refl),
  omega (arith, e),
)

-- Without `create`, the tables stay as they are.
pub get_pte-false :
    (p4 virt : ℕ) (v : Vmm) → get_pte p4 false virt v ≡ (descend (route virt) p4 v.tables, v)
unfolding get_pte next_level descend
get_pte-false p4 virt v =
    let m = v.tables in
    let t1 = table_of (m p4 (pml4_idx virt)) in
    let t2 = table_of (m t1 (pdpt_idx virt)) in
    let t2 = table_of (m t1 (pdpt_idx virt)) in
    elim (Bool-cases (present (m p4 (pml4_idx virt)))) [
      | inl e ↦ elim (Bool-cases (present (m t1 (pdpt_idx virt)))) [
        | inl e' ↦ elim (Bool-cases (present (m t2 (pd_idx virt)))) [
          | inl e'' ↦ rw e (rw e' (rw e'' refl))
          | inr e'' ↦ rw e (rw e' (rw e'' refl))
        ]
        | inr e' ↦ rw e (rw e' refl)
      ]
      | inr e ↦ rw e refl
    ]

module _ (p4 : ℕ) where
  -- With `create`, what was mapped stays mapped and nothing else is; the table of the last level is
  -- found, unless the pages ran out.
  pub get_pte-Reached :
      (level : ℕ → ℕ) (virt : ℕ) (v : Vmm)
      → IsTree p4 level v
      → Unshared virt
      → Reached p4 level p4 (route virt) 1 v (get_pte p4 true virt v)
  unfolding get_pte Unshared Clear
  get_pte-Reached level virt v s c =
      Reached-then p4 level p4 3 1 (pml4_idx virt ∷ []) (pdpt_idx virt ∷ pd_idx virt ∷ []) v
        (next_level true p4 (pml4_idx virt) v)
        (λ pdpt v₁.
          then_level (next_level true pdpt (pdpt_idx virt) v₁)
            (λ pd v₂. next_level true pd (pd_idx virt) v₂))
        4 s.root (omega arith) (c.0, tt)
        (next_level-Next p4 level p4 (pml4_idx virt) 2 v s s.root c.0)
        (λ after pdpt v₁ s₁ h₁.
          Reached-then p4 after pdpt 2 1 (pdpt_idx virt ∷ []) (pd_idx virt ∷ []) v₁
            (next_level true pdpt (pdpt_idx virt) v₁) (λ pd v₂. next_level true pd (pd_idx virt) v₂)
            3 h₁ (omega arith) (c.1.0, tt)
            (next_level-Next p4 after pdpt (pdpt_idx virt) 1 v₁ s₁ h₁ c.1.0)
            (λ after' pd v₂ s₂ h₂. next_level-Next p4 after' pd (pd_idx virt) 0 v₂ s₂ h₂ c.1.1.0))
