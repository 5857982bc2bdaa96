-- ===== src/Vmm/Free.antt =====
-- One round of the loop of `vmm_free`: one page is unmapped, and its frame is freed.
pub mod Loop
use thuban.Base.{
  ℕ, zero, suc, ◌+◌, ◌-◌, ◌*◌, ◌/◌, ◌%◌, ◌^◌, ◌<◌, ◌≤◌, ◌≡◌, ◌≢◌, refl, sym, ap, ◌∙◌, Bool, true,
  false, not, ◌==◌, if◌then◌else◌, List, [], ◌∷◌, length, Option, none, some, inl, inr, ◌⊎◌, arith,
  Bool-cases, ==_iff, ◌||◌, leb,
}
use mathlib.Core.Path.{subst}
use thuban.Pmm.{Pmm, null, pmm_free}
use thuban.Pmm.Invariant.{in_use}
use thuban.Pmm.Release.{in_use-pmm_free, in_use-pmm_free_ignored, total-pmm_free}
use thuban.Vmm.{
  Vmm, pt_idx, present, frame, get_pte, write_pte, set_entry, acquire, release, unmap_loop,
  vmm_free,
}
use thuban.Vmm.Tree.{IsShape, descend, descend-level, entry_of-descend, read_in}
use thuban.Vmm.Tree.Write.{IsShape-set_entry}
use thuban.Vmm.Pages.{Unshared, route, pte_at, page_of, page_of-route, get_pte-false}
use thuban.Vmm.Map.{written-pte_at}
use thuban.Vmm.Alloc.{pages_past, nth_page, pages_past-nth_page}

-- Freeing a frame: its page is free afterwards, and no other page changes.
pmm_free-frame :
    (a : ℕ) (p : Pmm)
    → a ≢ null
    → a / 4096 < p.total_pages
    → in_use (pmm_free a p) (a / 4096) ≡ false
pmm_free-frame a p nz fits = elim (Bool-cases (in_use p (a / 4096))) [
  | inl used ↦ in_use-pmm_free a (a / 4096) p nz fits used ∙ ground arith
  | inr free ↦ (in_use-pmm_free_ignored a (a / 4096) p (inr (inr free))).0 ∙ free
]

pmm_free-other : (a j : ℕ) (p : Pmm) → a / 4096 ≢ j → in_use (pmm_free a p) j ≡ in_use p j
pmm_free-other a j p ne =
    elim (Bool-cases (a == null || leb p.total_pages (a / 4096) || not (in_use p (a / 4096)))) [
      | inl e ↦ (in_use-pmm_free_ignored a j p (ground (arith, e))).0
      | inr e ↦
          in_use-pmm_free a j p (λ z. ground (arith, e, z)) (ground (arith, e)) (ground (arith, e))
          ∙ ground (arith, ne)
    ]

pmm_free-free : (a j : ℕ) (p : Pmm) → in_use p j ≡ false → in_use (pmm_free a p) j ≡ false
pmm_free-free a j p free = elim (Bool-cases (a / 4096 == j)) [
  | inl e ↦
      let q = (==_iff (a / 4096) j).0 e in
      (in_use-pmm_free_ignored a j p (inr (inr (ap (in_use p) q ∙ free)))).0 ∙ free
  | inr e ↦ pmm_free-other a j p (λ q. ground (arith, e, q)) ∙ free
]

module _ (p4 virt : ℕ) where
  -- One round.
  abbrev pub round : (i : ℕ) → Option ℕ → Vmm → Vmm
  round i r w = elim r [
    | none ↦ w
    | some pt ↦
        (let entry = w.tables pt (pt_idx (nth_page virt i)) in
          if present entry
          then write_pte p4 pt (nth_page virt i) 0 (record w { pmm = pmm_free (frame entry) w.pmm })
          else w)
  ]

  pub unmap_loop-suc :
      (n i : ℕ) (v : Vmm)
      → unmap_loop p4 (suc n) i virt v
        ≡ unmap_loop p4 n (i + 1) virt (round i (descend (route (nth_page virt i)) p4 v.tables) v)
  unfolding unmap_loop
  unmap_loop-suc n i v =
      ap (λ x. unmap_loop p4 n (i + 1) virt (round i x.0 x.1))
        (get_pte-false p4 (nth_page virt i) v)

  -- The addresses of one page have one entry.
  pub pte_at-same :
      (i x : ℕ) (v : Vmm)
      → i < 2 ^ 36
      → pages_past virt x ≡ i
      → pte_at p4 x v.tables ≡ pte_at p4 (nth_page virt i) v.tables
  unfolding pte_at
  pte_at-same i x v l eq =
      let e : page_of x ≡ page_of (nth_page virt i) =
        ground (arith, pages_past-nth_page virt i x l, eq) in
      let (r, k) = page_of-route x (nth_page virt i) e in rw (r, k) refl

  -- One round leaves all as it was, if the page is not mapped; else its frame is freed, and its
  -- entry is cleared.
  abbrev pub Round : (i : ℕ) → Vmm → Vmm → Type 0
  Round i v u =
      let here = pte_at p4 (nth_page virt i) v.tables in
      ((u ≡ v) × (present here ≡ false))
      ⊎ ((present here ≡ true)
          × (u.pmm ≡ pmm_free (frame here) v.pmm)
          × ((x : ℕ)
              → Unshared x
              → pte_at p4 x u.tables
                ≡ (if page_of (nth_page virt i) == page_of x then 0 else pte_at p4 x v.tables)))

  pub round-Round :
      (i : ℕ) (level : ℕ → ℕ) (v : Vmm) (r : Option ℕ)
      → IsShape level v.tables
      → level p4 ≡ 4
      → Unshared (nth_page virt i)
      → descend (route (nth_page virt i)) p4 v.tables ≡ r
      → IsShape level (round i r v).tables × Round i v (round i r v)
  unfolding pte_at read_in Unshared
  round-Round i level v none s root c d =
      (s, inl (refl, ap present (entry_of-descend _ _ p4 v.tables ∙ ap (read_in v.tables _) d)))
  round-Round i level v (some pt) s root c d =
      let a = nth_page virt i in
      let here : pte_at p4 a v.tables ≡ v.tables pt (pt_idx a) =
        entry_of-descend (route a) (pt_idx a) p4 v.tables ∙ ap (read_in v.tables (pt_idx a)) d in
      let last : level pt ≡ 1 = descend-level (route a) p4 pt level v.tables s root c d in
      elim (Bool-cases (present (v.tables pt (pt_idx a)))) [
        | inl e ↦ rw e (
          IsShape-set_entry level v.tables s pt last (pt_idx a) 0,
          inr (
            ap present here ∙ e,
            ap (λ f. pmm_free (frame f) v.pmm) (sym here),
            written-pte_at p4 level pt a 0 v.tables s root last c d,
          ),
        )
        | inr e ↦ rw e (s, inl (refl, ap present here ∙ e))
      ]

  pub total-Round : (i : ℕ) (v u : Vmm) → Round i v u → u.pmm.total_pages ≡ v.pmm.total_pages
  total-Round i v u (inl (q, _)) = ap (λ z. z.pmm.total_pages) q
  total-Round i v u (inr (_, q, _)) =
      ap (λ z. z.total_pages) q
      ∙ total-pmm_free (frame (pte_at p4 (nth_page virt i) v.tables)) v.pmm

  -- The other pages stay mapped as they were.
  pub away-Round :
      (i x : ℕ) (v u : Vmm)
      → i < 2 ^ 36
      → Round i v u
      → Unshared x
      → pages_past virt x ≢ i
      → pte_at p4 x u.tables ≡ pte_at p4 x v.tables
  away-Round i x v u l (inl (q, _)) cx ne = ap (λ z. pte_at p4 x z.tables) q
  away-Round i x v u l (inr (_, _, q)) cx ne =
      q x cx ∙ rw (pages_past-nth_page virt i x l) (ground (arith, ne))

  -- The page of this round is not mapped any more.
  pub here-Round :
      (i x : ℕ) (v u : Vmm)
      → i < 2 ^ 36
      → Round i v u
      → Unshared x
      → pages_past virt x ≡ i
      → present (pte_at p4 x u.tables) ≡ false
  here-Round i x v u l (inl (q, gone)) cx eq =
      ap (λ z. present (pte_at p4 x z.tables)) q ∙ ap present (pte_at-same i x v l eq) ∙ gone
  here-Round i x v u l (inr (_, _, q)) cx eq =
      let zeroed : pte_at p4 x u.tables ≡ 0 =
        q x cx ∙ rw (pages_past-nth_page virt i x l) (ground (arith, eq)) in
      ap present zeroed

  pub free-Round :
      (i j : ℕ) (v u : Vmm) → Round i v u → in_use v.pmm j ≡ false → in_use u.pmm j ≡ false
  free-Round i j v u (inl (q, _)) free = ap (λ z. in_use z.pmm j) q ∙ free
  free-Round i j v u (inr (_, q, _)) free =
      ap (λ z. in_use z j) q
      ∙ pmm_free-free (frame (pte_at p4 (nth_page virt i) v.tables)) j v.pmm free

  pub used-Round :
      (i j : ℕ) (v u : Vmm)
      → Round i v u
      → in_use v.pmm j ≡ true
      → (present (pte_at p4 (nth_page virt i) v.tables) ≡ true
          → frame (pte_at p4 (nth_page virt i) v.tables) / 4096 ≢ j)
      → in_use u.pmm j ≡ true
  used-Round i j v u (inl (q, _)) used other = ap (λ z. in_use z.pmm j) q ∙ used
  used-Round i j v u (inr (pr, q, _)) used other =
      ap (λ z. in_use z j) q
      ∙ pmm_free-other (frame (pte_at p4 (nth_page virt i) v.tables)) j v.pmm (other pr)
      ∙ used

  pub freed-Round :
      (i : ℕ) (v u : Vmm)
      → Round i v u
      → let here = pte_at p4 (nth_page virt i) v.tables in
        present here ≡ true
        → frame here ≢ null
        → frame here / 4096 < v.pmm.total_pages
        → in_use u.pmm (frame here / 4096) ≡ false
  freed-Round i v u (inl (_, gone)) pr nz fits =
      let clash : false ≡ true = sym gone ∙ pr in absurd cc
  freed-Round i v u (inr (_, q, _)) pr nz fits =
      let here = pte_at p4 (nth_page virt i) v.tables in
      ap (λ z. in_use z (frame here / 4096)) q ∙ pmm_free-frame (frame here) v.pmm nz fits
