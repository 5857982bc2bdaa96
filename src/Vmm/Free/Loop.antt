-- ===== src/Vmm/Free/Loop.antt =====
-- What `vmm_free` unmaps and frees.
use thuban.Base.{
  ℕ, zero, suc, ◌+◌, ◌/◌, ◌^◌, ◌<◌, ◌≤◌, ◌≡◌, ◌≢◌, refl, sym, ap, ◌∙◌, true, false, ◌==◌, inl, inr,
  arith, Bool-cases, ==_iff,
}
use mathlib.Core.Path.{subst}
use thuban.Pmm.{null}
use thuban.Pmm.Invariant.{in_use}
use thuban.Vmm.{Vmm, present, frame, acquire, release, unmap_loop, vmm_free}
use thuban.Vmm.Tree.{IsShape, descend}
use thuban.Vmm.Pages.{Unshared, route, pte_at}
use thuban.Vmm.Alloc.{pages_past, nth_page, pages_past-nth_page}
use thuban.Vmm.Free.{
  round, unmap_loop-suc, Round, round-Round, total-Round, away-Round, here-Round, free-Round,
  used-Round, freed-Round, pte_at-same,
}

module _ (p4 virt : ℕ) where
  -- Is `x` in one of the pages from number `i` to `i + n`?
  abbrev pub Inside : (n i x : ℕ) → Type 0
  Inside n i x = (i ≤ pages_past virt x) × (pages_past virt x < i + n)

  -- What the loop leaves: the pages of the range are not mapped, the frames that they had are free,
  -- and all other pages are mapped as before. No page becomes used.
  pub record Freed (n i : ℕ) (v w : Vmm) : Type 0 where
    pub outside :
        (x : ℕ) → Unshared x → ¬ Inside n i x → pte_at p4 x w.tables ≡ pte_at p4 x v.tables
    pub unmapped : (x : ℕ) → Unshared x → Inside n i x → present (pte_at p4 x w.tables) ≡ false
    pub freed :
        (x : ℕ)
        → Unshared x
        → Inside n i x
        → present (pte_at p4 x v.tables) ≡ true
        → frame (pte_at p4 x v.tables) ≢ null
        → frame (pte_at p4 x v.tables) / 4096 < v.pmm.total_pages
        → in_use w.pmm (frame (pte_at p4 x v.tables) / 4096) ≡ false
    pub still_free : (j : ℕ) → in_use v.pmm j ≡ false → in_use w.pmm j ≡ false
    pub still_used :
        (j : ℕ)
        → in_use v.pmm j ≡ true
        → ((x : ℕ)
            → Unshared x
            → Inside n i x
            → present (pte_at p4 x v.tables) ≡ true
            → frame (pte_at p4 x v.tables) / 4096 ≢ j)
        → in_use w.pmm j ≡ true

  Freed-suc :
      (n i : ℕ) (v u w : Vmm)
      → i + suc n ≤ 2 ^ 36
      → Unshared (nth_page virt i)
      → Round p4 virt i v u
      → Freed n (i + 1) u w
      → Freed (suc n) i v w
  Freed-suc n i v u w l c r f =
      let low : i < 2 ^ 36 = omega (arith, l) in
      let away = λ (x : ℕ) (cx : Unshared x) (ne : pages_past virt x ≢ i).
        away-Round p4 virt i x v u low r cx ne in
      let skip : (x : ℕ) → pages_past virt x ≡ i → ¬ Inside n (i + 1) x =
        λ x eq (lo, hi). omega (arith, eq, lo) in
      let IsFreed : ℕ → Type 0 = λ p.
        present p ≡ true
        → frame p ≢ null
        → frame p / 4096 < v.pmm.total_pages
        → in_use u.pmm (frame p / 4096) ≡ false in
      let first : pages_past virt (nth_page virt i) ≡ i =
        ground (arith, pages_past-nth_page virt i (nth_page virt i) low) in
      let here_inside : Inside (suc n) i (nth_page virt i) =
        (omega (arith, first), omega (arith, first)) in
      record {
        outside = λ x cx no.
            f.outside x cx (λ (lo, hi). no (omega (arith, lo), omega (arith, hi)))
            ∙ away x cx (λ eq. no (omega (arith, eq), omega (arith, eq)));
        unmapped = λ x cx (lo, hi). elim (Bool-cases (pages_past virt x == i)) [
          | inl e ↦
              let eq : pages_past virt x ≡ i = (==_iff (pages_past virt x) i).0 e in
              ap present (f.outside x cx (skip x eq)) ∙ here-Round p4 virt i x v u low r cx eq
          | inr e ↦ f.unmapped x cx (ground (arith, e, lo), omega (arith, hi))
        ];
        freed = λ x cx (lo, hi) pr nz fits. elim (Bool-cases (pages_past virt x == i)) [
          | inl e ↦
              let eq : pages_past virt x ≡ i = (==_iff (pages_past virt x) i).0 e in
              f.still_free (frame (pte_at p4 x v.tables) / 4096) (
                subst IsFreed (sym (pte_at-same p4 virt i x v low eq)) (freed-Round p4 virt i v u r)
                  pr nz fits)
          | inr e ↦
              let same = away x cx (λ eq. ground (arith, e, eq)) in
              let in_rest : Inside n (i + 1) x = (ground (arith, e, lo), omega (arith, hi)) in
              subst
                (λ p.
                  present p ≡ true
                  → frame p ≢ null
                  → frame p / 4096 < v.pmm.total_pages
                  → in_use w.pmm (frame p / 4096) ≡ false)
                same
                (λ pr' nz' fits'.
                  f.freed x cx in_rest pr' nz' (omega (arith, fits', total-Round p4 virt i v u r)))
                pr nz fits
        ];
        still_free = λ j free. f.still_free j (free-Round p4 virt i j v u r free);
        still_used = λ j used other.
            f.still_used j
              (used-Round p4 virt i j v u r used (λ pr. other (nth_page virt i) c here_inside pr))
              (λ x cx (lo, hi) pr.
                let same = away x cx (λ eq. omega (arith, eq, lo)) in
                λ q.
                  other x cx (omega (arith, lo), omega (arith, hi)) (ap present (sym same) ∙ pr)
                    (ap (λ p. frame p / 4096) (sym same) ∙ q));
      }

  unmap_loop-zero : (i : ℕ) (v : Vmm) → unmap_loop p4 0 i virt v ≡ v
  unfolding unmap_loop
  unmap_loop-zero i v = refl

  unmap_loop-Freed :
      (n i : ℕ) (level : ℕ → ℕ) (v : Vmm)
      → i + n ≤ 2 ^ 36
      → IsShape level v.tables
      → level p4 ≡ 4
      → ((j : ℕ) → j < i + n → Unshared (nth_page virt j))
      → IsShape level (unmap_loop p4 n i virt v).tables × Freed n i v (unmap_loop p4 n i virt v)
  unmap_loop-Freed zero i level v l s root c =
      subst (λ w. IsShape level w.tables × Freed 0 i v w) (sym (unmap_loop-zero i v))
        (
          s,
          record {
            outside = λ x cx no_page. refl;
            unmapped = λ x cx (lo, hi). absurd (omega (arith, lo, hi));
            freed = λ x cx (lo, hi) pr nz fits. absurd (omega (arith, lo, hi));
            still_free = λ j free. free;
            still_used = λ j used other. used;
          },
        )
  unmap_loop-Freed (suc n) i level v l s root c =
      let u = round p4 virt i (descend (route (nth_page virt i)) p4 v.tables) v in
      let (s', r) =
        round-Round p4 virt i level v (descend (route (nth_page virt i)) p4 v.tables) s root
          (c i (omega arith)) refl in
      let (s'', f) =
        unmap_loop-Freed n (i + 1) level u (omega (arith, l)) s' root
          (λ j low. c j (omega (arith, low))) in
      subst (λ w. IsShape level w.tables × Freed (suc n) i v w) (sym (unmap_loop-suc p4 virt n i v))
        (s'', Freed-suc n i v u (unmap_loop p4 n (i + 1) virt u) l (c i (omega arith)) r f)

  -- For tables of the form `IsShape` with the first one at level 4, and a range of at most 2^36
  -- pages that are `Unshared`: after `vmm_free` no page of the range has a present entry, and every
  -- frame that one had, if it is not 0 and lies below `total_pages`, is free. Every other
  -- `Unshared` page keeps its entry, every other page in use stays in use, no free page becomes
  -- used, and the tables keep their form.
  pub vmm_free-Freed :
      (pages : ℕ) (level : ℕ → ℕ) (v : Vmm)
      → pages ≤ 2 ^ 36
      → IsShape level v.tables
      → level p4 ≡ 4
      → ((i : ℕ) → i < pages → Unshared (nth_page virt i))
      → IsShape level (vmm_free p4 virt pages v).tables × Freed pages 0 v (vmm_free p4 virt pages v)
  unfolding vmm_free acquire release
  vmm_free-Freed pages level v l s root c =
      let (s', f) =
        unmap_loop-Freed pages 0 level (acquire v) (omega (arith, l)) s root
          (λ j low. c j (omega (arith, low))) in
      (
        s',
        record {
          outside = f.outside;
          unmapped = f.unmapped;
          freed = f.freed;
          still_free = f.still_free;
          still_used = f.still_used;
        },
      )
