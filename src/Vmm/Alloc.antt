-- ===== src/Vmm/Alloc.antt =====
-- The pages that the loop of `vmm_alloc` maps.
pub mod Outcome
use thuban.Base.{
  ℕ, zero, suc, ◌+◌, ◌-◌, ◌*◌, ◌/◌, ◌%◌, ◌^◌, ◌<◌, ◌≤◌, ◌≡◌, ◌≢◌, refl, sym, ap, ◌∙◌, Bool, true,
  false, not, ◌==◌, if◌then◌else◌, List, [], ◌∷◌, length, Option, none, some, inl, inr, ◌⊎◌, arith,
  Bool-cases, ==_iff, ◌||◌,
}
use mathlib.Core.Path.{subst}
use mathlib.Core.Option.{some-injective}
use thuban.Lock.{Guard, spin_lock, spin_unlock}
use thuban.Pmm.{Pmm, null, pmm_alloc_pages, bitmap_test}
use thuban.Pmm.Scan.{FreeRun}
use thuban.Pmm.Invariant.{in_use, pmm_alloc_pages-IsValid}
use thuban.Pmm.Release.{total-pmm_alloc_pages}
use thuban.Pmm.Alloc.{Allocated, in_range, pmm_alloc_pages-Allocated}
use thuban.Vmm.{Vmm, pt_idx, get_pte, write_pte, acquire, release, new_pte, map_loop, vmm_alloc}
use thuban.Vmm.Walk.{IsTree, Full, Extends, Reached}
use thuban.Vmm.Walk.Level.{Extends-pmm}
use thuban.Vmm.Pages.{Unshared, route, pte_at, page_of, get_pte-Reached}
use thuban.Vmm.Map.{Written, IsTree-same, IsTree-write_pte, write_pte-Written}

-- How many pages `x` is past `base`, of the 2^36 pages.
abbrev pub pages_past : (base x : ℕ) → ℕ
pages_past base x = (page_of x + 2 ^ 36 - page_of base) % 2 ^ 36

abbrev pub nth_page : (base i : ℕ) → ℕ
nth_page base i = (base + i * 4096) % 2 ^ 64

pub pages_past-nth_page :
    (base i x : ℕ)
    → i < 2 ^ 36
    → (page_of (nth_page base i) == page_of x) ≡ (pages_past base x == i)
pages_past-nth_page base i x l = ground (arith, l)

module _ (p4 phys flags base : ℕ) where
  -- The outcomes of the loop: the pages from `base` on are mapped one after another, or all pages
  -- are in use. No other page changes.
  abbrev pub Run : (n i : ℕ) → Vmm → Bool × Vmm → Type 0
  Run n i v (b, w) =
      (after : ℕ → ℕ) × IsTree p4 after w
      × (w.next_virt_addr ≡ base)
      × (w.pmm.total_pages ≡ v.pmm.total_pages)
      × ((j : ℕ) → in_use v.pmm j ≡ true → in_use w.pmm j ≡ true)
      × ((x : ℕ)
          → Unshared x
          → (pages_past base x < i) ⊎ (i + n ≤ pages_past base x)
          → pte_at p4 x w.tables ≡ pte_at p4 x v.tables)
      × (((b ≡ true)
            × ((x : ℕ)
                → Unshared x
                → i ≤ pages_past base x
                → pages_past base x < i + n
                → pte_at p4 x w.tables ≡ new_pte (nth_page phys (pages_past base x)) flags))
          ⊎ ((b ≡ false) × Full w))

  -- One page is mapped, and then the others are.
  Run-suc :
      (n i : ℕ) (v u : Vmm) (x : Bool × Vmm)
      → i + suc n ≤ 2 ^ 36
      → (u.pmm.total_pages ≡ v.pmm.total_pages)
      → ((j : ℕ) → in_use v.pmm j ≡ true → in_use u.pmm j ≡ true)
      → ((x : ℕ)
          → Unshared x
          → pte_at p4 x u.tables ≡ (
              if page_of (nth_page base i) == page_of x
              then new_pte (nth_page phys i) flags
              else pte_at p4 x v.tables))
      → Run n (i + 1) u x
      → Run (suc n) i v x
  Run-suc n i v u (b, w) l kept more one (after, tree, next, total, taken, outside, done) =
      let here = λ (y : ℕ). pages_past-nth_page base i y (omega (arith, l)) in
      let away : (y : ℕ)
          → Unshared y
          → pages_past base y ≢ i
          → pte_at p4 y u.tables ≡ pte_at p4 y v.tables =
        λ y cy ne. one y cy ∙ rw (here y) (ground (arith, ne)) in
      let hit : (y : ℕ)
          → Unshared y
          → pages_past base y ≡ i
          → pte_at p4 y u.tables ≡ new_pte (nth_page phys i) flags =
        λ y cy eq. one y cy ∙ rw (here y) (ground (arith, eq)) in
      (
        after,
        tree,
        next,
        total ∙ kept,
        λ j used. taken j (more j used),
        λ y cy far. outside y cy (ground (arith, far)) ∙ away y cy (ground (arith, far)),
        elim done [
          | inr failed ↦ inr failed
          | inl (ok, inside) ↦ inl (
            ok,
            λ y cy lo hi. elim (Bool-cases (pages_past base y == i)) [
              | inl e ↦
                  let eq : pages_past base y ≡ i = (==_iff (pages_past base y) i).0 e in
                  outside y cy (inl (omega (arith, eq)))
                  ∙ hit y cy eq
                  ∙ ap (λ k. new_pte (nth_page phys k) flags) (sym eq)
              | inr e ↦ inside y cy (ground (arith, e, lo)) (omega (arith, hi))
            ],
          )
        ],
      )

  round :
      (level : ℕ → ℕ) (n i : ℕ) (v : Vmm) (x : Option ℕ × Vmm)
      → i + suc n ≤ 2 ^ 36
      → IsTree p4 level v
      → v.next_virt_addr ≡ base
      → Unshared (nth_page base i)
      → Reached p4 level p4 (route (nth_page base i)) 1 v x
      → ((after : ℕ → ℕ) (u : Vmm)
          → IsTree p4 after u
          → u.next_virt_addr ≡ base
          → Run n (i + 1) u (map_loop p4 n (i + 1) phys flags u))
      → Run (suc n) i v (
          let y : Bool × Vmm = elim x.0 [
            | none ↦ (false, x.1)
            | some pt ↦
                map_loop p4 n
                  (i + 1)
                  phys
                  flags
                  (write_pte p4 pt (nth_page base i) (new_pte (nth_page phys i) flags) x.1)
          ] in
          y)
  unfolding pte_at Unshared
  round level n i v (none, w) l s b c (e, inl (q, full)) rest = (
    e.level_after,
    e.tree,
    e.same_next ∙ b,
    e.same_total,
    e.taken,
    λ y cy far. e.entries (route y) (pt_idx y) p4 s.root cy,
    inr (refl, full),
  )
  round level n i v (none, w) l s b c (e, inr (p, q, _, _)) rest = absurd cc
  round level n i v (some p, w) l s b c (e, inl (q, full)) rest = absurd cc
  round level n i v (some p, w) l s b c (e, inr (p', q, at, d)) rest =
      let same : p' ≡ p = sym (some-injective p p' q) in
      let last : e.level_after p ≡ 1 = ap e.level_after (sym same) ∙ at in
      let virt = nth_page base i in
      let entry = new_pte (nth_page phys i) flags in
      let u = write_pte p4 p virt entry w in
      Run-suc n i v u (map_loop p4 n (i + 1) phys flags u) l e.same_total e.taken
        (λ y cy.
          write_pte-Written p4 e.level_after p virt entry w e.tree last c (d ∙ ap some same) y cy
          ∙ ap (λ z. if page_of virt == page_of y then entry else z)
              (e.entries (route y) (pt_idx y) p4 s.root cy))
        (rest e.level_after u (IsTree-write_pte p4 e.level_after p virt entry w e.tree last)
          (e.same_next ∙ b))

  pub map_loop-Run :
      (n i : ℕ) (level : ℕ → ℕ) (v : Vmm)
      → i + n ≤ 2 ^ 36
      → IsTree p4 level v
      → v.next_virt_addr ≡ base
      → ((j : ℕ) → j < i + n → Unshared (nth_page base j))
      → Run n i v (map_loop p4 n i phys flags v)
  unfolding map_loop
  map_loop-Run zero i level v l s b c = (
    level,
    s,
    b,
    refl,
    λ j u. u,
    λ x cx far. refl,
    inl (refl, λ x cx lo hi. absurd (omega (arith, lo, hi))),
  )
  map_loop-Run (suc n) i level v l s b c =
      subst
        (λ a. Run (suc n) i v (
          let x = get_pte p4 true (nth_page a i) v in
          let y : Bool × Vmm = elim x.0 [
            | none ↦ (false, x.1)
            | some pt ↦
                map_loop p4 n (i + 1) phys flags
                  (write_pte p4 pt (nth_page a i) (new_pte (nth_page phys i) flags) x.1)
          ] in
          y))
        (sym b)
        (round level n i v (get_pte p4 true (nth_page base i) v) l s b (c i (omega arith))
          (get_pte-Reached p4 level (nth_page base i) v s (c i (omega arith)))
          (λ after u t same.
            map_loop-Run n (i + 1) after u (omega (arith, l)) t same
              (λ j low. c j (omega (arith, low)))))
