-- ===== src/Vmm/Alloc/Outcome.antt =====
-- What `vmm_alloc` returns and maps.
use thuban.Base.{
  ℕ, ◌+◌, ◌*◌, ◌%◌, ◌^◌, ◌<◌, ◌≤◌, ◌≡◌, refl, sym, ap, ◌∙◌, Bool, true, false, not, ◌&&◌, ◌==◌, inl,
  inr, ◌⊎◌, arith, ==_iff, ◌||◌,
}
use mathlib.Core.Path.{subst}
use thuban.Lock.{spin_lock, spin_unlock}
use thuban.Pmm.{null, pmm_alloc_pages, pmm_free_pages}
use thuban.Pmm.Scan.{FreeRun}
use thuban.Pmm.Invariant.{in_use, pmm_alloc_pages-IsValid}
use thuban.Pmm.Release.{total-pmm_alloc_pages, in_use-pmm_free_pages}
use thuban.Pmm.Alloc.{Allocated, in_range, pmm_alloc_pages-Allocated}
use thuban.Vmm.{Vmm, acquire, release, new_pte, map_loop, vmm_alloc}
use thuban.Vmm.Walk.{IsTree}
use thuban.Vmm.Walk.Level.{Extends-pmm}
use thuban.Vmm.Pages.{Unshared, pte_at}
use thuban.Vmm.Map.{IsTree-same}
use thuban.Vmm.Alloc.{pages_past, nth_page, Run, map_loop-Run}

module _ (p4 pages flags : ℕ) where
  -- No page is mapped beyond the range, and NULL is returned: there is no free run of that length,
  -- or the pages ran out for the tables, and then exactly the pages of the lowest run, which had been
  -- taken, are free afterwards.
  abbrev pub Fails : Vmm → ℕ × Vmm → Type 0
  Fails v (a, w) =
      (a ≡ null)
      × (w.next_virt_addr ≡ v.next_virt_addr)
      × ((x : ℕ)
          → Unshared x
          → pages ≤ pages_past v.next_virt_addr x
          → pte_at p4 x w.tables ≡ pte_at p4 x v.tables)
      × (((s : ℕ) → s + pages ≤ v.pmm.total_pages → ¬ FreeRun v.pmm.bitmap pages s)
          ⊎ ((s : ℕ) × (s + pages ≤ v.pmm.total_pages)
              × FreeRun v.pmm.bitmap pages s
              × ((t : ℕ) → t < s → ¬ FreeRun v.pmm.bitmap pages t)
              × ((j : ℕ) → j < v.pmm.total_pages → in_use w.pmm j ≡ not (in_range s pages j))))

  -- The address is the old `next_virt_addr`, which moves up. The pages from there on are mapped to
  -- the lowest run of free pages, which is in use now; no other page changes.
  abbrev pub Gives : Vmm → ℕ × Vmm → Type 0
  Gives v (a, w) =
      (after : ℕ → ℕ) × (s : ℕ) × IsTree p4 after w
      × (a ≡ v.next_virt_addr)
      × (w.next_virt_addr ≡ nth_page v.next_virt_addr pages)
      × (s + pages ≤ v.pmm.total_pages)
      × FreeRun v.pmm.bitmap pages s
      × ((t : ℕ) → t < s → ¬ FreeRun v.pmm.bitmap pages t)
      × ((j : ℕ) → in_range s pages j ≡ true → in_use w.pmm j ≡ true)
      × ((x : ℕ)
          → Unshared x
          → pages_past v.next_virt_addr x < pages
          → pte_at p4 x w.tables
            ≡ new_pte (nth_page (s * 4096) (pages_past v.next_virt_addr x)) flags)
      × ((x : ℕ)
          → Unshared x
          → pages ≤ pages_past v.next_virt_addr x
          → pte_at p4 x w.tables ≡ pte_at p4 x v.tables)

  -- The state in which the loop starts.
  abbrev locked : Vmm → Vmm
  locked v = acquire (record v { pmm = (pmm_alloc_pages pages v.pmm).1 })

  abbrev mapped : Vmm → Bool × Vmm
  mapped v = map_loop p4 pages 0 (pmm_alloc_pages pages v.pmm).0 flags (locked v)

  vmm_alloc-null :
      (v : Vmm)
      → (pmm_alloc_pages pages v.pmm).0 ≡ null
      → vmm_alloc p4 pages flags v ≡ (null, record v { pmm = (pmm_alloc_pages pages v.pmm).1 })
  unfolding vmm_alloc
  vmm_alloc-null v z = let e = (==_iff (pmm_alloc_pages pages v.pmm).0 null).1 z in rw e refl

  vmm_alloc-failed :
      (v : Vmm)
      → 0 < (pmm_alloc_pages pages v.pmm).0
      → (mapped v).0 ≡ false
      → let w = release (mapped v).1 in
        vmm_alloc p4 pages flags v
        ≡ (null, record w { pmm = pmm_free_pages (pmm_alloc_pages pages v.pmm).0 pages w.pmm })
  unfolding vmm_alloc
  vmm_alloc-failed v pos f =
      let e : ((pmm_alloc_pages pages v.pmm).0 == null) ≡ false = ground (arith, pos) in
      rw (e, f) refl

  vmm_alloc-mapped :
      (v : Vmm)
      → 0 < (pmm_alloc_pages pages v.pmm).0
      → (mapped v).0 ≡ true
      → vmm_alloc p4 pages flags v ≡ (
        v.next_virt_addr,
        release (record (mapped v).1 {
          next_virt_addr = ((mapped v).1.next_virt_addr + pages * 4096) % 2 ^ 64;
        }),
      )
  unfolding vmm_alloc
  vmm_alloc-mapped v pos f =
      let e : ((pmm_alloc_pages pages v.pmm).0 == null) ≡ false = ground (arith, pos) in
      rw (e, f) refl

  -- The loop runs with the pages taken.
  mapped-Run :
      (level : ℕ → ℕ) (v : Vmm) (s : ℕ)
      → IsTree p4 level v
      → s + pages ≤ v.pmm.total_pages
      → ((i : ℕ) → i < pages → Unshared (nth_page v.next_virt_addr i))
      → ((j : ℕ)
          → in_use (pmm_alloc_pages pages v.pmm).1 j ≡ (in_range s pages j || in_use v.pmm j))
      → Run p4 (pmm_alloc_pages pages v.pmm).0 flags v.next_virt_addr pages 0 (locked v) (mapped v)
  unfolding acquire
  mapped-Run level v s tree fits c same =
      let (phys, q) = pmm_alloc_pages pages v.pmm in
      let given =
        Extends-pmm p4 level v q tree (pmm_alloc_pages-IsValid pages tree.valid)
          (total-pmm_alloc_pages pages v.pmm) (λ j u. same j ∙ ground (arith, u)) in
      let start =
        IsTree-same p4 given.level_after (record v { pmm = q }) (spin_lock v.guard) v.next_virt_addr
          given.tree in
      map_loop-Run p4 phys flags v.next_virt_addr pages 0 given.level_after (locked v)
        (omega (arith, fits, tree.valid.covered)) start refl (λ j low. c j (omega (arith, low)))

  outcome :
      (level : ℕ → ℕ) (v : Vmm)
      → IsTree p4 level v
      → ((i : ℕ) → i < pages → Unshared (nth_page v.next_virt_addr i))
      → Allocated pages v.pmm (pmm_alloc_pages pages v.pmm)
      → Fails v (vmm_alloc p4 pages flags v) ⊎ Gives v (vmm_alloc p4 pages flags v)
  unfolding acquire release
  outcome level v tree c (inl (z, none_fits, same)) =
      inl (subst (Fails v) (sym (vmm_alloc-null v z)) (refl, refl, λ x cx far. refl, inl none_fits))
  outcome level v tree c (inr (s, at, pos, fits, run, lowest, same)) =
      let (after, t, next, total, taken, outside, done) = mapped-Run level v s tree fits c same in
      let (b, w) = mapped v in
      let same_total : w.pmm.total_pages ≡ v.pmm.total_pages =
        total ∙ total-pmm_alloc_pages pages v.pmm in
      elim done [
        | inl (ok, inside) ↦ inr (
            subst (Gives v) (sym (vmm_alloc-mapped v pos ok)) (
              after,
              s,
              IsTree-same p4 after w (spin_unlock w.guard)
                  ((w.next_virt_addr + pages * 4096) % 2 ^ 64) t,
              refl,
              ap (λ n. nth_page n pages) next,
              fits,
              run,
              lowest,
              λ j here. taken j (same j ∙ ground (arith, here)),
              λ x cx near.
                  inside x cx (omega arith) (omega (arith, near))
                  ∙ ap (λ p. new_pte (nth_page p (pages_past v.next_virt_addr x)) flags) at,
              λ x cx far. outside x cx (inr (omega (arith, far))),
            ))
        | inr (no_table, full) ↦ inl (
            subst (Fails v) (sym (vmm_alloc-failed v pos no_table)) (
              refl,
              next,
              λ x cx far. outside x cx (inr (omega (arith, far))),
              inr (
                s,
                fits,
                run,
                lowest,
                λ j low.
                    ap (λ p. in_use (pmm_free_pages p pages w.pmm) j) at
                    ∙ in_use-pmm_free_pages pages s j w.pmm (ground (arith, at, pos))
                        (omega (arith, same_total, tree.valid.covered))
                        (omega (arith, same_total, fits))
                        (λ k lo hi. full k (omega (arith, same_total, fits, hi)))
                    ∙ ap (λ b. not (in_range s pages j) && b)
                        (full j (omega (arith, same_total, low)))
                    ∙ ground arith,
              ),
            ))
      ]

  -- For tables with the invariant `IsTree`, a count above 0 and a range of which every page is
  -- `Unshared`: `vmm_alloc` returns the old `next_virt_addr`, moves it up by the pages, and maps
  -- the pages from there on, one after another, to the lowest run of free pages, which is in use
  -- afterwards, while every other `Unshared` page keeps its entry and the tables keep the
  -- invariant; or it returns NULL, every `Unshared` page beyond the range keeps its entry, and
  -- there is no such run, or the pages ran out for the tables, and then the pages of the lowest
  -- run, which it had taken, are free again and all others are in use.
  pub vmm_alloc-Outcome :
      (level : ℕ → ℕ) (v : Vmm)
      → 0 < pages
      → IsTree p4 level v
      → ((i : ℕ) → i < pages → Unshared (nth_page v.next_virt_addr i))
      → Fails v (vmm_alloc p4 pages flags v) ⊎ Gives v (vmm_alloc p4 pages flags v)
  vmm_alloc-Outcome level v pos tree c =
      outcome level v tree c (pmm_alloc_pages-Allocated pages v.pmm pos tree.valid tree.first_used)
