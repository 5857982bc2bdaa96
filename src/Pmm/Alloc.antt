-- ===== src/Pmm/Alloc.antt =====
-- What the functions of mm/pmm.c promise a caller: which pages an allocation takes, what freeing
-- gives back, what `pmm_init` sets up, and the lock.
use thuban.Base.{
  ℕ, zero, suc, ◌+◌, ◌*◌, ◌<◌, ◌≤◌, ◌≡◌, refl, ◌∙◌, Bool, true, false, arith, ◌==◌, ltb, ◌&&◌, ◌||◌,
  leb, if◌then◌else◌, ◌⊎◌, inl, inr, ==_iff,
}
use mathlib.Core.Path.{subst}
use thuban.Pmm.{
  Pmm, null, no_page, page_size, bitmap_size, bitmap_test, find_free_page, find_free_pages, address,
  take_page, mark_used, pmm_alloc, alloc_run, pmm_alloc_pages, acquire, release,
}
use thuban.Pmm.Scan.{
  FirstFree, FreeRun, FirstRun, find_free_page-FirstFree, find_free_pages-FirstRun,
}
use thuban.Pmm.Invariant.{
  in_use, IsValid, in_use-take_page, in_use-mark_used, in_use-release, pages_many,
}

-- Is page `j` one of the `count` pages from `start` on?
abbrev pub in_range : ℕ → ℕ → ℕ → Bool
in_range start count j = leb start j && ltb j (start + count)

-- The two outcomes of a request for `count` pages: NULL, when there is no run of that length and
-- nothing is taken; or the lowest run, of which every page was free and is in use afterwards,
-- while all other pages stay as they were.
abbrev pub Allocated : ℕ → Pmm → ℕ × Pmm → Type 0
Allocated count p (a, q) =
    ((a ≡ null)
      × ((s : ℕ) → s + count ≤ p.total_pages → ¬ FreeRun p.bitmap count s)
      × ((j : ℕ) → in_use q j ≡ in_use p j))
    ⊎ ((s : ℕ) × (a ≡ s * page_size)
        × (0 < a)
        × (s + count ≤ p.total_pages)
        × FreeRun p.bitmap count s
        × ((t : ℕ) → t < s → ¬ FreeRun p.bitmap count t)
        × ((j : ℕ) → in_use q j ≡ (in_range s count j || in_use p j)))

address-eq : (page : ℕ) → page < bitmap_size * 32 → address page ≡ page * page_size
unfolding address
address-eq page h = omega arith

-- A run that is free does not hold page 0, if that is in use.
run-pos : (p : Pmm) (count s : ℕ) → 0 < count → in_use p 0 ≡ true → FreeRun p.bitmap count s → 0 < s
run-pos p count zero h used run = absurd (ground (arith, run 0 (omega arith) (omega arith)))
run-pos p count (suc s) h used run = omega arith

Allocated-run :
    (count : ℕ) (p q : Pmm) (s : ℕ)
    → 0 < count
    → IsValid p
    → in_use p 0 ≡ true
    → s + count ≤ p.total_pages
    → FreeRun p.bitmap count s
    → ((t : ℕ) → t < s → ¬ FreeRun p.bitmap count t)
    → ((j : ℕ) → in_use q j ≡ (in_range s count j || in_use p j))
    → Allocated count p (address s, q)
Allocated-run count p q s h v used fits run lowest same =
    let e : address s ≡ s * page_size = address-eq s (omega (arith, v.covered)) in
    inr (s, e, omega (arith, e, run-pos p count s h used run), fits, run, lowest, same)

-- The common end of both allocators, after a search that returned `r`.
outcome-Allocated :
    (count : ℕ) (p q : Pmm) (r : ℕ)
    → 0 < count
    → IsValid p
    → in_use p 0 ≡ true
    → FirstRun p.bitmap count p.total_pages r
    → ((j : ℕ) → in_use q j ≡ (in_range r count j || in_use p j))
    → Allocated count p (if r == no_page then (null, release (acquire p)) else (address r, q))
unfolding acquire release
outcome-Allocated count p q r h v used (inl (e, none_fits)) same =
    rw ((==_iff r no_page).1 e) (inl (refl, none_fits, λ j. refl))
outcome-Allocated count p q r h v used (inr (fits, run, lowest)) same =
    let e : (r == no_page) ≡ false = ground (arith, v.covered) in
    rw e (Allocated-run count p q r h v used fits run lowest same)

alloc_run-Allocated :
    (count : ℕ) (p : Pmm)
    → 0 < count
    → IsValid p
    → in_use p 0 ≡ true
    → Allocated count p (alloc_run count p)
unfolding alloc_run acquire
alloc_run-Allocated count p h v used =
    let start = find_free_pages (acquire p) count in
    outcome-Allocated count p (release (mark_used count start (acquire p))) start h v used
      (find_free_pages-FirstRun (acquire p) count h)
      (λ j.
        in_use-release (mark_used count start (acquire p)) j
        ∙ in_use-mark_used count start j (acquire p))

FirstFree-FirstRun : (m : ℕ → ℕ) (j r : ℕ) → FirstFree m 0 j r → FirstRun m 1 j r
FirstFree-FirstRun m j r (inl (e, all)) = inl (
  e,
  λ a h run. ground (arith, all a (omega arith) (omega arith), run a (omega arith) (omega arith)),
)
FirstFree-FirstRun m j r (inr (lo, hi, free, all)) = inr (
  omega arith,
  (λ k l u. subst (λ x. bitmap_test m x ≡ false) (omega arith) free),
  λ a h run. ground (arith, all a (omega arith) (omega arith), run a (omega arith) (omega arith)),
)

-- `pmm_alloc` takes the lowest free page and no other, or returns NULL when no page is free.
-- Page 0 has to be in use, as `pmm_init` leaves it: its address would be NULL.
pub pmm_alloc-Allocated : (p : Pmm) → IsValid p → in_use p 0 ≡ true → Allocated 1 p (pmm_alloc p)
unfolding pmm_alloc
pmm_alloc-Allocated p v used =
    let page = find_free_page (acquire p) in
    outcome-Allocated 1 p (release (take_page page (acquire p))) page (omega arith) v used
      (FirstFree-FirstRun _ _ page (find_free_page-FirstFree (acquire p)))
      (λ j.
        in_use-release (take_page page (acquire p)) j
        ∙ in_use-take_page page j (acquire p)
        ∙ ground arith)

-- For a valid allocator with page 0 in use and a count above 0, `pmm_alloc_pages` takes the lowest
-- run of `count` free pages and no other page, and returns the run's address, which is not NULL; or
-- it returns NULL and takes nothing, and then there is no such run.
pub pmm_alloc_pages-Allocated :
    (count : ℕ) (p : Pmm)
    → 0 < count
    → IsValid p
    → in_use p 0 ≡ true
    → Allocated count p (pmm_alloc_pages count p)
unfolding pmm_alloc_pages
pmm_alloc_pages-Allocated zero p h v used = absurd (omega arith)
pmm_alloc_pages-Allocated (suc zero) p h v used = pmm_alloc-Allocated p v used
pmm_alloc_pages-Allocated (suc (suc n)) p h v used =
    rw (pages_many (suc (suc n)) p (omega arith)) (alloc_run-Allocated (suc (suc n)) p h v used)
