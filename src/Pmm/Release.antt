-- ===== src/Pmm/Release.antt =====
-- Freeing what was allocated, and the lock around every function of mm/pmm.c.
use thuban.Base.{
  ℕ, zero, suc, ◌+◌, ◌*◌, ◌/◌, ◌%◌, ◌^◌, ◌<◌, ◌≤◌, ◌≡◌, ◌≢◌, refl, sym, ap, ◌∙◌, true, false, not,
  arith, ◌==◌, ◌&&◌, if◌then◌else◌, ◌⊎◌, inl, inr,
}
use mathlib.Core.Path.{subst}
use thuban.Pmm.{
  Pmm, null, page_size, bitmap_size, take_page, drop_page, pmm_alloc, alloc_run, pmm_alloc_pages,
  find_free_pages, pmm_free, pmm_free_pages, free_loop, acquire, release,
}
use thuban.Pmm.Bitmap.{used_below, used_below-congr}
use thuban.Pmm.Alloc.{in_range, Allocated, pmm_alloc_pages-Allocated}
use thuban.Pmm.Invariant.{
  in_use, IsValid, in_use-drop_page, total-mark_used, pmm_free_pages-IsValid,
  pmm_alloc_pages-IsValid,
}

total-release : (p : Pmm) → (release p).total_pages ≡ p.total_pages
unfolding release
total-release p = refl

total-drop_page : (i : ℕ) (p : Pmm) → (drop_page i p).total_pages ≡ p.total_pages
unfolding drop_page
total-drop_page i p = refl

pub total-pmm_free : (page : ℕ) (p : Pmm) → (pmm_free page p).total_pages ≡ p.total_pages
unfolding pmm_free acquire release drop_page
total-pmm_free page p = ground arith

pub total-pmm_alloc : (p : Pmm) → (pmm_alloc p).1.total_pages ≡ p.total_pages
unfolding pmm_alloc acquire release take_page
total-pmm_alloc p = ground arith

pub total-pmm_alloc_pages :
    (count : ℕ) (p : Pmm) → (pmm_alloc_pages count p).1.total_pages ≡ p.total_pages
unfolding pmm_alloc_pages alloc_run pmm_alloc acquire release take_page
total-pmm_alloc_pages count p =
    ground (arith, total-mark_used count (find_free_pages (acquire p) count) (acquire p))

total-free_loop : (n i page : ℕ) (p : Pmm) → (free_loop n i page p).total_pages ≡ p.total_pages
unfolding free_loop
total-free_loop zero i page p = refl
total-free_loop (suc n) i page p =
    total-free_loop n (i + 1) page (pmm_free ((page + i * page_size) % 2 ^ 64) p)
    ∙ total-pmm_free ((page + i * page_size) % 2 ^ 64) p

total-pmm_free_pages :
    (page count : ℕ) (p : Pmm) → (pmm_free_pages page count p).total_pages ≡ p.total_pages
unfolding pmm_free_pages
total-pmm_free_pages page count p = total-free_loop count 0 page p

-- `pmm_free` on any address inside a page in use frees that page and no other.
pub in_use-pmm_free :
    (a j : ℕ) (p : Pmm)
    → a ≢ null
    → a / page_size < p.total_pages
    → in_use p (a / page_size) ≡ true
    → in_use (pmm_free a p) j ≡ (if (a / page_size) == j then false else in_use p j)
unfolding pmm_free acquire release
in_use-pmm_free a j p nz h used = ground (arith, in_use-drop_page (a / page_size) j (acquire p))

-- Any other address changes no page.
pub in_use-pmm_free_ignored :
    (a j : ℕ) (p : Pmm)
    → (a ≡ null) ⊎ (p.total_pages ≤ a / page_size) ⊎ (in_use p (a / page_size) ≡ false)
    → (in_use (pmm_free a p) j ≡ in_use p j) × ((pmm_free a p).used_pages ≡ p.used_pages)
unfolding pmm_free acquire release
in_use-pmm_free_ignored a j p why = ground arith

in_use-free_loop :
    (n i s j : ℕ) (p : Pmm)
    → 0 < s
    → p.total_pages ≤ bitmap_size * 32
    → s + i + n ≤ p.total_pages
    → ((k : ℕ) → s + i ≤ k → k < s + i + n → in_use p k ≡ true)
    → in_use (free_loop n i (s * page_size) p) j ≡ (not (in_range (s + i) n j) && in_use p j)
unfolding free_loop
in_use-free_loop zero i s j p h small fits used = ground arith
in_use-free_loop (suc n) i s j p h small fits used =
    let a = (s * page_size + i * page_size) % 2 ^ 64 in
    let e : a / page_size ≡ s + i = omega arith in
    let freed = λ (k : ℕ).
      in_use-pmm_free a k p (omega arith) (omega arith)
        (subst (λ x. in_use p x ≡ true) (sym e) (used (s + i) (omega arith) (omega arith))) in
    in_use-free_loop n (i + 1) s j (pmm_free a p) h (omega (arith, total-pmm_free a p))
      (omega (arith, total-pmm_free a p))
      (λ k l u. freed k ∙ ground (arith, used k (omega arith) (omega arith)))
    ∙ ground (arith, freed j)

-- `pmm_free_pages` frees the pages of a run in use, and no other.
pub in_use-pmm_free_pages :
    (count s j : ℕ) (p : Pmm)
    → 0 < s
    → p.total_pages ≤ bitmap_size * 32
    → s + count ≤ p.total_pages
    → ((k : ℕ) → s ≤ k → k < s + count → in_use p k ≡ true)
    → in_use (pmm_free_pages (s * page_size) count p) j ≡ (not (in_range s count j) && in_use p j)
unfolding pmm_free_pages
in_use-pmm_free_pages count s j p h small fits used =
    in_use-free_loop count 0 s j p h small (omega (arith, fits))
      (λ k lo hi. used k (omega (arith, lo)) (omega (arith, hi)))
    ∙ ground arith

-- Freed pages and `used_pages` are what they were before the allocation.
abbrev pub SamePages : Pmm → Pmm → Type 0
SamePages p q = ((j : ℕ) → in_use q j ≡ in_use p j) × (q.used_pages ≡ p.used_pages)

used_pages-congr :
    {p q : Pmm}
    → IsValid p
    → IsValid q
    → q.total_pages ≡ p.total_pages
    → ((j : ℕ) → in_use q j ≡ in_use p j)
    → q.used_pages ≡ p.used_pages
used_pages-congr {p} {q} v w e same =
    w.counted
    ∙ ap (used_below q.bitmap) e
    ∙ used_below-congr p.bitmap q.bitmap p.total_pages (λ j l. same j)
    ∙ sym v.counted

free_pages-Allocated :
    (count : ℕ) (p q : Pmm) (a : ℕ)
    → 0 < count
    → IsValid p
    → a ≢ null
    → q.total_pages ≡ p.total_pages
    → Allocated count p (a, q)
    → (j : ℕ) → in_use (pmm_free_pages a count q) j ≡ in_use p j
unfolding pmm_free_pages
free_pages-Allocated count p q a h v nz t (inl (z, none_fits, same)) j = absurd (nz z)
free_pages-Allocated count p q a h v nz t (inr (s, at, pos, fits, run, lowest, same)) j =
    subst (λ x. in_use (free_loop count 0 x q) j ≡ in_use p j) (sym at)
      (in_use-free_loop count 0 s j q (omega arith) (omega (arith, v.covered)) (omega arith)
          (λ k l u. same k ∙ ground arith)
        ∙ ground (arith, same j, run j))

-- For a valid allocator with page 0 in use and a count above 0: if `pmm_alloc_pages` does not
-- return NULL, freeing the pages that it returned with `pmm_free_pages` gives every page, and
-- `used_pages`, the state from before the allocation.
pub pmm_free_pages-pmm_alloc_pages :
    (count : ℕ) (p : Pmm)
    → 0 < count
    → IsValid p
    → in_use p 0 ≡ true
    → (pmm_alloc_pages count p).0 ≢ null
    → let (a, q) = pmm_alloc_pages count p in SamePages p (pmm_free_pages a count q)
pmm_free_pages-pmm_alloc_pages count p h v used nz =
    let (a, q) = pmm_alloc_pages count p in
    let same =
      free_pages-Allocated count p q a h v nz (total-pmm_alloc_pages count p)
        (pmm_alloc_pages-Allocated count p h v used) in
    (
      same,
      used_pages-congr v (pmm_free_pages-IsValid a count (pmm_alloc_pages-IsValid count v))
          (total-pmm_free_pages a count q ∙ total-pmm_alloc_pages count p) same,
    )
