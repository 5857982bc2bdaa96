-- ===== src/Pmm/Invariant.antt =====
-- The invariant of the page allocator, and that each function of mm/pmm.c keeps it.
use thuban.Base.{
  ℕ, zero, suc, ◌+◌, ◌*◌, ◌/◌, ◌%◌, ◌^◌, ◌<◌, ◌≤◌, ◌≡◌, ◌≢◌, refl, sym, ◌∙◌, Bool, true, false,
  arith, ◌==◌, ltb, ◌&&◌, ◌||◌, leb, if◌then◌else◌, ◌⊎◌, inl, inr, Bool-cases,
}
use mathlib.Core.Path.{subst}
use thuban.Pmm.{
  Pmm, no_page, page_size, bitmap_size, bitmap_test, find_free_page, find_free_pages, increment,
  decrement, take_page, drop_page, mark_used, pmm_alloc, alloc_run, pmm_alloc_pages, pmm_free,
  pmm_free_pages, free_loop, acquire, release, null,
}
use thuban.Pmm.Bitmap.{
  bitmap_test-set, bitmap_test-clear, used_below, used_below-le, used_below-set, used_below-clear,
  used_below-lt,
}
use thuban.Pmm.Scan.{FreeRun, find_free_page-FirstFree, find_free_pages-FirstRun}

-- Is the page in use?
abbrev pub in_use : Pmm → ℕ → Bool
in_use p i = bitmap_test p.bitmap i

-- The bitmap covers the pages, and `used_pages` counts those whose bit is set.
pub record IsValid (p : Pmm) : Type 0 where
  pub covered : p.total_pages ≤ bitmap_size * 32
  pub counted : p.used_pages ≡ used_below p.bitmap p.total_pages

pub in_use-take_page :
    (i j : ℕ) (p : Pmm) → in_use (take_page i p) j ≡ (if i == j then true else in_use p j)
unfolding take_page
in_use-take_page i j p = bitmap_test-set p.bitmap i j

pub in_use-drop_page :
    (i j : ℕ) (p : Pmm) → in_use (drop_page i p) j ≡ (if i == j then false else in_use p j)
unfolding drop_page
in_use-drop_page i j p = bitmap_test-clear p.bitmap i j

pub take_page-IsValid :
    (i : ℕ) {p : Pmm} → IsValid p → i < p.total_pages → in_use p i ≡ false → IsValid (take_page i p)
unfolding take_page increment
take_page-IsValid i {p} v h e = record {
  covered = v.covered;
  counted = omega (
    arith,
    v.counted,
    v.covered,
    used_below-set p.bitmap i p.total_pages h e,
    used_below-lt p.bitmap i p.total_pages h e,
  );
}

pub drop_page-IsValid :
    (i : ℕ) {p : Pmm} → IsValid p → i < p.total_pages → in_use p i ≡ true → IsValid (drop_page i p)
unfolding drop_page decrement
drop_page-IsValid i {p} v h e = record {
  covered = v.covered;
  counted = omega (
    arith,
    v.counted,
    v.covered,
    used_below-clear p.bitmap i p.total_pages h e,
    used_below-le p.bitmap p.total_pages,
  );
}

pub total-take_page : (i : ℕ) (p : Pmm) → (take_page i p).total_pages ≡ p.total_pages
unfolding take_page
total-take_page i p = refl

pub total-mark_used : (n i : ℕ) (p : Pmm) → (mark_used n i p).total_pages ≡ p.total_pages
unfolding mark_used
total-mark_used zero i p = refl
total-mark_used (suc n) i p = total-mark_used n (i + 1) (take_page i p) ∙ total-take_page i p

-- A page of the range is in use afterwards, and the others are what they were.
pub in_use-mark_used :
    (n i j : ℕ) (p : Pmm) → in_use (mark_used n i p) j ≡ ((leb i j && ltb j (i + n)) || in_use p j)
unfolding mark_used
in_use-mark_used zero i j p = ground arith
in_use-mark_used (suc n) i j p =
    in_use-mark_used n (i + 1) j (take_page i p) ∙ ground (arith, in_use-take_page i j p)

pub mark_used-IsValid :
    (n i : ℕ) {p : Pmm}
    → IsValid p
    → i + n ≤ p.total_pages
    → ((k : ℕ) → i ≤ k → k < i + n → in_use p k ≡ false)
    → IsValid (mark_used n i p)
unfolding mark_used
mark_used-IsValid zero i v h free = v
mark_used-IsValid (suc n) i {p} v h free =
    mark_used-IsValid n (i + 1)
      (take_page-IsValid i v (omega arith) (free i (omega arith) (omega arith)))
      (omega (arith, total-take_page i p))
      (λ k l u. in_use-take_page i k p ∙ ground (arith, free k (omega arith) (omega arith)))

pub acquire-IsValid : {p : Pmm} → IsValid p → IsValid (acquire p)
unfolding acquire
acquire-IsValid v = record { covered = v.covered; counted = v.counted }

pub release-IsValid : {p : Pmm} → IsValid p → IsValid (release p)
unfolding release
release-IsValid v = record { covered = v.covered; counted = v.counted }

pub in_use-acquire : (p : Pmm) (i : ℕ) → in_use (acquire p) i ≡ in_use p i
unfolding acquire
in_use-acquire p i = refl

pub in_use-release : (p : Pmm) (i : ℕ) → in_use (release p) i ≡ in_use p i
unfolding release
in_use-release p i = refl

pub total-acquire : (p : Pmm) → (acquire p).total_pages ≡ p.total_pages
unfolding acquire
total-acquire p = refl

-- What the searches find, for a valid allocator: a page below `total_pages` is never -1.
pub found_page :
    {p : Pmm}
    → IsValid p
    → find_free_page p ≢ no_page
    → (find_free_page p < p.total_pages)
      × (in_use p (find_free_page p) ≡ false)
      × ((k : ℕ) → k < find_free_page p → in_use p k ≡ true)
found_page {p} v ne = elim (find_free_page-FirstFree p) [
  | inl (e, all) ↦ absurd (ne e)
  | inr (lo, hi, free, before) ↦ (hi, free, λ k l. before k (omega arith) l)
]

pub found_run :
    (p : Pmm) (count : ℕ)
    → 0 < count
    → find_free_pages p count ≢ no_page
    → (find_free_pages p count + count ≤ p.total_pages)
      × FreeRun p.bitmap count (find_free_pages p count)
      × ((a : ℕ) → a < find_free_pages p count → ¬ FreeRun p.bitmap count a)
found_run p count h ne = elim (find_free_pages-FirstRun p count h) [
  | inl (e, all) ↦ absurd (ne e)
  | inr found ↦ found
]

-- `pmm_alloc` keeps the count of the pages in use right.
pub pmm_alloc-IsValid : {p : Pmm} → IsValid p → IsValid (pmm_alloc p).1
unfolding pmm_alloc
pmm_alloc-IsValid {p} v = elim (Bool-cases (find_free_page (acquire p) == no_page)) [
  | inl full ↦ rw full (release-IsValid (acquire-IsValid v))
  | inr got ↦
      let w = acquire-IsValid v in
      let found = found_page w (ground arith) in
      rw got (release-IsValid (take_page-IsValid (find_free_page (acquire p)) w found.0 found.1))
]

pub pages_many : (count : ℕ) (p : Pmm) → 1 < count → pmm_alloc_pages count p ≡ alloc_run count p
unfolding pmm_alloc_pages
pages_many count p h = ground arith

alloc_run-IsValid : (count : ℕ) {p : Pmm} → 0 < count → IsValid p → IsValid (alloc_run count p).1
unfolding alloc_run
alloc_run-IsValid count {p} h v = elim (Bool-cases (find_free_pages (acquire p) count == no_page)) [
  | inl full ↦ rw full (release-IsValid (acquire-IsValid v))
  | inr got ↦
      let w = acquire-IsValid v in
      let found = found_run (acquire p) count h (ground arith) in
      rw got (
        release-IsValid
          (mark_used-IsValid count (find_free_pages (acquire p) count) w found.0 found.1))
]

-- `pmm_alloc_pages`, for every count, keeps the allocator valid: `total_pages` fits the bitmap, and
-- `used_pages` is the number of bits set below it.
pub pmm_alloc_pages-IsValid :
    (count : ℕ) {p : Pmm} → IsValid p → IsValid (pmm_alloc_pages count p).1
unfolding pmm_alloc_pages
pmm_alloc_pages-IsValid zero v = v
pmm_alloc_pages-IsValid (suc zero) v = pmm_alloc-IsValid v
pmm_alloc_pages-IsValid (suc (suc n)) {p} v =
    rw (pages_many (suc (suc n)) p (omega arith)) (alloc_run-IsValid (suc (suc n)) (omega arith) v)

-- What `pmm_free` does with an address, its four branches apart.
pub data Freed (page : ℕ) (p : Pmm) : Pmm → Type 0 where
  ignored :
      (page ≡ null) ⊎ (p.total_pages ≤ page / page_size) ⊎ (in_use p (page / page_size) ≡ false)
      → {q : Pmm} → (q ≡ p) ⊎ (q ≡ release (acquire p))
      → Freed page p q
  dropped :
      page ≢ null
      → page / page_size < p.total_pages
      → in_use p (page / page_size) ≡ true
      → {q : Pmm} → q ≡ release (drop_page (page / page_size) (acquire p))
      → Freed page p q

pub pmm_free-Freed : (page : ℕ) (p : Pmm) → Freed page p (pmm_free page p)
unfolding pmm_free acquire
pmm_free-Freed page p = elim (Bool-cases (page == null)) [
  | inl z ↦ rw z (ignored (inl (ground arith)) (inl refl))
  | inr nz ↦ rw nz (elim (Bool-cases (ltb (page / page_size) (acquire p).total_pages)) [
    | inr out ↦ rw out (ignored (inr (inl (ground arith))) (inr refl))
    | inl inside ↦ rw inside (elim (Bool-cases (in_use (acquire p) (page / page_size))) [
      | inr free ↦ rw free (ignored (inr (inr free)) (inr refl))
      | inl used ↦ rw used (dropped (ground arith) (ground arith) used refl)
    ])
  ])
]

-- `pmm_free` keeps the count right, whatever address it is given.
pub pmm_free-IsValid : (page : ℕ) {p : Pmm} → IsValid p → IsValid (pmm_free page p)
pmm_free-IsValid page {p} v = keep (pmm_free-Freed page p)
  where
    keep : {q : Pmm} → Freed page p q → IsValid q
    keep (ignored why (inl e)) = subst IsValid (sym e) v
    keep (ignored why (inr e)) = subst IsValid (sym e) (release-IsValid (acquire-IsValid v))
    keep (dropped nz inside used e) = subst IsValid (sym e) (
        release-IsValid (
          drop_page-IsValid (page / page_size) (acquire-IsValid v) (omega (arith, total-acquire p))
            (in_use-acquire p (page / page_size) ∙ used)))

free_loop-IsValid : (n i page : ℕ) {p : Pmm} → IsValid p → IsValid (free_loop n i page p)
unfolding free_loop
free_loop-IsValid zero i page v = v
free_loop-IsValid (suc n) i page v =
    free_loop-IsValid n (i + 1) page (pmm_free-IsValid ((page + i * page_size) % 2 ^ 64) v)

-- `pmm_free_pages`, whatever address and count it is given, keeps the allocator valid: a double
-- free or an address out of range does not spoil `used_pages`.
pub pmm_free_pages-IsValid :
    (page count : ℕ) {p : Pmm} → IsValid p → IsValid (pmm_free_pages page count p)
unfolding pmm_free_pages
pmm_free_pages-IsValid page count v = free_loop-IsValid count 0 page v
