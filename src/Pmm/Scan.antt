-- ===== src/Pmm/Scan.antt =====
-- The two searches of mm/pmm.c: the first free page, and the first run of free pages.
use thuban.Base.{
  ℕ, zero, suc, ◌+◌, ◌<◌, ◌≤◌, ◌≡◌, ◌≢◌, refl, true, false, arith, ◌==◌, if◌then◌else◌, ◌⊎◌, inl,
  inr, Bool-cases,
}
use native.Mathlib.Decide.{ℕ_discrete, dec_lt}
use mathlib.Core.Path.{subst}
use thuban.Pmm.{
  Pmm, no_page, bitmap_test, find_free_loop, find_free_page, find_run_loop, find_free_pages,
}

-- What a search for the first free page in `[i, j)` returns.
abbrev pub FirstFree : (ℕ → ℕ) → ℕ → ℕ → ℕ → Type 0
FirstFree m i j r =
    ((r ≡ no_page) × ((k : ℕ) → i ≤ k → k < j → bitmap_test m k ≡ true))
    ⊎ ((i ≤ r)
        × (r < j)
        × (bitmap_test m r ≡ false)
        × ((k : ℕ) → i ≤ k → k < r → bitmap_test m k ≡ true))

find_free_loop-FirstFree :
    (m : ℕ → ℕ) (n i j : ℕ) → i + n ≡ j → FirstFree m i j (find_free_loop m n i)
unfolding find_free_loop
find_free_loop-FirstFree m zero i j e = inl (refl, λ k l u. absurd (omega arith))
find_free_loop-FirstFree m (suc n) i j e = elim (Bool-cases (bitmap_test m i)) [
  | inl used ↦ rw used (next used (find_free_loop-FirstFree m n (i + 1) j (omega arith)))
  | inr free ↦ rw free (inr (omega arith, omega arith, free, λ k l u. absurd (omega arith)))
]
  where
    next :
        bitmap_test m i ≡ true
        → FirstFree m (i + 1) j (find_free_loop m n (i + 1))
        → FirstFree m i j (find_free_loop m n (i + 1))
    next used (inl (e, all)) = inl (
      e,
      λ k l u. elim (ℕ_discrete i k) [
        | yes at ↦ subst (λ x. bitmap_test m x ≡ true) at used
        | no ne ↦ all k (omega arith) u
      ],
    )
    next used (inr (lo, hi, free, all)) = inr (
      omega arith,
      hi,
      free,
      λ k l u. elim (ℕ_discrete i k) [
        | yes at ↦ subst (λ x. bitmap_test m x ≡ true) at used
        | no ne ↦ all k (omega arith) u
      ],
    )

-- `find_free_page` returns the lowest free page, or -1 exactly when every page is in use.
pub find_free_page-FirstFree : (p : Pmm) → FirstFree p.bitmap 0 p.total_pages (find_free_page p)
unfolding find_free_page
find_free_page-FirstFree p =
    find_free_loop-FirstFree p.bitmap p.total_pages 0 p.total_pages (omega arith)

-- The `count` pages from `a` on are free.
abbrev pub FreeRun : (ℕ → ℕ) → ℕ → ℕ → Type 0
FreeRun m count a = (k : ℕ) → a ≤ k → k < a + count → bitmap_test m k ≡ false

-- What a search for the first run of `count` free pages below `j` returns.
abbrev pub FirstRun : (ℕ → ℕ) → ℕ → ℕ → ℕ → Type 0
FirstRun m count j r =
    ((r ≡ no_page) × ((a : ℕ) → a + count ≤ j → ¬ FreeRun m count a))
    ⊎ ((r + count ≤ j) × FreeRun m count r × ((a : ℕ) → a < r → ¬ FreeRun m count a))

-- The variables of the loop at page `i`: the `found` pages before it are free and begin at
-- `start`, and no run of `count` pages begins before them.
record Scanning (m : ℕ → ℕ) (count i found start : ℕ) : Type 0 where
  short : found < count
  behind : found ≤ i
  begins : found ≢ 0 → start + found ≡ i
  free : (k : ℕ) → i ≤ k + found → k < i → bitmap_test m k ≡ false
  none_before : (a : ℕ) → a + found < i → ¬ FreeRun m count a

module _ (m : ℕ → ℕ) (count : ℕ) where
  -- Where the run that ends behind page `i` begins.
  begin_at : (i found start : ℕ) → ℕ
  begin_at i found start = if found == 0 then i else start

  begin_at-eq :
      (i found start : ℕ) → Scanning m count i found start → begin_at i found start + found ≡ i
  unfolding begin_at
  begin_at-eq i found start s = elim (ℕ_discrete found 0) [
    | yes z ↦ ground arith
    | no ne ↦ ground (arith, s.begins ne)
  ]

  free_to :
      (i found start k : ℕ)
      → Scanning m count i found start
      → bitmap_test m i ≡ false
      → i + 1 ≤ k + (found + 1)
      → k < i + 1
      → bitmap_test m k ≡ false
  free_to i found start k s free l u = elim (ℕ_discrete i k) [
    | yes at ↦ subst (λ x. bitmap_test m x ≡ false) at free
    | no ne ↦ s.free k (omega arith) (omega arith)
  ]

  Scanning-extend :
      (i found start : ℕ)
      → Scanning m count i found start
      → bitmap_test m i ≡ false
      → found + 1 ≢ count
      → Scanning m count (i + 1) (found + 1) (begin_at i found start)
  Scanning-extend i found start s free ne = record {
    short = omega (arith, s.short);
    behind = omega (arith, s.behind);
    begins = λ _. omega (arith, begin_at-eq i found start s);
    free = λ k l u. free_to i found start k s free l u;
    none_before = λ a l. s.none_before a (omega arith);
  }

  Scanning-restart :
      (i found start : ℕ)
      → Scanning m count i found start
      → bitmap_test m i ≡ true
      → Scanning m count (i + 1) 0 start
  Scanning-restart i found start s used = record {
    short = omega (arith, s.short);
    behind = omega arith;
    begins = λ ne. absurd (ne refl);
    free = λ k l u. absurd (omega arith);
    none_before = λ a l run. elim (dec_lt (a + found) i) [
      | yes before ↦ s.none_before a before run
      | no over ↦ ground (arith, run i (omega arith) (omega (arith, s.short)))
    ];
  }

  FirstRun-found :
      (i found start j : ℕ)
      → Scanning m count i found start
      → bitmap_test m i ≡ false
      → found + 1 ≡ count
      → i < j
      → FirstRun m count j (begin_at i found start)
  FirstRun-found i found start j s free e u = inr (
    omega (arith, begin_at-eq i found start s),
    (λ k l h.
        free_to i found start k s free (omega (arith, begin_at-eq i found start s))
          (omega (arith, begin_at-eq i found start s))),
    (λ a l. s.none_before a (omega (arith, begin_at-eq i found start s))),
  )

  find_run_loop-FirstRun :
      (n i found start j : ℕ)
      → i + n ≡ j
      → Scanning m count i found start
      → FirstRun m count j (find_run_loop m count n i found start)
  unfolding find_run_loop begin_at
  find_run_loop-FirstRun zero i found start j e s =
      inl (refl, λ a h. s.none_before a (omega (arith, s.short)))
  find_run_loop-FirstRun (suc n) i found start j e s = elim (Bool-cases (bitmap_test m i)) [
    | inl used ↦ rw used (
        find_run_loop-FirstRun n (i + 1) 0 start j (omega arith)
          (Scanning-restart i found start s used))
    | inr free ↦ rw free (elim (Bool-cases ((found + 1) == count)) [
      | inl full ↦ rw full (FirstRun-found i found start j s free (ground arith) (omega arith))
      | inr more ↦ rw more (
          find_run_loop-FirstRun n (i + 1) (found + 1) (begin_at i found start) j (omega arith)
            (Scanning-extend i found start s free (ground arith)))
    ])
  ]

-- For a count above 0, `find_free_pages` returns the start of the lowest run of `count` free pages
-- below `total_pages`, or -1 when there is no such run.
pub find_free_pages-FirstRun :
    (p : Pmm) (count : ℕ)
    → 0 < count
    → FirstRun p.bitmap count p.total_pages (find_free_pages p count)
unfolding find_free_pages
find_free_pages-FirstRun p count h =
    find_run_loop-FirstRun p.bitmap count p.total_pages 0 0 0 p.total_pages (omega arith) (record {
      short = h;
      behind = omega arith;
      begins = λ ne. absurd (ne refl);
      free = λ k l u. absurd (omega arith);
      none_before = λ a l. absurd (omega arith);
    })
