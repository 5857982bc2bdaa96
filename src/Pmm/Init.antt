-- ===== src/Pmm/Init.antt =====
-- What `pmm_init` sets up, the statistics, and the lock around every function of mm/pmm.c.
use thuban.Base.{
  ℕ, zero, suc, ◌+◌, ◌-◌, ◌*◌, ◌/◌, ◌%◌, ◌^◌, ◌<◌, ◌≤◌, ◌≡◌, refl, sym, ◌∙◌, false, arith, ltb,
  if◌then◌else◌,
}
use thuban.Base.Bits.{bit-zero}
use thuban.Lock.{Guard, spin_lock, spin_unlock}
use thuban.Pmm.{
  Pmm, page_size, bitmap_test, increment, find_free_pages, take_page, drop_page, mark_used,
  kernel_pages, clamp_pages, pmm_init, pmm_alloc, alloc_run, pmm_alloc_pages, pmm_free,
  pmm_free_pages, free_loop, acquire, release, pmm_get_total_memory, pmm_get_used_memory,
  pmm_get_free_memory,
}
use thuban.Pmm.Bitmap.{bitmap_test-bit, used_below, used_below-le}
use thuban.Pmm.Invariant.{
  in_use, IsValid, in_use-mark_used, mark_used-IsValid, total-mark_used, pages_many,
}

bitmap_test-cleared : (j : ℕ) → bitmap_test (λ _. 0) j ≡ false
bitmap_test-cleared j = bitmap_test-bit (λ _. 0) j ∙ bit-zero (j % 32)

used_below-cleared : (n : ℕ) → used_below (λ _. 0) n ≡ 0
unfolding used_below
used_below-cleared zero = refl
used_below-cleared (suc n) = rw (bitmap_test-cleared n) (omega (arith, used_below-cleared n))

cleared : ℕ → Pmm → Pmm
cleared mem_size p = record p {
  bitmap = λ _. 0;
  total_pages = clamp_pages mem_size;
  used_pages = 0;
}

cleared-IsValid : (mem_size : ℕ) (p : Pmm) → IsValid (cleared mem_size p)
unfolding cleared clamp_pages
cleared-IsValid mem_size p = record {
  covered = ground arith;
  counted = sym (used_below-cleared (clamp_pages mem_size));
}

kernel_pages_bounds :
    (kernel_end : ℕ) → (256 ≤ kernel_pages kernel_end) × (kernel_pages kernel_end ≤ 2 ^ 52)
unfolding kernel_pages
kernel_pages_bounds kernel_end = ground arith

IsValid-guard : (p : Pmm) (g : Guard) → IsValid p → IsValid (record p { guard = g })
IsValid-guard p g v = record { covered = v.covered; counted = v.counted }

-- If the kernel's reserved pages fit into the memory, `pmm_init` makes the allocator valid; the
-- pages in use are exactly those below the end of the kernel, at least the 256 of the first
-- megabyte.
pub pmm_init-IsValid :
    (name kernel_end mem_size : ℕ) (p : Pmm)
    → kernel_pages kernel_end ≤ clamp_pages mem_size
    → let q = pmm_init name kernel_end mem_size p in
      IsValid q
      × (256 ≤ kernel_pages kernel_end)
      × ((j : ℕ) → in_use q j ≡ ltb j (kernel_pages kernel_end))
unfolding pmm_init cleared
pmm_init-IsValid name kernel_end mem_size p h =
    let n = kernel_pages kernel_end in
    let start = cleared mem_size p in
    (
      IsValid-guard (mark_used n 0 start) _ (
          mark_used-IsValid n 0 (cleared-IsValid mem_size p) (omega arith)
            (λ k l u. bitmap_test-cleared k)),
      (kernel_pages_bounds kernel_end).0,
      λ j. in_use-mark_used n 0 j start ∙ ground (arith, bitmap_test-cleared j),
    )

-- For a valid allocator the three statistics do not wrap, and free and used memory add up to the
-- total.
pub memory_adds_up :
    (p : Pmm)
    → IsValid p
    → (pmm_get_free_memory p).0 + (pmm_get_used_memory p).0 ≡ (pmm_get_total_memory p).0
unfolding pmm_get_free_memory pmm_get_used_memory pmm_get_total_memory acquire
memory_adds_up p v = omega (arith, v.covered, v.counted, used_below-le p.bitmap p.total_pages)

-- `total_pages` is capped at 2^20 pages, which are 4 GiB: no allocator reports more.
pub total_memory_cap :
    (name kernel_end mem_size : ℕ) (p : Pmm)
    → (pmm_get_total_memory (pmm_init name kernel_end mem_size p)).0
      ≡ (if ltb (2 ^ 32) mem_size then 2 ^ 32 else (mem_size / 4096 * 4096))
unfolding pmm_get_total_memory pmm_init acquire clamp_pages
total_memory_cap name kernel_end mem_size p = ground (
  arith,
  total-mark_used (kernel_pages kernel_end) 0
      (record p { bitmap = λ _. 0; total_pages = clamp_pages mem_size; used_pages = 0 }),
)

used-mark_used :
    (n i : ℕ) (p : Pmm)
    → p.used_pages + n < 2 ^ 64
    → (mark_used n i p).used_pages ≡ p.used_pages + n
unfolding mark_used take_page increment
used-mark_used zero i p h = omega arith
used-mark_used (suc n) i p h = used-mark_used n (i + 1) (take_page i p) (omega arith) ∙ omega arith

-- If the memory ends before the reserved pages do, `pmm_init` counts more pages in use than there
-- are, and `pmm_get_free_memory` returns the difference wrapped around 2^64.
pub free_memory_wraps :
    (name kernel_end mem_size : ℕ) (p : Pmm)
    → clamp_pages mem_size < kernel_pages kernel_end
    → (pmm_get_free_memory (pmm_init name kernel_end mem_size p)).0
      ≡ 2 ^ 64 - (kernel_pages kernel_end - clamp_pages mem_size) * page_size
unfolding pmm_get_free_memory pmm_init acquire
free_memory_wraps name kernel_end mem_size p h =
    let start = record p { bitmap = λ _. 0; total_pages = clamp_pages mem_size; used_pages = 0 } in
    let bounds = kernel_pages_bounds kernel_end in
    omega (
      arith,
      bounds,
      used-mark_used (kernel_pages kernel_end) 0 start (omega (arith, bounds)),
      total-mark_used (kernel_pages kernel_end) 0 start,
    )

guard-mark_used : (n i : ℕ) (p : Pmm) → (mark_used n i p).guard ≡ p.guard
unfolding mark_used take_page
guard-mark_used zero i p = refl
guard-mark_used (suc n) i p = guard-mark_used n (i + 1) (take_page i p)

-- RFLAGS is back, and the lock is free if it was.
abbrev pub Released : Pmm → Pmm → Type 0
Released p q =
    (q.guard.rflags ≡ p.guard.rflags) × (p.guard.lock.locked ≡ 0 → q.guard.lock.locked ≡ 0)

Released-release : (p : Pmm) → Released p (release (acquire p))
unfolding release acquire spin_lock spin_unlock
Released-release p = (refl, λ _. refl)

Released-pmm_free : (a : ℕ) (p : Pmm) → Released p (pmm_free a p)
unfolding pmm_free release acquire spin_lock spin_unlock drop_page
Released-pmm_free a p = ground arith

Released-pmm_alloc : (p : Pmm) → Released p (pmm_alloc p).1
unfolding pmm_alloc release acquire spin_lock spin_unlock take_page
Released-pmm_alloc p = ground arith

Released-alloc_run : (count : ℕ) (p : Pmm) → Released p (alloc_run count p).1
unfolding alloc_run release acquire spin_lock spin_unlock
Released-alloc_run count p =
    ground (arith, guard-mark_used count (find_free_pages (acquire p) count) (acquire p))

Released-pmm_alloc_pages : (count : ℕ) (p : Pmm) → Released p (pmm_alloc_pages count p).1
unfolding pmm_alloc_pages
Released-pmm_alloc_pages zero p = (refl, λ h. h)
Released-pmm_alloc_pages (suc zero) p = Released-pmm_alloc p
Released-pmm_alloc_pages (suc (suc n)) p =
    rw (pages_many (suc (suc n)) p (omega arith)) (Released-alloc_run (suc (suc n)) p)

Released-free_loop : (n i a : ℕ) (p : Pmm) → Released p (free_loop n i a p)
unfolding free_loop
Released-free_loop zero i a p = (refl, λ h. h)
Released-free_loop (suc n) i a p =
    let b = (a + i * page_size) % 2 ^ 64 in
    let first = Released-pmm_free b p in
    let rest = Released-free_loop n (i + 1) a (pmm_free b p) in
    (rest.0 ∙ first.0, λ h. rest.1 (first.1 h))

-- Every function of mm/pmm.c that takes the lock gives it back on every path, and returns with
-- RFLAGS as it found it.
pub pmm-Released :
    (p : Pmm) (a count : ℕ)
    → Released p (pmm_alloc p).1
      × Released p (pmm_alloc_pages count p).1
      × Released p (pmm_free a p)
      × Released p (pmm_free_pages a count p)
      × Released p (pmm_get_total_memory p).1
      × Released p (pmm_get_used_memory p).1
      × Released p (pmm_get_free_memory p).1
unfolding pmm_free_pages pmm_get_total_memory pmm_get_used_memory pmm_get_free_memory
pmm-Released p a count = (
  Released-pmm_alloc p,
  Released-pmm_alloc_pages count p,
  Released-pmm_free a p,
  Released-free_loop count 0 a p,
  Released-release p,
  Released-release p,
  Released-release p,
)
