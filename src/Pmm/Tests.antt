-- ===== src/Pmm/Tests.antt =====
-- The page allocator on a memory of eight pages with page 0 in use, and theorems applied to it.
use thuban.Base.{ℕ, ◌*◌, ◌-◌, ◌^◌, ◌≤◌, ◌≡◌, refl, if◌then◌else◌, ◌==◌, true, arith, ltb}
use thuban.Pmm.{
  acquire, Pmm, bitmap_test, find_run_loop, find_free_pages, pmm_alloc_pages, alloc_run,
  pmm_free_pages, pmm_init, kernel_pages, clamp_pages, page_size, pmm_get_free_memory, address,
}
use thuban.Pmm.Bitmap.{used_below}
use thuban.Pmm.Invariant.{IsValid, in_use, pmm_alloc_pages-IsValid, pmm_free_pages-IsValid}
use thuban.Pmm.Alloc.{Allocated, pmm_alloc_pages-Allocated}
use thuban.Pmm.Release.{SamePages, pmm_free_pages-pmm_alloc_pages}
use thuban.Pmm.Init.{pmm_init-IsValid, free_memory_wraps}

abbrev eight_pages : Pmm
eight_pages = record {
  bitmap = λ w. if w == 0 then 9 else 0;
  total_pages = 8;
  used_pages = 2;
  guard = record { lock = record { flags = 0; locked = 0; name = 0 }; rflags = 2 ^ 9 };
}

eight_pages-IsValid : IsValid eight_pages
unfolding used_below bitmap_test
eight_pages-IsValid = record { covered = omega arith; counted = refl }

eight_pages-in_use : in_use eight_pages 0 ≡ true
unfolding bitmap_test
eight_pages-in_use = refl

three_pages : find_free_pages eight_pages 3 ≡ 4
unfolding find_free_pages find_run_loop bitmap_test
three_pages = refl

three_allocated : (pmm_alloc_pages 3 eight_pages).0 ≡ 4 * 4096
unfolding pmm_alloc_pages alloc_run find_free_pages find_run_loop bitmap_test address acquire
three_allocated = refl

pmm_alloc_pages-Allocated_example : Allocated 3 eight_pages (pmm_alloc_pages 3 eight_pages)
pmm_alloc_pages-Allocated_example =
    pmm_alloc_pages-Allocated 3 eight_pages (omega arith) eight_pages-IsValid eight_pages-in_use

pmm_alloc_pages-IsValid_example : IsValid (pmm_alloc_pages 3 eight_pages).1
pmm_alloc_pages-IsValid_example = pmm_alloc_pages-IsValid 3 eight_pages-IsValid

pmm_free_pages-IsValid_example : IsValid (pmm_free_pages 0x3000 2 eight_pages)
pmm_free_pages-IsValid_example = pmm_free_pages-IsValid 0x3000 2 eight_pages-IsValid

pmm_free_pages-pmm_alloc_pages_example :
    SamePages eight_pages
      (pmm_free_pages (pmm_alloc_pages 3 eight_pages).0 3 (pmm_alloc_pages 3 eight_pages).1)
pmm_free_pages-pmm_alloc_pages_example =
    pmm_free_pages-pmm_alloc_pages 3 eight_pages (omega arith) eight_pages-IsValid
      eight_pages-in_use (ground (arith, three_allocated))

-- The kernel ends two megabytes above its base.
abbrev kernel_end : ℕ
kernel_end = 0xFFFF_FFFF_8020_0000

kernel_of_two_megabytes : kernel_pages kernel_end ≡ 512
unfolding kernel_pages
kernel_of_two_megabytes = refl

sixteen_megabytes : clamp_pages 0x100_0000 ≡ 4096
unfolding clamp_pages
sixteen_megabytes = refl

one_megabyte : clamp_pages 0x10_0000 ≡ 256
unfolding clamp_pages
one_megabyte = refl

pmm_init-IsValid_example :
    let q = pmm_init 0 kernel_end 0x100_0000 eight_pages in
    IsValid q
    × (256 ≤ kernel_pages kernel_end)
    × ((j : ℕ) → in_use q j ≡ ltb j (kernel_pages kernel_end))
pmm_init-IsValid_example =
    pmm_init-IsValid 0 kernel_end 0x100_0000 eight_pages
      (omega (arith, kernel_of_two_megabytes, sixteen_megabytes))

free_memory_wraps_example :
    (pmm_get_free_memory (pmm_init 0 kernel_end 0x10_0000 eight_pages)).0
    ≡ 2 ^ 64 - (kernel_pages kernel_end - clamp_pages 0x10_0000) * page_size
free_memory_wraps_example =
    free_memory_wraps 0 kernel_end 0x10_0000 eight_pages
      (omega (arith, kernel_of_two_megabytes, one_megabyte))
