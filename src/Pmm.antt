-- ===== src/Pmm.antt =====
-- mm/pmm.c: the physical page allocator. A bitmap has one bit for each page, set when the page is
-- in use; page `i` is bit `i % 32` of word `i / 32`. An address is a 64-bit number and NULL is 0.
-- The address that the linker gives `_kernel_end` is an argument of `pmm_init`.
-- The array `bitmap` is a function of the word's index.
pub mod Bitmap
pub mod Scan
pub mod Invariant
pub mod Alloc
pub mod Release
pub mod Init
mod Tests
use thuban.Base.{
  ℕ, zero, suc, ◌+◌, ◌-◌, ◌*◌, ◌/◌, ◌%◌, ◌^◌, bit_and, bit_or, Bool, not, ltb, ◌==◌, if◌then◌else◌,
}
use thuban.Base.Bits.{complement_mask}
use thuban.Base.Store.{update}
use thuban.Lock.{Guard, spin_lock, spin_unlock, spin_lock_init}

abbrev pub bitmap_size : ℕ
bitmap_size = 32768

abbrev pub page_size : ℕ
page_size = 4096

-- `(uint64_t)-1`
abbrev pub no_page : ℕ
no_page = 2 ^ 64 - 1

abbrev pub null : ℕ
null = 0

-- The static variables of the file.
pub record Pmm : Type 0 where
  pub bitmap : ℕ → ℕ
  pub total_pages : ℕ
  pub used_pages : ℕ
  pub guard : Guard

pub bitmap_set : (ℕ → ℕ) → ℕ → ℕ → ℕ
bitmap_set m b = update m (b / 32) (bit_or (m (b / 32)) (2 ^ (b % 32)))

pub bitmap_clear : (ℕ → ℕ) → ℕ → ℕ → ℕ
bitmap_clear m b = update m (b / 32) (bit_and (m (b / 32)) (complement_mask 32 (b % 32)))

unfoldable pub bitmap_test : (ℕ → ℕ) → ℕ → Bool
bitmap_test m b = not (bit_and (m (b / 32)) (2 ^ (b % 32)) == 0)

-- The loop over `i`, with the rounds left.
pub find_free_loop : (ℕ → ℕ) → ℕ → ℕ → ℕ
find_free_loop m zero i = no_page
find_free_loop m (suc n) i =
    let rest = find_free_loop m n (i + 1) in if not (bitmap_test m i) then i else rest

pub find_free_page : Pmm → ℕ
find_free_page p = find_free_loop p.bitmap p.total_pages 0

-- The loop over `i`, with the rounds left and the variables `found` and `start`.
pub find_run_loop : (ℕ → ℕ) → ℕ → ℕ → ℕ → ℕ → ℕ → ℕ
find_run_loop m count zero i found start = no_page
find_run_loop m count (suc n) i found start =
    let start' = if found == 0 then i else start in
    let extended = find_run_loop m count n (i + 1) (found + 1) start' in
    let broken = find_run_loop m count n (i + 1) 0 start in
    if not (bitmap_test m i) then (if (found + 1) == count then start' else extended) else broken

pub find_free_pages : Pmm → ℕ → ℕ
find_free_pages p count = find_run_loop p.bitmap count p.total_pages 0 0 0

-- `used_pages++` and `used_pages--` on a `uint64_t`.
pub increment : ℕ → ℕ
increment n = (n + 1) % 2 ^ 64

pub decrement : ℕ → ℕ
decrement n = (n + 2 ^ 64 - 1) % 2 ^ 64

-- `bitmap_set(page); used_pages++;`
pub take_page : ℕ → Pmm → Pmm
take_page page p = record p {
  bitmap = bitmap_set p.bitmap page;
  used_pages = increment p.used_pages;
}

-- `bitmap_clear(page); used_pages--;`
pub drop_page : ℕ → Pmm → Pmm
drop_page page p = record p {
  bitmap = bitmap_clear p.bitmap page;
  used_pages = decrement p.used_pages;
}

-- `take_page` for each page of a range, with the rounds left.
pub mark_used : ℕ → ℕ → Pmm → Pmm
mark_used zero i p = p
mark_used (suc n) i p = mark_used n (i + 1) (take_page i p)

-- How many pages `pmm_init` reserves: those up to the end of the kernel, and 256 at least.
pub kernel_pages : ℕ → ℕ
kernel_pages kernel_end =
    let phys = (kernel_end + 2 ^ 64 - 0xFFFF_FFFF_8000_0000) % 2 ^ 64 in
    let pages = ((phys + page_size - 1) % 2 ^ 64) / page_size in
    if ltb pages 256 then 256 else pages

pub clamp_pages : ℕ → ℕ
clamp_pages mem_size =
    let pages = mem_size / page_size in
    if ltb (bitmap_size * 32) pages then bitmap_size * 32 else pages

pub pmm_init : (lock_name kernel_end : ℕ) → ℕ → Pmm → Pmm
pmm_init lock_name kernel_end mem_size p =
    let cleared = record p {
      bitmap = λ _. 0;
      total_pages = clamp_pages mem_size;
      used_pages = 0;
    } in
    let marked = mark_used (kernel_pages kernel_end) 0 cleared in
    record marked { guard = spin_lock_init lock_name marked.guard }

-- The address of a page: `page * PAGE_SIZE` on a `uint64_t`.
pub address : ℕ → ℕ
address page = (page * page_size) % 2 ^ 64

pub acquire : Pmm → Pmm
acquire p = record p { guard = spin_lock p.guard }

pub release : Pmm → Pmm
release p = record p { guard = spin_unlock p.guard }

pub pmm_alloc : Pmm → ℕ × Pmm
unfolding acquire release
pmm_alloc p =
    let q = acquire p in
    let page = find_free_page q in
    if page == no_page then (null, release q) else (address page, release (take_page page q))

-- The critical section of `pmm_alloc_pages`.
pub alloc_run : ℕ → Pmm → ℕ × Pmm
alloc_run count p =
    let q = acquire p in
    let start = find_free_pages q count in
    if start == no_page
    then (null, release q)
    else (address start, release (mark_used count start q))

pub pmm_alloc_pages : ℕ → Pmm → ℕ × Pmm
pmm_alloc_pages count p =
    if count == 0 then (null, p) else if count == 1 then pmm_alloc p else alloc_run count p

pub pmm_free : ℕ → Pmm → Pmm
unfolding acquire release
pmm_free page p =
    if page == null
    then p
    else (let q = acquire p in
        let num = page / page_size in
        if not (ltb num q.total_pages)
        then release q
        else if not (bitmap_test q.bitmap num)
        then release q
        else release (drop_page num q))

-- The loop over `i`, with the rounds left.
pub free_loop : ℕ → ℕ → ℕ → Pmm → Pmm
free_loop zero i page p = p
free_loop (suc n) i page p = free_loop n (i + 1) page (pmm_free ((page + i * page_size) % 2 ^ 64) p)

pub pmm_free_pages : ℕ → ℕ → Pmm → Pmm
pmm_free_pages page count p = free_loop count 0 page p

pub pmm_get_total_memory : Pmm → ℕ × Pmm
unfolding acquire release
pmm_get_total_memory p = let q = acquire p in ((q.total_pages * page_size) % 2 ^ 64, release q)

pub pmm_get_used_memory : Pmm → ℕ × Pmm
unfolding acquire release
pmm_get_used_memory p = let q = acquire p in ((q.used_pages * page_size) % 2 ^ 64, release q)

pub pmm_get_free_memory : Pmm → ℕ × Pmm
unfolding acquire release
pmm_get_free_memory p =
    let q = acquire p in
    ((((q.total_pages + 2 ^ 64 - q.used_pages) % 2 ^ 64) * page_size) % 2 ^ 64, release q)
