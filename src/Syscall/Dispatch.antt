-- ===== src/Syscall/Dispatch.antt =====
-- Which function serves a system call, and what the calls that cannot be served return.
use thuban.Base.{
  ℕ, ◌≡◌, ◌≢◌, refl, Bool, true, false, ◌&&◌, none, some, ◌==◌, leb, ltb, if◌then◌else◌, arith, inl,
  inr, Bool-cases,
}
use thuban.Base.Int.{ℤ, pos, negsuc}
use thuban.Base.Store.{update}
use thuban.Syscall.{
  Os, Handler, Table, syscall_max, failure, syscall_register, syscall_handler, syscall_init,
  sys_exit_impl, sys_write_impl, sys_read_impl, sys_getpid_impl, sys_yield_impl, sys_open_impl,
  sys_close_impl, sys_lseek_impl, sys_stat_impl, sys_fstat_impl, sys_mkdir_impl, sys_rmdir_impl,
  sys_getdents_impl, sys_unlink_impl,
}

-- Does a registration for `num` concern the call `n`?
pub concerns : ℤ → ℕ → Bool
concerns (pos num) n = num == n && ltb n syscall_max
concerns (negsuc _) n = false

-- The calls that the kernel implements, and their numbers in include/thuban/syscall.h.
pub data Call : Type 0 where
  sys_exit : Call
  sys_write : Call
  sys_read : Call
  sys_open : Call
  sys_close : Call
  sys_getpid : Call
  sys_yield : Call
  sys_lseek : Call
  sys_stat : Call
  sys_fstat : Call
  sys_mkdir : Call
  sys_rmdir : Call
  sys_getdents : Call
  sys_unlink : Call

pub number : Call → ℕ
number sys_exit = 0
number sys_write = 1
number sys_read = 2
number sys_open = 3
number sys_close = 4
number sys_getpid = 5
number sys_yield = 11
number sys_lseek = 13
number sys_stat = 14
number sys_fstat = 15
number sys_mkdir = 16
number sys_rmdir = 17
number sys_getdents = 18
number sys_unlink = 19

module _ {S : Type 0} where
  -- After a registration, a call with the registered number, if that is below 256, runs the new
  -- function; every other call is served as before.
  pub syscall_handler-syscall_register :
      (num : ℤ) (h : Handler S) (table : Table S) (n a1 a2 a3 a4 a5 : ℕ) (s : S)
      → syscall_handler (syscall_register num h table) n a1 a2 a3 a4 a5 s ≡ (
          if concerns num n then h a1 a2 a3 a4 a5 0 s else syscall_handler table n a1 a2 a3 a4 a5 s)
  unfolding syscall_handler syscall_register concerns update
  syscall_handler-syscall_register (negsuc k) h table n a1 a2 a3 a4 a5 s = refl
  syscall_handler-syscall_register (pos num) h table n a1 a2 a3 a4 a5 s =
      elim (Bool-cases (leb syscall_max num)) [
        | inl e ↦
            let no : (num == n && ltb n syscall_max) ≡ false = ground (arith, e) in rw (e, no) refl
        | inr e ↦ elim (Bool-cases (num == n)) [
          | inl q ↦
              let low : leb syscall_max n ≡ false = ground (arith, e, q) in
              let below : ltb n syscall_max ≡ true = ground (arith, e, q) in
              rw (e, q, low, below) refl
          | inr q ↦ rw (e, q) refl
        ]
      ]

  module _ (os : Os S) where
    pub run : Call → Handler S
    run sys_exit = sys_exit_impl os
    run sys_write = sys_write_impl os
    run sys_read = sys_read_impl os
    run sys_open = sys_open_impl os
    run sys_close = sys_close_impl os
    run sys_getpid = sys_getpid_impl os
    run sys_yield = sys_yield_impl os
    run sys_lseek = sys_lseek_impl os
    run sys_stat = sys_stat_impl os
    run sys_fstat = sys_fstat_impl os
    run sys_mkdir = sys_mkdir_impl os
    run sys_rmdir = sys_rmdir_impl os
    run sys_getdents = sys_getdents_impl os
    run sys_unlink = sys_unlink_impl os

    table-number : (c : Call) (t : Table S) → syscall_init os t (number c) ≡ some (run c)
    unfolding syscall_init syscall_register update number run
    table-number sys_exit t = refl
    table-number sys_write t = refl
    table-number sys_read t = refl
    table-number sys_open t = refl
    table-number sys_close t = refl
    table-number sys_getpid t = refl
    table-number sys_yield t = refl
    table-number sys_lseek t = refl
    table-number sys_stat t = refl
    table-number sys_fstat t = refl
    table-number sys_mkdir t = refl
    table-number sys_rmdir t = refl
    table-number sys_getdents t = refl
    table-number sys_unlink t = refl

    table-other : (n : ℕ) (t : Table S) → ((c : Call) → number c ≢ n) → syscall_init os t n ≡ none
    unfolding syscall_init syscall_register update number
    table-other n t h = ground (
      arith,
      h sys_exit,
      h sys_write,
      h sys_read,
      h sys_open,
      h sys_close,
      h sys_getpid,
      h sys_yield,
      h sys_lseek,
      h sys_stat,
      h sys_fstat,
      h sys_mkdir,
      h sys_rmdir,
      h sys_getdents,
      h sys_unlink,
    )

    number-bound : (c : Call) → leb syscall_max (number c) ≡ false
    unfolding number
    number-bound sys_exit = refl
    number-bound sys_write = refl
    number-bound sys_read = refl
    number-bound sys_open = refl
    number-bound sys_close = refl
    number-bound sys_getpid = refl
    number-bound sys_yield = refl
    number-bound sys_lseek = refl
    number-bound sys_stat = refl
    number-bound sys_fstat = refl
    number-bound sys_mkdir = refl
    number-bound sys_rmdir = refl
    number-bound sys_getdents = refl
    number-bound sys_unlink = refl

    -- After `syscall_init`, a call with one of the 14 numbers that it registers, 3 and 4 among
    -- them, runs the function of that call on its five arguments and a 0; a call with any other
    -- number returns -1 and leaves the state.
    pub syscall_handler-syscall_init :
        (t : Table S) (a1 a2 a3 a4 a5 : ℕ) (s : S)
        → ((c : Call)
            → syscall_handler (syscall_init os t) (number c) a1 a2 a3 a4 a5 s
              ≡ run c a1 a2 a3 a4 a5 0 s)
          × ((n : ℕ)
              → ((c : Call) → number c ≢ n)
              → syscall_handler (syscall_init os t) n a1 a2 a3 a4 a5 s ≡ (failure, s))
    unfolding syscall_handler
    syscall_handler-syscall_init t a1 a2 a3 a4 a5 s = (
      λ c. rw (number-bound c, table-number c t) refl,
      λ n h.
          rw (table-other n t h)
            (elim (Bool-cases (leb syscall_max n)) [ inl e ↦ rw e refl | inr e ↦ rw e refl ]),
    )
