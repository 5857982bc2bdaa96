-- ===== src/Syscall.antt =====
-- kernel/user/syscall.c, and the moves of syscall_entry in arch/x86_64/syscall.s. A system call gets
-- the state behind it (the console, the keyboard, the file system and memory) and returns the 64
-- bits of its result. Those parts are an interface: a record of operations. Messages that are
-- printed are left out, also that of `sys_exit`, and so are the model-specific registers.
pub mod Dispatch
pub mod Line
pub mod Entry
mod Tests
use thuban.Base.{
  ℕ, zero, suc, ◌+◌, ◌-◌, ◌%◌, ◌^◌, Bool, true, false, ◌||◌, Option, none, some, ◌==◌, leb, ltb,
  if◌then◌else◌,
}
use thuban.Base.Int.{ℤ, pos, negsuc}
use thuban.Base.Store.{update}

abbrev pub syscall_max : ℕ
syscall_max = 256

-- The result -1.
abbrev pub failure : ℕ
failure = 2 ^ 64 - 1

-- What the calls use. An `int` is given and returned as its 32 bits; `getchar` returns none for -1.
pub record Os (S : Type 0) : Type 0 where
  pub load : S → ℕ → ℕ
  pub store : (address byte : ℕ) → S → S
  pub putchar : ℕ → S → S
  pub getchar : S → Option ℕ × S
  pub vfs_write : (fd buf count : ℕ) → S → ℕ × S
  pub vfs_read : (fd buf count : ℕ) → S → ℕ × S
  pub vfs_open : (path flags mode : ℕ) → S → ℕ × S
  pub vfs_close : (fd : ℕ) → S → ℕ × S
  pub vfs_lseek : (fd offset whence : ℕ) → S → ℕ × S
  pub vfs_stat : (path statbuf : ℕ) → S → ℕ × S
  pub vfs_fstat : (fd statbuf : ℕ) → S → ℕ × S
  pub vfs_mkdir : (path mode : ℕ) → S → ℕ × S
  pub vfs_rmdir : (path : ℕ) → S → ℕ × S
  pub vfs_readdir : (fd dirp count : ℕ) → S → ℕ × S
  pub vfs_unlink : (path : ℕ) → S → ℕ × S

-- `(int)` and `(mode_t)` of an argument, and `(int64_t)` of an `int` result.
abbrev pub int : ℕ → ℕ
int a = a % 2 ^ 32

pub sign_extended : {S : Type 0} → ℕ × S → ℕ × S
sign_extended (r, s) = (if ltb r (2 ^ 31) then r else r + (2 ^ 64 - 2 ^ 32), s)

-- A system call, with its six arguments.
abbrev pub Handler : Type 0 → Type 0
Handler S = (arg1 arg2 arg3 arg4 arg5 arg6 : ℕ) → S → ℕ × S

-- `syscall_table`; NULL is none.
abbrev pub Table : Type 0 → Type 0
Table S = ℕ → Option (Handler S)

module _ {S : Type 0} where
  pub syscall_register : ℤ → Handler S → Table S → Table S
  syscall_register (negsuc n) handler table = table
  syscall_register (pos num) handler table =
      if leb syscall_max num then table else update table num (some handler)

  pub syscall_handler : Table S → (num arg1 arg2 arg3 arg4 arg5 : ℕ) → S → ℕ × S
  syscall_handler table num arg1 arg2 arg3 arg4 arg5 s =
      let answer : ℕ × S = elim (table num) [
        | none ↦ (failure, s)
        | some handler ↦ handler arg1 arg2 arg3 arg4 arg5 0 s
      ] in
      if leb syscall_max num then (failure, s) else answer

  module _ (os : Os S) where
    -- The loop of `sys_write_impl`, with the rounds left.
    pub write_loop : ℕ → (i buf : ℕ) → S → S
    write_loop zero i buf s = s
    write_loop (suc n) i buf s = write_loop n (i + 1) buf (os.putchar (os.load s (buf + i)) s)

    -- The loop of `sys_read_impl`, with the rounds left: `bytes_read` at its end.
    pub read_loop : ℕ → (bytes_read buf : ℕ) → S → ℕ × S
    read_loop zero bytes_read buf s = (bytes_read, s)
    read_loop (suc n) bytes_read buf s =
        let (c, s') = os.getchar s in
        elim c [
          | none ↦ (bytes_read, s')
          | some key ↦
              (let stored = os.store (buf + bytes_read) (key % 256) s' in
                let rest = read_loop n (bytes_read + 1) buf stored in
                if key == 10 then (bytes_read + 1, stored) else rest)
        ]

    pub sys_exit_impl : Handler S
    sys_exit_impl _ _ _ _ _ _ s = (0, s)

    pub sys_write_impl : Handler S
    sys_write_impl fd buf count _ _ _ s =
        if buf == 0
        then (failure, s)
        else if fd == 1 || fd == 2
        then (count, write_loop count 0 buf s)
        else os.vfs_write (int fd) buf count s

    pub sys_read_impl : Handler S
    sys_read_impl fd buf count _ _ _ s =
        if buf == 0 || count == 0
        then (failure, s)
        else if fd == 0
        then read_loop count 0 buf s
        else os.vfs_read (int fd) buf count s

    pub sys_getpid_impl : Handler S
    sys_getpid_impl _ _ _ _ _ _ s = (1, s)

    pub sys_yield_impl : Handler S
    sys_yield_impl _ _ _ _ _ _ s = (0, s)

    pub sys_open_impl : Handler S
    sys_open_impl path flags mode _ _ _ s =
        if path == 0
        then (failure, s)
        else sign_extended (os.vfs_open path (int flags) (int mode) s)

    pub sys_close_impl : Handler S
    sys_close_impl fd _ _ _ _ _ s = sign_extended (os.vfs_close (int fd) s)

    pub sys_lseek_impl : Handler S
    sys_lseek_impl fd offset whence _ _ _ s = os.vfs_lseek (int fd) offset (int whence) s

    pub sys_stat_impl : Handler S
    sys_stat_impl path statbuf _ _ _ _ s =
        if path == 0 || statbuf == 0
        then (failure, s)
        else sign_extended (os.vfs_stat path statbuf s)

    pub sys_fstat_impl : Handler S
    sys_fstat_impl fd statbuf _ _ _ _ s =
        if statbuf == 0 then (failure, s) else sign_extended (os.vfs_fstat (int fd) statbuf s)

    pub sys_mkdir_impl : Handler S
    sys_mkdir_impl path mode _ _ _ _ s =
        if path == 0 then (failure, s) else sign_extended (os.vfs_mkdir path (int mode) s)

    pub sys_rmdir_impl : Handler S
    sys_rmdir_impl path _ _ _ _ _ s =
        if path == 0 then (failure, s) else sign_extended (os.vfs_rmdir path s)

    pub sys_getdents_impl : Handler S
    sys_getdents_impl fd dirp count _ _ _ s =
        if dirp == 0 then (failure, s) else sign_extended (os.vfs_readdir (int fd) dirp count s)

    pub sys_unlink_impl : Handler S
    sys_unlink_impl path _ _ _ _ _ s =
        if path == 0 then (failure, s) else sign_extended (os.vfs_unlink path s)

    -- The calls that `syscall_init` registers, in its order.
    pub syscall_init : Table S → Table S
    syscall_init table =
        let t0 : Table S = λ _. none in
        let t1 = syscall_register (pos 0) sys_exit_impl t0 in
        let t2 = syscall_register (pos 1) sys_write_impl t1 in
        let t3 = syscall_register (pos 2) sys_read_impl t2 in
        let t4 = syscall_register (pos 5) sys_getpid_impl t3 in
        let t5 = syscall_register (pos 11) sys_yield_impl t4 in
        let t6 = syscall_register (pos 3) sys_open_impl t5 in
        let t7 = syscall_register (pos 4) sys_close_impl t6 in
        let t8 = syscall_register (pos 13) sys_lseek_impl t7 in
        let t9 = syscall_register (pos 14) sys_stat_impl t8 in
        let t10 = syscall_register (pos 15) sys_fstat_impl t9 in
        let t11 = syscall_register (pos 16) sys_mkdir_impl t10 in
        let t12 = syscall_register (pos 17) sys_rmdir_impl t11 in
        let t13 = syscall_register (pos 18) sys_getdents_impl t12 in
        syscall_register (pos 19) sys_unlink_impl t13
