-- ===== src/Syscall/Tests.antt =====
-- A kernel whose state is what was typed and the bytes of memory, and theorems applied to it.
use thuban.Base.{
  ℕ, some, Option, ap, ◌+◌, ◌-◌, ◌%◌, ◌^◌, ◌≡◌, ◌≢◌, refl, true, List, [], ◌∷◌, none, arith,
}
use thuban.Base.Store.{update}
use thuban.Syscall.{Os, Table, failure, syscall_handler, syscall_init, sys_read_impl}
use thuban.Syscall.Dispatch.{Call, number, run, syscall_handler-syscall_init}
use thuban.Syscall.Line.{Typing, enough, line, after_line, ReadsLine, sys_read-ReadsLine}
use thuban.Syscall.Entry.{Registers, syscall_entry, syscall_entry-syscall_handler}

abbrev next_key : List ℕ → Option ℕ
next_key [] = none
next_key (c ∷ cs) = some c

abbrev later_keys : List ℕ → List ℕ
later_keys [] = []
later_keys (c ∷ cs) = cs

abbrev State : Type 0
State = List ℕ × (ℕ → ℕ)

abbrev typed : State → List ℕ
typed (keys, bytes) = keys

abbrev refused : State → ℕ × State
refused s = (2 ^ 32 - 1, s)

abbrev console : Os State
console = record {
  load = λ s a. s.1 a;
  store = λ a byte s. (s.0, update s.1 a byte);
  putchar = λ c s. s;
  getchar = λ s. (next_key s.0, (later_keys s.0, s.1));
  vfs_write = λ fd buf count s. (failure, s);
  vfs_read = λ fd buf count s. (failure, s);
  vfs_open = λ path flags mode s. refused s;
  vfs_close = λ fd s. refused s;
  vfs_lseek = λ fd offset whence s. (failure, s);
  vfs_stat = λ path buf s. refused s;
  vfs_fstat = λ fd buf s. refused s;
  vfs_mkdir = λ path mode s. refused s;
  vfs_rmdir = λ path s. refused s;
  vfs_readdir = λ fd buf count s. refused s;
  vfs_unlink = λ path s. refused s;
}

console-Typing : Typing console typed
unfolding update
console-Typing = record {
  key = λ s c cs e. (ap next_key e, ap later_keys e);
  memory = λ s a. refl;
  stored = λ s a byte x. refl;
  kept = λ s a byte. refl;
}

-- "hi", a newline and "x" were typed.
abbrev start : State
start = (104 ∷ 105 ∷ 10 ∷ 120 ∷ [], λ a. 0)

first_line :
    (line 80 (typed start) ≡ 104 ∷ 105 ∷ 10 ∷ []) × (after_line 80 (typed start) ≡ 120 ∷ [])
unfolding line after_line
first_line = (refl, refl)

all_typed : enough 80 (typed start) ≡ true
unfolding enough
all_typed = refl

sys_read-ReadsLine_example :
    ReadsLine console typed console-Typing 80 0x5000 0
      (typed start)
      start
      (sys_read_impl console 0 0x5000 80 0 0 0 start)
sys_read-ReadsLine_example =
    sys_read-ReadsLine console typed console-Typing 0x5000 80 start (omega arith) (omega arith)
      all_typed

abbrev no_calls : Table State
no_calls n = none

syscall_handler-syscall_init_example :
    ((c : Call)
      → syscall_handler (syscall_init console no_calls) (number c) 0 0x5000 80 0 0 start
        ≡ run console c 0 0x5000 80 0 0 0 start)
    × ((n : ℕ)
        → ((c : Call) → number c ≢ n)
        → syscall_handler (syscall_init console no_calls) n 0 0x5000 80 0 0 start
          ≡ (failure, start))
syscall_handler-syscall_init_example =
    syscall_handler-syscall_init console no_calls 0 0x5000 80 0 0 start

-- A program that asks for its process number.
abbrev registers : Registers
registers = record {
  rax = 5;
  rbx = 1;
  rcx = 0x40_0000;
  rdx = 3;
  rsi = 4;
  rdi = 6;
  rbp = 7;
  r8 = 8;
  r9 = 9;
  r10 = 10;
  r11 = 0x202;
  r12 = 12;
  r13 = 13;
  r14 = 14;
  r15 = 15;
  rsp = 0x7FFF_F000;
}

syscall_entry-syscall_handler_example :
    let table = syscall_init console no_calls in
    let (result, after) = syscall_handler table 5 5 5 5 10 10 start in
    syscall_entry table registers start
    ≡ (record registers { r15 = result; rsp = (0x7FFF_F000 + 8) % 2 ^ 64 }, after)
syscall_entry-syscall_handler_example =
    syscall_entry-syscall_handler (syscall_init console no_calls) registers start
