-- ===== src/Syscall/Entry.antt =====
-- The path of a system call through arch/x86_64/syscall.s and back. The frame that the C function
-- runs in lies below the saved registers, and is gone when it returns.
use thuban.Base.{ℕ, ◌+◌, ◌%◌, ◌^◌, ◌≡◌, refl, List, [], ◌∷◌, get_or}
use thuban.Syscall.{Table, syscall_handler}

-- The registers that user code has when it executes SYSCALL.
pub record Registers : Type 0 where
  pub rax : ℕ
  pub rbx : ℕ
  pub rcx : ℕ
  pub rdx : ℕ
  pub rsi : ℕ
  pub rdi : ℕ
  pub rbp : ℕ
  pub r8 : ℕ
  pub r9 : ℕ
  pub r10 : ℕ
  pub r11 : ℕ
  pub r12 : ℕ
  pub r13 : ℕ
  pub r14 : ℕ
  pub r15 : ℕ
  pub rsp : ℕ

-- The pushes: the register that is pushed last is the first.
pub pushed : Registers → List ℕ
pushed r =
    r.r15 ∷ r.r14 ∷ r.r13 ∷ r.r12 ∷ r.r11 ∷ r.r10 ∷ r.r9 ∷ r.r8 ∷ r.rbp ∷ r.rdi ∷ r.rsi ∷ r.rdx
    ∷ r.rcx ∷ r.rbx ∷ r.rax ∷ []

-- `mov [rsp], rax`
pub write_top : ℕ → List ℕ → List ℕ
write_top value [] = []
write_top value (x ∷ xs) = value ∷ xs

-- The pops, in their order; then `pop rsp` and `add rsp, 8`.
pub popped : (user_rsp : ℕ) → List ℕ → Registers
popped user_rsp stack = record {
  r15 = get_or stack 0 0;
  r14 = get_or stack 1 0;
  r13 = get_or stack 2 0;
  r12 = get_or stack 3 0;
  r11 = get_or stack 4 0;
  r10 = get_or stack 5 0;
  r9 = get_or stack 6 0;
  r8 = get_or stack 7 0;
  rbp = get_or stack 8 0;
  rdi = get_or stack 9 0;
  rsi = get_or stack 10 0;
  rdx = get_or stack 11 0;
  rcx = get_or stack 12 0;
  rbx = get_or stack 13 0;
  rax = get_or stack 14 0;
  rsp = (user_rsp + 8) % 2 ^ 64;
}

-- The moves before the call, one after another: the six arguments of `syscall_handler`.
pub arguments_moved : Registers → Registers
arguments_moved r =
    let a = record r { rdi = r.rax } in
    let b = record a { rsi = a.rdi } in
    let c = record b { rdx = b.rsi } in
    let d = record c { rcx = c.rdx } in let e = record d { r8 = d.r10 } in record e { r9 = e.r8 }

module _ {S : Type 0} where
  pub syscall_entry : Table S → Registers → S → Registers × S
  syscall_entry table r s =
      let m = arguments_moved r in
      let (result, s') = syscall_handler table m.rdi m.rsi m.rdx m.rcx m.r8 m.r9 s in
      (popped r.rsp (write_top result (pushed r)), s')

  -- Whatever the registers hold, `syscall_entry` calls `syscall_handler` with rax as the number and
  -- as the first three arguments and with r10 as the other two, so that rdi, rsi and rdx reach no
  -- handler; on return r15 holds the result, rsp is 8 higher, and every other register, rax too, is
  -- what it was.
  pub syscall_entry-syscall_handler :
      (table : Table S) (r : Registers) (s : S)
      → let (result, s') = syscall_handler table r.rax r.rax r.rax r.rax r.r10 r.r10 s in
        syscall_entry table r s ≡ (record r { r15 = result; rsp = (r.rsp + 8) % 2 ^ 64 }, s')
  unfolding syscall_entry arguments_moved popped pushed write_top get_or
  syscall_entry-syscall_handler table r s = refl
