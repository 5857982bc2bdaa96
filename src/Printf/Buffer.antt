-- ===== src/Printf/Buffer.antt =====
-- lib/stdio.c, `sprintf_putchar`, `vsprintf` and `vsnprintf`; `sprintf` and `snprintf` only collect
-- their arguments. The buffer is apart from the format and from the strings that it prints, so that
-- the characters are those of the memory from before.
pub mod Bounded
pub mod Pieces
use thuban.Base.{
  ℕ, zero, suc, ◌+◌, ◌-◌, ◌%◌, ◌^◌, Bool, not, ◌&&◌, List, [], ◌∷◌, Option, some, ltb, ◌==◌,
  if◌then◌else◌,
}
use mathlib.Core.Option
use thuban.Base.Store.{update}
use thuban.CString.{Mem, null, char}
use thuban.Printf.Convert.{vprintf_internal}

-- The static variables, and the memory.
pub record Buffer : Type 0 where
  pub sprintf_buffer : ℕ
  pub sprintf_buffer_size : ℕ
  pub sprintf_buffer_pos : ℕ
  pub memory : Mem

-- Its result is not used.
pub sprintf_putchar : ℕ → Buffer → Buffer
sprintf_putchar c b =
    if not (b.sprintf_buffer == null)
      && ltb b.sprintf_buffer_pos ((b.sprintf_buffer_size + (2 ^ 64 - 1)) % 2 ^ 64)
    then record b {
      sprintf_buffer_pos = b.sprintf_buffer_pos + 1;
      memory = update b.memory (b.sprintf_buffer + b.sprintf_buffer_pos) (char c);
    }
    else b

pub put_all : List ℕ → Buffer → Buffer
put_all [] b = b
put_all (c ∷ cs) b = put_all cs (sprintf_putchar c b)

abbrev begin : (str size : ℕ) → Mem → Buffer
begin str size m = record {
  sprintf_buffer = str;
  sprintf_buffer_size = size;
  sprintf_buffer_pos = 0;
  memory = m;
}

pub vsprintf : (fuel : ℕ) → (str format : ℕ) → List ℕ → Mem → Option (ℕ × Mem)
vsprintf fuel str format args m =
    Option.map
      (λ r.
        let b = put_all r.0 (begin str (2 ^ 64 - 1) m) in
        (r.1, if str == null then b.memory else update b.memory (str + b.sprintf_buffer_pos) 0))
      (vprintf_internal fuel m format args)

pub vsnprintf : (fuel : ℕ) → (str size format : ℕ) → List ℕ → Mem → Option (ℕ × Mem)
vsnprintf fuel str size format args m =
    if size == 0
    then some (0, m)
    else Option.map
        (λ r.
          let b = put_all r.0 (begin str size m) in
          let pos = b.sprintf_buffer_pos in
          (
            r.1,
            if str == null
                then b.memory
                else update b.memory (str + (if ltb pos size then pos else size - 1)) 0,
          ))
        (vprintf_internal fuel m format args)
