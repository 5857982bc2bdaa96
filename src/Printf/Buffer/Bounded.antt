-- ===== src/Printf/Buffer/Bounded.antt =====
-- What `vsnprintf` leaves in the buffer, and what it spares.
use thuban.Base.{
  ℕ, zero, suc, ◌+◌, ◌-◌, ◌%◌, ◌^◌, ◌<◌, ◌≤◌, ◌≡◌, ◌≢◌, ◌⊎◌, refl, ap, sym, ◌∙◌, true, false, List,
  [], ◌∷◌, some, ltb, ◌==◌, if◌then◌else◌, arith, length, get_or, min,
}
use thuban.Base.Store.{update, update_self, update_ne}
use thuban.CString.{Mem, null, char}
use thuban.Printf.Convert.{vprintf_internal}
use thuban.Printf.Buffer.{Buffer, sprintf_putchar, put_all, begin, vsnprintf}

-- The characters `out` stand from `p` on as far as they lie below `p + room`, and nothing else
-- changed.
record Put (p room : ℕ) (out : List ℕ) (m m' : Mem) : Type 0 where
  text : (i : ℕ) → i < length out → i < room → m' (p + i) ≡ char (get_or out i 0)
  spared : (a : ℕ) → (a < p) ⊎ (p + min (length out) room ≤ a) → m' a ≡ m a

put_all-full :
    (out : List ℕ) (b : Buffer)
    → 0 < b.sprintf_buffer_size
    → b.sprintf_buffer_size < 2 ^ 64
    → b.sprintf_buffer_size ≤ b.sprintf_buffer_pos + 1
    → put_all out b ≡ b
unfolding put_all sprintf_putchar
put_all-full [] b pos small full = refl
put_all-full (c ∷ cs) b pos small full =
    let same : sprintf_putchar c b ≡ b = ground arith in
    ap (put_all cs) same ∙ put_all-full cs b pos small full

Put-cons :
    (c : ℕ) (cs : List ℕ) (p q room : ℕ) (m m' : Mem)
    → q ≡ p + 1
    → Put q room cs (update m p (char c)) m'
    → Put p (suc room) (c ∷ cs) m m'
unfolding get_or
Put-cons c cs p q room m m' e put = record {
  text = λ i.
      elim i
        as (λ k. k < suc (length cs) → k < suc room → m' (p + k) ≡ char (get_or (c ∷ cs) k 0)) [
          | zero ↦
              λ l r. ap m' (omega arith) ∙ put.spared p (omega arith) ∙ update_self m p (char c)
          | suc i ↦ λ l r.
              let at : p + suc i ≡ q + i = omega arith in
              ap m' at ∙ put.text i (omega arith) (omega arith)
        ];
  spared = λ a o. put.spared a (omega arith) ∙ update_ne m p a (char c) (omega arith);
}

Put-none : (out : List ℕ) (p : ℕ) (m : Mem) → Put p 0 out m m
Put-none out p m = record { text = λ i l r. absurd (omega arith); spared = λ a o. refl }

Put-nil : (p room : ℕ) (m : Mem) → Put p room [] m m
Put-nil p room m = record { text = λ i l r. absurd (omega arith); spared = λ a o. refl }

-- `vsnprintf` at work, behind `pos` characters.
at_pos : (str size pos : ℕ) → Mem → Buffer
at_pos str size pos m = record {
  sprintf_buffer = str;
  sprintf_buffer_size = size;
  sprintf_buffer_pos = pos;
  memory = m;
}

module _ (str size : ℕ) (ne : str ≢ null) (small : size < 2 ^ 64) where
  putchar-room :
      (c pos room p : ℕ) (m : Mem)
      → pos + suc room + 1 ≡ size
      → p ≡ str + pos
      → sprintf_putchar c (at_pos str size pos m) ≡ at_pos str size (pos + 1) (update m p (char c))
  unfolding sprintf_putchar at_pos
  putchar-room c pos room p m e q =
      let given : (str == null) ≡ false = ground arith in
      let fits : ltb pos ((size + (2 ^ 64 - 1)) % 2 ^ 64) ≡ true = ground arith in
      rw (given, fits) (ap (λ a. at_pos str size (pos + 1) (update m a (char c))) (sym q))

  put_all-Put :
      (out : List ℕ) (pos room p : ℕ) (m : Mem)
      → pos + room + 1 ≡ size
      → p ≡ str + pos
      → let b = put_all out (at_pos str size pos m) in
        (b.sprintf_buffer_pos ≡ pos + min (length out) room) × Put p room out m b.memory
  unfolding put_all at_pos
  put_all-Put [] pos room p m e q = (omega arith, Put-nil p room m)
  put_all-Put (c ∷ cs) pos zero p m e q =
      let same = put_all-full (c ∷ cs) (at_pos str size pos m) (omega arith) small (omega arith) in
      (rw same (omega arith), rw same (Put-none (c ∷ cs) p m))
  put_all-Put (c ∷ cs) pos (suc room) p m e q =
      let m₁ = update m p (char c) in
      let (at, put) = put_all-Put cs (pos + 1) room (p + 1) m₁ (omega arith) (omega arith) in
      let first : put_all (c ∷ cs) (at_pos str size pos m)
          ≡ put_all cs (at_pos str size (pos + 1) m₁) =
        ap (put_all cs) (putchar-room c pos room p m e q) in
      (rw first (at ∙ omega arith), rw first (Put-cons c cs p (p + 1) room m _ refl put))

-- What `vsnprintf` leaves: as many of the characters as fit below the last byte of the buffer, and a
-- terminator behind them.
pub record Printed (str size : ℕ) (out : List ℕ) (m m' : Mem) : Type 0 where
  pub text : (i : ℕ) → i < min (length out) (size - 1) → m' (str + i) ≡ char (get_or out i 0)
  pub terminated : m' (str + min (length out) (size - 1)) ≡ 0
  pub spared : (a : ℕ) → (a < str) ⊎ (str + min (length out) (size - 1) < a) → m' a ≡ m a

-- For a buffer that is not NULL and a size from 1 to 2^64 - 1, and a format that prints `out` with
-- the result `count`: `vsnprintf` leaves the characters as far as they fit below the last byte, a
-- terminator behind them, and every byte outside as it was; it returns `count`.
pub vsnprintf-Printed :
    (fuel str size format : ℕ) (args : List ℕ) (m : Mem) (out : List ℕ) (count : ℕ)
    → str ≢ null
    → 0 < size
    → size < 2 ^ 64
    → vprintf_internal fuel m format args ≡ some (out, count)
    → (m' : Mem) × (vsnprintf fuel str size format args m ≡ some (count, m'))
      × Printed str size out m m'
unfolding vsnprintf at_pos begin
vsnprintf-Printed fuel str size format args m out count ne pos small h =
    let b = put_all out (at_pos str size 0 m) in
    let (at, put) =
      put_all-Put str size ne small out 0 (size - 1) str m (omega arith) (omega arith) in
    let k = min (length out) (size - 1) in
    let end : (if ltb b.sprintf_buffer_pos size then b.sprintf_buffer_pos else size - 1) ≡ k =
      ground (arith, at) in
    let given : (str == null) ≡ false = ground arith in
    let asked : (size == 0) ≡ false = ground arith in
    (
      update b.memory (str + k) 0,
      rw (asked, h) (rw (given, end) refl),
      record {
        text = λ i l.
            update_ne b.memory (str + k) (str + i) 0 (omega arith)
            ∙ put.text i (omega arith) (omega arith);
        terminated = update_self b.memory (str + k) 0;
        spared = λ a o. update_ne b.memory (str + k) a 0 (omega arith) ∙ put.spared a (omega arith);
      },
    )
