-- ===== src/Keyboard/Ring.antt =====
-- The keyboard's ring of characters refines a bounded queue that drops what does not fit.
use thuban.Base.{
  ℕ, zero, suc, ◌+◌, ◌-◌, ◌%◌, ◌<◌, ◌≡◌, ◌≢◌, refl, ap, ◌∙◌, false, List, [], ◌∷◌, ◌++◌, arith,
  ◌==◌, length, Bool-cases, inl, inr,
}
use thuban.Base.Store.{update, update_self, update_ne}
use mathlib.Core.Path.{ap₂}
use thuban.Keyboard.Queue
use thuban.Keyboard.{Keyboard, kb_buffer_size, kb_buffer_add, keyboard_getchar, acquire}

-- Both indices are inside the buffer.
pub record IsValid (k : Keyboard) : Type 0 where
  pub start_in : k.kb_buffer_start < kb_buffer_size
  pub end_in : k.kb_buffer_end < kb_buffer_size

-- The `n` characters from index `h` on, going round at the end of the buffer.
abbrev pub window : (ℕ → ℕ) → ℕ → ℕ → List ℕ
window b h zero = []
window b h (suc n) = b h ∷ window b ((h + 1) % kb_buffer_size) n

abbrev pub pending : Keyboard → ℕ
pending k = (k.kb_buffer_end + kb_buffer_size - k.kb_buffer_start) % kb_buffer_size

-- The characters that were typed and not yet read, oldest first.
abbrev pub contents : Keyboard → List ℕ
contents k = window k.kb_buffer k.kb_buffer_start (pending k)

length-window : (b : ℕ → ℕ) (h n : ℕ) → length (window b h n) ≡ n
length-window b h zero = refl
length-window b h (suc n) = ap suc (length-window b ((h + 1) % kb_buffer_size) n)

pub length-contents : (k : Keyboard) → length (contents k) ≡ pending k
length-contents k = length-window k.kb_buffer k.kb_buffer_start (pending k)

-- A write just past the window extends it by that character.
window-update :
    (b : ℕ → ℕ) (c n h i : ℕ)
    → h < 256
    → n < 255
    → i ≡ (h + n) % 256
    → window (update b i c) h (suc n) ≡ window b h n ++ (c ∷ [])
window-update b c zero h i hh hn e = let at : i ≡ h = omega arith in rw (at, update_self b h c)
window-update b c (suc n) h i hh hn e =
    ap₂ ◌∷◌ (update_ne b i h c (omega arith))
      (window-update b c n ((h + 1) % 256) i (omega arith) (omega arith) (omega arith))

pub acquire-IsValid : {k : Keyboard} → IsValid k → IsValid (acquire k)
unfolding acquire
acquire-IsValid v = record { start_in = v.start_in; end_in = v.end_in }

-- `kb_buffer_add` keeps both indices inside the buffer.
pub kb_buffer_add-IsValid : (c : ℕ) {k : Keyboard} → IsValid k → IsValid (kb_buffer_add c k)
unfolding kb_buffer_add
kb_buffer_add-IsValid c v = ground arith

pending-full :
    {k : Keyboard}
    → IsValid k
    → ((k.kb_buffer_end + 1) % kb_buffer_size == k.kb_buffer_start) ≡ (pending k == 255)
pending-full v = ground arith

-- `kb_buffer_add` appends the character, or drops it when 255 are waiting.
pub kb_buffer_add_refines :
    (c : ℕ) {k : Keyboard} → IsValid k → contents (kb_buffer_add c k) ≡ Queue.add (contents k) c
unfolding kb_buffer_add Queue.add
kb_buffer_add_refines c {k} v = elim (Bool-cases (pending k == 255)) [
  | inl full ↦ rw (pending-full v, full, length-contents k, full)
  | inr room ↦
      let ring : ((k.kb_buffer_end + 1) % kb_buffer_size == k.kb_buffer_start) ≡ false =
        pending-full v ∙ room in
      let more : pending (record k { kb_buffer_end = (k.kb_buffer_end + 1) % kb_buffer_size })
          ≡ suc (pending k) =
        ground (arith, v.start_in, v.end_in) in
      rw (ring, length-contents k, room, more)
        (window-update k.kb_buffer c (pending k) k.kb_buffer_start k.kb_buffer_end v.start_in
          (ground arith) (omega arith))
]

-- A ring that holds something shows its oldest character first.
contents-cons :
    {k : Keyboard}
    → IsValid k
    → k.kb_buffer_start ≢ k.kb_buffer_end
    → contents k
      ≡ k.kb_buffer k.kb_buffer_start
        ∷ contents (record k { kb_buffer_start = (k.kb_buffer_start + 1) % kb_buffer_size })
contents-cons {k} v ne =
    let n = pending (record k { kb_buffer_start = (k.kb_buffer_start + 1) % kb_buffer_size }) in
    let e : pending k ≡ suc n = ground (arith, v.start_in, v.end_in) in
    ap (window k.kb_buffer k.kb_buffer_start) e

-- `keyboard_getchar` keeps both indices inside the buffer.
pub keyboard_getchar-IsValid : {k : Keyboard} → IsValid k → IsValid (keyboard_getchar k).1
unfolding keyboard_getchar
keyboard_getchar-IsValid v = ground arith

-- For a keyboard whose indices lie in the ring, `keyboard_getchar` takes the oldest waiting
-- character from the queue, or returns -1 when none is waiting.
pub keyboard_getchar_refines :
    {k : Keyboard}
    → IsValid k
    → let (c, k') = keyboard_getchar k in (c, contents k') ≡ Queue.getchar (contents k)
unfolding keyboard_getchar Queue.getchar
keyboard_getchar_refines {k} v = elim (Bool-cases (k.kb_buffer_start == k.kb_buffer_end)) [
  | inl empty ↦ let z : pending k ≡ 0 = ground arith in rw (empty, z)
  | inr more ↦ rw (more, contents-cons v (ground arith))
]
