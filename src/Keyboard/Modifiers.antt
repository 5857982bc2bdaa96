-- ===== src/Keyboard/Modifiers.antt =====
-- The modifier keys as a state machine over raw scancodes, and the characters that can arrive.
use thuban.Base.{
  ℕ, zero, suc, ◌+◌, ◌-◌, ◌%◌, ◌<◌, ◌≤◌, ◌≡◌, ◌≢◌, refl, ap, ◌∙◌, Bool, true, false, not, ◌&&◌,
  ◌||◌, List, [], ◌∷◌, ◌++◌, arith, ◌==◌, ltb, leb, if◌then◌else◌, length, get_or, Bool-cases, inl,
  inr,
}
use thuban.Base.Int.{ℤ, pos, negsuc}
use mathlib.Core.Path.{subst, sym}
use thuban.Keyboard.Queue
use thuban.Keyboard.{
  Keyboard, key_left, key_right, scancode_to_ascii, scancode_to_ascii_shift, kb_buffer_add,
  handle_extended_key, is_special, is_lower, translate, type_key, release_key, press_key, handle,
  keyboard_irq_handler, acquire, keyboard_getchar, int_of_char,
}
use thuban.Keyboard.Ring.{IsValid, contents, keyboard_getchar_refines}
use thuban.Keyboard.Handler.{
  typed, arrow, one_char, translate-char_of, keyboard_irq_handler_refines,
}

-- The five flags.
pub record Flags : Type 0 where
  pub shift : Bool
  pub ctrl : Bool
  pub alt : Bool
  pub caps : Bool
  pub extended : Bool

abbrev pub flags : Keyboard → Flags
flags k = record {
  shift = k.shift_pressed;
  ctrl = k.ctrl_pressed;
  alt = k.alt_pressed;
  caps = k.capslock_active;
  extended = k.extended_key;
}

-- A key goes down when its code arrives with no prefix, and up when its code arrives with bit 7
-- set, a prefix or not; a prefix lasts for one scancode.
pub next_flags : ℕ → Flags → Flags
next_flags s f =
    let down = λ (key : ℕ). not f.extended && s == key in
    let up = λ (key : ℕ). s == (key + 0x80) in
    record {
      shift = (f.shift || down 0x2A || down 0x36) && not (up 0x2A || up 0x36);
      ctrl = (f.ctrl || down 0x1D) && not (up 0x1D);
      alt = (f.alt || down 0x38) && not (up 0x38);
      caps = if down 0x3A then not f.caps else f.caps;
      extended = s == 0xE0;
    }

flags-kb_buffer_add : (c : ℕ) (k : Keyboard) → flags (kb_buffer_add c k) ≡ flags k
unfolding kb_buffer_add
flags-kb_buffer_add c k = ground arith

flags-type_key : (s : ℕ) (k : Keyboard) → flags (type_key s k) ≡ flags k
unfolding type_key
flags-type_key s k =
    let c = translate k.shift_pressed k.capslock_active k.ctrl_pressed s in
    ground (arith, flags-kb_buffer_add c k)

flags-handle_extended_key : (s : ℕ) (k : Keyboard) → flags (handle_extended_key s k) ≡ flags k
unfolding handle_extended_key
flags-handle_extended_key s k =
    let k₁ = kb_buffer_add 0x1B k in
    let k₂ = kb_buffer_add b'[' k₁ in
    ground (
      arith,
      flags-kb_buffer_add 0x1B k,
      flags-kb_buffer_add b'[' k₁,
      flags-kb_buffer_add b'D' k₂,
      flags-kb_buffer_add b'C' k₂,
    )

flags-release_key :
    (s : ℕ) (k : Keyboard)
    → s ≢ 0xE0
    → 0x80 ≤ s
    → s < 256
    → flags (release_key (s % 0x80) k) ≡ next_flags s (flags k)
unfolding release_key next_flags
flags-release_key s k n l h = ground arith

flags-press_key :
    (s : ℕ) (k : Keyboard)
    → k.extended_key ≡ false
    → s < 0x80
    → flags (press_key s k) ≡ next_flags s (flags k)
unfolding press_key next_flags is_special
flags-press_key s k n h = ground (arith, flags-type_key s k)

flags-prefixed :
    (s : ℕ) (k : Keyboard)
    → k.extended_key ≡ true
    → s < 0x80
    → flags (record (handle_extended_key s k) { extended_key = false }) ≡ next_flags s (flags k)
unfolding next_flags
flags-prefixed s k x h = ground (arith, flags-handle_extended_key s k)

handle-prefixed :
    (s : ℕ) (k : Keyboard)
    → k.extended_key ≡ true
    → s < 0x80
    → handle s k ≡ record (handle_extended_key s k) { extended_key = false }
unfolding handle
handle-prefixed s k x h = ground arith

handle-pressed :
    (s : ℕ) (k : Keyboard) → k.extended_key ≡ false → s < 0x80 → handle s k ≡ press_key s k
unfolding handle
handle-pressed s k x h = ground arith

flags-handle : (s : ℕ) (k : Keyboard) → s < 256 → flags (handle s k) ≡ next_flags s (flags k)
unfolding handle
flags-handle s k h = elim (Bool-cases (s == 0xE0)) [
  | inl prefix ↦ unfold next_flags in ground arith
  | inr n₁ ↦ (elim (Bool-cases (leb 0x80 s)) [
    | inl high ↦ rw (n₁, high) (flags-release_key s k (ground arith) (ground arith) h)
    | inr low ↦ (elim (Bool-cases k.extended_key) [
      | inl x ↦
          ap flags (handle-prefixed s k x (ground arith)) ∙ flags-prefixed s k x (ground arith)
      | inr x ↦
          ap flags (handle-pressed s k x (ground arith)) ∙ flags-press_key s k x (ground arith)
    ])
  ])
]

-- On every byte the interrupt handler moves the flags of Shift, Ctrl, Alt, Caps Lock and the prefix
-- as the state machine `next_flags` does.
pub flags-keyboard_irq_handler :
    (s : ℕ) (k : Keyboard) → s < 256 → flags (keyboard_irq_handler s k) ≡ next_flags s (flags k)
unfolding keyboard_irq_handler
flags-keyboard_irq_handler s k h = flags-handle s (acquire k) h

all : (ℕ → Bool) → List ℕ → Bool
all p [] = true
all p (x ∷ xs) = p x && all p xs

get_or-all :
    (p : ℕ → Bool) (xs : List ℕ) (i : ℕ) → p 0 ≡ true → all p xs ≡ true → p (get_or xs i 0) ≡ true
unfolding all get_or
get_or-all p [] i z h = z
get_or-all p (x ∷ xs) zero z h = ground arith
get_or-all p (x ∷ xs) (suc i) z h = get_or-all p xs i z (ground arith)

shifted_not_lower : (s : ℕ) → not (is_lower (get_or scancode_to_ascii_shift s 0)) ≡ true
unfolding all
shifted_not_lower s = get_or-all (λ c. not (is_lower c)) scancode_to_ascii_shift s refl refl

-- Ctrl with the key of a letter types the letter's control code without Caps Lock, but the capital
-- with it, and under Shift Ctrl changes nothing.
pub ctrl_needs_small_letter :
    (s : ℕ) (caps : Bool)
    → is_lower (get_or scancode_to_ascii s 0) ≡ true
    → (translate false false true s ≡ get_or scancode_to_ascii s 0 - 96)
      × (translate false true true s ≡ get_or scancode_to_ascii s 0 - 32)
      × (translate true caps true s ≡ translate true caps false s)
unfolding translate
ctrl_needs_small_letter s caps h = ground (arith, shifted_not_lower s)

-- A character that the handler may put into the buffer.
abbrev is_ascii : ℕ → Bool
is_ascii c = ltb c 128

plain_ascii : (s : ℕ) → is_ascii (get_or scancode_to_ascii s 0) ≡ true
unfolding all
plain_ascii s = get_or-all is_ascii scancode_to_ascii s refl refl

shifted_ascii : (s : ℕ) → is_ascii (get_or scancode_to_ascii_shift s 0) ≡ true
unfolding all
shifted_ascii s = get_or-all is_ascii scancode_to_ascii_shift s refl refl

translate_ascii : (shift caps ctrl : Bool) (s : ℕ) → translate shift caps ctrl s < 128
unfolding translate
translate_ascii shift caps ctrl s = ground (arith, plain_ascii s, shifted_ascii s)

-- Codes that a reader can tell from -1 and from NUL.
abbrev pub AllPrintable : List ℕ → Type 0
AllPrintable [] = Unit
AllPrintable (c ∷ cs) = (0 < c) × (c < 128) × AllPrintable cs

AllPrintable-add :
    (q : List ℕ) (c : ℕ) → AllPrintable q → 0 < c → c < 128 → AllPrintable (q ++ (c ∷ []))
AllPrintable-add [] c h p l = (p, l, tt)
AllPrintable-add (d ∷ q) c h p l = (h.0, h.1, AllPrintable-add q c h.2 p l)

AllPrintable-add_all :
    (q cs : List ℕ) → AllPrintable q → AllPrintable cs → AllPrintable (Queue.add_all q cs)
unfolding Queue.add_all Queue.add
AllPrintable-add_all q [] h hs = h
AllPrintable-add_all q (c ∷ cs) h hs = elim (Bool-cases (length q == 255)) [
  | inl full ↦ rw full (AllPrintable-add_all q cs h hs.2)
  | inr room ↦
      rw room (AllPrintable-add_all (q ++ (c ∷ [])) cs (AllPrintable-add q c h hs.0 hs.1) hs.2)
]

AllPrintable-if :
    (b : Bool) (xs ys : List ℕ)
    → AllPrintable xs
    → AllPrintable ys
    → AllPrintable (if b then xs else ys)
AllPrintable-if true xs ys h k = h
AllPrintable-if false xs ys h k = k

AllPrintable-one_char : (c : ℕ) → c < 128 → AllPrintable (one_char c)
unfolding one_char
AllPrintable-one_char c h = elim (Bool-cases (c == 0)) [
  | inl z ↦ rw z tt
  | inr nz ↦ rw nz (ground arith, h, tt)
]

AllPrintable-typed : (k : Keyboard) (s : ℕ) → AllPrintable (typed k s)
unfolding typed arrow
AllPrintable-typed k s =
    let c = translate k.shift_pressed k.capslock_active k.ctrl_pressed s in
    AllPrintable-if (leb 0x80 s) _ _ tt (
      AllPrintable-if k.extended_key _ _
        (AllPrintable-if (s == key_left) _ _ (omega arith)
          (AllPrintable-if (s == key_right) _ _ (omega arith) tt))
        (subst (λ x. AllPrintable (one_char x))
          (translate-char_of k.shift_pressed k.capslock_active k.ctrl_pressed s)
          (AllPrintable-one_char c
            (translate_ascii k.shift_pressed k.capslock_active k.ctrl_pressed s))))

-- Whatever scancodes arrive, only codes from 1 to 127 wait in the buffer.
pub AllPrintable-keyboard_irq_handler :
    (s : ℕ) {k : Keyboard}
    → IsValid k
    → AllPrintable (contents k)
    → AllPrintable (contents (keyboard_irq_handler s k))
AllPrintable-keyboard_irq_handler s {k} v h =
    subst AllPrintable (sym (keyboard_irq_handler_refines s v))
      (AllPrintable-add_all (contents k) (typed k s) h (AllPrintable-typed k s))

-- What the reader's call returns, and what is left for the next call.
abbrev pub Got : List ℕ → ℤ × List ℕ → Type 0
Got [] (c, q) = (c ≡ negsuc 0) × (q ≡ [])
Got (d ∷ ds) (c, q) = (c ≡ pos d) × (q ≡ ds) × AllPrintable q

Got-getchar : (q : List ℕ) → AllPrintable q → Got q (Queue.getchar q)
unfolding Queue.getchar int_of_char
Got-getchar [] h = (refl, refl)
Got-getchar (c ∷ q) h = (ground (arith, h.1), refl, h.2)

-- For a keyboard whose indices lie in the ring, with only codes from 1 to 127 waiting,
-- `keyboard_getchar` returns -1 exactly when nothing waits, and otherwise the oldest code, which is
-- positive; only such codes stay.
pub keyboard_getchar-Got :
    {k : Keyboard}
    → IsValid k
    → AllPrintable (contents k)
    → let (c, k') = keyboard_getchar k in Got (contents k) (c, contents k')
keyboard_getchar-Got {k} v h =
    subst (Got (contents k)) (sym (keyboard_getchar_refines v)) (Got-getchar (contents k) h)
