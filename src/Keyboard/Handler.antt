-- ===== src/Keyboard/Handler.antt =====
-- What one interrupt of the keyboard appends to the characters that wait for a reader.
use thuban.Base.{
  ℕ, zero, suc, ◌≤◌, ◌≡◌, refl, sym, ap, ◌∙◌, Bool, true, false, ◌||◌, List, [], ◌∷◌, arith, ◌==◌,
  leb, if◌then◌else◌, length, get_or, Bool-cases, inl, inr,
}
use thuban.Keyboard.Queue
use thuban.Keyboard.{
  Keyboard, key_left, key_right, key_lshift, key_rshift, key_lctrl, key_lalt, key_capslock,
  scancode_to_ascii, scancode_to_ascii_shift, kb_buffer_add, handle_extended_key, is_special,
  translate, type_key, release_key, press_key, handle, keyboard_irq_handler,
}
use thuban.Keyboard.Layout.{char_of, key_in, layout, translate-layout, layout-beyond}
use thuban.Keyboard.Ring.{
  IsValid, acquire-IsValid, contents, kb_buffer_add-IsValid, kb_buffer_add_refines,
}

pub get_or-beyond : (xs : List ℕ) (i d : ℕ) → length xs ≤ i → get_or xs i d ≡ d
unfolding get_or
get_or-beyond [] i d h = refl
get_or-beyond (x ∷ xs) zero d h = absurd (omega arith)
get_or-beyond (x ∷ xs) (suc i) d h = get_or-beyond xs i d (omega arith)

-- Past the tables there are no characters.
pub translate-beyond : (shift caps ctrl : Bool) (s : ℕ) → 58 ≤ s → translate shift caps ctrl s ≡ 0
unfolding translate
translate-beyond shift caps ctrl s h = ground (
  arith,
  get_or-beyond scancode_to_ascii s 0 (omega arith),
  get_or-beyond scancode_to_ascii_shift s 0 (omega arith),
)

-- The modifier keys, ESC and the function keys have no character, under any modifiers.
abbrev has_no_char : ℕ → Bool
has_no_char s = s == key_lshift || s == key_rshift || s == key_lctrl || s == key_lalt || s == 0x01

silent_keys :
    (shift caps ctrl : Bool)
    → (translate shift caps ctrl key_lshift ≡ 0)
      × (translate shift caps ctrl key_rshift ≡ 0)
      × (translate shift caps ctrl key_lctrl ≡ 0)
      × (translate shift caps ctrl key_lalt ≡ 0)
      × (translate shift caps ctrl 0x01 ≡ 0)
unfolding translate get_or
silent_keys shift caps ctrl = ground arith

silent : (shift caps ctrl : Bool) (s : ℕ) → has_no_char s ≡ true → translate shift caps ctrl s ≡ 0
silent shift caps ctrl s h = ground (arith, silent_keys shift caps ctrl)

special : (shift caps ctrl : Bool) (s : ℕ) → is_special s ≡ true → translate shift caps ctrl s ≡ 0
unfolding is_special
special shift caps ctrl s h =
    ground (arith, silent_keys shift caps ctrl, translate-beyond shift caps ctrl s)

-- The characters of an extended key: the escape sequence of an arrow.
unfoldable pub arrow : ℕ → List ℕ
arrow s =
    if s == key_left
    then 0x1B ∷ b'[' ∷ b'D' ∷ []
    else if s == key_right
    then 0x1B ∷ b'[' ∷ b'C' ∷ []
    else []

unfoldable pub one_char : ℕ → List ℕ
one_char c = if c == 0 then [] else c ∷ []

-- What the scancode types: nothing for a prefix or a release; after a prefix the sequence of an
-- arrow; else the character of the key in the layout, if any.
unfoldable pub typed : Keyboard → ℕ → List ℕ
typed k s =
    if leb 0x80 s
    then []
    else if k.extended_key
    then arrow s
    else one_char (char_of k.shift_pressed k.capslock_active k.ctrl_pressed (key_in layout s))

-- `translate` gives the character of the key in the layout, for every scancode.
pub translate-char_of :
    (shift caps ctrl : Bool) (s : ℕ)
    → translate shift caps ctrl s ≡ char_of shift caps ctrl (key_in layout s)
translate-char_of shift caps ctrl s = elim (Bool-cases (leb 58 s)) [
  | inl e ↦
      translate-beyond shift caps ctrl s (ground (arith, e))
      ∙ sym (layout-beyond shift caps ctrl s (ground (arith, e)))
  | inr e ↦ translate-layout shift caps ctrl s (ground (arith, e))
]

-- The characters arrive in order.
module _ {k : Keyboard} (v : IsValid k) where
  add_two :
      (c d : ℕ)
      → contents (kb_buffer_add d (kb_buffer_add c k)) ≡ Queue.add_all (contents k) (c ∷ d ∷ [])
  unfolding Queue.add_all
  add_two c d =
      kb_buffer_add_refines d (kb_buffer_add-IsValid c v)
      ∙ ap (λ q. Queue.add q d) (kb_buffer_add_refines c v)

  add_three :
      (c d e : ℕ)
      → contents (kb_buffer_add e (kb_buffer_add d (kb_buffer_add c k)))
        ≡ Queue.add_all (contents k) (c ∷ d ∷ e ∷ [])
  unfolding Queue.add_all
  add_three c d e =
      kb_buffer_add_refines e (kb_buffer_add-IsValid d (kb_buffer_add-IsValid c v))
      ∙ ap (λ q. Queue.add q e) (add_two c d)

  handle_extended_key_refines :
      (s : ℕ) → contents (handle_extended_key s k) ≡ Queue.add_all (contents k) (arrow s)
  unfolding handle_extended_key arrow Queue.add_all
  handle_extended_key_refines s = elim (Bool-cases (s == key_left)) [
    | inl left ↦ rw left (add_three 0x1B b'[' b'D')
    | inr other ↦ rw other (elim (Bool-cases (s == key_right)) [
      | inl right ↦ rw right (add_three 0x1B b'[' b'C')
      | inr neither ↦ rw neither refl
    ])
  ]

  type_key_refines :
      (s : ℕ)
      → contents (type_key s k)
        ≡ Queue.add_all
            (contents k)
            (one_char (translate k.shift_pressed k.capslock_active k.ctrl_pressed s))
  unfolding type_key one_char Queue.add_all
  type_key_refines s =
      let c = translate k.shift_pressed k.capslock_active k.ctrl_pressed s in
      ground (
        arith,
        kb_buffer_add_refines c v,
        translate-beyond k.shift_pressed k.capslock_active k.ctrl_pressed s,
      )

  quiet : (c : ℕ) → c ≡ 0 → contents k ≡ Queue.add_all (contents k) (one_char c)
  unfolding one_char Queue.add_all
  quiet c e = rw e refl

  press_key_refines :
      (s : ℕ)
      → contents (press_key s k)
        ≡ Queue.add_all
            (contents k)
            (one_char (translate k.shift_pressed k.capslock_active k.ctrl_pressed s))
  unfolding press_key
  press_key_refines s =
      let zero_at = silent k.shift_pressed k.capslock_active k.ctrl_pressed s in
      let beyond = translate-beyond k.shift_pressed k.capslock_active k.ctrl_pressed s in
      elim (Bool-cases (s == key_lshift || s == key_rshift)) [
        | inl e ↦ rw e (quiet _ (zero_at (ground arith)))
        | inr n₁ ↦ rw n₁ (elim (Bool-cases (s == key_lctrl)) [
          | inl e ↦ rw e (quiet _ (zero_at (ground arith)))
          | inr n₂ ↦ rw n₂ (elim (Bool-cases (s == key_lalt)) [
            | inl e ↦ rw e (quiet _ (zero_at (ground arith)))
            | inr n₃ ↦ rw n₃ (elim (Bool-cases (s == key_capslock)) [
              | inl e ↦ rw e (quiet _ (beyond (ground arith)))
              | inr n₄ ↦ rw n₄ (elim (Bool-cases (is_special s)) [
                | inl e ↦ rw e (quiet _ (special _ _ _ s e))
                | inr n₅ ↦ rw n₅ (type_key_refines s)
              ])
            ])
          ])
        ])
      ]

  handle_refines : (s : ℕ) → contents (handle s k) ≡ Queue.add_all (contents k) (typed k s)
  unfolding handle typed release_key Queue.add_all
  handle_refines s = elim (Bool-cases (leb 0x80 s)) [
    | inl high ↦ ground arith
    | inr low ↦
        let e : (s == 0xE0) ≡ false = ground arith in
        rw (low, e)
          (elim (Bool-cases k.extended_key) [
            | inl x ↦ simp x (handle_extended_key_refines s)
            | inr x ↦ simp x (
                press_key_refines s
                ∙ ap (λ c. Queue.add_all (contents k) (one_char c))
                    (translate-char_of k.shift_pressed k.capslock_active k.ctrl_pressed s))
          ])
  ]

-- For a keyboard whose indices lie in the ring, an interrupt appends to the queue of waiting
-- characters exactly what its scancode types on a US keyboard, described by rows of keys and by
-- what Shift, Caps Lock and Ctrl do to a letter, each character that finds 255 waiting being
-- dropped.
pub keyboard_irq_handler_refines :
    (s : ℕ) {k : Keyboard}
    → IsValid k
    → contents (keyboard_irq_handler s k) ≡ Queue.add_all (contents k) (typed k s)
unfolding keyboard_irq_handler typed
keyboard_irq_handler_refines s {k} v = handle_refines (acquire-IsValid v) s
