-- ===== src/LineEdit/Refine.antt =====
-- `fgets` does to the line what the editor does to its two stacks, inside the buffer.
use thuban.Base.{
  ℕ, ◌+◌, ◌-◌, ◌<◌, ◌≤◌, ◌≡◌, refl, sym, ◌∙◌, ◌&&◌, List, [], ◌∷◌, length, Option, none, some, ltb,
  leb, ◌==◌, arith, Bool-cases, inl, inr,
}
use mathlib.Core.Path.{subst}
use thuban.Base.Store.{update, update_self, update_ne}
use thuban.LineEdit.{
  Mode, normal, escape, bracket, Line, put, move_left, move_right, delete_char, insert_char,
  type_char, step, ends_line, finish, fgets_loop, fgets,
}
use thuban.LineEdit.Edits.{
  Edit, insert, delete, left, right, type_in, edit, edits, downwards, upwards, edit_of, IsValid,
  length-downwards, length-upwards, downwards-congr, upwards-congr, shift_up_lem, shift_down_lem,
  silent, inserted, deleted, silent-insert_char, silent-delete_char, edit_of-inserted,
  edit_of-deleted, edit_of-move_left, edit_of-move_right,
}

-- The line is valid, and no byte outside the buffer has changed.
abbrev pub Good : ℕ → (ℕ → ℕ) → Line → Type 0
Good size s l = IsValid size l × ((a : ℕ) → size ≤ a → l.s a ≡ s a)

-- A line that holds the edited text, and is good.
abbrev Holds : ℕ → (ℕ → ℕ) → Edit → Line → Type 0
Holds size s e l = (edit_of l ≡ e) × Good size s l

Holds-silent :
    (size : ℕ) (s : ℕ → ℕ) (e : Edit) (l m : Line)
    → silent l ≡ silent m
    → Holds size s e (silent m)
    → Holds size s e l
Holds-silent size s e l m same h = subst (Holds size s e) (sym same) h

Holds-insert_char :
    (size c : ℕ) (s : ℕ → ℕ) (l : Line)
    → Good size s l
    → l.len < size - 1
    → Holds size s (insert c (edit_of l)) (insert_char c l)
Holds-insert_char size c s l ((k, n), out) room =
    Holds-silent size s (insert c (edit_of l)) (insert_char c l) (inserted c l)
      (silent-insert_char c l)
      (
        edit_of-inserted c l k,
        (
          (omega arith, omega arith),
          λ a far.
              update_ne _ l.cursor_pos a c (omega arith)
              ∙ ground
                  (arith, shift_up_lem (l.len - l.cursor_pos) l.len l.s a (omega arith), out a far),
        ),
      )

Holds-delete_char :
    (size : ℕ) (s : ℕ → ℕ) (l : Line)
    → Good size s l
    → Holds size s (delete (edit_of l)) (delete_char l)
unfolding delete delete_char
Holds-delete_char size s l ((k, n), out) = elim (Bool-cases (ltb 0 l.cursor_pos)) [
  | inr e ↦
      let z : l.cursor_pos ≡ 0 = ground arith in rw (delete_char, e) (rw z refl, ((k, n), out))
  | inl e ↦
      Holds-silent size s (delete (edit_of l)) (delete_char l) (deleted l)
        (silent-delete_char l (ground arith))
        (
          edit_of-deleted l (ground arith) k,
          (
            (omega arith, omega arith),
            λ a far.
                ground (
                  arith,
                  shift_down_lem (l.len - l.cursor_pos) (l.cursor_pos - 1) l.s a,
                  out a far,
                ),
          ),
        )
]

Holds-move_left :
    (size : ℕ) (s : ℕ → ℕ) (l : Line)
    → Good size s l
    → Holds size s (left (edit_of l)) (move_left l)
unfolding move_left put
Holds-move_left size s l ((k, n), out) = (
  edit_of-move_left l k,
  elim (Bool-cases (ltb 0 l.cursor_pos)) [
    | inl e ↦ rw (move_left, e) ((omega arith, n), out)
    | inr e ↦ rw (move_left, e) ((k, n), out)
  ],
)

Holds-move_right :
    (size : ℕ) (s : ℕ → ℕ) (l : Line)
    → Good size s l
    → Holds size s (right (edit_of l)) (move_right l)
unfolding move_right put
Holds-move_right size s l ((k, n), out) = (
  edit_of-move_right l k,
  elim (Bool-cases (ltb l.cursor_pos l.len)) [
    | inl e ↦ rw (move_right, e) ((ground arith, n), out)
    | inr e ↦ rw (move_right, e) ((k, n), out)
  ],
)

Holds-type_char :
    (size c : ℕ) (s : ℕ → ℕ) (l : Line)
    → Good size s l
    → Holds size s (type_in size c (edit_of l)) (type_char size c l)
unfolding type_char type_in
Holds-type_char size c s l g =
    let whole : length (downwards l.s l.cursor_pos)
          + length (upwards l.s l.cursor_pos (l.len - l.cursor_pos))
        ≡ l.len =
      omega (
        arith,
        length-downwards l.s l.cursor_pos,
        length-upwards l.s l.cursor_pos (l.len - l.cursor_pos),
        g.0,
      ) in
    elim (Bool-cases (c == 8)) [
      | inl e ↦ rw e (Holds-delete_char size s l g)
      | inr e ↦
          rw (e, whole)
            (elim (Bool-cases (leb 32 c && leb c 126 && ltb l.len (size - 1))) [
              | inl f ↦ rw f (Holds-insert_char size c s l g (ground arith))
              | inr f ↦ rw f (refl, g)
            ])
    ]

Holds-step :
    (size : ℕ) (mode : Mode) (c : ℕ) (s : ℕ → ℕ) (l : Line)
    → Good size s l
    → ((step size mode c l).0 ≡ (edit size mode c (edit_of l)).0)
      × Holds size s (edit size mode c (edit_of l)).1 (step size mode c l).1
unfolding step edit
Holds-step size normal c s l g = elim (Bool-cases (c == 0x1B)) [
  | inl e ↦ rw e (refl, (refl, g))
  | inr e ↦ rw e (refl, Holds-type_char size c s l g)
]
Holds-step size escape c s l g = (refl, (refl, g))
Holds-step size bracket c s l g = elim (Bool-cases (c == 68)) [
  | inl e ↦ rw e (refl, Holds-move_left size s l g)
  | inr e ↦ rw e (elim (Bool-cases (c == 67)) [
    | inl f ↦ rw f (refl, Holds-move_right size s l g)
    | inr f ↦ rw f (refl, (refl, g))
  ])
]

-- The line that was read holds the edited text, terminated and inside the buffer; and the editor
-- has not reached the end of the line as long as nothing is returned.
abbrev pub Read : ℕ → (ℕ → ℕ) → Option Edit → Option Line → Type 0
Read size s e none = e ≡ none
Read size s e (some l) = (e ≡ some (edit_of l)) × (l.s l.len ≡ 0) × Good size s l

Read-finish :
    (size : ℕ) (s : ℕ → ℕ) (l : Line)
    → Good size s l
    → Read size s (some (edit_of l)) (some (finish l))
unfolding finish put
Read-finish size s l ((k, n), out) =
    let s' = update l.s l.len 0 in
    let below : downwards s' l.cursor_pos ≡ downwards l.s l.cursor_pos =
      downwards-congr l.s s' l.cursor_pos (λ a lt. update_ne l.s l.len a 0 (omega arith)) in
    let above : upwards s' l.cursor_pos (l.len - l.cursor_pos)
        ≡ upwards l.s l.cursor_pos (l.len - l.cursor_pos) =
      upwards-congr l.s s' l.cursor_pos l.cursor_pos (l.len - l.cursor_pos)
        (λ j lt. update_ne l.s l.len (l.cursor_pos + j) 0 (omega arith)) in
    (
      rw (below, above) refl,
      update_self l.s l.len 0,
      ((k, n), λ a far. update_ne l.s l.len a 0 (omega arith) ∙ out a far),
    )

Read-fgets_loop :
    (size : ℕ) (mode : Mode) (cs : List ℕ) (s : ℕ → ℕ) (l : Line)
    → Good size s l
    → Read size s (edits size mode cs (edit_of l)) (fgets_loop size mode cs l)
unfolding edits fgets_loop
Read-fgets_loop size mode [] s l g = refl
Read-fgets_loop size mode (c ∷ cs) s l g = elim (Bool-cases (ends_line mode c)) [
  | inl e ↦ rw e (Read-finish size s l g)
  | inr e ↦
      let (same, (held, good)) = Holds-step size mode c s l g in
      let rest = Read-fgets_loop size (step size mode c l).0 cs s (step size mode c l).1 good in
      rw (e, ← same, ← held) rest
]

-- For a size above 0, `fgets` returns exactly when the editor ends its line, and then the buffer
-- holds, with its terminator, the line that the editor makes. Nothing is written outside the buffer.
pub fgets-Read :
    (s : ℕ → ℕ) (size : ℕ) (input : List ℕ)
    → 0 < size
    → Read size s
        (edits size normal input (record { before = []; after = [] }))
        (fgets s size input)
unfolding fgets
fgets-Read s size input h =
    Read-fgets_loop size normal input s (record { s = s; len = 0; cursor_pos = 0; echo = [] })
      ((omega arith, h), λ a far. refl)
