-- ===== src/LineEdit/Edits.antt =====
-- The line as two stacks of characters, before and after the cursor, and `fgets` against it.
use thuban.Base.{
  ℕ, zero, suc, ◌+◌, ◌-◌, ◌<◌, ◌≤◌, ◌≡◌, refl, ap, ◌∙◌, ◌&&◌, true, List, [], ◌∷◌, length, Option,
  none, some, ltb, leb, ◌==◌, if◌then◌else◌, arith, Bool-cases, inl, inr,
}
use mathlib.Core.Path.{subst}
use thuban.Base.Store.{update, update_self, update_ne}
use thuban.LineEdit.{
  Mode, normal, escape, bracket, Line, put, shift_up, shift_down, redraw, backspaces, move_left,
  move_right, delete_char, insert_char, ends_line,
}

-- The characters before the cursor, the nearest first, and those from the cursor on.
pub record Edit : Type 0 where
  pub before : List ℕ
  pub after : List ℕ

unfoldable pub insert : ℕ → Edit → Edit
insert c e = record e { before = c ∷ e.before }

unfoldable pub delete : Edit → Edit
delete e = elim e.before [ [] ↦ e | x ∷ xs ↦ record e { before = xs } ]

unfoldable pub left : Edit → Edit
left e = elim e.before [ [] ↦ e | x ∷ xs ↦ record { before = xs; after = x ∷ e.after } ]

unfoldable pub right : Edit → Edit
right e = elim e.after [ [] ↦ e | x ∷ xs ↦ record { before = x ∷ e.before; after = xs } ]

-- A character in a buffer of `size` bytes, of which one is kept for the terminator.
unfoldable pub type_in : (size : ℕ) → ℕ → Edit → Edit
unfolding delete insert
type_in size c e =
    if c == 8
    then delete e
    else if leb 32 c && leb c 126 && ltb (length e.before + length e.after) (size - 1)
    then insert c e
    else e

unfoldable pub edit : (size : ℕ) → Mode → ℕ → Edit → Mode × Edit
unfolding type_in left right
edit size normal c e = if c == 0x1B then (escape, e) else (normal, type_in size c e)
edit size escape c e = (if c == 91 then bracket else normal, e)
edit size bracket c e = (normal, if c == 68 then left e else if c == 67 then right e else e)

-- The characters up to a newline, if there is one.
unfoldable pub edits : (size : ℕ) → Mode → List ℕ → Edit → Option Edit
unfolding edit
edits size mode [] e = none
edits size mode (c ∷ cs) e =
    let (mode', e') = edit size mode c e in
    let rest = edits size mode' cs e' in if ends_line mode c then some e else rest

-- What stands in the buffer below an index, downwards, and from an index on, upwards.
abbrev pub downwards : (ℕ → ℕ) → ℕ → List ℕ
downwards s zero = []
downwards s (suc k) = s k ∷ downwards s k

abbrev pub upwards : (ℕ → ℕ) → ℕ → ℕ → List ℕ
upwards s a zero = []
upwards s a (suc n) = s a ∷ upwards s (a + 1) n

abbrev pub edit_of : Line → Edit
edit_of l = record {
  before = downwards l.s l.cursor_pos;
  after = upwards l.s l.cursor_pos (l.len - l.cursor_pos);
}

-- The cursor is in the text, and the text with its terminator in the buffer.
abbrev pub IsValid : ℕ → Line → Type 0
IsValid size l = (l.cursor_pos ≤ l.len) × (l.len < size)

downwards-suc : (s : ℕ → ℕ) (k : ℕ) → downwards s (k + 1) ≡ s k ∷ downwards s k
downwards-suc s k = let e : k + 1 ≡ suc k = omega arith in ap (downwards s) e

pub length-downwards : (s : ℕ → ℕ) (k : ℕ) → length (downwards s k) ≡ k
length-downwards s zero = refl
length-downwards s (suc k) = omega (arith, length-downwards s k)

pub length-upwards : (s : ℕ → ℕ) (a n : ℕ) → length (upwards s a n) ≡ n
length-upwards s a zero = refl
length-upwards s a (suc n) = omega (arith, length-upwards s (a + 1) n)

pub downwards-congr :
    (s s' : ℕ → ℕ) (k : ℕ) → ((a : ℕ) → a < k → s' a ≡ s a) → downwards s' k ≡ downwards s k
downwards-congr s s' zero h = refl
downwards-congr s s' (suc k) h =
    rw (h k (omega arith), downwards-congr s s' k (λ a b. h a (omega arith))) refl

pub upwards-congr :
    (s s' : ℕ → ℕ) (a b n : ℕ)
    → ((j : ℕ) → j < n → s' (a + j) ≡ s (b + j))
    → upwards s' a n ≡ upwards s b n
upwards-congr s s' a b zero h = refl
upwards-congr s s' a b (suc n) h =
    let first : s' a ≡ s b =
      subst (λ i. s' i ≡ s b) (omega arith)
        (subst (λ i. s' (a + 0) ≡ s i) (omega arith) (h 0 (omega arith))) in
    let later : (j : ℕ) → j < n → s' (a + 1 + j) ≡ s (b + 1 + j) =
      λ j lt. ap s' (omega arith) ∙ h (suc j) (omega arith) ∙ ap s (omega arith) in
    rw (first, upwards-congr s s' (a + 1) (b + 1) n later) refl

pub shift_up_lem :
    (n i : ℕ) (s : ℕ → ℕ) (a : ℕ)
    → n ≤ i
    → shift_up n i s a ≡ (if ltb (i - n) a && leb a i then s (a - 1) else s a)
unfolding shift_up
shift_up_lem zero i s a h = ground arith
shift_up_lem (suc n) i s a h =
    shift_up_lem n (i - 1) (update s i (s (i - 1))) a (omega arith) ∙ elim (Bool-cases (i == a)) [
      | inl e ↦
          let same : i ≡ a = ground arith in
          let at : update s i (s (i - 1)) a ≡ s (a - 1) =
            subst (λ k. update s i (s (i - 1)) k ≡ s (k - 1)) same (update_self s i (s (i - 1))) in
          ground (arith, at)
      | inr ne ↦
          ground
            (arith, update_ne s i a (s (i - 1)) (ground arith), update_ne s i (a - 1) (s (i - 1)))
    ]

pub shift_down_lem :
    (n i : ℕ) (s : ℕ → ℕ) (a : ℕ)
    → shift_down n i s a ≡ (if leb i a && ltb a (i + n) then s (a + 1) else s a)
unfolding shift_down
shift_down_lem zero i s a = ground arith
shift_down_lem (suc n) i s a =
    shift_down_lem n (i + 1) (update s i (s (i + 1))) a ∙ elim (Bool-cases (i == a)) [
      | inl e ↦
          let same : i ≡ a = ground arith in
          let at : update s i (s (i + 1)) a ≡ s (a + 1) =
            subst (λ k. update s i (s (i + 1)) k ≡ s (k + 1)) same (update_self s i (s (i + 1))) in
          ground (arith, at)
      | inr ne ↦
          ground
            (arith, update_ne s i a (s (i + 1)) (ground arith), update_ne s i (a + 1) (s (i + 1)))
    ]

-- Drawing changes only what was sent to the screen.
redraw-echo : (n i : ℕ) (l : Line) → redraw n i l ≡ record l { echo = (redraw n i l).echo }
unfolding redraw put
redraw-echo zero i l = refl
redraw-echo (suc n) i l = redraw-echo n (i + 1) (put (l.s i) l)

backspaces-echo : (n : ℕ) (l : Line) → backspaces n l ≡ record l { echo = (backspaces n l).echo }
unfolding backspaces put
backspaces-echo zero l = refl
backspaces-echo (suc n) l = backspaces-echo n (put 8 l)

-- A line without what was sent to the screen.
abbrev pub silent : Line → Line
silent l = record l { echo = [] }

abbrev pub inserted : ℕ → Line → Line
inserted c l = record l {
  s = update (shift_up (l.len - l.cursor_pos) l.len l.s) l.cursor_pos c;
  len = l.len + 1;
  cursor_pos = l.cursor_pos + 1;
}

abbrev pub deleted : Line → Line
deleted l = record l {
  s = shift_down (l.len - l.cursor_pos) (l.cursor_pos - 1) l.s;
  len = l.len - 1;
  cursor_pos = l.cursor_pos - 1;
}

pub silent-insert_char : (c : ℕ) (l : Line) → silent (insert_char c l) ≡ silent (inserted c l)
unfolding insert_char
silent-insert_char c l =
    let m = record (inserted c l) { cursor_pos = l.cursor_pos } in
    let drawn = redraw (m.len - m.cursor_pos) m.cursor_pos m in
    let n = m.len - (m.cursor_pos + 1) in
    ap silent (backspaces-echo n (record drawn { cursor_pos = l.cursor_pos + 1 }))
    ∙ ap (λ d. silent (record d { cursor_pos = l.cursor_pos + 1 }))
        (redraw-echo (m.len - m.cursor_pos) m.cursor_pos m)

pub silent-delete_char : (l : Line) → 0 < l.cursor_pos → silent (delete_char l) ≡ silent (deleted l)
unfolding delete_char put
silent-delete_char l h =
    let e : ltb 0 l.cursor_pos ≡ true = ground arith in
    let m = deleted l in
    let drawn = redraw (m.len - m.cursor_pos) m.cursor_pos (put 8 m) in
    rw (delete_char, e)
      (ap silent (backspaces-echo (m.len - m.cursor_pos + 1) (put 32 drawn))
        ∙ ap silent (redraw-echo (m.len - m.cursor_pos) m.cursor_pos (put 8 m)))

pub edit_of-inserted :
    (c : ℕ) (l : Line) → l.cursor_pos ≤ l.len → edit_of (inserted c l) ≡ insert c (edit_of l)
unfolding insert
edit_of-inserted c l h =
    let k = l.cursor_pos in
    let n = l.len - k in
    let up = shift_up n l.len l.s in
    let s' = update up k c in
    let here : s' k ≡ c = update_self up k c in
    let below : downwards s' k ≡ downwards l.s k = downwards-congr l.s s' k (λ a lt.
      update_ne up k a c (omega arith)
      ∙ ground (arith, shift_up_lem n l.len l.s a (omega arith))) in
    let above : upwards s' (k + 1) n ≡ upwards l.s k n = upwards-congr l.s s' (k + 1) k n (λ j lt.
      update_ne up k (k + 1 + j) c (omega arith)
      ∙ shift_up_lem n l.len l.s (k + 1 + j) (omega arith)
      ∙ (let same : l.s (k + 1 + j - 1) ≡ l.s (k + j) = ap l.s (omega arith) in
          ground (arith, same))) in
    let rounds : l.len + 1 - (k + 1) ≡ n = omega arith in
    rw (rounds, above)
      (ap (λ xs. record { before = xs; after = upwards l.s k n })
        (downwards-suc s' k ∙ rw (here, below) refl))

pub edit_of-deleted :
    (l : Line) → 0 < l.cursor_pos → l.cursor_pos ≤ l.len → edit_of (deleted l) ≡ delete (edit_of l)
unfolding delete
edit_of-deleted l pos h =
    let k = l.cursor_pos - 1 in
    let n = l.len - l.cursor_pos in
    let s' = shift_down n k l.s in
    let whole : downwards l.s l.cursor_pos ≡ l.s k ∷ downwards l.s k =
      ap (downwards l.s) (let e : l.cursor_pos ≡ k + 1 = omega arith in e) ∙ downwards-suc l.s k in
    let below : downwards s' k ≡ downwards l.s k =
      downwards-congr l.s s' k (λ a lt. ground (arith, shift_down_lem n k l.s a)) in
    let above : upwards s' k n ≡ upwards l.s l.cursor_pos n =
      upwards-congr l.s s' k l.cursor_pos n (λ j lt.
        shift_down_lem n k l.s (k + j)
        ∙ (let same : l.s (k + j + 1) ≡ l.s (l.cursor_pos + j) = ap l.s (omega arith) in
            ground (arith, same))) in
    let rounds : l.len - 1 - k ≡ n = omega arith in rw (rounds, above, below, whole) refl

pub edit_of-move_left : (l : Line) → l.cursor_pos ≤ l.len → edit_of (move_left l) ≡ left (edit_of l)
unfolding move_left left put
edit_of-move_left l h = elim (Bool-cases (ltb 0 l.cursor_pos)) [
  | inr e ↦ let z : l.cursor_pos ≡ 0 = ground arith in rw (move_left, e) (rw z refl)
  | inl e ↦
      let k = l.cursor_pos - 1 in
      let whole : downwards l.s l.cursor_pos ≡ l.s k ∷ downwards l.s k =
        ap (downwards l.s) (let e : l.cursor_pos ≡ k + 1 = ground arith in e)
        ∙ downwards-suc l.s k in
      let rounds : l.len - k ≡ suc (l.len - l.cursor_pos) = ground arith in
      let next : k + 1 ≡ l.cursor_pos = ground arith in rw (move_left, e, whole, rounds, next) refl
]

pub edit_of-move_right :
    (l : Line) → l.cursor_pos ≤ l.len → edit_of (move_right l) ≡ right (edit_of l)
unfolding move_right right put
edit_of-move_right l h = elim (Bool-cases (ltb l.cursor_pos l.len)) [
  | inr e ↦ let z : l.len - l.cursor_pos ≡ 0 = ground arith in rw (move_right, e, z) refl
  | inl e ↦
      let rounds : l.len - l.cursor_pos ≡ suc (l.len - (l.cursor_pos + 1)) = ground arith in
      rw (move_right, e, rounds, downwards-suc l.s l.cursor_pos) refl
]
