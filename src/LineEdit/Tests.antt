-- ===== src/LineEdit/Tests.antt =====
-- A line typed with a step to the left, and a theorem applied to it.
use thuban.Base.{◌≡◌, refl, List, [], ◌∷◌}
use thuban.LineEdit.Edits.{insert, delete, left}
use thuban.LineEdit.Keys.{Key, char, backspace, arrow_left, escaped, press, press_all}

-- "a", "c", "x", Backspace, the key to the left, "b", and ESC with Enter, which is passed over.
abbrev keys : List Key
keys = char 97 ∷ char 99 ∷ char 120 ∷ backspace ∷ arrow_left ∷ char 98 ∷ escaped 10 ∷ []

-- The line is "abc", with the cursor before "c".
line_made :
    press_all 7 keys (record { before = []; after = [] })
    ≡ record { before = 98 ∷ 97 ∷ []; after = 99 ∷ [] }
unfolding press_all press insert delete left
line_made = refl
