-- ===== src/CString/Tests.antt =====
-- Strings in a small memory, and theorems applied to them.
use thuban.Base.{ℕ, List, ◌<◌, ◌≡◌, ◌⊎◌, inr, refl, ◌++◌, arith, [], ◌∷◌, if◌then◌else◌, ◌==◌, some}
use thuban.Base.Store.{update}
use thuban.CString.{Mem, strcat, memmove, copy_back}
use thuban.CString.Text.{IsText}
use thuban.CString.Copy.{strcat-append}
use thuban.CString.Memory.{Moved, memmove-Moved}

-- "abc" at address 10, "b" at address 20, zeros elsewhere.
abbrev memory : Mem
memory a =
    if a == 10
    then 97
    else if a == 11
    then 98
    else if a == 12
    then 99
    else if a == 20
    then 98
    else 0

abbrev abc : List ℕ
abc = 97 ∷ 98 ∷ 99 ∷ []

abbrev b : List ℕ
b = 98 ∷ []

abc-IsText : IsText memory 10 abc
abc-IsText = (refl, omega arith, (refl, omega arith, (refl, omega arith, refl)))

b-IsText : IsText memory 20 b
b-IsText = (refl, omega arith, refl)

moved_up : memmove memory 11 10 3 13 ≡ 99
unfolding memmove copy_back update
moved_up = refl

memmove-Moved_example : Moved memory 11 10 3 (memmove memory 11 10 3)
memmove-Moved_example = memmove-Moved memory 11 10 3

strcat-append_example :
    (m' : Mem) × (strcat 4 memory 10 20 ≡ some m')
    × IsText m' 10 (abc ++ b)
    × ((a : ℕ) → (a < 13) ⊎ (14 < a) → m' a ≡ memory a)
strcat-append_example =
    strcat-append 4 memory 10 20 abc b (omega arith) (omega arith) abc-IsText b-IsText
      (inr (omega arith))
