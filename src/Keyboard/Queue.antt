-- ===== src/Keyboard/Queue.antt =====
-- What a reader of the keyboard sees: a queue of at most 255 characters, oldest first.
use thuban.Base.{ℕ, List, [], ◌∷◌, ◌++◌, ◌==◌, if◌then◌else◌, length}
use thuban.Base.Int.{ℤ, negsuc}
use thuban.Keyboard.{int_of_char}

-- One more than 255 is dropped.
unfoldable pub add : List ℕ → ℕ → List ℕ
add q c = if length q == 255 then q else q ++ (c ∷ [])

unfoldable pub getchar : List ℕ → ℤ × List ℕ
getchar [] = (negsuc 0, [])
getchar (c ∷ q) = (int_of_char c, q)

unfoldable pub add_all : List ℕ → List ℕ → List ℕ
add_all q [] = q
add_all q (c ∷ cs) = add_all (add q c) cs
