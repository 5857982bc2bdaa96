-- ===== src/Printf/Buffer/Pieces.antt =====
-- `vsnprintf` for a format of pieces, into a buffer that is apart from the format and the strings.
use thuban.Base.{ℕ, ◌+◌, ◌<◌, ◌≤◌, ◌⊎◌, List, [], ◌∷◌, length}
use Prim.{Unit}
use thuban.Printf.Convert.Pieces.{Piece, literal, signed, unsigned, hex, character, text}

-- Do the `size` bytes from `str` on share none with `n` characters at `p` and their terminator?
abbrev pub Apart : (str size p n : ℕ) → Type 0
Apart str size p n = (p + n < str) ⊎ (str + size ≤ p)

unfoldable pub TextsApart : (str size : ℕ) → List Piece → Type 0
TextsApart str size [] = Unit
TextsApart str size (literal c ∷ ps) = TextsApart str size ps
TextsApart str size (signed a ∷ ps) = TextsApart str size ps
TextsApart str size (unsigned a ∷ ps) = TextsApart str size ps
TextsApart str size (hex a ∷ ps) = TextsApart str size ps
TextsApart str size (character a ∷ ps) = TextsApart str size ps
TextsApart str size (text s cs ∷ ps) = Apart str size s (length cs) × TextsApart str size ps
