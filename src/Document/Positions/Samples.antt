-- ===== src/Document/Positions/Samples.antt =====
-- Positions of daemon/src/document/positions.rs in short sources.
use import_lens.Prelude.{ℕ, ◌≡◌, refl, List, [], ◌∷◌, some, none, min, length, true, if◌then◌else◌}
use import_lens.Document.Positions.{new, position_at, is_char_boundary}
use import_lens.Document.Positions.Walk.{walked, lines_start_chars, position_at-walked}

-- "ab", a carriage return, a line feed, "cd".
abbrev crlf : List ℕ
crlf = b'a' ∷ b'b' ∷ b'\r' ∷ b'\n' ∷ b'c' ∷ b'd' ∷ []

-- A char of four bytes, and "x".
abbrev clef : List ℕ
clef = 240 ∷ 157 ∷ 132 ∷ 158 ∷ b'x' ∷ []

within_crlf : position_at (new crlf) crlf 3 ≡ some (record { line = 0; character = 3 })
unfolding position_at new
within_crlf = refl

behind_crlf : position_at (new crlf) crlf 5 ≡ some (record { line = 1; character = 1 })
unfolding position_at new
behind_crlf = refl

beyond_end : position_at (new crlf) crlf 99 ≡ some (record { line = 1; character = 2 })
unfolding position_at new
beyond_end = refl

two_units : position_at (new clef) clef 4 ≡ some (record { line = 0; character = 2 })
unfolding position_at new
two_units = refl

inside_char : position_at (new clef) clef 1 ≡ none
unfolding position_at new
inside_char = refl

position_at-walked_example :
    position_at (new crlf) crlf 5
    ≡ (if is_char_boundary crlf (min 5 (length crlf)) then some (walked crlf 5) else none)
unfolding lines_start_chars
position_at-walked_example = position_at-walked crlf 5 chars
  where
    chars : lines_start_chars crlf ≡ true
    chars = refl
