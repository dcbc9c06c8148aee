-- ===== src/Document/Positions.antt =====
-- daemon/src/document/positions.rs: the `LineIndex`, from byte offsets to lines and UTF-16 columns. A source
-- is its bytes; a char counts its UTF-16 code units at its first byte, so a slice between two boundaries
-- of chars has as many as its bytes.
pub mod Walk
mod Samples
use import_lens.Prelude.{
  ℕ, zero, suc, ◌+◌, ◌-◌, ◌%◌, ◌^◌, min, Bool, true, false, not, ◌&&◌, ◌||◌, List, [], ◌∷◌, Option,
  none, some, ltb, leb, ◌==◌, if◌then◌else◌, length, take, drop, get_elem?,
}

pub record SourcePosition : Type 0 where
  pub line : ℕ
  pub character : ℕ

pub record SourceRange : Type 0 where
  pub start : SourcePosition
  pub end : SourcePosition

pub record LineIndex : Type 0 where
  pub line_starts : List ℕ

-- Behind the first; `index` is that of the byte at the head.
unfoldable pub starts_from : ℕ → List ℕ → List ℕ
starts_from index [] = []
starts_from index (b ∷ []) =
    if b == b'\n' then suc index ∷ [] else if b == b'\r' then suc index ∷ [] else []
starts_from index (b ∷ c ∷ bytes) =
    let one = starts_from (suc index) (c ∷ bytes) in
    let two = starts_from (suc (suc index)) bytes in
    if b == b'\n'
    then suc index ∷ one
    else if b == b'\r'
    then (if c == b'\n' then suc (suc index) ∷ two else suc index ∷ one)
    else one

unfoldable pub new : List ℕ → LineIndex
unfolding starts_from
new source = record { line_starts = 0 ∷ starts_from 0 source }

-- `len_utf16` of the char that starts with the byte; a continuation byte starts none.
abbrev pub len_utf16 : ℕ → ℕ
len_utf16 b = if ltb b 128 then 1 else if ltb b 192 then 0 else if ltb b 240 then 1 else 2

abbrev pub sum_utf16 : List ℕ → ℕ
sum_utf16 [] = 0
sum_utf16 (b ∷ bytes) = len_utf16 b + sum_utf16 bytes

-- How many starts at the head are at most the offset.
unfoldable pub partition_point : ℕ → List ℕ → ℕ
partition_point offset [] = 0
partition_point offset (start ∷ starts) =
    let rest = partition_point offset starts in if leb start offset then suc rest else 0

-- A byte of a char behind its first one.
abbrev pub is_continuation : ℕ → Bool
is_continuation b = leb 128 b && ltb b 192

-- A char starts at the index, or the text ends there.
unfoldable pub char_starts : List ℕ → ℕ → Bool
char_starts [] zero = true
char_starts [] (suc i) = false
char_starts (b ∷ bytes) zero = not (is_continuation b)
char_starts (b ∷ bytes) (suc i) = char_starts bytes i

unfoldable pub is_char_boundary : List ℕ → ℕ → Bool
unfolding char_starts
is_char_boundary source i = i == 0 || char_starts source i

-- Whether a slice of the text does not panic.
abbrev pub sliceable : List ℕ → ℕ → ℕ → Bool
sliceable source start end =
    leb start end && (is_char_boundary source start && is_char_boundary source end)

-- `none` for a panic: a line out of range, or a slice whose start is behind its end or which begins or ends
-- inside a char.
unfoldable pub position_at : LineIndex → List ℕ → ℕ → Option SourcePosition
unfolding partition_point is_char_boundary
position_at index source offset =
    let safe_offset = min offset (length source) in
    let line = partition_point safe_offset index.line_starts - 1 in
    elim (get_elem? index.line_starts line) [
      | none ↦ none
      | some line_start ↦
          if sliceable source line_start safe_offset
          then some (record {
            line = line % 2 ^ 32;
            character = sum_utf16 (drop line_start (take safe_offset source)) % 2 ^ 32;
          })
          else none
    ]

abbrev range_of : Option SourcePosition → Option SourcePosition → Option SourceRange
range_of (some start) (some end) = some (record { start = start; end = end })
range_of (some start) none = none
range_of none end = none

unfoldable pub range_from_offsets : LineIndex → List ℕ → ℕ → ℕ → Option SourceRange
unfolding position_at
range_from_offsets index source start end =
    range_of (position_at index source start) (position_at index source end)
