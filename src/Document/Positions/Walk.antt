-- ===== src/Document/Positions/Walk.antt =====
-- The positions of daemon/src/document/positions.rs against a walk over the bytes.
use import_lens.Prelude.{
  ℕ, zero, suc, ◌+◌, ◌-◌, ◌%◌, ◌^◌, ◌≤◌, ◌≡◌, ◌⊎◌, inl, inr, refl, sym, ap, ap₂, ◌∙◌, min, Bool,
  true, false, not, ◌&&◌, ◌||◌, List, [], ◌∷◌, Option, none, some, leb, ◌==◌, if◌then◌else◌, length,
  take, drop, get_elem?, arith, leb→le, Bool-cases,
}
use import_lens.Document.Positions.{
  SourcePosition, starts_from, new, len_utf16, sum_utf16, partition_point, position_at, char_starts,
  is_char_boundary, sliceable,
}

-- Whether the line ends behind the byte: at a line feed, and at a carriage return that none follows.
unfoldable pub ends_line : ℕ → List ℕ → Bool
ends_line b [] = b == b'\n' || b == b'\r'
ends_line b (c ∷ _) = b == b'\n' || (b == b'\r' && not (c == b'\n'))

-- The line and the column after so many bytes.
pub walk : List ℕ → ℕ → ℕ × ℕ → ℕ × ℕ
walk [] k p = p
walk (b ∷ bytes) zero p = p
walk (b ∷ bytes) (suc k) p =
    walk bytes k (if ends_line b bytes then (suc p.0, 0) else (p.0, p.1 + len_utf16 b))

walk-min :
    (bytes : List ℕ) (k : ℕ) (p : ℕ × ℕ) → walk bytes (min k (length bytes)) p ≡ walk bytes k p
unfolding walk
walk-min [] k p = refl
walk-min (b ∷ bytes) zero p = ap (λ n. walk (b ∷ bytes) n p) zero_least
  where
    zero_least : min 0 (suc (length bytes)) ≡ 0
    zero_least = omega arith
walk-min (b ∷ bytes) (suc k) p =
    ap (λ n. walk (b ∷ bytes) n p) both_suc
    ∙ walk-min bytes k (if ends_line b bytes then (suc p.0, 0) else (p.0, p.1 + len_utf16 b))
  where
    both_suc : min (suc k) (suc (length bytes)) ≡ suc (min k (length bytes))
    both_suc = omega arith

-- The starts behind the first, by the ends of lines alone.
starts_at_ends : ℕ → List ℕ → List ℕ
starts_at_ends index [] = []
starts_at_ends index (b ∷ bytes) =
    let rest = starts_at_ends (suc index) bytes in
    if ends_line b bytes then suc index ∷ rest else rest

starts_from-ends :
    (bytes : List ℕ) (index : ℕ) → starts_from index bytes ≡ starts_at_ends index bytes
unfolding starts_from starts_at_ends ends_line
starts_from-ends [] index = refl
starts_from-ends (b ∷ []) index = ground arith
starts_from-ends (b ∷ c ∷ bytes) index =
    ground
      (arith, starts_from-ends (c ∷ bytes) (suc index), starts_from-ends bytes (suc (suc index)))

-- The last of the starts at the head that are at most the offset, or the one before them.
line_start_of : ℕ → List ℕ → ℕ → ℕ
line_start_of start [] offset = start
line_start_of start (next ∷ starts) offset =
    let rest = line_start_of next starts offset in if leb next offset then rest else start

get-line_start_of :
    (start : ℕ) (starts : List ℕ) (offset : ℕ)
    → get_elem? (start ∷ starts) (partition_point offset starts)
      ≡ some (line_start_of start starts offset)
unfolding partition_point line_start_of
get-line_start_of start [] offset = refl
get-line_start_of start (next ∷ starts) offset = elim (Bool-cases (leb next offset)) [
  | inl e ↦ rw e (get-line_start_of next starts offset)
  | inr e ↦ rw e refl
]

line_start_of-le :
    (start : ℕ) (starts : List ℕ) (offset : ℕ)
    → start ≤ offset
    → line_start_of start starts offset ≤ offset
unfolding line_start_of
line_start_of-le start [] offset h = h
line_start_of-le start (next ∷ starts) offset h = elim (Bool-cases (leb next offset)) [
  | inl e ↦ rw e (line_start_of-le next starts offset (leb→le next offset e))
  | inr e ↦ rw e h
]

-- No start of what follows is at most an offset that is not beyond the index.
starts_at_ends-none :
    (start index offset : ℕ) (bytes : List ℕ)
    → offset ≤ index
    → (partition_point offset (starts_at_ends index bytes) ≡ 0)
      × (line_start_of start (starts_at_ends index bytes) offset ≡ start)
unfolding starts_at_ends partition_point line_start_of
starts_at_ends-none start index offset [] h = (refl, refl)
starts_at_ends-none start index offset (b ∷ bytes) h = elim (Bool-cases (ends_line b bytes)) [
  | inl e ↦ rw e (ground arith, ground arith)
  | inr e ↦ rw e (starts_at_ends-none start (suc index) offset bytes (omega arith))
]

drop-suc {ℓ} :
    {A : Type ℓ} (t i : ℕ) (x : A) (xs : List A)
    → suc i ≤ t
    → drop (t - i) (x ∷ xs) ≡ drop (t - suc i) xs
drop-suc t i x xs h = ap (λ n. drop n (x ∷ xs)) one_more
  where
    one_more : t - i ≡ suc (t - suc i)
    one_more = omega (arith, h)

drop_same {ℓ} : {A : Type ℓ} (t i : ℕ) (xs : List A) → t ≡ i → drop (t - i) xs ≡ xs
drop_same t i xs h = ap (λ n. drop n xs) zero_left
  where
    zero_left : t - i ≡ 0
    zero_left = omega (arith, h)

-- Where the offset stands: on the line of the start before the bytes, or on one that starts among them.
abbrev Stands : ℕ → ℕ → ℕ → List ℕ → ℕ → ℕ → ℕ → Type 0
Stands start line column bytes index offset k =
    let starts = starts_at_ends index bytes in
    let t = line_start_of start starts offset in
    ((partition_point offset starts ≡ 0)
      × (t ≡ start)
      × (walk bytes k (line, column) ≡ (line, column + sum_utf16 (take k bytes))))
    ⊎ ((suc index ≤ t)
        × (walk bytes k (line, column)
            ≡ (line + partition_point offset starts, sum_utf16 (drop (t - index) (take k bytes)))))

pair_eq : {a b c d : ℕ} → a ≡ b → c ≡ d → Path (ℕ × ℕ) (a, c) (b, d)
pair_eq p q = ap₂ (λ (x y : ℕ). (x, y)) p q

-- The same byte, whose line does not end behind it.
further :
    (b : ℕ) (bytes : List ℕ) (start line column index offset k : ℕ)
    → ends_line b bytes ≡ false
    → Stands start line (column + len_utf16 b) bytes (suc index) offset k
    → Stands start line column (b ∷ bytes) index offset (suc k)
unfolding walk starts_at_ends partition_point line_start_of
further b bytes start line column index offset k e (inl (pp, t, w)) =
    rw e (inl (pp, t, w ∙ pair_eq refl (omega arith)))
further b bytes start line column index offset k e (inr (le, w)) = rw e (
    inr (
      omega arith,
      w
          ∙ pair_eq refl (
              ap sum_utf16 (
                sym (
                  drop-suc (line_start_of start (starts_at_ends (suc index) bytes) offset) index b
                    (take k bytes) (omega (arith, le))))),
    ))

-- The same where the line ends behind the byte.
next_line :
    (b : ℕ) (bytes : List ℕ) (start line column index offset k : ℕ)
    → ends_line b bytes ≡ true
    → leb (suc index) offset ≡ true
    → Stands (suc index) (suc line) 0 bytes (suc index) offset k
    → Stands start line column (b ∷ bytes) index offset (suc k)
unfolding walk starts_at_ends partition_point line_start_of
next_line b bytes start line column index offset k e le (inl (pp, t, w)) =
    rw (e, le)
      (inr (
        omega (arith, t),
        w
            ∙ pair_eq (omega (arith, pp)) (
                omega (
                  arith,
                  ap sum_utf16 (
                      drop-suc (line_start_of (suc index) (starts_at_ends (suc index) bytes) offset)
                        index b (take k bytes) (omega (arith, t))
                      ∙ drop_same
                          (line_start_of (suc index) (starts_at_ends (suc index) bytes) offset)
                          (suc index) (take k bytes) t),
                )),
      ))
next_line b bytes start line column index offset k e le (inr (far, w)) =
    rw (e, le)
      (inr (
        omega (arith, far),
        w
            ∙ pair_eq (omega arith) (
                ap sum_utf16 (
                  sym (
                    drop-suc (line_start_of (suc index) (starts_at_ends (suc index) bytes) offset)
                      index b (take k bytes) (omega (arith, far))))),
      ))

walk-Stands :
    (bytes : List ℕ) (k start line column index offset : ℕ)
    → offset ≡ index + k
    → Stands start line column bytes index offset k
unfolding walk starts_at_ends partition_point line_start_of
walk-Stands [] zero start line column index offset h = inl (refl, refl, pair_eq refl (omega arith))
walk-Stands [] (suc k) start line column index offset h =
    inl (refl, refl, pair_eq refl (omega arith))
walk-Stands (b ∷ bytes) zero start line column index offset h =
    let none = starts_at_ends-none start index offset (b ∷ bytes) (omega (arith, h)) in
    inl (none.0, none.1, pair_eq refl (omega arith))
walk-Stands (b ∷ bytes) (suc k) start line column index offset h =
    elim (Bool-cases (ends_line b bytes)) [
      | inl e ↦
          next_line b bytes start line column index offset k e (ground arith)
            (walk-Stands bytes k (suc index) (suc line) 0 (suc index) offset (omega (arith, h)))
      | inr e ↦ further b bytes start line column index offset k e (
          walk-Stands bytes k start line (column + len_utf16 b) (suc index) offset
            (omega (arith, h)))
    ]

-- As in any UTF-8 text, what stands behind the end of a line starts a char.
unfoldable pub lines_start_chars : List ℕ → Bool
unfolding ends_line char_starts
lines_start_chars [] = true
lines_start_chars (b ∷ bytes) =
    (not (ends_line b bytes) || char_starts bytes 0) && lines_start_chars bytes

-- The start of a line that begins among the bytes is the start of a char.
line_start-char_starts :
    (bytes : List ℕ) (start index offset : ℕ)
    → lines_start_chars bytes ≡ true
    → (line_start_of start (starts_at_ends index bytes) offset ≡ start)
      ⊎ ((suc index ≤ line_start_of start (starts_at_ends index bytes) offset)
          × (char_starts bytes (line_start_of start (starts_at_ends index bytes) offset - index)
              ≡ true))
unfolding lines_start_chars starts_at_ends line_start_of char_starts
line_start-char_starts [] start index offset h = inl refl
line_start-char_starts (b ∷ bytes) start index offset h = elim (Bool-cases (ends_line b bytes)) [
  | inl e ↦ elim (Bool-cases (leb (suc index) offset)) [
    | inl le ↦
        rw (e, le)
          (inr (
            begun (suc index) e
              (line_start-char_starts bytes (suc index) (suc index) offset (ground arith))))
    | inr gt ↦ rw (e, gt) (inl refl)
  ]
  | inr e ↦
      rw e (later start (line_start-char_starts bytes start (suc index) offset (ground arith)))
]
  where
    t : ℕ → ℕ
    t from = line_start_of from (starts_at_ends (suc index) bytes) offset

    one_less :
        (n : ℕ)
        → suc (suc index) ≤ n
        → char_starts bytes (n - suc index) ≡ true
        → char_starts (b ∷ bytes) (n - index) ≡ true
    one_less n le c = ap (char_starts (b ∷ bytes)) (before n le) ∙ c
      where
        before : (m : ℕ) → suc (suc index) ≤ m → m - index ≡ suc (m - suc index)
        before m l = omega (arith, l)

    first :
        char_starts bytes 0 ≡ true
        → (n : ℕ) → n ≡ suc index
        → char_starts (b ∷ bytes) (n - index) ≡ true
    first c n same = ap (char_starts (b ∷ bytes)) (one n same) ∙ c
      where
        one : (m : ℕ) → m ≡ suc index → m - index ≡ 1
        one m l = omega (arith, l)

    begun :
        (from : ℕ)
        → ends_line b bytes ≡ true
        → (t from ≡ suc index)
          ⊎ ((suc (suc index) ≤ t from) × (char_starts bytes (t from - suc index) ≡ true))
        → (suc index ≤ t from) × (char_starts (b ∷ bytes) (t from - index) ≡ true)
    begun from e (inl same) = (omega (arith, same), first (ground arith) (t from) same)
    begun from e (inr (le, c)) = (omega (arith, le), one_less (t from) le c)

    later :
        (from : ℕ)
        → (t from ≡ from)
          ⊎ ((suc (suc index) ≤ t from) × (char_starts bytes (t from - suc index) ≡ true))
        → (t from ≡ from)
          ⊎ ((suc index ≤ t from) × (char_starts (b ∷ bytes) (t from - index) ≡ true))
    later from (inl same) = inl same
    later from (inr (le, c)) = inr (omega (arith, le), one_less (t from) le c)

-- The position that the walk ends at, in 32 bits.
abbrev pub walked : List ℕ → ℕ → SourcePosition
walked source offset = record {
  line = (walk source offset (0, 0)).0 % 2 ^ 32;
  character = (walk source offset (0, 0)).1 % 2 ^ 32;
}

module _ (source : List ℕ) (offset : ℕ) where
  abbrev safe : ℕ
  safe = min offset (length source)

  abbrev line_start : ℕ
  line_start = line_start_of 0 (starts_at_ends 0 source) safe

  walk-safe : walk source offset (0, 0) ≡ (
    partition_point safe (starts_at_ends 0 source),
    sum_utf16 (drop line_start (take safe source)),
  )
  walk-safe =
      sym (walk-min source offset (0, 0)) ∙ go (walk-Stands source safe 0 0 0 0 safe (omega arith))
    where
      go :
          Stands 0 0 0 source 0 safe safe
          → walk source safe (0, 0) ≡ (
            partition_point safe (starts_at_ends 0 source),
            sum_utf16 (drop line_start (take safe source)),
          )
      go (inl (pp, t, w)) =
          w
          ∙ pair_eq (omega (arith, pp))
              (omega (arith, ap (λ n. sum_utf16 (drop n (take safe source))) t))
      go (inr (le, w)) =
          w ∙ pair_eq (omega arith) (ap (λ n. sum_utf16 (drop n (take safe source))) (omega arith))

  line_start-boundary : lines_start_chars source ≡ true → is_char_boundary source line_start ≡ true
  unfolding is_char_boundary
  line_start-boundary h = elim (line_start-char_starts source 0 0 safe h) [
    | inl z ↦ ground (arith, z)
    | inr (le, c) ↦ ground (arith, c)
  ]

  -- What is found of the line, or a panic inside a char.
  abbrev unless_inside : SourcePosition → Option SourcePosition
  unless_inside p = if is_char_boundary source safe then some p else none

  -- The end of `position_at`, once the line is found.
  abbrev at_start : ℕ → Option ℕ → Option SourcePosition
  at_start line o = elim o [
    | none ↦ none
    | some start ↦
        if sliceable source start safe
        then some (record {
          line = line % 2 ^ 32;
          character = sum_utf16 (drop start (take safe source)) % 2 ^ 32;
        })
        else none
  ]

  abbrev at_line : List ℕ → ℕ → Option SourcePosition
  at_line starts line = at_start line (get_elem? (0 ∷ starts) line)

  at_line-walked :
      lines_start_chars source ≡ true
      → at_line (starts_at_ends 0 source) (partition_point safe (starts_at_ends 0 source))
        ≡ unless_inside (walked source offset)
  at_line-walked chars =
      ap (at_start (partition_point safe (starts_at_ends 0 source)))
        (get-line_start_of 0 (starts_at_ends 0 source) safe)
      ∙ rw
          (
            lt_safe (line_start_of-le 0 (starts_at_ends 0 source) safe (omega arith)),
            line_start-boundary chars,
          )
          (ap (λ (p : ℕ × ℕ). unless_inside (position p)) (sym walk-safe))
    where
      position : ℕ × ℕ → SourcePosition
      position p = record { line = p.0 % 2 ^ 32; character = p.1 % 2 ^ 32 }

      lt_safe : line_start ≤ safe → leb line_start safe ≡ true
      lt_safe h = ground arith

  first_counted :
      (starts : List ℕ) → partition_point safe (0 ∷ starts) - 1 ≡ partition_point safe starts
  unfolding partition_point
  first_counted starts = ground arith

  -- In a source where the byte behind the end of a line starts a char, as in any UTF-8 text, the index finds a
  -- position for an offset, cut to the length, exactly where it is on a char boundary (it panics inside a
  -- char); and the position is the one that a walk over the bytes before the offset ends at: a line feed ends
  -- a line, and so does a carriage return that none follows.
  pub position_at-walked :
      lines_start_chars source ≡ true
      → position_at (new source) source offset ≡ (
          if is_char_boundary source (min offset (length source))
          then some (walked source offset)
          else none)
  unfolding position_at new
  position_at-walked chars =
      ap (at_line (starts_from 0 source)) (first_counted (starts_from 0 source))
      ∙ ap (λ starts. at_line starts (partition_point safe starts)) (starts_from-ends source 0)
      ∙ at_line-walked chars
