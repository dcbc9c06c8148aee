-- ===== src/Document/Glob.antt =====
-- daemon/src/document/ignore.rs, `glob_matches_exact`: the matcher of the ignore rules, with its memo.
-- A slice from an index to the end is the list that begins there; the index goes along for the memo.
pub mod Memo
pub mod Relation
use import_lens.Prelude.{
  ℕ, suc, Bool, true, false, ◌&&◌, List, [], ◌∷◌, Option, none, some, ◌==◌, if◌then◌else◌,
}

abbrev pub Bytes : Type 0
Bytes = List ℕ

-- `memo[pattern_index][value_index]`
abbrev pub Table : Type 0
Table = ℕ → ℕ → Option Bool

unfoldable pub store : Table → ℕ → ℕ → Bool → Table
store memo i j r a b = if a == i && b == j then some r else memo a b

-- The answer from the memo, or `body` with its answer stored.
unfoldable pub recall : ℕ → ℕ → Table → (Table → Bool × Table) → Bool × Table
recall i j memo body = elim (memo i j) [
  | some r ↦ (r, memo)
  | none ↦ let (r, memo') = body memo in (r, store memo' i j r)
]

-- `a || b`, where `b` runs only if `a` is false.
abbrev pub or_else : Bool × Table → (Table → Bool × Table) → Bool × Table
or_else (true, memo) next = (true, memo)
or_else (false, memo) next = next memo

abbrev pub is_empty : Bytes → Bool
is_empty [] = true
is_empty (_ ∷ _) = false

unfoldable pub glob_matches_at : Bytes → Bytes → ℕ → ℕ → Table → Bool × Table
glob_matches_at [] value i j memo = recall i j memo (λ m. (is_empty value, m))
glob_matches_at (c ∷ []) [] i j memo = recall i j memo λ m. elim (c == b'*') [
  | true ↦ or_else (glob_matches_at [] [] (suc i) j m) (λ m'. (false, m'))
  | false ↦ (false, m)
]
glob_matches_at (c ∷ []) (x ∷ value) i j memo = recall i j memo λ m. elim (c == b'*') [
  | true ↦ or_else (glob_matches_at [] (x ∷ value) (suc i) j m) λ m'. elim (x == b'/') [
    | true ↦ (false, m')
    | false ↦ glob_matches_at (c ∷ []) value i (suc j) m'
  ]
  | false ↦ elim (c == x) [ true ↦ glob_matches_at [] value (suc i) (suc j) m | false ↦ (false, m) ]
]
glob_matches_at (c ∷ d ∷ pattern) [] i j memo = recall i j memo λ m. elim (c == b'*') [
  | true ↦ elim (d == b'*') [
    | true ↦ or_else (glob_matches_at pattern [] (suc (suc i)) j m) (λ m'. (false, m'))
    | false ↦ or_else (glob_matches_at (d ∷ pattern) [] (suc i) j m) (λ m'. (false, m'))
  ]
  | false ↦ (false, m)
]
glob_matches_at (c ∷ d ∷ pattern) (x ∷ value) i j memo = recall i j memo λ m. elim (c == b'*') [
  | true ↦ elim (d == b'*') [
    | true ↦
        or_else (glob_matches_at pattern (x ∷ value) (suc (suc i)) j m)
          λ m'. glob_matches_at (c ∷ d ∷ pattern) value i (suc j) m'
    | false ↦ or_else (glob_matches_at (d ∷ pattern) (x ∷ value) (suc i) j m) λ m'.
        elim (x == b'/') [
          | true ↦ (false, m')
          | false ↦ glob_matches_at (c ∷ d ∷ pattern) value i (suc j) m'
        ]
  ]
  | false ↦ elim (c == x) [
    | true ↦ glob_matches_at (d ∷ pattern) value (suc i) (suc j) m
    | false ↦ (false, m)
  ]
]

unfoldable pub glob_matches_exact : Bytes → Bytes → Bool
unfolding glob_matches_at recall store
glob_matches_exact pattern value = (glob_matches_at pattern value 0 0 (λ _ _. none)).0
