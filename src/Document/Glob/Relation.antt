-- ===== src/Document/Glob/Relation.antt =====
-- What a pattern of the ignore rules means, with no search order and no memo in it, and that the
-- matcher of daemon/src/document/ignore.rs decides it.
use import_lens.Prelude.{
  ℕ, ◌≡◌, ◌≢◌, ◌↔◌, refl, Bool, true, false, ◌||◌, List, [], ◌∷◌, arith, ◌==◌, Bool-cases, inl, inr,
}
use import_lens.Document.Glob.{Bytes, is_empty, glob_matches_exact}
use import_lens.Document.Glob.Memo.{accepts, glob_matches_exact-accepts}

-- `**` is any run of bytes, `*` any run with no slash in it, and every other byte is itself.
pub data Token : Type 0 where
  deep shallow : Token
  literal : ℕ → Token

unfoldable pub tokens : Bytes → List Token
tokens [] = []
tokens (c ∷ []) = elim (c == b'*') [ true ↦ shallow ∷ [] | false ↦ literal c ∷ [] ]
tokens (c ∷ d ∷ pattern) = elim (c == b'*') [
  | true ↦ elim (d == b'*') [
    | true ↦ deep ∷ tokens pattern
    | false ↦ shallow ∷ tokens (d ∷ pattern)
  ]
  | false ↦ literal c ∷ tokens (d ∷ pattern)
]

pub data Matches : List Token → Bytes → Type 0 where
  empty : Matches [] []
  byte :
      {c x : ℕ} {p : List Token} {v : Bytes} → x ≡ c → Matches p v → Matches (literal c ∷ p) (x ∷ v)
  leave_deep : {p : List Token} {v : Bytes} → Matches p v → Matches (deep ∷ p) v
  take_deep :
      {x : ℕ} {p : List Token} {v : Bytes} → Matches (deep ∷ p) v → Matches (deep ∷ p) (x ∷ v)
  leave_shallow : {p : List Token} {v : Bytes} → Matches p v → Matches (shallow ∷ p) v
  take_shallow :
      {x : ℕ} {p : List Token} {v : Bytes}
      → x ≢ b'/'
      → Matches (shallow ∷ p) v
      → Matches (shallow ∷ p) (x ∷ v)

-- Search over tokens, as the relation suggests it.
runs : List Token → Bytes → Bool
runs [] v = is_empty v
runs (literal c ∷ p) [] = false
runs (literal c ∷ p) (x ∷ v) = elim (c == x) [ true ↦ runs p v | false ↦ false ]
runs (deep ∷ p) [] = runs p [] || false
runs (deep ∷ p) (x ∷ v) = runs p (x ∷ v) || runs (deep ∷ p) v
runs (shallow ∷ p) [] = runs p [] || false
runs (shallow ∷ p) (x ∷ v) =
    runs p (x ∷ v) || (elim (x == b'/') [ true ↦ false | false ↦ runs (shallow ∷ p) v ])

accepts-runs : (pattern value : Bytes) → accepts pattern value ≡ runs (tokens pattern) value
unfolding accepts tokens runs
accepts-runs [] v = refl
accepts-runs (c ∷ []) [] = ground (arith, accepts-runs [] [])
accepts-runs (c ∷ []) (x ∷ v) =
    ground (arith, accepts-runs [] (x ∷ v), accepts-runs [] v, accepts-runs (c ∷ []) v)
accepts-runs (c ∷ d ∷ p) [] = ground (arith, accepts-runs p [], accepts-runs (d ∷ p) [])
accepts-runs (c ∷ d ∷ p) (x ∷ v) = ground (
  arith,
  accepts-runs p (x ∷ v),
  accepts-runs (d ∷ p) (x ∷ v),
  accepts-runs (d ∷ p) v,
  accepts-runs (c ∷ d ∷ p) v,
)

runs_sound : (p : List Token) (v : Bytes) → runs p v ≡ true → Matches p v
unfolding runs
runs_sound [] [] h = empty
runs_sound [] (x ∷ v) h = cc
runs_sound (literal c ∷ p) [] h = cc
runs_sound (literal c ∷ p) (x ∷ v) h = byte (ground arith) (runs_sound p v (ground arith))
runs_sound (deep ∷ p) [] h = leave_deep (runs_sound p [] (ground arith))
runs_sound (deep ∷ p) (x ∷ v) h = elim (Bool-cases (runs p (x ∷ v))) [
  | inl e ↦ leave_deep (runs_sound p (x ∷ v) e)
  | inr e ↦ take_deep (runs_sound (deep ∷ p) v (ground arith))
]
runs_sound (shallow ∷ p) [] h = leave_shallow (runs_sound p [] (ground arith))
runs_sound (shallow ∷ p) (x ∷ v) h = elim (Bool-cases (runs p (x ∷ v))) [
  | inl e ↦ leave_shallow (runs_sound p (x ∷ v) e)
  | inr e ↦ take_shallow (ground arith) (runs_sound (shallow ∷ p) v (ground arith))
]

runs_complete : {p : List Token} {v : Bytes} → Matches p v → runs p v ≡ true
unfolding runs
runs_complete empty = refl
runs_complete (byte e d) = ground (arith, runs_complete d)
runs_complete (leave_deep {p = p} {v = []} d) = ground (arith, runs_complete d)
runs_complete (leave_deep {p = p} {v = x ∷ v} d) = ground (arith, runs_complete d)
runs_complete (take_deep d) = ground (arith, runs_complete d)
runs_complete (leave_shallow {p = p} {v = []} d) = ground (arith, runs_complete d)
runs_complete (leave_shallow {p = p} {v = x ∷ v} d) = ground (arith, runs_complete d)
runs_complete (take_shallow n d) = ground (arith, runs_complete d)

-- The matcher answers true exactly for the values that the pattern matches.
pub glob_matches_exact_iff :
    (pattern value : Bytes)
    → (glob_matches_exact pattern value ≡ true) ↔ Matches (tokens pattern) value
glob_matches_exact_iff pattern value =
    rw (glob_matches_exact-accepts, accepts-runs) (runs_sound (tokens pattern) value, runs_complete)
