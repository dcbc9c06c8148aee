-- ===== src/Document/Glob/Memo.antt =====
-- The memo of the glob matcher (daemon/src/document/ignore.rs) changes no answer.
use import_lens.Prelude.{
  ℕ, suc, zero, ◌≡◌, refl, sym, ◌∙◌, Bool, true, false, ◌||◌, List, [], ◌∷◌, none, some, arith,
  ◌==◌, drop, Option-cases, inl, inr,
}
use import_lens.Document.Glob.{
  Bytes, Table, store, recall, or_else, is_empty, glob_matches_at, glob_matches_exact,
}

-- The same search with no memo.
unfoldable pub accepts : Bytes → Bytes → Bool
accepts [] value = is_empty value
accepts (c ∷ []) [] = elim (c == b'*') [ true ↦ accepts [] [] || false | false ↦ false ]
accepts (c ∷ []) (x ∷ value) = elim (c == b'*') [
  | true ↦
      accepts [] (x ∷ value) || (elim (x == b'/') [ true ↦ false | false ↦ accepts (c ∷ []) value ])
  | false ↦ elim (c == x) [ true ↦ accepts [] value | false ↦ false ]
]
accepts (c ∷ d ∷ pattern) [] = elim (c == b'*') [
  | true ↦ elim (d == b'*') [
    | true ↦ accepts pattern [] || false
    | false ↦ accepts (d ∷ pattern) [] || false
  ]
  | false ↦ false
]
accepts (c ∷ d ∷ pattern) (x ∷ value) = elim (c == b'*') [
  | true ↦ elim (d == b'*') [
    | true ↦ accepts pattern (x ∷ value) || accepts (c ∷ d ∷ pattern) value
    | false ↦
        accepts (d ∷ pattern) (x ∷ value)
        || (elim (x == b'/') [ true ↦ false | false ↦ accepts (c ∷ d ∷ pattern) value ])
  ]
  | false ↦ elim (c == x) [ true ↦ accepts (d ∷ pattern) value | false ↦ false ]
]

drop-suc {ℓ} :
    {A : Type ℓ} (i : ℕ) (xs : List A) {x : A} {ys : List A}
    → drop i xs ≡ x ∷ ys
    → drop (suc i) xs ≡ ys
drop-suc zero [] h = cc
drop-suc zero (x ∷ xs) h = cc
drop-suc (suc i) [] h = cc
drop-suc (suc i) (x ∷ xs) h = drop-suc i xs h

-- The whole pattern and the whole value, into which the indices point.
module _ (p v : Bytes) where
  abbrev answer : ℕ → ℕ → Bool
  answer i j = accepts (drop i p) (drop j v)

  -- Every answer in the memo is that of the search without one.
  abbrev IsRight : Table → Type 0
  IsRight memo = (i j : ℕ) (r : Bool) → memo i j ≡ some r → r ≡ answer i j

  abbrev Gives : Bool → Bool × Table → Type 0
  Gives b r = (r.0 ≡ b) × IsRight r.1

  store-IsRight :
      (memo : Table) (i j : ℕ) (r : Bool)
      → IsRight memo
      → r ≡ answer i j
      → IsRight (store memo i j r)
  unfolding store
  store-IsRight memo i j r right e a b s h = ground (arith, right a b s)

  recall-Gives :
      (i j : ℕ) (memo : Table) (body : Table → Bool × Table) (b : Bool)
      → b ≡ answer i j
      → ((m : Table) → IsRight m → Gives b (body m))
      → IsRight memo
      → Gives b (recall i j memo body)
  unfolding recall
  recall-Gives i j memo body b e ok right = elim (Option-cases (memo i j)) [
    | inl new ↦
        let (same, right') = ok memo right in
        rw (new, recall) (same, store-IsRight (body memo).1 i j (body memo).0 right' (same ∙ e))
    | inr (r, old) ↦ rw (old, recall) (right i j r old ∙ sym e, right)
  ]

  or_else-Gives :
      (r : Bool × Table) (next : Table → Bool × Table) (a b : Bool)
      → Gives a r
      → ((m : Table) → IsRight m → Gives b (next m))
      → Gives (a || b) (or_else r next)
  or_else-Gives (true, m) next a b (same, right) ok = (ground arith, right)
  or_else-Gives (false, m) next a b (same, right) ok =
      let (same', right') = ok m right in (ground arith, right')

  branch-Gives :
      (test : Bool) (a b : Bool) (r s : Bool × Table)
      → Gives a r
      → Gives b s
      → Gives (elim test [ true ↦ a | false ↦ b ]) (elim test [ true ↦ r | false ↦ s ])
  branch-Gives true a b r s hr hs = hr
  branch-Gives false a b r s hr hs = hs

  glob-Gives :
      (pattern value : Bytes) (i j : ℕ) (memo : Table)
      → drop i p ≡ pattern
      → drop j v ≡ value
      → IsRight memo
      → Gives (accepts pattern value) (glob_matches_at pattern value i j memo)
  unfolding glob_matches_at accepts
  glob-Gives [] value i j memo ei ej right =
      recall-Gives i j memo _ (is_empty value) (rw (ei, ej) refl) (λ m r. (refl, r)) right
  glob-Gives (c ∷ []) [] i j memo ei ej right =
      recall-Gives i j memo _ (accepts (c ∷ []) []) (rw (ei, ej) refl)
        (λ m r.
          branch-Gives (c == b'*') _ _ _ _
            (or_else-Gives _ _ _ false (glob-Gives [] [] (suc i) j m (drop-suc i p ei) ej r)
              (λ m' r'. (refl, r')))
            (refl, r))
        right
  glob-Gives (c ∷ []) (x ∷ value) i j memo ei ej right =
      recall-Gives i j memo _ (accepts (c ∷ []) (x ∷ value)) (rw (ei, ej) refl)
        (λ m r.
          branch-Gives (c == b'*') _ _ _ _
            (or_else-Gives _ _ _ _ (glob-Gives [] (x ∷ value) (suc i) j m (drop-suc i p ei) ej r)
              (λ m' r'.
                branch-Gives (x == b'/') _ _ _ _ (refl, r')
                  (glob-Gives (c ∷ []) value i (suc j) m' ei (drop-suc j v ej) r')))
            (branch-Gives (c == x) _ _ _ _
              (glob-Gives [] value (suc i) (suc j) m (drop-suc i p ei) (drop-suc j v ej) r)
              (refl, r)))
        right
  glob-Gives (c ∷ d ∷ pattern) [] i j memo ei ej right =
      recall-Gives i j memo _ (accepts (c ∷ d ∷ pattern) []) (rw (ei, ej) refl)
        (λ m r.
          branch-Gives (c == b'*') _ _ _ _
            (branch-Gives (d == b'*') _ _ _ _
              (or_else-Gives _ _ _ false
                (glob-Gives pattern [] (suc (suc i)) j m (drop-suc (suc i) p (drop-suc i p ei)) ej
                  r)
                (λ m' r'. (refl, r')))
              (or_else-Gives _ _ _ false
                (glob-Gives (d ∷ pattern) [] (suc i) j m (drop-suc i p ei) ej r)
                (λ m' r'. (refl, r'))))
            (refl, r))
        right
  glob-Gives (c ∷ d ∷ pattern) (x ∷ value) i j memo ei ej right =
      recall-Gives i j memo _ (accepts (c ∷ d ∷ pattern) (x ∷ value)) (rw (ei, ej) refl)
        (λ m r.
          branch-Gives (c == b'*') _ _ _ _
            (branch-Gives (d == b'*') _ _ _ _
              (or_else-Gives _ _ _ _
                (glob-Gives pattern (x ∷ value) (suc (suc i)) j m
                  (drop-suc (suc i) p (drop-suc i p ei)) ej r)
                (λ m' r'. glob-Gives (c ∷ d ∷ pattern) value i (suc j) m' ei (drop-suc j v ej) r'))
              (or_else-Gives _ _ _ _
                (glob-Gives (d ∷ pattern) (x ∷ value) (suc i) j m (drop-suc i p ei) ej r)
                (λ m' r'.
                  branch-Gives (x == b'/') _ _ _ _ (refl, r')
                    (glob-Gives (c ∷ d ∷ pattern) value i (suc j) m' ei (drop-suc j v ej) r'))))
            (branch-Gives (c == x) _ _ _ _
              (glob-Gives (d ∷ pattern) value (suc i) (suc j) m (drop-suc i p ei) (drop-suc j v ej)
                r)
              (refl, r)))
        right

-- The matcher with its memo answers as the search that remembers nothing.
pub glob_matches_exact-accepts :
    (pattern value : Bytes) → glob_matches_exact pattern value ≡ accepts pattern value
unfolding glob_matches_exact
glob_matches_exact-accepts pattern value =
    (glob-Gives pattern value pattern value 0 0 (λ _ _. none) refl refl (λ i j r h. cc)).0
