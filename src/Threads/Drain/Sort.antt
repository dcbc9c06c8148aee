-- ===== src/Threads/Drain/Sort.antt =====
-- The sort of daemon/src/engine/scheduling.rs puts results back in the order of their items.
use import_lens.Prelude.{
  ℕ, zero, suc, ◌+◌, ◌≤◌, ◌<◌, ◌≡◌, refl, ap, ap₂, sym, subst, ◌∙◌, Bool, true, false, List, [],
  ◌∷◌, map, leb, ltb, if◌then◌else◌, length, get_elem?, some, arith, Bool-cases, inl, inr, ◌==◌,
  All,
}
use import_lens.Threads.Drain.{insert_by_index, sort_by_index}

-- How often an index stands in a list of pairs.
unfoldable pub occ {ℓ} : {A : Type ℓ} → ℕ → List (ℕ × A) → ℕ
occ i [] = 0
occ i (x ∷ xs) = let rest = occ i xs in if x.0 == i then suc rest else rest

module _ {T R : Type 0} (run : ℕ → T → R) where
  -- The results of the items at the indices that a test picks, in order.
  pub listing : (ℕ → Bool) → ℕ → List T → List (ℕ × R)
  listing p lo [] = []
  listing p lo (x ∷ xs) =
      let rest = listing p (suc lo) xs in if p lo then (lo, run lo x) ∷ rest else rest

  listing-same :
      (p q : ℕ → Bool) (lo : ℕ) (xs : List T)
      → ((j : ℕ) → lo ≤ j → p j ≡ q j)
      → listing p lo xs ≡ listing q lo xs
  unfolding listing
  listing-same p q lo [] h = refl
  listing-same p q lo (x ∷ xs) h =
      rw (h lo (omega arith), listing-same p q (suc lo) xs (λ j le. h j (omega arith))) refl

  insert-below :
      (p : ℕ → Bool) (i lo : ℕ) (r : R) (xs : List T)
      → i < lo
      → insert_by_index (i, r) (listing p lo xs) ≡ (i, r) ∷ listing p lo xs
  unfolding listing insert_by_index
  insert-below p i lo r [] lt = refl
  insert-below p i lo r (x ∷ xs) lt = elim (Bool-cases (p lo)) [
    | inl e ↦ rw e (ground arith)
    | inr e ↦ rw e (insert-below p i (suc lo) r xs (omega arith))
  ]

  insert-listing :
      (p q : ℕ → Bool) (i k lo : ℕ) (xs : List T) (x : T)
      → i ≡ lo + k
      → get_elem? xs k ≡ some x
      → p i ≡ false
      → q i ≡ true
      → ((j : ℕ) → ¬ (j ≡ i) → p j ≡ q j)
      → insert_by_index (i, run i x) (listing p lo xs) ≡ listing q lo xs
  unfolding listing insert_by_index
  insert-listing p q i k lo [] x e at off on same = absurd (cc)
  insert-listing p q i zero lo (y ∷ ys) x e at off on same =
      let here : i ≡ lo = omega arith in
      let off' : p lo ≡ false = subst (λ n. p n ≡ false) here off in
      let on' : q lo ≡ true = subst (λ n. q n ≡ true) here on in
      rw (off', on')
        (insert-below p i (suc lo) (run i x) ys (omega arith)
          ∙ ap₂ (λ (pair : ℕ × R) rest. pair ∷ rest) (pair_at i lo x y here (some_eq at))
              (listing-same p q (suc lo) ys (λ j le. same j (λ eq. omega arith))))
    where
      some_eq : some y ≡ some x → x ≡ y
      some_eq h = cc

      pair_at : (i lo : ℕ) (x y : T) → i ≡ lo → x ≡ y → ◌≡◌ {A = ℕ × R} (i, run i x) (lo, run lo y)
      pair_at i lo x y e h = ap₂ (λ n z. (n, run n z)) e h
  insert-listing p q i (suc k) lo (y ∷ ys) x e at off on same =
      let ih = insert-listing p q i k (suc lo) ys x (omega arith) at off on same in
      let agree : p lo ≡ q lo = same lo (λ eq. omega arith) in
      elim (Bool-cases (q lo)) [
        | inl t ↦
            rw (agree, t)
              (later (lo, run lo y) (i, run i x) (listing p (suc lo) ys) (omega arith)
                ∙ ap (λ rest. (lo, run lo y) ∷ rest) ih)
        | inr f ↦ rw (agree, f) ih
      ]
    where
      later :
          (y x : ℕ × R) (ys : List (ℕ × R))
          → y.0 < x.0
          → (if leb (x.0) (y.0) then x ∷ y ∷ ys else y ∷ insert_by_index x ys)
            ≡ y ∷ insert_by_index x ys
      later y x ys lt = ground arith

  -- The pairs are results of items at their places, and no place stands twice.
  abbrev pub Valid : List T → ℕ × R → Type 0
  Valid items pair = (x : T) × ((get_elem? items (pair.0) ≡ some x) × (pair.1 ≡ run (pair.0) x))

  none_picked : (lo : ℕ) (xs : List T) → listing (λ i. ltb 0 (occ {A = R} i [])) lo xs ≡ []
  unfolding listing occ
  none_picked lo [] = refl
  none_picked lo (x ∷ xs) = none_picked (suc lo) xs

  pub sort-listing :
      (items : List T) (done : List (ℕ × R))
      → All (Valid items) done
      → ((i : ℕ) → occ i done ≤ 1)
      → sort_by_index done ≡ listing (λ i. ltb 0 (occ i done)) 0 items
  unfolding sort_by_index occ
  sort-listing items [] h once = sym (none_picked 0 items)
  sort-listing items ((i, r) ∷ done) h once =
      let (x, (at, value)) = h.0 in
      ap (insert_by_index (i, r)) (sort-listing items done h.1 (λ j. ground (arith, once j)))
      ∙ ap (λ v. insert_by_index (i, v) (listing (λ i. ltb 0 (occ i done)) 0 items)) value
      ∙ insert-listing (λ i. ltb 0 (occ i done)) (λ j. ltb 0 (occ j ((i, r) ∷ done))) i i 0 items x
          (omega arith) at (ground (arith, once i)) (ground arith) (λ j d. ground arith)

  -- All places picked: the results of all items, in their order.
  unfoldable pub results_from : ℕ → List T → List R
  results_from lo [] = []
  results_from lo (x ∷ xs) = run lo x ∷ results_from (suc lo) xs

  pub listing-all :
      (p : ℕ → Bool) (lo : ℕ) (xs : List T)
      → ((j : ℕ) → lo ≤ j → j < lo + length xs → p j ≡ true)
      → map (λ pair. pair.1) (listing p lo xs) ≡ results_from lo xs
  unfolding listing results_from
  listing-all p lo [] h = refl
  listing-all p lo (x ∷ xs) h = rw (h lo (omega arith) (omega arith)) (
      ap (λ rest. run lo x ∷ rest)
        (listing-all p (suc lo) xs (λ j le lt. h j (omega arith) (omega arith))))
