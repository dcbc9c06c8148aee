-- ===== src/Cache/Disk/Lowest.antt =====
-- What daemon/src/cache/disk.rs tells the evictor of a shard: its rollup, and its oldest keys.
use import_lens.Prelude.{
  ℕ, zero, suc, ◌-◌, ◌≤◌, ◌≡◌, ◌↔◌, ◌⊎◌, inl, inr, refl, ap, sym, subst, ◌∙◌, String, List, [], ◌∷◌,
  map, ◌==◌, length, min, arith, take, All, All-get, In, here, there, not-In-nil, if_cases, ==_iff,
  false, u64_max,
}
use import_lens.Cache.Budget.Shard.{ShardRollup}
use import_lens.Cache.Disk.{
  Rows, SeqIndex, Tables, first_seq, empty_rollup, shard_rollup, lowest_seq_keys,
}
use import_lens.Cache.Disk.Recount.{entry_of, byte_total, IsAccurate}

-- Each entry's seq is at most that of the entries behind it.
abbrev pub Ascending : SeqIndex → Type 0
Ascending [] = Unit
Ascending (e ∷ es) = All (λ f. e.0 ≤ f.0) es × Ascending es

-- The order in which the database lists a table: that of its keys, of which the seq is the first part.
pub record ListsInOrder (iterate : SeqIndex → SeqIndex) : Type 0 where
  pub same_length : (t : SeqIndex) → length (iterate t) ≡ length t
  pub same_members : (t : SeqIndex) (e : ℕ × String) → In e (iterate t) ↔ In e t
  pub ascending : (t : SeqIndex) → Ascending (iterate t)

-- The entry that the evictor is offered.
abbrev pub offered : ℕ × String → String × ℕ
offered e = (e.1, e.0)

length-map {ℓ κ} :
    {A : Type ℓ} {B : Type κ} (f : A → B) (xs : List A) → length (map f xs) ≡ length xs
length-map f [] = refl
length-map f (x ∷ xs) = ap suc (length-map f xs)

length-take {ℓ} : {A : Type ℓ} (n : ℕ) (xs : List A) → length (take n xs) ≡ min n (length xs)
length-take zero xs = omega arith
length-take (suc n) [] = omega arith
length-take (suc n) (x ∷ xs) = omega (arith, length-take n xs)

In-take {ℓ} : {A : Type ℓ} (n : ℕ) (xs : List A) {a : A} → In a (take n xs) → In a xs
In-take zero xs i = absurd (not-In-nil i)
In-take (suc n) [] i = i
In-take (suc n) (x ∷ xs) (here e) = here e
In-take (suc n) (x ∷ xs) (there i) = there (In-take n xs i)

In-map {ℓ κ} :
    {A : Type ℓ} {B : Type κ} (f : A → B) (xs : List A) {a : A} → In a xs → In (f a) (map f xs)
In-map f (x ∷ xs) (here e) = here (ap f e)
In-map f (x ∷ xs) (there i) = there (In-map f xs i)
In-map f [] i = absurd (not-In-nil i)

All-In {ℓ κ} : {A : Type ℓ} (P : A → Type κ) (xs : List A) → ((a : A) → In a xs → P a) → All P xs
All-In P [] h = tt
All-In P (x ∷ xs) h = (h x (here refl), All-In P xs (λ a i. h a (there i)))

All-map {ℓ κ μ} :
    {A : Type ℓ} {B : Type κ} (P : B → Type μ) (f : A → B) (xs : List A)
    → All (λ a. P (f a)) xs
    → All P (map f xs)
All-map P f [] h = tt
All-map P f (x ∷ xs) h = (h.0, All-map P f xs h.1)

-- The first entries are below the others.
take-Ascending :
    (n : ℕ) (xs : SeqIndex) (f : ℕ × String)
    → Ascending xs
    → In f xs
    → In f (take n xs) ⊎ All (λ e. e.0 ≤ f.0) (take n xs)
take-Ascending zero xs f a j = inr tt
take-Ascending (suc n) [] f a j = inr tt
take-Ascending (suc n) (x ∷ xs) f a (here q) = inl (here q)
take-Ascending (suc n) (x ∷ xs) f a (there j) = elim (take-Ascending n xs f a.1 j) [
  | inl k ↦ inl (there k)
  | inr le ↦ inr (All-get (λ (g : ℕ × String). x.0 ≤ g.0) xs a.0 j, le)
]

module _ (iterate : SeqIndex → SeqIndex) (order : ListsInOrder iterate) where
  -- Of accurate tables the evictor is offered `n` rows, or as many as there are beyond the `floor`; each of
  -- them is a row with its seq, and no row that it is not offered is older than one that it is.
  pub lowest_seq_keys-oldest :
      (t : Tables) (n floor : ℕ)
      → IsAccurate t
      → (length (lowest_seq_keys iterate n floor t) ≡ min n (length t.cache - floor))
        × All (λ e. In (e.1, e.0) (map entry_of t.cache)) (lowest_seq_keys iterate n floor t)
        × All
            (λ f.
              In (offered f) (lowest_seq_keys iterate n floor t)
              ⊎ All (λ e. e.1 ≤ f.0) (lowest_seq_keys iterate n floor t))
            (map entry_of t.cache)
  unfolding lowest_seq_keys
  lowest_seq_keys-oldest t n floor h = (
    length-map offered (take k rows)
        ∙ length-take k rows
        ∙ omega (
          arith,
          h.rows_counted,
          order.same_length t.seq_index,
          ap (length {A = ℕ × String}) h.indexed,
          length-map entry_of t.cache,
        ),
    All-map (λ e. In (e.1, e.0) (map entry_of t.cache)) offered (take k rows)
        (All-In (λ e. In e (map entry_of t.cache)) (take k rows)
          (λ e i. listed e (In-take k rows i))),
    All-In _ (map entry_of t.cache) (λ f j.
        elim (take-Ascending k rows f (order.ascending t.seq_index)
          ((order.same_members t.seq_index f).1 (subst (In f) (sym h.indexed) j))) [
            | inl m ↦ inl (In-map offered (take k rows) m)
            | inr le ↦ inr (All-map (λ (e : String × ℕ). e.1 ≤ f.0) offered (take k rows) le)
          ]),
  )
    where
      k : ℕ
      k = min n (t.summary.entry_count - floor)

      rows : SeqIndex
      rows = iterate t.seq_index

      listed : (e : ℕ × String) → In e rows → In e (map entry_of t.cache)
      listed e i = subst (In e) h.indexed ((order.same_members t.seq_index e).0 i)

  first_seq-least :
      (xs : SeqIndex) (e : ℕ × String) → Ascending xs → In e xs → first_seq iterate xs ≤ e.0
  first_seq-least [] e a i = absurd (not-In-nil i)
  first_seq-least (x ∷ xs) e a (here p) = omega (arith, ap (λ (r : ℕ × String). r.0) p)
  first_seq-least (x ∷ xs) e a (there i) = All-get (λ (g : ℕ × String). x.0 ≤ g.0) xs a.0 i

  -- The first entry of the index is one of its entries, unless it has none.
  first_seq-listed :
      (xs : SeqIndex) → (xs ≡ []) ⊎ ((e : ℕ × String) × In e xs × (e.0 ≡ first_seq iterate xs))
  first_seq-listed [] = inl refl
  first_seq-listed (x ∷ xs) = inr (x, here refl, refl)

  -- No row is below the seq, and one has it; or there is no row and the seq is the largest number.
  abbrev pub OldestOf : ℕ → Rows → Type 0
  OldestOf seq rows =
      All (λ e. seq ≤ e.0) (map entry_of rows)
      × (((rows ≡ []) × (seq ≡ u64_max))
          ⊎ ((e : ℕ × String) × In e (map entry_of rows) × (e.0 ≡ seq)))

  -- The rollup of accurate tables is the number of their rows and bytes, and the seq of their oldest row: the
  -- least of the rows' seqs, or the largest 64-bit number if there is no row.
  pub shard_rollup-recount :
      (t : Tables)
      → IsAccurate t
      → ((shard_rollup iterate t).total_bytes ≡ byte_total t.cache)
        × ((shard_rollup iterate t).entry_count ≡ length t.cache)
        × OldestOf (shard_rollup iterate t).oldest_seq t.cache
  unfolding shard_rollup
  shard_rollup-recount t h =
      if_cases
        (λ (r : ShardRollup).
          (r.total_bytes ≡ byte_total t.cache)
          × (r.entry_count ≡ length t.cache)
          × OldestOf r.oldest_seq t.cache)
        (t.summary.entry_count == 0) _ _
        (λ z.
          none_left t.cache (omega (arith, h.rows_counted, (==_iff t.summary.entry_count 0).0 z)))
        (λ some_left. (
          h.bytes_counted,
          h.rows_counted,
          (
            All-In (λ (e : ℕ × String). first_seq iterate (iterate t.seq_index) ≤ e.0)
                (map entry_of t.cache)
                (λ e i.
                  first_seq-least (iterate t.seq_index) e (order.ascending t.seq_index)
                    ((order.same_members t.seq_index e).1 (subst (In e) (sym h.indexed) i))),
            elim (first_seq-listed (iterate t.seq_index)) [
              | inl empty ↦ absurd (
                  omega (
                    arith,
                    h.rows_counted,
                    order.same_length t.seq_index,
                    ap (length {A = ℕ × String}) empty,
                    ap (length {A = ℕ × String}) h.indexed,
                    length-map entry_of t.cache,
                    ==_iff-not t.summary.entry_count some_left,
                  ))
              | inr (e, i, is) ↦
                  inr (e, subst (In e) h.indexed ((order.same_members t.seq_index e).0 i), is)
            ],
          ),
        ))
    where
      none_left :
          (rows : Rows)
          → length rows ≡ 0
          → ((empty_rollup iterate).total_bytes ≡ byte_total rows)
            × ((empty_rollup iterate).entry_count ≡ length rows)
            × OldestOf (empty_rollup iterate).oldest_seq rows
      none_left [] z = (refl, refl, (tt, inl (refl, refl)))
      none_left (r ∷ rows) z = absurd (omega (arith, z))

      ==_iff-not : (n : ℕ) → (n == 0) ≡ false → ¬ (n ≡ 0)
      ==_iff-not n f z = absurd (cc ((==_iff n 0).1 z))
