-- ===== src/Cache/Import/Candidates.antt =====
-- daemon/src/cache/memory.rs: the candidates of `enforce_memory_cap`, which hold each entry that is not dirty.
use import_lens.Prelude.{
  ℕ, ◌≤◌, ◌≡◌, ◌⊎◌, inl, inr, refl, sym, ap, ◌∙◌, String, true, false, List, [], ◌∷◌, none, some,
  get, contains, All, In, here, there, arith, if_cases, text_dec, DistinctKeys, get-absent,
  contains_key, All-mono,
}
use import_lens.Cache.Import.{CachedImport, memory_weight}
use import_lens.Cache.Import.Writes.{Memory, Candidate, insert_candidate, before, candidates}

-- A candidate stands for an entry, with its weight.
abbrev pub Present : Memory → Candidate → Type 0
Present m (seq, key, weight) =
    (cached : CachedImport) × (get key m ≡ some cached)
    × (cached.last_seq ≡ seq)
    × (memory_weight cached ≡ weight)

abbrev pub Other : String → Candidate → Type 0
Other k (seq, key, weight) = ¬ (k ≡ key)

abbrev pub OtherKeys : List Candidate → Type 0
OtherKeys [] = Unit
OtherKeys ((seq, key, weight) ∷ es) = All (Other key) es × OtherKeys es

pub insert_candidate-All :
    (P : Candidate → Type 0) (e : Candidate) (es : List Candidate)
    → P e
    → All P es
    → All P (insert_candidate e es)
unfolding insert_candidate
insert_candidate-All P e [] p h = (p, tt)
insert_candidate-All P e (f ∷ es) p h =
    if_cases (All P) (before e f) _ _ (λ _. (p, h)) (λ _. (h.0, insert_candidate-All P e es p h.1))

insert_candidate-OtherKeys :
    (e : Candidate) (es : List Candidate)
    → All (Other e.1) es
    → OtherKeys es
    → OtherKeys (insert_candidate e es)
unfolding insert_candidate
insert_candidate-OtherKeys e [] o h = (tt, tt)
insert_candidate-OtherKeys e (f ∷ es) o h =
    if_cases OtherKeys (before e f) _ _ (λ _. (o, h))
      (λ _. (
        insert_candidate-All (Other f.1) e es (λ q. o.0 (sym q)) h.0,
        insert_candidate-OtherKeys e es o.1 h.1,
      ))

In-insert_candidate :
    (e x : Candidate) (es : List Candidate) → In x (e ∷ es) → In x (insert_candidate e es)
unfolding insert_candidate
In-insert_candidate e x [] i = i
In-insert_candidate e x (f ∷ es) i =
    if_cases (In x) (before e f) _ _ (λ _. i) (λ _. later i (In-insert_candidate e x es))
  where
    later :
        In x (e ∷ f ∷ es)
        → (In x (e ∷ es) → In x (insert_candidate e es))
        → In x (f ∷ insert_candidate e es)
    later (here q) ih = there (ih (here q))
    later (there (here q)) ih = here q
    later (there (there j)) ih = there (ih (there j))

Present-cons :
    (k : String) (v : CachedImport) (m : Memory) (e : Candidate)
    → contains_key k m ≡ false
    → Present m e
    → Present ((k, v) ∷ m) e
unfolding get
Present-cons k v m (seq, key, weight) absent (cached, e, s, q) = elim (text_dec k key) [
  | yes same ↦ absurd (none-ne-some (sym (get-absent k m absent) ∙ ap (λ t. get t m) same ∙ e))
  | no other ↦ (cached, ground (arith, e), s, q)
]
  where
    none-ne-some : none ≡ some cached → ⊥
    none-ne-some h = cc

pub Present-Other :
    (k : String) (m : Memory) (e : Candidate) → contains_key k m ≡ false → Present m e → Other k e
Present-Other k m (seq, key, weight) absent (cached, e, s, q) same =
    none-ne-some (sym (get-absent k m absent) ∙ ap (λ t. get t m) same ∙ e)
  where
    none-ne-some : none ≡ some cached → ⊥
    none-ne-some h = cc

abbrev pub Entry : Type 0
Entry = String × CachedImport

abbrev pub NotOlder : ℕ → Candidate → Type 0
NotOlder seq (seq', key, weight) = seq ≤ seq'

abbrev pub Ascending : List Candidate → Type 0
Ascending [] = Unit
Ascending ((seq, key, weight) ∷ es) = All (NotOlder seq) es × Ascending es

before-NotOlder :
    (e f : Candidate) → ((before e f ≡ true) → e.0 ≤ f.0) × ((before e f ≡ false) → f.0 ≤ e.0)
unfolding before
before-NotOlder (seq, key, weight) (seq', key', weight') = ground (arith)

NotOlder-trans :
    (s t : ℕ) → s ≤ t → (es : List Candidate) → All (NotOlder t) es → All (NotOlder s) es
NotOlder-trans s t le es h = All-mono (NotOlder t) (NotOlder s) (λ e q. omega (arith, q, le)) es h

insert_candidate-Ascending :
    (e : Candidate) (es : List Candidate) → Ascending es → Ascending (insert_candidate e es)
unfolding insert_candidate
insert_candidate-Ascending e [] h = (tt, tt)
insert_candidate-Ascending e (f ∷ es) h =
    if_cases Ascending (before e f) _ _
      (λ q.
        (((before-NotOlder e f).0 q, NotOlder-trans e.0 f.0 ((before-NotOlder e f).0 q) es h.0), h))
      (λ q. (
        insert_candidate-All (NotOlder f.0) e es ((before-NotOlder e f).1 q) h.0,
        insert_candidate-Ascending e es h.1,
      ))

module _ (dirty : List String) where
  abbrev pub NotDirty : Candidate → Type 0
  NotDirty (seq, key, weight) = contains key dirty ≡ false

  pub candidates-NotDirty : (m : Memory) → All NotDirty (candidates dirty m)
  unfolding candidates
  candidates-NotDirty [] = tt
  candidates-NotDirty ((k, v) ∷ m) =
      if_cases (All NotDirty) (contains k dirty) _ _ (λ _. candidates-NotDirty m)
        (λ e.
          insert_candidate-All NotDirty (v.last_seq, k, memory_weight v) (candidates dirty m) e
            (candidates-NotDirty m))

  pub candidates-Ascending : (m : Memory) → Ascending (candidates dirty m)
  unfolding candidates
  candidates-Ascending [] = tt
  candidates-Ascending ((k, v) ∷ m) =
      if_cases Ascending (contains k dirty) _ _ (λ _. candidates-Ascending m)
        (λ _.
          insert_candidate-Ascending (v.last_seq, k, memory_weight v) (candidates dirty m)
            (candidates-Ascending m))

  abbrev pub IsDirty : Entry → Type 0
  IsDirty (key, cached) = contains key dirty ≡ true

  abbrev pub Covered : List Candidate → Entry → Type 0
  Covered es (key, cached) =
      (contains key dirty ≡ true) ⊎ In (cached.last_seq, key, memory_weight cached) es

  pub candidates-Present : (m : Memory) → DistinctKeys m → All (Present m) (candidates dirty m)
  unfolding candidates get
  candidates-Present [] d = tt
  candidates-Present ((k, v) ∷ m) d =
      let rest : All (Present ((k, v) ∷ m)) (candidates dirty m) =
        All-mono (Present m) (Present ((k, v) ∷ m)) (λ e. Present-cons k v m e d.0)
          (candidates dirty m) (candidates-Present m d.1) in
      if_cases (All (Present ((k, v) ∷ m))) (contains k dirty) _ _ (λ _. rest)
        (λ _.
          insert_candidate-All (Present ((k, v) ∷ m)) (v.last_seq, k, memory_weight v)
            (candidates dirty m) (v, get-insert_first, refl, refl) rest)
    where
      get-insert_first : get k ((k, v) ∷ m) ≡ some v
      get-insert_first = ground arith

  pub candidates-OtherKeys : (m : Memory) → DistinctKeys m → OtherKeys (candidates dirty m)
  unfolding candidates
  candidates-OtherKeys [] d = tt
  candidates-OtherKeys ((k, v) ∷ m) d =
      if_cases OtherKeys (contains k dirty) _ _ (λ _. candidates-OtherKeys m d.1)
        (λ _.
          insert_candidate-OtherKeys (v.last_seq, k, memory_weight v) (candidates dirty m)
            (All-mono (Present m) (Other k) (λ e. Present-Other k m e d.0) (candidates dirty m)
              (candidates-Present m d.1))
            (candidates-OtherKeys m d.1))

  Covered-cons :
      (e : Candidate) (es : List Candidate) (x : Entry)
      → Covered es x
      → Covered (insert_candidate e es) x
  Covered-cons e es (key, cached) (inl h) = inl h
  Covered-cons e es (key, cached) (inr i) = inr (In-insert_candidate e _ es (there i))

  pub candidates-Covered : (m : Memory) → All (Covered (candidates dirty m)) m
  unfolding candidates
  candidates-Covered [] = tt
  candidates-Covered ((k, v) ∷ m) =
      if_cases (λ es. All (Covered es) ((k, v) ∷ m)) (contains k dirty) _ _
        (λ e. (inl e, candidates-Covered m))
        (λ _. (
          inr (In-insert_candidate (v.last_seq, k, memory_weight v) _ _ (here refl)),
          All-mono (Covered (candidates dirty m)) _
              (Covered-cons (v.last_seq, k, memory_weight v) (candidates dirty m)) m
              (candidates-Covered m),
        ))
