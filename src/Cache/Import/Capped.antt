-- ===== src/Cache/Import/Capped.antt =====
-- daemon/src/cache/memory.rs: `enforce_memory_cap` stops within nine tenths of both caps, or when only dirty
-- entries are left, which it never evicts.
use import_lens.Prelude.{
  ℕ, ◌-◌, ◌*◌, ◌/◌, ◌≤◌, ◌≡◌, ◌⊎◌, inl, inr, refl, sym, ap, subst, ◌∙◌, String, true, false, ◌&&◌,
  List, [], ◌∷◌, Option, none, some, ite, leb, length, get, remove, contains, All, All-get,
  All-remove, All-mono, here, there, arith, if_cases, text_dec, DistinctKeys, remove-DistinctKeys,
  total_of, total_of-remove, length-total_of, weight_or_zero, u64_max, get-remove,
}
use import_lens.Cache.Import.{
  max_memory_entries, max_memory_weight_bytes, CachedImport, ImportCache, World, memory_weight,
}
use import_lens.Cache.Import.Writes.{
  Memory, weight_of, Candidate, candidates, within_batch, evict_loop, enforce_memory_cap,
}
use import_lens.Cache.Import.Candidates.{
  Present, Other, OtherKeys, Entry, IsDirty, Covered, candidates-Present, candidates-OtherKeys,
  candidates-Covered, NotOlder, Ascending, NotDirty, candidates-NotDirty, candidates-Ascending,
}

-- While the weights do not overflow, the source's total is their sum.
weight_of-total :
    (memory : Memory)
    → total_of memory_weight memory ≤ u64_max
    → weight_of memory ≡ total_of memory_weight memory
unfolding weight_of
weight_of-total [] h = refl
weight_of-total ((key, cached) ∷ memory) h = ground (arith, weight_of-total memory (omega arith))

abbrev pub WithinCaps : Memory → Type 0
WithinCaps m =
    (length m ≤ max_memory_entries) × (total_of memory_weight m ≤ max_memory_weight_bytes)

-- Within nine tenths of both caps.
abbrev pub WithinBatch : Memory → Type 0
WithinBatch m =
    (length m ≤ max_memory_entries * 9 / 10)
    × (total_of memory_weight m ≤ max_memory_weight_bytes * 9 / 10)

within_batch-WithinBatch :
    (count weight : ℕ)
    → within_batch count weight ≡ true
    → (count ≤ max_memory_entries * 9 / 10) × (weight ≤ max_memory_weight_bytes * 9 / 10)
within_batch-WithinBatch count weight h = (ground arith, ground arith)

Present-remove :
    (k : String) (m : Memory) (e : Candidate) → Other k e → Present m e → Present (remove k m) e
Present-remove k m (seq, key, weight) o (cached, e, s, q) =
    (cached, ground (arith, get-remove k key m, e), s, q)

Present-remove_all :
    (k : String) (m : Memory) (es : List Candidate)
    → All (Other k) es
    → All (Present m) es
    → All (Present (remove k m)) es
Present-remove_all k m [] o h = tt
Present-remove_all k m (e ∷ es) o h =
    (Present-remove k m e o.0 h.0, Present-remove_all k m es o.1 h.1)

module _ (dirty : List String) where
  Covered-remove :
      (k : String) (seq weight : ℕ) (es : List Candidate) (m : Memory)
      → All (Covered dirty ((seq, k, weight) ∷ es)) m
      → All (Covered dirty es) (remove k m)
  unfolding remove
  Covered-remove k seq weight es [] h = tt
  Covered-remove k seq weight es ((j, v) ∷ m) h =
      elim (text_dec j k)
        as (λ t. All (Covered dirty es) (ite t (remove k m) ((j, v) ∷ remove k m))) [
          | yes e ↦ Covered-remove k seq weight es m h.1
          | no e ↦ (elsewhere e h.0, Covered-remove k seq weight es m h.1)
        ]
    where
      elsewhere : ¬ (j ≡ k) → Covered dirty ((seq, k, weight) ∷ es) (j, v) → Covered dirty es (j, v)
      elsewhere d (inl dirty_key) = inl dirty_key
      elsewhere d (inr (here q)) = absurd (d (ap (λ (c : Candidate). c.1) q))
      elsewhere d (inr (there i)) = inr i

  abbrev pub Trimmed : Memory → Type 0
  Trimmed m = WithinBatch m ⊎ All (IsDirty dirty) m

  Covered-nil : (x : Entry) → Covered dirty [] x → IsDirty dirty x
  Covered-nil (key, cached) (inl h) = h
  Covered-nil (key, cached) (inr i) = elim i [ ]

  evict_loop-Trimmed :
      (w : World) (generation count weight : ℕ) (es : List Candidate) (c : ImportCache)
      → DistinctKeys c.memory
      → count ≡ length c.memory
      → weight ≡ total_of memory_weight c.memory
      → All (Present c.memory) es
      → OtherKeys es
      → All (Covered dirty es) c.memory
      → Trimmed (evict_loop w generation count weight es c).memory
  unfolding evict_loop
  evict_loop-Trimmed w generation count weight [] c d hc hw p o v =
      inr (All-mono (Covered dirty []) (IsDirty dirty) Covered-nil c.memory v)
  evict_loop-Trimmed w generation count weight ((seq, key, entry_weight) ∷ es) c d hc hw p o v =
      if_cases (λ (r : ImportCache). Trimmed r.memory) (within_batch count weight) c _
        (λ e. inl (
          subst (λ n. n ≤ max_memory_entries * 9 / 10) hc
              (within_batch-WithinBatch count weight e).0,
          subst (λ n. n ≤ max_memory_weight_bytes * 9 / 10) hw
              (within_batch-WithinBatch count weight e).1,
        ))
        (λ _.
          evict_loop-Trimmed w generation (count - 1) (weight - entry_weight) es _
            (remove-DistinctKeys key c.memory d) (fewer p.0) (lighter p.0)
            (Present-remove_all key c.memory es o.0 p.1) o.1
            (Covered-remove key seq entry_weight es c.memory v))
    where
      fewer : Present c.memory (seq, key, entry_weight) → count - 1 ≡ length (remove key c.memory)
      fewer (cached, e, s, q) = omega (
        arith,
        hc,
        length-total_of c.memory,
        length-total_of (remove key c.memory),
        total_of-remove (λ _. 1) key c.memory d,
        ap (weight_or_zero (λ _. 1)) e,
      )

      lighter :
          Present c.memory (seq, key, entry_weight)
          → weight - entry_weight ≡ total_of memory_weight (remove key c.memory)
      lighter (cached, e, s, q) = omega (
        arith,
        hw,
        q,
        total_of-remove memory_weight key c.memory d,
        ap (weight_or_zero memory_weight) e,
      )

  evict_loop-All :
      (P : Entry → Type 0) (w : World) (generation count weight : ℕ) (es : List Candidate)
      (c : ImportCache)
      → All P c.memory
      → All P (evict_loop w generation count weight es c).memory
  unfolding evict_loop
  evict_loop-All P w generation count weight [] c h = h
  evict_loop-All P w generation count weight ((seq, key, entry_weight) ∷ es) c h =
      if_cases (λ (r : ImportCache). All P r.memory) (within_batch count weight) c _ (λ _. h)
        (λ _.
          evict_loop-All P w generation (count - 1) (weight - entry_weight) es _
            (All-remove P key c.memory h))

  -- An entry that is dirty, or was used no earlier.
  abbrev pub Newer : ℕ → Entry → Type 0
  Newer seq (key, cached) = (contains key dirty ≡ true) ⊎ (seq ≤ cached.last_seq)

  Covered-Newer :
      (seq : ℕ) (es : List Candidate)
      → All (NotOlder seq) es
      → (x : Entry) → Covered dirty es x
      → Newer seq x
  Covered-Newer seq es h (key, cached) (inl e) = inl e
  Covered-Newer seq es h (key, cached) (inr i) = inr (All-get (NotOlder seq) es h i)

  abbrev pub Survives : String → CachedImport → Memory → Type 0
  Survives key cached after =
      (get key after ≡ some cached)
      ⊎ ((contains key dirty ≡ false) × All (Newer cached.last_seq) after)

  evict_loop-Survives :
      (w : World) (generation count weight : ℕ) (es : List Candidate) (c : ImportCache) (k : String)
      (v : CachedImport)
      → get k c.memory ≡ some v
      → All (Present c.memory) es
      → OtherKeys es
      → Ascending es
      → All (NotDirty dirty) es
      → All (Covered dirty es) c.memory
      → Survives k v (evict_loop w generation count weight es c).memory
  unfolding evict_loop
  evict_loop-Survives w generation count weight [] c k v h p o a n u = inl h
  evict_loop-Survives w generation count weight ((seq, key, entry_weight) ∷ es) c k v h p o a n u =
      if_cases (λ (r : ImportCache). Survives k v r.memory) (within_batch count weight) c _
        (λ _. inl h)
        (λ _. elim (text_dec key k) [
          | yes same ↦ inr (
            subst (λ t. contains t dirty ≡ false) same n.0,
            evict_loop-All (Newer v.last_seq) w generation (count - 1) (weight - entry_weight) es _
                (All-mono (Covered dirty es) (Newer v.last_seq)
                  (Covered-Newer v.last_seq es
                    (subst (λ s. All (NotOlder s) es) (used same p.0) a.0))
                  (remove key c.memory) (Covered-remove key seq entry_weight es c.memory u)),
          )
          | no other ↦
              evict_loop-Survives w generation (count - 1) (weight - entry_weight) es _ k v
                (kept other) (Present-remove_all key c.memory es o.0 p.1) o.1 a.1 n.1
                (Covered-remove key seq entry_weight es c.memory u)
        ])
    where
      kept : ¬ (key ≡ k) → get k (remove key c.memory) ≡ some v
      kept other = ground (arith, get-remove key k c.memory, h)

      used : key ≡ k → Present c.memory (seq, key, entry_weight) → seq ≡ v.last_seq
      used same (cached, e, s, q) = sym s ∙ some_last (sym e ∙ ap (λ t. get t c.memory) same ∙ h)
        where
          some_last : some cached ≡ some v → cached.last_seq ≡ v.last_seq
          some_last q =
              ap (λ (o : Option CachedImport). elim o [ none ↦ 0 | some x ↦ x.last_seq ]) q

module _ (w : World) (c : ImportCache) where
  -- In a memory with one entry for each key, whose weights add up to at most `u64::MAX`: afterwards the
  -- memory is within both caps, or holds nothing but dirty entries.
  pub enforce_memory_cap-WithinCaps :
      DistinctKeys c.memory
      → total_of memory_weight c.memory ≤ u64_max
      → WithinCaps (enforce_memory_cap w c).memory
        ⊎ All (IsDirty c.dirty) (enforce_memory_cap w c).memory
  unfolding enforce_memory_cap
  enforce_memory_cap-WithinCaps d h =
      if_cases (λ (r : ImportCache). WithinCaps r.memory ⊎ All (IsDirty c.dirty) r.memory)
        (leb (length c.memory) max_memory_entries
          && leb (weight_of c.memory) max_memory_weight_bytes)
        c _ (λ e. inl (small e))
        (λ _. widen _ (
          evict_loop-Trimmed c.dirty w c.disk.clear_generation (length c.memory)
            (weight_of c.memory) (candidates c.dirty c.memory) c d refl (weight_of-total c.memory h)
            (candidates-Present c.dirty c.memory d) (candidates-OtherKeys c.dirty c.memory d)
            (candidates-Covered c.dirty c.memory)))
    where
      small :
          (leb (length c.memory) max_memory_entries
              && leb (weight_of c.memory) max_memory_weight_bytes)
            ≡ true
          → WithinCaps c.memory
      small e = (
        ground arith,
        subst (λ n. n ≤ max_memory_weight_bytes) (weight_of-total c.memory h) (ground arith),
      )

      widen : (m : Memory) → Trimmed c.dirty m → WithinCaps m ⊎ All (IsDirty c.dirty) m
      widen m (inl (a, b)) = inl (omega (arith, a), omega (arith, b))
      widen m (inr all) = inr all

  -- In a memory with one entry for each key, an entry stays as it is, or it is not dirty and every entry
  -- that stays is dirty or was used no earlier than it.
  pub enforce_memory_cap-Survives :
      (key : String) (cached : CachedImport)
      → DistinctKeys c.memory
      → get key c.memory ≡ some cached
      → Survives c.dirty key cached (enforce_memory_cap w c).memory
  unfolding enforce_memory_cap
  enforce_memory_cap-Survives key cached d h =
      if_cases (λ (r : ImportCache). Survives c.dirty key cached r.memory)
        (leb (length c.memory) max_memory_entries
          && leb (weight_of c.memory) max_memory_weight_bytes)
        c _ (λ _. inl h)
        (λ _.
          evict_loop-Survives c.dirty w c.disk.clear_generation (length c.memory)
            (weight_of c.memory) (candidates c.dirty c.memory) c key cached h
            (candidates-Present c.dirty c.memory d) (candidates-OtherKeys c.dirty c.memory d)
            (candidates-Ascending c.dirty c.memory) (candidates-NotDirty c.dirty c.memory)
            (candidates-Covered c.dirty c.memory))
