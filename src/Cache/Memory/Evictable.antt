-- ===== src/Cache/Memory/Evictable.antt =====
-- The keys that daemon/src/cache/memory.rs offers to the evictor.
use import_lens.Prelude.{
  ℕ, zero, suc, ◌+◌, ◌≤◌, ◌<◌, ◌≡◌, refl, ap, sym, subst, ◌∙◌, String, Bool, true, false, ◌||◌,
  List, [], ◌∷◌, ◌++◌, ltb, leb, ◌==◌, if◌then◌else◌, length, length-append, get, take,
  append_assoc, append_nil, arith, Bool-cases, inl, inr, ◌⊎◌, if_cases, ==_iff, ltb→lt,
}
use import_lens.Cache.Memory.{
  is_hot, filter_loop, filter_evictable, lowest_seq_disk_keys, max_eviction_scan,
}

module _ (memory : List (String × ℕ)) where
  -- The keys that were not used since they were persisted.
  pub cold : List (String × ℕ) → List String
  cold [] = []
  cold ((key, seq) ∷ cs) =
      let rest = cold cs in if is_hot (get key memory) seq then rest else key ∷ rest

  filter_loop-take :
      (n m : ℕ) (acc : List String) (cs : List (String × ℕ))
      → n ≡ length acc + suc m
      → filter_loop memory n acc cs ≡ acc ++ take (suc m) (cold cs)
  unfolding filter_loop cold
  filter_loop-take n m acc [] e = sym (append_nil acc)
  filter_loop-take n m acc ((key, seq) ∷ cs) e = elim (Bool-cases (is_hot (get key memory) seq)) [
    | inl hot ↦ rw (hot, filter_loop) (filter_loop-take n m acc cs e)
    | inr used ↦ elim (Bool-cases (leb n (length (acc ++ key ∷ [])))) [
      | inl full ↦
          rw (used, filter_loop)
            (rw (full, filter_loop) (last_one m (ground (arith, length-append acc (key ∷ []), e))))
      | inr more ↦
          rw (used, filter_loop)
            (rw (more, filter_loop)
              (one_more n m acc key cs e more
                (λ k eq. filter_loop-take n k (acc ++ key ∷ []) cs eq)))
    ]
  ]
    where
      last_one : (m : ℕ) → m ≡ 0 → acc ++ key ∷ [] ≡ acc ++ take (suc m) (key ∷ cold cs)
      last_one zero h = refl
      last_one (suc m) h = absurd (omega arith)

      one_more :
          (n m : ℕ) (acc : List String) (key : String) (cs : List (String × ℕ))
          → n ≡ length acc + suc m
          → leb n (length (acc ++ key ∷ [])) ≡ false
          → ((k : ℕ)
              → n ≡ length (acc ++ key ∷ []) + suc k
              → filter_loop memory n (acc ++ key ∷ []) cs
                ≡ (acc ++ key ∷ []) ++ take (suc k) (cold cs))
          → filter_loop memory n (acc ++ key ∷ []) cs ≡ acc ++ take (suc m) (key ∷ cold cs)
      one_more n zero acc key cs e more ih = absurd (ground (arith, length-append acc (key ∷ [])))
      one_more n (suc m) acc key cs e more ih =
          ih m (omega (arith, e, length-append acc (key ∷ [])))
          ∙ append_assoc acc (key ∷ []) (take (suc m) (cold cs))

  filter_evictable-take :
      (cs : List (String × ℕ)) (n : ℕ) → 0 < n → filter_evictable memory cs n ≡ take n (cold cs)
  unfolding filter_evictable
  filter_evictable-take cs zero pos = absurd (omega arith)
  filter_evictable-take cs (suc m) pos = filter_loop-take (suc m) m [] cs (omega arith)

  -- The first cold keys of a prefix, if it has enough of them, are those of the whole list.
  enough_cold :
      (k m n : ℕ) (cs : List (String × ℕ))
      → k ≤ m
      → length (take n (cold (take k cs))) ≡ n
      → take n (cold (take k cs)) ≡ take n (cold (take m cs))
  unfolding cold
  enough_cold k m zero cs le h = refl
  enough_cold zero m (suc n) cs le h = absurd (omega (arith, h))
  enough_cold (suc k) zero (suc n) cs le h = absurd (omega arith)
  enough_cold (suc k) (suc m) (suc n) [] le h = refl
  enough_cold (suc k) (suc m) (suc n) ((key, seq) ∷ cs) le h =
      elim (Bool-cases (is_hot (get key memory) seq)) [
        | inl hot ↦ rw hot (
            enough_cold k m (suc n) cs (omega arith) (
              subst
                (λ b.
                  length (take (suc n) (if b then cold (take k cs) else key ∷ cold (take k cs)))
                  ≡ suc n)
                hot h))
        | inr used ↦ rw used (
            ap (λ rest. key ∷ rest)
              (enough_cold k m n cs (omega arith) (
                omega (
                  arith,
                  subst
                      (λ b.
                        length
                          (take (suc n) (if b then cold (take k cs) else key ∷ cold (take k cs)))
                        ≡ suc n)
                      used h,
                ))))
      ]

  short_region :
      (k m : ℕ) (cs : List (String × ℕ)) → k ≤ m → length (take k cs) < k → take k cs ≡ take m cs
  short_region zero m cs le lt = absurd (omega arith)
  short_region (suc k) zero cs le lt = absurd (omega arith)
  short_region (suc k) (suc m) [] le lt = refl
  short_region (suc k) (suc m) (c ∷ cs) le lt =
      ap (λ rest. c ∷ rest) (short_region k m cs (omega arith) (omega (arith, lt)))

  -- For a disk that lists, from the lowest seq on, the keys that stand below the `floor` newest ones: the
  -- keys offered to the evictor are the first `n` of the scanned window that were not used since they
  -- were persisted. So no key in use is offered, nor one of the newest, as long as a batch is at most
  -- the window.
  pub lowest_seq_disk_keys-cold :
      (region : ℕ → List (String × ℕ)) (n floor : ℕ)
      → 0 < n
      → n ≤ max_eviction_scan
      → lowest_seq_disk_keys memory (λ n floor. take n (region floor)) n floor
        ≡ take n (cold (take max_eviction_scan (region floor)))
  unfolding lowest_seq_disk_keys
  lowest_seq_disk_keys-cold region n floor pos le =
      if_cases (λ ks. ks ≡ wide) (n == 0) _ _ (λ z. absurd (ground arith))
        (λ _.
          if_cases (λ ks. ks ≡ wide) _ _ _
            (λ t. filter_evictable-take first n pos ∙ fast (or_cases _ _ t))
            (λ _. filter_evictable-take (take max_eviction_scan (region floor)) n pos))
    where
      wide : List String
      wide = take n (cold (take max_eviction_scan (region floor)))

      first : List (String × ℕ)
      first = take n (region floor)

      or_cases : (a b : Bool) → (a || b) ≡ true → (a ≡ true) ⊎ (b ≡ true)
      or_cases true b h = inl refl
      or_cases false b h = inr h

      fast :
          ((length (filter_evictable memory first n) == n) ≡ true) ⊎ (ltb (length first) n ≡ true)
          → take n (cold first) ≡ wide
      fast (inl t) =
          enough_cold n max_eviction_scan n (region floor) le
            (ap length (sym (filter_evictable-take first n pos)) ∙ (==_iff _ n).0 t)
      fast (inr t) =
          ap (λ r. take n (cold r))
            (short_region n max_eviction_scan (region floor) le (ltb→lt _ n t))
