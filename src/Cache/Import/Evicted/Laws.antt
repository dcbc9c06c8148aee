-- ===== src/Cache/Import/Evicted/Laws.antt =====
-- The `ShardTarget` of daemon/src/cache/project.rs keeps the laws that the evictor of
-- daemon/src/cache/budget.rs relies on, so what holds of its passes holds over caches.
use import_lens.Prelude.{
  ℕ, suc, ◌+◌, ◌-◌, ◌≤◌, ◌≡◌, refl, sym, ap, subst, ◌∙◌, String, Bool, true, false, ◌||◌, List, [],
  ◌∷◌, ◌++◌, Option, none, some, ltb, leb, ◌==◌, if_cases, length, length-append, remove, get,
  arith, DistinctKeys, total_of-remove, length-total_of, weight_or_zero, remove-DistinctKeys,
}
use import_lens.Cache.Budget.Shard.{EvictableShard}
use import_lens.Cache.Budget.{EvictionOutcome, evict, first_of_each}
use import_lens.Cache.Budget.Floor.{count, KeepsFloor, KeptAbove, evict-KeptAbove}
use import_lens.Cache.Memory.{filter_loop, filter_evictable, is_hot, max_eviction_scan}
use import_lens.Cache.Disk.{Rows, SeqIndex, Tables, maintain_removals, begin_writing, remove_rows}
use import_lens.Cache.Disk.Recount.{byte_total}
use import_lens.Cache.Disk.Meaning.{
  remove_all, remove_all-sizes, end_writing-cache, remove_rows-cache,
}
use import_lens.Cache.Disk.Refines.{removals-IsAccurate}
use import_lens.Cache.Disk.Lowest.{ListsInOrder, lowest_seq_keys-oldest, shard_rollup-recount}
use import_lens.Cache.Disk.Queue.{
  DiskCache, flush_pending_inserts, flush_open, kept_of, write_kept, remove_pending, remove_keys,
  remove_open,
}
use import_lens.Cache.Import.{ImportCache, World}
use import_lens.Cache.Import.Writes.{evict_keys}
use import_lens.Cache.Import.Evicted.{
  last_seqs, flushed, rollup_of, shard_rollup, lowest_of, lowest_seq_disk_keys, SoundTables,
  ShardTarget,
}

filter_loop-length :
    (memory : List (String × ℕ)) (n : ℕ) (cold : List String) (cs : List (String × ℕ))
    → length (filter_loop memory n cold cs) ≤ length cold + length cs
unfolding filter_loop
filter_loop-length memory n cold [] = omega arith
filter_loop-length memory n cold ((key, seq) ∷ cs) =
    elim (is_hot (get key memory) seq)
      as (λ b.
        length (elim b [
          | true ↦ filter_loop memory n cold cs
          | false ↦ elim (leb n (length (cold ++ key ∷ []))) [
            | true ↦ cold ++ key ∷ []
            | false ↦ filter_loop memory n (cold ++ key ∷ []) cs
          ]
        ])
        ≤ length cold + suc (length cs)) [
          | true ↦ omega (arith, filter_loop-length memory n cold cs)
          | false ↦
              elim (leb n (length (cold ++ key ∷ [])))
                as (λ b.
                  length (elim b [
                    | true ↦ cold ++ key ∷ []
                    | false ↦ filter_loop memory n (cold ++ key ∷ []) cs
                  ])
                  ≤ length cold + suc (length cs)) [
                    | true ↦ omega (arith, length-append cold (key ∷ []))
                    | false ↦ omega (
                      arith,
                      filter_loop-length memory n (cold ++ key ∷ []) cs,
                      length-append cold (key ∷ []),
                    )
                  ]
        ]

-- The flush of an empty queue changes nothing.
flush-quiet :
    (committed : Bool) (now : ℕ) (d : DiskCache)
    → d.pending_inserts ≡ []
    → flush_pending_inserts committed now d ≡ d
unfolding flush_pending_inserts flush_open kept_of write_kept
flush-quiet committed now d q =
    subst (λ (e : DiskCache). flush_open committed now e.db e ≡ e)
      (ap (λ p. record d { pending_inserts = p }) (sym q)) (go d.db)
  where
    go :
        (o : Option Tables)
        → flush_open committed now o (record d { pending_inserts = [] })
          ≡ record d { pending_inserts = [] }
    go none = refl
    go (some t) = refl

remove_pending-nil : (keys : List String) → remove_pending keys [] ≡ []
unfolding remove_pending remove
remove_pending-nil [] = refl
remove_pending-nil (key ∷ keys) = remove_pending-nil keys

remove_open-quiet :
    (committed : Bool) (keys : List String) (o : Option Tables) (d : DiskCache)
    → (remove_open committed keys o d).1.pending_inserts ≡ d.pending_inserts
unfolding remove_open
remove_open-quiet committed keys none d = refl
remove_open-quiet false keys (some t) d = refl
remove_open-quiet true keys (some t) d = refl

remove_keys-quiet :
    (committed : Bool) (keys : List String) (d : DiskCache)
    → d.pending_inserts ≡ []
    → (remove_keys committed keys d).1.pending_inserts ≡ []
unfolding remove_keys
remove_keys-quiet committed keys d q =
    remove_open-quiet committed keys d.db _ ∙ ap (remove_pending keys) q ∙ remove_pending-nil keys

abbrev rows : Option Tables → ℕ
rows none = 0
rows (some t) = length t.cache

one_at_most : (o : Option (List ℕ)) → weight_or_zero (λ _. 1) o ≤ 1
one_at_most none = omega arith
one_at_most (some bytes) = omega arith

length-remove-one :
    (key : String) (m : Rows) → DistinctKeys m → length m ≤ length (remove key m) + 1
length-remove-one key m d = omega (
  arith,
  length-total_of m,
  length-total_of (remove key m),
  total_of-remove (λ _. 1) key m d,
  one_at_most (get key m),
)

remove_all-length :
    (keys : List String) (m : Rows)
    → DistinctKeys m
    → length m ≤ length (remove_all keys m) + length keys
unfolding remove_all
remove_all-length [] m d = omega arith
remove_all-length (key ∷ keys) m d = omega (
  arith,
  remove_all-length keys (remove key m) (remove-DistinctKeys key m d),
  length-remove-one key m d,
)

removals-cache :
    (keys : List String) (t : Tables) → (maintain_removals keys t).1.cache ≡ remove_all keys t.cache
unfolding maintain_removals begin_writing
removals-cache keys t =
    end_writing-cache t (remove_rows keys (begin_writing t))
    ∙ remove_rows-cache keys (begin_writing t)

remove_open-SoundTables :
    (committed : Bool) (keys : List String) (o : Option Tables) (d : DiskCache)
    → d.db ≡ o
    → SoundTables o
    → SoundTables (remove_open committed keys o d).1.db
      × (rows o ≤ rows (remove_open committed keys o d).1.db + length keys)
unfolding remove_open
remove_open-SoundTables committed keys none d e h = (subst SoundTables (sym e) tt, omega arith)
remove_open-SoundTables false keys (some t) d e h =
    (subst SoundTables (sym e) h, omega (arith, ap rows e))
remove_open-SoundTables true keys (some t) d e h =
    let same = removals-cache keys t in
    let sizes = remove_all-sizes keys t.cache h.0.distinct in
    (
      (
        removals-IsAccurate keys t h.0 h.1 h.2,
        omega (arith, sizes.0, ap byte_total same, h.1),
        omega (arith, sizes.1, ap (length {A = String × List ℕ}) same, h.2),
      ),
      omega (
        arith,
        remove_all-length keys t.cache h.0.distinct,
        ap (length {A = String × List ℕ}) same,
      ),
    )

remove_keys-SoundTables :
    (committed : Bool) (keys : List String) (d : DiskCache)
    → SoundTables d.db
    → SoundTables (remove_keys committed keys d).1.db
      × (rows d.db ≤ rows (remove_keys committed keys d).1.db + length keys)
unfolding remove_keys
remove_keys-SoundTables committed keys d h = remove_open-SoundTables committed keys d.db _ refl h

module _ (w : World) (iterate : SeqIndex → SeqIndex) (order : ListsInOrder iterate) where
  rollup_of-rows :
      (o : Option Tables) → SoundTables o → (rollup_of w iterate o).entry_count ≡ rows o
  rollup_of-rows none h = refl
  rollup_of-rows (some t) h = (shard_rollup-recount iterate order t h.0).1

  lowest_of-length :
      (o : Option Tables) (n floor : ℕ)
      → SoundTables o
      → length (lowest_of w iterate o n floor) ≤ rows o - floor
  lowest_of-length none n floor h = omega arith
  lowest_of-length (some t) n floor h =
      omega (arith, (lowest_seq_keys-oldest iterate order t n floor h.0).0)

  filtered-length :
      (memory : List (String × ℕ)) (o : Option Tables) (m n floor : ℕ)
      → SoundTables o
      → length (filter_evictable memory (lowest_of w iterate o m floor) n) ≤ rows o - floor
  unfolding filter_evictable
  filtered-length memory o m n floor h = omega (
    arith,
    filter_loop-length memory n [] (lowest_of w iterate o m floor),
    lowest_of-length o m floor h,
  )

  flushed-quiet : (c : ImportCache) → c.disk.pending_inserts ≡ [] → flushed w iterate c ≡ c
  unfolding flushed
  flushed-quiet c q = ap (λ d. record c { disk = d }) (flush-quiet w.committed w.now c.disk q)

  lowest-length :
      (n floor : ℕ) (c : ImportCache)
      → c.disk.pending_inserts ≡ []
      → SoundTables c.disk.db
      → length (lowest_seq_disk_keys w iterate n floor c).0 ≤ rows c.disk.db - floor
  unfolding lowest_seq_disk_keys
  lowest-length n floor c q h =
      if_cases Short (n == 0) _ _ (λ _. omega arith)
        (λ _.
          if_cases Short
            (length (
                  filter_evictable (last_seqs (flushed w iterate c).memory)
                    (lowest_of w iterate (flushed w iterate c).disk.db n floor) n)
                == n
              || ltb (length (lowest_of w iterate (flushed w iterate c).disk.db n floor)) n)
            _ _
            (λ _.
              subst (λ c'. Few n c') (sym once)
                (filtered-length (last_seqs c.memory) c.disk.db n n floor h))
            (λ _.
              subst (λ c'. Few max_eviction_scan c') (sym (ap (flushed w iterate) once ∙ once))
                (filtered-length (last_seqs c.memory) c.disk.db max_eviction_scan n floor h)))
    where
      Short : List String × ImportCache → Type 0
      Short r = length r.0 ≤ rows c.disk.db - floor

      Few : ℕ → ImportCache → Type 0
      Few m c' =
          length (filter_evictable (last_seqs c'.memory) (lowest_of w iterate c'.disk.db m floor) n)
          ≤ rows c.disk.db - floor

      once : flushed w iterate c ≡ c
      once = flushed-quiet c q

  pub evict_target : ShardTarget → List String → ℕ × ShardTarget
  unfolding evict_keys
  evict_target s keys = (
    (evict_keys w keys s.cache).0,
    record {
      shard_id = s.shard_id;
      cache = (evict_keys w keys s.cache).1;
      quiet = remove_keys-quiet w.committed keys s.cache.disk s.quiet;
      sound = (remove_keys-SoundTables w.committed keys s.cache.disk s.sound).0;
    },
  )

  pub evict_target-shard_id :
      (s : ShardTarget) (keys : List String) → (evict_target s keys).1.shard_id ≡ s.shard_id
  unfolding evict_target
  evict_target-shard_id s keys = refl

  abbrev pub cache_shard : EvictableShard ShardTarget
  cache_shard = record {
    shard_id = λ s. s.shard_id;
    rollup = λ s. (shard_rollup w iterate s.cache).0;
    lowest_seq_keys = λ s n floor. (lowest_seq_disk_keys w iterate n floor s.cache).0;
    evict_keys = evict_target;
    shard_id_fixed = evict_target-shard_id;
  }

  count-rows : (s : ShardTarget) → count cache_shard s ≡ rows s.cache.disk.db
  unfolding shard_rollup
  count-rows s =
      ap (λ (c : ImportCache). (rollup_of w iterate c.disk.db).entry_count)
        (flushed-quiet s.cache s.quiet)
      ∙ rollup_of-rows s.cache.disk.db s.sound

  cache_shard-KeepsFloor : KeepsFloor cache_shard
  unfolding evict_target evict_keys
  cache_shard-KeepsFloor = record {
    excludes_newest = λ s n floor key keys e. omega (
      arith,
      count-rows s,
      ap (length {A = String}) e,
      lowest-length n floor s.cache s.quiet s.sound,
    );
    removes_at_most = λ s keys. omega (
      arith,
      count-rows s,
      count-rows (evict_target s keys).1,
      (remove_keys-SoundTables w.committed keys s.cache.disk s.sound).1,
    );
  }

  -- Over caches whose tables are accurate and fit 64 bits, and whose queues are empty: a pass of the
  -- evictor returns, and leaves every cache of a distinct id with as many committed rows as it had, or
  -- with no fewer than the floor, whatever the budget, the target and what is in memory.
  pub evict_caches-KeptAbove :
      (low_water_of : ℕ → ℕ) (budget : ℕ) (target : Option ℕ) (shards : List ShardTarget)
      → (outcome : EvictionOutcome) × (left : List ShardTarget) × (evict cache_shard low_water_of
            budget target shards
          ≡ some (outcome, left))
        × KeptAbove cache_shard (first_of_each cache_shard [] shards) left
  evict_caches-KeptAbove = evict-KeptAbove cache_shard cache_shard-KeepsFloor
