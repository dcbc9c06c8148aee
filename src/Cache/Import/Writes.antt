-- ===== src/Cache/Import/Writes.antt =====
-- daemon/src/cache/memory.rs: the operations of the `ImportCache` that write: the guarded insert, the cap of
-- the memory, the invalidations, `clear` and `flush_to_disk`.
use Prim.Native.String.{compare as compare_text}
use Prim.Native.Nat.{lt, eq, gt}
use import_lens.Prelude.{
  ℕ, suc, ◌-◌, ◌*◌, ◌/◌, String, Bool, true, false, not, ◌&&◌, ◌||◌, List, [], ◌∷◌, Option, none,
  some, ltb, leb, ◌==◌, if◌then◌else◌, length, get, insert, remove, contains, saturating_add,
  remove_many,
}
use import_lens.Cache.Fingerprint.{FileFingerprint, fingerprints_are_reusable}
use import_lens.Cache.Recency.{next_seq}
use import_lens.Cache.Memory.{stamp}
use import_lens.Cache.Disk.Queue as Queue
use import_lens.Cache.Disk.Queue.{
  DiskCache, Pending, insert_at_generation, remove_keys, flush_pending_inserts,
}
use import_lens.Cache.Import.{
  max_memory_entries, max_memory_weight_bytes, ImportResult, CachedImport, ImportCache, World,
  memory_weight, forget_unknown, remove_from_memory_if_current, key_is_first_party,
}

abbrev pub Memory : Type 0
Memory = List (String × CachedImport)

unfoldable pub weight_of : Memory → ℕ
unfolding memory_weight
weight_of [] = 0
weight_of ((key, cached) ∷ memory) = saturating_add (memory_weight cached) (weight_of memory)

-- A candidate: `(last_seq, key, weight)`.
abbrev pub Candidate : Type 0
Candidate = ℕ × String × ℕ

unfoldable pub before : Candidate → Candidate → Bool
before (seq, key, weight) (seq', key', weight') =
    ltb seq seq'
    || (seq == seq'
        && (elim (compare_text key key') [ lt ↦ true | eq ↦ leb weight weight' | gt ↦ false ]))

unfoldable pub insert_candidate : Candidate → List Candidate → List Candidate
unfolding before
insert_candidate e [] = e ∷ []
insert_candidate e (f ∷ rest) =
    let after = insert_candidate e rest in if before e f then e ∷ f ∷ rest else f ∷ after

unfoldable pub candidates : List String → Memory → List Candidate
unfolding insert_candidate memory_weight
candidates dirty [] = []
candidates dirty ((key, cached) ∷ memory) =
    let rest = candidates dirty memory in
    if contains key dirty
    then rest
    else insert_candidate (cached.last_seq, key, memory_weight cached) rest

abbrev pub within_batch : ℕ → ℕ → Bool
within_batch count weight =
    leb count (max_memory_entries * 9 / 10) && leb weight (max_memory_weight_bytes * 9 / 10)

-- The gate of `insert_at_generation`.
abbrev pub is_persistable : CachedImport → Bool
is_persistable cached =
    cached.result.is_durable && fingerprints_are_reusable cached.dependency_fingerprints

module _ (w : World) where
  abbrev pub insert_on_disk : String → CachedImport → ℕ → DiskCache → Bool × DiskCache
  insert_on_disk key cached generation d =
      insert_at_generation w.committed w.now (is_persistable cached) key (w.encode cached)
        generation d

  -- What an evicted entry's unflushed promotion leaves in the queue of the disk.
  unfoldable pub persist_promotion : ℕ → String → Option CachedImport → DiskCache → DiskCache
  unfolding insert_at_generation
  persist_promotion generation key none d = d
  persist_promotion generation key (some cached) d =
      if ltb cached.persisted_seq cached.last_seq
      then (insert_on_disk key cached generation d).1
      else d

  unfoldable pub evict_loop : ℕ → ℕ → ℕ → List Candidate → ImportCache → ImportCache
  unfolding persist_promotion
  evict_loop generation count weight [] c = c
  evict_loop generation count weight ((seq, key, entry_weight) ∷ rest) c =
      let evicted = evict_loop generation (count - 1) (weight - entry_weight) rest (record c {
        disk = persist_promotion generation key (get key c.memory) c.disk;
        memory = remove key c.memory;
      }) in
      if within_batch count weight then c else evicted

  unfoldable pub enforce_memory_cap : ImportCache → ImportCache
  unfolding weight_of candidates evict_loop
  enforce_memory_cap c =
      if leb (length c.memory) max_memory_entries
        && leb (weight_of c.memory) max_memory_weight_bytes
      then c
      else evict_loop c.disk.clear_generation (length c.memory) (weight_of c.memory)
          (candidates c.dirty c.memory) c

  unfoldable pub insert_into_memory_guarded : String → CachedImport → ℕ → ImportCache → ImportCache
  unfolding remove_from_memory_if_current
  insert_into_memory_guarded key cached generation c =
      if not (c.disk.clear_generation == generation)
      then c
      else let c' : ImportCache = record c { memory = insert key cached c.memory } in
        if not (c'.disk.clear_generation == generation)
        then (remove_from_memory_if_current w key cached.identity c').1
        else c'

  abbrev pub mark_dirty : Bool → String → ImportCache → ImportCache
  mark_dirty true key c = c
  mark_dirty false key c = record c {
    dirty = if contains key c.dirty then c.dirty else key ∷ c.dirty;
  }

  abbrev pub born : String → ImportResult → List FileFingerprint → ℕ → ImportCache → CachedImport
  born key result fingerprints generation c = record {
    result = result;
    dependency_fingerprints = fingerprints;
    verification = stamp w.since_epoch generation;
    last_seq = (next_seq c.clock).0;
    persisted_seq = (next_seq c.clock).0;
    first_party = key_is_first_party w key;
    identity = c.next_identity;
  }

  -- The call of `disk.insert_at_generation`, a failure of which marks the key dirty.
  unfoldable pub enqueue : String → CachedImport → ℕ → ImportCache → ImportCache
  unfolding insert_at_generation
  enqueue key cached generation c =
      let (ok, d) = insert_on_disk key cached generation c.disk in
      mark_dirty ok key (record c { disk = d })

  unfoldable pub insert_with_fingerprints_at_generation :
      String → ImportResult → List FileFingerprint → ℕ → ImportCache → ImportCache
  unfolding forget_unknown next_seq enqueue insert_into_memory_guarded enforce_memory_cap
  insert_with_fingerprints_at_generation key result fingerprints verified_generation c =
      if not result.is_durable || not (fingerprints_are_reusable fingerprints)
      then c
      else let c' = forget_unknown key c in
        let cached = born key result fingerprints verified_generation c' in
        let generation = c'.disk.clear_generation in
        let c'' : ImportCache = record c' {
          clock = (next_seq c'.clock).1;
          next_identity = suc c'.next_identity;
        } in
        enforce_memory_cap
          (insert_into_memory_guarded key cached generation (enqueue key cached generation c''))

  unfoldable pub evict_keys : List String → ImportCache → ℕ × ImportCache
  unfolding remove_keys remove_many
  evict_keys keys c =
      let (freed, d) = remove_keys w.committed keys c.disk in
      (freed, record c { disk = d; memory = remove_many keys c.memory })

  unfoldable pub clear : ImportCache → ImportCache
  unfolding Queue.clear
  clear c = record c {
    disk = Queue.clear w.committed c.disk;
    memory = [];
    dirty = [];
    unknown_retry = [];
  }
