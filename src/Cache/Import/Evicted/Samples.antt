-- ===== src/Cache/Import/Evicted/Samples.antt =====
-- A pass of the evictor of daemon/src/cache/budget.rs over caches.
use import_lens.Prelude.{
  ◌*◌, ◌/◌, ◌≤◌, ◌≡◌, refl, sym, subst, String, true, List, [], ◌∷◌, none, some, length, arith,
  u64_max, insert, remove, text_dec,
}
use import_lens.Cache.Fingerprint.{err, not_found, ok}
use import_lens.Cache.Disk.{Tables, empty_tables}
use import_lens.Cache.Disk.Recount.{byte_total}
use import_lens.Cache.Disk.Meaning.{Transaction, write, transact_all, meaning_all, insert_all}
use import_lens.Cache.Disk.Refines.{shard-refines}
use import_lens.Cache.Disk.Samples.{by_seq, by_seq-ListsInOrder}
use import_lens.Cache.Budget.{EvictionOutcome, evict, first_of_each}
use import_lens.Cache.Budget.Floor.{KeptAbove}
use import_lens.Cache.Import.{World}
use import_lens.Cache.Import.Evicted.{SoundTables, ShardTarget}
use import_lens.Cache.Import.Evicted.Laws.{cache_shard, evict_caches-KeptAbove}

abbrev world : World
world = record {
  generation = 1;
  since_epoch = 0;
  now = 0;
  committed = true;
  metadata = λ _. err not_found;
  read_file = λ _. err not_found;
  hash = λ _. 0;
  analyzer_version = "1";
  decode = λ _. none;
  encode = λ _. none;
  to_vec = λ _. [];
  from_slice = λ _. none;
  symlink_metadata = λ _. ok tt;
}

abbrev two_rows : List Transaction
two_rows =
    write true (
      ("a", 1 ∷ 0 ∷ 0 ∷ 0 ∷ 0 ∷ 0 ∷ 0 ∷ 0 ∷ 9 ∷ [])
      ∷ ("b", 2 ∷ 0 ∷ 0 ∷ 0 ∷ 0 ∷ 0 ∷ 0 ∷ 0 ∷ [])
      ∷ [])
    ∷ []

abbrev tables : Tables
tables = transact_all two_rows empty_tables

tables-Sound : SoundTables (some tables)
unfolding meaning_all insert_all insert remove text_dec
tables-Sound =
    let r = shard-refines two_rows (omega arith) (omega arith) in
    (
      r.1,
      subst (λ rows. byte_total rows ≤ u64_max) (sym r.0) (omega arith),
      subst (λ rows. length rows ≤ u64_max) (sym r.0) (omega arith),
    )

abbrev target : String → ShardTarget
target id = record {
  shard_id = id;
  cache = record {
    memory = [];
    disk = record {
      db = some tables;
      pending_inserts = [];
      clear_generation = 0;
      flush_retry_after = 0;
    };
    dirty = [];
    unknown_retry = [];
    clock = 3;
    next_identity = 0;
  };
  quiet = refl;
  sound = tables-Sound;
}

evict_caches-KeptAbove_example :
    (outcome : EvictionOutcome) × (left : List ShardTarget) × (evict
        (cache_shard world by_seq by_seq-ListsInOrder)
        (λ b. b * 9 / 10)
        1
        none
        (target "p" ∷ target "q" ∷ [])
      ≡ some (outcome, left))
    × KeptAbove
        (cache_shard world by_seq by_seq-ListsInOrder)
        (first_of_each
          (cache_shard world by_seq by_seq-ListsInOrder)
          []
          (target "p" ∷ target "q" ∷ []))
        left
evict_caches-KeptAbove_example =
    evict_caches-KeptAbove world by_seq by_seq-ListsInOrder (λ b. b * 9 / 10) 1 none
      (target "p" ∷ target "q" ∷ [])
