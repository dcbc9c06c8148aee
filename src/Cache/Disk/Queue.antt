-- ===== src/Cache/Disk/Queue.antt =====
-- daemon/src/cache/disk.rs: the `DiskCache`, whose inserts wait in a queue with the clear generation that
-- their writer captured. `committed` says of a transaction whether the database commits it; the encoder's
-- bytes and the durability of a result come with the call. The locks make each operation one step.
pub mod Cleared
pub mod Drained
use Prim.Native.String.{compare as compare_text}
use Prim.Native.Nat.{lt, eq, gt}
use import_lens.Prelude.{
  ℕ, suc, ◌+◌, ◌-◌, ◌*◌, String, Bool, true, false, not, ◌&&◌, ◌||◌, List, [], ◌∷◌, map, Option,
  none, some, ltb, leb, ◌==◌, if◌then◌else◌, length, take, get, insert, remove, contains_key,
  retain, saturating_add,
}
use import_lens.Cache.Disk.{
  Rows, Tables, decode_last_seq, write_pending_inserts, maintain_removals, clear_tables,
}

abbrev pub insert_flush_batch : ℕ
insert_flush_batch = 64

abbrev pub max_pending_inserts : ℕ
max_pending_inserts = 16 * insert_flush_batch

abbrev pub flush_retry_backoff_ms : ℕ
flush_retry_backoff_ms = 30000

-- Each key's generation and bytes.
abbrev pub Pending : Type 0
Pending = List (String × (ℕ × List ℕ))

-- `db` is absent while the disk cache is disabled or its database is not open.
pub record DiskCache : Type 0 where
  pub db : Option Tables
  pub pending_inserts : Pending
  pub clear_generation : ℕ
  pub flush_retry_after : ℕ

-- The order of `(last_seq, key)`.
unfoldable pub before : ℕ × String → ℕ × String → Bool
before (seq, key) (seq', key') =
    ltb seq seq'
    || (seq == seq' && (elim (compare_text key key') [ lt ↦ true | eq ↦ true | gt ↦ false ]))

unfoldable pub insert_by_recency : ℕ × String → List (ℕ × String) → List (ℕ × String)
unfolding before
insert_by_recency e [] = e ∷ []
insert_by_recency e (f ∷ rest) =
    let after = insert_by_recency e rest in if before e f then e ∷ f ∷ rest else f ∷ after

unfoldable pub by_recency : Pending → List (ℕ × String)
unfolding insert_by_recency
by_recency [] = []
by_recency ((key, (generation, bytes)) ∷ pending) =
    insert_by_recency (decode_last_seq bytes, key) (by_recency pending)

unfoldable pub remove_each : List (ℕ × String) → Pending → Pending
remove_each [] pending = pending
remove_each ((seq, key) ∷ rest) pending = remove_each rest (remove key pending)

unfoldable pub shed_oldest_pending_inserts : Pending → Pending
unfolding by_recency remove_each
shed_oldest_pending_inserts pending =
    if leb (length pending) max_pending_inserts
    then pending
    else let excess = length pending - (max_pending_inserts - insert_flush_batch) in
      remove_each (take excess (by_recency pending)) pending

-- The queued bytes that carry the generation.
unfoldable pub kept_of : ℕ → Pending → Rows
kept_of generation [] = []
kept_of generation ((key, (entry_generation, bytes)) ∷ pending) =
    let rest = kept_of generation pending in
    if entry_generation == generation then (key, bytes) ∷ rest else rest

-- The entries that a flush tried to write go back, behind what was queued meanwhile.
unfoldable pub requeue : ℕ → Rows → Pending → Pending
requeue generation [] current = current
requeue generation ((key, bytes) ∷ kept) current =
    requeue generation kept
      (if contains_key key current then current else insert key (generation, bytes) current)

unfoldable pub write_kept : Bool → ℕ → Rows → Tables → DiskCache → DiskCache
unfolding write_pending_inserts requeue shed_oldest_pending_inserts
write_kept committed now [] t d = d
write_kept true now (row ∷ kept) t d = record d {
  db = some (write_pending_inserts (row ∷ kept) t);
  flush_retry_after = 0;
}
write_kept false now (row ∷ kept) t d = record d {
  flush_retry_after = saturating_add now flush_retry_backoff_ms;
  pending_inserts =
      shed_oldest_pending_inserts (requeue d.clear_generation (row ∷ kept) d.pending_inserts);
}

unfoldable pub flush_open : Bool → ℕ → Option Tables → DiskCache → DiskCache
unfolding kept_of write_kept
flush_open committed now none d = d
flush_open committed now (some t) d =
    write_kept committed now (kept_of d.clear_generation d.pending_inserts) t
      (record d { pending_inserts = [] })

unfoldable pub flush_pending_inserts : Bool → ℕ → DiskCache → DiskCache
unfolding flush_open
flush_pending_inserts committed now d = flush_open committed now d.db d

unfoldable pub flush_if_due : Bool → ℕ → DiskCache → DiskCache
unfolding flush_pending_inserts
flush_if_due committed now d =
    if leb insert_flush_batch (length d.pending_inserts) && leb d.flush_retry_after now
    then flush_pending_inserts committed now d
    else d

-- `none` for an encoder that fails. The result says whether the insert was `Ok`.
unfoldable pub write_at_generation :
    Bool → ℕ → String → Option (List ℕ) → ℕ → DiskCache → Bool × DiskCache
unfolding flush_if_due shed_oldest_pending_inserts
write_at_generation committed now key none generation d = (false, d)
write_at_generation committed now key (some bytes) generation d = (
  true,
  flush_if_due committed now (record d {
    pending_inserts =
        shed_oldest_pending_inserts (insert key (generation, bytes) d.pending_inserts);
  }),
)

unfoldable pub insert_open :
    Bool → ℕ → Bool → String → Option (List ℕ) → ℕ → Option Tables → DiskCache → Bool × DiskCache
unfolding write_at_generation
insert_open committed now durable key bytes generation none d = (true, d)
insert_open committed now false key bytes generation (some t) d = (true, d)
insert_open committed now true key bytes generation (some t) d =
    write_at_generation committed now key bytes generation d

unfoldable pub insert_at_generation :
    Bool → ℕ → Bool → String → Option (List ℕ) → ℕ → DiskCache → Bool × DiskCache
unfolding insert_open
insert_at_generation committed now durable key bytes generation d =
    insert_open committed now durable key bytes generation d.db d

-- The queued bytes of a key that a read may serve.
unfoldable pub pending_insert : String → DiskCache → Option (List ℕ)
pending_insert key d = elim (get key d.pending_inserts) [
  | none ↦ none
  | some (generation, bytes) ↦ if generation == d.clear_generation then some bytes else none
]

-- The bytes of a key that a read finds: queued, or committed.
unfoldable pub read_entry : String → DiskCache → Option (List ℕ)
unfolding pending_insert
read_entry key d = elim (pending_insert key d) [
  | some bytes ↦ some bytes
  | none ↦ elim d.db [ none ↦ none | some t ↦ get key t.cache ]
]

unfoldable pub remove_pending : List String → Pending → Pending
remove_pending [] pending = pending
remove_pending (key ∷ keys) pending = remove_pending keys (remove key pending)

unfoldable pub remove_open : Bool → List String → Option Tables → DiskCache → ℕ × DiskCache
unfolding maintain_removals
remove_open committed keys none d = (0, d)
remove_open false keys (some t) d = (0, d)
remove_open true keys (some t) d =
    ((maintain_removals keys t).0, record d { db = some (maintain_removals keys t).1 })

-- The bytes that the commit freed.
unfoldable pub remove_keys : Bool → List String → DiskCache → ℕ × DiskCache
unfolding remove_pending remove_open
remove_keys committed keys d =
    remove_open committed keys d.db
      (record d { pending_inserts = remove_pending keys d.pending_inserts })

unfoldable pub cleared_db : Bool → Option Tables → Option Tables
unfolding clear_tables
cleared_db committed none = none
cleared_db false (some t) = some t
cleared_db true (some t) = some (clear_tables t)

unfoldable pub clear : Bool → DiskCache → DiskCache
unfolding cleared_db
clear committed d = record d {
  db = cleared_db committed d.db;
  pending_inserts = [];
  clear_generation = suc d.clear_generation;
}

-- A call of any thread.
pub data DiskCall : Type 0 where
  insert_call :
      (committed : Bool) (now : ℕ) (durable : Bool)
      → String
      → Option (List ℕ)
      → (generation : ℕ) → DiskCall
  flush_call : (committed : Bool) (now : ℕ) → DiskCall
  remove_call : (committed : Bool) → List String → DiskCall

unfoldable pub disk_call : DiskCall → DiskCache → DiskCache
unfolding insert_at_generation flush_pending_inserts remove_keys
disk_call (insert_call committed now durable key bytes generation) d =
    (insert_at_generation committed now durable key bytes generation d).1
disk_call (flush_call committed now) d = flush_pending_inserts committed now d
disk_call (remove_call committed keys) d = (remove_keys committed keys d).1

unfoldable pub disk_calls : List DiskCall → DiskCache → DiskCache
unfolding disk_call
disk_calls [] d = d
disk_calls (c ∷ cs) d = disk_calls cs (disk_call c d)
