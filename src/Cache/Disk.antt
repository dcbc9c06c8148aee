-- ===== src/Cache/Disk.antt =====
-- daemon/src/cache/disk.rs: the tables of a shard's database, and the transactions on them. A table is
-- the list of its rows; its order matters nowhere but in `iterate`, the order in which the database
-- lists the index. A transaction that is not committed changes nothing. An `i128` is what was gained and
-- what was lost.
pub mod Queue
pub mod Recount
pub mod Meaning
pub mod Refines
pub mod Lowest
pub mod Samples
use import_lens.Prelude.{
  ℕ, zero, suc, ◌+◌, ◌-◌, ◌*◌, String, Bool, true, false, not, ◌&&◌, List, [], ◌∷◌, map, Option,
  none, some, ltb, leb, ◌==◌, if◌then◌else◌, length, get, insert, remove, max, min, u64_max,
  text_dec, ite, take,
}
use import_lens.Cache.Budget.Shard.{ShardRollup}

-- The value of a little-endian prefix of `n` bytes, if there is one.
unfoldable pub from_le_bytes : ℕ → List ℕ → Option ℕ
from_le_bytes zero bytes = some 0
from_le_bytes (suc n) [] = none
from_le_bytes (suc n) (b ∷ bytes) = elim (from_le_bytes n bytes) [
  | none ↦ none
  | some high ↦ some (b + 256 * high)
]

abbrev pub seq_prefix_len : ℕ
seq_prefix_len = 8

unfoldable pub decode_last_seq : List ℕ → ℕ
unfolding from_le_bytes
decode_last_seq bytes = elim (from_le_bytes seq_prefix_len bytes) [ none ↦ 0 | some seq ↦ seq ]

-- The `SUMMARY_TABLE`; a field that is absent reads as 0.
pub record Summary : Type 0 where
  pub total_bytes : ℕ
  pub entry_count : ℕ
  pub max_seq : ℕ

abbrev pub Rows : Type 0
Rows = List (String × List ℕ)

abbrev pub SeqIndex : Type 0
SeqIndex = List (ℕ × String)

pub record Tables : Type 0 where
  pub cache : Rows
  pub summary : Summary
  pub seq_index : SeqIndex

abbrev pub empty_summary : Summary
empty_summary = record { total_bytes = 0; entry_count = 0; max_seq = 0 }

abbrev pub empty_tables : Tables
empty_tables = record { cache = []; summary = empty_summary; seq_index = [] }

abbrev pub is_entry : ℕ × String → ℕ × String → Bool
is_entry (seq, key) (seq', key') = seq == seq' && ite (text_dec key key') true false

unfoldable pub remove_entry : ℕ × String → SeqIndex → SeqIndex
remove_entry entry [] = []
remove_entry entry (e ∷ index) =
    let rest = remove_entry entry index in if is_entry entry e then rest else e ∷ rest

unfoldable pub insert_entry : ℕ × String → SeqIndex → SeqIndex
unfolding remove_entry
insert_entry entry index = entry ∷ remove_entry entry index

-- The tables within a transaction, with the summary's fields in locals.
pub record Writing : Type 0 where
  pub cache : Rows
  pub seq_index : SeqIndex
  pub bytes_gained : ℕ
  pub bytes_lost : ℕ
  pub count_gained : ℕ
  pub count_lost : ℕ
  pub max_seq : ℕ

unfoldable pub begin_writing : Tables → Writing
begin_writing t = record {
  cache = t.cache;
  seq_index = t.seq_index;
  bytes_gained = t.summary.total_bytes;
  bytes_lost = 0;
  count_gained = t.summary.entry_count;
  count_lost = 0;
  max_seq = t.summary.max_seq;
}

-- `u64::try_from`.
unfoldable pub try_from : ℕ → ℕ → Option ℕ
try_from gained lost =
    if leb lost gained && leb (gained - lost) u64_max then some (gained - lost) else none

abbrev pub both : Option ℕ → Option ℕ → ℕ → Option Summary
both (some total) (some count) max_seq =
    some (record { total_bytes = total; entry_count = count; max_seq = max_seq })
both _ _ max_seq = none

unfoldable pub write_summary : Writing → Option Summary
unfolding try_from
write_summary w =
    both (try_from w.bytes_gained w.bytes_lost) (try_from w.count_gained w.count_lost) w.max_seq

-- The loop of the scan that rebuilds the summary and the index.
unfoldable pub scan : Rows → Writing
unfolding insert_entry
scan [] = record {
  cache = [];
  seq_index = [];
  bytes_gained = 0;
  bytes_lost = 0;
  count_gained = 0;
  count_lost = 0;
  max_seq = 0;
}
scan ((key, bytes) ∷ rows) =
    let w = scan rows in
    record w {
      seq_index = insert_entry (decode_last_seq bytes, key) w.seq_index;
      bytes_gained = length bytes + w.bytes_gained;
      count_gained = suc w.count_gained;
      max_seq = max (decode_last_seq bytes) w.max_seq;
    }

abbrev pub or_summary : Option Summary → Summary → Summary
or_summary none summary = summary
or_summary (some summary') summary = summary'

unfoldable pub rebuild_summary_in_txn : Rows → Summary → Tables
unfolding scan write_summary
rebuild_summary_in_txn cache summary = record {
  cache = cache;
  summary = or_summary (write_summary (scan cache)) summary;
  seq_index = (scan cache).seq_index;
}

-- The summary is written, or rebuilt with the index where it has drifted.
unfoldable pub end_writing : Tables → Writing → Tables
unfolding write_summary rebuild_summary_in_txn
end_writing before w = elim (write_summary w) [
  | none ↦ rebuild_summary_in_txn w.cache before.summary
  | some summary ↦ record { cache = w.cache; summary = summary; seq_index = w.seq_index }
]

-- One queued insert; the prior row's seq and length drive the maintenance.
unfoldable pub write_row : String → List ℕ → Option (List ℕ) → Writing → Writing
unfolding insert_entry decode_last_seq
write_row key bytes none w = record w {
  cache = insert key bytes w.cache;
  seq_index = insert_entry (decode_last_seq bytes, key) w.seq_index;
  bytes_gained = w.bytes_gained + length bytes;
  count_gained = suc w.count_gained;
  max_seq = max w.max_seq (decode_last_seq bytes);
}
write_row key bytes (some old) w = record w {
  cache = insert key bytes w.cache;
  seq_index =
      insert_entry (decode_last_seq bytes, key)
        (remove_entry (decode_last_seq old, key) w.seq_index);
  bytes_gained = w.bytes_gained + length bytes;
  bytes_lost = w.bytes_lost + length old;
  max_seq = max w.max_seq (decode_last_seq bytes);
}

unfoldable pub write_rows : Rows → Writing → Writing
unfolding write_row
write_rows [] w = w
write_rows ((key, bytes) ∷ pending) w = write_rows pending (write_row key bytes (get key w.cache) w)

unfoldable pub write_pending_inserts : Rows → Tables → Tables
unfolding write_rows begin_writing end_writing
write_pending_inserts pending t = end_writing t (write_rows pending (begin_writing t))

unfoldable pub remove_row : String → Option (List ℕ) → Writing → Writing
unfolding remove_entry decode_last_seq
remove_row key none w = w
remove_row key (some old) w = record w {
  cache = remove key w.cache;
  seq_index = remove_entry (decode_last_seq old, key) w.seq_index;
  bytes_lost = w.bytes_lost + length old;
  count_lost = suc w.count_lost;
}

unfoldable pub remove_rows : List String → Writing → Writing
unfolding remove_row
remove_rows [] w = w
remove_rows (key ∷ keys) w = remove_rows keys (remove_row key (get key w.cache) w)

-- The bytes freed, and the tables.
unfoldable pub maintain_removals : List String → Tables → ℕ × Tables
unfolding remove_rows begin_writing end_writing
maintain_removals keys t =
    let w = remove_rows keys (begin_writing t) in (w.bytes_lost, end_writing t w)

-- `clear` in the database, where every table opens and is emptied; the source commits what is left where one
-- does not, which is not modelled.
unfoldable pub clear_tables : Tables → Tables
clear_tables t = empty_tables

unfoldable pub heal_summary_if_inconsistent : Tables → Tables
unfolding rebuild_summary_in_txn
heal_summary_if_inconsistent t =
    if length t.cache == t.summary.entry_count then t else rebuild_summary_in_txn t.cache t.summary

module _ (iterate : SeqIndex → SeqIndex) where
  abbrev pub first_seq : SeqIndex → ℕ
  first_seq [] = u64_max
  first_seq ((seq, key) ∷ _) = seq

  abbrev pub empty_rollup : ShardRollup
  empty_rollup = record { total_bytes = 0; oldest_seq = u64_max; entry_count = 0 }

  unfoldable pub shard_rollup : Tables → ShardRollup
  shard_rollup t = if t.summary.entry_count == 0 then empty_rollup else record {
    total_bytes = t.summary.total_bytes;
    oldest_seq = first_seq (iterate t.seq_index);
    entry_count = t.summary.entry_count;
  }

  unfoldable pub lowest_seq_keys : ℕ → ℕ → Tables → List (String × ℕ)
  lowest_seq_keys n floor t =
      map (λ e. (e.1, e.0)) (take (min n (t.summary.entry_count - floor)) (iterate t.seq_index))
