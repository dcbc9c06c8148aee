-- ===== src/Cache/Disk/Samples.antt =====
-- Runs of the shard of daemon/src/cache/disk.rs, and inputs where its theorems apply.
use import_lens.Prelude.{
  ℕ, suc, ◌-◌, ◌≤◌, ◌≡◌, ◌↔◌, ◌⊎◌, inl, inr, refl, String, true, false, List, [], ◌∷◌, map, none,
  some, length, min, arith, All, All-mono, In, here, there, leb, if◌then◌else◌, Bool-cases, insert,
  remove, get, text_dec,
}
use import_lens.Cache.Disk.{SeqIndex, Tables, empty_tables, lowest_seq_keys, shard_rollup}
use import_lens.Cache.Disk.Recount.{entry_of, byte_total, IsAccurate}
use import_lens.Cache.Disk.Meaning.{Transaction, write, delete, heal, transact_all, meaning_all}
use import_lens.Cache.Disk.Refines.{shard-refines}
use import_lens.Cache.Disk.Lowest.{
  ListsInOrder, Ascending, offered, lowest_seq_keys-oldest, shard_rollup-recount, OldestOf,
}
use import_lens.Cache.Disk.Queue.{
  DiskCache, insert_call, flush_call, DiskCall, clear, disk_calls, insert_at_generation, read_entry,
}
use import_lens.Cache.Disk.Queue.Cleared.{inserted_at, rows_of, disk_clear-sticks}

-- A database that lists by the seq.
abbrev pub put : ℕ × String → SeqIndex → SeqIndex
put e [] = e ∷ []
put e (f ∷ t) = let after = put e t in if leb e.0 f.0 then e ∷ f ∷ t else f ∷ after

abbrev pub by_seq : SeqIndex → SeqIndex
by_seq [] = []
by_seq (e ∷ t) = put e (by_seq t)

length-put : (e : ℕ × String) (t : SeqIndex) → length (put e t) ≡ suc (length t)
length-put e [] = refl
length-put e (f ∷ t) = ground (arith, length-put e t)

length-by_seq : (t : SeqIndex) → length (by_seq t) ≡ length t
length-by_seq [] = refl
length-by_seq (e ∷ t) = omega (arith, length-by_seq t, length-put e (by_seq t))

put-In : (e a : ℕ × String) (t : SeqIndex) → In a (put e t) ↔ In a (e ∷ t)
put-In e a [] = ((λ i. i), λ i. i)
put-In e a (f ∷ t) = elim (Bool-cases (leb e.0 f.0)) [
  | inl le ↦ rw le ((λ i. i), λ i. i)
  | inr gt ↦ rw gt ((λ i. to (put-In e a t).0 i), (λ i. from (put-In e a t).1 i))
]
  where
    to : (In a (put e t) → In a (e ∷ t)) → In a (f ∷ put e t) → In a (e ∷ f ∷ t)
    to k (here p) = there (here p)
    to k (there i) = elim (k i) [ here p ↦ here p | there j ↦ there (there j) ]

    from : (In a (e ∷ t) → In a (put e t)) → In a (e ∷ f ∷ t) → In a (f ∷ put e t)
    from k (here p) = there (k (here p))
    from k (there (here p)) = here p
    from k (there (there j)) = there (k (there j))

by_seq-In : (t : SeqIndex) (a : ℕ × String) → In a (by_seq t) ↔ In a t
by_seq-In [] a = ((λ i. i), λ i. i)
by_seq-In (e ∷ t) a = (
  (λ i. elim ((put-In e a (by_seq t)).0 i) [
    | here p ↦ here p
    | there j ↦ there ((by_seq-In t a).0 j)
  ]),
  (λ i.
      (put-In e a (by_seq t)).1
        (elim i [ here p ↦ here p | there j ↦ there ((by_seq-In t a).1 j) ])),
)

put-All :
    (b : ℕ) (e : ℕ × String) (t : SeqIndex)
    → b ≤ e.0
    → All (λ f. b ≤ f.0) t
    → All (λ f. b ≤ f.0) (put e t)
put-All b e [] le h = (le, tt)
put-All b e (f ∷ t) le h = elim (Bool-cases (leb e.0 f.0)) [
  | inl q ↦ rw q (le, h)
  | inr q ↦ rw q (h.0, put-All b e t le h.1)
]

put-Ascending : (e : ℕ × String) (t : SeqIndex) → Ascending t → Ascending (put e t)
put-Ascending e [] h = (tt, tt)
put-Ascending e (f ∷ t) h = elim (Bool-cases (leb e.0 f.0)) [
  | inl q ↦ rw q (
    (
      ground (arith, q),
      All-mono (λ (g : ℕ × String). f.0 ≤ g.0) (λ (g : ℕ × String). e.0 ≤ g.0)
          (λ g le. ground (arith, q, le)) t h.0,
    ),
    h,
  )
  | inr q ↦ rw q (put-All f.0 e t (ground (arith, q)) h.0, put-Ascending e t h.1)
]

by_seq-Ascending : (t : SeqIndex) → Ascending (by_seq t)
by_seq-Ascending [] = tt
by_seq-Ascending (e ∷ t) = put-Ascending e (by_seq t) (by_seq-Ascending t)

pub by_seq-ListsInOrder : ListsInOrder by_seq
by_seq-ListsInOrder = record {
  same_length = length-by_seq;
  same_members = by_seq-In;
  ascending = by_seq-Ascending;
}

abbrev value : ℕ → List ℕ
value seq = seq ∷ 0 ∷ 0 ∷ 0 ∷ 0 ∷ 0 ∷ 0 ∷ 0 ∷ 42 ∷ []

abbrev history : List Transaction
history =
    write true (("a", value 5) ∷ ("b", value 3) ∷ ("c", value 9) ∷ [])
    ∷ write false (("d", value 1) ∷ [])
    ∷ write true (("a", value 7) ∷ [])
    ∷ delete true ("c" ∷ "d" ∷ [])
    ∷ heal true
    ∷ []

shard-refines_example :
    ((transact_all history empty_tables).cache ≡ meaning_all history [])
    × IsAccurate (transact_all history empty_tables)
shard-refines_example = shard-refines history (omega arith) (omega arith)

abbrev shard : Tables
shard = transact_all history empty_tables

shard-IsAccurate : IsAccurate shard
shard-IsAccurate = (shard-refines history (omega arith) (omega arith)).1

oldest_is_offered : lowest_seq_keys by_seq 1 1 shard ≡ ("b", 3) ∷ []
unfolding transact_all lowest_seq_keys insert remove get text_dec
oldest_is_offered = refl

lowest_seq_keys-oldest_example :
    (length (lowest_seq_keys by_seq 1 1 shard) ≡ min 1 (length shard.cache - 1))
    × All (λ e. In (e.1, e.0) (map entry_of shard.cache)) (lowest_seq_keys by_seq 1 1 shard)
    × All
        (λ f.
          In (offered f) (lowest_seq_keys by_seq 1 1 shard)
          ⊎ All (λ e. e.1 ≤ f.0) (lowest_seq_keys by_seq 1 1 shard))
        (map entry_of shard.cache)
lowest_seq_keys-oldest_example =
    lowest_seq_keys-oldest by_seq by_seq-ListsInOrder shard 1 1 shard-IsAccurate

shard_rollup-recount_example :
    ((shard_rollup by_seq shard).total_bytes ≡ byte_total shard.cache)
    × ((shard_rollup by_seq shard).entry_count ≡ length shard.cache)
    × OldestOf by_seq by_seq-ListsInOrder (shard_rollup by_seq shard).oldest_seq shard.cache
shard_rollup-recount_example =
    shard_rollup-recount by_seq by_seq-ListsInOrder shard shard-IsAccurate

abbrev opened : DiskCache
opened = record {
  db = some empty_tables;
  pending_inserts = [];
  clear_generation = 1;
  flush_retry_after = 0;
}

-- One insert was under way when the shard was cleared, the other came after it.
abbrev racing : List DiskCall
racing =
    insert_call true 0 true "a" (some (value 5)) 1
    ∷ insert_call true 0 true "b" (some (value 6)) 2
    ∷ flush_call true 10
    ∷ []

disk_clear-sticks_example :
    All (λ row. In row (inserted_at 2 racing)) (rows_of (disk_calls racing (clear true opened)).db)
disk_clear-sticks_example = disk_clear-sticks opened racing

only_the_later_insert_is_kept :
    map (λ row. row.0) (rows_of (disk_calls racing (clear true opened)).db) ≡ "b" ∷ []
unfolding disk_calls clear insert remove get text_dec
only_the_later_insert_is_kept = refl

-- An insert of a generation that was cleared displaces one that may be served.
late_insert_displaces :
    read_entry "a"
      (insert_at_generation true 0 true "a"
        (some (value 5))
        1
        (insert_at_generation true 0 true "a" (some (value 6)) 2 (clear true opened)).1).1
    ≡ none
unfolding read_entry insert_at_generation clear insert remove get text_dec
late_insert_displaces = refl
