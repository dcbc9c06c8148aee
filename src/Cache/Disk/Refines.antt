-- ===== src/Cache/Disk/Refines.antt =====
-- The shard of daemon/src/cache/disk.rs as what it stands for: a map from keys to values.
use import_lens.Prelude.{
  ℕ, ◌+◌, ◌≤◌, ◌≡◌, refl, ap, ◌∙◌, true, false, List, [], ◌∷◌, ◌==◌, length, u64_max, arith, String,
  DistinctKeys, if_cases,
}
use import_lens.Cache.Disk.{
  Summary, Rows, Tables, empty_tables, Writing, begin_writing, scan, rebuild_summary_in_txn,
  end_writing, write_rows, write_pending_inserts, remove_rows, maintain_removals, clear_tables,
  heal_summary_if_inconsistent,
}
use import_lens.Cache.Disk.Recount.{
  byte_total, IsAccurate, Tracks, write_rows-Tracks, remove_rows-Tracks, begin_writing-Tracks,
  scan-Tracks, write_summary-Tracks,
}
use import_lens.Cache.Disk.Meaning.{
  Transaction, write, delete, wipe, heal, transact, transact_all, meaning, meaning_all,
  bytes_written, rows_written, write_rows-cache, end_writing-cache, remove_rows-cache,
  insert_all-sizes, remove_all-sizes,
}

-- A transaction that tracked its changes ends with the summary of the rows it leaves, without a scan.
pub end_writing-IsAccurate :
    (t : Tables) (w : Writing)
    → Tracks w
    → byte_total w.cache ≤ u64_max
    → length w.cache ≤ u64_max
    → IsAccurate (end_writing t w)
unfolding end_writing
end_writing-IsAccurate t w h small few =
    rw (write_summary-Tracks w h small few, end_writing)
      (record {
        bytes_counted = refl;
        rows_counted = refl;
        indexed = h.2.indexed;
        distinct = h.2.distinct;
        below = h.2.below;
      })

-- A heal makes any tables accurate whose rows fit the summary, however far they have drifted.
pub rebuild_summary-IsAccurate :
    (rows : Rows) (summary : Summary)
    → DistinctKeys rows
    → byte_total rows ≤ u64_max
    → length rows ≤ u64_max
    → IsAccurate (rebuild_summary_in_txn rows summary)
unfolding rebuild_summary_in_txn
rebuild_summary-IsAccurate rows summary d small few =
    rw (write_summary-Tracks (record (scan rows) { cache = rows }) (scan-Tracks rows d) small few)
      (record {
        bytes_counted = refl;
        rows_counted = refl;
        indexed = (scan-Tracks rows d).2.indexed;
        distinct = d;
        below = (scan-Tracks rows d).2.below;
      })

transact-cache :
    (x : Transaction) (t : Tables) → IsAccurate t → (transact x t).cache ≡ meaning x t.cache
unfolding transact write_pending_inserts maintain_removals begin_writing clear_tables
    heal_summary_if_inconsistent
transact-cache (write true pending) t h =
    end_writing-cache t (write_rows pending (begin_writing t))
    ∙ write_rows-cache pending (begin_writing t)
transact-cache (write false pending) t h = refl
transact-cache (delete true keys) t h =
    end_writing-cache t (remove_rows keys (begin_writing t))
    ∙ remove_rows-cache keys (begin_writing t)
transact-cache (delete false keys) t h = refl
transact-cache (wipe true) t h = refl
transact-cache (wipe false) t h = refl
transact-cache (heal true) t h =
    if_cases (λ (t' : Tables). t'.cache ≡ t.cache) (length t.cache == t.summary.entry_count) _ _
      (λ _. refl) (λ _. refl)
transact-cache (heal false) t h = refl

meaning-sizes :
    (x : Transaction) (xs : List Transaction) (rows : Rows) (b n : ℕ)
    → DistinctKeys rows
    → byte_total rows + bytes_written (x ∷ xs) ≤ b
    → length rows + rows_written (x ∷ xs) ≤ n
    → (byte_total (meaning x rows) + bytes_written xs ≤ b)
      × (length (meaning x rows) + rows_written xs ≤ n)
meaning-sizes (write true pending) xs rows b n d hb hn = (
  omega (arith, (insert_all-sizes pending rows d).0, hb),
  omega (arith, (insert_all-sizes pending rows d).1, hn),
)
meaning-sizes (write false pending) xs rows b n d hb hn = (omega (arith, hb), omega (arith, hn))
meaning-sizes (delete true keys) xs rows b n d hb hn = (
  omega (arith, (remove_all-sizes keys rows d).0, hb),
  omega (arith, (remove_all-sizes keys rows d).1, hn),
)
meaning-sizes (delete false keys) xs rows b n d hb hn = (hb, hn)
meaning-sizes (wipe true) xs rows b n d hb hn = (omega (arith, hb), omega (arith, hn))
meaning-sizes (wipe false) xs rows b n d hb hn = (hb, hn)
meaning-sizes (heal c) xs rows b n d hb hn = (hb, hn)

transact-IsAccurate :
    (x : Transaction) (t : Tables)
    → IsAccurate t
    → byte_total (meaning x t.cache) ≤ u64_max
    → length (meaning x t.cache) ≤ u64_max
    → IsAccurate (transact x t)
unfolding transact write_pending_inserts maintain_removals clear_tables heal_summary_if_inconsistent
    begin_writing
transact-IsAccurate (write true pending) t h small few =
    end_writing-IsAccurate t w
      (write_rows-Tracks pending (begin_writing t) (begin_writing-Tracks t h))
      (rw (write_rows-cache pending (begin_writing t)) small)
      (rw (write_rows-cache pending (begin_writing t)) few)
  where
    w : Writing
    w = write_rows pending (begin_writing t)
transact-IsAccurate (write false pending) t h small few = h
transact-IsAccurate (delete true keys) t h small few =
    end_writing-IsAccurate t w
      (remove_rows-Tracks keys (begin_writing t) (begin_writing-Tracks t h))
      (rw (remove_rows-cache keys (begin_writing t)) small)
      (rw (remove_rows-cache keys (begin_writing t)) few)
  where
    w : Writing
    w = remove_rows keys (begin_writing t)
transact-IsAccurate (delete false keys) t h small few = h
transact-IsAccurate (wipe true) t h small few = record {
  bytes_counted = refl;
  rows_counted = refl;
  indexed = refl;
  distinct = tt;
  below = tt;
}
transact-IsAccurate (wipe false) t h small few = h
transact-IsAccurate (heal true) t h small few =
    if_cases IsAccurate (length t.cache == t.summary.entry_count) t _ (λ _. h)
      (λ _. rebuild_summary-IsAccurate t.cache t.summary h.distinct small few)
transact-IsAccurate (heal false) t h small few = h

-- The removal of keys keeps tables accurate.
pub removals-IsAccurate :
    (keys : List String) (t : Tables)
    → IsAccurate t
    → byte_total t.cache ≤ u64_max
    → length t.cache ≤ u64_max
    → IsAccurate (maintain_removals keys t).1
unfolding transact
removals-IsAccurate keys t h small few =
    let sizes = remove_all-sizes keys t.cache h.distinct in
    transact-IsAccurate (delete true keys) t h (omega (arith, sizes.0)) (omega (arith, sizes.1))

refines_from :
    (xs : List Transaction) (t : Tables)
    → IsAccurate t
    → byte_total t.cache + bytes_written xs ≤ u64_max
    → length t.cache + rows_written xs ≤ u64_max
    → ((transact_all xs t).cache ≡ meaning_all xs t.cache) × IsAccurate (transact_all xs t)
unfolding transact_all meaning_all
refines_from [] t h hb hn = (refl, h)
refines_from (x ∷ xs) t h hb hn =
    let (mb, mn) = meaning-sizes x xs t.cache u64_max u64_max h.distinct hb hn in
    let same = transact-cache x t h in
    let (eq, acc) =
      refines_from xs (transact x t)
        (transact-IsAccurate x t h (omega (arith, mb)) (omega (arith, mn))) (rw same mb)
        (rw same mn) in
    (eq ∙ ap (meaning_all xs) same, acc)

-- Whatever transactions a shard goes through, committed or not, it is the map that the committed ones
-- make of the empty one; and its summary and index, which they maintain row by row, are those of a
-- recount: the bytes, the number of rows, an index entry for each row and no other, and no seq above the
-- high-water mark. All the bytes and rows ever written have to fit 64 bits.
pub shard-refines :
    (xs : List Transaction)
    → bytes_written xs ≤ u64_max
    → rows_written xs ≤ u64_max
    → ((transact_all xs empty_tables).cache ≡ meaning_all xs [])
      × IsAccurate (transact_all xs empty_tables)
shard-refines xs hb hn =
    refines_from xs empty_tables
      (record {
        bytes_counted = refl;
        rows_counted = refl;
        indexed = refl;
        distinct = tt;
        below = tt;
      })
      (omega (arith, hb)) (omega (arith, hn))
