-- ===== src/Cache/Disk/Meaning.antt =====
-- What the transactions of daemon/src/cache/disk.rs mean for the map of keys and values that a shard is.
use import_lens.Prelude.{
  inl, inr, insert-DistinctKeys, remove-DistinctKeys, contains_key-get, remove-absent, ℕ, ◌+◌, ◌≤◌,
  ◌≡◌, refl, ap, sym, ◌∙◌, String, Bool, List, [], ◌∷◌, Option, none, some, if◌then◌else◌, length,
  get, insert, remove, arith, DistinctKeys, total_of-remove, length-remove-le, Option-cases,
}
use import_lens.Cache.Disk.{
  Rows, Tables, Writing, write_summary, rebuild_summary_in_txn, end_writing, write_row, write_rows,
  write_pending_inserts, remove_row, remove_rows, maintain_removals, clear_tables,
  heal_summary_if_inconsistent,
}
use import_lens.Cache.Disk.Recount.{byte_total}

-- A transaction, and whether the database commits it.
pub data Transaction : Type 0 where
  write : (committed : Bool) → Rows → Transaction
  delete : (committed : Bool) → List String → Transaction
  wipe : (committed : Bool) → Transaction
  heal : (committed : Bool) → Transaction

unfoldable pub transact : Transaction → Tables → Tables
unfolding write_pending_inserts maintain_removals clear_tables heal_summary_if_inconsistent
transact (write committed pending) t = if committed then write_pending_inserts pending t else t
transact (delete committed keys) t = if committed then (maintain_removals keys t).1 else t
transact (wipe committed) t = if committed then clear_tables t else t
transact (heal committed) t = if committed then heal_summary_if_inconsistent t else t

unfoldable pub transact_all : List Transaction → Tables → Tables
unfolding transact
transact_all [] t = t
transact_all (x ∷ xs) t = transact_all xs (transact x t)

-- The same on the map alone.
unfoldable pub insert_all : Rows → Rows → Rows
insert_all [] rows = rows
insert_all ((key, bytes) ∷ pending) rows = insert_all pending (insert key bytes rows)

unfoldable pub remove_all : List String → Rows → Rows
remove_all [] rows = rows
remove_all (key ∷ keys) rows = remove_all keys (remove key rows)

abbrev pub meaning : Transaction → Rows → Rows
meaning (write committed pending) rows = if committed then insert_all pending rows else rows
meaning (delete committed keys) rows = if committed then remove_all keys rows else rows
meaning (wipe committed) rows = if committed then [] else rows
meaning (heal committed) rows = rows

unfoldable pub meaning_all : List Transaction → Rows → Rows
meaning_all [] rows = rows
meaning_all (x ∷ xs) rows = meaning_all xs (meaning x rows)

-- What the writes may add.
abbrev pub bytes_written : List Transaction → ℕ
bytes_written [] = 0
bytes_written (write _ pending ∷ xs) = byte_total pending + bytes_written xs
bytes_written (_ ∷ xs) = bytes_written xs

abbrev pub rows_written : List Transaction → ℕ
rows_written [] = 0
rows_written (write _ pending ∷ xs) = length pending + rows_written xs
rows_written (_ ∷ xs) = rows_written xs

write_row-cache :
    (key : String) (bytes : List ℕ) (o : Option (List ℕ)) (w : Writing)
    → (write_row key bytes o w).cache ≡ insert key bytes w.cache
unfolding write_row
write_row-cache key bytes none w = refl
write_row-cache key bytes (some old) w = refl

pub write_rows-cache :
    (pending : Rows) (w : Writing) → (write_rows pending w).cache ≡ insert_all pending w.cache
unfolding write_rows insert_all
write_rows-cache [] w = refl
write_rows-cache ((key, bytes) ∷ pending) w =
    write_rows-cache pending (write_row key bytes (get key w.cache) w)
    ∙ ap (insert_all pending) (write_row-cache key bytes (get key w.cache) w)

pub end_writing-cache : (t : Tables) (w : Writing) → (end_writing t w).cache ≡ w.cache
unfolding end_writing rebuild_summary_in_txn
end_writing-cache t w = elim (Option-cases (write_summary w)) [
  | inl e ↦ rw (e, end_writing) refl
  | inr (s, e) ↦ rw (e, end_writing) refl
]

remove_row-cache :
    (key : String) (o : Option (List ℕ)) (w : Writing)
    → get key w.cache ≡ o
    → (remove_row key o w).cache ≡ remove key w.cache
unfolding remove_row
remove_row-cache key none w e =
    sym (remove-absent key w.cache (ground (arith, e, contains_key-get key w.cache)))
remove_row-cache key (some old) w e = refl

pub remove_rows-cache :
    (keys : List String) (w : Writing) → (remove_rows keys w).cache ≡ remove_all keys w.cache
unfolding remove_rows remove_all
remove_rows-cache [] w = refl
remove_rows-cache (key ∷ keys) w =
    remove_rows-cache keys (remove_row key (get key w.cache) w)
    ∙ ap (remove_all keys) (remove_row-cache key (get key w.cache) w refl)

-- How large the map grows.
pub insert_all-sizes :
    (pending rows : Rows)
    → DistinctKeys rows
    → (byte_total (insert_all pending rows) ≤ byte_total rows + byte_total pending)
      × (length (insert_all pending rows) ≤ length rows + length pending)
unfolding insert_all insert
insert_all-sizes [] rows d = (omega arith, omega arith)
insert_all-sizes ((key, bytes) ∷ pending) rows d =
    let (b, l) =
      insert_all-sizes pending (insert key bytes rows) (insert-DistinctKeys key bytes rows d) in
    (
      omega (arith, b, total_of-remove (λ (v : List ℕ). length v) key rows d),
      omega (arith, l, length-remove-le key rows),
    )

pub remove_all-sizes :
    (keys : List String) (rows : Rows)
    → DistinctKeys rows
    → (byte_total (remove_all keys rows) ≤ byte_total rows)
      × (length (remove_all keys rows) ≤ length rows)
unfolding remove_all
remove_all-sizes [] rows d = (omega arith, omega arith)
remove_all-sizes (key ∷ keys) rows d =
    let (b, l) = remove_all-sizes keys (remove key rows) (remove-DistinctKeys key rows d) in
    (
      omega (arith, b, total_of-remove (λ (v : List ℕ). length v) key rows d),
      omega (arith, l, length-remove-le key rows),
    )
