-- ===== src/Cache/Disk/Recount.antt =====
-- The summary and the index of daemon/src/cache/disk.rs against a recount of the rows: what a
-- transaction maintains row by row is what a scan of the whole table would give.
use import_lens.Prelude.{
  All-remove, ℕ, suc, ◌+◌, ◌-◌, ◌≤◌, ◌≡◌, refl, ap, sym, ◌∙◌, String, false, List, [], ◌∷◌, map,
  Option, none, some, length, get, insert, remove, contains_key, max, u64_max, text_dec, arith,
  DistinctKeys, All, All-mono, insert-DistinctKeys, remove-DistinctKeys, contains_key-remove,
  contains_key-get, remove-absent, total_of, total_of-remove, length-total_of,
}
use import_lens.Cache.Disk.{
  decode_last_seq, Rows, SeqIndex, Tables, remove_entry, insert_entry, Writing, begin_writing,
  try_from, write_summary, scan, write_row, write_rows, remove_row, remove_rows,
}

abbrev pub entry_of : String × List ℕ → ℕ × String
entry_of (key, bytes) = (decode_last_seq bytes, key)

abbrev pub byte_total : Rows → ℕ
byte_total rows = total_of (λ (bytes : List ℕ). length bytes) rows

-- What a scan counts: the bytes, the rows, an index entry for each row, and no seq above the mark.
pub record Counts (rows : Rows) (bytes count : ℕ) (index : SeqIndex) (max_seq : ℕ) : Type 0 where
  pub bytes_counted : bytes ≡ byte_total rows
  pub rows_counted : count ≡ length rows
  pub indexed : index ≡ map entry_of rows
  pub distinct : DistinctKeys rows
  pub below : All (λ e. decode_last_seq e.1 ≤ max_seq) rows

abbrev pub IsAccurate : Tables → Type 0
IsAccurate t =
    Counts t.cache t.summary.total_bytes t.summary.entry_count t.seq_index t.summary.max_seq

-- Within a transaction.
abbrev pub Tracks : Writing → Type 0
Tracks w =
    (w.bytes_lost ≤ w.bytes_gained)
    × (w.count_lost ≤ w.count_gained)
    × Counts w.cache (w.bytes_gained - w.bytes_lost) (w.count_gained - w.count_lost) w.seq_index
        w.max_seq

remove_entry-absent :
    (seq : ℕ) (key : String) (rows : Rows)
    → contains_key key rows ≡ false
    → remove_entry (seq, key) (map entry_of rows) ≡ map entry_of rows
unfolding remove_entry contains_key
remove_entry-absent seq key [] h = refl
remove_entry-absent seq key ((j, v) ∷ rows) h = ground (arith, remove_entry-absent seq key rows)

-- The index entry of a row is the one that goes with it.
remove_entry-remove :
    (key : String) (rows : Rows) (old : List ℕ)
    → DistinctKeys rows
    → get key rows ≡ some old
    → remove_entry (decode_last_seq old, key) (map entry_of rows) ≡ map entry_of (remove key rows)
unfolding remove_entry get remove
remove_entry-remove key [] old d h = absurd (cc)
remove_entry-remove key ((j, v) ∷ rows) old d h = elim (text_dec j key) [
  | yes e ↦ ground (
    arith,
    h,
    absent e,
    remove_entry-absent (decode_last_seq old) key rows (absent e),
    remove-absent key rows (absent e),
  )
  | no e ↦ ground (arith, remove_entry-remove key rows old d.1)
]
  where
    absent : j ≡ key → contains_key key rows ≡ false
    absent e = ground (arith, d.0, e)

byte_total-remove :
    (key : String) (rows : Rows) (old : List ℕ)
    → DistinctKeys rows
    → get key rows ≡ some old
    → (byte_total (remove key rows) + length old ≡ byte_total rows)
      × (suc (length (remove key rows)) ≡ length rows)
byte_total-remove key rows old d h = (
  ground (arith, h, total_of-remove (λ (bytes : List ℕ). length bytes) key rows d),
  ground (
    arith,
    h,
    total_of-remove (λ (bytes : List ℕ). 1) key rows d,
    length-total_of rows,
    length-total_of (remove key rows),
  ),
)

All-raised :
    (top seq : ℕ) (rows : Rows)
    → All (λ e. decode_last_seq e.1 ≤ top) rows
    → All (λ e. decode_last_seq e.1 ≤ max top seq) rows
All-raised top seq rows h =
    All-mono (λ (e : String × List ℕ). decode_last_seq e.1 ≤ top)
      (λ (e : String × List ℕ). decode_last_seq e.1 ≤ max top seq) (λ e le. omega (arith, le)) rows
      h

absent_key : (key : String) (rows : Rows) → get key rows ≡ none → contains_key key rows ≡ false
absent_key key rows h = ground (arith, h, contains_key-get key rows)

absent_after : (key : String) (rows : Rows) → contains_key key (remove key rows) ≡ false
absent_after key rows = ground (arith, contains_key-remove key key rows)

-- The index entry of a row that replaces another, or of a new one.
insert_entry-row :
    (key : String) (bytes : List ℕ) (rows : Rows)
    → insert_entry (decode_last_seq bytes, key) (map entry_of (remove key rows))
      ≡ map entry_of (insert key bytes rows)
unfolding insert_entry insert
insert_entry-row key bytes rows =
    ap (λ index. (decode_last_seq bytes, key) ∷ index)
      (remove_entry-absent (decode_last_seq bytes) key (remove key rows) (absent_after key rows))

write_row-Tracks :
    (key : String) (bytes : List ℕ) (o : Option (List ℕ)) (w : Writing)
    → get key w.cache ≡ o
    → Tracks w
    → Tracks (write_row key bytes o w)
unfolding write_row insert
write_row-Tracks key bytes none w e (le, lc, h) = (
  omega (arith, le),
  omega (arith, lc),
  record {
    bytes_counted = omega (arith, le, h.bytes_counted, ap byte_total same);
    rows_counted = omega (arith, lc, h.rows_counted, ap (length {A = String × List ℕ}) same);
    indexed =
        ap (insert_entry (decode_last_seq bytes, key)) (h.indexed ∙ ap (map entry_of) (sym same))
        ∙ insert_entry-row key bytes w.cache;
    distinct = insert-DistinctKeys key bytes w.cache h.distinct;
    below = (
      omega arith,
      All-remove
          (λ (e : String × List ℕ). decode_last_seq e.1 ≤ max w.max_seq (decode_last_seq bytes)) key
          w.cache (All-raised w.max_seq (decode_last_seq bytes) w.cache h.below),
    );
  },
)
  where
    same : remove key w.cache ≡ w.cache
    same = remove-absent key w.cache (absent_key key w.cache e)
write_row-Tracks key bytes (some old) w e (le, lc, h) = (
  omega (arith, le, h.bytes_counted, (byte_total-remove key w.cache old h.distinct e).0),
  lc,
  record {
    bytes_counted =
        omega (arith, le, h.bytes_counted, (byte_total-remove key w.cache old h.distinct e).0);
    rows_counted =
        omega (arith, lc, h.rows_counted, (byte_total-remove key w.cache old h.distinct e).1);
    indexed =
        ap
          (λ index.
            insert_entry (decode_last_seq bytes, key)
              (remove_entry (decode_last_seq old, key) index))
          h.indexed
        ∙ ap (insert_entry (decode_last_seq bytes, key))
            (remove_entry-remove key w.cache old h.distinct e)
        ∙ insert_entry-row key bytes w.cache;
    distinct = insert-DistinctKeys key bytes w.cache h.distinct;
    below = (
      omega arith,
      All-remove
          (λ (e : String × List ℕ). decode_last_seq e.1 ≤ max w.max_seq (decode_last_seq bytes)) key
          w.cache (All-raised w.max_seq (decode_last_seq bytes) w.cache h.below),
    );
  },
)

pub write_rows-Tracks : (pending : Rows) (w : Writing) → Tracks w → Tracks (write_rows pending w)
unfolding write_rows
write_rows-Tracks [] w h = h
write_rows-Tracks ((key, bytes) ∷ pending) w h =
    write_rows-Tracks pending (write_row key bytes (get key w.cache) w)
      (write_row-Tracks key bytes (get key w.cache) w refl h)

remove_row-Tracks :
    (key : String) (o : Option (List ℕ)) (w : Writing)
    → get key w.cache ≡ o
    → Tracks w
    → Tracks (remove_row key o w)
unfolding remove_row
remove_row-Tracks key none w e h = h
remove_row-Tracks key (some old) w e (le, lc, h) = (
  omega (arith, le, h.bytes_counted, (byte_total-remove key w.cache old h.distinct e).0),
  omega (arith, lc, h.rows_counted, (byte_total-remove key w.cache old h.distinct e).1),
  record {
    bytes_counted =
        omega (arith, le, h.bytes_counted, (byte_total-remove key w.cache old h.distinct e).0);
    rows_counted =
        omega (arith, lc, h.rows_counted, (byte_total-remove key w.cache old h.distinct e).1);
    indexed =
        ap (remove_entry (decode_last_seq old, key)) h.indexed
        ∙ remove_entry-remove key w.cache old h.distinct e;
    distinct = remove-DistinctKeys key w.cache h.distinct;
    below =
        All-remove (λ (e : String × List ℕ). decode_last_seq e.1 ≤ w.max_seq) key w.cache h.below;
  },
)

pub remove_rows-Tracks : (keys : List String) (w : Writing) → Tracks w → Tracks (remove_rows keys w)
unfolding remove_rows
remove_rows-Tracks [] w h = h
remove_rows-Tracks (key ∷ keys) w h =
    remove_rows-Tracks keys (remove_row key (get key w.cache) w)
      (remove_row-Tracks key (get key w.cache) w refl h)

pub begin_writing-Tracks : (t : Tables) → IsAccurate t → Tracks (begin_writing t)
unfolding begin_writing
begin_writing-Tracks t h = (
  omega arith,
  omega arith,
  record {
    bytes_counted = omega (arith, h.bytes_counted);
    rows_counted = omega (arith, h.rows_counted);
    indexed = h.indexed;
    distinct = h.distinct;
    below = h.below;
  },
)

-- A scan of the rows counts them.
pub scan-Tracks : (rows : Rows) → DistinctKeys rows → Tracks (record (scan rows) { cache = rows })
unfolding scan insert_entry
scan-Tracks [] d = (
  omega arith,
  omega arith,
  record { bytes_counted = refl; rows_counted = refl; indexed = refl; distinct = tt; below = tt },
)
scan-Tracks ((key, bytes) ∷ rows) d =
    let (le, lc, h) = scan-Tracks rows d.1 in
    (
      omega (arith, le),
      omega (arith, lc),
      record {
        bytes_counted = omega (arith, le, h.bytes_counted);
        rows_counted = omega (arith, lc, h.rows_counted);
        indexed =
            ap (λ index. (decode_last_seq bytes, key) ∷ index)
              (ap (remove_entry (decode_last_seq bytes, key)) h.indexed
                ∙ remove_entry-absent (decode_last_seq bytes) key rows d.0);
        distinct = d;
        below = (
          omega arith,
          All-mono (λ (e : String × List ℕ). decode_last_seq e.1 ≤ (scan rows).max_seq)
              (λ (e : String × List ℕ).
                decode_last_seq e.1 ≤ max (decode_last_seq bytes) (scan rows).max_seq)
              (λ e b. omega (arith, b)) rows h.below,
        );
      },
    )

-- The summary of what was tracked is written, if it fits its fields.
pub write_summary-Tracks :
    (w : Writing)
    → Tracks w
    → byte_total w.cache ≤ u64_max
    → length w.cache ≤ u64_max
    → write_summary w
      ≡ some (record {
        total_bytes = byte_total w.cache;
        entry_count = length w.cache;
        max_seq = w.max_seq;
      })
unfolding write_summary try_from
write_summary-Tracks w (le, lc, h) small few =
    ground (arith, le, lc, h.bytes_counted, h.rows_counted, small, few)
