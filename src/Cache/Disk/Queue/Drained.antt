-- ===== src/Cache/Disk/Queue/Drained.antt =====
-- The queue of daemon/src/cache/disk.rs while the database commits and no backoff is in force: what a key
-- reads after an insert, and after a flush.
use import_lens.Prelude.{
  ℕ, ◌≤◌, ◌<◌, ◌≡◌, refl, subst, sym, ap, ◌∙◌, String, true, false, ◌&&◌, List, [], ◌∷◌, Option,
  none, some, leb, ◌==◌, if◌then◌else◌, if_cases, length, get, insert, ite, text_dec, arith,
  DistinctKeys, insert-DistinctKeys, get-insert, get-absent, length-insert-le,
}
use import_lens.Cache.Disk.{Rows, Tables, write_pending_inserts, begin_writing, write_rows}
use import_lens.Cache.Disk.Meaning.{insert_all, write_rows-cache, end_writing-cache}
use import_lens.Cache.Disk.Queue.{
  DiskCache, Pending, max_pending_inserts, insert_flush_batch, kept_of, write_kept, flush_open,
  flush_pending_inserts, flush_if_due, write_at_generation, shed_oldest_pending_inserts,
  pending_insert, read_entry,
}

-- The committed bytes of a key.
abbrev pub committed_at : String → Option Tables → Option (List ℕ)
committed_at key none = none
committed_at key (some t) = get key t.cache

-- The bytes that a key has in the queue under the generation, or else in the rows.
found : String → ℕ → Pending → Rows → Option (List ℕ)
found key generation m rows = elim (get key m) [
  | none ↦ get key rows
  | some (g, bytes) ↦ if g == generation then some bytes else get key rows
]

-- The kept part of the queue, written over the rows, has the bytes of each key.
kept_of-found :
    (key : String) (generation : ℕ) (m : Pending) (rows : Rows)
    → DistinctKeys m
    → get key (insert_all (kept_of generation m) rows) ≡ found key generation m rows
unfolding kept_of insert_all found get
kept_of-found key generation [] rows d = refl
kept_of-found key generation ((j, (g, bytes)) ∷ m) rows d = ground (
  arith,
  kept_of-found key generation m rows d.1,
  kept_of-found key generation m (insert j bytes rows) d.1,
  get-insert j key bytes rows,
  get-absent j m d.0,
)

read_entry-found :
    (key : String) (d : DiskCache) (t : Tables)
    → d.db ≡ some t
    → read_entry key d ≡ found key d.clear_generation d.pending_inserts t.cache
unfolding read_entry pending_insert found
read_entry-found key d t e = rw e (ground arith)

-- The database is open, no backoff is in force, and the queue is not full.
pub record IsCalm (now : ℕ) (d : DiskCache) : Type 0 where
  pub tables : Tables
  pub opened : d.db ≡ some tables
  pub due : d.flush_retry_after ≤ now
  pub room : length d.pending_inserts < max_pending_inserts
  pub distinct : DistinctKeys d.pending_inserts

-- What a flush makes of a calm queue: it is empty, and every key reads as before, from the rows.
pub record IsDrained (now : ℕ) (d d' : DiskCache) : Type 0 where
  pub tables : Tables
  pub opened : d'.db ≡ some tables
  pub due : d'.flush_retry_after ≤ now
  pub emptied : d'.pending_inserts ≡ []
  pub same_generation : d'.clear_generation ≡ d.clear_generation
  pub reads : (key : String) → get key tables.cache ≡ read_entry key d

pub flush_pending_inserts-IsDrained :
    (now : ℕ) (d : DiskCache) (t : Tables)
    → d.db ≡ some t
    → d.flush_retry_after ≤ now
    → DistinctKeys d.pending_inserts
    → IsDrained now d (flush_pending_inserts true now d)
unfolding flush_pending_inserts flush_open write_kept insert_all
flush_pending_inserts-IsDrained now d t opened due distinct =
    subst (λ o. IsDrained now d (flush_open true now o d)) (sym opened)
      (go (kept_of d.clear_generation d.pending_inserts) (λ key.
        kept_of-found key d.clear_generation d.pending_inserts t.cache distinct
        ∙ sym (read_entry-found key d t opened)))
  where
    written : (kept : Rows) → (write_pending_inserts kept t).cache ≡ insert_all kept t.cache
    written kept =
        end_writing-cache t (write_rows kept (begin_writing t))
        ∙ write_rows-cache kept (begin_writing t)

    go :
        (kept : Rows)
        → ((key : String) → get key (insert_all kept t.cache) ≡ read_entry key d)
        → IsDrained now d (write_kept true now kept t (record d { pending_inserts = [] }))
    go [] h = record {
      tables = t;
      opened = opened;
      due = due;
      emptied = refl;
      same_generation = refl;
      reads = h;
    }
    go (row ∷ kept) h = record {
      tables = write_pending_inserts (row ∷ kept) t;
      opened = refl;
      due = omega arith;
      emptied = refl;
      same_generation = refl;
      reads = λ key. ap (get key) (written (row ∷ kept)) ∙ h key;
    }

-- A drained queue is calm, and reads like the one before.
drained-IsCalm : (now : ℕ) (d d' : DiskCache) → IsDrained now d d' → IsCalm now d'
drained-IsCalm now d d' h = record {
  tables = h.tables;
  opened = h.opened;
  due = h.due;
  room = rw h.emptied (omega arith);
  distinct = rw h.emptied tt;
}

drained-read :
    (now : ℕ) (d d' : DiskCache)
    → IsDrained now d d'
    → (key : String) → read_entry key d' ≡ read_entry key d
unfolding found get
drained-read now d d' h key = read_entry-found key d' h.tables h.opened ∙ rw h.emptied (h.reads key)

-- What a write under the current generation makes of a calm queue.
pub record IsWritten (now : ℕ) (j : String) (bytes : List ℕ) (d d' : DiskCache) : Type 0 where
  pub calm : IsCalm now d'
  pub same_generation : d'.clear_generation ≡ d.clear_generation
  pub reads :
      (key : String) → read_entry key d' ≡ ite (text_dec j key) (some bytes) (read_entry key d)

shed-room : (m : Pending) → length m ≤ max_pending_inserts → shed_oldest_pending_inserts m ≡ m
unfolding shed_oldest_pending_inserts
shed-room m h = ground arith

-- The queue with the insert, before the flush that may be due.
queued : String → List ℕ → DiskCache → DiskCache
queued j bytes d = record d {
  pending_inserts = insert j (d.clear_generation, bytes) d.pending_inserts;
}

queued-read :
    (now : ℕ) (j : String) (bytes : List ℕ) (d : DiskCache)
    → IsCalm now d
    → (key : String)
    → read_entry key (queued j bytes d) ≡ ite (text_dec j key) (some bytes) (read_entry key d)
unfolding queued found
queued-read now j bytes d c key =
    read_entry-found key (queued j bytes d) c.tables c.opened
    ∙ rw (read_entry-found key d c.tables c.opened)
        (ground (arith, get-insert j key (d.clear_generation, bytes) d.pending_inserts))

flush_if_due-IsWritten :
    (now : ℕ) (j : String) (bytes : List ℕ) (d : DiskCache)
    → IsCalm now d
    → IsWritten now j bytes d (flush_if_due true now (queued j bytes d))
unfolding flush_if_due queued
flush_if_due-IsWritten now j bytes d c =
    if_cases (IsWritten now j bytes d)
      (leb insert_flush_batch (length (queued j bytes d).pending_inserts)
        && leb d.flush_retry_after now)
      _ _ (λ _. flushed) kept
  where
    distinct : DistinctKeys (queued j bytes d).pending_inserts
    distinct = insert-DistinctKeys j (d.clear_generation, bytes) d.pending_inserts c.distinct

    drained : IsDrained now (queued j bytes d) (flush_pending_inserts true now (queued j bytes d))
    drained =
        flush_pending_inserts-IsDrained now (queued j bytes d) c.tables c.opened c.due distinct

    flushed : IsWritten now j bytes d (flush_pending_inserts true now (queued j bytes d))
    flushed = record {
      calm = drained-IsCalm now (queued j bytes d) _ drained;
      same_generation = drained.same_generation;
      reads = λ key.
          drained-read now (queued j bytes d) _ drained key ∙ queued-read now j bytes d c key;
    }

    kept :
        (leb insert_flush_batch (length (queued j bytes d).pending_inserts)
            && leb d.flush_retry_after now)
          ≡ false
        → IsWritten now j bytes d (queued j bytes d)
    kept small = record {
      calm = record {
        tables = c.tables;
        opened = c.opened;
        due = c.due;
        room = ground (arith, small, c.due);
        distinct = distinct;
      };
      same_generation = refl;
      reads = queued-read now j bytes d c;
    }

-- A write of a calm queue under its generation is `Ok`, and the key then reads what was written.
pub write_at_generation-IsWritten :
    (now : ℕ) (j : String) (bytes : List ℕ) (generation : ℕ) (d : DiskCache)
    → IsCalm now d
    → d.clear_generation ≡ generation
    → IsWritten now j bytes d (write_at_generation true now j (some bytes) generation d).1
unfolding write_at_generation queued
write_at_generation-IsWritten now j bytes generation d c same =
    subst (λ g. IsWritten now j bytes d (write_at_generation true now j (some bytes) g d).1) same
      (rw
        (shed-room (insert j (d.clear_generation, bytes) d.pending_inserts)
          (omega (arith, length-insert-le j (d.clear_generation, bytes) d.pending_inserts, c.room)))
        (flush_if_due-IsWritten now j bytes d c))
