-- ===== src/Cache/Import/Flushed/Committed.antt =====
-- daemon/src/cache/memory.rs: what a flush leaves on the disk.
use import_lens.Prelude.{ℕ, ◌<◌, ◌≡◌, ◌⊎◌, String, true, List, some, In}
use import_lens.Cache.Disk.Queue.{DiskCache, read_entry}
use import_lens.Cache.Disk.Queue.Drained.{IsCalm}
use import_lens.Cache.Import.{CachedImport, ImportCache, World}
use import_lens.Cache.Import.Candidates.{Entry}
use import_lens.Cache.Import.Writes.{is_persistable}

module _ (w : World) (committing : w.committed ≡ true) (key : String) (cached : CachedImport)
    (bytes : List ℕ) (gated : is_persistable cached ≡ true)
    (encoded : w.encode cached ≡ some bytes) where
  abbrev Holds : DiskCache → Type 0
  Holds d = read_entry key d ≡ some bytes

  -- The disk is calm under the generation, and the key reads the bytes.
  abbrev Settled : ℕ → DiskCache → Type 0
  Settled generation d = IsCalm w.now d × (d.clear_generation ≡ generation)

  -- An entry of another key, or the entry itself.
  abbrev Apart : Entry → Type 0
  Apart x = ¬ (x.0 ≡ key) ⊎ ((x.0 ≡ key) × (x.1 ≡ cached))

  -- An insert leaves the disk settled, the bytes where they are read, and puts them there if it is the entry's.
  abbrev Kept : ℕ → String → DiskCache → DiskCache → Type 0
  Kept generation j d d' = Settled generation d' × (Holds d ⊎ (j ≡ key) → Holds d')

  -- The entry is to be written: it is dirty, or the disk was not given its latest use.
  abbrev pub Due : ImportCache → Type 0
  Due c = In key c.dirty ⊎ (cached.persisted_seq < cached.last_seq)
