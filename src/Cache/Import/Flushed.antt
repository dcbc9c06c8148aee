-- ===== src/Cache/Import/Flushed.antt =====
-- daemon/src/cache/memory.rs: what a flush leaves in memory.
pub mod Committed
use import_lens.Prelude.{
  ℕ, ◌≤◌, ◌≡◌, ◌⊎◌, inl, inr, refl, sym, ap₂, String, Bool, true, false, ◌&&◌, List, [], ◌∷◌,
  Option, none, some, ltb, ltb→le, if◌then◌else◌, if_cases, get, contains, All, In, here, there,
  arith, text_dec,
}
use import_lens.Cache.Disk.{Tables}
use import_lens.Cache.Disk.Queue.{DiskCache, insert_at_generation, insert_open, write_at_generation}
use import_lens.Cache.Import.{CachedImport, ImportCache, World}
use import_lens.Cache.Import.Candidates.{Entry}
use import_lens.Cache.Import.Writes.{Memory, insert_on_disk, is_persistable}
use import_lens.Cache.Import.Sweeps.{is_empty, replay, persisted, persist_promoted, flush_to_disk}

-- The entry's latest use is marked as given to the disk.
abbrev pub Persisted : Entry → Type 0
Persisted (key, cached) = cached.last_seq ≤ cached.persisted_seq

pub get-In :
    (key : String) (cached : CachedImport) (m : Memory)
    → get key m ≡ some cached
    → In (key, cached) m
unfolding get
get-In key cached [] e = absurd (cc)
get-In key cached ((j, v) ∷ m) e = elim (text_dec j key) [
  | yes same ↦ here (ap₂ (λ (k : String) (x : CachedImport). (k, x)) (sym same) (first same))
  | no other ↦ there (get-In key cached m (rest other))
]
  where
    first : j ≡ key → cached ≡ v
    first same = ground arith

    rest : ¬ (j ≡ key) → get key m ≡ some cached
    rest other = ground arith

module _ (w : World) where
  -- The memory has an entry that the encoder fails on.
  abbrev pub Unencodable : Memory → Type 0
  Unencodable m = (x : Entry) × In x m × (w.encode x.1 ≡ none)

  insert_on_disk-fails :
      (key : String) (cached : CachedImport) (generation : ℕ) (d : DiskCache)
      → (insert_on_disk w key cached generation d).0 ≡ false
      → w.encode cached ≡ none
  unfolding insert_at_generation insert_open write_at_generation
  insert_on_disk-fails key cached generation d = go (is_persistable cached) (w.encode cached) d.db
    where
      go :
          (durable : Bool) (o : Option (List ℕ)) (t : Option Tables)
          → (insert_open w.committed w.now durable key o generation t d).0 ≡ false
          → o ≡ none
      go durable o none e = absurd (cc)
      go false o (some t) e = absurd (cc)
      go true none (some t) e = refl
      go true (some bytes) (some t) e = absurd (cc)

  -- One entry of the sweep before the rest of it.
  swept :
      (promoted ok : Bool) (key : String) (cached : CachedImport) (rest : Bool)
      (memory after : Memory)
      → promoted ≡ ltb cached.persisted_seq cached.last_seq
      → (ok ≡ false → w.encode cached ≡ none)
      → (((rest ≡ false) × Unencodable memory) ⊎ All Persisted after)
      → ((((if promoted then ok else true) && rest) ≡ false) × Unencodable ((key, cached) ∷ memory))
        ⊎ (Persisted (key, if promoted then persisted w ok cached else cached)
            × All Persisted after)
  swept true false key cached rest m after e fails h =
      inl (refl, ((key, cached), here refl, fails refl))
  swept true true key cached rest m after e fails (inl (f, (x, i, n))) = inl (f, (x, there i, n))
  swept true true key cached rest m after e fails (inr all) = inr (omega arith, all)
  swept false ok key cached rest m after e fails (inl (f, (x, i, n))) = inl (f, (x, there i, n))
  swept false ok key cached rest m after e fails (inr all) =
      inr (ltb→le cached.persisted_seq cached.last_seq (sym e), all)

  persist_promoted-Persisted :
      (generation : ℕ) (memory : Memory) (d : DiskCache)
      → (((persist_promoted w generation [] memory d).0 ≡ false) × Unencodable memory)
        ⊎ All Persisted (persist_promoted w generation [] memory d).1
  unfolding persist_promoted contains
  persist_promoted-Persisted generation [] d = inr tt
  persist_promoted-Persisted generation ((key, cached) ∷ memory) d =
      let promoted = ltb cached.persisted_seq cached.last_seq in
      let inserted = insert_on_disk w key cached generation d in
      let rest = persist_promoted w generation [] memory (if promoted then inserted.1 else d) in
      swept promoted inserted.0 key cached rest.0 memory rest.1 refl
        (insert_on_disk-fails key cached generation d)
        (persist_promoted-Persisted generation memory (if promoted then inserted.1 else d))

  abbrev Fails : Memory → String → Type 0
  Fails memory key = Unencodable memory

  -- A key is dirty again only because the encoder fails on its entry.
  replay-Fails :
      (generation : ℕ) (dirty : List String) (memory : Memory) (d : DiskCache)
      → All (Fails memory) (replay w generation dirty memory d).0
  unfolding replay
  replay-Fails generation [] memory d = tt
  replay-Fails generation (key ∷ dirty) memory d =
      by_entry (replay-Fails generation dirty memory) (get key memory) refl
    where
      by_entry :
          ((d' : DiskCache) → All (Fails memory) (replay w generation dirty memory d').0)
          → (o : Option CachedImport) → get key memory ≡ o
          → All
              (Fails memory)
              (elim o as (λ _. List String × DiskCache) [
                | none ↦ replay w generation dirty memory d
                | some cached ↦
                    let r = insert_on_disk w key cached generation d in
                    let rest = replay w generation dirty memory r.1 in
                    (if r.0 then rest.0 else key ∷ rest.0, rest.1)
              ]).0
      by_entry ih none e = ih d
      by_entry ih (some cached) e =
          if_cases (All (Fails memory)) (insert_on_disk w key cached generation d).0 _ _ (λ _. ih _)
            (λ f. (
              (
                (key, cached),
                get-In key cached memory e,
                insert_on_disk-fails key cached generation d f,
              ),
              ih _,
            ))

  -- A flush reports an error, and then the encoder fails on an entry of the memory; or it leaves no dirty key
  -- and no entry whose latest use is not marked as given to the disk.
  pub flush_to_disk-Persisted :
      (c : ImportCache)
      → (((flush_to_disk w c).0 ≡ false) × Unencodable c.memory)
        ⊎ (((flush_to_disk w c).1.dirty ≡ []) × All Persisted (flush_to_disk w c).1.memory)
  unfolding flush_to_disk
  flush_to_disk-Persisted c =
      go (replay w c.disk.clear_generation c.dirty c.memory c.disk)
        (replay-Fails c.disk.clear_generation c.dirty c.memory c.disk)
    where
      go :
          (r : List String × DiskCache)
          → All (Fails c.memory) r.0
          → (let p = persist_promoted w c.disk.clear_generation r.0 c.memory r.1 in
              (((is_empty r.0 && p.0) ≡ false) × Unencodable c.memory)
              ⊎ ((r.0 ≡ []) × All Persisted p.1))
      go (key ∷ failed, d) h = inl (refl, h.0)
      go ([], d) h = elim (persist_promoted-Persisted c.disk.clear_generation c.memory d) [
        | inl e ↦ inl e
        | inr all ↦ inr (refl, all)
      ]
