-- ===== src/Cache/Import/Invalidated.antt =====
-- daemon/src/cache/memory.rs and daemon/src/cache/disk.rs: what an invalidation of packages leaves.
use import_lens.Prelude.{
  ◌≡◌, refl, ap, ◌∙◌, String, true, false, List, [], ◌∷◌, Option, none, some, if◌then◌else◌, get,
  remove, contains, arith, remove_many, keys_where, get-remove_where, codes, any,
}
use import_lens.Cache.Identity.{CacheIdentity, cache_key_matches_any_package, decode_cache_identity}
use import_lens.Cache.Disk.{Rows, Tables, maintain_removals, begin_writing, remove_rows}
use import_lens.Cache.Disk.Meaning.{remove_all, end_writing-cache, remove_rows-cache}
use import_lens.Cache.Disk.Queue.Drained.{committed_at}
use import_lens.Cache.Disk.Queue.{Pending, remove_pending}
use import_lens.Cache.Import.{ImportCache, World}
use import_lens.Cache.Import.Sweeps.{
  matches, invalidated_db, invalidate_on_disk, invalidate_packages,
}

remove_pending-many :
    (keys : List String) (m : Pending) → remove_pending keys m ≡ remove_many keys m
unfolding remove_pending remove_many
remove_pending-many [] m = refl
remove_pending-many (key ∷ keys) m = remove_pending-many keys (remove key m)

remove_all-many : (keys : List String) (m : Rows) → remove_all keys m ≡ remove_many keys m
unfolding remove_all remove_many
remove_all-many [] m = refl
remove_all-many (key ∷ keys) m = remove_all-many keys (remove key m)

removed-many :
    (keys : List String) (t : Tables)
    → (maintain_removals keys t).1.cache ≡ remove_many keys t.cache
unfolding maintain_removals begin_writing
removed-many keys t =
    end_writing-cache t (remove_rows keys (begin_writing t))
    ∙ remove_rows-cache keys (begin_writing t)
    ∙ remove_all-many keys t.cache

module _ (w : World) (committed : w.committed ≡ true) where
  committed_at-invalidated :
      (names : List String) (key : String) (o : Option Tables)
      → committed_at key (invalidated_db w names o)
        ≡ (if matches w names key then none else committed_at key o)
  unfolding matches
  committed_at-invalidated names key none = ground arith
  committed_at-invalidated names key (some t) = rw committed (
      ap (get key) (removed-many (keys_where (matches w names) t.cache) t)
      ∙ get-remove_where (matches w names) key t.cache)

  -- No key is of one of no packages.
  matches-nil : (key : String) → matches w [] key ≡ false
  unfolding matches cache_key_matches_any_package contains
  matches-nil key = go (decode_cache_identity w.to_vec w.from_slice (codes key))
    where
      go :
          (o : Option CacheIdentity)
          → (elim o [
            | some identity ↦ contains identity.package_name []
            | none ↦ any {A = String} (λ _. false) []
          ])
            ≡ false
      go none = refl
      go (some identity) = refl

  -- Where the database commits, an invalidation of packages takes the keys that match one of them out of the
  -- memory, of the queue and of the committed rows, and every other key reads in each as before.
  pub invalidate_packages-get :
      (names : List String) (key : String) (c : ImportCache)
      → (get key (invalidate_packages w names c).memory
          ≡ (if matches w names key then none else get key c.memory))
        × (get key (invalidate_packages w names c).disk.pending_inserts
            ≡ (if matches w names key then none else get key c.disk.pending_inserts))
        × (committed_at key (invalidate_packages w names c).disk.db
            ≡ (if matches w names key then none else committed_at key c.disk.db))
  unfolding invalidate_packages invalidate_on_disk
  invalidate_packages-get [] key c = rw (matches-nil key) (refl, refl, refl)
  invalidate_packages-get (name ∷ names) key c = (
    get-remove_where (matches w (name ∷ names)) key c.memory,
    ap (get key) (
          remove_pending-many (keys_where (matches w (name ∷ names)) c.disk.pending_inserts)
            c.disk.pending_inserts)
        ∙ get-remove_where (matches w (name ∷ names)) key c.disk.pending_inserts,
    committed_at-invalidated (name ∷ names) key c.disk.db,
  )
