-- ===== src/Cache/Import/OnDisk.antt =====
-- daemon/src/cache/disk.rs: what a read of the `ImportCache` gets from the disk cache, an entry made of a row's
-- bytes under a new `Arc`.
use import_lens.Prelude.{
  ℕ, suc, String, false, ◌&&◌, List, Option, none, some, if◌then◌else◌, ltb, length, get, drop, ite,
  text_dec,
}
use import_lens.Cache.Fingerprint.{
  Freshness, fresh, gone, stale, unknown, fingerprints_are_reusable,
}
use import_lens.Cache.Recency.{observe}
use import_lens.Cache.Memory.{never}
use import_lens.Cache.Disk.{decode_last_seq}
use import_lens.Cache.Disk.Queue.{pending_insert}
use import_lens.Cache.Import.{
  CachedImport, ImportCache, CacheEnvelope, World, remove_from_disk, key_is_first_party, check_now,
}

abbrev seq_prefix_len : ℕ
seq_prefix_len = 8

module _ (w : World) where
  -- The envelope, if it was written by the same analyzer.
  unfoldable pub of_this_version : Option CacheEnvelope → Option CacheEnvelope
  of_this_version none = none
  of_this_version (some envelope) =
      ite (text_dec envelope.analyzer_version w.analyzer_version) (some envelope) none

  unfoldable pub decode_cached_result : List ℕ → ImportCache → Option CachedImport × ImportCache
  unfolding observe of_this_version
  decode_cached_result bytes c =
      if ltb (length bytes) seq_prefix_len
      then (none, c)
      else elim (of_this_version (w.decode (drop seq_prefix_len bytes))) [
        | none ↦ (none, c)
        | some envelope ↦ (
          some (record {
            result = record envelope.result {
              internal_contributions = envelope.full_contributions;
            };
            dependency_fingerprints = envelope.dependency_fingerprints;
            verification = never;
            last_seq = decode_last_seq bytes;
            persisted_seq = decode_last_seq bytes;
            first_party = false;
            identity = c.next_identity;
          }),
          record c {
            clock = observe (decode_last_seq bytes) c.clock;
            next_identity = suc c.next_identity;
          },
        )
      ]

  -- Undecodable rows and those that are not durable are evicted as they are read.
  unfoldable pub accept_committed :
      String → Option CachedImport × ImportCache → Option CachedImport × ImportCache
  unfolding remove_from_disk
  accept_committed key (none, c) = (none, remove_from_disk w key c)
  accept_committed key (some cached, c) =
      if cached.result.is_durable && fingerprints_are_reusable cached.dependency_fingerprints
      then (some cached, c)
      else (none, remove_from_disk w key c)

  unfoldable pub read_committed : String → ImportCache → Option CachedImport × ImportCache
  unfolding accept_committed decode_cached_result
  read_committed key c = elim c.disk.db [
    | none ↦ (none, c)
    | some t ↦ elim (get key t.cache) [
      | none ↦ (none, c)
      | some bytes ↦ accept_committed key (decode_cached_result bytes c)
    ]
  ]

  -- A queued row is served without the durability gate, which it passed on the way in.
  unfoldable pub find_entry : String → ImportCache → Option CachedImport × ImportCache
  unfolding read_committed decode_cached_result
  find_entry key c = elim (pending_insert key c.disk) [
    | none ↦ read_committed key c
    | some bytes ↦ elim (decode_cached_result bytes c).0 [
      | none ↦ read_committed key c
      | some cached ↦ (some cached, (decode_cached_result bytes c).1)
    ]
  ]

  unfoldable pub keep_if_valid :
      String
      → Freshness
      → CachedImport
      → ImportCache
      → Option (CachedImport × Freshness) × ImportCache
  unfolding remove_from_disk
  keep_if_valid key stale cached c = (none, remove_from_disk w key c)
  keep_if_valid key gone cached c = (none, remove_from_disk w key c)
  keep_if_valid key fresh cached c = (some (cached, fresh), c)
  keep_if_valid key unknown cached c = (some (cached, unknown), c)

  unfoldable pub keep_found :
      String → Option CachedImport × ImportCache → Option (CachedImport × Freshness) × ImportCache
  unfolding keep_if_valid key_is_first_party check_now
  keep_found key (none, c) = (none, c)
  keep_found key (some cached, c) =
      keep_if_valid key (check_now w cached.dependency_fingerprints)
        (record cached { first_party = key_is_first_party w key }) c

  unfoldable pub get_entry : String → ImportCache → Option (CachedImport × Freshness) × ImportCache
  unfolding find_entry keep_found
  get_entry key c = keep_found key (find_entry key c)
