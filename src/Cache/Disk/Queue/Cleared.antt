-- ===== src/Cache/Disk/Queue/Cleared.antt =====
-- A clear of daemon/src/cache/disk.rs against the inserts that were under way.
use import_lens.Prelude.{
  ℕ, suc, ◌-◌, ◌≡◌, ◌⊎◌, inl, inr, refl, sym, subst, ◌∙◌, String, Bool, true, false, ◌&&◌, List, [],
  ◌∷◌, Option, none, some, leb, ◌==◌, if◌then◌else◌, length, take, insert, remove, contains_key,
  All, All-remove, All-insert, In, here, there, if_cases, ==_iff, arith, Bool-cases,
}
use import_lens.Cache.Disk.{
  Rows, Tables, begin_writing, write_rows, remove_rows, write_pending_inserts, maintain_removals,
}
use import_lens.Cache.Disk.Meaning.{
  insert_all, remove_all, write_rows-cache, end_writing-cache, remove_rows-cache,
}
use import_lens.Cache.Disk.Queue.{
  max_pending_inserts, insert_flush_batch, flush_open, insert_open, remove_open, cleared_db,
  Pending, DiskCache, by_recency, remove_each, shed_oldest_pending_inserts, kept_of, requeue,
  write_kept, flush_pending_inserts, flush_if_due, write_at_generation, insert_at_generation,
  remove_pending, remove_keys, clear, DiskCall, insert_call, flush_call, remove_call, disk_call,
  disk_calls,
}

-- The keys and bytes of the calls that insert with the generation.
pub inserted_at : ℕ → List DiskCall → Rows
inserted_at generation [] = []
inserted_at generation (insert_call _ _ _ key (some bytes) tag ∷ cs) =
    let rest = inserted_at generation cs in if tag == generation then (key, bytes) ∷ rest else rest
inserted_at generation (_ ∷ cs) = inserted_at generation cs

module _ (generation : ℕ) (P : String × List ℕ → Type 0) where
  -- A queued insert of the generation, or of another one.
  abbrev Allowed : String × (ℕ × List ℕ) → Type 0
  Allowed (key, (tag, bytes)) = ¬ (tag ≡ generation) ⊎ P (key, bytes)

  abbrev TableHolds : Option Tables → Type 0
  TableHolds none = Unit
  TableHolds (some t) = All P t.cache

  pub record Holds (d : DiskCache) : Type 0 where
    pub same : d.clear_generation ≡ generation
    pub table : TableHolds d.db
    pub queued : All Allowed d.pending_inserts

  remove_each-All :
      (es : List (ℕ × String)) (p : Pending) → All Allowed p → All Allowed (remove_each es p)
  unfolding remove_each
  remove_each-All [] p h = h
  remove_each-All ((seq, key) ∷ es) p h =
      remove_each-All es (remove key p) (All-remove Allowed key p h)

  shed-All : (p : Pending) → All Allowed p → All Allowed (shed_oldest_pending_inserts p)
  unfolding shed_oldest_pending_inserts
  shed-All p h = elim (Bool-cases (leb (length p) max_pending_inserts)) [
    | inl few ↦ rw few h
    | inr many ↦ rw many (
        remove_each-All
          (take (length p - (max_pending_inserts - insert_flush_batch)) (by_recency p)) p h)
  ]

  remove_pending-All :
      (keys : List String) (p : Pending) → All Allowed p → All Allowed (remove_pending keys p)
  unfolding remove_pending
  remove_pending-All [] p h = h
  remove_pending-All (key ∷ keys) p h =
      remove_pending-All keys (remove key p) (All-remove Allowed key p h)

  kept_of-All : (p : Pending) → All Allowed p → All P (kept_of generation p)
  unfolding kept_of
  kept_of-All [] h = tt
  kept_of-All ((key, (tag, bytes)) ∷ p) h =
      if_cases (All P) (tag == generation) _ _
        (λ e. (
          (elim h.0 [ inl other ↦ absurd (other ((==_iff tag generation).0 e)) | inr p ↦ p ]),
          kept_of-All p h.1,
        ))
        (λ _. kept_of-All p h.1)

  requeue-All :
      (kept : Rows) (current : Pending)
      → All P kept
      → All Allowed current
      → All Allowed (requeue generation kept current)
  unfolding requeue
  requeue-All [] current hk hc = hc
  requeue-All ((key, bytes) ∷ kept) current hk hc = requeue-All kept _ hk.1 (
      if_cases (All Allowed) (contains_key key current) current _ (λ _. hc)
        (λ _. All-insert Allowed key (generation, bytes) current (inr hk.0) hc))

  insert_all-All :
      (pending rows : Rows) → All P pending → All P rows → All P (insert_all pending rows)
  unfolding insert_all
  insert_all-All [] rows hp h = h
  insert_all-All ((key, bytes) ∷ pending) rows hp h =
      insert_all-All pending (insert key bytes rows) hp.1 (All-insert P key bytes rows hp.0 h)

  remove_all-All : (keys : List String) (rows : Rows) → All P rows → All P (remove_all keys rows)
  unfolding remove_all
  remove_all-All [] rows h = h
  remove_all-All (key ∷ keys) rows h =
      remove_all-All keys (remove key rows) (All-remove P key rows h)

  written-All :
      (pending : Rows) (t : Tables)
      → All P pending
      → All P t.cache
      → All P (write_pending_inserts pending t).cache
  unfolding write_pending_inserts begin_writing
  written-All pending t hp h =
      subst (All P)
        (sym (
          end_writing-cache t (write_rows pending (begin_writing t))
          ∙ write_rows-cache pending (begin_writing t)))
        (insert_all-All pending t.cache hp h)

  removed-All :
      (keys : List String) (t : Tables) → All P t.cache → All P (maintain_removals keys t).1.cache
  unfolding maintain_removals begin_writing
  removed-All keys t h =
      subst (All P)
        (sym (
          end_writing-cache t (remove_rows keys (begin_writing t))
          ∙ remove_rows-cache keys (begin_writing t)))
        (remove_all-All keys t.cache h)

  write_kept-Holds :
      (committed : Bool) (now : ℕ) (kept : Rows) (t : Tables) (d : DiskCache)
      → All P kept
      → All P t.cache
      → Holds d
      → Holds (write_kept committed now kept t d)
  unfolding write_kept
  write_kept-Holds committed now [] t d hk ht h = h
  write_kept-Holds true now (row ∷ kept) t d hk ht h = record {
    same = h.same;
    table = written-All (row ∷ kept) t hk ht;
    queued = h.queued;
  }
  write_kept-Holds false now (row ∷ kept) t d hk ht h = record {
    same = h.same;
    table = h.table;
    queued = shed-All _ (
        subst (λ g. All Allowed (requeue g (row ∷ kept) d.pending_inserts)) (sym h.same)
          (requeue-All (row ∷ kept) d.pending_inserts hk h.queued));
  }

  flush-Holds :
      (committed : Bool) (now : ℕ) (d : DiskCache)
      → Holds d
      → Holds (flush_pending_inserts committed now d)
  unfolding flush_pending_inserts
  flush-Holds committed now d h = go d.db h.table
    where
      emptied : Holds (record d { pending_inserts = [] })
      emptied = record { same = h.same; table = h.table; queued = tt }

      go : (o : Option Tables) → TableHolds o → Holds (flush_open committed now o d)
      go none ht = h
      go (some t) ht =
          write_kept-Holds committed now (kept_of d.clear_generation d.pending_inserts) t
            (record d { pending_inserts = [] })
            (subst (λ g. All P (kept_of g d.pending_inserts)) (sym h.same)
              (kept_of-All d.pending_inserts h.queued))
            ht emptied

  flush_if_due-Holds :
      (committed : Bool) (now : ℕ) (d : DiskCache) → Holds d → Holds (flush_if_due committed now d)
  unfolding flush_if_due
  flush_if_due-Holds committed now d h =
      elim (Bool-cases
        (leb insert_flush_batch (length d.pending_inserts) && leb d.flush_retry_after now)) [
          | inl due ↦ rw due (flush-Holds committed now d h)
          | inr early ↦ rw early h
        ]

  insert-Holds :
      (committed : Bool) (now : ℕ) (durable : Bool) (key : String) (o : Option (List ℕ)) (tag : ℕ)
      (d : DiskCache)
      → ((bytes : List ℕ) → o ≡ some bytes → Allowed (key, (tag, bytes)))
      → Holds d
      → Holds (insert_at_generation committed now durable key o tag d).1
  unfolding insert_at_generation write_at_generation
  insert-Holds committed now durable key o tag d allowed h = go durable o d.db allowed
    where
      go :
          (b : Bool) (o : Option (List ℕ)) (t : Option Tables)
          → ((bytes : List ℕ) → o ≡ some bytes → Allowed (key, (tag, bytes)))
          → Holds (insert_open committed now b key o tag t d).1
      go b o none a = h
      go false o (some t) a = h
      go true none (some t) a = h
      go true (some bytes) (some t) a =
          flush_if_due-Holds committed now
            (record d {
              pending_inserts =
                  shed_oldest_pending_inserts (insert key (tag, bytes) d.pending_inserts);
            })
            (record {
              same = h.same;
              table = h.table;
              queued =
                  shed-All _
                    (All-insert Allowed key (tag, bytes) d.pending_inserts (a bytes refl) h.queued);
            })

  remove-Holds :
      (committed : Bool) (keys : List String) (d : DiskCache)
      → Holds d
      → Holds (remove_keys committed keys d).1
  unfolding remove_keys
  remove-Holds committed keys d h = go committed d.db h.table
    where
      d' : DiskCache
      d' = record d { pending_inserts = remove_pending keys d.pending_inserts }

      h' : Holds d'
      h' = record {
        same = h.same;
        table = h.table;
        queued = remove_pending-All keys d.pending_inserts h.queued;
      }

      go : (b : Bool) (o : Option Tables) → TableHolds o → Holds (remove_open b keys o d').1
      go b none ht = h'
      go false (some t) ht = h'
      go true (some t) ht = record {
        same = h.same;
        table = removed-All keys t ht;
        queued = h'.queued;
      }

  -- Each insert of the call is of another generation, or is one that `P` holds of.
  abbrev CallHolds : DiskCall → Type 0
  CallHolds (insert_call _ _ _ key (some bytes) tag) = Allowed (key, (tag, bytes))
  CallHolds _ = Unit

  disk_call-Holds : (c : DiskCall) (d : DiskCache) → CallHolds c → Holds d → Holds (disk_call c d)
  unfolding disk_call
  disk_call-Holds (insert_call committed now durable key none tag) d a h =
      insert-Holds committed now durable key none tag d (λ bytes e. absurd (cc)) h
  disk_call-Holds (insert_call committed now durable key (some bytes) tag) d a h =
      insert-Holds committed now durable key (some bytes) tag d (λ bytes' e. same_bytes bytes' e) h
    where
      same_bytes : (bytes' : List ℕ) → some bytes ≡ some bytes' → Allowed (key, (tag, bytes'))
      same_bytes bytes' e = subst (λ b. Allowed (key, (tag, b))) (cc e) a
  disk_call-Holds (flush_call committed now) d a h = flush-Holds committed now d h
  disk_call-Holds (remove_call committed keys) d a h = remove-Holds committed keys d h

  pub disk_calls-Holds :
      (cs : List DiskCall) (d : DiskCache) → All CallHolds cs → Holds d → Holds (disk_calls cs d)
  unfolding disk_calls
  disk_calls-Holds [] d a h = h
  disk_calls-Holds (c ∷ cs) d a h =
      disk_calls-Holds cs (disk_call c d) a.1 (disk_call-Holds c d a.0 h)

-- Each call's own inserts are among those of the list.
calls-Inserted :
    (generation : ℕ) (all cs : List DiskCall)
    → ((row : String × List ℕ)
        → In row (inserted_at generation cs)
        → In row (inserted_at generation all))
    → All (CallHolds generation (λ row. In row (inserted_at generation all))) cs
unfolding inserted_at
calls-Inserted generation all [] sub = tt
calls-Inserted generation all (insert_call c n b key none tag ∷ cs) sub =
    (tt, calls-Inserted generation all cs sub)
calls-Inserted generation all (insert_call c n b key (some bytes) tag ∷ cs) sub =
    elim (Bool-cases (tag == generation)) [
      | inl e ↦ (
        inr (sub (key, bytes) (rw e (here refl))),
        calls-Inserted generation all cs (λ row i. sub row (rw e (there i))),
      )
      | inr e ↦ (
        inl (λ q. absurd (ground (arith, e, q))),
        calls-Inserted generation all cs (λ row i. sub row (rw e i)),
      )
    ]
calls-Inserted generation all (flush_call c n ∷ cs) sub = (tt, calls-Inserted generation all cs sub)
calls-Inserted generation all (remove_call c ks ∷ cs) sub =
    (tt, calls-Inserted generation all cs sub)

abbrev pub rows_of : Option Tables → Rows
rows_of none = []
rows_of (some t) = t.cache

-- After a clear whose transaction was committed, whatever inserts, flushes and removals follow in whatever
-- order, every row of the shard was inserted after it by a writer that captured the generation the clear
-- left: an insert that was under way when the shard was cleared never comes back.
pub disk_clear-sticks :
    (d : DiskCache) (cs : List DiskCall)
    → All
        (λ row. In row (inserted_at (suc d.clear_generation) cs))
        (rows_of (disk_calls cs (clear true d)).db)
unfolding clear
disk_clear-sticks d cs =
    held (disk_calls cs (clear true d)).db
      (disk_calls-Holds g P cs (clear true d) (calls-Inserted g cs cs (λ row i. i)) start).table
  where
    g : ℕ
    g = suc d.clear_generation

    P : String × List ℕ → Type 0
    P row = In row (inserted_at g cs)

    empty : (o : Option Tables) → TableHolds g P (cleared_db true o)
    empty none = tt
    empty (some t) = tt

    start : Holds g P (clear true d)
    start = record { same = refl; table = empty d.db; queued = tt }

    held : (o : Option Tables) → TableHolds g P o → All P (rows_of o)
    held none h = tt
    held (some t) h = h
