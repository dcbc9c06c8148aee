-- ===== src/Pipeline/AssetBudget/Ledger.antt =====
-- The ledger of daemon/src/pipeline/asset_budget.rs over its whole life, whatever is called in whatever
-- order.
use import_lens.Prelude.{
  ℕ, ◌≡◌, inl, inr, String, Bool, List, [], ◌∷◌, some, arith, get_elem?, Option-cases,
}
use import_lens.Cache.Fingerprint.{Metadata, IoResult, ok, err}
use import_lens.Pipeline.AssetBudget.{
  AssetBudgetLimits, AssetKind, CollectedAsset, Result, done, refused, panicked, BudgetState,
  CssReadReservation, FileSystem, check_available, charge_css_snapshot, begin_css_read,
  begin_resource_read,
}
use import_lens.Pipeline.AssetBudget.Snapshot.{
  finish_read, observed_as, observe_metadata, record_failed_path,
}
use import_lens.Pipeline.AssetBudget.Calls.{
  new, Ledger, Call, check, charge, begin_css, begin_resource, finish, abandon, observe, fail,
  spell, remove_at, began, finish_open, call, calls, started,
}
use import_lens.Pipeline.AssetBudget.Totals.{
  reserved, reserved-remove_at, reserved-remove_at-le, All-remove_at, All-get_elem?,
}
use import_lens.Pipeline.AssetBudget.Bounds.{
  AreFinite, Known, Sound, Ensures, check_available-Sound, charge_css_snapshot-Sound,
  begin_css_read-Sound, begin_resource_read-Sound,
}
use import_lens.Pipeline.AssetBudget.Start.{new-Sound}
use import_lens.Pipeline.AssetBudget.Finish.{finish_read-Sound}

module _ (limits : AssetBudgetLimits) (graph_source_bytes : ℕ) where
  abbrev LedgerSound : Ledger → Type 0
  LedgerSound l = Sound limits graph_source_bytes l.open_reads l.state

  module _ (finite : AreFinite limits) (fs : FileSystem) where
    after :
        {A : Type 0} (open_reads : List CssReadReservation) (m : Result A × BudgetState)
        → Ensures limits graph_source_bytes
            (Sound limits graph_source_bytes open_reads)
            (λ _ s. Sound limits graph_source_bytes open_reads s)
            m
        → Sound limits graph_source_bytes open_reads m.1
    after open_reads (done a, s) h = h
    after open_reads (refused e, s) h = h
    after open_reads (panicked, s) h = absurd h

    began-Sound :
        (open_reads : List CssReadReservation) (m : Result CssReadReservation × BudgetState)
        → Ensures limits graph_source_bytes
            (Sound limits graph_source_bytes open_reads)
            (λ r s. Sound limits graph_source_bytes (r ∷ open_reads) s)
            m
        → LedgerSound (began open_reads m)
    began-Sound open_reads (done a, s) h = h
    began-Sound open_reads (refused e, s) h = h
    began-Sound open_reads (panicked, s) h = absurd h

    -- The open reads without the one at a place, and with it at their head.
    without :
        (i : ℕ) (rs : List CssReadReservation) (s : BudgetState)
        → Sound limits graph_source_bytes rs s
        → Sound limits graph_source_bytes (remove_at i rs) s
    without i rs s h = record {
      reads_within = h.reads_within;
      work_within = h.work_within;
      reserved_within = omega (arith, h.reserved_within, reserved-remove_at-le i rs);
      files_within = h.files_within;
      total = h.total;
      distinct = h.distinct;
      known = All-remove_at (Known s.unique_files) i rs h.known;
    }

    at_head :
        (i : ℕ) (rs : List CssReadReservation) (r : CssReadReservation) (s : BudgetState)
        → get_elem? rs i ≡ some r
        → Sound limits graph_source_bytes rs s
        → Sound limits graph_source_bytes (r ∷ remove_at i rs) s
    unfolding reserved
    at_head i rs r s e h = record {
      reads_within = h.reads_within;
      work_within = h.work_within;
      reserved_within = omega (arith, h.reserved_within, reserved-remove_at i rs r e);
      files_within = h.files_within;
      total = h.total;
      distinct = h.distinct;
      known = (
        All-get_elem? (Known s.unique_files) i rs r h.known e,
        All-remove_at (Known s.unique_files) i rs h.known,
      );
    }

    finish_open-Sound :
        (i : ℕ) (rs : List CssReadReservation) (expired : Bool) (kind : AssetKind) (bytes : List ℕ)
        (s : BudgetState)
        → Sound limits graph_source_bytes rs s
        → Sound limits graph_source_bytes
            (remove_at i rs)
            (finish_open limits fs expired (get_elem? rs i) kind bytes s)
    unfolding finish_open
    finish_open-Sound i rs expired kind bytes s h = elim (Option-cases (get_elem? rs i)) [
      | inl e ↦ rw (e, finish_open) (without i rs s h)
      | inr (r, e) ↦
          rw (e, finish_open)
            (after (remove_at i rs) (finish_read limits fs expired r kind bytes s) (
              finish_read-Sound limits graph_source_bytes finite fs (remove_at i rs) r expired kind
                bytes s (at_head i rs r s e h)))
    ]

    observe_metadata-Sound :
        (rs : List CssReadReservation) (path : String) (s : BudgetState)
        → Sound limits graph_source_bytes rs s
        → Sound limits graph_source_bytes rs (observe_metadata limits fs path s).1
    unfolding observe_metadata record_failed_path
    observe_metadata-Sound rs path s h = go (fs.metadata path)
      where
        go :
            (o : IoResult Metadata)
            → Sound limits graph_source_bytes rs (observed_as limits fs path o s).1
        go (ok m) = h
        go (err kind) = h

    call-Sound : (c : Call) (l : Ledger) → LedgerSound l → LedgerSound (call limits fs c l)
    unfolding call record_failed_path
    call-Sound (check expired) l h =
        after l.open_reads (check_available expired l.state)
          (check_available-Sound limits graph_source_bytes l.open_reads expired l.state h)
    call-Sound (charge expired asset) l h =
        after l.open_reads (charge_css_snapshot limits fs expired asset l.state) (
          charge_css_snapshot-Sound limits graph_source_bytes finite fs l.open_reads expired asset
            l.state h)
    call-Sound (begin_css expired path metadata) l h =
        began-Sound l.open_reads (begin_css_read limits fs expired path metadata l.state) (
          begin_css_read-Sound limits graph_source_bytes finite fs l.open_reads expired path
            metadata l.state h)
    call-Sound (begin_resource expired path metadata) l h =
        began-Sound l.open_reads (begin_resource_read limits fs expired path metadata l.state) (
          begin_resource_read-Sound limits graph_source_bytes finite fs l.open_reads expired path
            metadata l.state h)
    call-Sound (finish expired i kind bytes) l h =
        finish_open-Sound i l.open_reads expired kind bytes l.state h
    call-Sound (abandon i) l h = without i l.open_reads l.state h
    call-Sound (observe path) l h = observe_metadata-Sound l.open_reads path l.state h
    call-Sound (fail path kind) l h = h
    call-Sound (spell requested path) l h = h

    calls-keep : (cs : List Call) (l : Ledger) → LedgerSound l → LedgerSound (calls limits fs cs l)
    unfolding calls
    calls-keep [] l h = h
    calls-keep (c ∷ cs) l h = calls-keep cs (call limits fs c l) (call-Sound c l h)

    -- Whatever is called on a ledger from its start, in whatever order and by however many threads: the
    -- work is within its limits, and covers what the open reads have reserved; the files and their bytes
    -- are within theirs, unless a breach was recorded; each open read has a charged path; and the bytes
    -- are those of the graph and what each file is charged, one charge for a path.
    pub calls-Sound :
        (paths : List String) (assets : List CollectedAsset) (cs : List Call)
        → let l = calls limits fs cs (started (new limits graph_source_bytes paths assets)) in
          Sound limits graph_source_bytes l.open_reads l.state
    calls-Sound paths assets cs =
        calls-keep cs (started (new limits graph_source_bytes paths assets))
          (new-Sound limits graph_source_bytes paths assets)

    -- So the end of an open read never panics: the work has its reservation, and the ledger its path.
    pub finish_read-ne-panicked :
        (paths : List String) (assets : List CollectedAsset) (cs : List Call) (i : ℕ)
        (r : CssReadReservation) (expired : Bool) (kind : AssetKind) (bytes : List ℕ)
        → let l = calls limits fs cs (started (new limits graph_source_bytes paths assets)) in
          get_elem? l.open_reads i ≡ some r
          → ¬ ((finish_read limits fs expired r kind bytes l.state).0 ≡ panicked)
    finish_read-ne-panicked paths assets cs i r expired kind bytes e =
        never (λ s'. Sound limits graph_source_bytes (remove_at i l.open_reads) s')
          (finish_read limits fs expired r kind bytes l.state)
          (finish_read-Sound limits graph_source_bytes finite fs (remove_at i l.open_reads) r
            expired kind bytes l.state
            (at_head i l.open_reads r l.state e (calls-Sound paths assets cs)))
      where
        l : Ledger
        l = calls limits fs cs (started (new limits graph_source_bytes paths assets))

        never :
            (P : BudgetState → Type 0) (m : Result CollectedAsset × BudgetState)
            → Ensures limits graph_source_bytes P (λ _ s'. P s') m
            → ¬ (m.0 ≡ panicked)
        never P (done a, s) h q = cc
        never P (refused e, s) h q = cc
        never P (panicked, s) h q = h
