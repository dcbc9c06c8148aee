-- ===== src/Pipeline/AssetBudget/Start.antt =====
-- The ledger of daemon/src/pipeline/asset_budget.rs at its start.
use import_lens.Prelude.{
  All-remove, ℕ, ◌+◌, ◌≤◌, ◌≡◌, ◌⊎◌, inl, inr, refl, String, true, List, [], ◌∷◌, ◌++◌, map, Option,
  ltb, length, insert, contains_key, arith, DistinctKeys, All, In, here, there, insert-DistinctKeys,
  contains_key-insert, In-append_right, Bool-cases,
}
use import_lens.Pipeline.AssetBudget.{
  AssetBudgetLimits, LimitMessage, CollectedAsset, BudgetState, record_limit,
}
use import_lens.Pipeline.AssetBudget.Calls.{
  zero_each, snapshots_of, or_insert_lengths, empty_ledger, check_files_at_start,
  check_source_at_start, new,
}
use import_lens.Pipeline.AssetBudget.Totals.{charged, charged-insert, reserved}
use import_lens.Pipeline.AssetBudget.Bounds.{Within, Sound, Breached}

-- What the files are charged at the start: nothing, since every direct asset is a file of the graph.
charged-zero_each :
    (paths : List String) → (charged (zero_each paths) ≡ 0) × DistinctKeys (zero_each paths)
unfolding charged zero_each
charged-zero_each [] = (refl, tt)
charged-zero_each (path ∷ paths) = (
  omega (
    arith,
    charged-insert path 0 (zero_each paths) (charged-zero_each paths).1,
    (charged-zero_each paths).0,
  ),
  insert-DistinctKeys path 0 (zero_each paths) (charged-zero_each paths).1,
)

In-zero_each :
    (path : String) (paths : List String)
    → In path paths
    → contains_key path (zero_each paths) ≡ true
unfolding zero_each
In-zero_each path [] i = elim i [ ]
In-zero_each path (p ∷ paths) (here e) =
    ground (arith, e, contains_key-insert p path 0 (zero_each paths))
In-zero_each path (p ∷ paths) (there i) =
    ground (arith, In-zero_each path paths i, contains_key-insert p path 0 (zero_each paths))

module _ (m : List (String × ℕ)) where
  snapshots_of-Known :
      (assets : List CollectedAsset)
      → All (λ a. contains_key a.path m ≡ true) assets
      → All (λ (e : String × CollectedAsset). contains_key e.0 m ≡ true) (snapshots_of assets)
  unfolding snapshots_of insert
  snapshots_of-Known [] h = tt
  snapshots_of-Known (a ∷ assets) h = (
    h.0,
    All-remove (λ e. contains_key e.0 m ≡ true) a.path (snapshots_of assets)
        (snapshots_of-Known assets h.1),
  )

  or_insert_lengths-Known :
      (snapshots : List (String × CollectedAsset))
      → All (λ (e : String × CollectedAsset). contains_key e.0 m ≡ true) snapshots
      → or_insert_lengths snapshots m ≡ m
  unfolding or_insert_lengths
  or_insert_lengths-Known [] h = refl
  or_insert_lengths-Known ((path, a) ∷ snapshots) h = rw h.0 (or_insert_lengths-Known snapshots h.1)

direct_paths :
    (paths : List String) (assets : List CollectedAsset)
    → All (λ a. contains_key a.path (zero_each (paths ++ map (λ a. a.path) assets)) ≡ true) assets
direct_paths paths assets = All-In assets (λ a i. In-zero_each a.path _ (In-append_right paths i))
  where
    All-In :
        (rest : List CollectedAsset)
        → ((a : CollectedAsset)
            → In a.path (map (λ a. a.path) rest)
            → contains_key a.path (zero_each (paths ++ map (λ a. a.path) assets)) ≡ true)
        → All (λ a. contains_key a.path (zero_each (paths ++ map (λ a. a.path) assets)) ≡ true) rest
    All-In [] k = tt
    All-In (a ∷ rest) k = (k a (here refl), All-In rest (λ b i. k b (there i)))

module _ (limits : AssetBudgetLimits) (graph_source_bytes : ℕ) where
  -- What both checks at the start leave of a ledger with no work.
  checked-Sound :
      (s : BudgetState)
      → s.css_work_reads ≡ 0
      → s.css_work_bytes ≡ 0
      → s.input_bytes ≡ graph_source_bytes + charged s.unique_files
      → DistinctKeys s.unique_files
      → Sound limits graph_source_bytes []
          (check_source_at_start limits (check_files_at_start limits s))
  unfolding check_files_at_start check_source_at_start reserved record_limit
  checked-Sound s reads work total distinct =
      elim (Bool-cases (ltb limits.max_unique_files (length s.unique_files))) [
        | inl many ↦ rw many (elim (Bool-cases (ltb limits.max_input_bytes s.input_bytes)) [
          | inl large ↦ rw large (numbers (inl tt))
          | inr small ↦ rw small (numbers (inl tt))
        ])
        | inr few ↦ rw few (elim (Bool-cases (ltb limits.max_input_bytes s.input_bytes)) [
          | inl large ↦ rw large (numbers (inl tt))
          | inr small ↦ rw small (numbers (inr (ground (arith, few), ground (arith, small))))
        ])
      ]
    where
      numbers :
          {message : Option LimitMessage}
          → Breached message
            ⊎ ((length s.unique_files ≤ limits.max_unique_files)
                × (s.input_bytes ≤ limits.max_input_bytes))
          → Within limits graph_source_bytes s.unique_files s.input_bytes s.css_work_reads
              s.css_work_bytes message []
      numbers files = record {
        reads_within = omega (arith, reads);
        work_within = omega (arith, work);
        reserved_within = omega arith;
        files_within = files;
        total = total;
        distinct = distinct;
        known = tt;
      }

  pub new-Sound :
      (paths : List String) (assets : List CollectedAsset)
      → Sound limits graph_source_bytes [] (new limits graph_source_bytes paths assets)
  unfolding new empty_ledger
  new-Sound paths assets =
      checked-Sound (empty_ledger limits graph_source_bytes paths assets) refl refl
        (rw same (omega (arith, (charged-zero_each graph).0))) (rw same (charged-zero_each graph).1)
    where
      graph : List String
      graph = paths ++ map (λ a. a.path) assets

      same : or_insert_lengths (snapshots_of assets) (zero_each graph) ≡ zero_each graph
      same =
          or_insert_lengths-Known (zero_each graph) (snapshots_of assets)
            (snapshots_of-Known (zero_each graph) assets (direct_paths paths assets))
