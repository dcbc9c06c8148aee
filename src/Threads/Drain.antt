-- ===== src/Threads/Drain.antt =====
-- daemon/src/engine/scheduling.rs: the workers that drain a list of items, and the order of what they
-- return. A worker's `fetch_add` with its `get` is one step, and so is a push of a result. A list of one
-- item that the caller runs itself is the case of one worker.
pub mod Sort
pub mod Order
use import_lens.Prelude.{
  ℕ, suc, ◌+◌, ◌≤◌, ◌<◌, ◌≡◌, Bool, true, false, List, [], ◌∷◌, ◌++◌, map, leb, if◌then◌else◌,
  length, get_elem?, Option, some, none,
}

-- `ENGINE_PERMITS + 2`, where daemon/src/engine/boundary.rs has two permits.
abbrev pub miss_drain_workers : ℕ
miss_drain_workers = 4

-- The cursor, the items that a worker runs with their places, and the results so far.
pub record Drain (T R : Type 0) : Type 0 where
  pub cursor : ℕ
  pub busy : List (ℕ × T)
  pub completed : List (ℕ × R)

module _ {R : Type 0} where
  -- `sort_by_key` by the place.
  unfoldable pub insert_by_index : ℕ × R → List (ℕ × R) → List (ℕ × R)
  insert_by_index x [] = x ∷ []
  insert_by_index x (y ∷ ys) =
      let rest = insert_by_index x ys in if leb (x.0) (y.0) then x ∷ y ∷ ys else y ∷ rest

  unfoldable pub sort_by_index : List (ℕ × R) → List (ℕ × R)
  unfolding insert_by_index
  sort_by_index [] = []
  sort_by_index (x ∷ xs) = insert_by_index x (sort_by_index xs)

module _ {T R : Type 0} (items : List T) (run : ℕ → T → R) where
  abbrev pub start_drain : Drain T R
  start_drain = record { cursor = 0; busy = []; completed = [] }

  -- A worker takes the item under the cursor.
  abbrev pub after_take : T → Drain T R → Drain T R
  after_take item s = record s { cursor = suc s.cursor; busy = (s.cursor, item) ∷ s.busy }

  -- A worker pushes the result of its item.
  abbrev pub after_push : List (ℕ × T) → ℕ × T → List (ℕ × T) → Drain T R → Drain T R
  after_push before taken after s = record s {
    busy = before ++ after;
    completed = (taken.0, run (taken.0) (taken.1)) ∷ s.completed;
  }

  pub data DrainStep (workers : ℕ) (s : Drain T R) : Drain T R → Type 0 where
    takes :
        (item : T)
        → get_elem? items s.cursor ≡ some item
        → length s.busy < workers
        → DrainStep workers s (after_take item s)
    pushes :
        (before : List (ℕ × T)) (taken : ℕ × T) (after : List (ℕ × T))
        → s.busy ≡ before ++ taken ∷ after
        → DrainStep workers s (after_push before taken after s)

  pub data Drained (workers : ℕ) : Drain T R → Type 0 where
    begins : Drained workers start_drain
    then_step : {s t : Drain T R} → Drained workers s → DrainStep workers s t → Drained workers t

  -- Every worker has left its loop: nothing is under the cursor, and none runs an item.
  abbrev pub AllDone : Drain T R → Type 0
  AllDone s = (get_elem? items s.cursor ≡ none) × (length s.busy ≡ 0)

  -- What `drain_ordered` returns of the results of `drain_bounded`.
  unfoldable pub drain_ordered : Drain T R → List R
  unfolding sort_by_index
  drain_ordered s = map (λ pair. pair.1) (sort_by_index s.completed)
