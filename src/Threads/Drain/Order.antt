-- ===== src/Threads/Drain/Order.antt =====
-- The drain of daemon/src/engine/scheduling.rs ends, and returns its results in the order of the items.
use import_lens.Prelude.{
  ℕ, zero, suc, ◌+◌, ◌-◌, ◌*◌, ◌≤◌, ◌<◌, ◌≡◌, refl, ap, subst, ◌∙◌, List, [], ◌∷◌, ◌++◌, map, ltb,
  if◌then◌else◌, length, length-append, get_elem?, some, none, arith, Option-cases, inl, inr, All,
  All-append,
}
use import_lens.Threads.Drain.{
  Drain, after_take, after_push, DrainStep, takes, pushes, Drained, begins, then_step, AllDone,
  drain_ordered,
}
use import_lens.Threads.Drain.Sort.{occ, Valid, sort-listing, results_from, listing-all}

module _ {ℓ} {A : Type ℓ} where
  occ-append : (i : ℕ) (xs ys : List (ℕ × A)) → occ i (xs ++ ys) ≡ occ i xs + occ i ys
  unfolding occ
  occ-append i [] ys = omega arith
  occ-append i (x ∷ xs) ys = ground (arith, occ-append i xs ys)

  get_elem-lt : (xs : List A) (k : ℕ) (x : A) → get_elem? xs k ≡ some x → k < length xs
  get_elem-lt [] k x h = absurd (cc)
  get_elem-lt (y ∷ ys) zero x h = omega arith
  get_elem-lt (y ∷ ys) (suc k) x h = omega (arith, get_elem-lt ys k x h)

  get_elem-none : (xs : List A) (k : ℕ) → get_elem? xs k ≡ none → length xs ≤ k
  get_elem-none [] k h = omega arith
  get_elem-none (y ∷ ys) zero h = absurd (cc)
  get_elem-none (y ∷ ys) (suc k) h = omega (arith, get_elem-none ys k h)

  All-before : (P : A → Type 0) (xs ys : List A) → All P (xs ++ ys) → All P xs
  All-before P [] ys h = tt
  All-before P (x ∷ xs) ys h = (h.0, All-before P xs ys h.1)

  All-after : (P : A → Type 0) (xs ys : List A) → All P (xs ++ ys) → All P ys
  All-after P [] ys h = h
  All-after P (x ∷ xs) ys h = All-after P xs ys h.1

  empty : (i : ℕ) (xs : List (ℕ × A)) → length xs ≡ 0 → occ i xs ≡ 0
  unfolding occ
  empty i [] h = refl
  empty i (x ∷ xs) h = absurd (omega (arith, h))

module _ {T R : Type 0} (items : List T) (run : ℕ → T → R) where
  abbrev Taken : ℕ × T → Type 0
  Taken t = get_elem? items (t.0) ≡ some (t.1)

  pub record Accounted (s : Drain T R) : Type 0 where
    pub busy_ok : All Taken s.busy
    pub done_ok : All (Valid run items) s.completed
    -- An index that the cursor has passed is being run or done, once.
    pub counted : (i : ℕ) → occ i s.busy + occ i s.completed ≡ (if ltb i s.cursor then 1 else 0)

  take-Accounted :
      (item : T) (s : Drain T R)
      → get_elem? items s.cursor ≡ some item
      → Accounted s
      → Accounted (after_take items run item s)
  unfolding occ
  take-Accounted item s at h = record {
    busy_ok = (at, h.busy_ok);
    done_ok = h.done_ok;
    counted = λ i. ground (arith, h.counted i);
  }

  push-Accounted :
      (before : List (ℕ × T)) (taken : ℕ × T) (after : List (ℕ × T)) (s : Drain T R)
      → s.busy ≡ before ++ taken ∷ after
      → Accounted s
      → Accounted (after_push items run before taken after s)
  unfolding occ
  push-Accounted before taken after s e h =
      let split : All Taken (before ++ taken ∷ after) = subst (All Taken) e h.busy_ok in
      let mine = All-after Taken before (taken ∷ after) split in
      record {
        busy_ok =
            All-append Taken before after (All-before Taken before (taken ∷ after) split) mine.1;
        done_ok = ((taken.1, (mine.0, refl)), h.done_ok);
        counted = λ i.
            let now : occ i s.busy ≡ occ i (before ++ taken ∷ after) = ap (occ i) e in
            ground (
              arith,
              h.counted i,
              now,
              occ-append i before (taken ∷ after),
              occ-append i before after,
            );
      }

  Drained-Accounted : (workers : ℕ) (s : Drain T R) → Drained items run workers s → Accounted s
  unfolding occ
  Drained-Accounted workers _ begins = record {
    busy_ok = tt;
    done_ok = tt;
    counted = λ i. ground arith;
  }
  Drained-Accounted workers _ (then_step {s} {t} r st) =
      after_step s t (Drained-Accounted workers s r) st
    where
      after_step : (s t : Drain T R) → Accounted s → DrainStep items run workers s t → Accounted t
      after_step s _ h (takes item at lt) = take-Accounted item s at h
      after_step s _ h (pushes before taken after e) = push-Accounted before taken after s e h

  -- How many takes and pushes are still to come.
  pub left : Drain T R → ℕ
  left s = 2 * (length items - s.cursor) + length s.busy

  step-left : (workers : ℕ) (s t : Drain T R) → DrainStep items run workers s t → left t < left s
  unfolding left
  step-left workers s _ (takes item at lt) = omega (arith, get_elem-lt items s.cursor item at)
  step-left workers s _ (pushes before taken after e) =
      omega (arith, ap length e, length-append before (taken ∷ after), length-append before after)

  goes_on :
      (workers : ℕ) (s : Drain T R)
      → 0 < workers
      → ¬ AllDone items run s
      → (t : Drain T R) × DrainStep items run workers s t
  goes_on workers s pos busy = go s.busy refl
    where
      go : (b : List (ℕ × T)) → s.busy ≡ b → (t : Drain T R) × DrainStep items run workers s t
      go [] e = elim (Option-cases (get_elem? items s.cursor)) [
        | inl none_left ↦ absurd (busy (none_left, ap length e))
        | inr (item, at) ↦ (after_take items run item s, takes item at (omega (arith, ap length e)))
      ]
      go (taken ∷ after) e = (after_push items run [] taken after s, pushes [] taken after e)

  -- However the workers interleave: each of their steps leaves less to do, and as long as they are not
  -- done some step is possible; and when they are, the results are those of all the items, each run once
  -- with its own index, in the order of the items.
  pub drain_ordered-order :
      (workers : ℕ) (s : Drain T R)
      → 0 < workers
      → Drained items run workers s
      → ((t : Drain T R) → DrainStep items run workers s t → left t < left s)
        × (¬ AllDone items run s → (t : Drain T R) × DrainStep items run workers s t)
        × (AllDone items run s → drain_ordered items run s ≡ results_from run 0 items)
  unfolding drain_ordered
  drain_ordered-order workers s pos r =
      let h = Drained-Accounted workers s r in
      (
        step-left workers s,
        goes_on workers s pos,
        λ (ended, idle).
            ap (map (λ pair. pair.1))
              (sort-listing run items s.completed h.done_ok (λ i. ground (arith, h.counted i)))
            ∙ listing-all run (λ i. ltb 0 (occ i s.completed)) 0 items
                (λ j le lt.
                  ground
                    (arith, h.counted j, empty j s.busy idle, get_elem-none items s.cursor ended)),
      )
