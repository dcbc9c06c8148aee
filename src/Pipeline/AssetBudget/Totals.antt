-- ===== src/Pipeline/AssetBudget/Totals.antt =====
-- What the ledger of daemon/src/pipeline/asset_budget.rs adds up: the bytes that its files are charged
-- with, and the work that the open reads have reserved.
use import_lens.Prelude.{
  remove-absent, ℕ, zero, suc, ◌+◌, ◌≤◌, ◌≡◌, refl, ap, String, List, [], ◌∷◌, Option, none, some,
  get, insert, remove, text_dec, ite, arith, DistinctKeys, All, get_elem?,
}
use import_lens.Pipeline.AssetBudget.{CssReadReservation}
use import_lens.Pipeline.AssetBudget.Calls.{remove_at}

unfoldable pub charged : List (String × ℕ) → ℕ
charged [] = 0
charged ((_, bytes) ∷ m) = bytes + charged m

abbrev pub or_zero : Option ℕ → ℕ
or_zero none = 0
or_zero (some n) = n

charged-remove :
    (k : String) (m : List (String × ℕ))
    → DistinctKeys m
    → charged (remove k m) + or_zero (get k m) ≡ charged m
unfolding charged remove get
charged-remove k [] d = refl
charged-remove k ((j, v) ∷ m) d =
    elim (text_dec j k)
      as (λ t.
        charged (ite t (remove k m) ((j, v) ∷ remove k m)) + or_zero (ite t (some v) (get k m))
        ≡ v + charged m) [
          | yes e ↦ omega (arith, ap charged (remove-absent k m (ground (arith, d.0))))
          | no e ↦ omega (arith, charged-remove k m d.1)
        ]

pub charged-insert :
    (k : String) (v : ℕ) (m : List (String × ℕ))
    → DistinctKeys m
    → charged (insert k v m) + or_zero (get k m) ≡ charged m + v
unfolding insert charged
charged-insert k v m d = omega (arith, charged-remove k m d)

unfoldable pub reserved : List CssReadReservation → ℕ
reserved [] = 0
reserved (r ∷ rs) = or_zero r.css_work_reserved_bytes + reserved rs

pub reserved-remove_at :
    (i : ℕ) (rs : List CssReadReservation) (r : CssReadReservation)
    → get_elem? rs i ≡ some r
    → reserved rs ≡ or_zero r.css_work_reserved_bytes + reserved (remove_at i rs)
unfolding reserved remove_at
reserved-remove_at i [] r h = absurd (cc)
reserved-remove_at zero (q ∷ rs) r h = ground (arith, h)
reserved-remove_at (suc i) (q ∷ rs) r h = omega (arith, reserved-remove_at i rs r h)

pub reserved-remove_at-le :
    (i : ℕ) (rs : List CssReadReservation) → reserved (remove_at i rs) ≤ reserved rs
unfolding reserved remove_at
reserved-remove_at-le i [] = omega arith
reserved-remove_at-le zero (q ∷ rs) = omega arith
reserved-remove_at-le (suc i) (q ∷ rs) = omega (arith, reserved-remove_at-le i rs)

module _ (P : CssReadReservation → Type 0) where
  pub All-remove_at : (i : ℕ) (rs : List CssReadReservation) → All P rs → All P (remove_at i rs)
  unfolding remove_at
  All-remove_at i [] h = tt
  All-remove_at zero (q ∷ rs) h = h.1
  All-remove_at (suc i) (q ∷ rs) h = (h.0, All-remove_at i rs h.1)

  pub All-get_elem? :
      (i : ℕ) (rs : List CssReadReservation) (r : CssReadReservation)
      → All P rs
      → get_elem? rs i ≡ some r
      → P r
  All-get_elem? i [] r h e = absurd (cc)
  All-get_elem? zero (q ∷ rs) r h e = ground (arith, h.0, e)
  All-get_elem? (suc i) (q ∷ rs) r h e = All-get_elem? i rs r h.1 e
