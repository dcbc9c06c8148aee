-- ===== src/Cache/Recency/Samples.antt =====
-- A run of the recency clock of daemon/src/cache/recency.rs, and an input where its theorem applies.
use import_lens.Prelude.{◌≡◌, refl, List, [], ◌∷◌, arith}
use import_lens.Cache.Recency.{RecencyCall, next, see, issued, observed, events, recency_clock}
use import_lens.Cache.Recency.Ascending.{Ascending, recency-Ascending}

abbrev calls : List RecencyCall
calls = next ∷ see 900 ∷ next ∷ see 5 ∷ next ∷ []

clock_passes_what_is_observed :
    events calls recency_clock ≡ issued 1 ∷ observed 900 ∷ issued 901 ∷ observed 5 ∷ issued 902 ∷ []
unfolding events
clock_passes_what_is_observed = refl

recency-Ascending_example : Ascending 0 (events calls recency_clock)
recency-Ascending_example =
    recency-Ascending calls 900 (omega arith) (omega arith, (omega arith, tt))
