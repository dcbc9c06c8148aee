-- ===== src/Cache/Recency.antt =====
-- daemon/src/cache/recency.rs: the sequence by which the cache orders its accesses. The counter is the
-- state, and each operation is one step, as the atomic ones are; several threads take theirs in any order.
pub mod Ascending
mod Samples
use import_lens.Prelude.{ℕ, ◌+◌, ◌%◌, ◌^◌, List, [], ◌∷◌, max, saturating_add}

abbrev pub recency_clock : ℕ
recency_clock = 1

-- `fetch_add` gives the value before it, and wraps around.
unfoldable pub next_seq : ℕ → ℕ × ℕ
next_seq clock = (clock, (clock + 1) % 2 ^ 64)

unfoldable pub observe : ℕ → ℕ → ℕ
observe seq clock = max clock (saturating_add seq 1)

-- What a caller asks of the clock, and what it is given.
pub data RecencyCall : Type 0 where
  next : RecencyCall
  see : ℕ → RecencyCall

pub data Event : Type 0 where
  issued : ℕ → Event
  observed : ℕ → Event

unfoldable pub events : List RecencyCall → ℕ → List Event
unfolding next_seq observe
events [] clock = []
events (next ∷ calls) clock = issued ((next_seq clock).0) ∷ events calls ((next_seq clock).1)
events (see seq ∷ calls) clock = observed seq ∷ events calls (observe seq clock)
