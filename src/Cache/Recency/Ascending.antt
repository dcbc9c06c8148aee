-- ===== src/Cache/Recency/Ascending.antt =====
-- The order of what the clock of daemon/src/cache/recency.rs issues.
use import_lens.Prelude.{
  ℕ, ◌+◌, ◌%◌, ◌^◌, ◌≤◌, ◌<◌, ◌≡◌, List, [], ◌∷◌, max, saturating_add, length, arith,
}
use import_lens.Cache.Recency.{
  RecencyCall, next, see, Event, issued, observed, events, next_seq, observe, recency_clock,
}

-- Each value that is issued is above `top` and above what was issued or observed before it.
abbrev pub Ascending : ℕ → List Event → Type 0
Ascending top [] = Unit
Ascending top (issued seq ∷ rest) = (top < seq) × Ascending seq rest
Ascending top (observed seq ∷ rest) = Ascending (max top seq) rest

-- Nothing above `limit` is observed.
abbrev pub Within : ℕ → List RecencyCall → Type 0
Within limit [] = Unit
Within limit (next ∷ calls) = Within limit calls
Within limit (see seq ∷ calls) = (seq ≤ limit) × Within limit calls

Within-mono : (calls : List RecencyCall) (limit : ℕ) → Within limit calls → Within (limit + 1) calls
Within-mono [] limit h = tt
Within-mono (next ∷ calls) limit h = Within-mono calls limit h
Within-mono (see seq ∷ calls) limit h = (omega (arith, h.0), Within-mono calls limit h.1)

saturating_add-small : (seq : ℕ) → seq + 1 < 2 ^ 64 → saturating_add seq 1 ≡ seq + 1
saturating_add-small seq h = ground arith

observe-above :
    (seq clock top : ℕ) → top < clock → seq + 1 < 2 ^ 64 → max top seq < observe seq clock
unfolding observe
observe-above seq clock top h small = rw (saturating_add-small seq small) (omega (arith, h))

observe-within :
    (seq clock limit : ℕ)
    → clock ≤ limit + 1
    → seq + 1 < 2 ^ 64
    → seq ≤ limit
    → observe seq clock ≤ limit + 1
unfolding observe
observe-within seq clock limit h small le =
    rw (saturating_add-small seq small) (omega (arith, h, le))

events-Ascending :
    (calls : List RecencyCall) (limit top clock : ℕ)
    → top < clock
    → clock ≤ limit + 1
    → limit + length calls + 1 < 2 ^ 64
    → Within limit calls
    → Ascending top (events calls clock)
unfolding events next_seq observe
events-Ascending [] limit top clock above low room w = tt
events-Ascending (next ∷ calls) limit top clock above low room w = (
  above,
  events-Ascending calls (limit + 1) clock ((clock + 1) % 2 ^ 64) (omega (arith, low, room))
      (omega (arith, low, room)) (omega (arith, room)) (Within-mono calls limit w),
)
events-Ascending (see seq ∷ calls) limit top clock above low room w =
    events-Ascending calls limit (max top seq) (observe seq clock)
      (observe-above seq clock top above (omega (arith, room, w.0)))
      (observe-within seq clock limit low (omega (arith, room, w.0)) w.0) (omega (arith, room)) w.1

-- If no sequence observed from the disk is above `limit`, and `limit`, the number of calls and one stay
-- below 2 ^ 64, then in whatever order the calls come each sequence that is issued is above every one
-- issued or observed before it, and above zero.
pub recency-Ascending :
    (calls : List RecencyCall) (limit : ℕ)
    → limit + length calls + 1 < 2 ^ 64
    → Within limit calls
    → Ascending 0 (events calls recency_clock)
recency-Ascending calls limit room w =
    events-Ascending calls limit 0 recency_clock (omega arith) (omega arith) room w
