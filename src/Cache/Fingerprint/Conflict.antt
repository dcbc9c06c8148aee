-- ===== src/Cache/Fingerprint/Conflict.antt =====
-- `fingerprints_have_conflicting_snapshots` (daemon/src/cache/key.rs) against a description with no
-- map: two fingerprints of one path that no single state of the file can have shown.
use import_lens.Prelude.{
  ◌≡◌, inl, inr, refl, ap, String, Bool, true, not, ◌&&◌, List, [], ◌∷◌, Option, none, some, arith,
  all, ite, if_pos, if_neg, get, insert, get-insert, text_dec, Option-cases, Bool-cases,
  if◌then◌else◌,
}
use import_lens.Cache.Fingerprint.{
  FileFingerprint, Snapshot, snapshot_of, snapshot_agrees, or_hash, conflict_from,
  fingerprints_have_conflicting_snapshots,
}

-- Two observations that one state of the file can explain: of different paths, or with the same
-- length and mtime and no two different hashes.
abbrev pub compatible : FileFingerprint → FileFingerprint → Bool
compatible f g = ite (text_dec f.path g.path) (snapshot_agrees (snapshot_of f) g) true

abbrev pub pairwise_compatible : List FileFingerprint → Bool
pairwise_compatible [] = true
pairwise_compatible (f ∷ fs) = all (compatible f) fs && pairwise_compatible fs

abbrev entry_agrees : Option Snapshot → FileFingerprint → Bool
entry_agrees none g = true
entry_agrees (some s) g = snapshot_agrees s g

abbrev observed_agrees : List (String × Snapshot) → FileFingerprint → Bool
observed_agrees observed g = entry_agrees (get g.path observed) g

-- What the loop notes for a fingerprint.
abbrev noted : Option Snapshot → FileFingerprint → Snapshot
noted none f = snapshot_of f
noted (some s) f = record s { known_hash = or_hash s.known_hash f.content_hash }

noted-agrees :
    (o : Option Snapshot) (f g : FileFingerprint)
    → entry_agrees o f ≡ true
    → snapshot_agrees (noted o f) g ≡ (entry_agrees o g && snapshot_agrees (snapshot_of f) g)
noted-agrees none f g h = refl
noted-agrees (some s) f g h = ground arith

observed-noted :
    (observed : List (String × Snapshot)) (f g : FileFingerprint)
    → observed_agrees observed f ≡ true
    → observed_agrees (insert f.path (noted (get f.path observed) f) observed) g
      ≡ (observed_agrees observed g && compatible f g)
observed-noted observed f g h = elim (text_dec f.path g.path) [
  | yes p ↦
      rw (get-insert, if_pos _ p)
        (ground (
          arith,
          noted-agrees (get f.path observed) f g h,
          ap (λ k. entry_agrees (get k observed) g) p,
        ))
  | no p ↦ rw (get-insert, if_neg _ p) (ground arith)
]

all-noted :
    (observed : List (String × Snapshot)) (f : FileFingerprint) (fs : List FileFingerprint)
    → observed_agrees observed f ≡ true
    → all (observed_agrees (insert f.path (noted (get f.path observed) f) observed)) fs
      ≡ (all (observed_agrees observed) fs && all (compatible f) fs)
all-noted observed f [] h = refl
all-noted observed f (g ∷ fs) h =
    ground (arith, observed-noted observed f g h, all-noted observed f fs h)

conflict_from-step :
    (observed : List (String × Snapshot)) (f : FileFingerprint) (fs : List FileFingerprint)
    → conflict_from observed (f ∷ fs) ≡ (
        if observed_agrees observed f
        then conflict_from (insert f.path (noted (get f.path observed) f) observed) fs
        else true)
unfolding conflict_from
conflict_from-step observed f fs = elim (Option-cases (get f.path observed)) [
  | inl e ↦ rw (e, conflict_from) refl
  | inr (s, e) ↦ rw (e, conflict_from) (ground arith)
]

conflict_from-compatible :
    (observed : List (String × Snapshot)) (fs : List FileFingerprint)
    → conflict_from observed fs ≡ not (all (observed_agrees observed) fs && pairwise_compatible fs)
unfolding conflict_from
conflict_from-compatible observed [] = refl
conflict_from-compatible observed (f ∷ fs) =
    rw conflict_from-step (elim (Bool-cases (observed_agrees observed f)) [
      | inl agrees ↦ rw (agrees) (
          ground (
            arith,
            conflict_from-compatible (insert f.path (noted (get f.path observed) f) observed) fs,
            all-noted observed f fs agrees,
          ))
      | inr clashes ↦ rw clashes refl
    ])

all_agree_nothing : (fs : List FileFingerprint) → all (observed_agrees []) fs ≡ true
unfolding get
all_agree_nothing [] = refl
all_agree_nothing (f ∷ fs) = all_agree_nothing fs

-- The one pass over the set, with its map of what was seen, finds a conflict exactly when some two
-- fingerprints of the set, of one path, differ in length or mtime or carry two different hashes.
pub conflicting-pairwise :
    (fs : List FileFingerprint)
    → fingerprints_have_conflicting_snapshots fs ≡ not (pairwise_compatible fs)
unfolding fingerprints_have_conflicting_snapshots
conflicting-pairwise fs = rw (conflict_from-compatible, all_agree_nothing) refl
