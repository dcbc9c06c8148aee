-- ===== src/Cache/Identity/Roots.antt =====
-- When daemon/src/cache/key.rs lets the shard of a project be removed.
use import_lens.Prelude.{
  ◌≡◌, ◌↔◌, refl, sym, subst, String, Bool, true, false, List, any, any-In, In-any, In,
  if◌then◌else◌,
}
use import_lens.Cache.Fingerprint.{IoResult, ok, err}
use import_lens.Cache.Identity.{
  ProjectRootState, present, orphaned, volume_unreachable, is_there, classify_project_root_with,
}

there_is : (r : IoResult Bool) → is_there r ≡ true → r ≡ ok true
there_is (ok true) h = refl
there_is (ok false) h = absurd (cc)
there_is (err k) h = absurd (cc)

verdict : IoResult Bool → Bool → ProjectRootState
verdict r live = elim r [
  | ok true ↦ present
  | ok false ↦ if live then orphaned else volume_unreachable
  | err _ ↦ volume_unreachable
]

verdict-orphaned :
    (r : IoResult Bool) (live : Bool) → verdict r live ≡ orphaned → (r ≡ ok false) × (live ≡ true)
unfolding verdict
verdict-orphaned (ok true) live h = absurd (cc)
verdict-orphaned (ok false) true h = (refl, refl)
verdict-orphaned (ok false) false h = absurd (cc)
verdict-orphaned (err k) live h = absurd (cc)

module _ (ancestors : String → List String) (exists : String → IoResult Bool) where
  -- A live volume: the probe finds some ancestor.
  abbrev pub SomeAncestorExists : String → Type 0
  SomeAncestorExists root = (a : String) × (In a (ancestors root) × (exists a ≡ ok true))

  -- A shard is an orphan exactly if the probe says that the project's root does not exist, and finds one
  -- of its ancestors: a probe that fails, of the root or of all its ancestors, never allows the removal.
  pub classify_project_root-orphaned_iff :
      (root : String)
      → (classify_project_root_with ancestors exists root ≡ orphaned)
        ↔ ((exists root ≡ ok false) × SomeAncestorExists root)
  unfolding classify_project_root_with verdict
  classify_project_root-orphaned_iff root = (forward, back)
    where
      probe : String → Bool
      probe a = is_there (exists a)

      forward :
          classify_project_root_with ancestors exists root ≡ orphaned
          → (exists root ≡ ok false) × SomeAncestorExists root
      forward h =
          let (absent, live) = verdict-orphaned (exists root) (any probe (ancestors root)) h in
          let (a, i, there) = any-In probe (ancestors root) live in
          (absent, (a, (i, there_is (exists a) there)))

      back :
          (exists root ≡ ok false) × SomeAncestorExists root
          → classify_project_root_with ancestors exists root ≡ orphaned
      back (absent, (a, (i, e))) =
          let live : any probe (ancestors root) ≡ true =
            In-any probe (ancestors root) a i (subst (λ r. is_there r ≡ true) (sym e) refl) in
          subst (λ r. verdict r (any probe (ancestors root)) ≡ orphaned) (sym absent)
            (subst (λ b. verdict (ok false) b ≡ orphaned) (sym live) refl)
