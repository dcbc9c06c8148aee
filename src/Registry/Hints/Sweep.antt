-- ===== src/Registry/Hints/Sweep.antt =====
-- The sweep of the cooldowns in daemon/src/registry/service.rs.
use import_lens.Prelude.{
  ℕ, ◌-◌, ◌≤◌, ◌≡◌, refl, String, Bool, false, List, [], ◌∷◌, none, ltb, get, contains_key, retain,
  text_dec, arith,
}
use import_lens.Registry.Hints.{
  RegistryHintService, cooldown_running, manual_cooldown_active, sweep_manual_cooldowns,
  manual_refresh_cooldown_ms,
}

-- A map that has one stamp for each of its keys.
abbrev pub DistinctStamps : List (String × ℕ) → Type 0
DistinctStamps [] = Unit
DistinctStamps ((key, _) ∷ rest) = (contains_key key rest ≡ false) × DistinctStamps rest

module _ (instant later : ℕ) (name : String) where
  abbrev fresh : String × ℕ → Bool
  fresh e = ltb (instant - e.1) manual_refresh_cooldown_ms

  get-retain_absent :
      (m : List (String × ℕ)) → contains_key name m ≡ false → get name (retain fresh m) ≡ none
  unfolding get contains_key
  get-retain_absent [] h = refl
  get-retain_absent ((key, last) ∷ m) h = ground (arith, get-retain_absent m)

  cooldown_running-retain :
      (m : List (String × ℕ))
      → DistinctStamps m
      → instant ≤ later
      → cooldown_running later (get name (retain fresh m)) ≡ cooldown_running later (get name m)
  unfolding get cooldown_running
  cooldown_running-retain [] h le = refl
  cooldown_running-retain ((key, last) ∷ m) (absent, h) le = elim (text_dec key name) [
    | yes e ↦ ground (arith, get-retain_absent m)
    | no d ↦ ground (arith, cooldown_running-retain m h le)
  ]

-- The sweep changes no answer: a cooldown is running at an instant after it exactly if it would be
-- without the sweep.
pub sweep-manual_cooldown_active :
    (service : RegistryHintService) (name : String) (instant later : ℕ)
    → DistinctStamps service.manual_cooldowns
    → instant ≤ later
    → manual_cooldown_active (sweep_manual_cooldowns service instant) name later
      ≡ manual_cooldown_active service name later
unfolding manual_cooldown_active sweep_manual_cooldowns
sweep-manual_cooldown_active service name instant later h le =
    cooldown_running-retain instant later name service.manual_cooldowns h le
