-- ===== src/Registry/Lookup/Network.antt =====
-- When a lookup of daemon/src/registry/service.rs goes on to the network.
use import_lens.Prelude.{
  ℕ, ◌≡◌, ◌↔◌, ◌⊎◌, inl, inr, refl, Bool, true, false, ◌||◌, Option, none, some, if◌then◌else◌,
  String,
}
use import_lens.Registry.Entry.{RegistryPackageMetadataEntry}
use import_lens.Registry.Store.{is_open}
use import_lens.Registry.Lookup.{
  RegistryHintMode, RegistryHintLookup, off, cached, refresh_stale, force_refresh,
  cached_lookup_from_entry, is_usable_without_fetch,
}

-- The entry may be used as it is: metadata or a 404 of the last six hours, or a failure whose retry
-- window is open.
abbrev pub Usable : RegistryPackageMetadataEntry → ℕ → Type 0
Usable entry now =
    (is_usable_without_fetch entry now ≡ true) ⊎ (is_open now entry.retry_after ≡ true)

-- What sends a lookup to the network: nothing in the store, an entry that is not usable, or a refresh
-- by hand whose cooldown is over.
abbrev pub NeedsFetch : Option RegistryPackageMetadataEntry → RegistryHintMode → ℕ → Bool → Type 0
NeedsFetch entry off now cooldown = ⊥
NeedsFetch entry cached now cooldown = ⊥
NeedsFetch none refresh_stale now cooldown = Unit
NeedsFetch (some entry) refresh_stale now cooldown = ¬ Usable entry now
NeedsFetch none force_refresh now cooldown = Unit
NeedsFetch (some entry) force_refresh now cooldown = cooldown ≡ false

or_none :
    (a b : Bool) (l : RegistryHintLookup)
    → ((if a || b then some l else none) ≡ none) ↔ ¬ ((a ≡ true) ⊎ (b ≡ true))
or_none true b l = (λ h. cc, λ n. absurd (n (inl refl)))
or_none false true l = (λ h. cc, λ n. absurd (n (inr refl)))
or_none false false l = (λ h q. elim q [ inl e ↦ cc | inr e ↦ cc ], λ n. refl)

if_none : (a : Bool) (l : RegistryHintLookup) → ((if a then some l else none) ≡ none) ↔ (a ≡ false)
if_none true l = (λ h. cc, λ h. cc)
if_none false l = (λ h. refl, λ h. refl)

-- A lookup is not answered from the store exactly when it needs a fetch: never with the hints off or
-- in cached mode; in refresh-stale mode if there is no usable entry; in a forced refresh unless there
-- is an entry and the cooldown of the last refresh by hand is running.
pub cached_lookup-none_iff :
    (entry : Option RegistryPackageMetadataEntry) (version : Option String)
    (mode : RegistryHintMode) (now : ℕ) (cooldown : Bool)
    → (cached_lookup_from_entry entry version mode now cooldown ≡ none)
      ↔ NeedsFetch entry mode now cooldown
unfolding cached_lookup_from_entry
cached_lookup-none_iff entry version off now cooldown = (λ h. cc, λ h. absurd h)
cached_lookup-none_iff none version cached now cooldown = (λ h. cc, λ h. absurd h)
cached_lookup-none_iff (some entry) version cached now cooldown = (λ h. cc, λ h. absurd h)
cached_lookup-none_iff none version refresh_stale now cooldown = (λ h. tt, λ h. refl)
cached_lookup-none_iff (some entry) version refresh_stale now cooldown = or_none _ _ _
cached_lookup-none_iff none version force_refresh now cooldown = (λ h. tt, λ h. refl)
cached_lookup-none_iff (some entry) version force_refresh now cooldown = if_none cooldown _
