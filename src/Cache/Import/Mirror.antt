-- ===== src/Cache/Import/Mirror.antt =====
-- daemon/src/cache/memory.rs: `insert_into_memory_guarded` and `clear` as the steps of threads that
-- interleave. Of an entry the memory has its `Arc`, which is the number of the thread that inserts it, and
-- the clear generation that the thread captured. A thread inserts once.
pub mod Settled
use import_lens.Prelude.{
  ℕ, zero, suc, ◌+◌, ◌-◌, ◌≤◌, ◌≡◌, ◌⊎◌, inl, inr, refl, sym, ap, subst, ◌∙◌, String, Bool, true,
  false, List, [], ◌∷◌, Option, none, some, ◌==◌, ==_iff, if◌then◌else◌, get, insert, remove,
  text_dec, DistinctKeys, insert-DistinctKeys, remove-DistinctKeys, get-remove, get-insert, ite,
  arith, Bool-cases, ℕ_discrete, if_cases, Option-cases,
}

-- The identity and the generation.
pub record MirrorEntry : Type 0 where
  pub identity : ℕ
  pub generation : ℕ

-- Before the capture; before the check; before the insert; before the second check; and after it.
pub data Phase : Type 0 where
  idle : Phase
  captured checked placed : (key : String) (generation : ℕ) → Phase
  finished : Phase

-- `clearing` is the number of the clears that have bumped the generation and have not wiped the memory.
pub record Mirror : Type 0 where
  pub clear_generation : ℕ
  pub memory : List (String × MirrorEntry)
  pub clearing : ℕ
  pub phase : ℕ → Phase

abbrev pub set_phase : ℕ → Phase → (ℕ → Phase) → ℕ → Phase
set_phase i p phase j = elim (ℕ_discrete j i) [ yes _ ↦ p | no _ ↦ phase j ]

abbrev pub initial : Mirror
initial = record { clear_generation = 0; memory = []; clearing = 0; phase = λ _. idle }

abbrev pub capture : ℕ → String → Mirror → Mirror
capture i key m = record m { phase = set_phase i (captured key m.clear_generation) m.phase }

abbrev pub check : ℕ → String → ℕ → Mirror → Mirror
check i key generation m = record m {
  phase =
      set_phase i (if m.clear_generation == generation then checked key generation else finished)
        m.phase;
}

abbrev pub place : ℕ → String → ℕ → Mirror → Mirror
place i key generation m = record m {
  memory = insert key (record { identity = i; generation = generation }) m.memory;
  phase = set_phase i (placed key generation) m.phase;
}

abbrev pub is_own : ℕ → Option MirrorEntry → Bool
is_own i none = false
is_own i (some entry) = entry.identity == i

abbrev pub roll_back : ℕ → String → List (String × MirrorEntry) → List (String × MirrorEntry)
roll_back i key memory = if is_own i (get key memory) then remove key memory else memory

abbrev pub check_again : ℕ → String → ℕ → Mirror → Mirror
check_again i key generation m = record m {
  memory = if m.clear_generation == generation then m.memory else roll_back i key m.memory;
  phase = set_phase i finished m.phase;
}

abbrev pub bump : Mirror → Mirror
bump m = record m { clear_generation = suc m.clear_generation; clearing = suc m.clearing }

abbrev pub wipe : Mirror → Mirror
wipe m = record m { memory = []; clearing = m.clearing - 1 }

-- A read, an invalidation or the cap takes an entry out.
abbrev pub take_out : String → Mirror → Mirror
take_out key m = record m { memory = remove key m.memory }

pub data Step (m : Mirror) : Mirror → Type 0 where
  captures : (i : ℕ) (key : String) → m.phase i ≡ idle → Step m (capture i key m)
  checks :
      (i : ℕ) (key : String) (generation : ℕ)
      → m.phase i ≡ captured key generation
      → Step m (check i key generation m)
  places :
      (i : ℕ) (key : String) (generation : ℕ)
      → m.phase i ≡ checked key generation
      → Step m (place i key generation m)
  checks_again :
      (i : ℕ) (key : String) (generation : ℕ)
      → m.phase i ≡ placed key generation
      → Step m (check_again i key generation m)
  bumps : Step m (bump m)
  wipes : 1 ≤ m.clearing → Step m (wipe m)
  takes_out : (key : String) → Step m (take_out key m)

pub data Reachable : Mirror → Type 0 where
  start : Reachable initial
  then_step : {m n : Mirror} → Reachable m → Step m n → Reachable n

-- No clear is under way, and no thread is within an insert.
abbrev pub AtRest : Mirror → Type 0
AtRest m = (m.clearing ≡ 0) × ((i : ℕ) → (m.phase i ≡ idle) ⊎ (m.phase i ≡ finished))
