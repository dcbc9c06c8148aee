-- ===== src/Prelude/Maps.antt =====
-- The maps of the source, keyed by text, as association lists. A key may stand in a list twice;
-- every operation reads or writes its first entry, and `remove` and `insert` drop the others.
use Prim.Native.String.{String}
use Prim.Native.Nat.{ℕ, ◌≤◌, ◌+◌, suc}
use mathlib.Core.Path.{◌≡◌, refl, sym, ap, ◌∙◌}
use mathlib.Core.Logic.{ite, ◌⊎◌, inl, inr}
use mathlib.Core.Bool.{Bool, true, false, ◌&&◌}
use mathlib.Core.List.{List, [], ◌∷◌}
use mathlib.Core.Option.{Option, none, some}
use native.Mathlib.Omega.{arith}
use import_lens.Prelude.Lists.{length, All, In, here, there}
use import_lens.Prelude.Text.{text_dec}
use import_lens.Prelude.Tests.{if◌then◌else◌, Bool-cases}

module _ {ℓ} {V : Type ℓ} where
  unfoldable pub get : String → List (String × V) → Option V
  get k [] = none
  get k ((j, v) ∷ m) = ite (text_dec j k) (some v) (get k m)

  unfoldable pub remove : String → List (String × V) → List (String × V)
  remove k [] = []
  remove k ((j, v) ∷ m) = let rest = remove k m in ite (text_dec j k) rest ((j, v) ∷ rest)

  unfoldable pub insert : String → V → List (String × V) → List (String × V)
  insert k v m = (k, v) ∷ remove k m

  unfoldable pub contains_key : String → List (String × V) → Bool
  contains_key k [] = false
  contains_key k ((j, v) ∷ m) = ite (text_dec j k) true (contains_key k m)

  -- After `remove k` only `k` reads differently.
  pub get-remove :
      (k q : String) (m : List (String × V))
      → get q (remove k m) ≡ ite (text_dec k q) none (get q m)
  unfolding get remove
  get-remove k q [] = ground arith
  get-remove k q ((j, v) ∷ m) = ground (arith, get-remove k q m)

  pub get-insert :
      (k q : String) (v : V) (m : List (String × V))
      → get q (insert k v m) ≡ ite (text_dec k q) (some v) (get q m)
  unfolding get insert
  get-insert k q v m = ground (arith, get-remove k q m)

  pub get-insert_same : (k : String) (v : V) (m : List (String × V)) → get k (insert k v m) ≡ some v
  unfolding get insert
  get-insert_same k v m = ground arith

  pub get-insert_other :
      (k q : String) (v : V) (m : List (String × V)) → ¬ (k ≡ q) → get q (insert k v m) ≡ get q m
  get-insert_other k q v m d = ground (arith, get-insert k q v m)

  pub contains_key-get :
      (k : String) (m : List (String × V))
      → contains_key k m ≡ (elim (get k m) [ none ↦ false | some _ ↦ true ])
  unfolding get contains_key
  contains_key-get k [] = refl
  contains_key-get k ((j, v) ∷ m) = ground (arith, contains_key-get k m)

  pub length-remove-le : (k : String) (m : List (String × V)) → length (remove k m) ≤ length m
  unfolding remove
  length-remove-le k [] = omega arith
  length-remove-le k ((j, v) ∷ m) = ground (arith, length-remove-le k m)

module _ {ℓ} {V : Type ℓ} where
  -- A map that has one entry for each of its keys.
  abbrev pub DistinctKeys : List (String × V) → Type 0
  DistinctKeys [] = Unit
  DistinctKeys ((key, _) ∷ rest) = (contains_key key rest ≡ false) × DistinctKeys rest

  pub contains_key-remove :
      (k j : String) (m : List (String × V))
      → contains_key j (remove k m) ≡ ite (text_dec k j) false (contains_key j m)
  unfolding contains_key remove
  contains_key-remove k j [] = ground arith
  contains_key-remove k j ((i, v) ∷ m) = ground (arith, contains_key-remove k j m)

  pub remove-DistinctKeys :
      (k : String) (m : List (String × V)) → DistinctKeys m → DistinctKeys (remove k m)
  unfolding remove
  remove-DistinctKeys k [] d = tt
  remove-DistinctKeys k ((j, v) ∷ m) d =
      elim (text_dec j k) as (λ t. DistinctKeys (ite t (remove k m) ((j, v) ∷ remove k m))) [
        | yes e ↦ remove-DistinctKeys k m d.1
        | no e ↦ (ground (arith, contains_key-remove k j m), remove-DistinctKeys k m d.1)
      ]

  pub insert-DistinctKeys :
      (k : String) (v : V) (m : List (String × V)) → DistinctKeys m → DistinctKeys (insert k v m)
  unfolding insert
  insert-DistinctKeys k v m d =
      (ground (arith, contains_key-remove k k m), remove-DistinctKeys k m d)

  pub contains_key-insert :
      (k j : String) (v : V) (m : List (String × V))
      → contains_key j (insert k v m) ≡ ite (text_dec k j) true (contains_key j m)
  unfolding insert contains_key
  contains_key-insert k j v m = ground (arith, contains_key-remove k j m)

  pub length-remove_known :
      (k : String) (m : List (String × V))
      → contains_key k m ≡ true
      → suc (length (remove k m)) ≤ length m
  unfolding remove contains_key
  length-remove_known k [] h = absurd (cc)
  length-remove_known k ((j, v) ∷ m) h =
      ground (arith, length-remove_known k m, length-remove-le k m)

  pub length-insert-le :
      (k : String) (v : V) (m : List (String × V)) → length (insert k v m) ≤ suc (length m)
  unfolding insert
  length-insert-le k v m = omega (arith, length-remove-le k m)

  pub length-insert_known :
      (k : String) (v : V) (m : List (String × V))
      → contains_key k m ≡ true
      → length (insert k v m) ≤ length m
  unfolding insert
  length-insert_known k v m h = omega (arith, length-remove_known k m h)

  pub remove-absent :
      (k : String) (m : List (String × V)) → contains_key k m ≡ false → remove k m ≡ m
  unfolding remove contains_key
  remove-absent k [] h = refl
  remove-absent k ((j, v) ∷ m) h = ground (arith, remove-absent k m)

  pub get-absent : (k : String) (m : List (String × V)) → contains_key k m ≡ false → get k m ≡ none
  unfolding get contains_key
  get-absent k [] h = refl
  get-absent k ((j, v) ∷ m) h = ground (arith, get-absent k m)

  -- The sum of a weight over the values.
  abbrev pub total_of : (V → ℕ) → List (String × V) → ℕ
  total_of f [] = 0
  total_of f ((_, v) ∷ m) = f v + total_of f m

  abbrev pub weight_or_zero : (V → ℕ) → Option V → ℕ
  weight_or_zero f none = 0
  weight_or_zero f (some v) = f v

  pub total_of-remove :
      (f : V → ℕ) (k : String) (m : List (String × V))
      → DistinctKeys m
      → total_of f (remove k m) + weight_or_zero f (get k m) ≡ total_of f m
  unfolding remove get
  total_of-remove f k [] d = refl
  total_of-remove f k ((j, v) ∷ m) d =
      elim (text_dec j k)
        as (λ t.
          total_of f (ite t (remove k m) ((j, v) ∷ remove k m))
            + weight_or_zero f (ite t (some v) (get k m))
          ≡ f v + total_of f m) [
            | yes e ↦ omega (arith, ap (total_of f) (remove-absent k m (ground (arith, d.0))))
            | no e ↦ omega (arith, total_of-remove f k m d.1)
          ]

  pub length-total_of : (m : List (String × V)) → length m ≡ total_of (λ _. 1) m
  length-total_of [] = refl
  length-total_of (e ∷ m) = omega (arith, length-total_of m)

-- What holds of the entries of a map holds of those that are left, and of one that is put in.
module _ {ℓ κ} {V : Type ℓ} (P : String × V → Type κ) where
  pub All-remove : (k : String) (m : List (String × V)) → All P m → All P (remove k m)
  unfolding remove
  All-remove k [] h = tt
  All-remove k ((j, v) ∷ m) h =
      elim (text_dec j k) as (λ t. All P (ite t (remove k m) ((j, v) ∷ remove k m))) [
        | yes e ↦ All-remove k m h.1
        | no e ↦ (h.0, All-remove k m h.1)
      ]

  pub All-insert :
      (k : String) (v : V) (m : List (String × V)) → P (k, v) → All P m → All P (insert k v m)
  unfolding insert
  All-insert k v m p h = (p, All-remove k m h)

-- A `HashSet<String>`.
unfoldable pub contains : String → List String → Bool
contains k [] = false
contains k (j ∷ s) = ite (text_dec j k) true (contains k s)

pub contains-In : (k : String) (s : List String) → contains k s ≡ true → In k s
unfolding contains
contains-In k [] h = absurd (cc)
contains-In k (j ∷ s) h = elim (text_dec j k) [
  | yes e ↦ here (sym e)
  | no d ↦ there (contains-In k s (ground arith))
]

pub In-contains : (k : String) (s : List String) → In k s → contains k s ≡ true
unfolding contains
In-contains k [] i = elim i [ ]
In-contains k (j ∷ s) (here e) = ground arith
In-contains k (j ∷ s) (there i) = ground (arith, In-contains k s i)

-- Many keys at once, and the keys that a test picks.
module _ {ℓ} {V : Type ℓ} where
  unfoldable pub remove_many : List String → List (String × V) → List (String × V)
  remove_many [] m = m
  remove_many (key ∷ keys) m = remove_many keys (remove key m)

  unfoldable pub keys_where : (String → Bool) → List (String × V) → List String
  keys_where p [] = []
  keys_where p ((key, v) ∷ m) = let rest = keys_where p m in if p key then key ∷ rest else rest

  pub get-remove_many :
      (keys : List String) (q : String) (m : List (String × V))
      → get q (remove_many keys m) ≡ (if contains q keys then none else get q m)
  unfolding remove_many contains
  get-remove_many [] q m = refl
  get-remove_many (key ∷ keys) q m =
      ground (arith, get-remove_many keys q (remove key m), get-remove key q m)

  contains-keys_where :
      (p : String → Bool) (q : String) (m : List (String × V))
      → contains q (keys_where p m) ≡ (p q && contains_key q m)
  unfolding keys_where contains contains_key
  contains-keys_where p q [] = ground arith
  contains-keys_where p q ((key, v) ∷ m) = elim (text_dec key q) [
    | yes same ↦ elim (Bool-cases (p key)) [
      | inl e ↦ rw (e, sym (ap p same), e) (ground (arith, same))
      | inr e ↦ rw (e, sym (ap p same), e) (rw (contains-keys_where p q m, sym (ap p same), e) refl)
    ]
    | no other ↦ elim (Bool-cases (p key)) [
      | inl e ↦ rw e (ground (arith, contains-keys_where p q m))
      | inr e ↦ rw e (ground (arith, contains-keys_where p q m))
    ]
  ]

  -- Taking out the keys that a test picks leaves the others as they are.
  pub get-remove_where :
      (p : String → Bool) (q : String) (m : List (String × V))
      → get q (remove_many (keys_where p m) m) ≡ (if p q then none else get q m)
  get-remove_where p q m =
      get-remove_many (keys_where p m) q m
      ∙ rw (contains-keys_where p q m) (picked (Bool-cases (contains_key q m)))
    where
      picked :
          (contains_key q m ≡ true) ⊎ (contains_key q m ≡ false)
          → (if p q && contains_key q m then none else get q m) ≡ (if p q then none else get q m)
      picked (inl e) = rw e (ground arith)
      picked (inr e) = rw (e, get-absent q m e) (ground arith)
