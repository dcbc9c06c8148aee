-- ===== src/Prelude/Bytes.antt =====
-- Texts as lists of bytes: equality, prefixes and splitting.
use Prim.Native.Nat.{ℕ}
use mathlib.Core.Path.{◌≡◌, refl, ap₂, sym}
use mathlib.Core.Logic.{◌↔◌, inl, inr}
use mathlib.Core.Bool.{Bool, true, false, ◌&&◌}
use mathlib.Core.List.{List, [], ◌∷◌, ◌++◌}
use mathlib.Core.Option.{Option, none, some}
use native.Mathlib.Omega.{arith}
use import_lens.Prelude.Tests.{◌==◌, ==_iff, Bool-cases, if◌then◌else◌}

unfoldable pub bytes_eq : List ℕ → List ℕ → Bool
bytes_eq [] [] = true
bytes_eq [] (_ ∷ _) = false
bytes_eq (_ ∷ _) [] = false
bytes_eq (x ∷ xs) (y ∷ ys) = x == y && bytes_eq xs ys

unfoldable pub strip_prefix : List ℕ → List ℕ → Option (List ℕ)
strip_prefix [] s = some s
strip_prefix (c ∷ p) [] = none
strip_prefix (c ∷ p) (x ∷ s) = let rest = strip_prefix p s in if c == x then rest else none

-- `str::split` at one byte.
unfoldable pub split_on : ℕ → List ℕ → List (List ℕ)
split_on sep [] = [] ∷ []
split_on sep (c ∷ s) =
    let rest = split_on sep s in if c == sep then [] ∷ rest else push_first c rest
  where
    push_first : ℕ → List (List ℕ) → List (List ℕ)
    push_first c [] = (c ∷ []) ∷ []
    push_first c (word ∷ words) = (c ∷ word) ∷ words

pub strip_prefix-split : (p s rest : List ℕ) → strip_prefix p s ≡ some rest → s ≡ p ++ rest
unfolding strip_prefix
strip_prefix-split [] s rest h = cc
strip_prefix-split (c ∷ p) [] rest h = absurd (cc)
strip_prefix-split (c ∷ p) (x ∷ s) rest h = elim (Bool-cases (c == x)) [
  | inl e ↦ ap₂ (λ x s. x ∷ s) (sym ((==_iff c x).0 e)) (strip_prefix-split p s rest (ground arith))
  | inr e ↦ absurd (ground arith)
]

pub strip_prefix-append : (p rest : List ℕ) → strip_prefix p (p ++ rest) ≡ some rest
unfolding strip_prefix
strip_prefix-append [] rest = refl
strip_prefix-append (c ∷ p) rest = rw ((==_iff c c).1 refl, strip_prefix-append p rest) refl

pub strip_prefix_iff : (p s rest : List ℕ) → (strip_prefix p s ≡ some rest) ↔ (s ≡ p ++ rest)
strip_prefix_iff p s rest =
    (strip_prefix-split p s rest, λ e. rw (e, strip_prefix-append p rest) refl)
