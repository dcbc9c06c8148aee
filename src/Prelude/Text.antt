-- ===== src/Prelude/Text.antt =====
-- Equality of texts as a decision, and texts as their code points.
use Prim.Native.Nat.{ℕ}
use Prim.Native.Char.{code}
use Prim.Native.String.{String}
use mathlib.Core.Path.{◌≡◌, refl}
use mathlib.Core.Bool.{Bool, true, false}
use mathlib.Core.List.{List, [], ◌∷◌}
use mathlib.Core.Logic.{◌↔◌, inl, inr}
use text.Mathlib.Text.{◌==◌ as str_eq}
use text.Mathlib.TextEquality.{eq_iff}
use import_lens.Prelude.Tests.{Bool-cases}

-- The code points of a text: its bytes, if it is ASCII.
abbrev pub codes : String → List ℕ
codes String.[] = []
codes (String.◌∷◌ c s) = code c ∷ codes s

dec_of_test : (s t : String) (b : Bool) → (b ≡ true) ↔ (s ≡ t) → Dec (s ≡ t)
dec_of_test s t true e = yes (e.0 refl)
dec_of_test s t false e = no (λ p. elim (Bool-cases false) [ inl q ↦ cc | inr q ↦ cc (e.1 p) ])

-- Two texts are equal, or not.
unfoldable pub text_dec : Discrete String
unfolding dec_of_test
text_dec s t = dec_of_test s t (str_eq s t) (eq_iff s t)
