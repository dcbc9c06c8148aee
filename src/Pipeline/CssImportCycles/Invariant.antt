-- ===== src/Pipeline/CssImportCycles/Invariant.antt =====
-- What the walk of daemon/src/pipeline/css_import_cycles.rs keeps at every sheet, over a finite
-- tree of stylesheets.
use import_lens.Prelude.{
  ℕ, suc, ◌<◌, ◌≤◌, ◌≡◌, ◌⊎◌, inl, inr, refl, ◌∙◌, String, false, List, [], ◌∷◌, arith, contains,
  In, here, there, All, All-mono, length, if◌then◌else◌,
}
use import_lens.Pipeline.CssImportCycles.{ImportEdge, Walk, remove_sheet}

pub remove_absent : (k : String) (s : List String) → contains k s ≡ false → remove_sheet k s ≡ s
unfolding contains remove_sheet
remove_absent k [] h = refl
remove_absent k (j ∷ s) h = ground (arith, remove_absent k s)

-- How many sheets of a list are not on the stack.
pub missing : List String → List String → ℕ
missing stack [] = 0
missing stack (u ∷ us) = let rest = missing stack us in if contains u stack then rest else suc rest

pub missing-le-length : (stack us : List String) → missing stack us ≤ length us
unfolding missing
missing-le-length stack [] = omega arith
missing-le-length stack (u ∷ us) = ground (arith, missing-le-length stack us)

missing-cons-le : (k : String) (stack us : List String) → missing (k ∷ stack) us ≤ missing stack us
unfolding missing contains
missing-cons-le k stack [] = omega arith
missing-cons-le k stack (u ∷ us) = ground (arith, missing-cons-le k stack us)

pub missing-enter :
    (k : String) (stack us : List String)
    → In k us
    → contains k stack ≡ false
    → missing (k ∷ stack) us < missing stack us
unfolding missing contains
missing-enter k stack [] i h = elim i [ ]
missing-enter k stack (u ∷ us) (here e) h = ground (arith, missing-cons-le k stack us)
missing-enter k stack (u ∷ us) (there i) h = ground (arith, missing-enter k stack us i h)

-- Every import of a finished sheet is cut, or leads to a sheet that was finished before it.
abbrev pub Ordered : (String → List String) → List ImportEdge → List String → Type 0
Ordered imports cut [] = Unit
Ordered imports cut (s ∷ f) = All (λ t. In (s, t) cut ⊎ In t f) (imports s) × Ordered imports cut f

-- A chain of imports, which may be empty.
pub data Reaches (imports : String → List String) (a : String) : String → Type 0 where
  stay : Reaches imports a a
  onward : {b c : String} → Reaches imports a b → In c (imports b) → Reaches imports a c

-- An edge of the tree whose target leads back to its source.
abbrev pub Closes : (String → List String) → ImportEdge → Type 0
Closes imports e = In (e.1) (imports (e.0)) × Reaches imports (e.1) (e.0)

pub record Good (imports : String → List String) (w : Walk) : Type 0 where
  pub ordered : Ordered imports w.closing w.finished
  pub closes : All (Closes imports) w.closing

-- What a step of the walk leaves alone or only adds to.
pub record Grows (w w' : Walk) : Type 0 where
  pub same_stack : w'.on_stack ≡ w.on_stack
  pub more_closing : (e : ImportEdge) → In e w.closing → In e w'.closing
  pub more_finished : (s : String) → In s w.finished → In s w'.finished

pub Ordered-mono :
    (imports : String → List String) (cut cut' : List ImportEdge)
    → ((e : ImportEdge) → In e cut → In e cut')
    → (f : List String) → Ordered imports cut f
    → Ordered imports cut' f
Ordered-mono imports cut cut' more [] h = tt
Ordered-mono imports cut cut' more (s ∷ f) h = (
  All-mono _ _ (λ t o. elim o [ inl i ↦ inl (more (s, t) i) | inr i ↦ inr i ]) (imports s) h.0,
  Ordered-mono imports cut cut' more f h.1,
)

pub Grows-refl : (w : Walk) → Grows w w
Grows-refl w = record { same_stack = refl; more_closing = λ e i. i; more_finished = λ s i. i }

pub Grows-trans : (u v w : Walk) → Grows u v → Grows v w → Grows u w
Grows-trans u v w g h = record {
  same_stack = h.same_stack ∙ g.same_stack;
  more_closing = λ e i. h.more_closing e (g.more_closing e i);
  more_finished = λ s i. h.more_finished s (g.more_finished s i);
}

module _ (imports : String → List String) (universe : List String) where
  -- Where the walk may enter a sheet.
  pub record Enters (sheet : String) (w : Walk) : Type 0 where
    pub known : In sheet universe
    pub is_new : contains sheet w.on_stack ≡ false
    pub ancestors : All (λ a. Reaches imports a sheet) w.on_stack

  -- What the walk has done once it leaves a sheet.
  pub record Leaves (sheet : String) (w w' : Walk) : Type 0 where
    pub good : Good imports w'
    pub grows : Grows w w'
    pub is_finished : In sheet w'.finished

  abbrev pub Handled : String → Walk → String → Type 0
  Handled sheet w t = In (sheet, t) w.closing ⊎ In t w.finished

  -- What the loop over some targets of a sheet has done when it ends.
  pub record Follows (sheet : String) (targets : List String) (w w' : Walk) : Type 0 where
    pub good : Good imports w'
    pub grows : Grows w w'
    pub handled : All (Handled sheet w') targets
