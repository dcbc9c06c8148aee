-- ===== src/Pipeline/CssImportCycles.antt =====
-- daemon/src/pipeline/css_import_cycles.rs: the `@import` edges that close a cycle. The recursion of
-- `visit` takes fuel for its depth; a set is the list of what was inserted, the newest first.
pub mod Invariant
pub mod Cut
pub mod Acyclic
use import_lens.Prelude.{
  ℕ, zero, suc, String, Bool, true, false, List, [], ◌∷◌, Option, none, some, ite, text_dec,
  contains,
}

abbrev pub ImportEdge : Type 0
ImportEdge = String × String

pub record Walk : Type 0 where
  pub on_stack : List String
  pub finished : List String
  pub closing : List ImportEdge

-- `BTreeSet::remove` on a set whose sheets went in one by one.
unfoldable pub remove_sheet : String → List String → List String
remove_sheet k [] = []
remove_sheet k (j ∷ s) = let rest = remove_sheet k s in ite (text_dec j k) rest (j ∷ rest)

infixl 5 ◌>>=◌
abbrev pub ◌>>=◌ : Option Walk → (Walk → Option Walk) → Option Walk
none >>= f = none
some w >>= f = f w

unfoldable pub enter : String → Walk → Walk
enter sheet w = record w { on_stack = sheet ∷ w.on_stack }

unfoldable pub leave : String → Walk → Walk
leave sheet w = record w { on_stack = remove_sheet sheet w.on_stack; finished = sheet ∷ w.finished }

-- The loop of `visit` over the targets of `sheet`; `visit` is its recursive call.
unfoldable pub follow : (String → Walk → Option Walk) → String → List String → Walk → Option Walk
follow visit sheet [] w = some w
follow visit sheet (target ∷ targets) w = elim (contains target w.on_stack) [
  | true ↦ follow visit sheet targets (record w { closing = (sheet, target) ∷ w.closing })
  | false ↦ elim (contains target w.finished) [
    | true ↦ follow visit sheet targets w
    | false ↦ do w' ← visit target w; follow visit sheet targets w'
  ]
]

abbrev pub nothing_seen : Walk
nothing_seen = record { on_stack = []; finished = []; closing = [] }

module _ (imports : String → List String) where
  -- `none` says that the walk went deeper than the fuel.
  unfoldable pub visit : ℕ → String → Walk → Option Walk
  visit zero sheet w = none
  visit (suc depth) sheet w = do
    w' ← follow (visit depth) sheet (imports sheet) (enter sheet w)
    some (leave sheet w')

  unfoldable pub closing_edges : ℕ → String → Option (List ImportEdge)
  unfolding visit follow enter leave
  closing_edges depth entry = elim (visit depth entry nothing_seen) [
    | none ↦ none
    | some w ↦ some w.closing
  ]
