-- ===== src/Pipeline/Samples.antt =====
-- Runs of the modules on daemon/src/pipeline, and an input where each of their theorems applies.
use import_lens.Prelude.{
  ◌≡◌, refl, String, List, [], ◌∷◌, some, ite, text_dec, contains, In, here, there, All, subst, sym,
  true, false,
}
use import_lens.Pipeline.Stage.{
  is_transient, may_enter_a_durable_store, prevents_budget_verdict, marks_a_floor,
}
use import_lens.Pipeline.Stage.Classes.{all_stages, is_classified, stage-classes}
use import_lens.Pipeline.CssImportCycles.{ImportEdge, closing_edges}
use import_lens.Pipeline.CssImportCycles.Acyclic.{Cuts, closing_edges-Cuts}

-- e imports a, a imports b, and b imports a again.
abbrev sheets : String → List String
sheets s =
    ite (text_dec s "e") ("a" ∷ [])
      (ite (text_dec s "a") ("b" ∷ []) (ite (text_dec s "b") ("a" ∷ []) []))

abbrev tree : List String
tree = "e" ∷ "a" ∷ "b" ∷ []

the_back_edge_is_cut : closing_edges sheets 4 "e" ≡ some (("b", "a") ∷ [])
unfolding closing_edges text_dec contains
the_back_edge_is_cut = refl

tree_is_closed : (s : String) → In s tree → All (λ t. In t tree) (sheets s)
unfolding text_dec
tree_is_closed s (here e) =
    subst (λ x. All (λ t. In t tree) (sheets x)) (sym e) (there (here refl), tt)
tree_is_closed s (there (here e)) =
    subst (λ x. All (λ t. In t tree) (sheets x)) (sym e) (there (there (here refl)), tt)
tree_is_closed s (there (there (here e))) =
    subst (λ x. All (λ t. In t tree) (sheets x)) (sym e) (there (here refl), tt)
tree_is_closed s (there (there (there i))) = elim i [ ]

closing_edges-Cuts_example :
    (cut : List ImportEdge) × (closing_edges sheets 4 "e" ≡ some cut) × Cuts sheets "e" cut
closing_edges-Cuts_example = closing_edges-Cuts sheets tree "e" tree_is_closed (here refl)

stage-classes_example :
    (may_enter_a_durable_store "resolve" ≡ true → is_transient "resolve" ≡ false)
    × (marks_a_floor "resolve" ≡ true → may_enter_a_durable_store "resolve" ≡ true)
    × (prevents_budget_verdict "resolve" ≡ true → may_enter_a_durable_store "resolve" ≡ true)
    × (In "resolve" all_stages → is_classified "resolve" ≡ true)
stage-classes_example = stage-classes "resolve"

abbrev link_stage : String
link_stage = "link"

abbrev parse_stage : String
parse_stage = "parse"
