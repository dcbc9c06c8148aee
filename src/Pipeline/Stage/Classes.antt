-- ===== src/Pipeline/Stage/Classes.antt =====
-- How the classes of stages of daemon/src/pipeline/stage.rs lie to each other.
use import_lens.Prelude.{
  suc, ◌≡◌, refl, ap, sym, subst, String, Bool, true, false, List, [], ◌∷◌, ◌++◌, ite, text_dec,
  contains, In, here, there, contains-In, all, all-get, not, ◌||◌, arith, length, get_elem?, Option,
  some,
}
use import_lens.Pipeline.Stage.{
  engine_stages, diagnostic_stages, pipeline_stages, durable_result_stages, is_transient,
  may_enter_a_durable_store, prevents_budget_verdict, marks_a_floor, position_or_length, rank,
  floor_stages, non_budgetable_result_stages,
}

-- The stages that are neither transient nor kept.
abbrev pub unkept_stages : List String
unkept_stages = "path_alias" ∷ "protocol" ∷ "file_size_fallback" ∷ []

durable_are_not_transient : all (λ s. not (is_transient s)) durable_result_stages ≡ true
unfolding is_transient text_dec
durable_are_not_transient = refl

floors_are_durable : all may_enter_a_durable_store floor_stages ≡ true
unfolding may_enter_a_durable_store text_dec
floors_are_durable = refl

unbudgetable_are_durable : all may_enter_a_durable_store non_budgetable_result_stages ≡ true
unfolding may_enter_a_durable_store text_dec
unbudgetable_are_durable = refl

abbrev pub all_stages : List String
all_stages = engine_stages ++ (diagnostic_stages ++ pipeline_stages)

abbrev pub is_classified : String → Bool
is_classified s = may_enter_a_durable_store s || (is_transient s || contains s unkept_stages)

all_are_classified : all is_classified all_stages ≡ true
unfolding may_enter_a_durable_store is_transient contains text_dec
all_are_classified = refl

false_of_not : (b : Bool) → not b ≡ true → b ≡ false
false_of_not true h = absurd (cc)
false_of_not false h = refl

-- Whatever text a stage is: if it may enter a durable store it is not transient; if it marks a floor or
-- prevents a budget verdict it may enter a durable store. And every stage of the three vocabularies is
-- durable, transient, or one of `path_alias`, `protocol` and `file_size_fallback`.
pub stage-classes :
    (stage : String)
    → (may_enter_a_durable_store stage ≡ true → is_transient stage ≡ false)
      × (marks_a_floor stage ≡ true → may_enter_a_durable_store stage ≡ true)
      × (prevents_budget_verdict stage ≡ true → may_enter_a_durable_store stage ≡ true)
      × (In stage all_stages → is_classified stage ≡ true)
unfolding may_enter_a_durable_store marks_a_floor prevents_budget_verdict
stage-classes stage = (
  λ h. false_of_not (is_transient stage) (
      all-get (λ s. not (is_transient s)) durable_result_stages durable_are_not_transient
        (contains-In stage durable_result_stages h)),
  λ h.
      all-get may_enter_a_durable_store floor_stages floors_are_durable
        (contains-In stage floor_stages h),
  λ h.
      all-get may_enter_a_durable_store non_budgetable_result_stages unbudgetable_are_durable
        (contains-In stage non_budgetable_result_stages h),
  λ i. all-get is_classified all_stages all_are_classified i,
)

get_elem-position :
    (k : String) (s : List String) → In k s → get_elem? s (position_or_length k s) ≡ some k
unfolding position_or_length
get_elem-position k [] i = elim i [ ]
get_elem-position k (j ∷ s) i =
    elim (text_dec j k)
      as (λ d. get_elem? (j ∷ s) (ite d 0 (suc (position_or_length k s))) ≡ some k) [
        | yes e ↦ ap some e
        | no d ↦ elim i [ here e ↦ absurd (d (sym e)) | there h ↦ get_elem-position k s h ]
      ]

position-le :
    (k : String) (s : List String) → contains k s ≡ false → position_or_length k s ≡ length s
unfolding position_or_length contains
position-le k [] h = refl
position-le k (j ∷ s) h = elim (text_dec j k) [
  | yes e ↦ absurd (ground arith)
  | no d ↦ ground (arith, position-le k s (ground arith))
]

-- Two engine stages of one rank are the same, and every other text ranks after all of them: so the
-- failure that is reported does not depend on the order in which the failures were found.
pub rank-injective :
    (a b : String)
    → (In a engine_stages → In b engine_stages → rank a ≡ rank b → a ≡ b)
      × (contains a engine_stages ≡ false → rank a ≡ length engine_stages)
unfolding rank
rank-injective a b = (
  λ i j e.
      same (get_elem? engine_stages (rank b))
        (subst (λ n. get_elem? engine_stages n ≡ some a) e (get_elem-position a engine_stages i))
        (get_elem-position b engine_stages j),
  λ h. position-le a engine_stages h,
)
  where
    same : (o : Option String) → o ≡ some a → o ≡ some b → a ≡ b
    same o p q = cc
