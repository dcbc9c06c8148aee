-- ===== src/Pipeline/CssImportCycles/Acyclic.antt =====
-- The closing edges of daemon/src/pipeline/css_import_cycles.rs: without them the tree has no cycle.
use import_lens.Prelude.{
  In-contains, ℕ, suc, ◌<◌, ◌≤◌, ◌≡◌, ◌⊎◌, inl, inr, refl, sym, subst, String, Bool, true, false,
  List, [], ◌∷◌, some, ite, arith, text_dec, contains, contains-In, In, here, there, All, All-get,
  Bool-cases, length, if◌then◌else◌,
}
use import_lens.Pipeline.CssImportCycles.{ImportEdge, Walk, closing_edges, nothing_seen}
use import_lens.Pipeline.CssImportCycles.Invariant.{missing-le-length, Ordered, Closes, Leaves}
use import_lens.Pipeline.CssImportCycles.Cut.{visit-Leaves}

-- A chain of one import or more, none of them cut.
pub data Kept (imports : String → List String) (cut : List ImportEdge) (a : String)
    : String → Type 0 where
  keep : {b : String} → In b (imports a) → ¬ In (a, b) cut → Kept imports cut a b
  further :
      {b c : String}
      → Kept imports cut a b
      → In c (imports b)
      → ¬ In (b, c) cut
      → Kept imports cut a c

-- How many sheets had been finished when this one first was; 0 if it is not among them.
age : List String → String → ℕ
age [] s = 0
age (x ∷ f) s =
    let rest = age f s in if contains s f then rest else ite (text_dec x s) (suc (length f)) 0

age-le-length : (f : List String) (s : String) → age f s ≤ length f
unfolding age
age-le-length [] s = omega arith
age-le-length (x ∷ f) s = ground (arith, age-le-length f s)

module _ (imports : String → List String) (cut : List ImportEdge) where
  uncut : (f : List String) (s t : String) → ¬ In (s, t) cut → In (s, t) cut ⊎ In t f → In t f
  uncut f s t kept (inl i) = absurd (kept i)
  uncut f s t kept (inr i) = i

  age-edge :
      (f : List String) (s t : String)
      → Ordered imports cut f
      → In s f
      → In t (imports s)
      → ¬ In (s, t) cut
      → In t f × (age f t < age f s)
  unfolding age
  age-edge [] s t o i edge kept = elim i [ ]
  age-edge (x ∷ f) s t o i edge kept = elim (Bool-cases (contains s f)) [
    | inl old ↦
        let (at, lt) = age-edge f s t o.1 (contains-In s f old) edge kept in
        (there at, rw (old, age) (rw (In-contains t f at, age) lt))
    | inr new ↦ elim i [
      | here e ↦
          let at = uncut f s t kept (
            All-get (λ u. In (s, u) cut ⊎ In u f) (imports s)
              (subst (λ y. All (λ u. In (y, u) cut ⊎ In u f) (imports y)) (sym e) o.0) edge) in
          (there at, ground (arith, In-contains t f at, age-le-length f t))
      | there j ↦ absurd (false-ne-true (contains s f) new (In-contains s f j))
    ]
  ]
    where
      false-ne-true : (b : Bool) → b ≡ false → b ≡ true → ⊥
      false-ne-true b h h' = cc

  age-Kept :
      (f : List String)
      → Ordered imports cut f
      → {s t : String} → In s f
      → Kept imports cut s t
      → In t f × (age f t < age f s)
  age-Kept f o i (keep edge kept) = age-edge f _ _ o i edge kept
  age-Kept f o i (further path edge kept) =
      let (at, lt) = age-Kept f o i path in
      let (to, less) = age-edge f _ _ o at edge kept in (to, omega arith)

  no_cycle :
      (f : List String) → Ordered imports cut f → {s : String} → In s f → ¬ Kept imports cut s s
  no_cycle f o i path = let (_, lt) = age-Kept f o i path in omega arith

-- What the cut promises: every edge of it closes a cycle, and what is left from the entry has none.
pub record Cuts (imports : String → List String) (entry : String) (cut : List ImportEdge)
    : Type 0 where
  pub every_edge_closes : All (Closes imports) cut
  pub no_cycle_at_entry : ¬ Kept imports cut entry entry
  pub no_cycle_below : (s : String) → Kept imports cut entry s → ¬ Kept imports cut s s

Leaves-Cuts :
    (imports : String → List String) (universe : List String) (entry : String) (w w' : Walk)
    → Leaves imports universe entry w w'
    → Cuts imports entry w'.closing
Leaves-Cuts imports universe entry w w' l = record {
  every_edge_closes = l.good.closes;
  no_cycle_at_entry = no_cycle imports w'.closing w'.finished l.good.ordered l.is_finished;
  no_cycle_below = λ s path.
      let (at, _) = age-Kept imports w'.closing w'.finished l.good.ordered l.is_finished path in
      no_cycle imports w'.closing w'.finished l.good.ordered at;
}

-- On a finite tree of stylesheets (`universe` holds the entry and, with a sheet, all that the sheet
-- imports) the walk ends within a depth of one more than the number of sheets. Each edge it returns
-- is an import whose target leads back to the importing sheet, and the imports that are left have no
-- cycle among the sheets that they reach from the entry.
pub closing_edges-Cuts :
    (imports : String → List String) (universe : List String) (entry : String)
    → ((s : String) → In s universe → All (λ t. In t universe) (imports s))
    → In entry universe
    → (cut : List ImportEdge) × (closing_edges imports (suc (length universe)) entry ≡ some cut)
      × Cuts imports entry cut
unfolding closing_edges contains
closing_edges-Cuts imports universe entry closed known =
    let (w, runs, l) =
      visit-Leaves imports universe closed (suc (length universe)) entry nothing_seen
        (record { known = known; is_new = refl; ancestors = tt })
        (record { ordered = tt; closes = tt }) (omega (arith, missing-le-length [] universe)) in
    (w.closing, rw (runs, closing_edges) refl, Leaves-Cuts imports universe entry nothing_seen w l)
