-- ===== src/Pipeline/CssImportCycles/Cut.antt =====
-- The walk of daemon/src/pipeline/css_import_cycles.rs on a finite tree: it ends, and the edges it
-- cuts close every cycle and nothing else.
use import_lens.Prelude.{
  ℕ, zero, suc, ◌<◌, ◌≡◌, inl, inr, refl, sym, subst, ap, ◌∙◌, String, true, false, List, [], ◌∷◌,
  Option, some, arith, contains, contains-In, In, here, there, All, All-get, All-mono, Bool-cases,
}
use import_lens.Pipeline.CssImportCycles.{
  ImportEdge, Walk, remove_sheet, enter, leave, follow, visit,
}
use import_lens.Pipeline.CssImportCycles.Invariant.{
  remove_absent, missing, missing-enter, Ordered-mono, Reaches, stay, onward, Good, Grows,
  Grows-refl, Grows-trans, Enters, Leaves, Handled, Follows,
}

module _ (imports : String → List String) (universe : List String)
    (closed : (s : String) → In s universe → All (λ t. In t universe) (imports s)) where
  abbrev GoodStep : (String → Walk → Option Walk) → ℕ → Type 0
  GoodStep step depth =
      (t : String) (w : Walk)
      → Enters imports universe t w
      → Good imports w
      → missing w.on_stack universe < depth
      → (w' : Walk) × (step t w ≡ some w') × Leaves imports universe t w w'

  -- An edge to a sheet on the stack is cut.
  cut_edge :
      (sheet t : String) (w : Walk)
      → In t (imports sheet)
      → contains t w.on_stack ≡ true
      → All (λ a. Reaches imports a sheet) w.on_stack
      → Good imports w
      → Good imports (record w { closing = (sheet, t) ∷ w.closing })
  cut_edge sheet t w edge on chain g = record {
    ordered =
        Ordered-mono imports w.closing ((sheet, t) ∷ w.closing) (λ e i. there i) w.finished
          g.ordered;
    closes = ((edge, All-get _ w.on_stack chain (contains-In t w.on_stack on)), g.closes);
  }

  Grows-cut : (e : ImportEdge) (w : Walk) → Grows w (record w { closing = e ∷ w.closing })
  Grows-cut e w = record {
    same_stack = refl;
    more_closing = λ d i. there i;
    more_finished = λ s i. i;
  }

  Follows-cons :
      (sheet t : String) (ts : List String) (v w w' : Walk)
      → Grows v w
      → Handled imports universe sheet w t
      → Follows imports universe sheet ts w w'
      → Follows imports universe sheet (t ∷ ts) v w'
  Follows-cons sheet t ts v w w' g h f = record {
    good = f.good;
    grows = Grows-trans v w w' g f.grows;
    handled = (
      elim h [
        | inl i ↦ inl (f.grows.more_closing (sheet, t) i)
        | inr i ↦ inr (f.grows.more_finished t i)
      ],
      f.handled,
    );
  }

  follow-Follows :
      (step : String → Walk → Option Walk) (depth : ℕ)
      → GoodStep step depth
      → (sheet : String) (ts : List String) (w : Walk) → All (λ t. In t (imports sheet)) ts
      → All (λ t. In t universe) ts
      → All (λ a. Reaches imports a sheet) w.on_stack
      → Good imports w
      → missing w.on_stack universe < depth
      → (w' : Walk) × (follow step sheet ts w ≡ some w') × Follows imports universe sheet ts w w'
  unfolding follow
  follow-Follows step depth ih sheet [] w edges known chain g m =
      (w, refl, record { good = g; grows = Grows-refl w; handled = tt })
  follow-Follows step depth ih sheet (t ∷ ts) w edges known chain g m =
      elim (Bool-cases (contains t w.on_stack)) [
        | inl on ↦
            let (w', runs, f) =
              follow-Follows step depth ih sheet ts (record w { closing = (sheet, t) ∷ w.closing })
                edges.1 known.1 chain (cut_edge sheet t w edges.0 on chain g) m in
            (
              w',
              rw (on, follow) runs,
              Follows-cons sheet t ts w _ w' (Grows-cut (sheet, t) w) (inl (here refl)) f,
            )
        | inr off ↦ elim (Bool-cases (contains t w.finished)) [
          | inl done ↦
              let (w', runs, f) =
                follow-Follows step depth ih sheet ts w edges.1 known.1 chain g m in
              (
                w',
                rw (off, follow) (rw (done, follow) runs),
                Follows-cons sheet t ts w w w' (Grows-refl w) (inr (contains-In t w.finished done))
                    f,
              )
          | inr new ↦
              let (v, enters, l) =
                ih t w
                  (record {
                    known = known.0;
                    is_new = off;
                    ancestors = All-mono _ _ (λ a r. onward r edges.0) w.on_stack chain;
                  })
                  g m in
              let same = l.grows.same_stack in
              let (w', runs, f) =
                follow-Follows step depth ih sheet ts v edges.1 known.1
                  (subst (All (λ a. Reaches imports a sheet)) (sym same) chain) l.good
                  (subst (λ st. missing st universe < depth) (sym same) m) in
              (
                w',
                rw (off, follow) (rw (new, follow) (rw (enters, follow) runs)),
                Follows-cons sheet t ts w v w' l.grows (inr l.is_finished) f,
              )
        ]
      ]

  All-self : (P : String → Type 0) (ts : List String) → ((t : String) → In t ts → P t) → All P ts
  All-self P [] f = tt
  All-self P (t ∷ ts) f = (f t (here refl), All-self P ts (λ u i. f u (there i)))

  leave-Leaves :
      (sheet : String) (w w' : Walk)
      → contains sheet w.on_stack ≡ false
      → Follows imports universe sheet (imports sheet) (enter sheet w) w'
      → Leaves imports universe sheet w (leave sheet w')
  unfolding leave enter remove_sheet
  leave-Leaves sheet w w' new f = record {
    good = record { ordered = (f.handled, f.good.ordered); closes = f.good.closes };
    grows = record {
      same_stack =
          ap (remove_sheet sheet) f.grows.same_stack
          ∙ ground (arith, remove_absent sheet w.on_stack new);
      more_closing = f.grows.more_closing;
      more_finished = λ s i. there (f.grows.more_finished s i);
    };
    is_finished = here refl;
  }

  pub visit-Leaves : (depth : ℕ) → GoodStep (visit imports depth) depth
  unfolding visit enter
  visit-Leaves zero sheet w e g m = absurd (omega arith)
  visit-Leaves (suc depth) sheet w e g m =
      let (w', runs, f) =
        follow-Follows (visit imports depth) depth (visit-Leaves depth) sheet (imports sheet)
          (enter sheet w) (All-self _ (imports sheet) (λ t i. i)) (closed sheet e.known)
          (stay, e.ancestors) (record { ordered = g.ordered; closes = g.closes })
          (omega (arith, missing-enter sheet w.on_stack universe e.known e.is_new)) in
      (leave sheet w', rw runs refl, leave-Leaves sheet w w' e.is_new f)
