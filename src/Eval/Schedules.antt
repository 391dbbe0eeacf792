-- ===== src/Eval/Schedules.antt =====
-- pkg/eval/runner.go: what a report holds, in whatever order the runs end.
use mathlib.Core.Path.{subst}
use bunshin_go.Common.{
  ℕ, List, [], ◌∷◌, Option, none, some, lookup, lookup-insert, get_elem?, Bool, true, false, ◌||◌,
  ◌==◌, ◌≡◌, refl, sym, ap, ◌∙◌, arith, eq_iff, ◌⊎◌, inl, inr, Bool-cases, if◌then◌else◌, str_eq,
}
use bunshin_go.Eval.Runner.{
  EvalRun, Evaluator, Floats, EvalReport, scores_of, report_run, report_all,
}

-- An index that is in an order.
abbrev pub occurs : ℕ → List ℕ → Bool
occurs i [] = false
occurs i (j ∷ js) = (j == i) || occurs i js

same_index : (j i : ℕ) → (j == i) ≡ true → j ≡ i
same_index j i h = ground arith

module _ {F : Type 0} (floats : Floats F) (evs : List (Evaluator F)) (runs : List EvalRun) where
  abbrev Scored : EvalRun → EvalReport floats → Type 0
  Scored run r = lookup run.example_id r.score_map ≡ some (scores_of floats evs run)

  -- No other run has the example of this one.
  abbrev pub OwnExample : EvalRun → Type 0
  OwnExample run =
      (j : ℕ) (other : EvalRun)
      → get_elem? runs j ≡ some other
      → other.example_id ≡ run.example_id
      → other ≡ run

  abbrev stepped : Option EvalRun → EvalReport floats → EvalReport floats
  stepped o r = elim o [ none ↦ r | some run ↦ report_run floats evs run r ]

  abbrev step : ℕ → EvalReport floats → EvalReport floats
  step i r = stepped (get_elem? runs i) r

  answer_here : (run : EvalRun) (r : EvalReport floats) → Scored run (report_run floats evs run r)
  unfolding report_run
  answer_here run r = ground (
    arith,
    lookup-insert run.example_id run.example_id (scores_of floats evs run) r.score_map,
    eq_iff run.example_id run.example_id,
  )

  answer_apart :
      (run other : EvalRun) (r : EvalReport floats)
      → str_eq other.example_id run.example_id ≡ false
      → Scored run r
      → Scored run (report_run floats evs other r)
  unfolding report_run
  answer_apart run other r n h =
      lookup-insert other.example_id run.example_id (scores_of floats evs other) r.score_map
      ∙ ap (λ b. if b then some (scores_of floats evs other) else lookup run.example_id r.score_map)
          n
      ∙ h

  answer_step :
      (i : ℕ) (run : EvalRun) (r : EvalReport floats)
      → get_elem? runs i ≡ some run
      → Scored run (step i r)
  answer_step i run r at = subst (λ o. Scored run (stepped o r)) (sym at) (answer_here run r)

  answer_still :
      (j : ℕ) (run : EvalRun) (r : EvalReport floats)
      → OwnExample run
      → Scored run r
      → Scored run (step j r)
  answer_still j run r own h = go (get_elem? runs j) refl
    where
      go : (o : Option EvalRun) → get_elem? runs j ≡ o → Scored run (stepped o r)
      go none at = h
      go (some other) at = elim (Bool-cases (str_eq other.example_id run.example_id)) [
        | inl e ↦
            subst (λ x. Scored run (report_run floats evs x r))
              (sym (own j other at (ground (arith, eq_iff other.example_id run.example_id, e))))
              (answer_here run r)
        | inr n ↦ answer_apart run other r n h
      ]

  report_all-Scored_from :
      (order : List ℕ) (i : ℕ) (run : EvalRun) (r : EvalReport floats)
      → get_elem? runs i ≡ some run
      → OwnExample run
      → (Scored run r) ⊎ (occurs i order ≡ true)
      → Scored run (report_all floats evs runs order r)
  unfolding report_all
  report_all-Scored_from [] i run r at own (inl h) = h
  report_all-Scored_from [] i run r at own (inr h) = absurd cc
  report_all-Scored_from (j ∷ order) i run r at own h =
      report_all-Scored_from order i run (step j r) at own (elim h [
        | inl k ↦ inl (answer_still j run r own k)
        | inr k ↦ elim (Bool-cases (j == i)) [
          | inl e ↦
              inl (
                subst (λ n. Scored run (step n r)) (sym (same_index j i e))
                  (answer_step i run r at))
          | inr n ↦ inr (ground (arith, n, k))
        ]
      ])

  -- In whatever order the runs of a dataset end, the report maps the example of each run that has
  -- ended to the scores that the evaluators give it, if no other run has this example.
  pub report_all-Scored :
      (order : List ℕ) (i : ℕ) (run : EvalRun) (r : EvalReport floats)
      → get_elem? runs i ≡ some run
      → OwnExample run
      → occurs i order ≡ true
      → lookup run.example_id (report_all floats evs runs order r).score_map
        ≡ some (scores_of floats evs run)
  report_all-Scored order i run r at own h = report_all-Scored_from order i run r at own (inr h)
