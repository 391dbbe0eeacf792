-- ===== src/Eval/Runner.antt =====
-- pkg/eval/types.go, runner.go, evaluators.go and backends.go: a run over a dataset. A UUID is a text,
-- a float64 a value of `F`.
use bunshin_go.Common.{
  String, ℕ, ◌+◌, List, [], ◌∷◌, ◌++◌, Map, Option, none, some, lookup, insert, map, Bool,
  if◌then◌else◌, str_eq, ltb, leb, get_elem?,
}
use Prim.Native.String.{◌++◌ as str_append}
use bunshin_go.Core.Errors.{Error, errorf, Result, ok, err}
use bunshin_go.Core.Value.{Value, null}

-- `Example`, `Dataset`, `EvalRun` and `Score`, with the fields that are read; a latency is a number of
-- nanoseconds.
pub record Example : Type 0 where
  pub id : String
  pub input : Map Value
  pub reference : Map Value

pub record Dataset : Type 0 where
  pub id : String
  pub name : String
  pub examples : List Example

pub record EvalRun : Type 0 where
  pub example_id : String
  pub input : Map Value
  pub actual : Map Value
  pub reference : Map Value
  pub latency : ℕ
  pub failure : Option Error

pub record Score (F : Type 0) : Type 0 where
  pub key : String
  pub value : F
  pub comment : String

-- `Evaluator`; `none` is a nil score.
pub record Evaluator (F : Type 0) : Type 0 where
  pub name : String
  pub evaluate : EvalRun → Result (Option (Score F))

-- Floating-point numbers, and what `fmt` and `strings` do.
pub record Floats (F : Type 0) : Type 0 where
  pub zero_float : F
  pub one_float : F
  pub plus : F → F → F
  pub over : F → ℕ → F
  pub sprint : Value → String
  pub print_error : Error → String
  pub contains_text : String → String → Bool
  pub got_want : String → String → String
  pub missing_phrase : String → String
  pub too_slow : ℕ → ℕ → String

abbrev pub field_of : String → Map Value → Value
field_of k m = elim (lookup k m) [ none ↦ null | some v ↦ v ]

module _ {F : Type 0} (floats : Floats F) where
  abbrev pub failing_run : String → Score F
  failing_run name = record { key = name; value = floats.zero_float; comment = "run error" }

  abbrev pub full_score : String → Score F
  full_score name = record { key = name; value = floats.one_float; comment = "" }

  abbrev pub no_score : String → String → Score F
  no_score name comment = record { key = name; value = floats.zero_float; comment = comment }

  -- `ExactMatch`.
  unfoldable pub exact_match : String → Evaluator F
  exact_match key = record {
    name = str_append "exact_match." key;
    evaluate = λ run.
        let name = str_append "exact_match." key in
        let got = floats.sprint (field_of key run.actual) in
        let want = floats.sprint (field_of key run.reference) in
        elim run.failure [
          | some e ↦ ok (some (failing_run name))
          | none ↦ ok (
              some (
                if str_eq got want
                then full_score name
                else no_score name (floats.got_want got want)))
        ];
  }

  -- The loop of `ContainsAll`: the first phrase that is missing.
  unfoldable pub missing_from : String → List String → Option String
  missing_from text [] = none
  missing_from text (phrase ∷ phrases) =
      let rest = missing_from text phrases in
      if floats.contains_text text phrase then rest else some phrase

  -- `ContainsAll`.
  unfoldable pub contains_all : String → List String → Evaluator F
  contains_all key required = record {
    name = str_append "contains_all." key;
    evaluate = λ run.
        let name = str_append "contains_all." key in
        elim run.failure [
          | some e ↦ ok (some (failing_run name))
          | none ↦ elim (missing_from (floats.sprint (field_of key run.actual)) required) [
            | none ↦ ok (some (full_score name))
            | some phrase ↦ ok (some (no_score name (floats.missing_phrase phrase)))
          ]
        ];
  }

  -- `Latency`, for a maximum that is not negative.
  unfoldable pub latency_within : ℕ → Evaluator F
  latency_within max = record {
    name = "latency";
    evaluate = λ run. ok (
        some (
          if leb run.latency max
          then full_score "latency"
          else no_score "latency" (floats.too_slow run.latency max)));
  }

  -- The loop over the evaluators: a failing one scores 0, a nil score is left out.
  unfoldable pub scores_of : List (Evaluator F) → EvalRun → List (Score F)
  scores_of [] run = []
  scores_of (ev ∷ evs) run =
      let rest = scores_of evs run in
      elim (ev.evaluate run) [
        | err e ↦ no_score ev.name (str_append "evaluator error: " (floats.print_error e)) ∷ rest
        | ok none ↦ rest
        | ok (some s) ↦ s ∷ rest
      ]

  -- `EvalReport`, with the fields that the runs fill.
  pub record EvalReport : Type 0 where
    pub runs : List EvalRun
    pub score_map : Map (List (Score F))

  -- The end of one goroutine.
  unfoldable pub report_run : List (Evaluator F) → EvalRun → EvalReport → EvalReport
  report_run evs run r = record {
    runs = r.runs ++ (run ∷ []);
    score_map = insert run.example_id (scores_of evs run) r.score_map;
  }

  -- The runs that have been started, for the order in which they end.
  unfoldable pub report_all : List (Evaluator F) → List EvalRun → List ℕ → EvalReport → EvalReport
  report_all evs runs [] r = r
  report_all evs runs (i ∷ order) r =
      report_all evs runs order
        (elim (get_elem? runs i) [ none ↦ r | some run ↦ report_run evs run r ])

  -- The sum and the count of a key, as `aggregateScores` keeps them.
  unfoldable pub tally : String → List (Score F) → F × ℕ → F × ℕ
  tally key [] t = t
  tally key (s ∷ ss) (sum, n) =
      tally key ss (if str_eq s.key key then (floats.plus sum s.value, n + 1) else (sum, n))

  unfoldable pub tally_all : String → Map (List (Score F)) → F × ℕ → F × ℕ
  tally_all key [] t = t
  tally_all key ((id, scores) ∷ m) t = tally_all key m (tally key scores t)

  -- `aggregateScores`.
  unfoldable pub aggregate_scores : Map (List (Score F)) → List (Evaluator F) → Map F → Map F
  aggregate_scores m [] means = means
  aggregate_scores m (ev ∷ evs) means =
      let (sum, n) = tally_all ev.name m (floats.zero_float, 0) in
      aggregate_scores m evs (if ltb 0 n then insert ev.name (floats.over sum n) means else means)

-- `runExample`; `now` is the latency, `fn` the function under evaluation.
unfoldable pub run_example :
    {W : Type 0} → (Map Value → W → W × Map Value × Option Error × ℕ) → Example → W → W × EvalRun
run_example fn ex w =
    let (w', actual, failure, latency) = fn ex.input w in
    (
      w',
      record {
        example_id = ex.id;
        input = ex.input;
        actual = actual;
        reference = ex.reference;
        latency = latency;
        failure = failure;
      },
    )

-- `MemoryDatasetBackend`, over the reports.
pub record DatasetBackend (R : Type 0) : Type 0 where
  pub sets : Map Dataset
  pub reports : List R

module _ {R : Type 0} where
  -- `Push`.
  unfoldable pub push : Dataset → DatasetBackend R → DatasetBackend R
  push ds b = record { sets = insert ds.name ds b.sets; reports = b.reports }

  -- `Pull`.
  unfoldable pub pull : String → DatasetBackend R → Result Dataset
  pull name b = elim (lookup name b.sets) [
    | none ↦ err (errorf "dataset %q not found" (name ∷ []))
    | some ds ↦ ok ds
  ]

  -- `PushResults`.
  unfoldable pub push_results : R → DatasetBackend R → DatasetBackend R
  push_results r b = record { sets = b.sets; reports = b.reports ++ (r ∷ []) }

  -- `ListDatasets`, in the order of the range.
  unfoldable pub list_datasets : DatasetBackend R → List Dataset
  list_datasets b = map (λ e. e.1) b.sets
