-- ===== src/Workflow/Registry.antt =====
-- pkg/workflow/registry.go: the registries of Go-defined runnables and of router factories.
use bunshin_go.Common.{
  String, [], ◌∷◌, Map, Option, none, some, lookup, insert, if◌then◌else◌, str_eq, ◌||◌, is_some,
}
use bunshin_go.Core.Errors.{errorf, wrapf, Result, ok, err}
use bunshin_go.Core.Attempt.{Attempt, returns, fails, panics, calls, ◌>>=◌}
use bunshin_go.Core.Value.{Value}
use bunshin_go.Core.State.{State}
use bunshin_go.Graph.{Router}
use bunshin_go.Eip.Values.{Data}
use bunshin_go.Workflow.Spec.{RouterRef}

-- A `core.Runnable` that a custom node or router calls with a state. It returns any value: a state,
-- a string, or a value of another type; or an error, with the state as the caller sees it.
pub data Output : Type 0 where
  state : State Data → Output
  text : String → Output
  other : Output

pub record Invoked : Type 0 where
  pub seen : State Data
  pub result : Result Output

abbrev pub Custom : Type 0 → Type 0
Custom W = State Data → W → W × Invoked

-- `Register` of `RunnableRegistry` and of `RouterRegistry`: `none` is a panic, on an empty name, a
-- nil entry or a name that is taken.
unfoldable pub register {ℓ} : {E : Type ℓ} → String → Option E → Map E → Option (Map E)
register name entry m = elim entry [
  | none ↦ none
  | some e ↦ if str_eq name "" || is_some (lookup name m) then none else some (insert name e m)
]

-- `RunnableRegistry.Get`.
unfoldable pub get_runnable {ℓ} : {E : Type ℓ} → String → Map E → Result E
get_runnable name m = elim (lookup name m) [
  | none ↦ err (errorf "workflow.RunnableRegistry: runnable %q not found" (name ∷ []))
  | some e ↦ ok e
]

-- `RouterFactory`.
abbrev pub Factory : Type 0 → Type 0
Factory W = Option (Map Value) → Result (Router Data W)

module _ {W : Type 0} where
  -- The closure of `buildCustom`.
  unfoldable pub custom_router : String → Custom W → Router Data W
  custom_router name r s w =
      let (w', out) = r s w in
      (
        w',
        record {
          seen = out.seen;
          next = elim out.result [
            | err e ↦ err e
            | ok (text next) ↦ ok next
            | ok _ ↦ err (
                errorf "workflow: custom router %q returned %T, want string (node ID or graph.END)"
                  (name ∷ []))
          ];
        },
      )

  -- `buildCustom`: a nil registry of runnables is dereferenced.
  unfoldable pub build_custom : RouterRef → Option (Map (Custom W)) → Attempt (Router Data W)
  unfolding get_runnable
  build_custom ref customs =
      if str_eq ref.name ""
      then fails (errorf "workflow.RouterRegistry: custom router missing name" [])
      else elim customs [
        | none ↦ panics
        | some m ↦ elim (get_runnable ref.name m) [
          | err e ↦ fails (wrapf "workflow.RouterRegistry: custom router: %w" [] e)
          | ok r ↦ returns (custom_router ref.name r)
        ]
      ]

  -- `Build`; `none` is a nil reference, which builds the nil router.
  unfoldable pub build :
      Option RouterRef
      → Map (Factory W)
      → Option (Map (Custom W))
      → Attempt (Option (Router Data W))
  unfolding build_custom
  build none factories customs = returns none
  build (some ref) factories customs =
      if str_eq ref.kind "custom"
      then (build_custom ref customs >>= λ r. returns (some r))
      else elim (lookup ref.kind factories) [
        | none ↦ fails (errorf "workflow.RouterRegistry: unknown router type %q" (ref.kind ∷ []))
        | some factory ↦ (calls (factory ref.config) >>= λ r. returns (some r))
      ]
