-- ===== src/Agent/State.antt =====
-- pkg/agent/types.go and pkg/agent/interfaces.go: the state of an agent and what it calls.
use bunshin_go.Common.{String, List, [], ◌∷◌, Map, Option, none, some}
use bunshin_go.Core.Errors.{Error, Result}
use bunshin_go.Core.Value.{Value}
use bunshin_go.Core.State.{State}
use bunshin_go.Llm.Messages.{Message}

-- `AgentState`.
pub record AgentState : Type 0 where
  pub task : String
  pub args : Option (Map Value)
  pub messages : List Message

-- `tools.ToolSchema`.
pub record ToolSchema : Type 0 where
  pub name : String
  pub description : String
  pub parameters : Option (Map Value)

-- `tools.Tool`: the arguments are a text in JSON.
pub record Tool (W : Type 0) : Type 0 where
  pub schema : ToolSchema
  pub invoke : String → W → W × Result Value

-- A compiled agent as another agent calls it. Its own loop counter is in the world.
pub record SubAgent (W : Type 0) : Type 0 where
  pub schema : ToolSchema
  pub agent_names : List String
  pub invoke : State AgentState → W → W × (State AgentState × Option Error)

-- What `fmt` and `encoding/json` supply: `%v` of a value and of an error, `%q`, `json.Marshal`, and
-- `json.Unmarshal` into a `map[string]any`, which may leave it nil.
pub record Format : Type 0 where
  pub sprint : Value → String
  pub sprint_error : Error → String
  pub quote : String → String
  pub marshal : Value → Result String
  pub unmarshal_map : String → Result (Option (Map Value))

-- The last element of a list.
unfoldable pub last_of {ℓ} : {A : Type ℓ} → List A → Option A
last_of [] = none
last_of (x ∷ []) = some x
last_of (x ∷ y ∷ xs) = last_of (y ∷ xs)
