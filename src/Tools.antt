-- ===== src/Tools.antt =====
-- pkg/tools/registry.go: the registry of tools.
use bunshin_go.Common.{String, List, Map, Option, none, some, lookup, insert, map, [], ◌∷◌}
use bunshin_go.Core.Errors.{Error, errorf, Result, ok, err}
use bunshin_go.Agent.State.{Tool, ToolSchema}

module _ {W : Type 0} where
  -- `ToolRegistry` is its map. `Register`.
  unfoldable pub register : Tool W → Map (Tool W) → Map (Tool W) × Option Error
  register t tools = elim (lookup t.schema.name tools) [
    | some other ↦ (tools, some (errorf "tool %q already registered" (t.schema.name ∷ [])))
    | none ↦ (insert t.schema.name t tools, none)
  ]

  -- `Get`.
  unfoldable pub get : Map (Tool W) → String → Result (Tool W)
  get tools name = elim (lookup name tools) [
    | none ↦ err (errorf "tool %q not found" (name ∷ []))
    | some t ↦ ok t
  ]

  -- `List`.
  unfoldable pub list : Map (Tool W) → List ToolSchema
  list tools = map (λ e. e.1.schema) tools
