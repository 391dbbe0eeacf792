-- ===== src/Agent/Compile.antt =====
-- pkg/agent/compiler.go: `Compile`, and pkg/agent/interfaces.go: compiled agents.
use bunshin_go.Common.{String, ℕ, List, [], ◌∷◌, Map, Option, none, some, Bool, if◌then◌else◌}
use bunshin_go.Core.Errors.{Error, errorf, wrapf, wrap_error, Result, ok, err}
use bunshin_go.Core.Value.{ℤ, pos, Value}
use bunshin_go.Core.State.{State}
use bunshin_go.Graph.{Graph, Final, invoke}
use bunshin_go.Store.Agents.{AgentSpec}
use bunshin_go.Prompt.Fragments.{Fragment}
use bunshin_go.Llm.Fallback.{Provider}
use bunshin_go.Llm.Messages.{Request, Response}
use bunshin_go.Llm.Registry.{ProviderRegistry}
use bunshin_go.Agent.State.{AgentState, ToolSchema, Tool, SubAgent, Format}
use bunshin_go.Agent.Nodes.{llm_node, tools_node}
use bunshin_go.Agent.Loop.{agent_graph}
use bunshin_go.Agent.Kahn.{is_zero}
use bunshin_go.Agent.Resolve.{Outcome, resolved, cyclic, refused, resolve_agents}
use bunshin_go.Agent.Linking.{resolve_tools, resolve_skills, select_provider}

-- `CompiledAgent`. The variable of its router is in front of the world.
pub record CompiledAgent (W : Type 0) : Type 0 where
  pub name : String
  pub description : String
  pub graph : Graph AgentState (ℕ × W)
  pub input_schema : Option (Map Value)
  pub output_schema : Option (Map Value)
  pub max_iterations : ℤ
  pub agent_names : List String

-- `CompileRegistries` for a tenant, on the state that the resolvers read, and the sort of `Select`.
pub record CompileRegistries (W : Type 0) : Type 0 where
  pub tools : Map (Tool W)
  pub agents : String → W → W × Result (SubAgent W)
  pub skills : String → W → W × Result String
  pub prompts : String → W → W × Result Fragment
  pub llm : ProviderRegistry Request Response W
  pub sort :
      (Provider Request Response W → Provider Request Response W → Bool)
      → List (Provider Request Response W)
      → List (Provider Request Response W)

-- `maxIter`.
abbrev pub iterations : ℤ → ℤ
iterations n = if is_zero n then pos 8 else n

-- `formatCyclePath`: the texts that are joined.
abbrev pub cycle_words : List String → List String
cycle_words [] = "unknown cycle" ∷ []
cycle_words (n ∷ ns) = n ∷ ns

module _ {W : Type 0} (fmt : Format) (empty_schema : Option (Map Value)) where
  -- Steps 6 to 8 of `Compile`.
  unfoldable pub assemble :
      AgentSpec
      → Fragment
      → Map (Tool W)
      → Map (SubAgent W)
      → Map String
      → Provider Request Response W
      → CompiledAgent W
  assemble spec prompt tools agents skills provider = record {
    name = spec.name;
    description = spec.description;
    graph =
        agent_graph spec.name (iterations spec.max_iterations)
          (llm_node spec.name prompt.content empty_schema provider tools agents skills)
          (tools_node fmt tools agents skills);
    input_schema = spec.input_schema;
    output_schema = spec.output_schema;
    max_iterations = iterations spec.max_iterations;
    agent_names = spec.agents;
  }

  -- Steps 4 and 5 of `Compile`, and the rest.
  unfoldable pub link :
      CompileRegistries W
      → AgentSpec
      → Fragment
      → Map (Tool W)
      → Map (SubAgent W)
      → W
      → W × Result (CompiledAgent W)
  link registries spec prompt tools agents w =
      let (w', skills) = resolve_skills registries.skills spec.skills w in
      elim skills [
        | err e ↦ (w', err (wrapf "agent %q: resolve skills: %w" (spec.name ∷ []) e))
        | ok found ↦ elim (select_provider registries.sort registries.llm spec.tier spec.tags) [
          | err e ↦ (w', err (wrapf "agent %q: resolve LLM: %w" (spec.name ∷ []) e))
          | ok provider ↦ (w', ok (assemble spec prompt tools agents found provider))
        ]
      ]

  -- What `Compile` does with the outcome of step 3.
  unfoldable pub link_agents :
      CompileRegistries W
      → AgentSpec
      → Fragment
      → Map (Tool W)
      → Outcome W
      → W
      → W × Result (CompiledAgent W)
  link_agents registries spec prompt tools (cyclic c) w =
      (w, err (errorf "agent %q: cycle in agents: %s" (spec.name ∷ cycle_words c)))
  link_agents registries spec prompt tools (refused e) w =
      (w, err (wrapf "agent %q: resolve agents: %w" (spec.name ∷ []) e))
  link_agents registries spec prompt tools (resolved agents) w =
      link registries spec prompt tools agents w

  -- Steps 2 and 3 of `Compile`, and the rest.
  unfoldable pub compile_tools :
      ℕ → CompileRegistries W → AgentSpec → Fragment → W → Option (W × Result (CompiledAgent W))
  compile_tools fuel registries spec prompt w = elim (resolve_tools registries.tools spec.tools) [
    | err e ↦ some (w, err (wrapf "agent %q: resolve tools: %w" (spec.name ∷ []) e))
    | ok tools ↦ elim (resolve_agents registries.agents fuel spec.agents spec.name w) [
      | none ↦ none
      | some r ↦ some (link_agents registries spec prompt tools r.1 r.0)
    ]
  ]

  -- `Compile`, on fuel for the search for agents; a nil definition is `none`.
  unfoldable pub compile :
      ℕ → CompileRegistries W → Option AgentSpec → W → Option (W × Result (CompiledAgent W))
  compile fuel registries none w = some (w, err (errorf "agent: Compile: spec is nil" []))
  compile fuel registries (some spec) w =
      let (w', prompt) = registries.prompts spec.slug w in
      elim prompt [
        | err e ↦
            some (w', err (wrapf "agent %q: system prompt %q: %w" (spec.name ∷ spec.slug ∷ []) e))
        | ok fragment ↦ compile_tools fuel registries spec fragment w'
      ]

module _ {W : Type 0} where
  -- `Schema`.
  abbrev pub schema : CompiledAgent W → ToolSchema
  schema ca = record { name = ca.name; description = ca.description; parameters = ca.input_schema }

  -- `Invoke` on a state, on fuel for the graph.
  unfoldable pub invoke_agent :
      (ℕ × W → Option Error)
      → ℕ
      → CompiledAgent W
      → State AgentState
      → ℕ × W
      → Option (Final AgentState (ℕ × W))
  invoke_agent ctx_err fuel ca s w = elim (invoke ctx_err ca.graph fuel s w) [
    | none ↦ none
    | some f ↦ some (record f { error = wrap_error ca.name f.error })
  ]
