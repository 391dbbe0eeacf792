-- ===== src/Workflow/Compiler.antt =====
-- pkg/workflow/compiler.go: from a workflow definition to a graph.
use bunshin_go.Common.{
  String, ℕ, suc, ◌+◌, List, [], ◌∷◌, Map, Option, none, some, insert, if◌then◌else◌, str_eq,
  get_elem?, Bool, not,
}
use bunshin_go.Core.Errors.{errorf, wrapf, Result, ok, err, ◌>>=◌, wrap}
use bunshin_go.Core.Attempt
use bunshin_go.Core.Attempt.{Attempt, returns, fails, panics, calls, wrap_attempt}
use bunshin_go.Core.Value.{Value, null, string, dict, Fields, no_fields, field}
use bunshin_go.Core.State.{State, get_key, entries}
use bunshin_go.Graph.{
  Router, Runnable, Reply, done, failed, Node, Graph, new_graph, add_node, set_entry, end_node,
}
use bunshin_go.Eip.Values.{Data}
use bunshin_go.Workflow.Spec.{NodeSpec, Spec}
use bunshin_go.Workflow.Registry.{state, Custom, Factory, get_runnable, build}

-- The services of a node. A provider turns the user message into the content of a response; a tool
-- turns a value into another; `text/template` parses a text and renders it with variables.
pub record Services (W : Type 0) : Type 1 where
  pub Template : Type 0
  pub parse_template : String → String → Result Template
  pub execute : Template → Map Value → Result String
  pub fragment : String → Result String
  pub tier : String → List (String → W → W × Result String)
  pub provider : String → Option (String → W → W × Result String)
  pub tool : String → Result (Value → W → W × Result Value)

-- `Registries`, over the services. A registry that is nil is recorded by a test.
pub record Registries (W : Type 0) : Type 1 where
  pub services : Services W
  pub has_llm : Option (Unit {0})
  pub has_tools : Option (Unit {0})
  pub has_prompts : Option (Unit {0})
  pub customs : Option (Map (Custom W))
  pub routers : Option (Map (Factory W))

-- `state.Data` handed over as a value.
abbrev pub map_to_fields : Map Value → Fields
map_to_fields [] = no_fields
map_to_fields ((k, v) ∷ m) = field k v (map_to_fields m)

-- `state.Data[key]`, nil where it is missing.
abbrev pub read : Data → String → Value
read d k = elim (get_key d k) [ none ↦ null | some v ↦ v ]

-- The write of a node's output: `Data` is made first where it is nil; no key, no write.
unfoldable pub write_output : String → Value → State Data → State Data
write_output k v s =
    if str_eq k "" then s else record s { payload = some (insert k v (entries s.payload)) }

abbrev not_empty : String → Bool
not_empty s = not (str_eq s "")

-- The node after position `idx`: `END` after the last one.
unfoldable pub next_by_position : ℕ → List NodeSpec → String
next_by_position idx nodes = elim (get_elem? nodes (idx + 1)) [ none ↦ end_node | some n ↦ n.id ]

module _ {W : Type 0} where
  abbrev pub fixed_router : String → Router Data W
  fixed_router next s w = (w, record { seen = s; next = ok next })

  -- The calls of `AddNode`; `none` is a panic.
  unfoldable pub add_all : List (Node Data W) → Graph Data W → Option (Graph Data W)
  add_all [] g = some g
  add_all (n ∷ ns) g = elim (add_node n g) [ none ↦ none | some g' ↦ add_all ns g' ]

  abbrev pub entry_of : List (Node Data W) → String
  entry_of [] = ""
  entry_of (n ∷ ns) = n.id

  -- The part of `CompileContext` after the nodes are built.
  unfoldable pub assemble : String → List (Node Data W) → Attempt (Graph Data W)
  assemble name nodes = elim (add_all nodes (new_graph name)) [
    | none ↦ panics
    | some g ↦ returns (set_entry (entry_of nodes) g)
  ]

module _ {W : Type 0} (regs : Registries W) where
  open regs use {services, customs, routers}
  open services use {Template, parse_template, execute, fragment, tier, provider, tool}

  abbrev Provider : Type 0
  Provider = String → W → W × Result String

  -- The provider of an llm node.
  unfoldable pub resolve_provider : NodeSpec → Result Provider
  resolve_provider ns =
      if not_empty ns.runnable.provider_tier
      then elim (tier ns.runnable.provider_tier) [
        | [] ↦ err (errorf "llm node: no provider with tier=%q" (ns.runnable.provider_tier ∷ []))
        | p ∷ ps ↦ ok p
      ]
      else if not_empty ns.runnable.provider_id
      then elim (provider ns.runnable.provider_id) [
        | none ↦ err (errorf "llm node: provider %q not found" (ns.runnable.provider_id ∷ []))
        | some p ↦ ok p
      ]
      else err (errorf "llm node requires provider_tier or provider_id" [])

  -- The template of an llm node; `none` where it names no prompt.
  unfoldable pub resolve_template : NodeSpec → Result (Option Template)
  resolve_template ns =
      if not_empty ns.runnable.prompt
      then elim regs.has_prompts [
        | none ↦ err (
            errorf "llm node: prompt %q specified but no Prompts registry"
              (ns.runnable.prompt ∷ []))
        | some _ ↦ do
          content ←
              wrap "llm node: prompt fragment %q: %w" (ns.runnable.prompt ∷ [])
                (fragment ns.runnable.prompt)
          t ←
              wrap "llm node: parse prompt %q: %w" (ns.runnable.prompt ∷ [])
                (parse_template ns.runnable.prompt content)
          ok (some t)
      ]
      else ok none

  -- The variables of a template: the data, and the value under the input key as "Input".
  unfoldable pub template_vars : NodeSpec → Data → Map Value
  template_vars ns d =
      if not_empty ns.runnable.input_key
      then insert "Input" (read d ns.runnable.input_key) (entries d)
      else entries d

  -- The user message of an llm node.
  unfoldable pub user_message : NodeSpec → Option Template → State Data → Result String
  user_message ns none s = ok ""
  user_message ns (some t) s =
      wrap "workflow llm node %q: render prompt: %w" (ns.id ∷ [])
        (execute t (template_vars ns s.payload))

  -- The end of an llm or tool node: its output is written, or its error returned with the state.
  abbrev pub deliver : String → NodeSpec → State Data → W × Result Value → W × Reply Data
  deliver format ns s (w, err e) = (w, failed (wrapf format (ns.id ∷ []) e) s)
  deliver format ns s (w, ok v) = (w, done (write_output ns.runnable.output_key v s))

  abbrev as_value : W × Result String → W × Result Value
  as_value (w, err e) = (w, err e)
  as_value (w, ok content) = (w, ok (string content))

  -- The closure of `buildLLMRunnable`.
  unfoldable pub llm_node : NodeSpec → Provider → Option Template → Runnable Data W
  llm_node ns p t s w = elim (user_message ns t s) [
    | err e ↦ (w, failed e s)
    | ok message ↦ deliver "workflow llm node %q: %w" ns s (as_value (p message w))
  ]

  -- `buildLLMRunnable`.
  unfoldable pub build_llm_runnable : NodeSpec → Result (Runnable Data W)
  build_llm_runnable ns = elim regs.has_llm [
    | none ↦ err (errorf "llm node requires LLM registry" [])
    | some _ ↦ do p ← resolve_provider ns; t ← resolve_template ns; ok (llm_node ns p t)
  ]

  -- The closure of `buildToolRunnable`.
  unfoldable pub tool_node : NodeSpec → (Value → W → W × Result Value) → Runnable Data W
  tool_node ns call s w =
      let input =
        if not_empty ns.runnable.input_key
        then read s.payload ns.runnable.input_key
        else dict (map_to_fields (entries s.payload)) in
      deliver "workflow tool node %q: %w" ns s (call input w)

  -- `buildToolRunnable`.
  unfoldable pub build_tool_runnable : NodeSpec → Result (Runnable Data W)
  build_tool_runnable ns = elim regs.has_tools [
    | none ↦ err (errorf "tool node requires Tools registry" [])
    | some _ ↦
        if str_eq ns.runnable.name ""
        then err (errorf "tool node missing name" [])
        else do call ← wrap "tool node: %w" [] (tool ns.runnable.name); ok (tool_node ns call)
  ]

  -- The closure of `buildCustomRunnable`: only a state is accepted as the result.
  unfoldable pub custom_node : NodeSpec → Custom W → Runnable Data W
  custom_node ns r s w =
      let (w', out) = r s w in
      (
        w',
        elim out.result [
          | err e ↦ failed (wrapf "workflow custom node %q: %w" (ns.id ∷ []) e) out.seen
          | ok (state s') ↦ done s'
          | ok _ ↦
              failed
                (errorf "workflow custom node %q: returned %T, want State[map[string]any]"
                  (ns.id ∷ []))
                out.seen
        ],
      )

  -- `buildCustomRunnable`.
  unfoldable pub build_custom_runnable : NodeSpec → Result (Runnable Data W)
  build_custom_runnable ns = elim customs [
    | none ↦ err (errorf "custom node requires Custom registry" [])
    | some m ↦ if str_eq ns.runnable.name "" then err (errorf "custom node missing name" []) else do
      r ← wrap "custom node: %w" [] (get_runnable ns.runnable.name m)
      ok (custom_node ns r)
  ]

  -- `buildRunnable`.
  unfoldable pub build_runnable : NodeSpec → Result (Runnable Data W)
  build_runnable ns =
      if str_eq ns.runnable.kind "llm"
      then build_llm_runnable ns
      else if str_eq ns.runnable.kind "tool"
      then build_tool_runnable ns
      else if str_eq ns.runnable.kind "custom"
      then build_custom_runnable ns
      else err (errorf "unknown runnable type %q (want llm|tool|custom)" (ns.runnable.kind ∷ []))

  -- `buildRouter`.
  unfoldable pub build_router : NodeSpec → ℕ → List NodeSpec → Attempt (Option (Router Data W))
  build_router ns idx nodes = elim ns.router [
    | some ref ↦ elim routers [
      | none ↦ fails (errorf "router declared but no RouterRegistry provided" [])
      | some factories ↦ build (some ref) factories customs
    ]
    | none ↦
        returns
          (some (fixed_router (if str_eq ns.next "" then next_by_position idx nodes else ns.next)))
  ]

  -- One round of the loop of `buildNodes`.
  unfoldable pub build_node : List NodeSpec → ℕ → NodeSpec → Attempt (Node Data W)
  build_node nodes idx ns =
      Attempt.◌>>=◌ (calls (wrap "workflow: node %q: %w" (ns.id ∷ []) (build_runnable ns)))
        λ runnable.
          Attempt.◌>>=◌
            (wrap_attempt "workflow: node %q: router: %w" (ns.id ∷ []) (build_router ns idx nodes))
            λ router. returns (record { id = ns.id; runnable = runnable; router = router })

  -- The loop of `buildNodes`, from position `idx` on.
  unfoldable pub build_from : List NodeSpec → ℕ → List NodeSpec → Attempt (List (Node Data W))
  build_from nodes idx [] = returns []
  build_from nodes idx (ns ∷ rest) =
      Attempt.◌>>=◌ (build_node nodes idx ns)
        λ n. Attempt.◌>>=◌ (build_from nodes (suc idx) rest) λ later. returns (n ∷ later)

  -- `buildNodes`.
  unfoldable pub build_nodes : Spec → Attempt (List (Node Data W))
  build_nodes spec = build_from spec.nodes 0 spec.nodes

  -- `CompileContext`.
  unfoldable pub compile : Option Spec → Attempt (Graph Data W)
  compile none = fails (errorf "workflow.Compile: spec is nil" [])
  compile (some spec) = elim spec.nodes [
    | [] ↦ fails (errorf "workflow.Compile: spec %q has no nodes" (spec.name ∷ []))
    | _ ↦ Attempt.◌>>=◌ (build_nodes spec) (assemble spec.name)
  ]
