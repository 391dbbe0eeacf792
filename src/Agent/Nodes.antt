-- ===== src/Agent/Nodes.antt =====
-- pkg/agent/compiler.go: the nodes of the loop of an agent, and its router.
use Prim.Native.String.{◌++◌ as str_append}
use bunshin_go.Common.{
  String, ℕ, ◌+◌, List, [], ◌∷◌, ◌++◌, Map, Option, none, some, insert, Bool, true, false, ◌&&◌,
  if◌then◌else◌, str_eq, leb, is_some, not, map,
}
use bunshin_go.Core.Errors.{wrapf, ok, err}
use bunshin_go.Core.Value.{ℤ, pos, negsuc, Value, bool}
use bunshin_go.Core.State.{State}
use bunshin_go.Graph.{Router, Runnable, done, failed, end_node}
use bunshin_go.Llm.Fallback.{Provider}
use bunshin_go.Llm.Messages.{
  role_assistant, role_system, role_tool, role_user, part_tool_call, part_tool_result, ToolCall,
  ToolResult, ContentPart, Message, ToolDefinition, Request, Response, new_text_message,
}
use bunshin_go.Agent.State.{AgentState, ToolSchema, Tool, SubAgent, Format, last_of}
use bunshin_go.Agent.Calls.{execute_all}

abbrev pub truncated_key : String
truncated_key = "bunshin.agent_truncated"

abbrev pub tool_call_part : ToolCall → ContentPart
tool_call_part tc = record {
  kind = part_tool_call;
  text = "";
  media = none;
  tool_call = some tc;
  tool_result = none;
}

abbrev pub tool_call_message : ToolCall → Message
tool_call_message tc = record {
  role = role_assistant;
  parts = tool_call_part tc ∷ [];
  native = none;
}

abbrev pub tool_result_message : ToolResult → Message
tool_result_message r = record {
  role = role_tool;
  parts =
      record {
        kind = part_tool_result;
        text = "";
        media = none;
        tool_call = none;
        tool_result = some r;
      }
      ∷ [];
  native = none;
}

-- The calls among the parts of a message.
unfoldable pub tool_calls_of : List ContentPart → List ToolCall
tool_calls_of [] = []
tool_calls_of (p ∷ ps) =
    let rest = tool_calls_of ps in
    elim p.tool_call [
      | none ↦ rest
      | some tc ↦ if str_eq p.kind part_tool_call then tc ∷ rest else rest
    ]

-- A test of the router: a part that is a tool call.
unfoldable pub has_tool_call : List ContentPart → Bool
has_tool_call [] = false
has_tool_call (p ∷ ps) =
    let rest = has_tool_call ps in
    if str_eq p.kind part_tool_call && is_some p.tool_call then true else rest

-- `state.Data.Messages` with more messages at the end.
abbrev pub add_messages : List Message → State AgentState → State AgentState
add_messages ms s = record s { payload = record s.payload { messages = s.payload.messages ++ ms } }

-- What the llm node appends for a response.
unfoldable pub response_messages : Response → List Message
response_messages resp =
    new_text_message role_assistant resp.content ∷ map tool_call_message resp.tool_calls

-- The definition of a tool from its schema.
abbrev pub definition_of : ToolSchema → ToolDefinition
definition_of s = record { name = s.name; description = s.description; parameters = s.parameters }

-- The tool that loads a skill; `schema` stands for the value of an object with no properties.
abbrev pub load_skill_definition : Option (Map Value) → String → ToolDefinition
load_skill_definition schema name = record {
  name = str_append "load_skill_" name;
  description = str_append "Load the " (str_append name " skill into context.");
  parameters = schema;
}

-- `step >= maxIterations`.
abbrev pub reached : ℤ → ℕ → Bool
reached (pos n) step = leb n step
reached (negsuc n) step = true

-- The mark of a truncated run, which a nil `Meta` loses.
unfoldable pub mark_truncated : State AgentState → State AgentState
mark_truncated s = elim s.meta [
  | none ↦ s
  | some m ↦ record s { meta = some (insert truncated_key (bool true) m) }
]

module _ {W : Type 0} where
  -- `createToolsNode`. It returns no error.
  unfoldable pub tools_node :
      Format → Map (Tool W) → Map (SubAgent W) → Map String → Runnable AgentState W
  tools_node fmt tools agents skills s w = elim (last_of s.payload.messages) [
    | none ↦ (w, done s)
    | some m ↦
        if not (str_eq m.role role_assistant)
        then (w, done s)
        else let (w', results) = execute_all fmt tools agents skills s (tool_calls_of m.parts) w in
          (w', done (add_messages (map tool_result_message results) s))
  ]

  -- `createLLMNode`, over the content of the system prompt and the value of an empty schema.
  unfoldable pub llm_node :
      String
      → String
      → Option (Map Value)
      → Provider Request Response W
      → Map (Tool W)
      → Map (SubAgent W)
      → Map String
      → Runnable AgentState W
  llm_node agent_name prompt empty_schema provider tools agents skills s w =
      let (w', out) =
        provider.complete
          (record {
            messages =
                new_text_message role_system prompt
                ∷ new_text_message role_user s.payload.task
                ∷ s.payload.messages;
            temperature = none;
            max_tokens = none;
            stream = false;
            tools =
                map (λ e. definition_of e.1.schema) tools
                ++ (map (λ e. definition_of e.1.schema) agents
                    ++ map (λ e. load_skill_definition empty_schema e.1) skills);
          })
          w in
      (
        w',
        elim out [
          | err e ↦ failed (wrapf "agent %q LLM call: %w" (agent_name ∷ []) e) s
          | ok resp ↦ done (add_messages (response_messages resp) s)
        ],
      )

  -- `createContentBasedRouter`; its variable `step` is in front of the world.
  unfoldable pub content_based_router : ℤ → Router AgentState (ℕ × W)
  content_based_router max_iterations s (step, w) = elim (last_of s.payload.messages) [
    | none ↦ ((step + 1, w), record { seen = s; next = ok end_node })
    | some m ↦
        if not (str_eq m.role role_assistant)
        then ((step + 1, w), record { seen = s; next = ok end_node })
        else if reached max_iterations (step + 1)
        then ((step + 1, w), record { seen = mark_truncated s; next = ok end_node })
        else if has_tool_call m.parts
        then ((step + 1, w), record { seen = s; next = ok "tools" })
        else ((step + 1, w), record { seen = s; next = ok end_node })
  ]
