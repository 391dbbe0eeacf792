-- ===== src/Agent/Calls.antt =====
-- pkg/agent/compiler.go: the calls of tools, of sub-agents and of skills.
use Prim.Native.String.{◌++◌ as str_append, slice, len}
use text.Mathlib.Text.{starts_with}
use bunshin_go.Common.{
  String, ℕ, zero, suc, ◌+◌, List, [], ◌∷◌, Map, Option, none, some, lookup, insert, remove, Bool,
  false, if◌then◌else◌, leb,
}
use bunshin_go.Core.Errors.{Error, Result, ok, err}
use bunshin_go.Core.Value.{ℤ, pos, negsuc, Value, int, string}
use bunshin_go.Core.State.{State, get_key}
use bunshin_go.Llm.Messages.{ToolCall, ToolResult, message_text}
use bunshin_go.Agent.State.{AgentState, Tool, SubAgent, Format, last_of}

-- `maxAgentDepth`.
abbrev pub max_agent_depth : ℕ
max_agent_depth = 8

abbrev pub depth_key : String
depth_key = "bunshin.agent_depth"

-- `v.(int)` of a value, 0 where that fails.
abbrev pub int_of : Option Value → ℤ
int_of none = pos 0
int_of (some (int n)) = n
int_of (some _) = pos 0

-- The value at the depth key.
unfoldable pub depth_of : Option (Map Value) → ℤ
depth_of meta = int_of (get_key meta depth_key)

abbrev pub at_limit : ℤ → Bool
at_limit (pos n) = leb max_agent_depth n
at_limit (negsuc n) = false

abbrev pub next_depth : ℤ → ℤ
next_depth (pos n) = pos (n + 1)
next_depth (negsuc zero) = pos 0
next_depth (negsuc (suc n)) = negsuc n

-- The keys that go on to a sub-agent, with the values that they have.
unfoldable pub propagate : List String → Option (Map Value) → Map Value → Map Value
propagate [] meta m = m
propagate (k ∷ ks) meta m =
    propagate ks meta (elim (get_key meta k) [ none ↦ m | some v ↦ insert k v m ])

abbrev pub propagated_keys : List String
propagated_keys = "bunshin.tenant_id" ∷ "bunshin.trace_id" ∷ "bunshin.cost_budget" ∷ []

-- The task and the arguments of a sub-agent from the arguments of a call.
unfoldable pub task_of : Format → String → String × Option (Map Value)
task_of fmt arguments = elim (fmt.unmarshal_map arguments) [
  | err e ↦ (arguments, some [])
  | ok m ↦ elim (get_key m "task") [
    | some (string task) ↦
        (task, elim m [ none ↦ none | some fields ↦ some (remove "task" fields) ])
    | some _ ↦ (arguments, m)
    | none ↦ (arguments, m)
  ]
]

-- The state that a sub-agent starts from.
unfoldable pub sub_state : Format → ToolCall → State AgentState → State AgentState
sub_state fmt tc s =
    let (task, args) = task_of fmt tc.arguments in
    record {
      payload = record { task = task; args = args; messages = [] };
      meta = some (
          propagate propagated_keys s.meta
            (insert depth_key (int (next_depth (depth_of s.meta))) []));
    }

-- The answer of a sub-agent: the text of its last message.
unfoldable pub answer_of : Format → State AgentState × Option Error → String
answer_of fmt (s, some e) = str_append "error: " (fmt.sprint_error e)
answer_of fmt (s, none) = elim (last_of s.payload.messages) [ none ↦ "" | some m ↦ message_text m ]

module _ (fmt : Format) where
  -- The output of a tool as a text.
  unfoldable pub tool_output : Result Value → String
  tool_output (err e) = str_append "error: " (fmt.sprint_error e)
  tool_output (ok v) = elim (fmt.marshal v) [ err e ↦ fmt.sprint v | ok out ↦ out ]

  -- The answer to a load of a skill.
  unfoldable pub find_skill : Map String → String → String
  find_skill skills skill = elim (lookup skill skills) [
    | some s ↦ str_append "Skill " (str_append (fmt.quote skill) (str_append " loaded. Name: " s))
    | none ↦ str_append "skill " (str_append (fmt.quote skill) " not found")
  ]

  -- The end of `executeToolCall`, for a name that is no tool and no agent.
  unfoldable pub load_skill : Map String → String → String
  load_skill skills name =
      if starts_with name "load_skill_"
      then find_skill skills (slice name 11 (len name))
      else str_append "tool " (str_append (fmt.quote name) " not found")

module _ {W : Type 0} (fmt : Format) where
  -- `invokeSubAgent`.
  unfoldable pub invoke_sub_agent : ToolCall → SubAgent W → State AgentState → W → W × String
  invoke_sub_agent tc agent s w =
      if at_limit (depth_of s.meta)
      then (w, "error: agent depth limit (8) exceeded")
      else let (w', out) = agent.invoke (sub_state fmt tc s) w in (w', answer_of fmt out)

  -- `executeToolCall`; a skill is its name.
  unfoldable pub execute_tool_call :
      Map (Tool W) → Map (SubAgent W) → Map String → State AgentState → ToolCall → W → W × String
  execute_tool_call tools agents skills s tc w = elim (lookup tc.name tools) [
    | some tool ↦ let (w', r) = tool.invoke tc.arguments w in (w', tool_output fmt r)
    | none ↦ elim (lookup tc.name agents) [
      | some agent ↦ invoke_sub_agent tc agent s w
      | none ↦ (w, load_skill fmt skills tc.name)
    ]
  ]

  -- The loop of `createToolsNode` over the calls of a message.
  unfoldable pub execute_all :
      Map (Tool W)
      → Map (SubAgent W)
      → Map String
      → State AgentState
      → List ToolCall
      → W
      → W × List ToolResult
  execute_all tools agents skills s [] w = (w, [])
  execute_all tools agents skills s (tc ∷ tcs) w =
      let (w', out) = execute_tool_call tools agents skills s tc w in
      let (w'', later) = execute_all tools agents skills s tcs w' in
      (w'', record { tool_call_id = tc.id; content = out } ∷ later)
