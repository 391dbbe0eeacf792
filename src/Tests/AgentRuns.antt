-- ===== src/Tests/AgentRuns.antt =====
-- pkg/agent/compiler.go: a model that asks for two tools, a run of its agent, and a nested call.
use bunshin_go.Common.{
  lookup, ℕ, ◌+◌, ◌*◌, ◌≤◌, ◌<◌, String, [], ◌∷◌, Option, none, some, ◌≡◌, refl, arith, ◌⊎◌,
  contains, true,
}
use bunshin_go.Core.Errors.{ok, err, outside, Error}
use bunshin_go.Core.Value.{pos, string, int}
use bunshin_go.Core.State.{State, get_key}
use bunshin_go.Graph.{Runnable, done, Final, invoke}
use bunshin_go.Llm.Messages.{ToolCall, Response, no_usage}
use bunshin_go.Agent.State.{AgentState, Tool, SubAgent, Format, last_of}
use bunshin_go.Agent.Calls.{
  execute_tool_call, tool_output, depth_of, depth_key, invoke_sub_agent, sub_state, propagated_keys,
}
use bunshin_go.Agent.Nodes.{
  tools_node, add_messages, response_messages, tool_result_message, mark_truncated,
  tool_call_message,
}
use bunshin_go.Agent.Loop.{agent_graph}
use bunshin_go.Agent.Turns.{agent_terminates}
use bunshin_go.Agent.Responses.{tools_node-response}
use bunshin_go.Agent.Limit.{agent_used_up}
use bunshin_go.Agent.Delegation.{invoke_sub_agent_depth}

abbrev pub plain : Format
plain = record {
  sprint = λ v. "value";
  sprint_error = λ e. "failure";
  quote = λ s. s;
  marshal = λ v. ok "json";
  unmarshal_map = λ s. err (outside 0);
}

-- The world counts the calls of tools.
abbrev pub counter : Tool ℕ
counter = record {
  schema = record { name = "count"; description = ""; parameters = none };
  invoke = λ arguments w. (w + 1, ok (string arguments));
}

abbrev first_call : ToolCall
first_call = record { id = "1"; name = "count"; arguments = "a" }

abbrev second_call : ToolCall
second_call = record { id = "2"; name = "count"; arguments = "b" }

abbrev asking : Response
asking = record {
  content = "two calls";
  tool_calls = first_call ∷ second_call ∷ [];
  usage = no_usage;
  model = "";
}

abbrev task : State AgentState
task = record { payload = record { task = "count"; args = none; messages = [] }; meta = some [] }

abbrev asks : Runnable AgentState ℕ
asks s w = (w, done (add_messages (response_messages asking) s))

abbrev counts : Runnable AgentState ℕ
counts s w = tools_node plain (("count", counter) ∷ []) [] [] s w

abbrev alive : ℕ × ℕ → Option Error
alive w = none

agent_terminates_example :
    (f : Final AgentState (ℕ × ℕ)) × (invoke alive
        (agent_graph "counter" (pos 3) asks counts)
        (2 * 3 + 2)
        task
        (0, 0)
      ≡ some f)
    × ((f.world.0 ≤ 0 + 1) ⊎ (f.world.0 ≤ 3))
agent_terminates_example = agent_terminates alive "counter" 3 asks counts task 0 0

executed :
    execute_tool_call plain
      (("count", counter) ∷ [])
      []
      []
      (add_messages (response_messages asking) task)
      second_call
      0
    ≡ (1, "json")
unfolding execute_tool_call lookup tool_output
executed = refl

tools_node-response_example :
    tools_node plain
      (("count", counter) ∷ [])
      []
      []
      (add_messages (response_messages asking) task)
      0
    ≡ (
      1,
      done (
          add_messages
            (tool_result_message (record { tool_call_id = "2"; content = "json" }) ∷ [])
            (add_messages (response_messages asking) task)),
    )
tools_node-response_example =
    tools_node-response plain (("count", counter) ∷ []) [] [] task asking (first_call ∷ [])
      second_call 0 1 "json" refl executed

last_asked :
    last_of (add_messages (response_messages asking) task).payload.messages
    ≡ some (tool_call_message second_call)
unfolding last_of response_messages
last_asked = refl

-- A third run of an agent whose limit is three.
agent_used_up_example :
    invoke alive (agent_graph "counter" (pos 3) asks counts) 8 task (2, 0)
    ≡ some (record {
      state = mark_truncated (add_messages (response_messages asking) task);
      error = none;
      world = (3, 0);
    })
agent_used_up_example =
    agent_used_up alive "counter" 3 6 asks counts task
      (add_messages (response_messages asking) task) 2 0 0 (tool_call_message second_call)
      (omega arith) refl refl last_asked refl

abbrev echo : SubAgent ℕ
echo = record {
  schema = record { name = "echo"; description = ""; parameters = none };
  agent_names = [];
  invoke = λ s w. (w + 1, (s, none));
}

abbrev nested : State AgentState
nested = record {
  payload = record { task = "outer"; args = none; messages = [] };
  meta = some ((depth_key, int (pos 7)) ∷ ("bunshin.tenant_id", string "acme") ∷ []);
}

nested_depth : depth_of nested.meta ≡ pos 7
unfolding depth_of lookup
nested_depth = refl

invoke_sub_agent_depth_example :
    (8 ≤ 7 → (invoke_sub_agent plain first_call echo nested 0).0 ≡ 0)
    × (7 < 8
        → ((invoke_sub_agent plain first_call echo nested 0).0
            ≡ (echo.invoke (sub_state plain first_call nested) 0).0)
          × (depth_of (sub_state plain first_call nested).meta ≡ pos (7 + 1))
          × ((sub_state plain first_call nested).payload.messages ≡ [])
          × ((j : String)
              → contains j propagated_keys ≡ true
              → get_key (sub_state plain first_call nested).meta j ≡ get_key nested.meta j))
invoke_sub_agent_depth_example =
    invoke_sub_agent_depth plain first_call echo nested 0 7 nested_depth
