-- ===== src/Agent/Responses.antt =====
-- pkg/agent/compiler.go: what the nodes do with a response of the model that calls tools.
use mathlib.Core.List.{append_assoc, map-append}
use bunshin_go.Common.{String, List, [], ◌∷◌, ◌++◌, map, Map, some, ◌≡◌, refl, sym, ap, ◌∙◌}
use bunshin_go.Core.State.{State}
use bunshin_go.Graph.{done}
use bunshin_go.Llm.Messages.{role_assistant, ToolCall, Response, new_text_message}
use bunshin_go.Agent.State.{AgentState, Tool, SubAgent, Format, last_of}
use bunshin_go.Agent.Calls.{execute_tool_call, execute_all}
use bunshin_go.Agent.Nodes.{
  tool_call_message, tool_result_message, tool_calls_of, add_messages, response_messages,
  tools_node,
}

pub last_of-append {ℓ} : {A : Type ℓ} (xs : List A) (x : A) → last_of (xs ++ (x ∷ [])) ≡ some x
unfolding last_of
last_of-append [] x = refl
last_of-append (y ∷ []) x = refl
last_of-append (y ∷ z ∷ xs) x = last_of-append (z ∷ xs) x

-- The state after a response whose last call is `c`.
last_message :
    (s : State AgentState) (resp : Response) (cs : List ToolCall) (c : ToolCall)
    → resp.tool_calls ≡ cs ++ (c ∷ [])
    → last_of (add_messages (response_messages resp) s).payload.messages
      ≡ some (tool_call_message c)
unfolding response_messages
last_message s resp cs c e =
    ap last_of (
      ap
        (λ l.
          s.payload.messages
          ++ (new_text_message role_assistant resp.content ∷ map tool_call_message l))
        e
      ∙ ap (λ l. s.payload.messages ++ (new_text_message role_assistant resp.content ∷ l))
          (map-append tool_call_message cs (c ∷ []))
      ∙ sym (
          append_assoc s.payload.messages
            (new_text_message role_assistant resp.content ∷ map tool_call_message cs)
            (tool_call_message c ∷ [])))
    ∙ last_of-append
        (s.payload.messages
          ++ (new_text_message role_assistant resp.content ∷ map tool_call_message cs))
        (tool_call_message c)

tools_node_call :
    {W : Type 0} (fmt : Format) (tools : Map (Tool W)) (agents : Map (SubAgent W))
    (skills : Map String) (s : State AgentState) (c : ToolCall) (w w' : W) (out : String)
    → last_of s.payload.messages ≡ some (tool_call_message c)
    → execute_tool_call fmt tools agents skills s c w ≡ (w', out)
    → tools_node fmt tools agents skills s w ≡ (
      w',
      done (
          add_messages
            (tool_result_message (record { tool_call_id = c.id; content = out }) ∷ [])
            s),
    )
unfolding tools_node tool_calls_of execute_all
tools_node_call fmt tools agents skills s c w w' out at ran = rw (at, tools_node) (rw ran refl)

-- After a response with several calls the tools node executes the last one only: each call is a
-- message of its own, and the node reads the last message.
pub tools_node-response :
    {W : Type 0} (fmt : Format) (tools : Map (Tool W)) (agents : Map (SubAgent W))
    (skills : Map String) (s : State AgentState) (resp : Response) (cs : List ToolCall)
    (c : ToolCall) (w w' : W) (out : String)
    → resp.tool_calls ≡ cs ++ (c ∷ [])
    → execute_tool_call fmt tools agents skills (add_messages (response_messages resp) s) c w
      ≡ (w', out)
    → tools_node fmt tools agents skills (add_messages (response_messages resp) s) w ≡ (
      w',
      done (
          add_messages
            (tool_result_message (record { tool_call_id = c.id; content = out }) ∷ [])
            (add_messages (response_messages resp) s)),
    )
tools_node-response fmt tools agents skills s resp cs c w w' out calls ran =
    tools_node_call fmt tools agents skills (add_messages (response_messages resp) s) c w w' out
      (last_message s resp cs c calls) ran
