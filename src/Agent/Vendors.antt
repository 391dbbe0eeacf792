-- ===== src/Agent/Vendors.antt =====
-- pkg/agent/compiler.go over the vendors of pkg/llm: how far the loop of an agent goes.
use bunshin_go.Common.{
  String, ℕ, suc, ◌+◌, [], ◌∷◌, ◌++◌, map, Map, Option, none, some, false, lookup, ◌≡◌, refl, ap,
  ◌∙◌, arith,
}
use bunshin_go.Core.Errors.{Error, wrapf, Result, ok, err}
use bunshin_go.Core.Value.{ℤ, Value}
use bunshin_go.Core.State.{State}
use bunshin_go.Graph.{
  Runnable, Routed, done, failed, end_node, invoke, loop, round, Round, Reply, Graph, Config, Final,
  more, stop, after_node, after_router,
}
use bunshin_go.Llm.Fallback.{Provider}
use bunshin_go.Llm.Messages.{
  role_assistant, Message, Request, Response, new_text_message, new_text_part,
}
use bunshin_go.Llm.Vendors.{IsVendor, Toolless, vendor-Toolless}
use bunshin_go.Agent.State.{AgentState, Tool, SubAgent, last_of}
use bunshin_go.Agent.Nodes.{
  content_based_router, llm_node, response_messages, add_messages, has_tool_call, tool_call_message,
}
use bunshin_go.Agent.Loop.{agent_graph, beside_step}
use bunshin_go.Agent.Limit.{end_loop}
use bunshin_go.Agent.Responses.{last_of-append}

-- What a node of the model leaves: an error, or a last message of the assistant without a tool call.
abbrev Idle : Reply AgentState → Type 0
Idle (failed e seen) = Unit
Idle (done out) =
    (m : Message) × ((last_of out.payload.messages ≡ some m) × (has_tool_call m.parts ≡ false))

-- A round that ends the run, in the world `w`.
data RoundEnds {W : Type 0} (w : W) : Round AgentState (ℕ × W) → Type 0 where
  stops : {f : Final AgentState (ℕ × W)} → f.world.1 ≡ w → RoundEnds w (stop f)
  leaves :
      {s : State AgentState} {k : ℕ}
      → RoundEnds w (more (record { current = end_node; input = s; world = (k, w) }))

leaves_router :
    {W : Type 0} (g : Graph AgentState (ℕ × W)) (k : ℕ) (w : W) (q : (ℕ × W) × Routed AgentState)
    → q.0 ≡ (k, w)
    → q.1.next ≡ ok end_node
    → RoundEnds w (after_router g "llm" q)
leaves_router g k w (v, r) h e = rw (e, h) leaves

-- The router ends the run on a last message that calls no tool.
router_idle :
    {W : Type 0} (max : ℤ) (s : State AgentState) (k : ℕ) (w : W) (m : Message)
    → last_of s.payload.messages ≡ some m
    → has_tool_call m.parts ≡ false
    → ((content_based_router max s (k, w)).0 ≡ (k + 1, w))
      × ((content_based_router max s (k, w)).1.next ≡ ok end_node)
unfolding content_based_router
router_idle max s k w m last h = (ground arith, ground arith)

run_ends :
    {W : Type 0} (ctx_err : ℕ × W → Option Error) (g : Graph AgentState (ℕ × W)) (fuel : ℕ) (w : W)
    (c : Config AgentState (ℕ × W))
    → RoundEnds w (round ctx_err g c)
    → (f : Final AgentState (ℕ × W)) × ((loop ctx_err g (suc (suc fuel)) c ≡ some f)
        × (f.world.1 ≡ w))
unfolding loop
run_ends {W} ctx_err g fuel w c h = go (round ctx_err g c) h
  where
    go :
        (r : Round AgentState (ℕ × W))
        → RoundEnds w r
        → (f : Final AgentState (ℕ × W)) × (((elim r as (λ _. Option (Final AgentState (ℕ × W))) [
          | stop f ↦ some f
          | more c' ↦ loop ctx_err g (suc fuel) c'
        ])
              ≡ some f)
            × (f.world.1 ≡ w))
    go (stop f) (stops e) = (f, (refl, e))
    go (more c) (leaves {s = s} {k = k}) = (_, (end_loop ctx_err g fuel s (k, w), refl))

module _ {W : Type 0} (name : String) (prompt : String) (schema : Option (Map Value))
    (provider : Provider Request Response W) (tools : Map (Tool W)) (agents : Map (SubAgent W))
    (skills : Map String) where
  response-Idle :
      (s : State AgentState) (out : Result Response)
      → Toolless out
      → Idle (elim out as (λ _. Reply AgentState) [
        | err e ↦ failed (wrapf "agent %q LLM call: %w" (name ∷ []) e) s
        | ok resp ↦ done (add_messages (response_messages resp) s)
      ])
  unfolding response_messages has_tool_call new_text_message new_text_part
  response-Idle s (err e) h = tt
  response-Idle s (ok resp) h = (
    new_text_message role_assistant resp.content,
    (
      ap
            (λ calls. last_of (
              s.payload.messages
              ++ (new_text_message role_assistant resp.content ∷ map tool_call_message calls)))
            h
          ∙ last_of-append s.payload.messages _,
      refl,
    ),
  )

  llm_node-Idle :
      IsVendor W provider
      → (s : State AgentState) (w : W)
      → Idle (llm_node name prompt schema provider tools agents skills s w).1
  unfolding llm_node
  llm_node-Idle v s w = response-Idle s _ (vendor-Toolless v _ [] w).1

  abbrev looped : ℤ → Runnable AgentState W → Graph AgentState (ℕ × W)
  looped max tools_step =
      agent_graph name max (llm_node name prompt schema provider tools agents skills) tools_step

  after_node-Ends :
      (max : ℤ) (tools_step : Runnable AgentState W) (k : ℕ) (q : W × Reply AgentState)
      → Idle q.1
      → RoundEnds q.0 (
          after_node
            (looped max tools_step)
            (record {
              id = "llm";
              runnable = beside_step (llm_node name prompt schema provider tools agents skills);
              router = some (content_based_router max);
            })
            "llm"
            ((k, q.0), q.1))
  after_node-Ends max tools_step k (w, failed e seen) h = stops refl
  after_node-Ends max tools_step k (w, done out) (m, (last, idle)) =
      let (moved, next) = router_idle max out k w m last idle in
      leaves_router (looped max tools_step) (k + 1) w (content_based_router max out (k, w)) moved
        next

-- An agent that `Compile` builds over the provider of one of the four vendors never calls a tool: its
-- run ends after one turn of the model, with or without an error, in the world that the completion of
-- the vendor leaves, whatever tools it has and whatever the node for the tools does.
pub vendor_agent-Ends :
    {W : Type 0} (name prompt : String) (schema : Option (Map Value))
    (provider : Provider Request Response W) (tools : Map (Tool W)) (agents : Map (SubAgent W))
    (skills : Map String) (ctx_err : ℕ × W → Option Error) (max : ℤ)
    (tools_step : Runnable AgentState W) (fuel : ℕ) (s : State AgentState) (k : ℕ) (w : W)
    → IsVendor W provider
    → ctx_err (k, w) ≡ none
    → (f : Final AgentState (ℕ × W)) × ((invoke ctx_err
            (agent_graph name max
              (llm_node name prompt schema provider tools agents skills)
              tools_step)
            (suc (suc fuel))
            s
            (k, w)
          ≡ some f)
        × (f.world.1 ≡ (llm_node name prompt schema provider tools agents skills s w).0))
unfolding invoke round lookup
vendor_agent-Ends {W} name prompt schema provider tools agents skills ctx_err max tools_step fuel s
      k w v alive =
    run_ends ctx_err (looped name prompt schema provider tools agents skills max tools_step) fuel _
      (record { current = "llm"; input = s; world = (k, w) })
      (rw (alive, round)
        (after_node-Ends name prompt schema provider tools agents skills max tools_step k
          (llm_node name prompt schema provider tools agents skills s w)
          (llm_node-Idle name prompt schema provider tools agents skills v s w)))
