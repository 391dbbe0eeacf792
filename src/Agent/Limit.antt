-- ===== src/Agent/Limit.antt =====
-- pkg/agent/compiler.go: a turn of the model at the limit of an agent, and the limit on how deep
-- agents call one another.
use bunshin_go.Common.{
  String, ℕ, suc, ◌+◌, ◌≤◌, Option, none, some, lookup, ◌≡◌, refl, ap, ◌∙◌, arith, eq_iff,
}
use bunshin_go.Core.Errors.{Error, ok}
use bunshin_go.Core.Value.{pos}
use bunshin_go.Core.State.{State}
use bunshin_go.Graph.{
  Runnable, done, end_node, invoke, loop, round, Reply, Graph, more, after_node, after_router,
}
use bunshin_go.Llm.Messages.{role_assistant, Message}
use bunshin_go.Agent.State.{AgentState, last_of}
use bunshin_go.Agent.Nodes.{content_based_router, mark_truncated}
use bunshin_go.Agent.Loop.{agent_graph, beside_step}

router_at_limit :
    {W : Type 0} (max k : ℕ) (s : State AgentState) (w : W) (m : Message)
    → last_of s.payload.messages ≡ some m
    → m.role ≡ role_assistant
    → max ≤ k + 1
    → content_based_router (pos max) s (k, w)
      ≡ ((k + 1, w), record { seen = mark_truncated s; next = ok end_node })
unfolding content_based_router
router_at_limit max k s w m last assistant over = ground (arith, eq_iff m.role role_assistant)

round_at_limit :
    {W : Type 0} (ctx_err : ℕ × W → Option Error) (name : String) (max : ℕ)
    (llm tools : Runnable AgentState W) (s out : State AgentState) (k : ℕ) (w w' : W) (m : Message)
    → max ≤ k + 1
    → ctx_err (k, w) ≡ none
    → llm s w ≡ (w', done out)
    → last_of out.payload.messages ≡ some m
    → m.role ≡ role_assistant
    → round ctx_err
        (agent_graph name (pos max) llm tools)
        (record { current = "llm"; input = s; world = (k, w) })
      ≡ more (record { current = end_node; input = mark_truncated out; world = (k + 1, w') })
unfolding round lookup
round_at_limit {W} ctx_err name max llm tools s out k w w' m over alive ran last assistant =
    let g = agent_graph name (pos max) llm tools in
    rw (alive, round)
      (ap
          (λ (q : W × Reply AgentState).
            after_node g
              (record {
                id = "llm";
                runnable = beside_step llm;
                router = some (content_based_router (pos max));
              })
              "llm" ((k, q.0), q.1))
          ran
        ∙ ap (after_router g "llm") (router_at_limit max k out w' m last assistant over))

pub end_loop :
    {S W : Type 0} (ctx_err : W → Option Error) (g : Graph S W) (fuel : ℕ) (s : State S) (w : W)
    → loop ctx_err g (suc fuel) (record { current = end_node; input = s; world = w })
      ≡ some (record { state = s; error = none; world = w })
unfolding loop round
end_loop ctx_err g fuel s w = refl

-- Once the counter of the router is at the limit or one below, a run of the agent ends after one turn
-- of the model, marked as truncated, whatever the model asked for: no tool runs. The counter is never
-- set back, so this holds for every later run of the compiled agent.
pub agent_used_up :
    {W : Type 0} (ctx_err : ℕ × W → Option Error) (name : String) (max fuel : ℕ)
    (llm tools : Runnable AgentState W) (s out : State AgentState) (k : ℕ) (w w' : W) (m : Message)
    → max ≤ k + 1
    → ctx_err (k, w) ≡ none
    → llm s w ≡ (w', done out)
    → last_of out.payload.messages ≡ some m
    → m.role ≡ role_assistant
    → invoke ctx_err (agent_graph name (pos max) llm tools) (suc (suc fuel)) s (k, w)
      ≡ some (record { state = mark_truncated out; error = none; world = (k + 1, w') })
unfolding invoke loop
agent_used_up ctx_err name max fuel llm tools s out k w w' m over alive ran last assistant =
    rw
      (round_at_limit ctx_err name max llm tools s out k w w' m over alive ran last assistant, loop)
      (end_loop ctx_err (agent_graph name (pos max) llm tools) fuel (mark_truncated out)
        (k + 1, w'))
