-- ===== src/Agent/Loop.antt =====
-- pkg/agent/compiler.go: the graph of an agent, and pkg/agent/interfaces.go: its call.
use bunshin_go.Common.{String, ℕ, [], ◌∷◌, some}
use bunshin_go.Core.Value.{ℤ}
use bunshin_go.Graph.{Runnable, Graph, static_router}
use bunshin_go.Agent.State.{AgentState}
use bunshin_go.Agent.Nodes.{content_based_router}

module _ {W : Type 0} where
  -- A node that leaves the variable of the router alone.
  abbrev pub beside_step : Runnable AgentState W → Runnable AgentState (ℕ × W)
  beside_step r s (step, w) = let (w', reply) = r s w in ((step, w'), reply)

  -- The graph of step 6 of `Compile`, for the two nodes.
  abbrev pub agent_graph :
      String → ℤ → Runnable AgentState W → Runnable AgentState W → Graph AgentState (ℕ × W)
  agent_graph name max_iterations llm tools = record {
    name = name;
    nodes =
        (
          "llm",
          record {
            id = "llm";
            runnable = beside_step llm;
            router = some (content_based_router max_iterations);
          },
        )
        ∷ (
          "tools",
          record {
            id = "tools";
            runnable = beside_step tools;
            router = some (static_router "llm");
          },
        )
        ∷ [];
    entry_point = "llm";
  }
