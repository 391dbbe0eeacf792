-- ===== src/Agent/Turns.antt =====
-- The loop of an agent ends: it makes no more turns than its limit, or one where that is used up.
use mathlib.Core.Path.{subst}
use bunshin_go.Common.{
  String, ℕ, zero, suc, ◌+◌, ◌*◌, ◌≤◌, ◌<◌, Option, none, some, lookup, ◌≡◌, refl, ◌⊎◌, inl, inr,
  arith, Option-cases, Bool-cases, str_eq, leb,
}
use bunshin_go.Core.Errors.{Error, ok}
use bunshin_go.Core.Value.{pos}
use bunshin_go.Core.State.{State}
use bunshin_go.Graph.{
  Runnable, Reply, done, failed, Graph, Config, Final, Round, stop, more, static_router, round,
  loop, invoke, end_node, after_node, after_router,
}
use bunshin_go.Agent.State.{AgentState, last_of}
use bunshin_go.Agent.Nodes.{content_based_router, mark_truncated, has_tool_call}
use bunshin_go.Agent.Loop.{agent_graph}
use bunshin_go.Llm.Messages.{role_assistant}

-- The router counts its call, and goes on to "tools" only below the limit; else it ends the run.
router_next :
    {W : Type 0} (max : ℕ) (s : State AgentState) (k : ℕ) (w : W)
    → (seen : State AgentState) × ((content_based_router (pos max) s (k, w)
          ≡ ((k + 1, w), record { seen = seen; next = ok end_node }))
        ⊎ ((content_based_router (pos max) s (k, w)
              ≡ ((k + 1, w), record { seen = seen; next = ok "tools" }))
            × (k + 1 < max)))
unfolding content_based_router
router_next max s k w = elim (Option-cases (last_of s.payload.messages)) [
  | inl nothing ↦ (s, inl (ground arith))
  | inr (m, last) ↦ elim (Bool-cases (str_eq m.role role_assistant)) [
    | inr other ↦ (s, inl (ground arith))
    | inl assistant ↦ elim (Bool-cases (leb max (k + 1))) [
      | inl over ↦ (mark_truncated s, inl (ground arith))
      | inr within ↦ elim (Bool-cases (has_tool_call m.parts)) [
        | inr idle ↦ (s, inl (ground arith))
        | inl calls ↦ (s, inr (ground arith, ground arith))
      ]
    ]
  ]
]

-- The fuel for `n` more turns of the model.
abbrev turns_fuel : ℕ → ℕ
turns_fuel zero = 2
turns_fuel (suc n) = suc (suc (turns_fuel n))

module _ {W : Type 0} (ctx_err : ℕ × W → Option Error) (name : String) (max : ℕ)
    (llm tools : Runnable AgentState W) where
  abbrev g : Graph AgentState (ℕ × W)
  g = agent_graph name (pos max) llm tools

  abbrev at : String → State AgentState → ℕ → W → Config AgentState (ℕ × W)
  at node s k w = record { current = node; input = s; world = (k, w) }

  -- What a turn of the model leads to: the run ends, goes to the end, or goes to the tools.
  data Turn (k : ℕ) : Round AgentState (ℕ × W) → Type 0 where
    stopped : {f : Final AgentState (ℕ × W)} → f.world.0 ≤ k + 1 → Turn k (stop f)
    ended : (s : State AgentState) (w : W) → Turn k (more (at end_node s (k + 1) w))
    called : (s : State AgentState) (w : W) → k + 1 < max → Turn k (more (at "tools" s (k + 1) w))

  -- What the tools lead to: the run ends, or goes back to the model.
  data Tooled (k : ℕ) : Round AgentState (ℕ × W) → Type 0 where
    broken : {f : Final AgentState (ℕ × W)} → f.world.0 ≤ k → Tooled k (stop f)
    resumed : (s : State AgentState) (w : W) → Tooled k (more (at "llm" s k w))

  after_llm-Turn :
      (s : State AgentState) (k : ℕ) (w : W)
      → Turn k (after_router g "llm" (content_based_router (pos max) s (k, w)))
  after_llm-Turn s k w =
      let (seen, next) = router_next max s k w in
      elim next [
        | inl final ↦ rw final (ended seen w)
        | inr (onward, below) ↦ rw onward (called seen w below)
      ]

  round-Turn : (s : State AgentState) (k : ℕ) (w : W) → Turn k (round ctx_err g (at "llm" s k w))
  unfolding round lookup
  round-Turn s k w = go (ctx_err (k, w)) (llm s w)
    where
      go :
          (cancelled : Option Error) (reply : W × Reply AgentState)
          → Turn k (elim cancelled as (λ _. Round AgentState (ℕ × W)) [
            | some e ↦ stop (record { state = s; error = some e; world = (k, w) })
            | none ↦
                after_node g
                  (record {
                    id = "llm";
                    runnable = λ s' kw. ((kw.0, (llm s' kw.1).0), (llm s' kw.1).1);
                    router = some (content_based_router (pos max));
                  })
                  "llm"
                  ((k, reply.0), reply.1)
          ])
      go (some e) reply = stopped (omega arith)
      go none (w', failed e seen) = stopped (omega arith)
      go none (w', done out) = after_llm-Turn out k w'

  round-Tooled :
      (s : State AgentState) (k : ℕ) (w : W) → Tooled k (round ctx_err g (at "tools" s k w))
  unfolding round lookup static_router
  round-Tooled s k w = go (ctx_err (k, w)) (tools s w)
    where
      go :
          (cancelled : Option Error) (reply : W × Reply AgentState)
          → Tooled k (elim cancelled as (λ _. Round AgentState (ℕ × W)) [
            | some e ↦ stop (record { state = s; error = some e; world = (k, w) })
            | none ↦
                after_node g
                  (record {
                    id = "tools";
                    runnable = λ s' kw. ((kw.0, (tools s' kw.1).0), (tools s' kw.1).1);
                    router = some (static_router "llm");
                  })
                  "tools"
                  ((k, reply.0), reply.1)
          ])
      go (some e) reply = broken (omega arith)
      go none (w', failed e seen) = broken (omega arith)
      go none (w', done out) = resumed out w'

  -- The run from a configuration ends, within the limit or after one more turn than `k`.
  abbrev Ends : ℕ → ℕ → Config AgentState (ℕ × W) → Type 0
  Ends fuel k c =
      (f : Final AgentState (ℕ × W)) × (loop ctx_err g fuel c ≡ some f)
      × ((f.world.0 ≤ k + 1) ⊎ (f.world.0 ≤ max))

  end-Ends :
      (fuel k : ℕ) (s : State AgentState) (w : W) → Ends (suc fuel) k (at end_node s (k + 1) w)
  unfolding loop round
  end-Ends fuel k s w =
      (record { state = s; error = none; world = (k + 1, w) }, refl, inl (omega arith))

  tools-Ends :
      (fuel k : ℕ) (s : State AgentState) (w : W)
      → k < max
      → ((s' : State AgentState) (w' : W) → Ends fuel k (at "llm" s' k w'))
      → Ends (suc fuel) k (at "tools" s k w)
  unfolding loop
  tools-Ends fuel k s w below later = go (round ctx_err g (at "tools" s k w)) (round-Tooled s k w)
    where
      go :
          (r : Round AgentState (ℕ × W))
          → Tooled k r
          → (f : Final AgentState (ℕ × W)) × (elim r [
            | stop f ↦ some f
            | more c ↦ loop ctx_err g fuel c
          ]
              ≡ some f)
            × ((f.world.0 ≤ k + 1) ⊎ (f.world.0 ≤ max))
      go _ (broken {f} h) = (f, refl, inl (omega arith))
      go _ (resumed s' w') = later s' w'

  llm_round-Ends :
      (fuel k : ℕ) (s : State AgentState) (w : W)
      → (k + 1 < max
          → (s' : State AgentState) (w' : W) → Ends (suc fuel) k (at "tools" s' (k + 1) w'))
      → Ends (suc (suc fuel)) k (at "llm" s k w)
  unfolding loop
  llm_round-Ends fuel k s w later = go (round ctx_err g (at "llm" s k w)) (round-Turn s k w)
    where
      go :
          (r : Round AgentState (ℕ × W))
          → Turn k r
          → (f : Final AgentState (ℕ × W)) × (elim r [
            | stop f ↦ some f
            | more c ↦ loop ctx_err g (suc fuel) c
          ]
              ≡ some f)
            × ((f.world.0 ≤ k + 1) ⊎ (f.world.0 ≤ max))
      go _ (stopped {f} h) = (f, refl, inl h)
      go _ (ended s' w') = end-Ends fuel k s' w'
      go _ (called s' w' below) = later below s' w'

  -- A run that ends one turn later ends within the limit.
  later-Ends :
      (fuel k : ℕ) (c : Config AgentState (ℕ × W))
      → k + 1 < max
      → Ends fuel (k + 1) c
      → Ends fuel k c
  later-Ends fuel k c below (f, e, inl h) = (f, e, inr (omega arith))
  later-Ends fuel k c below (f, e, inr h) = (f, e, inr h)

  llm-Ends :
      (n k : ℕ) (s : State AgentState) (w : W)
      → max ≤ k + n
      → Ends (turns_fuel n) k (at "llm" s k w)
  llm-Ends zero k s w enough = llm_round-Ends 0 k s w (λ below s' w'. absurd (omega arith))
  llm-Ends (suc n) k s w enough = llm_round-Ends (turns_fuel n) k s w (λ below s' w'.
      later-Ends (suc (turns_fuel n)) k (at "tools" s' (k + 1) w') below (
        tools-Ends (turns_fuel n) (k + 1) s' w' below
          (λ s'' w''. llm-Ends n (k + 1) s'' w'' (omega arith))))

turns_fuel-double : (n : ℕ) → turns_fuel n ≡ 2 * n + 2
turns_fuel-double zero = refl
turns_fuel-double (suc n) = omega (arith, turns_fuel-double n)

-- With a limit of `max` turns, the loop of an agent ends whatever the model and the tools do: after
-- no more calls of the model than `max`, or one if the counter is past that.
pub agent_terminates :
    {W : Type 0} (ctx_err : ℕ × W → Option Error) (name : String) (max : ℕ)
    (llm tools : Runnable AgentState W) (s : State AgentState) (k : ℕ) (w : W)
    → (f : Final AgentState (ℕ × W)) × (invoke ctx_err
          (agent_graph name (pos max) llm tools)
          (2 * max + 2)
          s
          (k, w)
        ≡ some f)
      × ((f.world.0 ≤ k + 1) ⊎ (f.world.0 ≤ max))
unfolding invoke
agent_terminates {W} ctx_err name max llm tools s k w =
    subst
      (λ fuel.
        (f : Final AgentState (ℕ × W)) × (loop ctx_err (agent_graph name (pos max) llm tools) fuel
            (record { current = "llm"; input = s; world = (k, w) })
          ≡ some f)
        × ((f.world.0 ≤ k + 1) ⊎ (f.world.0 ≤ max)))
      (turns_fuel-double max) (llm-Ends ctx_err name max llm tools max k s w (omega arith))
