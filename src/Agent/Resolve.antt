-- ===== src/Agent/Resolve.antt =====
-- pkg/agent/compiler.go: the agents that an agent reaches.
use bunshin_go.Common.{
  String, ℕ, ◌+◌, length, zero, suc, List, [], ◌∷◌, ◌++◌, Map, Option, none, some, lookup, insert,
  keys, Bool, true, if◌then◌else◌,
}
use bunshin_go.Core.Errors.{Error, wrapf, Result, ok, err}
use bunshin_go.Agent.State.{SubAgent}
use bunshin_go.Agent.Cycles.{flag}
use bunshin_go.Agent.Kahn.{in_degrees, kahn}

-- What `resolveAgentsTopological` returns.
pub data Outcome (W : Type 0) : Type 0 where
  resolved : Map (SubAgent W) → Outcome W
  cyclic : List String → Outcome W
  refused : Error → Outcome W

-- The loop over the agents that a resolved agent declares: `visited` and the queue.
unfoldable pub enqueue : List String → Map Bool → List String → Map Bool × List String
enqueue [] visited queue = (visited, queue)
enqueue (n ∷ ns) visited queue =
    let seen = flag visited n in
    enqueue ns (if seen then visited else insert n true visited)
      (if seen then queue else queue ++ (n ∷ []))

-- The sort, with the fuel that it needs.
abbrev pub sort_agents : Map (List String) → List String → Option (Option (List String))
sort_agents deps nodes = kahn deps (length (in_degrees deps nodes []) + length nodes + 1) nodes

module _ {W : Type 0} where
  -- `deps[name] = a.AgentNames()` for each agent.
  unfoldable pub add_deps : Map (SubAgent W) → Map (List String) → Map (List String)
  add_deps [] deps = deps
  add_deps ((n, a) ∷ m) deps = add_deps m (insert n a.agent_names deps)

  module _ (resolver : String → W → W × Result (SubAgent W)) where
    -- The search for the reachable agents, on fuel.
    unfoldable pub reach :
        ℕ → Map (SubAgent W) → Map Bool → List String → W → Option (W × Result (Map (SubAgent W)))
    reach zero agents visited queue w = none
    reach (suc fuel) agents visited [] w = some (w, ok agents)
    reach (suc fuel) agents visited (n ∷ queue) w = elim (lookup n agents) [
      | some a ↦ reach fuel agents visited queue w
      | none ↦
          let (w', out) = resolver n w in
          elim out [
            | err e ↦ some (w', err (wrapf "agents not found: [%s]: %w" (n ∷ []) e))
            | ok a ↦
                let (visited', queue') = enqueue a.agent_names visited queue in
                reach fuel (insert n a agents) visited' queue' w'
          ]
    ]

    -- `resolveAgentsTopological`, with a bound for its first loop; `none` is out of fuel.
    unfoldable pub resolve_agents : ℕ → List String → String → W → Option (W × Outcome W)
    resolve_agents fuel [] parent w = some (w, resolved [])
    resolve_agents fuel (n ∷ ns) parent w = elim (reach fuel [] ((parent, true) ∷ []) (n ∷ ns) w) [
      | none ↦ none
      | some r ↦ elim r.1 [
        | err e ↦ some (r.0, refused e)
        | ok agents ↦
            elim (sort_agents (add_deps agents ((parent, n ∷ ns) ∷ [])) (parent ∷ keys agents)) [
              | none ↦ none
              | some none ↦ some (r.0, resolved agents)
              | some (some cycle) ↦ some (r.0, cyclic cycle)
            ]
      ]
    ]
