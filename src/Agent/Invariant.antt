-- ===== src/Agent/Invariant.antt =====
-- pkg/agent/compiler.go: what holds in every round of the search for the reachable agents.
use bunshin_go.Common.{
  String, ℕ, zero, suc, List, [], ◌∷◌, Map, Option, none, some, lookup, insert, Bool, true, false,
  ◌≡◌, refl, arith, eq_iff, All, contains, str_eq, ◌||◌, inl, inr, if◌then◌else◌, lookup-insert,
  ◌⊎◌, is_some, keys, Distinct,
}
use bunshin_go.Core.Errors.{wrapf, Result, ok, err}
use bunshin_go.Agent.State.{SubAgent}
use bunshin_go.Agent.Cycles.{flag, targets}
use bunshin_go.Agent.Paths.{All-weaken, All-contains}
use bunshin_go.Agent.Depth.{Closed}
use bunshin_go.Agent.Resolve.{enqueue, reach, add_deps}
use bunshin_go.Agent.Reached.{enqueue-flag, enqueue-contains, enqueue-all, enqueue-new}
use bunshin_go.Agent.Deps.{lookup-keys, All-insert, keys-Distinct, add_deps-targets}

module _ {W : Type 0} (resolver : String → W → W × Result (SubAgent W)) (parent : String)
    (names : List String) where
  -- The parent, a name in the queue, or an agent that is resolved.
  abbrev pub known : Map (SubAgent W) → List String → String → Bool
  known agents queue b = str_eq parent b || (contains b queue || is_some (lookup b agents))

  -- Each resolved agent declares visited names only.
  abbrev pub Declared : Map Bool → Map (SubAgent W) → Type 0
  Declared visited = All (λ e. All (λ b. flag visited b ≡ true) e.1.agent_names)

  pub record Inv (agents : Map (SubAgent W)) (visited : Map Bool) (queue : List String)
      : Type 0 where
    pub declared : Declared visited agents
    pub marked : (b : String) → flag visited b ≡ true → known agents queue b ≡ true
    pub asked : All (λ b. known agents queue b ≡ true) names
    pub distinct : Distinct (keys agents)

  -- What the search leaves when it succeeds.
  abbrev pub Settled : Option (W × Result (Map (SubAgent W))) → Type 0
  Settled none = Unit
  Settled (some (w, err e)) = Unit
  Settled (some (w, ok agents)) = (visited : Map Bool) × Inv agents visited []

  -- The head of the queue may go if it is resolved.
  skip-Inv :
      (agents : Map (SubAgent W)) (visited : Map Bool) (n : String) (queue : List String)
      (a : SubAgent W)
      → lookup n agents ≡ some a
      → Inv agents visited (n ∷ queue)
      → Inv agents visited queue
  skip-Inv agents visited n queue a there inv = record {
    declared = inv.declared;
    marked = λ b h. keep b (inv.marked b h);
    asked =
        All-weaken {P = λ b. known agents (n ∷ queue) b ≡ true}
          {Q = λ b. known agents queue b ≡ true} names keep inv.asked;
    distinct = inv.distinct;
  }
    where
      keep : (b : String) → known agents (n ∷ queue) b ≡ true → known agents queue b ≡ true
      keep b h = ground (arith, eq_iff n b, there)

  -- The head of the queue goes when it is resolved, and what it declares comes.
  resolve-Inv :
      (agents : Map (SubAgent W)) (visited : Map Bool) (n : String) (queue : List String)
      (a : SubAgent W)
      → Inv agents visited (n ∷ queue)
      → Inv
          (insert n a agents)
          ((enqueue a.agent_names visited queue).0)
          ((enqueue a.agent_names visited queue).1)
  resolve-Inv agents visited n queue a inv = record {
    declared =
        All-insert
          (λ e. All (λ b. flag ((enqueue a.agent_names visited queue).0) b ≡ true) e.1.agent_names)
          n a agents (enqueue-all a.agent_names visited queue)
          (All-weaken {P = λ e. All (λ b. flag visited b ≡ true) e.1.agent_names} agents
            (λ e h. All-weaken e.1.agent_names (λ b. enqueue-flag a.agent_names b visited queue) h)
            inv.declared);
    marked = λ b h. go b (enqueue-new a.agent_names b visited queue h);
    asked =
        All-weaken {P = λ b. known agents (n ∷ queue) b ≡ true}
          {Q = λ b. known (insert n a agents) ((enqueue a.agent_names visited queue).1) b ≡ true}
          names keep inv.asked;
    distinct = keys-Distinct n a agents inv.distinct;
  }
    where
      keep :
          (b : String)
          → known agents (n ∷ queue) b ≡ true
          → known (insert n a agents) ((enqueue a.agent_names visited queue).1) b ≡ true
      keep b h = ground (
        arith,
        eq_iff n b,
        lookup-insert n b a agents,
        enqueue-contains a.agent_names b visited queue,
      )

      go :
          (b : String)
          → (flag visited b ≡ true) ⊎ (contains b ((enqueue a.agent_names visited queue).1) ≡ true)
          → known (insert n a agents) ((enqueue a.agent_names visited queue).1) b ≡ true
      go b (inl old) = keep b (inv.marked b old)
      go b (inr queued) = ground arith

  pub reach-Settled :
      (fuel : ℕ) (agents : Map (SubAgent W)) (visited : Map Bool) (queue : List String) (w : W)
      → Inv agents visited queue
      → Settled (reach resolver fuel agents visited queue w)
  unfolding reach
  reach-Settled zero agents visited queue w inv = tt
  reach-Settled (suc fuel) agents visited [] w inv = (visited, inv)
  reach-Settled (suc fuel) agents visited (n ∷ queue) w inv =
      go (lookup n agents) refl (resolver n w) (λ i. reach-Settled fuel agents visited queue w i)
        (λ a w'.
          reach-Settled fuel (insert n a agents) ((enqueue a.agent_names visited queue).0)
            ((enqueue a.agent_names visited queue).1) w' (resolve-Inv agents visited n queue a inv))
    where
      go :
          (found : Option (SubAgent W))
          → lookup n agents ≡ found
          → (out : W × Result (SubAgent W))
          → (Inv agents visited queue → Settled (reach resolver fuel agents visited queue w))
          → ((a : SubAgent W) (w' : W)
              → Settled (
                  reach resolver fuel
                    (insert n a agents)
                    ((enqueue a.agent_names visited queue).0)
                    ((enqueue a.agent_names visited queue).1)
                    w'))
          → Settled (elim found as (λ _. Option (W × Result (Map (SubAgent W)))) [
            | some a ↦ reach resolver fuel agents visited queue w
            | none ↦ elim out.1 as (λ _. Option (W × Result (Map (SubAgent W)))) [
              | err e ↦ some (out.0, err (wrapf "agents not found: [%s]: %w" (n ∷ []) e))
              | ok a ↦
                  reach resolver fuel
                    (insert n a agents)
                    ((enqueue a.agent_names visited queue).0)
                    ((enqueue a.agent_names visited queue).1)
                    out.0
            ]
          ])
      go (some a) there out here later = here (skip-Inv agents visited n queue a there inv)
      go none there (w', err e) here later = tt
      go none there (w', ok a) here later = later a w'

  pub start-Inv : Inv [] ((parent, true) ∷ []) names
  unfolding lookup
  start-Inv = record {
    declared = tt;
    marked = λ b h. ground arith;
    asked =
        All-weaken {P = λ b. contains b names ≡ true} {Q = λ b. known [] names b ≡ true} names
          (λ b h. ground arith) (All-contains names);
    distinct = tt;
  }

  -- A name that is settled is a node of the graph that is sorted.
  known-node :
      (agents : Map (SubAgent W)) (b : String)
      → known agents [] b ≡ true
      → contains b (parent ∷ keys agents) ≡ true
  known-node agents b h = ground (arith, lookup-keys b agents)

  -- Each name that a node of that graph declares is a node.
  pub Inv-Closed :
      (agents : Map (SubAgent W)) (visited : Map Bool)
      → Inv agents visited []
      → Closed (add_deps agents ((parent, names) ∷ [])) (parent ∷ keys agents)
  unfolding targets lookup
  Inv-Closed agents visited inv n =
      add_deps-targets (λ b. contains b (parent ∷ keys agents) ≡ true) agents ((parent, names) ∷ [])
        n
        (All-weaken {P = λ e. All (λ b. flag visited b ≡ true) e.1.agent_names} agents
          (λ e h.
            All-weaken e.1.agent_names (λ b marked. known-node agents b (inv.marked b marked)) h)
          inv.declared)
        (go (str_eq parent n))
    where
      go :
          (same : Bool)
          → All
              (λ b. contains b (parent ∷ keys agents) ≡ true)
              (elim (if same then some names else none) as (λ _. List String) [
                | none ↦ []
                | some ns ↦ ns
              ])
      go true = All-weaken names (known-node agents) inv.asked
      go false = tt
