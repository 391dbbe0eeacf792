-- ===== src/Agent/Resolved.antt =====
-- pkg/agent/compiler.go: the set of agents that is resolved, and the whole of the resolution.
use bunshin_go.Common.{
  some-inj, String, ℕ, zero, suc, ◌+◌, ◌<◌, List, [], ◌∷◌, Map, Option, none, some, true, false,
  ◌≡◌, refl, sym, arith, contains, inl, inr, length, ◌⊎◌, Bool-cases, keys,
}
use bunshin_go.Core.Errors.{Result, ok, err}
use bunshin_go.Agent.State.{SubAgent}
use bunshin_go.Agent.Cycles.{targets}
use bunshin_go.Agent.Depth.{Closed, unseen-length, targets-All}
use bunshin_go.Agent.Acyclic.{grounded, All-at, IsGrounded-IsCycle}
use bunshin_go.Agent.Verdict.{kahn_iff}
use bunshin_go.Agent.Paths.{IsCycle}
use bunshin_go.Agent.Kahn.{in_degrees}
use bunshin_go.Agent.Sorting.{kahn-outcome}
use bunshin_go.Agent.Resolve.{
  Outcome, resolved, cyclic, refused, reach, add_deps, sort_agents, resolve_agents,
}
use bunshin_go.Agent.Reached.{Declares, reach_returns}
use bunshin_go.Agent.Invariant.{Settled, reach-Settled, start-Inv, Inv-Closed}

module _ {W : Type 0} (resolver : String → W → W × Result (SubAgent W)) (parent : String)
    (names : List String) where
  abbrev pub deps : Map (SubAgent W) → Map (List String)
  deps agents = add_deps agents ((parent, names) ∷ [])

  -- What the resolution returns, over the agents that the search finds: all that the agents
  -- declare is among them or the parent, and they have no cycle or the parent is among them; or the
  -- path is a cycle of theirs.
  abbrev pub Sound : Option (W × Result (Map (SubAgent W))) → W × Outcome W → Type 0
  Sound search (w, resolved agents) =
      (search ≡ some (w, ok agents))
      × Closed (deps agents) (parent ∷ keys agents)
      × ((contains parent (keys agents) ≡ true) ⊎ ((c : List String) → ¬ IsCycle (deps agents) c))
  Sound search (w, cyclic c) =
      (agents : Map (SubAgent W)) × (search ≡ some (w, ok agents)) × IsCycle (deps agents) c
  Sound search (w, refused e) = search ≡ some (w, err e)

  sorted-Sound :
      (w : W) (agents : Map (SubAgent W)) (s : Option (Option (List String)))
      (c : Option (List String))
      → Closed (deps agents) (parent ∷ keys agents)
      → s ≡ some c
      → ((d : List String) → c ≡ some d → IsCycle (deps agents) d)
      → (s ≡ some none
          → contains parent (keys agents) ≡ false
          → (d : List String) → ¬ IsCycle (deps agents) d)
      → (r : W × Outcome W) × ((elim s as (λ _. Option (W × Outcome W)) [
        | none ↦ none
        | some none ↦ some (w, resolved agents)
        | some (some cycle) ↦ some (w, cyclic cycle)
      ])
          ≡ some r)
        × Sound (some (w, ok agents)) r
  sorted-Sound w agents none c closed ran cycle free = absurd cc
  sorted-Sound w agents (some none) c closed ran cycle free = (
    (w, resolved agents),
    refl,
    (refl, closed, settle (Bool-cases (contains parent (keys agents)))),
  )
    where
      settle :
          (contains parent (keys agents) ≡ true) ⊎ (contains parent (keys agents) ≡ false)
          → (contains parent (keys agents) ≡ true) ⊎ ((d : List String) → ¬ IsCycle (deps agents) d)
      settle (inl there) = inl there
      settle (inr fresh) = inr (free refl fresh)
  sorted-Sound w agents (some (some d)) c closed ran cycle free =
      ((w, cyclic d), refl, (agents, refl, cycle d (sym (some-inj ran))))

-- A definition that names no agent has no cycle.
alone-IsCycle :
    (parent : String) (c : List String)
    → Closed ((parent, []) ∷ []) (parent ∷ [])
    → ¬ IsCycle ((parent, []) ∷ []) c
alone-IsCycle parent c closed =
    IsGrounded-IsCycle ((parent, []) ∷ []) (parent ∷ []) c closed (λ n at. grounded (λ t e. absurd (
      All-at (λ x. ⊥) (targets ((parent, []) ∷ []) n) t
        (targets-All (λ x. ⊥) ((parent, []) ∷ []) n (tt, tt)) e)))

-- The resolution of the agents of a definition ends when the names that any resolved agent
-- declares are in a list and the fuel is more than that list and the allowlist together. It returns
-- the agents that the search finds when all that they declare is found or is the parent, and
-- they then have no cycle or the parent itself is found; or a path that is a cycle of these agents; or
-- the error of the search.
pub resolve_agents-Sound :
    {W : Type 0} (resolver : String → W → W × Result (SubAgent W)) (all : List String) (fuel : ℕ)
    (names : List String) (parent : String) (w : W)
    → Declares resolver all
    → length all + length names < fuel
    → (r : W × Outcome W) × (resolve_agents resolver fuel names parent w ≡ some r)
      × Sound resolver parent names (reach resolver fuel [] ((parent, true) ∷ []) names w) r
unfolding resolve_agents reach add_deps
resolve_agents-Sound resolver all zero [] parent w inside enough = absurd (omega arith)
resolve_agents-Sound resolver all (suc fuel) [] parent w inside enough = (
  (w, resolved []),
  refl,
  (
    refl,
    Inv-Closed resolver parent [] [] ((parent, true) ∷ []) (start-Inv resolver parent []),
    inr (λ c.
        alone-IsCycle parent c
          (Inv-Closed resolver parent [] [] ((parent, true) ∷ []) (start-Inv resolver parent []))),
  ),
)
resolve_agents-Sound {W} resolver all fuel (n ∷ ns) parent w inside enough =
    let (out, returns) =
      reach_returns resolver all inside fuel [] ((parent, true) ∷ []) (n ∷ ns) w
        (omega (arith, unseen-length all ((parent, true) ∷ []))) in
    go (reach resolver fuel [] ((parent, true) ∷ []) (n ∷ ns) w) out returns (
      reach-Settled resolver parent (n ∷ ns) fuel [] ((parent, true) ∷ []) (n ∷ ns) w
        (start-Inv resolver parent (n ∷ ns)))
  where
    go :
        (search : Option (W × Result (Map (SubAgent W)))) (out : W × Result (Map (SubAgent W)))
        → search ≡ some out
        → Settled resolver parent (n ∷ ns) search
        → (r : W × Outcome W) × ((elim search as (λ _. Option (W × Outcome W)) [
          | none ↦ none
          | some r ↦ elim r.1 as (λ _. Option (W × Outcome W)) [
            | err e ↦ some (r.0, refused e)
            | ok agents ↦
                elim (sort_agents (add_deps agents ((parent, n ∷ ns) ∷ [])) (parent ∷ keys agents))
                  as (λ _. Option (W × Outcome W)) [
                    | none ↦ none
                    | some none ↦ some (r.0, resolved agents)
                    | some (some cycle) ↦ some (r.0, cyclic cycle)
                  ]
          ]
        ])
            ≡ some r)
          × Sound resolver parent (n ∷ ns) search r
    go none out h settled = absurd cc
    go (some (w', err e)) out h settled = ((w', refused e), refl, refl)
    go (some (w', ok agents)) out h (visited, inv) =
        let closed = Inv-Closed resolver parent (n ∷ ns) agents visited inv in
        let (c, ran, cycle) =
          kahn-outcome (deps resolver parent (n ∷ ns) agents)
            (length (in_degrees (deps resolver parent (n ∷ ns) agents) (parent ∷ keys agents) [])
              + length (parent ∷ keys agents)
              + 1)
            (parent ∷ keys agents) closed (omega arith) in
        sorted-Sound resolver parent (n ∷ ns) w' agents
          (sort_agents (deps resolver parent (n ∷ ns) agents) (parent ∷ keys agents)) c closed ran
          cycle
          (λ nil fresh.
            (kahn_iff (deps resolver parent (n ∷ ns) agents)
                (length
                    (in_degrees (deps resolver parent (n ∷ ns) agents) (parent ∷ keys agents) [])
                  + length (parent ∷ keys agents)
                  + 1)
                (parent ∷ keys agents) (fresh, inv.distinct) closed (omega arith)).0
              nil)
