-- ===== src/Agent/Verdict.antt =====
-- pkg/agent/compiler.go: the topological sort accepts the graphs of agents without a cycle only.
use mathlib.Core.Path.{subst}
use mathlib.Core.List.{append_assoc}
use bunshin_go.Common.{
  String, ℕ, ◌+◌, ◌≤◌, ◌<◌, List, [], ◌∷◌, ◌++◌, Map, Option, none, some, Bool, true, false, ◌≡◌,
  ◌↔◌, refl, ap, ◌∙◌, arith, eq_iff, contains, str_eq, Bool-cases, inl, inr, if◌then◌else◌, length,
  Distinct, ◌⊎◌, ltb,
}
use bunshin_go.Agent.Cycles.{targets, find_cycle_dfs}
use bunshin_go.Agent.Paths.{Edge, Walk, IsCycle}
use bunshin_go.Agent.Depth.{Closed}
use bunshin_go.Agent.Acyclic.{All-at}
use bunshin_go.Agent.Exact.{find_cycle_dfs_iff}
use bunshin_go.Agent.Kahn.{drain, sources, in_degrees, kahn}
use bunshin_go.Agent.Sorting.{kahn-outcome}
use bunshin_go.Agent.Draining.{IsRooted, rooted}
use bunshin_go.Agent.Acceptance.{Sorted, Distinct-length, drain-Sorted, start-Tracks}

module _ (edges : Map (List String)) (nodes : List String) where
  Walk-last :
      (l : List String) (y x : String)
      → Walk edges (l ++ (y ∷ x ∷ []))
      → Walk edges (l ++ (y ∷ [])) × Edge edges y x
  Walk-last [] y x walk = (tt, walk.0)
  Walk-last (a ∷ []) y x walk = ((walk.0, tt), walk.1.0)
  Walk-last (a ∷ b ∷ l) y x walk =
      let later = Walk-last (b ∷ l) y x walk.1 in ((walk.0, later.0), later.1)

  target-contains : Closed edges nodes → (a b : String) → Edge edges a b → contains b nodes ≡ true
  target-contains closed a b e =
      All-at (λ x. contains x nodes ≡ true) (targets edges a) b (closed a) e

  Walk-contains :
      Closed edges nodes
      → (x : String) (q : List String) (y : String) → Walk edges (x ∷ (q ++ (y ∷ [])))
      → contains y nodes ≡ true
  Walk-contains closed x [] y walk = target-contains closed x y walk.0
  Walk-contains closed x (b ∷ q) y walk = Walk-contains closed b q y walk.1

  split_last :
      (p : List String) → (p ≡ []) ⊎ ((q : List String) × (y : String) × (p ≡ q ++ (y ∷ [])))
  split_last [] = inl refl
  split_last (x ∷ p) = elim (split_last p) [
    | inl nil ↦ inr ([], x, ap (◌∷◌ x) nil)
    | inr s ↦ inr (x ∷ s.0, s.1, ap (◌∷◌ x) s.2)
  ]

  -- No walk comes back to a rooted agent.
  IsRooted-Walk :
      Closed edges nodes
      → (x : String) → IsRooted edges nodes x
      → (p : List String) → Walk edges (x ∷ (p ++ (x ∷ [])))
      → ⊥
  IsRooted-Walk closed x (rooted f) p walk = elim (split_last p) [
    | inl nil ↦
        let loop = subst (λ l. Walk edges (x ∷ (l ++ (x ∷ [])))) nil walk in
        IsRooted-Walk closed x (f x (target-contains closed x x loop.0) loop.0) [] loop
    | inr s ↦
        let whole =
          subst (λ l. Walk edges (x ∷ l))
            (ap (λ l. l ++ (x ∷ [])) s.2 ∙ append_assoc s.0 (s.1 ∷ []) (x ∷ [])) walk in
        let parts = Walk-last (x ∷ s.0) s.1 x whole in
        IsRooted-Walk closed s.1 (f s.1 (Walk-contains closed x s.0 s.1 parts.0) parts.1) (x ∷ s.0)
          (parts.1, parts.0)
  ]

  -- A sort of at least as many as there are nodes has them all.
  Sorted-contains :
      (out : List String)
      → Sorted edges nodes out
      → length nodes ≤ length out
      → (v : String) → contains v nodes ≡ true
      → contains v out ≡ true
  Sorted-contains out sorted long v node = elim (Bool-cases (contains v out)) [
    | inl there ↦ there
    | inr away ↦
        let bound =
          Distinct-length (v ∷ out) nodes (away, sorted.distinct)
            (λ w at. within w at (Bool-cases (str_eq v w))) in
        absurd (omega arith)
  ]
    where
      within :
          (w : String)
          → contains w (v ∷ out) ≡ true
          → (str_eq v w ≡ true) ⊎ (str_eq v w ≡ false)
          → contains w nodes ≡ true
      within w at (inl same) = subst (λ y. contains y nodes ≡ true) ((eq_iff v w).0 same) node
      within w at (inr other) = sorted.inside w (ground arith)

  Sorted-IsCycle :
      Closed edges nodes
      → (out c : List String) → Sorted edges nodes out
      → length nodes ≤ length out
      → IsCycle edges c
      → ⊥
  Sorted-IsCycle closed out c sorted long cycle =
      let walk = subst (Walk edges) cycle.closed cycle.walk in
      let node = Walk-contains closed cycle.start cycle.mid cycle.start walk in
      IsRooted-Walk closed cycle.start
        (sorted.roots cycle.start (Sorted-contains out sorted long cycle.start node)) cycle.mid walk

  kahn-IsCycle :
      (fuel : ℕ)
      → Distinct nodes
      → Closed edges nodes
      → length nodes ≤ fuel
      → kahn edges fuel nodes ≡ some none
      → (c : List String) → ¬ IsCycle edges c
  unfolding kahn
  kahn-IsCycle fuel d closed enough h c =
      go
        (drain edges fuel (in_degrees edges nodes []) (sources (in_degrees edges nodes []) nodes)
          [])
        refl h
    where
      short :
          (out : List String) (fewer : Bool)
          → ltb (length out) (length nodes) ≡ fewer
          → Sorted edges nodes out
          → (if fewer then find_cycle_dfs edges fuel nodes else some none) ≡ some none
          → ¬ IsCycle edges c
      short out true at sorted h = (find_cycle_dfs_iff edges fuel nodes closed enough).0 h c
      short out false at sorted h = Sorted-IsCycle closed out c sorted (ground arith)

      go :
          (drained : Option (List String))
          → drain edges fuel
              (in_degrees edges nodes [])
              (sources (in_degrees edges nodes []) nodes)
              []
            ≡ drained
          → (elim drained as (λ _. Option (Option (List String))) [
            | none ↦ none
            | some sorted ↦
                if ltb (length sorted) (length nodes)
                then find_cycle_dfs edges fuel nodes
                else some none
          ])
            ≡ some none
          → ¬ IsCycle edges c
      go none at h = absurd cc
      go (some out) at h =
          short out (ltb (length out) (length nodes)) refl
            (drain-Sorted edges nodes fuel (in_degrees edges nodes [])
              (sources (in_degrees edges nodes []) nodes) [] out d closed
              (start-Tracks edges nodes d) at)
            h

-- For distinct agents that declare one another only, and fuel for the nodes and the counted in-degrees
-- together, `kahnTopologicalSort` returns nil exactly for the graphs without a cycle.
pub kahn_iff :
    (edges : Map (List String)) (fuel : ℕ) (nodes : List String)
    → Distinct nodes
    → Closed edges nodes
    → length (in_degrees edges nodes []) + length nodes < fuel
    → (kahn edges fuel nodes ≡ some none) ↔ ((c : List String) → ¬ IsCycle edges c)
kahn_iff edges fuel nodes d closed enough = (
  kahn-IsCycle edges nodes fuel d closed (omega arith),
  λ free. nothing free (kahn-outcome edges fuel nodes closed enough),
)
  where
    nothing :
        ((c : List String) → ¬ IsCycle edges c)
        → (r : Option (List String)) × (kahn edges fuel nodes ≡ some r)
          × ((c : List String) → r ≡ some c → IsCycle edges c)
        → kahn edges fuel nodes ≡ some none
    nothing free (none, ran, found) = ran
    nothing free (some c, ran, found) = absurd (free c (found c refl))
