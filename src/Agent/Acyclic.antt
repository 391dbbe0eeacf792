-- ===== src/Agent/Acyclic.antt =====
-- pkg/agent/compiler.go: agents from which no walk goes on for ever, and no cycle.
use bunshin_go.Common.{
  String, List, [], ◌∷◌, ◌++◌, Map, ◌≡◌, true, All, contains, Bool-cases, inl, inr, str_eq, arith,
  eq_iff,
}
use mathlib.Core.Path.{subst}
use bunshin_go.Agent.Cycles.{targets}
use bunshin_go.Agent.Paths.{Edge, Walk, Walk-step, IsCycle}
use bunshin_go.Agent.Depth.{Closed}

-- Every walk from the agent ends.
pub data IsGrounded (edges : Map (List String)) : String → Type 0 where
  grounded :
      {n : String} → ((t : String) → Edge edges n t → IsGrounded edges t) → IsGrounded edges n

pub All-at :
    (P : String → Type 0) (xs : List String) (b : String) → All P xs → contains b xs ≡ true → P b
All-at P [] b h at = absurd cc
All-at P (x ∷ xs) b (here, h) at = elim (Bool-cases (str_eq x b)) [
  | inl same ↦ subst P ((eq_iff x b).0 same) here
  | inr other ↦ All-at P xs b h (ground arith)
]

module _ (edges : Map (List String)) where
  -- No walk comes back to a grounded agent.
  IsGrounded-Walk :
      (a : String) (mid : List String) → IsGrounded edges a → Walk edges ((a ∷ mid) ++ (a ∷ [])) → ⊥
  IsGrounded-Walk a [] (grounded f) walk = IsGrounded-Walk a [] (f a walk.0) walk
  IsGrounded-Walk a (b ∷ mid) (grounded f) walk =
      IsGrounded-Walk b (mid ++ (a ∷ [])) (f b walk.0) (Walk-step edges (b ∷ mid) a b walk.1 walk.0)

  -- Where all nodes are grounded, and declare nodes only, there is no cycle.
  pub IsGrounded-IsCycle :
      (nodes c : List String)
      → Closed edges nodes
      → ((n : String) → contains n nodes ≡ true → IsGrounded edges n)
      → IsCycle edges c
      → ⊥
  IsGrounded-IsCycle nodes c closed ends cycle =
      from_start cycle.start cycle.mid (subst (Walk edges) cycle.closed cycle.walk)
    where
      node : (a b : String) → Edge edges a b → IsGrounded edges b
      node a b e = ends b (All-at (λ x. contains x nodes ≡ true) (targets edges a) b (closed a) e)

      from_start : (a : String) (mid : List String) → Walk edges ((a ∷ mid) ++ (a ∷ [])) → ⊥
      from_start a [] walk = IsGrounded-Walk a [] (node a a walk.0) walk
      from_start a (b ∷ mid) walk =
          IsGrounded-Walk b (mid ++ (a ∷ [])) (node a b walk.0)
            (Walk-step edges (b ∷ mid) a b walk.1 walk.0)
