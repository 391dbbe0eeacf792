-- ===== src/Agent/Sorting.antt =====
-- pkg/agent/compiler.go: the topological sort ends, and what it reports.
use bunshin_go.Common.{
  String, ℕ, zero, suc, ◌+◌, ◌≤◌, ◌<◌, List, [], ◌∷◌, ◌++◌, Map, Option, none, some, lookup, insert,
  ◌≡◌, refl, ap, ◌∙◌, arith, Bool-cases, inl, inr, if◌then◌else◌, length, length-append, ltb,
}
use bunshin_go.Core.Value.{ℤ, pos, negsuc}
use bunshin_go.Agent.Cycles.{targets}
use bunshin_go.Agent.Paths.{IsCycle, find_cycle_dfs-IsCycle}
use bunshin_go.Agent.Depth.{Closed, find_cycle_dfs_returns}
use bunshin_go.Agent.Kahn.{degree, dec, is_zero, in_degrees, sources, release, drain, kahn}

abbrev weight : ℤ → ℕ
weight (pos zero) = 0
weight (pos (suc n)) = 1
weight (negsuc n) = 0

-- The number of nodes that may still enter the queue.
unfoldable waiting : Map ℤ → ℕ
waiting [] = 0
waiting ((k, d) ∷ m) = weight d + waiting m

weight-le : (d : ℤ) → weight d ≤ 1
weight-le (pos zero) = omega arith
weight-le (pos (suc n)) = omega arith
weight-le (negsuc n) = omega arith

waiting-length : (m : Map ℤ) → waiting m ≤ length m
unfolding waiting
waiting-length [] = omega arith
waiting-length ((k, d) ∷ m) = omega (arith, waiting-length m, weight-le d)

waiting-insert :
    (n : String) (d : ℤ) (m : Map ℤ)
    → waiting (insert n d m) + weight (degree m n) ≡ waiting m + weight d
unfolding waiting insert lookup
waiting-insert n d [] = omega arith
waiting-insert n d ((k, e) ∷ m) = ground (arith, waiting-insert n d m)

weight-dec : (d : ℤ) → weight (dec d) + (if is_zero (dec d) then 1 else 0) ≤ weight d
weight-dec (pos zero) = omega arith
weight-dec (pos (suc zero)) = omega arith
weight-dec (pos (suc (suc n))) = omega arith
weight-dec (negsuc n) = omega arith

-- A node enters the queue when it stops waiting.
release-waiting :
    (ns : List String) (m : Map ℤ) (queue : List String)
    → waiting ((release ns m queue).0) + length ((release ns m queue).1) ≤ waiting m + length queue
unfolding release
release-waiting [] m queue = omega arith
release-waiting (n ∷ ns) m queue =
    let d = dec (degree m n) in
    let later =
      release-waiting ns (insert n d m) (if is_zero d then queue ++ (n ∷ []) else queue) in
    ground
      (arith, later, waiting-insert n d m, weight-dec (degree m n), length-append queue (n ∷ []))

sources-length : (m : Map ℤ) (nodes : List String) → length (sources m nodes) ≤ length nodes
unfolding sources
sources-length m [] = omega arith
sources-length m (n ∷ ns) = ground (arith, sources-length m ns)

module _ (edges : Map (List String)) where
  drain_returns :
      (fuel : ℕ) (m : Map ℤ) (queue sorted : List String)
      → waiting m + length queue < fuel
      → (out : List String) × (drain edges fuel m queue sorted ≡ some out)
  unfolding drain
  drain_returns zero m queue sorted enough = absurd (omega arith)
  drain_returns (suc fuel) m [] sorted enough = (sorted, refl)
  drain_returns (suc fuel) m (n ∷ queue) sorted enough =
      let fewer = release-waiting (targets edges n) m queue in
      drain_returns fuel ((release (targets edges n) m queue).0)
        ((release (targets edges n) m queue).1) (sorted ++ (n ∷ [])) (omega arith)

  -- The sort ends, with nil or with a path that is a cycle, when each agent that a node declares is
  -- a node and the fuel is more than the nodes and the counted in-degrees together.
  pub kahn-outcome :
      (fuel : ℕ) (nodes : List String)
      → Closed edges nodes
      → length (in_degrees edges nodes []) + length nodes < fuel
      → (r : Option (List String)) × (kahn edges fuel nodes ≡ some r)
        × ((c : List String) → r ≡ some c → IsCycle edges c)
  unfolding kahn
  kahn-outcome fuel nodes closed enough =
      let m = in_degrees edges nodes [] in
      let (sorted, drained) =
        drain_returns fuel m (sources m nodes) []
          (omega (arith, waiting-length m, sources-length m nodes)) in
      let (found, returns) = find_cycle_dfs_returns edges fuel nodes closed (omega arith) in
      elim (Bool-cases (ltb (length sorted) (length nodes))) [
        | inl short ↦ (
          found,
          rw (kahn, drained, short) returns,
          λ c same. find_cycle_dfs-IsCycle edges fuel nodes c (returns ∙ ap some same),
        )
        | inr all ↦ (none, rw (kahn, drained, all) refl, λ c same. cc)
      ]
