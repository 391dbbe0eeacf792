-- ===== src/Agent/Kahn.antt =====
-- pkg/agent/compiler.go: the topological sort of agents.
use bunshin_go.Common.{
  String, ℕ, zero, suc, List, [], ◌∷◌, ◌++◌, Map, Option, none, some, lookup, insert, Bool, true,
  false, if◌then◌else◌, length, ltb,
}
use bunshin_go.Core.Value.{ℤ, pos, negsuc}
use bunshin_go.Agent.Cycles.{targets, find_cycle_dfs}

-- A read of `inDegree`.
abbrev pub degree : Map ℤ → String → ℤ
degree m n = elim (lookup n m) [ none ↦ pos 0 | some d ↦ d ]

abbrev pub inc : ℤ → ℤ
inc (pos n) = pos (suc n)
inc (negsuc zero) = pos 0
inc (negsuc (suc n)) = negsuc n

abbrev pub dec : ℤ → ℤ
dec (pos zero) = negsuc 0
dec (pos (suc n)) = pos n
dec (negsuc n) = negsuc (suc n)

-- `inDegree[n] == 0`.
abbrev pub is_zero : ℤ → Bool
is_zero (pos zero) = true
is_zero (pos (suc n)) = false
is_zero (negsuc n) = false

-- `inDegree[neighbor]++` for each neighbour.
unfoldable pub count_edges : List String → Map ℤ → Map ℤ
count_edges [] m = m
count_edges (n ∷ ns) m = count_edges ns (insert n (inc (degree m n)) m)

-- The first loop of `kahnTopologicalSort`.
unfoldable pub in_degrees : Map (List String) → List String → Map ℤ → Map ℤ
in_degrees edges [] m = m
in_degrees edges (n ∷ ns) m =
    in_degrees edges ns
      (count_edges (targets edges n) (elim (lookup n m) [ none ↦ insert n (pos 0) m | some d ↦ m ]))

-- The nodes that the queue starts with.
unfoldable pub sources : Map ℤ → List String → List String
sources m [] = []
sources m (n ∷ ns) = let rest = sources m ns in if is_zero (degree m n) then n ∷ rest else rest

-- The loop over the neighbours of the node that is taken from the queue.
unfoldable pub release : List String → Map ℤ → List String → Map ℤ × List String
release [] m queue = (m, queue)
release (n ∷ ns) m queue =
    let d = dec (degree m n) in
    release ns (insert n d m) (if is_zero d then queue ++ (n ∷ []) else queue)

module _ (edges : Map (List String)) where
  -- The loop on the queue, on fuel; it returns `sorted`.
  unfoldable pub drain : ℕ → Map ℤ → List String → List String → Option (List String)
  drain zero m queue sorted = none
  drain (suc fuel) m [] sorted = some sorted
  drain (suc fuel) m (n ∷ queue) sorted =
      let (m', queue') = release (targets edges n) m queue in
      drain fuel m' queue' (sorted ++ (n ∷ []))

  -- `kahnTopologicalSort`: `some none` is the nil path.
  unfoldable pub kahn : ℕ → List String → Option (Option (List String))
  kahn fuel nodes =
      let m = in_degrees edges nodes [] in
      elim (drain fuel m (sources m nodes) []) [
        | none ↦ none
        | some sorted ↦
            if ltb (length sorted) (length nodes)
            then find_cycle_dfs edges fuel nodes
            else some none
      ]
