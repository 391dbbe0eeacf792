-- ===== src/Agent/Cycles.antt =====
-- pkg/agent/compiler.go: the search for a cycle of agents that call one another.
use bunshin_go.Common.{
  String, ℕ, zero, suc, List, [], ◌∷◌, ◌++◌, Map, Option, none, some, lookup, insert, Bool, true,
  false, if◌then◌else◌, str_eq,
}

-- `edges[node]`, nil where it is missing.
unfoldable pub targets : Map (List String) → String → List String
targets edges node = elim (lookup node edges) [ none ↦ [] | some ns ↦ ns ]

-- A read of a map of flags.
abbrev pub flag : Map Bool → String → Bool
flag m k = elim (lookup k m) [ none ↦ false | some b ↦ b ]

-- The variables of `findCycleDFS`.
pub record Search : Type 0 where
  pub visited : Map Bool
  pub rec_stack : Map Bool
  pub path : List String

-- `path[cycleStart:]` for the first place of a node; `none` is -1.
unfoldable pub from_first : String → List String → Option (List String)
from_first n [] = none
from_first n (x ∷ xs) = let rest = from_first n xs in if str_eq x n then some (x ∷ xs) else rest

-- `path[:len(path)-1]`.
unfoldable pub drop_last : List String → List String
drop_last [] = []
drop_last (x ∷ []) = []
drop_last (x ∷ y ∷ xs) = x ∷ drop_last (y ∷ xs)

-- The loop of `dfs` over the neighbours, with the recursive call; `none` is out of fuel.
unfoldable pub scan :
    (String → Search → Option (Bool × Search)) → List String → Search → Option (Bool × Search)
scan visit [] s = some (false, s)
scan visit (n ∷ ns) s = elim (flag s.visited n) [
  | false ↦ elim (visit n s) [
    | none ↦ none
    | some r ↦ elim r.0 [ true ↦ some (true, r.1) | false ↦ scan visit ns r.1 ]
  ]
  | true ↦ elim (flag s.rec_stack n) [
    | false ↦ scan visit ns s
    | true ↦ elim (from_first n s.path) [
      | none ↦ scan visit ns s
      | some cycle ↦ some (true, record s { path = cycle ++ (n ∷ []) })
    ]
  ]
]

-- The end of `dfs`, after the loop.
unfoldable pub leave : String → Option (Bool × Search) → Option (Bool × Search)
leave node none = none
leave node (some (true, s)) = some (true, s)
leave node (some (false, s)) =
    some (false, record s { path = drop_last s.path; rec_stack = insert node false s.rec_stack })

-- `visited`, `recStack` and `path` with a node more.
abbrev pub enter : String → Search → Search
enter node s = record {
  visited = insert node true s.visited;
  rec_stack = insert node true s.rec_stack;
  path = s.path ++ (node ∷ []);
}

module _ (edges : Map (List String)) where
  -- `dfs`, on fuel for the depth.
  unfoldable pub dfs : ℕ → String → Search → Option (Bool × Search)
  unfolding scan leave targets
  dfs zero node s = none
  dfs (suc fuel) node s = leave node (scan (dfs fuel) (targets edges node) (enter node s))

  -- The loop of `findCycleDFS`: `some none` is the nil path.
  unfoldable pub find_from : ℕ → List String → Search → Option (Option (List String))
  find_from fuel [] s = some none
  find_from fuel (n ∷ ns) s = elim (flag s.visited n) [
    | true ↦ find_from fuel ns s
    | false ↦ elim (dfs fuel n (record s { path = [] })) [
      | none ↦ none
      | some r ↦ elim r.0 [ true ↦ some (some r.1.path) | false ↦ find_from fuel ns r.1 ]
    ]
  ]

  -- `findCycleDFS`.
  unfoldable pub find_cycle_dfs : ℕ → List String → Option (Option (List String))
  find_cycle_dfs fuel nodes =
      find_from fuel nodes (record { visited = []; rec_stack = []; path = [] })
