-- ===== src/Tests/Graphs.antt =====
-- pkg/graph: a graph of two nodes and its run; pkg/core/state.go: one write of the meta map.
use bunshin_go.Common.{String, ℕ, suc, ◌+◌, [], ◌∷◌, Option, none, some, ◌≡◌, refl, lookup, differs}
use bunshin_go.Core.Errors.{Error, outside}
use bunshin_go.Core.State.{State, new_state}
use bunshin_go.Graph.{Graph, Node, Final, done, static_router, end_node, invoke, loop, round}
use bunshin_go.Graph.Runs.{Runs}
use bunshin_go.Graph.{failed}
use bunshin_go.Chain.{Step}
use bunshin_go.Graph.Refinement.{invoke_iff-Runs}

-- The world counts the calls; no context is cancelled.
abbrev no_error : ℕ → Option Error
no_error w = none

abbrev step : String → Option String → Node ℕ ℕ
step id next = record {
  id = id;
  runnable = λ s w. (suc w, done (record s { payload = s.payload + 1 }));
  router = elim next [ none ↦ none | some n ↦ some (static_router n) ];
}

abbrev two_steps : Graph ℕ ℕ
two_steps = record {
  name = "two";
  nodes = ("a", step "a" (some "b")) ∷ ("b", step "b" (some end_node)) ∷ [];
  entry_point = "a";
}

abbrev ended : Final ℕ ℕ
ended = record { state = record { payload = 7; meta = some [] }; error = none; world = 2 }

invoke_two : invoke no_error two_steps 3 (new_state 5) 0 ≡ some ended
unfolding invoke loop round lookup static_router new_state
invoke_two = refl

invoke_iff-Runs_example :
    Runs no_error two_steps (record { current = "a"; input = new_state 5; world = 0 }) ended
invoke_iff-Runs_example =
    (invoke_iff-Runs no_error two_steps (new_state 5) 0 ended (differs refl)).0.0 (3, invoke_two)

abbrev five : State ℕ
five = record { payload = 5; meta = some [] }

abbrev add_one : Step ℕ ℕ
add_one = record { id = "add"; runnable = λ s w. (w, done (record s { payload = s.payload + 1 })) }

abbrev broken : Step ℕ ℕ
broken = record { id = "broken"; runnable = λ s w. (w, failed (outside 0) s) }
