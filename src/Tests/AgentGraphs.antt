-- ===== src/Tests/AgentGraphs.antt =====
-- pkg/agent/compiler.go: agents that call one another, and the compilation of one of them.
use mathlib.Core.Path.{subst}
use bunshin_go.Common.{
  ◌↔◌, lookup, insert, ℕ, ◌+◌, String, List, [], ◌∷◌, Map, none, some, ◌≡◌, refl, arith, All,
  contains, true, length,
}
use bunshin_go.Core.Errors.{Result, ok}
use bunshin_go.Core.Value.{pos}
use bunshin_go.Prompt.Fragments.{Fragment}
use bunshin_go.Store.Agents.{AgentSpec}
use bunshin_go.Llm.Messages.{Request, Response, no_usage}
use bunshin_go.Llm.Fallback.{Provider}
use bunshin_go.Agent.Compile.{CompiledAgent, CompileRegistries, compile}
use bunshin_go.Agent.Compiled.{IsSound, compile-IsSound}
use bunshin_go.Tests.AgentRuns.{plain, counter}
use bunshin_go.Agent.State.{SubAgent}
use bunshin_go.Agent.Cycles.{
  targets, find_cycle_dfs, find_from, dfs, scan, leave, from_first, drop_last,
}
use bunshin_go.Agent.Paths.{IsCycle}
use bunshin_go.Agent.Exact.{find_cycle_dfs_iff}
use bunshin_go.Agent.Kahn.{in_degrees, count_edges, kahn}
use bunshin_go.Agent.Depth.{Closed, entries-Closed}
use bunshin_go.Agent.Verdict.{kahn_iff}
use bunshin_go.Agent.Resolve.{Outcome, reach, resolve_agents}
use bunshin_go.Agent.Reached.{Declares}
use bunshin_go.Agent.Resolved.{Sound, resolve_agents-Sound}

-- a calls b, b calls c and d, and c calls b.
abbrev edges : Map (List String)
edges = ("a", "b" ∷ []) ∷ ("b", "d" ∷ "c" ∷ []) ∷ ("c", "b" ∷ []) ∷ []

abbrev nodes : List String
nodes = "a" ∷ "b" ∷ "c" ∷ "d" ∷ []

found : find_cycle_dfs edges 4 nodes ≡ some (some ("b" ∷ "c" ∷ "b" ∷ []))
unfolding find_cycle_dfs find_from dfs scan leave targets lookup insert from_first drop_last
found = refl

edges_closed : Closed edges nodes
edges_closed = entries-Closed edges nodes ((refl, tt), ((refl, (refl, tt)), ((refl, tt), tt)))

find_cycle_dfs_iff_example :
    (find_cycle_dfs edges 4 nodes ≡ some none) ↔ ((c : List String) → ¬ IsCycle edges c)
find_cycle_dfs_iff_example = find_cycle_dfs_iff edges 4 nodes edges_closed (omega arith)

degrees : length (in_degrees edges nodes []) ≡ 4
unfolding in_degrees count_edges targets lookup insert
degrees = refl

kahn_iff_example : (kahn edges 20 nodes ≡ some none) ↔ ((c : List String) → ¬ IsCycle edges c)
kahn_iff_example =
    kahn_iff edges 20 nodes (refl, (refl, (refl, (refl, tt)))) edges_closed (omega (arith, degrees))

abbrev agent : List String → SubAgent ℕ
agent names = record {
  schema = record { name = "agent"; description = ""; parameters = none };
  agent_names = names;
  invoke = λ s w. (w, (s, none));
}

-- Every agent calls x and y.
abbrev resolver : String → ℕ → ℕ × Result (SubAgent ℕ)
resolver name w = (w + 1, ok (agent ("x" ∷ "y" ∷ [])))

resolver-Declares : Declares resolver ("x" ∷ "y" ∷ [])
resolver-Declares n w w' a same =
    let at : agent ("x" ∷ "y" ∷ []) ≡ a = cc in
    subst (λ c. All (λ b. contains b ("x" ∷ "y" ∷ []) ≡ true) c.agent_names) at (refl, (refl, tt))

resolve_agents-Sound_example :
    (r : ℕ × Outcome ℕ) × (resolve_agents resolver 9 ("x" ∷ []) "p" 0 ≡ some r)
    × Sound resolver "p" ("x" ∷ []) (reach resolver 9 [] (("p", true) ∷ []) ("x" ∷ []) 0) r
resolve_agents-Sound_example =
    resolve_agents-Sound resolver ("x" ∷ "y" ∷ []) 9 ("x" ∷ []) "p" 0 resolver-Declares
      (omega arith)

abbrev model : Provider Request Response ℕ
model = record {
  id = "model";
  complete =
      λ req w. (w, ok (record { content = "done"; tool_calls = []; usage = no_usage; model = "" }));
}

abbrev fragment : Fragment
fragment = record {
  id = "f";
  slug = "s";
  content = "You count.";
  variables = [];
  tags = [];
  version = "1";
  status = "active";
}

abbrev registries : CompileRegistries ℕ
registries = record {
  tools = ("count", counter) ∷ [];
  agents = resolver;
  skills = λ n w. (w, ok n);
  prompts = λ slug w. (w, ok fragment);
  llm = record {
    providers = model ∷ [];
    entries = ("main", record { provider = model; tags = ("tier", "fast") ∷ [] }) ∷ [];
    available = ("model", true) ∷ [];
    latency = [];
  };
  sort = λ lt ps. ps;
}

abbrev definition : AgentSpec
definition = record {
  name = "p";
  description = "";
  slug = "s";
  tools = "count" ∷ [];
  agents = "x" ∷ [];
  skills = "talk" ∷ [];
  tier = "fast";
  tags = [];
  max_iterations = pos 0;
  input_schema = none;
  output_schema = none;
}

compile-IsSound_example :
    (r : ℕ × Result (CompiledAgent ℕ)) × (compile plain none 9 registries (some definition) 0
      ≡ some r)
    × ((ca : CompiledAgent ℕ) → r.1 ≡ ok ca → IsSound plain none registries definition 8 ca)
compile-IsSound_example =
    compile-IsSound plain none registries definition ("x" ∷ "y" ∷ []) 9 8 0 resolver-Declares
      (omega arith) refl
