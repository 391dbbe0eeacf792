-- ===== src/Agent/Compiled.antt =====
-- pkg/agent/compiler.go: what `Compile` returns.
use mathlib.Core.Path.{subst}
use bunshin_go.Common.{
  String, ℕ, ◌+◌, ◌*◌, ◌<◌, List, [], ◌∷◌, ◌++◌, Map, Option, none, some, true, All, is_some,
  lookup, insert, ◌≡◌, refl, ap, ◌∙◌, length,
}
use bunshin_go.Core.Errors.{Error, errorf, wrapf, wrap_error, Result, ok, err}
use bunshin_go.Core.Value.{pos, Value}
use bunshin_go.Core.State.{State}
use bunshin_go.Graph.{Final, invoke}
use bunshin_go.Store.Agents.{AgentSpec}
use bunshin_go.Prompt.Fragments.{Fragment}
use bunshin_go.Llm.Fallback.{Provider}
use bunshin_go.Llm.Messages.{Request, Response}
use bunshin_go.Agent.State.{AgentState, Tool, SubAgent, Format}
use bunshin_go.Agent.Nodes.{llm_node, tools_node}
use bunshin_go.Agent.Loop.{agent_graph}
use bunshin_go.Agent.Turns.{agent_terminates}
use bunshin_go.Agent.Resolve.{Outcome, resolved, cyclic, refused, resolve_agents}
use bunshin_go.Agent.Reached.{Declares}
use bunshin_go.Agent.Resolved.{resolve_agents-Sound}
use bunshin_go.Agent.Linking.{
  unless_missing, gather_tools, resolve_tools, resolve_skills, select_provider,
}
use bunshin_go.Agent.Compile.{
  CompiledAgent, CompileRegistries, iterations, assemble, link, link_agents, compile_tools, compile,
  invoke_agent,
}
use bunshin_go.Tools as Tools

append-none : (xs : List String) (n : String) → xs ++ (n ∷ []) ≡ [] → ⊥
append-none [] n h = cc
append-none (x ∷ xs) n h = cc

module _ {W : Type 0} where
  abbrev pub Registered : Map (Tool W) → String → Type 0
  Registered registry n = is_some (lookup n registry) ≡ true

  -- What is missing stays missing.
  gather_tools-Registered :
      (registry : Map (Tool W)) (ns : List String) (found : Map (Tool W)) (missing : List String)
      → (gather_tools registry ns found missing).1 ≡ []
      → (missing ≡ []) × All (Registered registry) ns
  unfolding gather_tools Tools.get
  gather_tools-Registered registry [] found missing h = (h, tt)
  gather_tools-Registered registry (n ∷ ns) found missing h =
      go (lookup n registry) refl (gather_tools-Registered registry ns found (missing ++ (n ∷ [])))
        (λ t. gather_tools-Registered registry ns (insert n t found) missing) h
    where
      go :
          (there : Option (Tool W))
          → lookup n registry ≡ there
          → ((gather_tools registry ns found (missing ++ (n ∷ []))).1 ≡ []
              → (missing ++ (n ∷ []) ≡ []) × All (Registered registry) ns)
          → ((t : Tool W)
              → (gather_tools registry ns (insert n t found) missing).1 ≡ []
              → (missing ≡ []) × All (Registered registry) ns)
          → (elim (elim there as (λ _. Result (Tool W)) [
            | none ↦ err (errorf "tool %q not found" (n ∷ []))
            | some t ↦ ok t
          ])
              as (λ _. Map (Tool W) × List String) [
                | err e ↦ gather_tools registry ns found (missing ++ (n ∷ []))
                | ok t ↦ gather_tools registry ns (insert n t found) missing
              ]).1
            ≡ []
          → (missing ≡ []) × (Registered registry n × All (Registered registry) ns)
      go none there lost kept h = absurd (append-none missing n (lost h).0)
      go (some t) there lost kept h = ((kept t h).0, (ap is_some there, (kept t h).1))

  resolve_tools-Registered :
      (registry : Map (Tool W)) (names : List String) (m : Map (Tool W))
      → resolve_tools registry names ≡ ok m
      → All (Registered registry) names
  unfolding resolve_tools
  resolve_tools-Registered registry names m h =
      (gather_tools-Registered registry names [] [] (go (gather_tools registry names [] []) h)).1
    where
      go :
          (r : Map (Tool W) × List String)
          → unless_missing "tools not found: %v" r.1 r.0 ≡ ok m
          → r.1 ≡ []
      go (found, []) h = refl
      go (found, n ∷ ns) h = absurd cc

module _ {W : Type 0} (fmt : Format) (empty_schema : Option (Map Value))
    (registries : CompileRegistries W) (spec : AgentSpec) where
  -- The agent is assembled from parts.
  abbrev IsAssembled : CompiledAgent W → Type 0
  IsAssembled ca =
      (prompt : Fragment) × (tools : Map (Tool W)) × (agents : Map (SubAgent W)) × (skills : Map
        String)
      × (provider : Provider Request Response W) × (assemble fmt empty_schema spec prompt tools
            agents skills provider
          ≡ ca)

  link-IsAssembled :
      (prompt : Fragment) (tools : Map (Tool W)) (agents : Map (SubAgent W)) (w : W)
      (ca : CompiledAgent W)
      → (link fmt empty_schema registries spec prompt tools agents w).1 ≡ ok ca
      → IsAssembled ca
  unfolding link
  link-IsAssembled prompt tools agents w ca h =
      go (resolve_skills registries.skills spec.skills w)
        (select_provider registries.sort registries.llm spec.tier spec.tags) h
    where
      go :
          (skills : W × Result (Map String)) (provider : Result (Provider Request Response W))
          → (elim skills.1 as (λ _. W × Result (CompiledAgent W)) [
            | err e ↦ (skills.0, err (wrapf "agent %q: resolve skills: %w" (spec.name ∷ []) e))
            | ok found ↦ elim provider as (λ _. W × Result (CompiledAgent W)) [
              | err e ↦ (skills.0, err (wrapf "agent %q: resolve LLM: %w" (spec.name ∷ []) e))
              | ok p ↦ (skills.0, ok (assemble fmt empty_schema spec prompt tools agents found p))
            ]
          ]).1
            ≡ ok ca
          → IsAssembled ca
      go (w', err e) provider h = absurd cc
      go (w', ok found) (err e) h = absurd cc
      go (w', ok found) (ok p) h = (prompt, tools, agents, found, p, cc)

  link_agents-IsAssembled :
      (prompt : Fragment) (tools : Map (Tool W)) (out : Outcome W) (w : W) (ca : CompiledAgent W)
      → (link_agents fmt empty_schema registries spec prompt tools out w).1 ≡ ok ca
      → IsAssembled ca
  unfolding link_agents
  link_agents-IsAssembled prompt tools (cyclic c) w ca h = absurd cc
  link_agents-IsAssembled prompt tools (refused e) w ca h = absurd cc
  link_agents-IsAssembled prompt tools (resolved agents) w ca h =
      link-IsAssembled prompt tools agents w ca h

  -- An agent that is fit to run: the tools of its definition are registered, and its loop ends on
  -- every input, within twice the limit of turns and two rounds.
  abbrev pub IsSound : ℕ → CompiledAgent W → Type 0
  IsSound max ca =
      All (Registered registries.tools) spec.tools
      × ((ctx_err : ℕ × W → Option Error) (s : State AgentState) (k : ℕ) (w : W)
          → (f : Final AgentState (ℕ × W)) × (invoke_agent ctx_err (2 * max + 2) ca s (k, w)
              ≡ some f))

  halts :
      (max : ℕ) (ca : CompiledAgent W)
      → iterations spec.max_iterations ≡ pos max
      → IsAssembled ca
      → (ctx_err : ℕ × W → Option Error) (s : State AgentState) (k : ℕ) (w : W)
      → (f : Final AgentState (ℕ × W)) × (invoke_agent ctx_err (2 * max + 2) ca s (k, w) ≡ some f)
  unfolding invoke_agent assemble
  halts max ca limit (prompt, tools, agents, skills, provider, same) ctx_err s k w =
      let llm = llm_node spec.name prompt.content empty_schema provider tools agents skills in
      let acts = tools_node fmt tools agents skills in
      let (f, ends, bound) = agent_terminates ctx_err spec.name max llm acts s k w in
      let ran : invoke ctx_err (agent_graph spec.name (iterations spec.max_iterations) llm acts)
            (2 * max + 2) s (k, w)
          ≡ some f =
        ap (λ n. invoke ctx_err (agent_graph spec.name n llm acts) (2 * max + 2) s (k, w)) limit
        ∙ ends in
      subst
        (λ c.
          (f : Final AgentState (ℕ × W)) × (invoke_agent ctx_err (2 * max + 2) c s (k, w) ≡ some f))
        same (record f { error = wrap_error spec.name f.error }, rw (invoke_agent, ran) refl)

  compile_tools-IsSound :
      (all : List String) (fuel max : ℕ) (prompt : Fragment) (w : W)
      → Declares registries.agents all
      → length all + length spec.agents < fuel
      → iterations spec.max_iterations ≡ pos max
      → (r : W × Result (CompiledAgent W)) × (compile_tools fmt empty_schema fuel registries spec
            prompt w
          ≡ some r)
        × ((ca : CompiledAgent W) → r.1 ≡ ok ca → IsSound max ca)
  unfolding compile_tools
  compile_tools-IsSound all fuel max prompt w inside enough limit =
      let (out, found, sound) =
        resolve_agents-Sound registries.agents all fuel spec.agents spec.name w inside enough in
      go (resolve_tools registries.tools spec.tools) refl
        (resolve_agents registries.agents fuel spec.agents spec.name w) out found
    where
      go :
          (gathered : Result (Map (Tool W)))
          → resolve_tools registries.tools spec.tools ≡ gathered
          → (o : Option (W × Outcome W)) (out : W × Outcome W) → o ≡ some out
          → (r : W × Result (CompiledAgent W)) × ((elim gathered
                as (λ _. Option (W × Result (CompiledAgent W))) [
                  | err e ↦ some (w, err (wrapf "agent %q: resolve tools: %w" (spec.name ∷ []) e))
                  | ok tools ↦ elim o as (λ _. Option (W × Result (CompiledAgent W))) [
                    | none ↦ none
                    | some r ↦
                        some (link_agents fmt empty_schema registries spec prompt tools r.1 r.0)
                  ]
                ])
              ≡ some r)
            × ((ca : CompiledAgent W) → r.1 ≡ ok ca → IsSound max ca)
      go (err e) at o out h = (
        (w, err (wrapf "agent %q: resolve tools: %w" (spec.name ∷ []) e)),
        refl,
        λ ca same. absurd cc,
      )
      go (ok tools) at none out h = absurd cc
      go (ok tools) at (some o) out h = (
        link_agents fmt empty_schema registries spec prompt tools o.1 o.0,
        refl,
        λ ca same. (
          resolve_tools-Registered registries.tools spec.tools tools at,
          halts max ca limit (link_agents-IsAssembled prompt tools o.1 o.0 ca same),
        ),
      )

  -- `Compile` ends when the names that any resolved agent declares are in a list and the fuel is more
  -- than that list and the allowlist together. An agent that it returns, for a limit of iterations
  -- that is not negative, names registered tools only, and its loop ends on every input.
  pub compile-IsSound :
      (all : List String) (fuel max : ℕ) (w : W)
      → Declares registries.agents all
      → length all + length spec.agents < fuel
      → iterations spec.max_iterations ≡ pos max
      → (r : W × Result (CompiledAgent W)) × (compile fmt empty_schema fuel registries (some spec) w
          ≡ some r)
        × ((ca : CompiledAgent W) → r.1 ≡ ok ca → IsSound max ca)
  unfolding compile
  compile-IsSound all fuel max w inside enough limit = go (registries.prompts spec.slug w)
    where
      go :
          (loaded : W × Result Fragment)
          → (r : W × Result (CompiledAgent W)) × ((elim loaded.1
                as (λ _. Option (W × Result (CompiledAgent W))) [
                  | err e ↦ some (
                    loaded.0,
                    err (wrapf "agent %q: system prompt %q: %w" (spec.name ∷ spec.slug ∷ []) e),
                  )
                  | ok fragment ↦
                      compile_tools fmt empty_schema fuel registries spec fragment loaded.0
                ])
              ≡ some r)
            × ((ca : CompiledAgent W) → r.1 ≡ ok ca → IsSound max ca)
      go (w', err e) = (
        (w', err (wrapf "agent %q: system prompt %q: %w" (spec.name ∷ spec.slug ∷ []) e)),
        refl,
        λ ca same. absurd cc,
      )
      go (w', ok fragment) = compile_tools-IsSound all fuel max fragment w' inside enough limit
