-- ===== src/Workflow/Compiled.antt =====
-- The graph that a well-formed workflow definition compiles to.
use mathlib.Core.Path.{subst}
use bunshin_go.Common.{
  String, Map, ℕ, zero, suc, ◌+◌, List, [], ◌∷◌, Option, none, some, ◌≡◌, refl, sym, ◌∙◌, ◌≢◌, ◌⊎◌,
  inl, inr, true, str_eq, contains, All, Distinct, arith, eq_iff, lookup, get_elem?, is_some,
  if◌then◌else◌, Option-cases,
}
use bunshin_go.Core.Errors.{errorf, ok}
use bunshin_go.Core.Attempt
use bunshin_go.Core.Attempt.{Attempt, returns, fails, panics, calls, wrap_attempt}
use bunshin_go.Graph.{Router, Node, Graph, end_node}
use bunshin_go.Eip.Values.{Data}
use bunshin_go.Workflow.Spec.{RouterRef, NodeSpec, Spec}
use bunshin_go.Workflow.Parsing.{ids_of, Points, IsWellFormed}
use bunshin_go.Workflow.Registry.{Factory, build, build_custom}
use bunshin_go.Workflow.Assembly.{node_ids, find_node, find_node_absent, assemble-Distinct}
use bunshin_go.Workflow.Compiler.{
  Registries, build_runnable, next_by_position, fixed_router, build_router, build_node, build_from,
  build_nodes, entry_of, assemble, compile,
}

module _ {W : Type 0} (regs : Registries W) where
  -- The nodes are built from the definitions, one for one.
  abbrev Built : List NodeSpec → ℕ → List NodeSpec → List (Node Data W) → Type 0
  Built nodes idx [] [] = Unit
  Built nodes idx (r ∷ rs) (n ∷ ns) =
      (build_node regs nodes idx r ≡ returns n) × Built nodes (suc idx) rs ns
  Built nodes idx [] (n ∷ ns) = ⊥
  Built nodes idx (r ∷ rs) [] = ⊥

  build_from-Built :
      (nodes : List NodeSpec) (idx : ℕ) (rs : List NodeSpec) (ns : List (Node Data W))
      → build_from regs nodes idx rs ≡ returns ns
      → Built nodes idx rs ns
  unfolding build_from
  build_from-Built nodes idx [] [] h = tt
  build_from-Built nodes idx [] (n ∷ ns) h = cc
  build_from-Built nodes idx (r ∷ rs) ns h =
      go (build_node regs nodes idx r) (build_from regs nodes (suc idx) rs) refl
        (build_from-Built nodes (suc idx) rs) h
    where
      go :
          (a : Attempt (Node Data W)) (b : Attempt (List (Node Data W)))
          → build_node regs nodes idx r ≡ a
          → ((later : List (Node Data W)) → b ≡ returns later → Built nodes (suc idx) rs later)
          → Attempt.◌>>=◌ a (λ n. Attempt.◌>>=◌ b λ later. returns (n ∷ later)) ≡ returns ns
          → Built nodes idx (r ∷ rs) ns
      go (returns n) (returns later) at ih e =
          let same : n ∷ later ≡ ns = cc in
          subst (Built nodes idx (r ∷ rs)) same (at, ih later refl)
      go (returns n) (fails x) at ih e = cc
      go (returns n) panics at ih e = cc
      go (fails x) b at ih e = cc
      go panics b at ih e = cc

  build_node-id :
      (nodes : List NodeSpec) (idx : ℕ) (r : NodeSpec) (n : Node Data W)
      → build_node regs nodes idx r ≡ returns n
      → (n.id ≡ r.id)
        × (r.router ≡ none
            → n.router
              ≡ some
                  (fixed_router (if str_eq r.next "" then next_by_position idx nodes else r.next)))
  unfolding build_node build_router
  build_node-id nodes idx r n h = (ground arith, λ plain. ground arith)

  -- The router that the registry builds for the reference of a definition.
  abbrev pub FromRegistry : NodeSpec → Option (Router Data W) → Type 0
  FromRegistry r router =
      (ref : RouterRef)
      → r.router ≡ some ref
      → (factories : Map (Factory W)) × (regs.routers ≡ some factories)
        × (build (some ref) factories regs.customs ≡ returns router)

  build_node-runnable :
      (nodes : List NodeSpec) (idx : ℕ) (r : NodeSpec) (n : Node Data W)
      → build_node regs nodes idx r ≡ returns n
      → build_runnable regs r ≡ ok n.runnable
  unfolding build_node
  build_node-runnable nodes idx r n h = ground arith

  build_node-FromRegistry :
      (nodes : List NodeSpec) (idx : ℕ) (r : NodeSpec) (n : Node Data W)
      → build_node regs nodes idx r ≡ returns n
      → FromRegistry r n.router
  unfolding build_node build_router
  build_node-FromRegistry nodes idx r n h ref routed = elim (Option-cases regs.routers) [
    | inl nil ↦ absurd ground arith
    | inr (factories, given) ↦ (factories, given, ground arith)
  ]

  Built-node_ids :
      (nodes : List NodeSpec) (idx : ℕ) (rs : List NodeSpec) (ns : List (Node Data W))
      → Built nodes idx rs ns
      → node_ids ns ≡ ids_of rs
  unfolding node_ids
  Built-node_ids nodes idx [] [] b = refl
  Built-node_ids nodes idx (r ∷ rs) (n ∷ ns) (at, b) =
      cc ((build_node-id nodes idx r n at).0, Built-node_ids nodes (suc idx) rs ns b)
  Built-node_ids nodes idx [] (n ∷ ns) b = absurd b
  Built-node_ids nodes idx (r ∷ rs) [] b = absurd b

  -- Where the compiled nodes may go by themselves.
  abbrev pub Targets : List NodeSpec → Option (Router Data W) → Type 0
  Targets nodes router =
      (t : String) × (router ≡ some (fixed_router t))
      × ((t ≡ end_node) ⊎ (contains t (ids_of nodes) ≡ true))

  get_elem?-contains :
      (nodes : List NodeSpec) (i : ℕ) (n : NodeSpec)
      → get_elem? nodes i ≡ some n
      → contains n.id (ids_of nodes) ≡ true
  get_elem?-contains [] i n h = cc
  get_elem?-contains (m ∷ ms) zero n h = ground (arith, eq_iff m.id n.id)
  get_elem?-contains (m ∷ ms) (suc i) n h = ground (arith, get_elem?-contains ms i n h)

  next_by_position_target :
      (idx : ℕ) (nodes : List NodeSpec)
      → (next_by_position idx nodes ≡ end_node)
        ⊎ (contains (next_by_position idx nodes) (ids_of nodes) ≡ true)
  unfolding next_by_position
  next_by_position_target idx nodes = elim (Option-cases (get_elem? nodes (idx + 1))) [
    | inl missing ↦ inl (rw (missing, next_by_position))
    | inr (n, found) ↦
        inr (rw (found, next_by_position) (get_elem?-contains nodes (idx + 1) n found))
  ]

  -- Each definition in a list that was built has its node under its identifier, with the runnable built
  -- for it; a node with no router of its own goes to a node of the workflow or to the end, another one
  -- has the router of the registry.
  abbrev pub Placed : List NodeSpec → Graph Data W → NodeSpec → Type 0
  Placed nodes g r =
      (n : Node Data W) × (lookup r.id g.nodes ≡ some n)
      × (n.id ≡ r.id)
      × (build_runnable regs r ≡ ok n.runnable)
      × (r.router ≡ none → Targets nodes n.router)
      × FromRegistry r n.router

  target_of :
      (nodes : List NodeSpec) (idx : ℕ) (r : NodeSpec)
      → Points (ids_of nodes) r
      → let t = if str_eq r.next "" then next_by_position idx nodes else r.next in
        (t ≡ end_node) ⊎ (contains t (ids_of nodes) ≡ true)
  target_of nodes idx r points = ground (arith, next_by_position_target idx nodes, eq_iff r.next "")

  All-Placed :
      (nodes : List NodeSpec) (g : Graph Data W) (idx : ℕ) (rs : List NodeSpec)
      (ns : List (Node Data W))
      → Built nodes idx rs ns
      → All (Points (ids_of nodes)) rs
      → Distinct (node_ids ns)
      → ((k : String) (m : Node Data W) → find_node k ns ≡ some m → lookup k g.nodes ≡ some m)
      → All (Placed nodes g) rs
  unfolding find_node node_ids
  All-Placed nodes g idx [] [] b points d h = tt
  All-Placed nodes g idx (r ∷ rs) (n ∷ ns) (at, b) (point, points) (apart, d) h =
      let (same, plain) = build_node-id nodes idx r n at in
      (
        (
          n,
          h r.id n (ground (arith, eq_iff n.id r.id)),
          same,
          build_node-runnable nodes idx r n at,
          λ e. (
            if str_eq r.next "" then next_by_position idx nodes else r.next,
            plain e,
            target_of nodes idx r point,
          ),
          build_node-FromRegistry nodes idx r n at,
        ),
        All-Placed nodes g (suc idx) rs ns b points d
            (λ k m found. h k m (ground (arith, eq_iff n.id k, find_node_absent k ns))),
      )
  All-Placed nodes g idx [] (n ∷ ns) b points d h = absurd b
  All-Placed nodes g idx (r ∷ rs) [] b points d h = absurd b

  build_node_no_panic :
      (nodes : List NodeSpec) (idx : ℕ) (r : NodeSpec)
      → regs.customs ≢ none
      → build_node regs nodes idx r ≢ panics
  unfolding build_node build_router build build_custom
  build_node_no_panic nodes idx r given = ground arith

  build_from_no_panic :
      (nodes : List NodeSpec) (idx : ℕ) (rs : List NodeSpec)
      → regs.customs ≢ none
      → build_from regs nodes idx rs ≢ panics
  unfolding build_from
  build_from_no_panic nodes idx [] given = cc
  build_from_no_panic nodes idx (r ∷ rs) given =
      ground
        (arith, build_node_no_panic nodes idx r given, build_from_no_panic nodes (suc idx) rs given)

  compile_built :
      (spec : Spec)
      → spec.nodes ≢ []
      → compile regs (some spec) ≡ Attempt.◌>>=◌ (build_nodes regs spec) (assemble spec.name)
  unfolding compile
  compile_built spec given = go spec.nodes given
    where
      go :
          (nodes : List NodeSpec)
          → nodes ≢ []
          → elim nodes as (λ _. Attempt (Graph Data W)) [
            | [] ↦ fails (errorf "workflow.Compile: spec %q has no nodes" (spec.name ∷ []))
            | _ ↦ Attempt.◌>>=◌ (build_nodes regs spec) (assemble spec.name)
          ]
            ≡ Attempt.◌>>=◌ (build_nodes regs spec) (assemble spec.name)
      go [] h = absurd (h refl)
      go (n ∷ ns) h = refl

  entry_found :
      (nodes : List NodeSpec) (rs : List NodeSpec) (idx : ℕ) (ns : List (Node Data W))
      → Built nodes idx rs ns
      → rs ≢ []
      → is_some (find_node (entry_of ns) ns) ≡ true
  unfolding find_node
  entry_found nodes [] idx ns b given = absurd (given refl)
  entry_found nodes (r ∷ rs) idx [] b given = absurd b
  entry_found nodes (r ∷ rs) idx (n ∷ ns) b given = ground (arith, eq_iff n.id n.id)

-- A well-formed workflow definition, compiled with a registry of runnables: the compiler does not
-- panic, and a graph that it returns has its entry point among its nodes and every node of the
-- definition under its own identifier, with the runnable built for it. A node with no router of its
-- own goes on to a node of the workflow or to `END`; a node with one has the router that the registry
-- builds, of whose targets nothing is said.
pub compile-Placed :
    {W : Type 0} (regs : Registries W) (spec : Spec)
    → IsWellFormed spec
    → regs.customs ≢ none
    → (compile regs (some spec) ≢ panics)
      × ((g : Graph Data W)
          → compile regs (some spec) ≡ returns g
          → (is_some (lookup g.entry_point g.nodes) ≡ true)
            × All (Placed regs spec.nodes g) spec.nodes)
unfolding build_nodes
compile-Placed {W} regs spec h given =
    rw (compile_built regs spec h.populated) (go (build_from regs spec.nodes 0 spec.nodes) refl)
  where
    go :
        (a : Attempt (List (Node Data W)))
        → build_from regs spec.nodes 0 spec.nodes ≡ a
        → (Attempt.◌>>=◌ a (assemble spec.name) ≢ panics)
          × ((g : Graph Data W)
              → Attempt.◌>>=◌ a (assemble spec.name) ≡ returns g
              → (is_some (lookup g.entry_point g.nodes) ≡ true)
                × All (Placed regs spec.nodes g) spec.nodes)
    go (fails e) at = (λ x. cc, λ g x. cc)
    go panics at = absurd (build_from_no_panic regs spec.nodes 0 spec.nodes given at)
    go (returns ns) at =
        let b = build_from-Built regs spec.nodes 0 spec.nodes ns at in
        let ids = Built-node_ids regs spec.nodes 0 spec.nodes ns b in
        let d = subst Distinct (sym ids) h.distinct in
        let (g', assembled, entry, found) = assemble-Distinct spec.name ns d in
        (
          λ x. cc,
          λ g x.
              let same : g' ≡ g = cc in
              subst
                (λ (q : Graph Data W).
                  (is_some (lookup q.entry_point q.nodes) ≡ true)
                  × All (Placed regs spec.nodes q) spec.nodes)
                same
                (
                  rw (entry, found) (entry_found regs spec.nodes spec.nodes 0 ns b h.populated),
                  All-Placed regs spec.nodes g' 0 spec.nodes ns b h.pointing d
                      (λ k m hit. found k ∙ hit),
                ),
        )

-- A custom router with a name, where routers are registered but the registry of runnables is nil,
-- makes the compiler panic instead of returning an error.
pub build_router_panics :
    {W : Type 0} (regs : Registries W) (ns : NodeSpec) (idx : ℕ) (nodes : List NodeSpec)
    (ref : RouterRef)
    → regs.customs ≡ none
    → regs.routers ≢ none
    → ns.router ≡ some ref
    → ref.kind ≡ "custom"
    → ref.name ≢ ""
    → build_router regs ns idx nodes ≡ panics
unfolding build_router build build_custom
build_router_panics regs ns idx nodes ref nil given routed custom named =
    ground (arith, eq_iff ref.kind "custom", eq_iff ref.name "")
