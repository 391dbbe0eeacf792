-- ===== src/Workflow/Assembly.antt =====
-- The graph that `CompileContext` (pkg/workflow/compiler.go) assembles from its nodes.
use bunshin_go.Common.{
  String, List, [], ◌∷◌, Option, none, some, ◌≡◌, refl, ◌∙◌, true, false, str_eq, contains,
  Distinct, arith, eq_iff, lookup, insert, lookup-insert, if◌then◌else◌,
}
use bunshin_go.Core.Attempt.{returns}
use bunshin_go.Graph.{Node, Graph, new_graph, add_node, set_entry}
use bunshin_go.Eip.Values.{Data}
use bunshin_go.Workflow.Compiler.{add_all, entry_of, assemble}

module _ {W : Type 0} where
  unfoldable pub node_ids : List (Node Data W) → List String
  node_ids [] = []
  node_ids (n ∷ ns) = n.id ∷ node_ids ns

  unfoldable pub find_node : String → List (Node Data W) → Option (Node Data W)
  find_node k [] = none
  find_node k (n ∷ ns) = if str_eq n.id k then some n else find_node k ns

  pub find_node_absent :
      (k : String) (ns : List (Node Data W))
      → contains k (node_ids ns) ≡ false
      → find_node k ns ≡ none
  unfolding find_node node_ids
  find_node_absent k [] h = refl
  find_node_absent k (n ∷ ns) h = ground (arith, find_node_absent k ns)

  add_node_free :
      (n : Node Data W) (g : Graph Data W)
      → lookup n.id g.nodes ≡ none
      → add_node n g ≡ some (record g { nodes = insert n.id n g.nodes })
  unfolding add_node
  add_node_free n g free = rw (free, add_node)

  -- What the first of some nodes with the identifier is, or else what was there.
  abbrev or_else : Option (Node Data W) → Option (Node Data W) → Option (Node Data W)
  or_else (some n) o = some n
  or_else none o = o

  -- Nodes with distinct identifiers that the graph does not have are all added.
  add_all-Distinct :
      (ns : List (Node Data W)) (g : Graph Data W)
      → Distinct (node_ids ns)
      → ((k : String) → contains k (node_ids ns) ≡ true → lookup k g.nodes ≡ none)
      → (g' : Graph Data W) × (add_all ns g ≡ some g')
        × ((k : String) → lookup k g'.nodes ≡ or_else (find_node k ns) (lookup k g.nodes))
  unfolding add_all find_node node_ids
  add_all-Distinct [] g d new = (g, refl, λ k. refl)
  add_all-Distinct (n ∷ ns) g (apart, d) new =
      let free : lookup n.id g.nodes ≡ none = new n.id (ground (arith, eq_iff n.id n.id)) in
      let g₁ : Graph Data W = record g { nodes = insert n.id n g.nodes } in
      let (g', added, found) =
        add_all-Distinct ns g₁ d
          (λ k h. ground (arith, new k, lookup-insert n.id k n g.nodes, eq_iff n.id k)) in
      (
        g',
        rw (add_node_free n g free, add_all) added,
        λ k.
            ground (
              arith,
              found k,
              lookup-insert n.id k n g.nodes,
              eq_iff n.id k,
              find_node_absent k ns,
            ),
      )

  pub assemble-Distinct :
      (name : String) (ns : List (Node Data W))
      → Distinct (node_ids ns)
      → (g : Graph Data W) × (assemble name ns ≡ returns g)
        × (g.entry_point ≡ entry_of ns)
        × ((k : String) → lookup k g.nodes ≡ find_node k ns)
  unfolding assemble new_graph set_entry lookup
  assemble-Distinct name ns d =
      let (g, added, found) = add_all-Distinct ns (new_graph name) d (λ k h. refl) in
      (
        set_entry (entry_of ns) g,
        rw (added, assemble),
        refl,
        λ k. found k ∙ or_else_none (find_node k ns),
      )
    where
      or_else_none : (o : Option (Node Data W)) → or_else o none ≡ o
      or_else_none none = refl
      or_else_none (some n) = refl
