-- ===== src/Graph/Runs.antt =====
-- Executions of a graph as derivations: what the loop of `Graph.Invoke` does, with no fuel and no
-- reference to the code of the loop.
use mathlib.Core.Path.{◌≡◌}
use bunshin_go.Common.{String, ◌∷◌, [], ◌≢◌, Option, none, some, lookup}
use bunshin_go.Core.Errors.{Error, errorf, wrapf, ok, err}
use bunshin_go.Core.State.{State}
use bunshin_go.Graph.Defs.{end_node, done, failed, Routed, Router, Node, Graph, Config, Final}

module _ {ℓ} {S W : Type ℓ} (ctx_err : W → Option Error) (g : Graph S W) where
  -- The node `n` is run in `c`: the graph is not at the end, the context is alive, and `n` is there.
  pub record Enters (c : Config S W) (n : Node S W) : Type ℓ where
    pub running : c.current ≢ end_node
    pub alive : ctx_err c.world ≡ none
    pub found : lookup c.current g.nodes ≡ some n

  pub data Runs : Config S W → Final S W → Type ℓ where
    at_end :
        {c : Config S W}
        → c.current ≡ end_node
        → Runs c (record { state = c.input; error = none; world = c.world })
    cancelled :
        {c : Config S W} {e : Error}
        → c.current ≢ end_node
        → ctx_err c.world ≡ some e
        → Runs c (record { state = c.input; error = some e; world = c.world })
    missing :
        {c : Config S W}
        → c.current ≢ end_node
        → ctx_err c.world ≡ none
        → lookup c.current g.nodes ≡ none
        → Runs c (record {
          state = c.input;
          error = some (errorf "graph %q: node %q not found" (g.name ∷ c.current ∷ []));
          world = c.world;
        })
    node_failed :
        {c : Config S W} {n : Node S W} {w : W} {e : Error} {seen : State S}
        → Enters c n
        → n.runnable c.input c.world ≡ (w, failed e seen)
        → Runs c (record {
          state = seen;
          error = some (wrapf "graph %q node %q: %w" (g.name ∷ c.current ∷ []) e);
          world = w;
        })
    last :
        {c : Config S W} {n : Node S W} {w : W} {out : State S}
        → Enters c n
        → n.runnable c.input c.world ≡ (w, done out)
        → n.router ≡ none
        → Runs c (record { state = out; error = none; world = w })
    router_failed :
        {c : Config S W} {n : Node S W} {w w' : W} {out : State S} {router : Router S W}
        {r : Routed S} {e : Error}
        → Enters c n
        → n.runnable c.input c.world ≡ (w, done out)
        → n.router ≡ some router
        → router out w ≡ (w', r)
        → r.next ≡ err e
        → Runs c (record {
          state = r.seen;
          error = some (wrapf "graph %q node %q router: %w" (g.name ∷ c.current ∷ []) e);
          world = w';
        })
    hop :
        {c : Config S W} {n : Node S W} {w w' : W} {out : State S} {router : Router S W}
        {r : Routed S} {next : String} {final : Final S W}
        → Enters c n
        → n.runnable c.input c.world ≡ (w, done out)
        → n.router ≡ some router
        → router out w ≡ (w', r)
        → r.next ≡ ok next
        → Runs (record { current = next; input = r.seen; world = w' }) final
        → Runs c final
