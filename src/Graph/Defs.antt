-- ===== src/Graph/Defs.antt =====
-- pkg/graph/types.go, pkg/graph/graph.go and pkg/graph/routers.go: the graph and its executor.
use bunshin_go.Common.{
  String, ℕ, zero, suc, [], ◌∷◌, Map, Option, none, some, lookup, insert, if◌then◌else◌, str_eq,
}
use bunshin_go.Core.Errors.{Error, errorf, wrapf, Result, ok, err}
use bunshin_go.Core.State.{State}

-- `END`.
abbrev pub end_node : String
end_node = "__end__"

-- What a node's runnable returns. A failed one comes with its input as the caller sees it
-- afterwards, since the maps of a state are shared.
pub data Reply {ℓ} (S : Type ℓ) : Type ℓ where
  done : State S → Reply S
  failed : Error → State S → Reply S

-- What a router returns: the next node, and its argument as the caller sees it afterwards.
pub record Routed {ℓ} (S : Type ℓ) : Type ℓ where
  pub seen : State S
  pub next : Result String

-- `W` is all that a call may read and change besides the state: the context, closures, services.
abbrev pub Runnable {ℓ} : Type ℓ → Type ℓ → Type ℓ
Runnable S W = State S → W → W × Reply S

abbrev pub Router {ℓ} : Type ℓ → Type ℓ → Type ℓ
Router S W = State S → W → W × Routed S

pub record Node {ℓ} (S W : Type ℓ) : Type ℓ where
  pub id : String
  pub runnable : Runnable S W
  pub router : Option (Router S W)

pub record Graph {ℓ} (S W : Type ℓ) : Type ℓ where
  pub name : String
  pub nodes : Map (Node S W)
  pub entry_point : String

-- `New`.
unfoldable pub new_graph {ℓ} : {S W : Type ℓ} → String → Graph S W
new_graph name = record { name = name; nodes = []; entry_point = "" }

-- `AddNode`; `none` is the panic on a duplicate identifier.
unfoldable pub add_node {ℓ} : {S W : Type ℓ} → Node S W → Graph S W → Option (Graph S W)
add_node n g = elim (lookup n.id g.nodes) [
  | some _ ↦ none
  | none ↦ some (record g { nodes = insert n.id n g.nodes })
]

-- `SetEntry`.
unfoldable pub set_entry {ℓ} : {S W : Type ℓ} → String → Graph S W → Graph S W
set_entry node_id g = record g { entry_point = node_id }

-- The variables of the loop in `Invoke`, with the world.
pub record Config {ℓ} (S W : Type ℓ) : Type ℓ where
  pub current : String
  pub input : State S
  pub world : W

-- The result pair of `Invoke`, with the world that it leaves.
pub record Final {ℓ} (S W : Type ℓ) : Type ℓ where
  pub state : State S
  pub error : Option Error
  pub world : W

pub data Round {ℓ} (S W : Type ℓ) : Type ℓ where
  stop : Final S W → Round S W
  more : Config S W → Round S W

module _ {ℓ} {S W : Type ℓ} where
  abbrev pub finish : W → State S → Option Error → Round S W
  finish w s e = stop (record { state = s; error = e; world = w })

  -- The part of a round after the router has been called.
  abbrev pub after_router : Graph S W → String → W × Routed S → Round S W
  after_router g current (w, r) = elim r.next [
    | err e ↦ finish w r.seen (some (wrapf "graph %q node %q router: %w" (g.name ∷ current ∷ []) e))
    | ok next ↦ more (record { current = next; input = r.seen; world = w })
  ]

  -- The part of a round after the node's runnable has been called.
  abbrev pub after_node : Graph S W → Node S W → String → W × Reply S → Round S W
  after_node g n current (w, failed e seen) =
      finish w seen (some (wrapf "graph %q node %q: %w" (g.name ∷ current ∷ []) e))
  after_node g n current (w, done out) = elim n.router [
    | none ↦ finish w out none
    | some router ↦ after_router g current (router out w)
  ]

  module _ (ctx_err : W → Option Error) (g : Graph S W) where
    -- One round of the loop of `Invoke`; `ctx_err` is `ctx.Err`.
    unfoldable pub round : Config S W → Round S W
    round c =
        if str_eq c.current end_node then finish c.world c.input none else elim (ctx_err c.world) [
          | some e ↦ finish c.world c.input (some e)
          | none ↦ elim (lookup c.current g.nodes) [
            | none ↦
                finish c.world c.input
                  (some (errorf "graph %q: node %q not found" (g.name ∷ c.current ∷ [])))
            | some n ↦ after_node g n c.current (n.runnable c.input c.world)
          ]
        ]

    -- The loop of `Invoke`; `none` means that the fuel ran out.
    unfoldable pub loop : ℕ → Config S W → Option (Final S W)
    unfolding round
    loop zero c = none
    loop (suc fuel) c = elim (round c) [ stop r ↦ some r | more c' ↦ loop fuel c' ]

    -- `Invoke`.
    unfoldable pub invoke : ℕ → State S → W → Option (Final S W)
    unfolding loop
    invoke fuel input w =
        if str_eq g.entry_point ""
        then some (record {
          state = input;
          error = some (errorf "graph %q: no entry point set" (g.name ∷ []));
          world = w;
        })
        else loop fuel (record { current = g.entry_point; input = input; world = w })

  -- `StaticRouter`.
  unfoldable pub static_router : String → Router S W
  static_router next s w = (w, record { seen = s; next = ok next })

  -- `ConditionalRouter`.
  unfoldable pub conditional_router : (State S → String) → Map String → Router S W
  conditional_router key_fn routes s w = elim (lookup (key_fn s) routes) [
    | none ↦ (w, record { seen = s; next = ok end_node })
    | some next ↦ (w, record { seen = s; next = ok next })
  ]
