-- ===== src/Eip/Routers.antt =====
-- The router factories of pkg/graph/router/eip/eip.go. Each checks its configuration and returns a
-- router; the routers neither read nor change the world `W`.
use bunshin_go.Common.{
  String, List, [], ◌∷◌, ◌++◌, Map, Option, none, some, Bool, true, false, ◌&&◌, if◌then◌else◌,
  str_eq, not, lookup, is_some, length, leb,
}
use bunshin_go.Core.Errors.{errorf, Result, ok, err, ◌>>=◌, wrap}
use bunshin_go.Core.Value.{ℤ, pos, negsuc, Value, int, string, slice, to_list, of_list, Runtime}
use bunshin_go.Core.State.{State, get_key, get_meta}
use bunshin_go.Graph.{Router, Routed, end_node}
use bunshin_go.Eip.Values.{
  Data, require_string, to_int, to_string_map, to_string_slice, to_any_string_slice, to_any_slice,
  is_truthy, write_meta, write_data, take_at,
}

-- The answer of a router: the state as the caller sees it, and the next node.
abbrev pub answer : {W : Type 0} → State Data → W → Result String → W × Routed Data
answer s w next = (w, record { seen = s; next = next })

-- The `default` of the configuration, `END` where there is none.
default_of : Option (Map Value) → Result String
default_of config = elim (get_key config "default") [
  | none ↦ ok end_node
  | some (string s) ↦ ok s
  | some _ ↦ err (errorf "content_based: default must be a string" [])
]

-- The `switch` of the closure of `filterFactory`; `none` is its default case.
unfoldable pub passes : Runtime → String → String → Option Value → Option Bool
passes rt op rhs v =
    if str_eq op "exists"
    then some (is_some v)
    else if str_eq op "eq"
    then some (elim v [ none ↦ false | some x ↦ str_eq (rt.sprint x) rhs ])
    else if str_eq op "neq"
    then some (elim v [ none ↦ true | some x ↦ not (str_eq (rt.sprint x) rhs) ])
    else if str_eq op "truthy"
    then some (elim v [ none ↦ false | some x ↦ is_truthy rt x ])
    else none

-- `config["value"].(string)`, "" where that fails.
value_of : Option (Map Value) → String
value_of config = elim (get_key config "value") [ none ↦ "" | some (string s) ↦ s | some _ ↦ "" ]

-- The accumulator under the output key; a value that is no `[]any` is an error.
unfoldable pub collected : String → Option Value → Result (List Value)
collected output_key none = ok []
collected output_key (some (slice vs)) = ok (to_list vs)
collected output_key (some _) =
    err (errorf "aggregator: output_key %q already set to %T, want []any" (output_key ∷ []))

-- `expected > 0 && len(acc) >= expected`.
unfoldable pub is_complete : ℤ → List Value → Bool
is_complete (pos n) acc = leb 1 n && leb n (length acc)
is_complete (negsuc n) acc = false

module _ {W : Type 0} (rt : Runtime) where
  -- The closure of `contentBasedFactory`.
  unfoldable pub content_based : String → Map String → String → Router Data W
  content_based key cases default_next s w = elim (get_meta s key) [
    | none ↦ answer s w (ok default_next)
    | some v ↦ elim (lookup (rt.sprint v) cases) [
      | none ↦ answer s w (ok default_next)
      | some next ↦ answer s w (ok next)
    ]
  ]

  -- `contentBasedFactory`.
  unfoldable pub content_based_factory : Option (Map Value) → Result (Router Data W)
  unfolding default_of
  content_based_factory config = do
    key ← wrap "content_based: %w" [] (require_string config "key")
    elim (get_key config "cases") [
      | none ↦ err (errorf "content_based: config missing required key %q" ("cases" ∷ []))
      | some raw ↦ do
        cases ← wrap "content_based: cases: %w" [] (to_string_map raw)
        default_next ← default_of config
        ok (content_based key cases default_next)
    ]

  -- The closure of `filterFactory`.
  unfoldable pub filter : String → String → String → String → Router Data W
  filter key op rhs next s w = elim (passes rt op rhs (get_key s.payload key)) [
    | none ↦ answer s w (err (errorf "filter: unknown op %q (want exists|eq|neq|truthy)" (op ∷ [])))
    | some b ↦ answer s w (ok (if b then next else end_node))
  ]

  -- `filterFactory`.
  unfoldable pub filter_factory : Option (Map Value) → Result (Router Data W)
  unfolding value_of
  filter_factory config = do
    key ← wrap "filter: %w" [] (require_string config "key")
    op ← wrap "filter: %w" [] (require_string config "op")
    next ← wrap "filter: %w" [] (require_string config "next")
    ok (filter key op (value_of config) next)

  -- The end of the closures that walk a list: the node at the position, and the position moved on.
  abbrev pub advance : String → List String → State Data → W → W × Routed Data
  advance pos_key nodes s w = elim (take_at (to_int rt (get_meta s pos_key)) nodes) [
    | none ↦ answer s w (ok end_node)
    | some (next, p) ↦ answer (write_meta pos_key (int p) s) w (ok next)
  ]

  -- The closure of `routingSlipFactory`.
  unfoldable pub routing_slip : String → String → Router Data W
  routing_slip slip_key pos_key s w = elim (get_meta s slip_key) [
    | none ↦ answer s w (ok end_node)
    | some raw ↦ elim (wrap "routing_slip: slip_key: %w" [] (to_any_string_slice raw)) [
      | err e ↦ answer s w (err e)
      | ok slip ↦ advance pos_key slip s w
    ]
  ]

  -- `routingSlipFactory`.
  unfoldable pub routing_slip_factory : Option (Map Value) → Result (Router Data W)
  routing_slip_factory config = do
    slip_key ← wrap "routing_slip: %w" [] (require_string config "slip_key")
    pos_key ← wrap "routing_slip: %w" [] (require_string config "pos_key")
    ok (routing_slip slip_key pos_key)

  -- The closure of `recipientListFactory`.
  unfoldable pub recipient_list : List String → String → Router Data W
  recipient_list recipients pos_key s w = advance pos_key recipients s w

  -- `recipientListFactory`.
  unfoldable pub recipient_list_factory : Option (Map Value) → Result (Router Data W)
  recipient_list_factory config = elim (get_key config "recipients") [
    | none ↦ err (errorf "recipient_list: config missing required key %q" ("recipients" ∷ []))
    | some raw ↦ do
      recipients ← wrap "recipient_list: recipients: %w" [] (to_string_slice raw)
      pos_key ← wrap "recipient_list: %w" [] (require_string config "pos_key")
      ok (recipient_list recipients pos_key)
  ]

  -- The closure of `splitterFactory`.
  unfoldable pub splitter : String → String → String → String → Router Data W
  splitter input_key item_key pos_key next s w = elim (get_key s.payload input_key) [
    | none ↦ answer s w (ok end_node)
    | some raw ↦ elim (wrap "splitter: %s: %w" (input_key ∷ []) (to_any_slice raw)) [
      | err e ↦ answer s w (err e)
      | ok items ↦ elim (take_at (to_int rt (get_meta s pos_key)) items) [
        | none ↦ answer s w (ok end_node)
        | some (x, p) ↦ answer (write_meta pos_key (int p) (write_data item_key x s)) w (ok next)
      ]
    ]
  ]

  -- `splitterFactory`.
  unfoldable pub splitter_factory : Option (Map Value) → Result (Router Data W)
  splitter_factory config = do
    input_key ← wrap "splitter: %w" [] (require_string config "input_key")
    item_key ← wrap "splitter: %w" [] (require_string config "item_key")
    pos_key ← wrap "splitter: %w" [] (require_string config "pos_key")
    next ← wrap "splitter: %w" [] (require_string config "next")
    ok (splitter input_key item_key pos_key next)

  -- The closure of `aggregatorFactory`.
  unfoldable pub aggregator : String → String → String → String → Router Data W
  aggregator item_key output_key count_key next s w = elim (get_key s.payload item_key) [
    | none ↦ answer s w (ok end_node)
    | some x ↦ elim (collected output_key (get_key s.payload output_key)) [
      | err e ↦ answer s w (err e)
      | ok old ↦
          let acc = old ++ (x ∷ []) in
          let expected = to_int rt (get_meta s count_key) in
          answer (write_data output_key (slice (of_list acc)) s) w
            (ok (if is_complete expected acc then next else end_node))
    ]
  ]

  -- `aggregatorFactory`.
  unfoldable pub aggregator_factory : Option (Map Value) → Result (Router Data W)
  aggregator_factory config = do
    item_key ← wrap "aggregator: %w" [] (require_string config "item_key")
    output_key ← wrap "aggregator: %w" [] (require_string config "output_key")
    count_key ← wrap "aggregator: %w" [] (require_string config "count_key")
    next ← wrap "aggregator: %w" [] (require_string config "next")
    ok (aggregator item_key output_key count_key next)
