-- ===== src/Tests/Routers.antt =====
-- pkg/graph/router/eip/eip.go: runs of the routers.
use bunshin_go.Common.{String, [], ◌∷◌, none, some, ◌≡◌, refl, differs, false, lookup}
use bunshin_go.Core.Errors.{ok}
use bunshin_go.Core.Value.{int, pos, string, strings, Runtime}
use bunshin_go.Core.State.{State, get_meta}
use bunshin_go.Graph.{end_node}
use bunshin_go.Eip.Values.{Data, to_int}
use bunshin_go.Eip.Routers.{recipient_list, routing_slip, collected}
use bunshin_go.Eip.Walks.{reaches_end, visits, recipient_list-visits, routing_slip-visits, At}
use bunshin_go.Eip.Aggregation.{feed, Holds, aggregator_collects}

-- No test prints a value or reads a float64.
abbrev runtime : Runtime
runtime = record { sprint = λ v. ""; int_of_float = λ bits. pos 0; equal_fold = λ s t. false }

abbrev idle : String → State Data → State Data
idle x s = s

abbrev start : State Data
start = record { payload = some []; meta = some (("pos", int (pos 0)) ∷ []) }

start-At : At runtime "pos" 0 start
unfolding to_int lookup
start-At = (("pos", int (pos 0)) ∷ [], refl, refl)

recipient_list-visits_example :
    visits 3 (recipient_list runtime ("audit" ∷ "mail" ∷ []) "pos") idle tt start
    ≡ ("audit" ∷ "mail" ∷ [], reaches_end)
recipient_list-visits_example =
    recipient_list-visits runtime ("audit" ∷ "mail" ∷ []) "pos" idle tt start refl (λ x s. refl)
      start-At

abbrev with_slip : State Data
with_slip = record {
  payload = some [];
  meta = some (("slip", strings ("audit" ∷ "mail" ∷ [])) ∷ ("pos", int (pos 0)) ∷ []);
}

with_slip-At : At runtime "pos" 0 with_slip
unfolding to_int lookup
with_slip-At = (("slip", strings ("audit" ∷ "mail" ∷ [])) ∷ ("pos", int (pos 0)) ∷ [], refl, refl)

read_slip : get_meta with_slip "slip" ≡ some (strings ("audit" ∷ "mail" ∷ []))
unfolding get_meta lookup
read_slip = refl

routing_slip-visits_example :
    visits 3 (routing_slip runtime "slip" "pos") idle tt with_slip
    ≡ ("audit" ∷ "mail" ∷ [], reaches_end)
routing_slip-visits_example =
    routing_slip-visits runtime ("audit" ∷ "mail" ∷ []) "slip" "pos" idle tt with_slip refl
      (differs refl) (λ x s. refl) (λ x s. refl) read_slip with_slip-At

abbrev lost : State Data
lost = record { payload = none; meta = none }

abbrev expecting : State Data
expecting = record { payload = some []; meta = some (("count", int (pos 2)) ∷ []) }

expecting-Holds : Holds runtime "item" "out" "count" "next" [] 2 expecting
unfolding to_int lookup collected get_meta
expecting-Holds = record { fields = []; present = refl; output = refl; expected = refl }

aggregator_collects_example :
    (feed runtime "item" "out" "count" "next" (string "a" ∷ string "b" ∷ []) expecting).1
    ≡ ok end_node ∷ ok "next" ∷ []
aggregator_collects_example =
    (aggregator_collects runtime "item" "out" "count" "next" (string "a" ∷ string "b" ∷ []) 1
      expecting (differs refl) expecting-Holds refl).1
