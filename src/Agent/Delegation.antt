-- ===== src/Agent/Delegation.antt =====
-- pkg/agent/compiler.go: an agent that calls another one.
use mathlib.Core.Path.{subst}
use bunshin_go.Common.{
  String, ℕ, ◌+◌, ◌≤◌, ◌<◌, List, [], ◌∷◌, Map, Option, none, some, lookup, insert, ◌≡◌, refl, sym,
  ap, ◌∙◌, arith, eq_iff, true, false, lookup-insert, Option-cases, Bool-cases, inl, inr, str_eq,
  if◌then◌else◌, contains,
}
use bunshin_go.Core.Value.{pos, Value, int}
use bunshin_go.Core.State.{State, get_key}
use bunshin_go.Llm.Messages.{ToolCall}
use bunshin_go.Agent.State.{AgentState, SubAgent, Format}
use bunshin_go.Agent.Calls.{
  depth_key, int_of, depth_of, next_depth, propagate, propagated_keys, sub_state, invoke_sub_agent,
}

-- What is read after the keys of the parent are copied.
abbrev handed : String → List String → Option (Map Value) → Map Value → Option Value
handed j ks meta m =
    if contains j ks
    then elim (get_key meta j) [ none ↦ lookup j m | some v ↦ some v ]
    else lookup j m

copy_one :
    (j k : String) (ks : List String) (meta : Option (Map Value)) (m : Map Value)
    → handed j ks meta (elim (get_key meta k) [ none ↦ m | some v ↦ insert k v m ])
      ≡ handed j (k ∷ ks) meta m
copy_one j k ks meta m = elim (Bool-cases (str_eq k j)) [
  | inl same ↦
      let at : k ≡ j = (eq_iff k j).0 same in subst Copied (sym at) (go (get_key meta j) refl)
  | inr other ↦ elim (Option-cases (get_key meta k)) [
    | inl absent ↦ rw absent (ground arith)
    | inr (v, there) ↦ rw there (ground (arith, lookup-insert k j v m))
  ]
]
  where
    Copied : String → Type 0
    Copied i =
        handed j ks meta (elim (get_key meta i) [ none ↦ m | some v ↦ insert i v m ])
        ≡ handed j (i ∷ ks) meta m

    go :
        (o : Option Value)
        → get_key meta j ≡ o
        → handed j ks meta (elim o [ none ↦ m | some v ↦ insert j v m ]) ≡ handed j (j ∷ ks) meta m
    go none e = ground (arith, eq_iff j j)
    go (some v) e = ground (arith, eq_iff j j, lookup-insert j j v m)

lookup-propagate :
    (j : String) (ks : List String) (meta : Option (Map Value)) (m : Map Value)
    → lookup j (propagate ks meta m) ≡ handed j ks meta m
unfolding propagate
lookup-propagate j [] meta m = refl
lookup-propagate j (k ∷ ks) meta m =
    lookup-propagate j ks meta (elim (get_key meta k) [ none ↦ m | some v ↦ insert k v m ])
    ∙ copy_one j k ks meta m

sub_state-get_key :
    (fmt : Format) (tc : ToolCall) (s : State AgentState) (j : String)
    → get_key (sub_state fmt tc s).meta j
      ≡ handed j propagated_keys s.meta (insert depth_key (int (next_depth (depth_of s.meta))) [])
unfolding sub_state
sub_state-get_key fmt tc s j =
    lookup-propagate j propagated_keys s.meta
      (insert depth_key (int (next_depth (depth_of s.meta))) [])

guarded :
    {W : Type 0} (fmt : Format) (tc : ToolCall) (agent : SubAgent W) (s : State AgentState) (w : W)
    (d : ℕ)
    → depth_of s.meta ≡ pos d
    → 8 ≤ d
    → (invoke_sub_agent fmt tc agent s w).0 ≡ w
unfolding invoke_sub_agent
guarded fmt tc agent s w d at deep = rw (at, invoke_sub_agent) (ground arith)

called :
    {W : Type 0} (fmt : Format) (tc : ToolCall) (agent : SubAgent W) (s : State AgentState) (w : W)
    (d : ℕ)
    → depth_of s.meta ≡ pos d
    → d < 8
    → (invoke_sub_agent fmt tc agent s w).0 ≡ (agent.invoke (sub_state fmt tc s) w).0
unfolding invoke_sub_agent
called fmt tc agent s w d at below = rw (at, invoke_sub_agent) (ground arith)

started :
    (fmt : Format) (tc : ToolCall) (s : State AgentState) (d : ℕ)
    → depth_of s.meta ≡ pos d
    → depth_of (sub_state fmt tc s).meta ≡ pos (d + 1)
unfolding depth_of insert lookup
started fmt tc s d at = ap int_of (sub_state-get_key fmt tc s depth_key) ∙ ap next_depth at

fresh :
    (fmt : Format) (tc : ToolCall) (s : State AgentState)
    → (sub_state fmt tc s).payload.messages ≡ []
unfolding sub_state
fresh fmt tc s = refl

kept :
    (s : State AgentState) (j : String)
    → contains j propagated_keys ≡ true
    → handed j propagated_keys s.meta (insert depth_key (int (next_depth (depth_of s.meta))) [])
      ≡ get_key s.meta j
unfolding insert lookup
kept s j given =
    let apart : str_eq depth_key j ≡ false = elim (Bool-cases (str_eq depth_key j)) [
      | inr other ↦ other
      | inl same ↦
          let at : depth_key ≡ j = (eq_iff depth_key j).0 same in
          let wrong : false ≡ true =
            subst (λ i. contains i propagated_keys ≡ true) (sym at) given in
          absurd cc
    ] in
    ground (arith)

-- A call of a sub-agent from depth `d`. At the limit of 8 the sub-agent is not called. Below it, the
-- sub-agent starts at depth `d + 1` with no messages, and with the tenant, the trace and the cost
-- budget of its caller, each of them absent where the caller has none.
pub invoke_sub_agent_depth :
    {W : Type 0} (fmt : Format) (tc : ToolCall) (agent : SubAgent W) (s : State AgentState) (w : W)
    (d : ℕ)
    → depth_of s.meta ≡ pos d
    → (8 ≤ d → (invoke_sub_agent fmt tc agent s w).0 ≡ w)
      × (d < 8
          → ((invoke_sub_agent fmt tc agent s w).0 ≡ (agent.invoke (sub_state fmt tc s) w).0)
            × (depth_of (sub_state fmt tc s).meta ≡ pos (d + 1))
            × ((sub_state fmt tc s).payload.messages ≡ [])
            × ((j : String)
                → contains j propagated_keys ≡ true
                → get_key (sub_state fmt tc s).meta j ≡ get_key s.meta j))
invoke_sub_agent_depth fmt tc agent s w d at = (
  guarded fmt tc agent s w d at,
  λ below. (
    called fmt tc agent s w d at below,
    started fmt tc s d at,
    fresh fmt tc s,
    λ j given. sub_state-get_key fmt tc s j ∙ kept s j given,
  ),
)
