-- ===== src/Eip/Walks.antt =====
-- The routers that keep a position in `Meta`: the whole run of a recipient list or a routing slip,
-- and what goes wrong when `Meta` is nil.
use bunshin_go.Common.{
  String, ℕ, zero, suc, ◌+◌, List, [], ◌∷◌, Map, Option, none, some, ◌≡◌, refl, ◌≢◌, ◌∙◌, false,
  if◌then◌else◌, str_eq, lookup, lookup-insert, eq_iff, arith, length, get_elem?, contains, inl,
  inr, Option-cases, ap,
}
use bunshin_go.Core.Errors.{Error, ok, err}
use bunshin_go.Core.Value.{pos, Value, int, strings, Runtime}
use bunshin_go.Core.State.{State, get_meta}
use bunshin_go.Graph.{Router, Routed, end_node}
use bunshin_go.Eip.Values.{Data, to_int, write_meta, take_at, to_any_string_slice}
use bunshin_go.Eip.Routers.{answer, advance, recipient_list, routing_slip}

-- How a sequence of routings ends: the router chooses `END`, it fails, or it could go on.
pub data Ending : Type 0 where
  reaches_end : Ending
  router_fails : Error → Ending
  goes_on : Ending

-- The nodes chosen, and the ending.
abbrev pub Visits : Type 0
Visits = List String × Ending

abbrev pub visited_first : String → Visits → Visits
visited_first x (xs, ending) = (x ∷ xs, ending)

-- What follows one call of a router: nothing after `END` or an error, else the chosen node, and
-- what `rest` gives for the state that the node's work leaves.
abbrev pub visit_next :
    {W : Type 0}
    → (W → State Data → Visits)
    → (String → State Data → State Data)
    → W × Routed Data
    → Visits
visit_next rest work (w, r) = elim r.next [
  | err e ↦ ([], router_fails e)
  | ok next ↦
      if str_eq next end_node
      then ([], reaches_end)
      else visited_first next (rest w (work next r.seen))
]

-- The nodes that a router chooses one after another: between two calls the chosen node turns the
-- state into another. It ends when the router chooses `END` or fails; with the fuel it could go on.
unfoldable pub visits :
    {W : Type 0} → ℕ → Router Data W → (String → State Data → State Data) → W → State Data → Visits
visits zero router work w s = ([], goes_on)
visits (suc fuel) router work w s = visit_next (visits fuel router work) work (router s w)

visits_step :
    {W : Type 0} (fuel : ℕ) (router : Router Data W) (work : String → State Data → State Data)
    (w : W) (s : State Data) {r : W × Routed Data}
    → router s w ≡ r
    → visits (suc fuel) router work w s ≡ visit_next (visits fuel router work) work r
unfolding visits
visits_step fuel router work w s e = ap (visit_next (visits fuel router work) work) e

module _ (rt : Runtime) (pos_key : String) where
  -- `Meta` is there, and the position in it is `k`.
  abbrev pub At : ℕ → State Data → Type 0
  At k s = (m : Map Value) × (s.meta ≡ some m) × (to_int rt (lookup pos_key m) ≡ pos k)

  -- The work at the nodes leaves the position alone.
  abbrev pub KeepsPosition : (String → State Data → State Data) → Type 0
  KeepsPosition work =
      (x : String) (s : State Data) → get_meta (work x s) pos_key ≡ get_meta s pos_key

  moved-At :
      (k : ℕ) (work : String → State Data → State Data) (x : String) (s : State Data)
      → KeepsPosition work
      → At k s
      → At (k + 1) (work x (write_meta pos_key (int (pos (k + 1))) s))
  unfolding write_meta get_meta to_int
  moved-At k work x s keeps (m, here, at) = go (work x written).meta refl
    where
      written : State Data
      written = write_meta pos_key (int (pos (k + 1))) s

      go : (m' : Option (Map Value)) → (work x written).meta ≡ m' → At (k + 1) (work x written)
      go none e = absurd (
          ground (
            arith,
            keeps x written,
            lookup-insert pos_key pos_key (int (pos (k + 1))) m,
            eq_iff pos_key pos_key,
          ))
      go (some m') e = (
        m',
        e,
        ground (
          arith,
          keeps x written,
          lookup-insert pos_key pos_key (int (pos (k + 1))) m,
          eq_iff pos_key pos_key,
        ),
      )

  position-At : (k : ℕ) (s : State Data) → At k s → to_int rt (get_meta s pos_key) ≡ pos k
  unfolding get_meta
  position-At k s (m, here, at) = rw here at

  module _ {W : Type 0} (nodes : List String) where
    advance_hit :
        (k : ℕ) (s : State Data) (w : W) (x : String)
        → At k s
        → get_elem? nodes k ≡ some x
        → advance rt pos_key nodes s w ≡ answer (write_meta pos_key (int (pos (k + 1))) s) w (ok x)
    unfolding take_at
    advance_hit k s w x at found = rw (position-At k s at, advance) (rw (found, take_at))

    advance_end :
        (k : ℕ) (s : State Data) (w : W)
        → At k s
        → get_elem? nodes k ≡ none
        → advance rt pos_key nodes s w ≡ answer s w (ok end_node)
    unfolding take_at
    advance_end k s w at missing = rw (position-At k s at, advance) (rw (missing, take_at))

    -- A router that is `advance` on the states with the property `Q` visits the nodes from its
    -- position on, in order, and then chooses `END`.
    module _ (router : Router Data W) (Q : State Data → Type 0)
        (work : String → State Data → State Data)
        (same : (s : State Data) (w : W) → Q s → router s w ≡ advance rt pos_key nodes s w)
        (keeps : KeepsPosition work)
        (stays : (x : String) (v : Value) (s : State Data)
          → Q s
          → Q (work x (write_meta pos_key v s))) where
      visits-advance :
          (rest : List String) (k : ℕ) (s : State Data) (w : W)
          → ((j : ℕ) → get_elem? nodes (k + j) ≡ get_elem? rest j)
          → contains end_node rest ≡ false
          → Q s
          → At k s
          → visits (suc (length rest)) router work w s ≡ (rest, reaches_end)
      visits-advance [] k s w suffix plain q at =
          let missing : get_elem? nodes k ≡ none = ap (get_elem? nodes) (omega arith) ∙ suffix 0 in
          visits_step 0 router work w s (same s w q ∙ advance_end k s w at missing)
      visits-advance (x ∷ rest) k s w suffix plain q at =
          let found : get_elem? nodes k ≡ some x = ap (get_elem? nodes) (omega arith) ∙ suffix 0 in
          let later : (j : ℕ) → get_elem? nodes (k + 1 + j) ≡ get_elem? rest j =
            λ j. ap (get_elem? nodes) (omega arith) ∙ suffix (suc j) in
          let ih =
            visits-advance rest (k + 1) (work x (write_meta pos_key (int (pos (k + 1))) s)) w later
              (ground (arith, eq_iff x end_node)) (stays x (int (pos (k + 1))) s q)
              (moved-At k work x s keeps at) in
          let here : str_eq x end_node ≡ false = ground (arith, eq_iff x end_node) in
          visits_step (suc (length rest)) router work w s
            (same s w q ∙ advance_hit k s w x at found)
          ∙ rw here (ap (visited_first x) ih)

-- With a `Meta` whose position reads 0, and work that leaves the position alone, a recipient list
-- sends the state to every recipient once, in order, and then chooses `END`; no recipient
-- is `END` itself.
pub recipient_list-visits :
    {W : Type 0} (rt : Runtime) (recipients : List String) (pos_key : String)
    (work : String → State Data → State Data) (w : W) (s : State Data)
    → contains end_node recipients ≡ false
    → KeepsPosition rt pos_key work
    → At rt pos_key 0 s
    → visits (suc (length recipients)) (recipient_list rt recipients pos_key) work w s
      ≡ (recipients, reaches_end)
unfolding recipient_list
recipient_list-visits rt recipients pos_key work w s plain keeps at =
    visits-advance rt pos_key recipients (recipient_list rt recipients pos_key) (λ _. Unit) work
      (λ s w q. refl) keeps (λ x v s q. tt) recipients 0 s w
      (λ j. ap (get_elem? recipients) (omega arith)) plain tt at

get_meta-write_meta_ne :
    (k p : String) (v : Value) (s : State Data)
    → k ≢ p
    → get_meta (write_meta p v s) k ≡ get_meta s k
unfolding get_meta write_meta
get_meta-write_meta_ne k p v s apart = elim (Option-cases s.meta) [
  | inl nil ↦ ground arith
  | inr (m, here) ↦ ground (arith, lookup-insert p k v m, eq_iff p k)
]

-- A routing slip read from `Meta` is followed in the same way: with the slip and a position that
-- reads 0 under two keys, and work that leaves both alone, every node of the slip is visited once,
-- in order, and then `END` is chosen.
pub routing_slip-visits :
    {W : Type 0} (rt : Runtime) (slip : List String) (slip_key pos_key : String)
    (work : String → State Data → State Data) (w : W) (s : State Data)
    → contains end_node slip ≡ false
    → slip_key ≢ pos_key
    → KeepsPosition rt pos_key work
    → ((x : String) (s' : State Data) → get_meta (work x s') slip_key ≡ get_meta s' slip_key)
    → get_meta s slip_key ≡ some (strings slip)
    → At rt pos_key 0 s
    → visits (suc (length slip)) (routing_slip rt slip_key pos_key) work w s ≡ (slip, reaches_end)
unfolding routing_slip to_any_string_slice
routing_slip-visits rt slip slip_key pos_key work w s plain apart keeps keeps_slip read at =
    visits-advance rt pos_key slip (routing_slip rt slip_key pos_key)
      (λ s'. get_meta s' slip_key ≡ some (strings slip)) work (λ s' w' q. rw (q, routing_slip))
      keeps
      (λ x v s' q.
        keeps_slip x (write_meta pos_key v s')
        ∙ get_meta-write_meta_ne slip_key pos_key v s' apart
        ∙ q)
      slip 0 s w (λ j. ap (get_elem? slip) (omega arith)) plain read at

-- On a nil `Meta` the position is lost with the router's copy of the state: a recipient list then
-- chooses its first recipient every time, and leaves the state as it was.
pub recipient_list_nil :
    {W : Type 0} (rt : Runtime) (first : String) (others : List String) (pos_key : String)
    (s : State Data) (w : W)
    → s.meta ≡ none
    → recipient_list rt (first ∷ others) pos_key s w ≡ answer s w (ok first)
unfolding recipient_list take_at get_meta write_meta to_int
recipient_list_nil rt first others pos_key s w nil = ground arith
