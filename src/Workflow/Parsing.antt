-- ===== src/Workflow/Parsing.antt =====
-- What a workflow definition that `Parse` accepts looks like.
use bunshin_go.Common.{
  String, ℕ, ◌+◌, List, [], ◌∷◌, map, ◌≡◌, refl, ◌≢◌, ◌↔◌, ◌⊎◌, sym, true, false, ◌||◌, contains,
  All, Distinct, arith, eq_iff,
}
use bunshin_go.Core.Errors.{Result, ok, err, ◌>>=◌, wrap}
use bunshin_go.Workflow.Spec.{
  NodeSpec, Spec, collect_ids, check_next, check_spec, Codec, canonical_json, parse,
}

abbrev pub ids_of : List NodeSpec → List String
ids_of = map (λ n. n.id)

abbrev pub IsNamed : NodeSpec → Type 0
IsNamed n = (n.id ≢ "") × (n.runnable.kind ≢ "")

-- An explicit `Next` is a node of the workflow, or the end.
abbrev pub Points : List String → NodeSpec → Type 0
Points ids n = (n.next ≡ "") ⊎ (n.next ≡ "__end__") ⊎ (contains n.next ids ≡ true)

pub record IsWellFormed (s : Spec) : Type 0 where
  pub named : s.name ≢ ""
  pub populated : s.nodes ≢ []
  pub nodes : All IsNamed s.nodes
  pub distinct : Distinct (ids_of s.nodes)
  pub pointing : All (Points (ids_of s.nodes)) s.nodes

-- The nodes are named, and their identifiers are distinct and not among `ids`.
abbrev Fresh : List String → List NodeSpec → Type 0
Fresh ids [] = Unit
Fresh ids (n ∷ ns) = IsNamed n × (contains n.id ids ≡ false) × Fresh (n.id ∷ ids) ns

collect_ids_step :
    (n : NodeSpec) (ns : List NodeSpec) (i : ℕ) (ids out : List String)
    → collect_ids (n ∷ ns) i ids ≡ ok out
    → IsNamed n × (contains n.id ids ≡ false) × (collect_ids ns (i + 1) (n.id ∷ ids) ≡ ok out)
unfolding collect_ids
collect_ids_step n ns i ids out h = (
  (ground (arith, eq_iff n.id ""), ground (arith, eq_iff n.runnable.kind "")),
  ground arith,
  ground arith,
)

collect_ids-Fresh :
    (ns : List NodeSpec) (i : ℕ) (ids out : List String)
    → collect_ids ns i ids ≡ ok out
    → Fresh ids ns × ((k : String) → contains k out ≡ (contains k ids || contains k (ids_of ns)))
unfolding collect_ids
collect_ids-Fresh [] i ids out h = (tt, λ k. ground arith)
collect_ids-Fresh (n ∷ ns) i ids out h =
    let (named, new, rest) = collect_ids_step n ns i ids out h in
    let (f, members) = collect_ids-Fresh ns (i + 1) (n.id ∷ ids) out rest in
    ((named, new, f), λ k. ground (arith, members k))

Fresh-collect_ids :
    (ns : List NodeSpec) (i : ℕ) (ids : List String)
    → Fresh ids ns
    → (out : List String) × (collect_ids ns i ids ≡ ok out)
unfolding collect_ids
Fresh-collect_ids [] i ids f = (ids, refl)
Fresh-collect_ids (n ∷ ns) i ids ((named, kind), new, f) =
    let (out, h) = Fresh-collect_ids ns (i + 1) (n.id ∷ ids) f in
    (out, ground (arith, eq_iff n.id "", eq_iff n.runnable.kind ""))

check_next_iff :
    (ids : List String) (ns : List NodeSpec) → (check_next ids ns ≡ ok tt) ↔ All (Points ids) ns
unfolding check_next
check_next_iff ids [] = (λ h. tt, λ h. refl)
check_next_iff ids (n ∷ ns) =
    ground (arith, check_next_iff ids ns, eq_iff n.next "", eq_iff n.next "__end__")

-- Nodes whose identifiers are neither `k` nor in `ids`.
apart_iff :
    (k : String) (ids : List String) (ns : List NodeSpec)
    → All (λ m. contains m.id (k ∷ ids) ≡ false) ns
      ↔ ((contains k (ids_of ns) ≡ false) × All (λ m. contains m.id ids ≡ false) ns)
apart_iff k ids [] = (λ h. (refl, tt), λ h. tt)
apart_iff k ids (m ∷ ms) = ground (arith, apart_iff k ids ms, eq_iff k m.id, eq_iff m.id k)

Fresh-iff :
    (ns : List NodeSpec) (ids : List String)
    → Fresh ids ns
      ↔ (All IsNamed ns × Distinct (ids_of ns) × All (λ m. contains m.id ids ≡ false) ns)
Fresh-iff [] ids = (λ h. (tt, tt, tt), λ h. tt)
Fresh-iff (n ∷ ns) ids = (
  λ (named, new, f).
      let (all, distinct, apart) = (Fresh-iff ns (n.id ∷ ids)).0 f in
      let (absent, others) = (apart_iff n.id ids ns).0 apart in
      ((named, all), (absent, distinct), (new, others)),
  λ (all, distinct, apart). (
    all.0,
    apart.0,
    (Fresh-iff ns (n.id ∷ ids)).1
        (all.1, distinct.1, (apart_iff n.id ids ns).1 (distinct.0, apart.1)),
  ),
)

not_in_nothing : (ns : List NodeSpec) → All (λ m. contains m.id [] ≡ false) ns
not_in_nothing [] = tt
not_in_nothing (n ∷ ns) = (refl, not_in_nothing ns)

All-Points_congr :
    (xs ys : List String) (ns : List NodeSpec)
    → ((k : String) → contains k xs ≡ contains k ys)
    → All (Points xs) ns
    → All (Points ys) ns
All-Points_congr xs ys [] same h = tt
All-Points_congr xs ys (n ∷ ns) same (p, h) =
    (ground (arith, same n.next), All-Points_congr xs ys ns same h)

check_spec-IsWellFormed : (s : Spec) → check_spec s ≡ ok tt → IsWellFormed s
unfolding check_spec
check_spec-IsWellFormed s h = go (collect_ids s.nodes 0 []) refl h
  where
    go :
        (r : Result (List String))
        → collect_ids s.nodes 0 [] ≡ r
        → check_spec s ≡ ok tt
        → IsWellFormed s
    go (err x) at e = absurd (ground arith)
    go (ok ids) at e =
        let (f, members) = collect_ids-Fresh s.nodes 0 [] ids at in
        let (all, distinct, apart) = (Fresh-iff s.nodes []).0 f in
        record {
          named = ground (arith, eq_iff s.name "");
          populated = ground arith;
          nodes = all;
          distinct = distinct;
          pointing =
              All-Points_congr ids (ids_of s.nodes) s.nodes members
                ((check_next_iff ids s.nodes).0 (ground arith));
        }

IsWellFormed-check_spec : (s : Spec) → IsWellFormed s → check_spec s ≡ ok tt
unfolding check_spec
IsWellFormed-check_spec s h =
    let f = (Fresh-iff s.nodes []).1 (h.nodes, h.distinct, not_in_nothing s.nodes) in
    let (ids, at) = Fresh-collect_ids s.nodes 0 [] f in
    let members = (collect_ids-Fresh s.nodes 0 [] ids at).1 in
    let pointing =
      (check_next_iff ids s.nodes).1
        (All-Points_congr (ids_of s.nodes) ids s.nodes (λ k. sym (members k)) h.pointing) in
    ground (arith, eq_iff s.name "")

-- `Parse` accepts a text exactly if it decodes to a well-formed definition that encodes again; the
-- result is that definition with the hash of its encoding for its version.
pub parse_iff-IsWellFormed :
    (c : Codec) (bytes : c.Bytes) (t : Spec)
    → (parse c bytes ≡ ok t) ↔ (
        (s : Spec) × (canonical : c.Bytes) × (c.unmarshal bytes ≡ ok s)
        × IsWellFormed s
        × (canonical_json c s ≡ ok canonical)
        × (t ≡ record s { version = c.hash canonical }))
unfolding parse
parse_iff-IsWellFormed c bytes t = (
  λ h. decoded (c.unmarshal bytes) refl h,
  λ (s, canonical, read, valid, encoded, same).
      let checked = IsWellFormed-check_spec s valid in rw (read, checked, encoded, same),
)
  where
    Accepts : Spec → Type 0
    Accepts s =
        (canonical : c.Bytes) × IsWellFormed s
        × (canonical_json c s ≡ ok canonical)
        × (t ≡ record s { version = c.hash canonical })

    encodes :
        (s : Spec) (r : Result (Unit {0})) (out : Result c.Bytes)
        → check_spec s ≡ r
        → canonical_json c s ≡ out
        → (r >>= λ _. wrap "workflow: parse: canonicalise: %w" [] out >>= λ canonical.
            ok (record s { version = c.hash canonical }))
          ≡ ok t
        → Accepts s
    encodes s (err x) out checked encoded h = cc
    encodes s (ok _) (err x) checked encoded h = cc
    encodes s (ok _) (ok canonical) checked encoded h =
        (canonical, check_spec-IsWellFormed s checked, encoded, cc)

    decoded :
        (r : Result Spec)
        → c.unmarshal bytes ≡ r
        → (wrap "workflow: parse: %w" [] r >>= λ s. check_spec s >>= λ _.
            wrap "workflow: parse: canonicalise: %w" [] (canonical_json c s) >>= λ canonical.
            ok (record s { version = c.hash canonical }))
          ≡ ok t
        → (s : Spec) × (canonical : c.Bytes) × (c.unmarshal bytes ≡ ok s)
          × IsWellFormed s
          × (canonical_json c s ≡ ok canonical)
          × (t ≡ record s { version = c.hash canonical })
    decoded (err x) read h = cc
    decoded (ok s) read h =
        let (canonical, valid, encoded, same) =
          encodes s (check_spec s) (canonical_json c s) refl refl h in
        (s, canonical, read, valid, encoded, same)
