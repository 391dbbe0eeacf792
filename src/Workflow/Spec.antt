-- ===== src/Workflow/Spec.antt =====
-- pkg/workflow/spec.go: workflow definitions and `Parse`.
use bunshin_go.Common.{
  String, ℕ, ◌+◌, List, [], ◌∷◌, Map, Option, Bool, true, false, ◌&&◌, if◌then◌else◌, str_eq,
  contains, not,
}
use bunshin_go.Core.Errors.{errorf, errorf_at, Result, ok, err, ◌>>=◌, wrap}
use bunshin_go.Core.Value.{Value}

-- `RunnableRef`.
pub record RunnableRef : Type 0 where
  pub kind : String
  pub provider_tier : String
  pub provider_id : String
  pub prompt : String
  pub name : String
  pub input_key : String
  pub output_key : String

-- `RouterRef`.
pub record RouterRef : Type 0 where
  pub kind : String
  pub name : String
  pub config : Option (Map Value)

-- `NodeSpec`.
pub record NodeSpec : Type 0 where
  pub id : String
  pub runnable : RunnableRef
  pub next : String
  pub router : Option RouterRef

-- `Spec`.
pub record Spec : Type 0 where
  pub name : String
  pub description : String
  pub nodes : List NodeSpec
  pub version : String
  pub status : String

-- The first loop of `Parse`, from node `i` on with the identifiers seen before it.
unfoldable pub collect_ids : List NodeSpec → ℕ → List String → Result (List String)
collect_ids [] i ids = ok ids
collect_ids (n ∷ ns) i ids =
    let rest = collect_ids ns (i + 1) (n.id ∷ ids) in
    if str_eq n.id ""
    then err (errorf_at "workflow: parse: node[%d] missing id" i)
    else if contains n.id ids
    then err (errorf "workflow: parse: duplicate node id %q" (n.id ∷ []))
    else if str_eq n.runnable.kind ""
    then err (errorf "workflow: parse: node %q missing runnable.type" (n.id ∷ []))
    else rest

-- The test of the second loop of `Parse`: a `Next` that names no node.
abbrev pub dangles : List String → NodeSpec → Bool
dangles ids n =
    not (str_eq n.next "") && (not (str_eq n.next "__end__") && not (contains n.next ids))

-- The second loop of `Parse`.
unfoldable pub check_next : List String → List NodeSpec → Result (Unit {0})
check_next ids [] = ok tt
check_next ids (n ∷ ns) =
    let rest = check_next ids ns in
    if dangles ids n
    then err
        (errorf "workflow: parse: node %q next=%q references unknown node" (n.id ∷ n.next ∷ []))
    else rest

abbrev pub is_empty {ℓ} : {A : Type ℓ} → List A → Bool
is_empty [] = true
is_empty (x ∷ xs) = false

-- The checks of `Parse`.
unfoldable pub check_spec : Spec → Result (Unit {0})
check_spec s =
    if str_eq s.name ""
    then err (errorf "workflow: parse: name is required" [])
    else if is_empty s.nodes
    then err (errorf "workflow: parse: at least one node is required" [])
    else collect_ids s.nodes 0 [] >>= λ ids. check_next ids s.nodes

-- What `Parse` calls: `yaml.Unmarshal`, `json.Marshal` of the stable fields, and the content hash.
pub record Codec : Type 1 where
  pub Bytes : Type 0
  pub unmarshal : Bytes → Result Spec
  pub marshal : String → String → List NodeSpec → Result Bytes
  pub hash : Bytes → String

module _ (c : Codec) where
  open c use {Bytes, unmarshal, marshal, hash}

  -- `canonicalJSON`: the version and the status are left out.
  unfoldable pub canonical_json : Spec → Result Bytes
  canonical_json s = marshal s.name s.description s.nodes

  -- `Parse`.
  unfoldable pub parse : Bytes → Result Spec
  unfolding canonical_json
  parse bytes = do
    s ← wrap "workflow: parse: %w" [] (unmarshal bytes)
    _ ← check_spec s
    canonical ← wrap "workflow: parse: canonicalise: %w" [] (canonical_json s)
    ok (record s { version = hash canonical })
