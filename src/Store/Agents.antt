-- ===== src/Store/Agents.antt =====
-- pkg/agent/spec.go and pkg/agent/store/memory.go: agent definitions and their in-memory store.
-- Unlike the other stores it computes the version itself, and keeps no status in the spec.
use bunshin_go.Common.{
  String, List, [], ◌∷◌, ◌++◌, Map, Option, none, some, lookup, insert, Bool, true, false,
  if◌then◌else◌, str_eq, ◌==◌,
}
use mathlib.Core.List.{reverse}
use bunshin_go.Core.Errors.{Error, errorf, Result, ok, err, ◌>>=◌, wrap}
use bunshin_go.Core.Value.{Value, ℤ, pos, negsuc}
use bunshin_go.Store.Entries.{tenant_bucket, entry_at, put_entry}
use bunshin_go.Store.Versioned.{Entry, Store, live_names, status_draft, status_active}

-- `AgentSpec`.
pub record AgentSpec : Type 0 where
  pub name : String
  pub description : String
  pub slug : String
  pub tools : List String
  pub agents : List String
  pub skills : List String
  pub tier : String
  pub tags : Map String
  pub max_iterations : ℤ
  pub input_schema : Option (Map Value)
  pub output_schema : Option (Map Value)

abbrev is_zero : ℤ → Bool
is_zero (pos n) = n == 0
is_zero (negsuc n) = false

-- `Parse`, over `yaml.Unmarshal`: the required fields, and 8 iterations where none are given.
unfoldable pub parse : {Bytes : Type 0} → (Bytes → Result AgentSpec) → Bytes → Result AgentSpec
parse unmarshal bytes = wrap "agent: parse YAML: %w" [] (unmarshal bytes) >>= λ spec.
    (if str_eq spec.name ""
      then err (errorf "agent: spec.name is required" [])
      else if str_eq spec.slug ""
      then err (errorf "agent: spec.system_prompt.slug is required" [])
      else ok
          (if is_zero spec.max_iterations then record spec { max_iterations = pos 8 } else spec))

-- `AgentVersion`, without its time of creation.
pub record AgentVersion : Type 0 where
  pub version : String
  pub status : String

abbrev pub Agents : Type 0
Agents = Store AgentSpec

-- The error of a missing agent or version.
abbrev pub missing : String → String → Error
missing tenant name = errorf "agent %q tenant %q: not found" (name ∷ tenant ∷ [])

abbrev pub new_entry : Entry AgentSpec
new_entry = record { versions = []; version_list = []; active = ""; deleted = false }

-- The part of `Create` that works on the entry.
unfoldable pub create_version : String → AgentSpec → Entry AgentSpec → Entry AgentSpec
create_version version spec e = elim (lookup version e.versions) [
  | some _ ↦ record e { deleted = false }
  | none ↦ record e {
    deleted = false;
    versions = insert version spec e.versions;
    version_list = e.version_list ++ (version ∷ []);
  }
]

-- `Create`, over `contentHashYAML`; `none` is a nil spec.
unfoldable pub create :
    (AgentSpec → Result String) → String → Option AgentSpec → Agents → Agents × Result String
create content_hash tenant none s = (s, err (errorf "memory.Store.Create: spec is nil" []))
create content_hash tenant (some spec) s =
    if str_eq spec.name ""
    then (s, err (errorf "memory.Store.Create: spec.Name must not be empty" []))
    else elim (wrap "memory.Store.Create: hash: %w" [] (content_hash spec)) [
      | err e ↦ (s, err e)
      | ok version ↦
          let old : Entry AgentSpec = elim (lookup spec.name (tenant_bucket tenant s)) [
            | none ↦ new_entry
            | some e ↦ e
          ] in
          (put_entry tenant spec.name (create_version version spec old) s, ok version)
    ]

-- `findEntry`.
unfoldable pub find_entry : String → String → Agents → Result (Entry AgentSpec)
find_entry tenant name s = elim (entry_at tenant name s) [
  | none ↦ err (missing tenant name)
  | some e ↦ if e.deleted then err (missing tenant name) else ok e
]

-- `Get`; `none` where the active version has no spec: the code then returns a nil spec, no error.
unfoldable pub get : String → String → Agents → Result (Option AgentSpec)
get tenant name s = find_entry tenant name s >>= λ e.
    (if str_eq e.active ""
      then err (errorf "agent %q tenant %q: no active version" (name ∷ tenant ∷ []))
      else ok (lookup e.active e.versions))

-- `GetVersion`.
unfoldable pub get_version : String → String → String → Agents → Result AgentSpec
get_version tenant name version s = do
  e ← find_entry tenant name s
  elim (lookup version e.versions) [
    | none ↦ err (errorf "agent %q version %q tenant %q: not found" (name ∷ version ∷ tenant ∷ []))
    | some spec ↦ ok spec
  ]

-- `List`.
unfoldable pub list : String → Agents → List String
list tenant s = elim (lookup tenant s) [ none ↦ [] | some b ↦ live_names b ]

-- The loop of `ListVersions`.
unfoldable pub with_status : String → List String → List AgentVersion
with_status active [] = []
with_status active (v ∷ vs) =
    record { version = v; status = if str_eq v active then status_active else status_draft }
    ∷ with_status active vs

-- `ListVersions`: newest first.
unfoldable pub list_versions : String → String → Agents → Result (List AgentVersion)
list_versions tenant name s = do
  e ← find_entry tenant name s
  ok (reverse (with_status e.active e.version_list))

-- `Activate`.
unfoldable pub activate : String → String → String → Agents → Agents × Option Error
activate tenant name version s = elim (find_entry tenant name s) [
  | err x ↦ (s, some x)
  | ok e ↦ elim (lookup version e.versions) [
    | none ↦
        (s, some (errorf "agent %q version %q tenant %q: not found" (name ∷ version ∷ tenant ∷ [])))
    | some _ ↦ (put_entry tenant name (record e { active = version }) s, none)
  ]
]

-- `Delete`.
unfoldable pub delete : String → String → Agents → Agents × Option Error
delete tenant name s = elim (find_entry tenant name s) [
  | err x ↦ (s, some x)
  | ok e ↦ (put_entry tenant name (record e { deleted = true; active = "" }) s, none)
]
