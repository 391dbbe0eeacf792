-- ===== src/Store/Versioned.antt =====
-- pkg/workflow/store/memory/memory.go: the in-memory store of versioned specs, over the kind of
-- spec that it keeps. pkg/skill/store/memory/memory.go is the same code over another kind.
use bunshin_go.Common.{
  String, List, [], ◌∷◌, ◌++◌, Map, Option, none, some, lookup, insert, ◌≡◌, Bool, true, false,
  if◌then◌else◌, str_eq,
}
use bunshin_go.Core.Errors.{Error, errorf, wrapf, Result, ok, err, ◌>>=◌}
use bunshin_go.Store.Entries.{tenant_bucket, entry_at, put_entry}

-- What the store uses of a kind of spec, with the laws of its fields.
pub record Versioned (A : Type 0) : Type 0 where
  pub name : A → String
  pub version : A → String
  pub status : A → String
  pub set_status : String → A → A
  pub status-set_status : (s : String) (a : A) → status (set_status s a) ≡ s
  pub version-set_status : (s : String) (a : A) → version (set_status s a) ≡ version a
  pub name-set_status : (s : String) (a : A) → name (set_status s a) ≡ name a
  -- the sentinels and formats of the package
  pub not_found : Error
  pub version_conflict : Error
  pub about_name : String
  pub about_version : String
  pub about_active : String

abbrev pub status_draft : String
status_draft = "draft"

abbrev pub status_active : String
status_active = "active"

-- `entry`: `versions`, the versions in the order of creation, the active one or "", the mark.
pub record Entry (A : Type 0) : Type 0 where
  pub versions : Map A
  pub version_list : List String
  pub active : String
  pub deleted : Bool

-- `Store.data`.
abbrev pub Store : Type 0 → Type 0
Store A = Map (Map (Entry A))

-- The names of the entries of a bucket that are not deleted.
unfoldable pub live_names : {A : Type 0} → Map (Entry A) → List String
live_names [] = []
live_names ((name, e) ∷ b) = let rest = live_names b in if e.deleted then rest else name ∷ rest

module _ {A : Type 0} (o : Versioned A) where
  abbrev pub new_entry : Entry A
  new_entry = record { versions = []; version_list = []; active = ""; deleted = false }

  -- The part of `Create` that works on the entry.
  unfoldable pub create_version : A → Entry A → Entry A
  create_version spec e = elim (lookup (o.version spec) e.versions) [
    | some _ ↦ record e { deleted = false }
    | none ↦ record e {
      deleted = false;
      versions = insert (o.version spec) (o.set_status status_draft spec) e.versions;
      version_list = e.version_list ++ (o.version spec ∷ []);
    }
  ]

  -- `Create`; `none` is a nil spec.
  unfoldable pub create : String → Option A → Store A → Store A × Result String
  create tenant none s = (s, err (errorf "memory.Store.Create: spec is nil" []))
  create tenant (some spec) s =
      let old : Entry A = elim (lookup (o.name spec) (tenant_bucket tenant s)) [
        | none ↦ new_entry
        | some e ↦ e
      ] in
      (put_entry tenant (o.name spec) (create_version spec old) s, ok (o.version spec))

  -- `findEntry`.
  unfoldable pub find_entry : String → String → Store A → Result (Entry A)
  find_entry tenant name s = elim (entry_at tenant name s) [
    | none ↦ err (wrapf o.about_name (name ∷ []) o.not_found)
    | some e ↦ if e.deleted then err (wrapf o.about_name (name ∷ []) o.not_found) else ok e
  ]

  -- `Get`; `none` is a panic on a nil pointer.
  unfoldable pub get : String → String → Store A → Option (Result A)
  get tenant name s = elim (find_entry tenant name s) [
    | err x ↦ some (err x)
    | ok e ↦
        if str_eq e.active ""
        then some (err (wrapf o.about_active (name ∷ []) o.not_found))
        else elim (lookup e.active e.versions) [ none ↦ none | some sp ↦ some (ok sp) ]
  ]

  -- `GetVersion`.
  unfoldable pub get_version : String → String → String → Store A → Result A
  get_version tenant name version s = do
    e ← find_entry tenant name s
    elim (lookup version e.versions) [
      | none ↦ err (wrapf o.about_version (name ∷ version ∷ []) o.not_found)
      | some sp ↦ ok sp
    ]

  -- `List`.
  unfoldable pub list : String → Store A → List String
  list tenant s = elim (lookup tenant s) [ none ↦ [] | some b ↦ live_names b ]

  -- `ListVersions`.
  unfoldable pub list_versions : String → String → Store A → Result (List String)
  list_versions tenant name s = do e ← find_entry tenant name s; ok e.version_list

  -- The part of `Activate` that demotes the version that was active.
  unfoldable pub demote : String → Entry A → Map A
  demote version e = elim (lookup e.active e.versions) [
    | none ↦ e.versions
    | some prev ↦
        if str_eq e.active version
        then e.versions
        else insert e.active (o.set_status status_draft prev) e.versions
  ]

  -- The part of `Activate` that works on the entry, with the spec of the version.
  unfoldable pub promote : String → A → Entry A → Entry A
  promote version sp e = record e {
    versions = insert version (o.set_status status_active sp) (demote version e);
    active = version;
  }

  -- `Activate`.
  unfoldable pub activate : String → String → String → Store A → Store A × Option Error
  activate tenant name version s = elim (find_entry tenant name s) [
    | err x ↦ (s, some x)
    | ok e ↦ elim (lookup version e.versions) [
      | none ↦ (s, some (wrapf o.about_version (name ∷ version ∷ []) o.version_conflict))
      | some sp ↦ (put_entry tenant name (promote version sp e) s, none)
    ]
  ]

  -- `Delete`.
  unfoldable pub delete : String → String → Store A → Store A × Option Error
  delete tenant name s = elim (find_entry tenant name s) [
    | err x ↦ (s, some x)
    | ok e ↦ (put_entry tenant name (record e { deleted = true; active = "" }) s, none)
  ]

-- Unfolds the code of the store, for tests.
unfoldable pub store_code : Unit {0}
unfolding lookup insert tenant_bucket entry_at put_entry live_names create_version create find_entry
    get get_version list list_versions demote promote activate delete
store_code = tt
