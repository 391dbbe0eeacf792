-- ===== src/Store/Skills.antt =====
-- pkg/skill/spec.go and pkg/skill/store/memory/memory.go: skill definitions, `Parse`, and the
-- in-memory store at skills, which is the code of Store/Versioned once more.
use bunshin_go.Common.{
  String, List, [], ◌∷◌, Map, Option, ◌≡◌, refl, ◌≢◌, ◌↔◌, ◌⊎◌, ◌&&◌, not, if◌then◌else◌, str_eq,
  eq_iff, arith,
}
use bunshin_go.Core.Errors.{Error, Result, ok, err, errorf, ◌>>=◌, wrap}
use bunshin_go.Core.Value.{Value}
use bunshin_go.Store.Versioned
use bunshin_go.Store.Versioned.{Versioned, Store}

-- `FragmentRef` of pkg/prompt/types.go.
pub record FragmentRef : Type 0 where
  pub slug : String
  pub overrides : Option (Map Value)
  pub condition : String

-- `FileRef`; the media is named by an identity.
pub record FileRef : Type 0 where
  pub name : String
  pub media_ref : Option String

-- `Spec`.
pub record Skill : Type 0 where
  pub name : String
  pub description : String
  pub body : FragmentRef
  pub files : List FileRef
  pub trigger : String
  pub version : String
  pub status : String

-- `ErrNotFound` and `ErrVersionConflict`.
abbrev pub err_not_found : Error
err_not_found = errorf "skill: not found" []

abbrev pub err_version_conflict : Error
err_version_conflict = errorf "skill: version not found" []

-- The checks of `Parse`.
unfoldable pub check_skill : Skill → Result (Unit {0})
check_skill s =
    if str_eq s.name ""
    then err (errorf "skill: parse: name is required" [])
    else if str_eq s.body.slug ""
    then err (errorf "skill: parse: body.slug is required" [])
    else if not (str_eq s.trigger "model") && not (str_eq s.trigger "condition")
    then err
        (errorf "skill: parse: trigger must be 'model' or 'condition', got %q" (s.trigger ∷ []))
    else ok tt

-- What `Parse` calls: `yaml.Unmarshal`, `json.Marshal` of the stable fields, and the content hash.
pub record Codec : Type 1 where
  pub Bytes : Type 0
  pub unmarshal : Bytes → Result Skill
  pub marshal : String → String → FragmentRef → List FileRef → String → Result Bytes
  pub hash : Bytes → String

module _ (c : Codec) where
  open c use {Bytes, unmarshal, marshal, hash}

  -- `canonicalJSON`.
  unfoldable pub canonical_json : Skill → Result Bytes
  canonical_json s = marshal s.name s.description s.body s.files s.trigger

  -- `Parse`.
  unfoldable pub parse : Bytes → Result Skill
  parse bytes = do
    s ← wrap "skill: parse: %w" [] (unmarshal bytes)
    _ ← check_skill s
    canonical ← wrap "skill: parse: canonicalise: %w" [] (canonical_json s)
    ok (record s { version = hash canonical })

abbrev pub skills : Versioned Skill
skills = record {
  name = λ s. s.name;
  version = λ s. s.version;
  status = λ s. s.status;
  set_status = λ status s. record s { status = status };
  status-set_status = λ status s. refl;
  version-set_status = λ status s. refl;
  name-set_status = λ status s. refl;
  not_found = err_not_found;
  version_conflict = err_version_conflict;
  about_name = "skill %q: %w";
  about_version = "skill %q version %q: %w";
  about_active = "skill %q: no active version: %w";
}

-- `Create`.
abbrev pub create : String → Option Skill → Store Skill → Store Skill × Result String
create = Versioned.create skills

-- `Get`.
abbrev pub get : String → String → Store Skill → Option (Result Skill)
get = Versioned.get skills

-- `GetVersion`.
abbrev pub get_version : String → String → String → Store Skill → Result Skill
get_version = Versioned.get_version skills

-- `ListVersions`.
abbrev pub list_versions : String → String → Store Skill → Result (List String)
list_versions = Versioned.list_versions skills

-- `Activate`.
abbrev pub activate : String → String → String → Store Skill → Store Skill × Option Error
activate = Versioned.activate skills

-- `Delete`.
abbrev pub delete : String → String → Store Skill → Store Skill × Option Error
delete = Versioned.delete skills

-- A named skill with a body and one of the two triggers.
abbrev pub IsSkill : Skill → Type 0
IsSkill s = (s.name ≢ "") × (s.body.slug ≢ "") × ((s.trigger ≡ "model") ⊎ (s.trigger ≡ "condition"))

check_skill_iff : (s : Skill) → (check_skill s ≡ ok tt) ↔ IsSkill s
unfolding check_skill
check_skill_iff s = (
  λ h. (
    ground (arith, eq_iff s.name ""),
    ground (arith, eq_iff s.body.slug ""),
    ground (arith, eq_iff s.trigger "model", eq_iff s.trigger "condition"),
  ),
  λ h. ground (
    arith,
    eq_iff s.name "",
    eq_iff s.body.slug "",
    eq_iff s.trigger "model",
    eq_iff s.trigger "condition",
  ),
)

-- `Parse` accepts a text exactly if it decodes to a named skill with a body and one of the triggers
-- "model" and "condition", and its stable fields encode; the result is that skill with the hash of
-- the encoding for its version.
pub parse_iff-IsSkill :
    (c : Codec) (bytes : c.Bytes) (t : Skill)
    → (parse c bytes ≡ ok t) ↔ (
        (s : Skill) × (canonical : c.Bytes) × (c.unmarshal bytes ≡ ok s)
        × IsSkill s
        × (canonical_json c s ≡ ok canonical)
        × (t ≡ record s { version = c.hash canonical }))
unfolding parse
parse_iff-IsSkill c bytes t = (
  λ h. decoded (c.unmarshal bytes) refl h,
  λ (s, canonical, read, valid, encoded, same).
      let checked = (check_skill_iff s).1 valid in rw (read, checked, encoded, same),
)
  where
    encodes :
        (s : Skill) (r : Result (Unit {0})) (out : Result c.Bytes)
        → check_skill s ≡ r
        → canonical_json c s ≡ out
        → (r >>= λ _. wrap "skill: parse: canonicalise: %w" [] out >>= λ canonical.
            ok (record s { version = c.hash canonical }))
          ≡ ok t
        → (canonical : c.Bytes) × IsSkill s
          × (canonical_json c s ≡ ok canonical)
          × (t ≡ record s { version = c.hash canonical })
    encodes s (err x) out checked encoded h = cc
    encodes s (ok _) (err x) checked encoded h = cc
    encodes s (ok _) (ok canonical) checked encoded h =
        (canonical, (check_skill_iff s).0 checked, encoded, cc)

    decoded :
        (r : Result Skill)
        → c.unmarshal bytes ≡ r
        → (wrap "skill: parse: %w" [] r >>= λ s. check_skill s >>= λ _.
            wrap "skill: parse: canonicalise: %w" [] (canonical_json c s) >>= λ canonical.
            ok (record s { version = c.hash canonical }))
          ≡ ok t
        → (s : Skill) × (canonical : c.Bytes) × (c.unmarshal bytes ≡ ok s)
          × IsSkill s
          × (canonical_json c s ≡ ok canonical)
          × (t ≡ record s { version = c.hash canonical })
    decoded (err x) read h = cc
    decoded (ok s) read h =
        let (canonical, valid, encoded, same) =
          encodes s (check_skill s) (canonical_json c s) refl refl h in
        (s, canonical, read, valid, encoded, same)
