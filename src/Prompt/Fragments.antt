-- ===== src/Prompt/Fragments.antt =====
-- pkg/prompt/types.go: fragments of prompts and references to them.
use bunshin_go.Common.{
  String, List, [], ◌∷◌, Map, Option, none, some, lookup, Bool, true, false, if◌then◌else◌,
  contains, not,
}
use bunshin_go.Core.Errors.{Error, errorf}
use bunshin_go.Core.Value.{Value}

-- `Fragment`.
pub record Fragment : Type 0 where
  pub id : String
  pub slug : String
  pub content : String
  pub variables : List String
  pub tags : List String
  pub version : String
  pub status : String

-- `FragmentRef`.
pub record FragmentRef : Type 0 where
  pub slug : String
  pub overrides : Map Value
  pub condition : String

-- `PromptTemplate`.
pub record PromptTemplate : Type 0 where
  pub fragments : List FragmentRef
  pub separator : String

-- The loop of `Validate`; `none` is nil.
unfoldable pub missing_variable : String → List String → Map Value → Option Error
missing_variable slug [] vars = none
missing_variable slug (v ∷ vs) vars = elim (lookup v vars) [
  | some x ↦ missing_variable slug vs vars
  | none ↦ some (errorf "fragment %q: missing variable %q" (slug ∷ v ∷ []))
]

-- `Validate`.
unfoldable pub validate : Fragment → Map Value → Option Error
validate f vars = missing_variable f.slug f.variables vars

-- `hasAllTags`.
unfoldable pub has_all_tags : List String → List String → Bool
has_all_tags tags [] = true
has_all_tags tags (r ∷ rs) =
    let rest = has_all_tags tags rs in if not (contains r tags) then false else rest
