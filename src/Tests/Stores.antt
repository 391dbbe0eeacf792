-- ===== src/Tests/Stores.antt =====
-- pkg/workflow/store/memory/memory.go and pkg/skill: runs of the versioned store on one workflow
-- with two versions, and a skill that is parsed.
use bunshin_go.Common.{String, List, [], ◌∷◌, none, some, ◌≡◌, refl, differs}
use bunshin_go.Core.Errors.{wrapf, ok, err}
use bunshin_go.Workflow.Spec.{Spec}
use bunshin_go.Store.Workflows.{workflows, err_not_found}
use bunshin_go.Store.Versioned.{
  Store, store_code, status_draft, status_active, create, get, get_version, activate, delete,
}
use bunshin_go.Store.Invariant.{IsValid}
use bunshin_go.Store.Preservation.{Op, create_op, activate_op, run, run-IsValid}
use bunshin_go.Store.Activation.{activate_iff-get_version, get-activate}
use bunshin_go.Store.Creation.{delete-create_stale}
use bunshin_go.Store.Skills
use bunshin_go.Store.Skills.{Skill, parse_iff-IsSkill}

abbrev at_version : String → String → Spec
at_version version status = record {
  name = "triage";
  description = "";
  nodes = [];
  version = version;
  status = status;
}

abbrev first : Spec
first = at_version "v1" status_active

abbrev second : Spec
second = at_version "v2" status_draft

abbrev calls : List (Op Spec)
calls =
    create_op "acme" (some (at_version "v1" ""))
    ∷ create_op "acme" (some (at_version "v2" ""))
    ∷ activate_op "acme" "triage" "v1"
    ∷ []

abbrev shop : Store Spec
shop = run workflows calls []

shop_active : get workflows "acme" "triage" shop ≡ some (ok first)
unfolding store_code
shop_active = refl

shop_v2 : get_version workflows "acme" "triage" "v2" shop ≡ ok second
unfolding store_code
shop_v2 = refl

shop_v1 : get_version workflows "acme" "triage" "v1" shop ≡ ok first
unfolding store_code
shop_v1 = refl

run-IsValid_example : IsValid workflows shop
run-IsValid_example = run-IsValid workflows calls

activate_iff-get_version_example : (activate workflows "acme" "triage" "v2" shop).1 ≡ none
activate_iff-get_version_example =
    (activate_iff-get_version workflows "acme" "triage" "v2" shop).0.1 (second, shop_v2)

get-activate_example :
    (get workflows "acme" "triage" (activate workflows "acme" "triage" "v2" shop).0
      ≡ some (ok (at_version "v2" status_active)))
    × (get_version workflows "acme" "triage" "v1" (activate workflows "acme" "triage" "v2" shop).0
        ≡ ok (at_version "v1" status_draft))
get-activate_example =
    let r =
      get-activate workflows "acme" "triage" "v2" shop second (run-IsValid workflows calls)
        (differs refl) shop_v2 in
    (r.0, (r.1 "v1" first (differs refl) (differs refl) shop_v1).0 shop_active)

delete-create_stale_example :
    (get workflows "acme" "triage"
        (create workflows "acme" (some first) (delete workflows "acme" "triage" shop).0).0
      ≡ some (err (wrapf "workflow %q: no active version: %w" ("triage" ∷ []) err_not_found)))
    × (get_version workflows "acme" "triage" "v1"
          (create workflows "acme" (some first) (delete workflows "acme" "triage" shop).0).0
        ≡ ok first)
    × (first.status ≡ status_active)
delete-create_stale_example =
    delete-create_stale workflows "acme" "triage" shop first (run-IsValid workflows calls)
      shop_active

-- A decoded text for a codec that hashes every text to "h1".
abbrev refund : Skill
refund = record {
  name = "refund";
  description = "";
  body = record { slug = "refund-body"; overrides = none; condition = "" };
  files = [];
  trigger = "model";
  version = "";
  status = "";
}

abbrev codec : Skills.Codec
codec = record {
  Bytes = Unit {0};
  unmarshal = λ b. ok refund;
  marshal = λ name description body files trigger. ok tt;
  hash = λ b. "h1";
}
