-- ===== src/Api/Workflows.antt =====
-- pkg/api/handlers.go: the handlers of stored workflows, over pkg/workflow/interfaces.go.
use bunshin_go.Common.{String, List, Option, none, some, true, false, ◌||◌, if◌then◌else◌, str_eq}
use bunshin_go.Core.Errors.{Error, Result, ok, err, is_sentinel}
use bunshin_go.Core.Attempt.{Attempt, returns, fails, panics}
use bunshin_go.Workflow.Spec.{Spec}
use bunshin_go.Api.Replies.{
  Reply, prefixed, json, answer, aborted, plain_text, application_json, http_error, http_failure,
  encoded, bare,
}

-- `workflow.Store`, on the state of the store.
pub record WorkflowStore (W : Type 0) : Type 0 where
  pub create : String → Spec → W → W × Result String
  pub get : String → String → W → Attempt Spec
  pub get_version : String → String → String → W → Result Spec
  pub list : String → W → Result (List String)
  pub list_versions : String → String → W → Result (List String)
  pub activate : String → String → String → W → W × Option Error
  pub delete : String → String → W → W × Option Error

-- What the handlers encode.
pub data Shown : Type 0 where
  created : String → String → Shown
  workflows : List String → Shown
  versions : List String → Shown
  definition : Spec → Shown

-- The status of an error of the store.
unfoldable pub status_of : Error → Reply Shown
status_of e = http_failure e (if is_sentinel "workflow: not found" e then 404 else 500)

unfoldable pub activation_status : Error → Reply Shown
activation_status e = http_failure e (
    if is_sentinel "workflow: version not found" e || is_sentinel "workflow: not found" e
    then 404
    else 500)

abbrev pub not_configured : Reply Shown
not_configured = http_error "workflow store not configured" 501

-- The answer for what the store returns.
abbrev pub shown : {A : Type 0} → (A → Shown) → Result A → Reply Shown
shown show (ok a) = encoded (show a)
shown show (err e) = status_of e

-- The decoder of the bodies: the field `spec`, and the field `version`, "" where they are missing.
pub record Bodies (Raw : Type 0) : Type 0 where
  pub spec : Raw → Result String
  pub version : Raw → Result String

module _ {Raw W : Type 0} (bodies : Bodies Raw) (parse : String → Result Spec)
    (tenant : String) where
  -- The part of `handleWorkflowCreate` after the definition is parsed.
  unfoldable pub stored : WorkflowStore W → Spec → W → W × Reply Shown
  stored store spec w =
      let (w', out) = store.create tenant spec w in
      (
        w',
        elim out [
          | err e ↦ http_failure e 500
          | ok version ↦ answer 201 application_json (json (created version spec.name))
        ],
      )

  -- The part of `handleWorkflowCreate` after the body is decoded.
  unfoldable pub parsed : WorkflowStore W → String → W → W × Reply Shown
  parsed store text w = elim (str_eq text "") [
    | true ↦ (w, http_error "spec field is required" 400)
    | false ↦ elim (parse text) [
      | err e ↦ (w, answer 422 plain_text (prefixed "invalid spec: " e))
      | ok spec ↦ stored store spec w
    ]
  ]

  -- `handleWorkflowCreate`.
  unfoldable pub handle_create : Option (WorkflowStore W) → Raw → W → W × Reply Shown
  handle_create none body w = (w, not_configured)
  handle_create (some store) body w = elim (bodies.spec body) [
    | err e ↦ (w, http_error "invalid JSON body" 400)
    | ok text ↦ parsed store text w
  ]

  -- `handleWorkflowList`.
  unfoldable pub handle_list : Option (WorkflowStore W) → W → Reply Shown
  handle_list none w = not_configured
  handle_list (some store) w = elim (store.list tenant w) [
    | err e ↦ http_failure e 500
    | ok names ↦ encoded (workflows names)
  ]

  -- `handleWorkflowGet`.
  unfoldable pub handle_get : Option (WorkflowStore W) → String → W → Reply Shown
  handle_get none name w = not_configured
  handle_get (some store) name w = elim (store.get tenant name w) [
    | returns spec ↦ encoded (definition spec)
    | fails e ↦ status_of e
    | panics ↦ aborted
  ]

  -- `handleWorkflowListVersions`.
  unfoldable pub handle_list_versions : Option (WorkflowStore W) → String → W → Reply Shown
  handle_list_versions none name w = not_configured
  handle_list_versions (some store) name w = shown versions (store.list_versions tenant name w)

  -- `handleWorkflowGetVersion`.
  unfoldable pub handle_get_version : Option (WorkflowStore W) → String → String → W → Reply Shown
  handle_get_version none name ver w = not_configured
  handle_get_version (some store) name ver w =
      shown definition (store.get_version tenant name ver w)

  -- The part of `handleWorkflowActivate` after the body is decoded.
  unfoldable pub activated : WorkflowStore W → String → String → W → W × Reply Shown
  activated store name version w =
      let (w', out) = store.activate tenant name version w in
      (w', elim out [ none ↦ bare 202 | some e ↦ activation_status e ])

  -- `handleWorkflowActivate`.
  unfoldable pub handle_activate : Option (WorkflowStore W) → String → Raw → W → W × Reply Shown
  handle_activate none name body w = (w, not_configured)
  handle_activate (some store) name body w = elim (bodies.version body) [
    | err e ↦ (w, http_error "version field is required" 400)
    | ok version ↦ elim (str_eq version "") [
      | true ↦ (w, http_error "version field is required" 400)
      | false ↦ activated store name version w
    ]
  ]

  -- `handleWorkflowDelete`.
  unfoldable pub handle_delete : Option (WorkflowStore W) → String → W → W × Reply Shown
  handle_delete none name w = (w, not_configured)
  handle_delete (some store) name w =
      let (w', out) = store.delete tenant name w in
      (w', elim out [ none ↦ bare 204 | some e ↦ status_of e ])
