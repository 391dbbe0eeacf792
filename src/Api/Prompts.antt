-- ===== src/Api/Prompts.antt =====
-- pkg/api/handlers.go: the handlers of prompts, over pkg/prompt/interfaces.go.
use bunshin_go.Common.{String, List, [], ◌∷◌, map, Option, none, some, true, false, ◌||◌, str_eq}
use bunshin_go.Core.Errors.{Error, Result, ok, err}
use bunshin_go.Middleware.Auth.{Principal}
use bunshin_go.Prompt.Fragments.{Fragment}
use bunshin_go.Api.Replies.{Reply, http_error, http_failure, encoded, bare}

-- `prompt.PromptBackend`, with the calls of the handlers, on the state of the backend. `put` fills in
-- the fragment that its caller holds.
pub record PromptStore (W : Type 0) : Type 0 where
  pub put : String → Fragment → W → W × Fragment × Option Error
  pub get : String → String → W → W × Result Fragment
  pub get_by_id : String → String → W → W × Result Fragment
  pub get_version : String → String → String → W → W × Result Fragment
  pub list : String → W → W × Result (List Fragment)
  pub list_versions : String → String → W → W × Result (List Fragment)
  pub rename : String → String → String → W → W × Option Error
  pub delete : String → String → W → W × Option Error

-- The fields of `Router` for prompts; `none` is nil.
pub record PromptServices (W : Type 0) : Type 0 where
  pub backend : Option (PromptStore W)
  pub activator : Option (String → String → W → W × Option Error)
  pub refresher : Option (W → W)

-- The body of an upsert.
pub record Upsert : Type 0 where
  pub content : String
  pub tags : List String
  pub version_label : String
  pub slug : String

-- What the handlers encode.
pub data Shown : Type 0 where
  fragment : Fragment → Shown
  fragments : List Fragment → Shown
  version_list : List (String × String) → Shown

-- `tenantID`.
unfoldable pub tenant_id : Option Principal → String
tenant_id none = "default"
tenant_id (some p) = p.tenant_id

abbrev pub backend_missing : Reply Shown
backend_missing = http_error "prompt backend not configured" 501

-- The answer of `getBySlug`, `getByID` and `getVersion`: every error is a 404.
abbrev pub found_or_404 : {A : Type 0} → (A → Shown) → Result A → Reply Shown
found_or_404 show (ok a) = encoded (show a)
found_or_404 show (err e) = http_failure e 404

-- The fields of `versionMeta`.
abbrev pub version_meta : Fragment → String × String
version_meta f = (f.version, f.status)

-- The fragment that an upsert stores.
abbrev pub upserted : String → Upsert → Fragment
upserted slug body = record {
  id = "";
  slug = slug;
  content = body.content;
  variables = [];
  tags = body.tags;
  version = body.version_label;
  status = "";
}

module _ {W : Type 0} where
  -- The part of `handlePromptUpsert` that stores the fragment.
  unfoldable pub put_fragment : PromptStore W → String → String → Upsert → W → W × Reply Shown
  put_fragment store tenant slug body w =
      let (w', f, out) = store.put tenant (upserted slug body) w in
      (w', elim out [ none ↦ encoded (fragment f) | some e ↦ http_failure e 500 ])

  -- The part of `handlePromptUpsert` after the fragment to rename has been looked up: one that is not
  -- found is not renamed.
  unfoldable pub renamed : PromptStore W → String → Upsert → W × Result Fragment → W × Reply Shown
  renamed store tenant body (w, err e) = put_fragment store tenant body.slug body w
  renamed store tenant body (w, ok existing) =
      let (w', out) = store.rename tenant existing.id body.slug w in
      elim out [
        | some e ↦ (w', http_failure e 500)
        | none ↦ put_fragment store tenant body.slug body w'
      ]

  -- The part of `handlePromptUpsert` after the body is decoded.
  unfoldable pub upsert : PromptStore W → String → String → Upsert → W → W × Reply Shown
  upsert store tenant slug body w = elim (str_eq body.slug "" || str_eq body.slug slug) [
    | true ↦ put_fragment store tenant slug body w
    | false ↦ renamed store tenant body (store.get tenant slug w)
  ]

module _ {W Raw : Type 0} (services : PromptServices W) (decode : Raw → Result Upsert) where
  -- `handlePromptUpsert`.
  unfoldable pub handle_upsert : Option Principal → String → Raw → W → W × Reply Shown
  handle_upsert caller slug body w = elim services.backend [
    | none ↦ (w, backend_missing)
    | some store ↦ elim (str_eq slug "") [
      | true ↦ (w, http_error "missing slug" 400)
      | false ↦ elim (decode body) [
        | err e ↦ (w, http_error "invalid JSON body" 400)
        | ok decoded ↦ upsert store (tenant_id caller) slug decoded w
      ]
    ]
  ]

  -- `handlePromptList`.
  unfoldable pub handle_list : Option Principal → W → W × Reply Shown
  handle_list caller w = elim services.backend [
    | none ↦ (w, backend_missing)
    | some store ↦
        let (w', out) = store.list (tenant_id caller) w in
        (w', elim out [ ok fs ↦ encoded (fragments fs) | err e ↦ http_failure e 500 ])
  ]

  -- `getBySlug`.
  unfoldable pub get_by_slug : PromptStore W → String → String → W → W × Reply Shown
  get_by_slug store tenant slug w =
      let (w', out) = store.get tenant slug w in (w', found_or_404 fragment out)

  -- `getByID`.
  unfoldable pub get_by_id : PromptStore W → String → String → W → W × Reply Shown
  get_by_id store tenant id w =
      let (w', out) = store.get_by_id tenant id w in (w', found_or_404 fragment out)

  -- `getVersion`.
  unfoldable pub get_version : PromptStore W → String → String → String → W → W × Reply Shown
  get_version store tenant slug ver w =
      let (w', out) = store.get_version tenant slug ver w in (w', found_or_404 fragment out)

  -- `listVersions`.
  unfoldable pub list_versions : PromptStore W → String → String → W → W × Reply Shown
  list_versions store tenant slug w =
      let (w', out) = store.list_versions tenant slug w in
      (w', found_or_404 (λ fs. version_list (map version_meta fs)) out)

  abbrev pub no_such_page : Reply Shown
  no_such_page = http_error "404 page not found" 404

  -- The dispatch of `handlePromptGet` on the parts of the path, of which `strings.SplitN` makes at
  -- least one and at most three.
  unfoldable pub dispatch : PromptStore W → String → List String → W → W × Reply Shown
  dispatch store tenant [] w = (w, no_such_page)
  dispatch store tenant (slug ∷ []) w = get_by_slug store tenant slug w
  dispatch store tenant (first ∷ second ∷ []) w = elim (str_eq first "id") [
    | true ↦ get_by_id store tenant second w
    | false ↦ elim (str_eq second "versions") [
      | true ↦ list_versions store tenant first w
      | false ↦ (w, no_such_page)
    ]
  ]
  dispatch store tenant (first ∷ second ∷ third ∷ []) w = elim (str_eq second "versions") [
    | true ↦ get_version store tenant first third w
    | false ↦ (w, no_such_page)
  ]
  dispatch store tenant (first ∷ second ∷ third ∷ fourth ∷ rest) w = (w, no_such_page)

  -- `handlePromptGet`; `split` is `strings.SplitN` of the path by "/" into at most three parts.
  unfoldable pub handle_get :
      (String → List String) → Option Principal → String → W → W × Reply Shown
  handle_get split caller path w = elim services.backend [
    | none ↦ (w, backend_missing)
    | some store ↦ dispatch store (tenant_id caller) (split path) w
  ]

  -- `handlePromptActivate`.
  unfoldable pub handle_activate : Option Principal → String → W → W × Reply Shown
  handle_activate caller slug w = elim services.activator [
    | none ↦ (w, http_error "prompt activator not configured" 501)
    | some promote ↦ elim (str_eq slug "") [
      | true ↦ (w, http_error "missing prompt slug" 400)
      | false ↦
          let (w', out) = promote (tenant_id caller) slug w in
          (w', elim out [ none ↦ bare 202 | some e ↦ http_failure e 500 ])
    ]
  ]

  -- What follows the deletion in `handlePromptDelete`.
  unfoldable pub deleted : W × Option Error → W × Reply Shown
  deleted (w, some e) = (w, http_failure e 404)
  deleted (w, none) = (elim services.refresher [ none ↦ w | some refresh ↦ refresh w ], bare 204)

  -- `handlePromptDelete`.
  unfoldable pub handle_delete : Option Principal → String → W → W × Reply Shown
  handle_delete caller slug w = elim services.backend [
    | none ↦ (w, backend_missing)
    | some store ↦ deleted (store.delete (tenant_id caller) slug w)
  ]

  -- `handlePromptPurge`.
  unfoldable pub handle_purge : Reply Shown
  handle_purge = http_error "purge not yet implemented" 501

  -- `handlePromptRefresh`.
  unfoldable pub handle_refresh : W → W × Reply Shown
  handle_refresh w = elim services.refresher [
    | none ↦ (w, http_error "prompt refresher not configured" 501)
    | some refresh ↦ (refresh w, bare 202)
  ]
