-- ===== src/Llm/Vendors.antt =====
-- pkg/llm: the four vendors as providers, and what they make of the tools of a request.
use Prim.Native.String.{◌++◌ as str_append}
use bunshin_go.Common.{String, List, [], Bool, ◌≡◌, refl, str_eq}
use bunshin_go.Core.Errors.{wrapf, Result, ok, err}
use bunshin_go.Llm.Fallback.{Provider}
use bunshin_go.Llm.Messages.{Request, Response, ToolDefinition}
use bunshin_go.Llm.Http.{Transport, HttpResponse, Vendor, decoded}
use bunshin_go.Llm.Openai
use bunshin_go.Llm.Anthropic
use bunshin_go.Llm.Google
use bunshin_go.Llm.Azure

-- `ProviderID`.
abbrev pub provider_openai : String
provider_openai = "openai"

abbrev pub provider_anthropic : String
provider_anthropic = "anthropic"

abbrev pub provider_google : String
provider_google = "google"

abbrev pub provider_azure_openai : String
provider_azure_openai = "azure-openai"

-- `CanTransferContext`, which each vendor answers with its own `ID`.
unfoldable pub can_transfer_context :
    {Req Resp W : Type 0} → Provider Req Resp W → Provider Req Resp W → Bool
can_transfer_context p origin = str_eq origin.id p.id

-- The providers of the vendors behind `LLMProvider`.
pub data IsVendor (W : Type 0) : Provider Request Response W → Type 1 where
  openai :
      {Body : Type 0}
      (t : Transport Openai.WireRequest Openai.WireResponse Openai.WireStreamChunk Body W)
      (p : Vendor)
      → IsVendor W (record { id = provider_openai; complete = Openai.complete t p })
  anthropic :
      {Body : Type 0}
      (t : Transport Anthropic.WireRequest Anthropic.WireResponse Anthropic.WireStreamEvent Body W)
      (p : Vendor)
      → IsVendor W (record { id = provider_anthropic; complete = Anthropic.complete t p })
  google :
      {Body : Type 0}
      (t : Transport Google.WireRequest Google.WireResponse Google.WireResponse Body W) (p : Vendor)
      → IsVendor W (record { id = provider_google; complete = Google.complete t p })
  azure :
      {Body : Type 0}
      (t : Transport Openai.WireRequest Openai.WireResponse Openai.WireStreamChunk Body W)
      (p : Azure.AzureProvider)
      → IsVendor W (record { id = provider_azure_openai; complete = Azure.complete t p })

-- A result without tool calls.
abbrev pub Toolless : Result Response → Type 0
Toolless (err e) = Unit
Toolless (ok resp) = resp.tool_calls ≡ []

decoded-Toolless :
    {Wire Reply Event Body W : Type 0} (t : Transport Wire Reply Event Body W) (vendor : String)
    (response : Reply → Response) (p : W × Result (HttpResponse Body))
    → ((r : Reply) → (response r).tool_calls ≡ [])
    → Toolless (decoded t vendor response p).1
unfolding decoded
decoded-Toolless t vendor response (w, err e) h = tt
decoded-Toolless {Reply = Reply} t vendor response (w, ok resp) h = go (t.decode resp.body)
  where
    go :
        (r : Result Reply)
        → Toolless (elim r as (λ _. Result Response) [
          | err e ↦ err (wrapf (str_append vendor ": decode response: %w") [] e)
          | ok reply ↦ ok (response reply)
        ])
    go (err e) = tt
    go (ok reply) = h reply

-- No vendor sends the tools of a request, so that `Complete` does the same whatever they are, and no
-- response of a vendor has a tool call.
pub vendor-Toolless :
    {W : Type 0} {p : Provider Request Response W} (v : IsVendor W p) (req : Request)
    (tools : List ToolDefinition) (w : W)
    → (p.complete (record req { tools = tools }) w ≡ p.complete req w)
      × Toolless (p.complete req w).1
unfolding Openai.complete Anthropic.complete Google.complete Azure.complete Openai.response_of
    Anthropic.response_of Google.response_of Azure.response_of Openai.build_wire_request
    Anthropic.build_wire_request Google.build_wire_request Azure.build_wire_request
vendor-Toolless (openai t p) req tools w =
    (refl, decoded-Toolless t "openai" Openai.response_of _ (λ r. refl))
vendor-Toolless (anthropic t p) req tools w =
    (refl, decoded-Toolless t "anthropic" Anthropic.response_of _ (λ r. refl))
vendor-Toolless (google t p) req tools w =
    (refl, decoded-Toolless t "google" (Google.response_of p) _ (λ r. refl))
vendor-Toolless (azure t p) req tools w =
    (refl, decoded-Toolless t "azure-openai" (Azure.response_of p) _ (λ r. refl))
