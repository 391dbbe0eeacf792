-- ===== src/Llm/Azure.antt =====
-- pkg/llm/azure_openai.go: the provider of Azure, which speaks as OpenAI does.
use Prim.Native.String.{◌++◌ as str_append}
use bunshin_go.Common.{
  String, ℕ, List, [], ◌∷◌, Option, none, some, insert, Bool, true, false, if◌then◌else◌, str_eq,
}
use bunshin_go.Core.Errors.{Error, errorf, Result, ok, err}
use bunshin_go.Llm.Messages.{Message, Request, Response, Chunk}
use bunshin_go.Llm.Http.{
  HttpRequest, Transport, or_int, or_text, sent, posted, decoded, streamed, pinged,
}
use bunshin_go.Llm.Openai.{
  WireMessage, WireRequest, WireResponse, WireStreamChunk, wire_message, wire_messages, or_else,
  accepting_events, first_choice, token_usage, read_sse_stream,
}

-- `AzureOpenAIConfig`.
pub record AzureConfig : Type 0 where
  pub api_key : String
  pub endpoint : String
  pub deployment : String
  pub api_version : String
  pub max_tokens : ℕ
  pub http_timeout : ℕ

-- `AzureOpenAIProvider`, with the timeout of its client.
pub record AzureProvider : Type 0 where
  pub cfg : AzureConfig
  pub timeout : ℕ

-- `NewAzureOpenAIProvider`.
unfoldable pub new_provider : AzureConfig → Result AzureProvider
new_provider cfg =
    if str_eq cfg.api_key ""
    then err (errorf "azure-openai: APIKey is required" [])
    else if str_eq cfg.endpoint ""
    then err (errorf "azure-openai: Endpoint is required" [])
    else if str_eq cfg.deployment ""
    then err (errorf "azure-openai: Deployment is required" [])
    else ok (record {
      cfg = record cfg {
        api_version = or_text "2024-02-01" cfg.api_version;
        max_tokens = or_int 1024 cfg.max_tokens;
      };
      timeout = or_int 30000000000 cfg.http_timeout;
    })

-- `NativeMessages`.
unfoldable pub native_messages : List Message → List WireMessage
native_messages [] = []
native_messages (m ∷ ms) = wire_message m ∷ native_messages ms

-- `buildWireRequest`; the deployment stands for the model.
unfoldable pub build_wire_request : AzureProvider → Request → Bool → WireRequest
build_wire_request p req stream = record {
  model = "";
  messages = wire_messages req.messages;
  max_tokens = or_else p.cfg.max_tokens req.max_tokens;
  stream = stream;
  temperature = req.temperature;
}

-- `setHeaders`.
unfoldable pub set_headers : AzureProvider → HttpRequest → HttpRequest
set_headers p r = record r {
  headers = insert "Content-Type" "application/json" (insert "api-key" p.cfg.api_key r.headers);
}

-- `completionsURL`.
unfoldable pub completions_url : AzureProvider → String
completions_url p = str_append p.cfg.endpoint (
    str_append "/openai/deployments/"
      (str_append p.cfg.deployment (str_append "/chat/completions?api-version=" p.cfg.api_version)))

-- The request of `Complete` and of `StreamComplete`.
unfoldable pub completion_request : AzureProvider → String → HttpRequest
completion_request p body =
    set_headers p
      (record { method = "POST"; url = completions_url p; headers = []; body = some body })

-- The request of `Ping`.
unfoldable pub ping_request : AzureProvider → HttpRequest
ping_request p = record {
  method = "GET";
  url = str_append p.cfg.endpoint (str_append "/openai/models?api-version=" p.cfg.api_version);
  headers = insert "api-key" p.cfg.api_key [];
  body = none;
}

-- The `Response` of `Complete`.
unfoldable pub response_of : AzureProvider → WireResponse → Response
response_of p r = record {
  content = first_choice r.choices;
  tool_calls = [];
  usage = token_usage r.usage;
  model = p.cfg.deployment;
}

module _ {Body W : Type 0} (t : Transport WireRequest WireResponse WireStreamChunk Body W)
    (p : AzureProvider) where
  -- `Complete`.
  unfoldable pub complete : Request → W → W × Result Response
  complete req w =
      decoded t "azure-openai" (response_of p)
        (posted t "azure-openai" (build_wire_request p req false) (completion_request p) w)

  -- `StreamComplete`.
  unfoldable pub stream_complete : Request → W → W × Result (List Chunk)
  stream_complete req w = streamed t (read_sse_stream t.unmarshal "azure-openai") (
      posted t "azure-openai" (build_wire_request p req true)
        (λ body. accepting_events (completion_request p body)) w)

  -- `Ping`.
  unfoldable pub ping : W → W × Option Error
  ping w =
      pinged t (sent t "azure-openai" ": ping build request: %w" ": ping: %w" (ping_request p) w)
