-- ===== src/Llm/Anthropic.antt =====
-- pkg/llm/anthropic.go and pkg/llm/anthropic_types.go: the provider of Anthropic.
use Prim.Native.Nat.{◌%◌}
use Prim.Native.String.{◌++◌ as str_append}
use bunshin_go.Common.{
  String, ℕ, ◌+◌, List, [], ◌∷◌, ◌++◌, Map, Option, none, some, insert, Bool, true, false,
  if◌then◌else◌, str_eq,
}
use bunshin_go.Core.Errors.{Error, Result}
use bunshin_go.Llm.Messages.{
  Message, Request, Response, Chunk, TokenUsage, message_text, role_system,
}
use bunshin_go.Llm.Http.{
  HttpRequest, Transport, VendorConfig, Vendor, tier_fast, tier_smart, tier_reasoning, configured,
  sent, posted, decoded, streamed, pinged,
}
use bunshin_go.Llm.Openai.{
  Line, skipped, stopped, event, accepting_events, or_else, payload_of, last_chunk, end_of_stream,
}

-- `anthropicWireMessageItem`.
pub record WireMessageItem : Type 0 where
  pub role : String
  pub content : String

-- `anthropicWireRequest`.
pub record WireRequest : Type 0 where
  pub model : String
  pub max_tokens : ℕ
  pub system : String
  pub messages : List WireMessageItem
  pub stream : Bool

-- A block of content, or a delta: its type and its text.
pub record Block : Type 0 where
  pub kind : String
  pub text : String

-- The usage of a response and of an event.
pub record WireUsage : Type 0 where
  pub input_tokens : ℕ
  pub output_tokens : ℕ

-- `anthropicWireResponse`.
pub record WireResponse : Type 0 where
  pub content : List Block
  pub usage : WireUsage
  pub model : String

-- `anthropicWireStreamEvent`.
pub record WireStreamEvent : Type 0 where
  pub kind : String
  pub delta : Option Block
  pub usage : Option WireUsage

-- `anthropicTierModels`.
abbrev pub tier_models : Map String
tier_models =
    (tier_fast, "claude-haiku-4-5-20251001")
    ∷ (tier_smart, "claude-sonnet-4-6")
    ∷ (tier_reasoning, "claude-opus-4-7")
    ∷ []

-- `NewAnthropicProvider`.
unfoldable pub new_provider : VendorConfig → Result Vendor
new_provider = configured "anthropic" "https://api.anthropic.com" tier_models

abbrev pub wire_item : Message → WireMessageItem
wire_item m = record { role = m.role; content = message_text m }

-- `NativeMessages`.
unfoldable pub native_messages : List Message → List WireMessageItem
native_messages [] = []
native_messages (m ∷ ms) =
    let rest = native_messages ms in if str_eq m.role role_system then rest else wire_item m ∷ rest

-- The loop of `buildWireRequest`, from the system text and the messages so far.
unfoldable pub split_messages :
    String → List WireMessageItem → List Message → String × List WireMessageItem
split_messages system out [] = (system, out)
split_messages system out (m ∷ ms) = elim (str_eq m.role role_system) [
  | true ↦ split_messages (str_append system (message_text m)) out ms
  | false ↦ split_messages system (out ++ (wire_item m ∷ [])) ms
]

-- `buildWireRequest`; the temperature is not sent.
unfoldable pub build_wire_request : Vendor → Request → Bool → WireRequest
build_wire_request p req stream = record {
  model = p.model;
  max_tokens = or_else p.cfg.max_tokens req.max_tokens;
  system = (split_messages "" [] req.messages).0;
  messages = (split_messages "" [] req.messages).1;
  stream = stream;
}

-- `anthropicVersion`.
abbrev pub anthropic_version : String
anthropic_version = "2023-06-01"

-- `setHeaders`.
unfoldable pub set_headers : Vendor → HttpRequest → HttpRequest
set_headers p r = record r {
  headers =
      insert "Content-Type" "application/json"
        (insert "anthropic-version" anthropic_version (insert "x-api-key" p.cfg.api_key r.headers));
}

-- The request of `Complete` and of `StreamComplete`.
unfoldable pub completion_request : Vendor → String → HttpRequest
completion_request p body = set_headers p (record {
  method = "POST";
  url = str_append p.cfg.base_url "/v1/messages";
  headers = [];
  body = some body;
})

unfoldable pub ping_request : Vendor → HttpRequest
ping_request p = set_headers p (record {
  method = "GET";
  url = str_append p.cfg.base_url "/v1/models";
  headers = [];
  body = none;
})

-- The loop of `Complete` over the blocks, from the text so far.
unfoldable pub text_of_blocks : String → List Block → String
text_of_blocks out [] = out
text_of_blocks out (b ∷ bs) =
    text_of_blocks (if str_eq b.kind "text" then str_append out b.text else out) bs

-- The usage; the sum of two ints wraps at 64 bits.
unfoldable pub token_usage : WireUsage → TokenUsage
token_usage u = record {
  prompt_tokens = u.input_tokens;
  completion_tokens = u.output_tokens;
  total_tokens = (u.input_tokens + u.output_tokens) % 18446744073709551616;
  cached_tokens = 0;
}

-- The `Response` of `Complete`.
unfoldable pub response_of : WireResponse → Response
response_of r = record {
  content = text_of_blocks "" r.content;
  tool_calls = [];
  usage = token_usage r.usage;
  model = r.model;
}

abbrev pub text_chunk : String → Chunk
text_chunk text = record {
  delta = text;
  tool_call_delta = none;
  done = false;
  err = none;
  usage = none;
}

-- What an event sends on the channel; one that ends the stream is not treated here.
unfoldable pub chunks_of : WireStreamEvent → List Chunk
chunks_of e =
    if str_eq e.kind "content_block_delta"
    then elim e.delta [
      | none ↦ []
      | some d ↦ if str_eq d.kind "text_delta" then text_chunk d.text ∷ [] else []
    ]
    else []

-- The usage of the stream after an event.
unfoldable pub usage_after : WireStreamEvent → Option TokenUsage → Option TokenUsage
usage_after e usage =
    if str_eq e.kind "message_delta"
    then elim e.usage [ none ↦ usage | some u ↦ some (token_usage u) ]
    else usage

-- What a line is.
unfoldable pub read_line : (String → Option WireStreamEvent) → String → Line WireStreamEvent
read_line unmarshal line = elim (payload_of line) [
  | none ↦ skipped
  | some payload ↦ elim (unmarshal payload) [
    | none ↦ skipped
    | some e ↦ if str_eq e.kind "message_stop" then stopped else event e
  ]
]

-- `readSSEStream`, from the usage so far.
unfoldable pub read_sse_stream :
    (String → Option WireStreamEvent) → Option TokenUsage → List String → Option Error → List Chunk
read_sse_stream unmarshal usage [] failure = end_of_stream "anthropic" failure usage ∷ []
read_sse_stream unmarshal usage (line ∷ lines) failure = elim (read_line unmarshal line) [
  | skipped ↦ read_sse_stream unmarshal usage lines failure
  | stopped ↦ last_chunk none usage ∷ []
  | event e ↦ chunks_of e ++ read_sse_stream unmarshal (usage_after e usage) lines failure
]

module _ {Body W : Type 0} (t : Transport WireRequest WireResponse WireStreamEvent Body W)
    (p : Vendor) where
  -- `Complete`.
  unfoldable pub complete : Request → W → W × Result Response
  complete req w =
      decoded t "anthropic" response_of
        (posted t "anthropic" (build_wire_request p req false) (completion_request p) w)

  -- `StreamComplete`.
  unfoldable pub stream_complete : Request → W → W × Result (List Chunk)
  stream_complete req w = streamed t (read_sse_stream t.unmarshal none) (
      posted t "anthropic" (build_wire_request p req true)
        (λ body. accepting_events (completion_request p body)) w)

  -- `Ping`.
  unfoldable pub ping : W → W × Option Error
  ping w = pinged t (sent t "anthropic" ": ping build request: %w" ": ping: %w" (ping_request p) w)
