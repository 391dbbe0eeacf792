-- ===== src/Llm/Openai.antt =====
-- pkg/llm/openai.go and pkg/llm/openai_types.go: the provider of OpenAI.
use Prim.Native.String.{◌++◌ as str_append, slice, len}
use text.Mathlib.Text.{starts_with}
use bunshin_go.Common.{
  String, ℕ, List, [], ◌∷◌, map, Map, Option, none, some, insert, Bool, true, false, if◌then◌else◌,
  str_eq,
}
use bunshin_go.Core.Errors.{Error, wrapf, Result}
use bunshin_go.Llm.Messages.{Message, Request, Response, Chunk, TokenUsage, message_text}
use bunshin_go.Llm.Http.{
  HttpRequest, Transport, VendorConfig, Vendor, tier_fast, tier_smart, tier_reasoning, configured,
  sent, posted, decoded, streamed, pinged,
}

-- `openAIWireMessage`.
pub record WireMessage : Type 0 where
  pub role : String
  pub content : String

-- `openAIWireRequest`.
pub record WireRequest : Type 0 where
  pub model : String
  pub messages : List WireMessage
  pub max_tokens : ℕ
  pub stream : Bool
  pub temperature : Option ℕ

-- The usage of `openAIWireResponse` and of `openAIWireStreamChunk`.
pub record WireUsage : Type 0 where
  pub prompt_tokens : ℕ
  pub completion_tokens : ℕ
  pub total_tokens : ℕ
  pub cached_tokens : ℕ

-- `openAIWireResponse`; a choice is the content of its message.
pub record WireResponse : Type 0 where
  pub choices : List String
  pub usage : WireUsage
  pub model : String

-- `openAIWireStreamChunk`; a choice is the content of its delta.
pub record WireStreamChunk : Type 0 where
  pub choices : List String
  pub usage : Option WireUsage

-- `openAITierModels`.
abbrev pub tier_models : Map String
tier_models = (tier_fast, "gpt-4o-mini") ∷ (tier_smart, "gpt-4o") ∷ (tier_reasoning, "o3-mini") ∷ []

-- `NewOpenAIProvider`.
unfoldable pub new_provider : VendorConfig → Result Vendor
new_provider = configured "openai" "https://api.openai.com/v1" tier_models

-- The message on the wire.
abbrev pub wire_message : Message → WireMessage
wire_message m = record { role = m.role; content = message_text m }

-- `NativeMessages`.
unfoldable pub native_messages : List Message → List WireMessage
native_messages [] = []
native_messages (m ∷ ms) = wire_message m ∷ native_messages ms

-- The loop of `buildWireRequest` over the messages.
unfoldable pub wire_messages : List Message → List WireMessage
wire_messages = map wire_message

-- An int of a request that is not nil takes the place of that of the configuration.
abbrev pub or_else : ℕ → Option ℕ → ℕ
or_else n none = n
or_else n (some m) = m

-- `buildWireRequest`.
unfoldable pub build_wire_request : Vendor → Request → Bool → WireRequest
build_wire_request p req stream = record {
  model = p.model;
  messages = wire_messages req.messages;
  max_tokens = or_else p.cfg.max_tokens req.max_tokens;
  stream = stream;
  temperature = req.temperature;
}

-- `setHeaders`.
unfoldable pub set_headers : Vendor → HttpRequest → HttpRequest
set_headers p r = record r {
  headers =
      insert "Content-Type" "application/json"
        (insert "Authorization" (str_append "Bearer " p.cfg.api_key) r.headers);
}

-- The request of `Complete`, of `StreamComplete` and of `Ping`.
unfoldable pub completion_request : Vendor → String → HttpRequest
completion_request p body = set_headers p (record {
  method = "POST";
  url = str_append p.cfg.base_url "/chat/completions";
  headers = [];
  body = some body;
})

abbrev pub accepting_events : HttpRequest → HttpRequest
accepting_events r = record r { headers = insert "Accept" "text/event-stream" r.headers }

unfoldable pub ping_request : Vendor → HttpRequest
ping_request p = set_headers p (record {
  method = "GET";
  url = str_append p.cfg.base_url "/models";
  headers = [];
  body = none;
})

-- The text of a reply.
abbrev pub first_choice : List String → String
first_choice [] = ""
first_choice (content ∷ rest) = content

abbrev pub token_usage : WireUsage → TokenUsage
token_usage u = record {
  prompt_tokens = u.prompt_tokens;
  completion_tokens = u.completion_tokens;
  total_tokens = u.total_tokens;
  cached_tokens = u.cached_tokens;
}

-- The `Response` of `Complete`.
unfoldable pub response_of : WireResponse → Response
response_of r = record {
  content = first_choice r.choices;
  tool_calls = [];
  usage = token_usage r.usage;
  model = r.model;
}

-- The payload of a line of server-sent events: what follows "data: ".
unfoldable pub payload_of : String → Option String
payload_of line = if starts_with line "data: " then some (slice line 6 (len line)) else none

-- The last chunk of a stream, with its error or the usage.
abbrev pub last_chunk : Option Error → Option TokenUsage → Chunk
last_chunk err usage = record {
  delta = "";
  tool_call_delta = none;
  done = true;
  err = err;
  usage = usage;
}

-- The end of a stream whose lines are over.
abbrev pub end_of_stream : String → Option Error → Option TokenUsage → Chunk
end_of_stream vendor none usage = last_chunk none usage
end_of_stream vendor (some e) usage =
    last_chunk (some (wrapf (str_append vendor ": stream read: %w") [] e)) none

-- The chunk of an event.
unfoldable pub chunk_of : WireStreamChunk → Chunk
chunk_of c = record {
  delta = first_choice c.choices;
  tool_call_delta = none;
  done = false;
  err = none;
  usage = elim c.usage [ none ↦ none | some u ↦ some (token_usage u) ];
}

-- What a line of a stream is: passed over, the end of the stream, or an event.
pub data Line (E : Type 0) : Type 0 where
  skipped : Line E
  stopped : Line E
  event : E → Line E

unfoldable pub read_line : (String → Option WireStreamChunk) → String → Line WireStreamChunk
read_line unmarshal line = elim (payload_of line) [
  | none ↦ skipped
  | some payload ↦
      if str_eq payload "[DONE]"
      then stopped
      else elim (unmarshal payload) [ none ↦ skipped | some c ↦ event c ]
]

-- `readSSEStream`, for a vendor: the chunks that it sends, from the lines and the error of the scanner.
unfoldable pub read_sse_stream :
    (String → Option WireStreamChunk) → String → List String → Option Error → List Chunk
read_sse_stream unmarshal vendor [] failure = end_of_stream vendor failure none ∷ []
read_sse_stream unmarshal vendor (line ∷ lines) failure = elim (read_line unmarshal line) [
  | skipped ↦ read_sse_stream unmarshal vendor lines failure
  | stopped ↦ last_chunk none none ∷ []
  | event c ↦ chunk_of c ∷ read_sse_stream unmarshal vendor lines failure
]

module _ {Body W : Type 0} (t : Transport WireRequest WireResponse WireStreamChunk Body W)
    (p : Vendor) where
  -- `Complete`.
  unfoldable pub complete : Request → W → W × Result Response
  complete req w =
      decoded t "openai" response_of
        (posted t "openai" (build_wire_request p req false) (completion_request p) w)

  -- `StreamComplete`.
  unfoldable pub stream_complete : Request → W → W × Result (List Chunk)
  stream_complete req w = streamed t (read_sse_stream t.unmarshal "openai") (
      posted t "openai" (build_wire_request p req true)
        (λ body. accepting_events (completion_request p body)) w)

  -- `Ping`.
  unfoldable pub ping : W → W × Option Error
  ping w = pinged t (sent t "openai" ": ping build request: %w" ": ping: %w" (ping_request p) w)
