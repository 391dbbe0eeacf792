-- ===== src/Llm/Google.antt =====
-- pkg/llm/google.go and pkg/llm/google_types.go: the provider of Google.
use Prim.Native.String.{◌++◌ as str_append}
use bunshin_go.Common.{
  String, ℕ, ◌&&◌, List, [], ◌∷◌, ◌++◌, Map, Option, none, some, insert, true, false, if◌then◌else◌,
  str_eq, ltb,
}
use bunshin_go.Core.Errors.{Error, Result}
use bunshin_go.Llm.Messages.{
  Message, Request, Response, Chunk, TokenUsage, message_text, role_system, role_assistant,
}
use bunshin_go.Llm.Http.{
  HttpRequest, Transport, VendorConfig, Vendor, tier_fast, tier_smart, tier_reasoning, configured,
  sent, posted, decoded, streamed, pinged,
}
use bunshin_go.Llm.Openai.{Line, skipped, stopped, event, or_else, payload_of, end_of_stream}
use bunshin_go.Llm.Anthropic.{text_chunk}

-- `googleWireContent`; a part, `googleWirePart`, is its text.
pub record WireContent : Type 0 where
  pub role : String
  pub parts : List String

-- `googleGenConfig`.
pub record GenConfig : Type 0 where
  pub max_output_tokens : ℕ
  pub temperature : Option ℕ

-- `googleWireRequest`.
pub record WireRequest : Type 0 where
  pub contents : List WireContent
  pub system_instruction : Option WireContent
  pub generation_config : GenConfig

-- The usage of `googleWireResponse`.
pub record UsageMetadata : Type 0 where
  pub prompt_token_count : ℕ
  pub candidates_token_count : ℕ
  pub total_token_count : ℕ

-- `googleWireResponse`.
pub record WireResponse : Type 0 where
  pub candidates : List WireContent
  pub usage_metadata : UsageMetadata

-- `googleTierModels`.
abbrev pub tier_models : Map String
tier_models =
    (tier_fast, "gemini-2.0-flash-lite")
    ∷ (tier_smart, "gemini-2.0-flash")
    ∷ (tier_reasoning, "gemini-2.5-pro")
    ∷ []

-- `NewGoogleProvider`.
unfoldable pub new_provider : VendorConfig → Result Vendor
new_provider = configured "google" "https://generativelanguage.googleapis.com" tier_models

-- `googleRole`.
unfoldable pub google_role : String → String
google_role role = if str_eq role role_assistant then "model" else "user"

abbrev pub wire_content : Message → WireContent
wire_content m = record { role = google_role m.role; parts = message_text m ∷ [] }

-- `NativeMessages`.
unfoldable pub native_messages : List Message → List WireContent
native_messages [] = []
native_messages (m ∷ ms) =
    let rest = native_messages ms in
    if str_eq m.role role_system then rest else wire_content m ∷ rest

-- The instruction with one part more; there is none before the first.
abbrev pub add_part : Option WireContent → String → WireContent
add_part none text = record { role = ""; parts = text ∷ [] }
add_part (some c) text = record c { parts = c.parts ++ (text ∷ []) }

-- The loop of `buildWireRequest`, from the instruction and the contents so far.
unfoldable pub split_messages :
    Option WireContent → List WireContent → List Message → Option WireContent × List WireContent
split_messages system out [] = (system, out)
split_messages system out (m ∷ ms) = elim (str_eq m.role role_system) [
  | true ↦ split_messages (some (add_part system (message_text m))) out ms
  | false ↦ split_messages system (out ++ (wire_content m ∷ [])) ms
]

-- `buildWireRequest`.
unfoldable pub build_wire_request : Vendor → Request → WireRequest
build_wire_request p req = record {
  contents = (split_messages none [] req.messages).1;
  system_instruction = (split_messages none [] req.messages).0;
  generation_config = record {
    max_output_tokens = or_else p.cfg.max_tokens req.max_tokens;
    temperature = req.temperature;
  };
}

-- The request of `Complete`.
unfoldable pub generate_request : Vendor → String → HttpRequest
generate_request p body = record {
  method = "POST";
  url =
      str_append p.cfg.base_url
        (str_append "/v1beta/models/" (str_append p.model ":generateContent"));
  headers = insert "x-goog-api-key" p.cfg.api_key (insert "Content-Type" "application/json" []);
  body = some body;
}

-- The request of `StreamComplete`.
unfoldable pub stream_request : Vendor → String → HttpRequest
stream_request p body = record {
  method = "POST";
  url =
      str_append p.cfg.base_url
        (str_append "/v1beta/models/" (str_append p.model ":streamGenerateContent?alt=sse"));
  headers =
      insert "x-goog-api-key" p.cfg.api_key
        (insert "Accept" "text/event-stream" (insert "Content-Type" "application/json" []));
  body = some body;
}

-- The request of `Ping`.
unfoldable pub ping_request : Vendor → HttpRequest
ping_request p = record {
  method = "GET";
  url = str_append p.cfg.base_url "/v1beta/models";
  headers = insert "x-goog-api-key" p.cfg.api_key [];
  body = none;
}

-- The loop over the parts of a candidate.
unfoldable pub joined_parts : String → List String → String
joined_parts out [] = out
joined_parts out (part ∷ parts) = joined_parts (str_append out part) parts

abbrev pub first_candidate : List WireContent → String
first_candidate [] = ""
first_candidate (c ∷ cs) = joined_parts "" c.parts

abbrev pub token_usage : UsageMetadata → TokenUsage
token_usage u = record {
  prompt_tokens = u.prompt_token_count;
  completion_tokens = u.candidates_token_count;
  total_tokens = u.total_token_count;
  cached_tokens = 0;
}

-- The `Response` of `Complete`.
unfoldable pub response_of : Vendor → WireResponse → Response
response_of p r = record {
  content = first_candidate r.candidates;
  tool_calls = [];
  usage = token_usage r.usage_metadata;
  model = p.model;
}

-- The chunks of the candidates of an event; one without text sends nothing.
unfoldable pub candidate_chunks : List WireContent → List Chunk
candidate_chunks [] = []
candidate_chunks (c ∷ cs) =
    let rest = candidate_chunks cs in
    let text = joined_parts "" c.parts in if str_eq text "" then rest else text_chunk text ∷ rest

-- The usage of the stream after an event; the test is `> 0` on an int of 64 bits.
unfoldable pub usage_after : UsageMetadata → Option TokenUsage → Option TokenUsage
usage_after u usage =
    if ltb 0 u.total_token_count && ltb u.total_token_count 9223372036854775808
    then some (token_usage u)
    else usage

-- What a line is; none ends the stream.
unfoldable pub read_line : (String → Option WireResponse) → String → Line WireResponse
read_line unmarshal line = elim (payload_of line) [
  | none ↦ skipped
  | some payload ↦ elim (unmarshal payload) [ none ↦ skipped | some r ↦ event r ]
]

-- `readSSEStream`, from the usage so far.
unfoldable pub read_sse_stream :
    (String → Option WireResponse) → Option TokenUsage → List String → Option Error → List Chunk
read_sse_stream unmarshal usage [] failure = end_of_stream "google" failure usage ∷ []
read_sse_stream unmarshal usage (line ∷ lines) failure = elim (read_line unmarshal line) [
  | skipped ↦ read_sse_stream unmarshal usage lines failure
  | stopped ↦ end_of_stream "google" failure usage ∷ []
  | event r ↦
      candidate_chunks r.candidates
      ++ read_sse_stream unmarshal (usage_after r.usage_metadata usage) lines failure
]

module _ {Body W : Type 0} (t : Transport WireRequest WireResponse WireResponse Body W)
    (p : Vendor) where
  -- `Complete`.
  unfoldable pub complete : Request → W → W × Result Response
  complete req w =
      decoded t "google" (response_of p)
        (posted t "google" (build_wire_request p req) (generate_request p) w)

  -- `StreamComplete`.
  unfoldable pub stream_complete : Request → W → W × Result (List Chunk)
  stream_complete req w =
      streamed t (read_sse_stream t.unmarshal none)
        (posted t "google" (build_wire_request p req) (stream_request p) w)

  -- `Ping`.
  unfoldable pub ping : W → W × Option Error
  ping w = pinged t (sent t "google" ": ping build request: %w" ": ping: %w" (ping_request p) w)
