-- ===== src/Llm/Messages.antt =====
-- pkg/llm/message.go and pkg/llm/request.go: messages, requests and responses of language models.
use Prim.Native.String.{◌++◌ as str_append}
use bunshin_go.Common.{
  String, ℕ, List, [], ◌∷◌, Map, Option, none, some, lookup, insert, Bool, ◌&&◌, ◌||◌,
  if◌then◌else◌, str_eq, is_some, not,
}
use bunshin_go.Core.Errors.{Error, errorf}
use bunshin_go.Core.Value.{Value}

-- `Role`.
abbrev pub role_assistant : String
role_assistant = "assistant"

abbrev pub role_system : String
role_system = "system"

abbrev pub role_tool : String
role_tool = "tool"

abbrev pub role_user : String
role_user = "user"

-- `ContentPartType`.
abbrev pub part_text : String
part_text = "text"

abbrev pub part_image : String
part_image = "image"

abbrev pub part_audio : String
part_audio = "audio"

abbrev pub part_video : String
part_video = "video"

abbrev pub part_document : String
part_document = "document"

abbrev pub part_tool_call : String
part_tool_call = "tool_call"

abbrev pub part_tool_result : String
part_tool_result = "tool_result"

-- `MediaRef`; a reader of bytes is named by an identity.
pub record MediaRef : Type 0 where
  pub url : String
  pub data_reader : Option ℕ
  pub size : ℕ
  pub mime_type : String

-- `ToolCall`.
pub record ToolCall : Type 0 where
  pub id : String
  pub name : String
  pub arguments : String

-- `ToolResult`.
pub record ToolResult : Type 0 where
  pub tool_call_id : String
  pub content : String

-- `ContentPart`.
pub record ContentPart : Type 0 where
  pub kind : String
  pub text : String
  pub media : Option MediaRef
  pub tool_call : Option ToolCall
  pub tool_result : Option ToolResult

-- `Message`; a message in a provider's own format is any value.
pub record Message : Type 0 where
  pub role : String
  pub parts : List ContentPart
  pub native : Option (Map Value)

-- `ToolDefinition`.
pub record ToolDefinition : Type 0 where
  pub name : String
  pub description : String
  pub parameters : Option (Map Value)

-- `TokenUsage`. An `int` of a request or of a response is the number of its 64 bits here.
pub record TokenUsage : Type 0 where
  pub prompt_tokens : ℕ
  pub completion_tokens : ℕ
  pub total_tokens : ℕ
  pub cached_tokens : ℕ

-- The zero value of `TokenUsage`.
abbrev pub no_usage : TokenUsage
no_usage = record { prompt_tokens = 0; completion_tokens = 0; total_tokens = 0; cached_tokens = 0 }

-- `Request`; a float64 is its 64 bits.
pub record Request : Type 0 where
  pub messages : List Message
  pub temperature : Option ℕ
  pub max_tokens : Option ℕ
  pub tools : List ToolDefinition
  pub stream : Bool

-- `Response`.
pub record Response : Type 0 where
  pub content : String
  pub tool_calls : List ToolCall
  pub usage : TokenUsage
  pub model : String

-- `Chunk`.
pub record Chunk : Type 0 where
  pub delta : String
  pub tool_call_delta : Option ToolCall
  pub done : Bool
  pub err : Option Error
  pub usage : Option TokenUsage

-- `NewTextPart`.
unfoldable pub new_text_part : String → ContentPart
new_text_part text = record {
  kind = part_text;
  text = text;
  media = none;
  tool_call = none;
  tool_result = none;
}

-- `NewImageURLPart`.
unfoldable pub new_image_url_part : String → ContentPart
new_image_url_part url = record {
  kind = part_image;
  text = "";
  media = some (record { url = url; data_reader = none; size = 0; mime_type = "" });
  tool_call = none;
  tool_result = none;
}

-- `NewBinaryPart`.
unfoldable pub new_binary_part : String → Option ℕ → ℕ → String → ContentPart
new_binary_part kind reader size mime_type = record {
  kind = kind;
  text = "";
  media = some (record { url = ""; data_reader = reader; size = size; mime_type = mime_type });
  tool_call = none;
  tool_result = none;
}

-- `NewTextMessage`.
unfoldable pub new_text_message : String → String → Message
new_text_message role text = record {
  role = role;
  parts = new_text_part text ∷ [];
  native = some [];
}

-- The loop of `Text`, from the text so far.
unfoldable pub text_from : String → List ContentPart → String
text_from out [] = out
text_from out (p ∷ ps) =
    text_from (if str_eq p.kind part_text then str_append out p.text else out) ps

-- `Text`.
unfoldable pub message_text : Message → String
message_text m = text_from "" m.parts

-- `CacheNative`.
unfoldable pub cache_native : String → Value → Message → Message
cache_native id v m = record m {
  native = some (insert id v (elim m.native [ none ↦ [] | some cached ↦ cached ]));
}

-- `Native`.
unfoldable pub native_of : String → Message → Option Value
native_of id m = elim m.native [ none ↦ none | some cached ↦ lookup id cached ]

abbrev is_media : String → Bool
is_media kind =
    str_eq kind part_image
    || (str_eq kind part_audio || (str_eq kind part_video || str_eq kind part_document))

-- The case of `Validate` for media.
unfoldable pub validate_media : String → Option MediaRef → Option Error
validate_media kind none = some (errorf "llm: %s part has nil Media" (kind ∷ []))
validate_media kind (some m) =
    if str_eq m.url "" && not (is_some m.data_reader)
    then some (errorf "llm: %s part Media has neither URL nor Data" (kind ∷ []))
    else if not (str_eq m.url "") && is_some m.data_reader
    then some (errorf "llm: %s part Media has both URL and Data set" (kind ∷ []))
    else if is_some m.data_reader && str_eq m.mime_type ""
    then some (errorf "llm: %s part Media.Data requires MimeType" (kind ∷ []))
    else none

-- `Validate`.
unfoldable pub validate : ContentPart → Option Error
validate p =
    if str_eq p.kind part_text
    then (if str_eq p.text "" then some (errorf "llm: text part has empty Text" []) else none)
    else if is_media p.kind
    then validate_media p.kind p.media
    else if str_eq p.kind part_tool_call
    then elim p.tool_call [
      | none ↦ some (errorf "llm: tool_call part has nil ToolCall" [])
      | some c ↦
          if str_eq c.id "" || str_eq c.name ""
          then some (errorf "llm: tool_call part requires non-empty ID and Name" [])
          else none
    ]
    else if str_eq p.kind part_tool_result
    then elim p.tool_result [
      | none ↦ some (errorf "llm: tool_result part has nil ToolResult" [])
      | some r ↦
          if str_eq r.tool_call_id ""
          then some (errorf "llm: tool_result part requires non-empty ToolCallID" [])
          else none
    ]
    else none
