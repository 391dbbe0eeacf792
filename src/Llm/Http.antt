-- ===== src/Llm/Http.antt =====
-- The exchange over HTTP that pkg/llm/openai.go, anthropic.go, google.go and azure_openai.go write in
-- the same way, each with its own name in front of the errors.
use Prim.Native.String.{◌++◌ as str_append}
use bunshin_go.Common.{
  String, ℕ, List, [], ◌∷◌, Map, Option, none, some, lookup, if◌then◌else◌, str_eq, ◌==◌, leb,
}
use bunshin_go.Core.Errors.{Error, errorf, wrapf, Result, ok, err}
use bunshin_go.Llm.Messages.{Response, Chunk}

-- `http.Request`; the body is nil for a ping.
pub record HttpRequest : Type 0 where
  pub method : String
  pub url : String
  pub headers : Map String
  pub body : Option String

-- `http.Response`.
pub record HttpResponse (Body : Type 0) : Type 0 where
  pub status_code : ℕ
  pub status : String
  pub body : Body

-- What Go's packages do: `json.Marshal`, the check of a method and a URL in `http.NewRequest`,
-- `Client.Do`, `io.ReadAll`, `json.Decoder.Decode`, the lines and the error of a `bufio.Scanner`,
-- `json.Unmarshal` of a line, `Body.Close`, and the text of an error.
pub record Transport (Wire Reply Event Body W : Type 0) : Type 0 where
  pub marshal : Wire → Result String
  pub new_request : String → String → Option Error
  pub send : HttpRequest → W → W × Result (HttpResponse Body)
  pub read_all : Body → Result String
  pub decode : Body → Result Reply
  pub scan : Body → List String × Option Error
  pub unmarshal : String → Option Event
  pub close : Body → W → W
  pub error_text : Error → String

-- The configuration of a vendor; an `int` is its 64 bits.
pub record VendorConfig : Type 0 where
  pub api_key : String
  pub model : String
  pub tier : String
  pub max_tokens : ℕ
  pub base_url : String
  pub http_timeout : ℕ

-- A provider of a vendor, with the timeout of its client.
pub record Vendor : Type 0 where
  pub cfg : VendorConfig
  pub model : String
  pub timeout : ℕ

abbrev pub tier_fast : String
tier_fast = "fast"

abbrev pub tier_smart : String
tier_smart = "smart"

abbrev pub tier_reasoning : String
tier_reasoning = "reasoning"

-- An int that is 0 takes a default, a text that is empty another one.
abbrev pub or_int : ℕ → ℕ → ℕ
or_int default n = if n == 0 then default else n

abbrev pub or_text : String → String → String
or_text default s = if str_eq s "" then default else s

-- The value of a key in a map of texts, "" for a missing key.
unfoldable pub text_at : String → Map String → String
text_at k m = elim (lookup k m) [ none ↦ "" | some s ↦ s ]

-- The choice of a model; a tier that is not in the map is the fast one.
unfoldable pub model_for : Map String → VendorConfig → String
model_for tier_models cfg =
    if str_eq cfg.model ""
    then elim (lookup cfg.tier tier_models) [ some m ↦ m | none ↦ text_at tier_fast tier_models ]
    else cfg.model

-- The constructor of a vendor.
unfoldable pub configured : String → String → Map String → VendorConfig → Result Vendor
configured vendor base_url tier_models cfg =
    if str_eq cfg.api_key ""
    then err (errorf (str_append vendor ": APIKey is required") [])
    else ok (record {
      cfg = record cfg {
        max_tokens = or_int 1024 cfg.max_tokens;
        base_url = or_text base_url cfg.base_url;
      };
      model = model_for tier_models cfg;
      timeout = or_int 30000000000 cfg.http_timeout;
    })

module _ {Wire Reply Event Body W : Type 0} (t : Transport Wire Reply Event Body W) where
  -- The detail of an error status.
  unfoldable pub detail_of : Result String → String
  detail_of (ok body) = body
  detail_of (err e) = str_append "<failed to read error body: " (str_append (t.error_text e) ">")

  -- `checkStatus`.
  unfoldable pub status_error : String → HttpResponse Body → Option Error
  status_error vendor resp =
      let detail = detail_of (t.read_all resp.body) in
      if resp.status_code == 200
      then none
      else if resp.status_code == 401
      then some (errorf (str_append vendor ": authentication failed: %s") (detail ∷ []))
      else if resp.status_code == 429
      then some (errorf (str_append vendor ": rate limit exceeded: %s") (detail ∷ []))
      else if leb 500 resp.status_code
      then some (errorf (str_append vendor ": server error %s: %s") (resp.status ∷ detail ∷ []))
      else some (errorf (str_append vendor ": request failed (%s): %s") (resp.status ∷ detail ∷ []))

  -- What follows the answer of the client; a body with an error status is closed.
  unfoldable pub checked :
      String → String → W × Result (HttpResponse Body) → W × Result (HttpResponse Body)
  checked vendor doing (w, err e) = (w, err (wrapf (str_append vendor doing) [] e))
  checked vendor doing (w, ok resp) = elim (status_error vendor resp) [
    | some e ↦ (t.close resp.body w, err e)
    | none ↦ (w, ok resp)
  ]

  -- A request that is built and sent.
  unfoldable pub sent : String → String → String → HttpRequest → W → W × Result (HttpResponse Body)
  sent vendor building doing request w = elim (t.new_request request.method request.url) [
    | some e ↦ (w, err (wrapf (str_append vendor building) [] e))
    | none ↦ checked vendor doing (t.send request w)
  ]

  -- The part that `Complete` and `StreamComplete` share; `request` makes the request from its body.
  unfoldable pub posted :
      String → Wire → (String → HttpRequest) → W → W × Result (HttpResponse Body)
  posted vendor wire request w = elim (t.marshal wire) [
    | err e ↦ (w, err (wrapf (str_append vendor ": marshal request: %w") [] e))
    | ok body ↦ sent vendor ": build request: %w" ": http: %w" (request body) w
  ]

  -- The end of `Complete`.
  unfoldable pub decoded :
      String → (Reply → Response) → W × Result (HttpResponse Body) → W × Result Response
  decoded vendor response (w, err e) = (w, err e)
  decoded vendor response (w, ok resp) = (
    t.close resp.body w,
    elim (t.decode resp.body) [
      | err e ↦ err (wrapf (str_append vendor ": decode response: %w") [] e)
      | ok reply ↦ ok (response reply)
    ],
  )

  -- The end of `StreamComplete`, with the goroutine run to its end: what it sends on the channel.
  unfoldable pub streamed :
      (List String → Option Error → List Chunk)
      → W × Result (HttpResponse Body)
      → W × Result (List Chunk)
  streamed read (w, err e) = (w, err e)
  streamed read (w, ok resp) =
      let (lines, failure) = t.scan resp.body in (t.close resp.body w, ok (read lines failure))

  -- The end of `Ping`.
  unfoldable pub pinged : W × Result (HttpResponse Body) → W × Option Error
  pinged (w, err e) = (w, some e)
  pinged (w, ok resp) = (t.close resp.body w, none)
