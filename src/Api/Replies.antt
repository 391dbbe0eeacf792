-- ===== src/Api/Replies.antt =====
-- pkg/api/handlers.go: what the handlers write as their answer.
use bunshin_go.Common.{String, ℕ}
use bunshin_go.Core.Errors.{Error}

-- The body of an answer: nothing, a text of `http.Error`, which is fixed, that of an error or the
-- text in front of that of an error, or what the JSON encoder writes for a value.
pub data Payload (J : Type 0) : Type 0 where
  nothing : Payload J
  message : String → Payload J
  failure : Error → Payload J
  prefixed : String → Error → Payload J
  json : J → Payload J

-- An answer: the status, the content type and the body. `aborted` is the answer to a handler that
-- panics, for which the server closes the connection.
pub data Reply (J : Type 0) : Type 0 where
  answer : ℕ → String → Payload J → Reply J
  aborted : Reply J

abbrev pub plain_text : String
plain_text = "text/plain; charset=utf-8"

abbrev pub application_json : String
application_json = "application/json"

module _ {J : Type 0} where
  -- `http.Error` with a fixed text, and with the text of an error.
  abbrev pub http_error : String → ℕ → Reply J
  http_error text status = answer status plain_text (message text)

  abbrev pub http_failure : Error → ℕ → Reply J
  http_failure e status = answer status plain_text (failure e)

  -- A value with status 200, and an answer without a body.
  abbrev pub encoded : J → Reply J
  encoded value = answer 200 application_json (json value)

  abbrev pub bare : ℕ → Reply J
  bare status = answer status "" nothing
