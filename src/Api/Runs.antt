-- ===== src/Api/Runs.antt =====
-- pkg/api/handlers.go: the handlers that run workflows and that show threads.
use Prim.Native.String.{◌++◌ as str_append}
use bunshin_go.Common.{
  String, List, [], ◌∷◌, map, Map, Option, none, some, lookup, Bool, true, false, str_eq,
}
use bunshin_go.Core.Errors.{Error, Result, ok, err}
use bunshin_go.Middleware.Runnables.{Pair, Runnable}
use bunshin_go.Llm.Messages.{ContentPart, Message, new_text_message, role_user, role_assistant}
use bunshin_go.Api.Replies.{Reply, http_error, http_failure, encoded}

-- `memory.MessageStore` and `memory.ThreadRegistry`, with the calls of the handlers; a store is named
-- by a value of `S`.
pub record ThreadRegistry (S W : Type 0) : Type 0 where
  pub list : W → W × Result (List String)
  pub get_or_create : String → W → W × Result S
  pub append : S → Message → W → W × Option Error
  pub window_all : S → W → W × Result (List Message)

-- `encoding/json` at the raw values `J` of a body and at the values `A` of a run, and `%v` of parts.
pub record Json (Raw J A : Type 0) : Type 0 where
  pub object : Raw → Result (Map J)
  pub value : Raw → Result A
  pub at_end : Error → Bool
  pub zero_value : A
  pub as_text : J → Result String
  pub as_value : J → Result A
  pub of_map : Map A → A
  pub marshal : A → String
  pub sprint_parts : List ContentPart → String

-- What the handlers encode.
pub data Shown (A : Type 0) : Type 0 where
  threads : List String → Shown A
  messages : List (String × String) → Shown A
  output : String → A → Shown A

-- `messageText`.
unfoldable pub message_text :
    (List ContentPart → String) → List ContentPart → List ContentPart → String
message_text sprint all [] = sprint all
message_text sprint all (p ∷ ps) = elim (str_eq p.text "") [
  | true ↦ message_text sprint all ps
  | false ↦ p.text
]

module _ {Raw J A S W Ctx Ch : Type 0} (json : Json Raw J A)
    (handler : String → Result (Runnable Ctx W A Ch)) (registry : Option (ThreadRegistry S W)) where
  -- A raw value that does not decode leaves the zero value.
  abbrev pub or_zero : {B : Type 0} → B → Result B → B
  or_zero zero (ok b) = b
  or_zero zero (err e) = zero

  abbrev pub thread_of : Map J → String
  thread_of raw = elim (lookup "thread_id" raw) [ none ↦ "" | some j ↦ or_zero "" (json.as_text j) ]

  -- The input: the field, or the whole body when it is missing.
  unfoldable pub input_of : Map J → A
  input_of raw = elim (lookup "input" raw) [
    | some j ↦ or_zero json.zero_value (json.as_value j)
    | none ↦ json.of_map (map (λ e. (e.0, or_zero json.zero_value (json.as_value e.1))) raw)
  ]

  -- The two messages that a run adds to its thread; the errors are dropped.
  unfoldable pub record_run : ThreadRegistry S W → String → A → A → W → W
  record_run reg thread input out w =
      let (w1, found) = reg.get_or_create thread w in
      elim found [
        | err e ↦ w1
        | ok store ↦
            let (w2, _) = reg.append store (new_text_message role_user (json.marshal input)) w1 in
            (reg.append store (new_text_message role_assistant (json.marshal out)) w2).0
      ]

  -- The part of `handleWorkflowInvoke` after the run.
  unfoldable pub finished : String → A → W × Pair A → W × Reply (Shown A)
  finished thread input (w, (out, some e)) = (w, http_failure e 500)
  finished thread input (w, (out, none)) =
      let result = elim out as (λ _. A) [ none ↦ json.zero_value | some a ↦ a ] in
      (
        elim registry [
          | none ↦ w
          | some reg ↦ elim (str_eq thread "") [
            | true ↦ w
            | false ↦ record_run reg thread input result w
          ]
        ],
        encoded (output thread result),
      )

  -- `handleWorkflowInvoke`.
  unfoldable pub handle_invoke : Ctx → String → Raw → W → W × Reply (Shown A)
  handle_invoke ctx name body w = elim (str_eq name "") [
    | true ↦ (w, http_error "missing workflow name" 400)
    | false ↦ elim (handler name) [
      | err e ↦ (w, http_error "workflow not found" 404)
      | ok runnable ↦ elim (json.object body) [
        | err e ↦ (w, http_error "invalid JSON body" 400)
        | ok raw ↦ finished (thread_of raw) (input_of raw) (runnable.invoke ctx (input_of raw) w)
      ]
    ]
  ]

  -- `handleListThreads`.
  unfoldable pub handle_list_threads : W → W × Reply (Shown A)
  handle_list_threads w = elim registry [
    | none ↦ (w, encoded (threads []))
    | some reg ↦
        let (w', out) = reg.list w in
        (w', elim out [ err e ↦ http_failure e 500 | ok ids ↦ encoded (threads ids) ])
  ]

  -- The part of `handleGetThreadMessages` with the store of the thread.
  unfoldable pub show_messages : ThreadRegistry S W → S → W → W × Reply (Shown A)
  show_messages reg store w =
      let (w', out) = reg.window_all store w in
      (
        w',
        elim out [
          | err e ↦ http_failure e 500
          | ok ms ↦
              encoded
                (messages (map (λ m. (m.role, message_text json.sprint_parts m.parts m.parts)) ms))
        ],
      )

  -- `handleGetThreadMessages`.
  unfoldable pub handle_thread_messages : String → W → W × Reply (Shown A)
  handle_thread_messages thread w = elim registry [
    | none ↦ (w, encoded (messages []))
    | some reg ↦ elim (str_eq thread "") [
      | true ↦ (w, encoded (messages []))
      | false ↦
          let (w', out) = reg.get_or_create thread w in
          elim out [ err e ↦ (w', http_failure e 500) | ok store ↦ show_messages reg store w' ]
    ]
  ]

-- The loop of `handleWorkflowStream` over the chunks: what it writes after what it wrote before.
-- `encode` is the JSON text of a chunk, after which the encoder writes one end of line; a chunk that
-- cannot be encoded writes nothing after its prefix.
unfoldable pub write_chunks : {C : Type 0} → (C → Option String) → List C → String → String
write_chunks encode [] out = out
write_chunks encode (c ∷ cs) out = write_chunks encode cs (
    str_append (str_append out "data: ")
      (elim (encode c) as (λ _. String) [ none ↦ "" | some text ↦ str_append text "\n" ]))

-- The body that `handleWorkflowStream` writes for the chunks of a channel.
unfoldable pub stream_body : {C : Type 0} → (C → Option String) → List C → String
stream_body encode cs = str_append (write_chunks encode cs "") "data: {\"type\":\"done\"}\n\n"

-- What `handleWorkflowStream` answers: an error, or a body of events.
pub data Streamed : Type 0 where
  refused : Reply String → Streamed
  events : String → Streamed

module _ {Raw J A W Ctx Ch C : Type 0} (json : Json Raw J A)
    (handler : String → Result (Runnable Ctx W A Ch)) (drain : Option Ch → W → W × List C)
    (encode : C → Option String) where
  -- The part of `handleWorkflowStream` after the call of the runnable; `drain` reads a channel to its
  -- end.
  unfoldable pub streamed : W × Pair Ch → W × Streamed
  streamed (w, (ch, some e)) = (w, refused (http_failure e 500))
  streamed (w, (ch, none)) = let (w', cs) = drain ch w in (w', events (stream_body encode cs))

  -- `handleWorkflowStream`; a body that is empty is no error.
  unfoldable pub handle_stream : Ctx → String → Raw → W → W × Streamed
  handle_stream ctx name body w = elim (str_eq name "") [
    | true ↦ (w, refused (http_error "missing workflow name" 400))
    | false ↦ elim (handler name) [
      | err e ↦ (w, refused (http_error "workflow not found" 404))
      | ok runnable ↦ elim (json.value body) [
        | ok input ↦ streamed (runnable.stream ctx input w)
        | err e ↦ elim (json.at_end e) [
          | true ↦ streamed (runnable.stream ctx json.zero_value w)
          | false ↦ (w, refused (http_error "invalid JSON body" 400))
        ]
      ]
    ]
  ]
