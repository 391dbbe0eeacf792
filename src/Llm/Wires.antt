-- ===== src/Llm/Wires.antt =====
-- pkg/llm: the messages that the vendors put on the wire, against what `NativeMessages` returns.
use Prim.Native.String.{◌++◌ as str_append}
use mathlib.Core.List.{append_assoc, append-nil}
use bunshin_go.Common.{
  String, List, [], ◌∷◌, ◌++◌, Option, none, some, true, false, ◌≡◌, refl, sym, ap, ◌∙◌,
  if◌then◌else◌, str_eq, Bool,
}
use bunshin_go.Llm.Messages.{Message, Request, message_text, role_system}
use bunshin_go.Llm.Http.{Vendor}
use bunshin_go.Llm.Openai
use bunshin_go.Llm.Anthropic
use bunshin_go.Llm.Google
use bunshin_go.Llm.Azure
use bunshin_go.Llm.Google.{WireContent, add_part, joined_parts}

-- The texts of the system messages, in order.
unfoldable pub system_texts : List Message → List String
system_texts [] = []
system_texts (m ∷ ms) =
    let rest = system_texts ms in if str_eq m.role role_system then message_text m ∷ rest else rest

-- The instruction of Google for some texts of system messages.
abbrev pub instruction : List String → Option WireContent
instruction [] = none
instruction (text ∷ texts) = some (record { role = ""; parts = text ∷ texts })

anthropic_split :
    (system : String) (out : List Anthropic.WireMessageItem) (ms : List Message)
    → Anthropic.split_messages system out ms
      ≡ (joined_parts system (system_texts ms), out ++ Anthropic.native_messages ms)
unfolding Anthropic.split_messages Anthropic.native_messages joined_parts system_texts
anthropic_split system out [] = ap (λ l. (system, l)) (sym (append-nil out))
anthropic_split system out (m ∷ ms) =
    elim (str_eq m.role role_system)
      as (λ b.
        (elim b as (λ _. String × List Anthropic.WireMessageItem) [
          | true ↦ Anthropic.split_messages (str_append system (message_text m)) out ms
          | false ↦ Anthropic.split_messages system (out ++ (Anthropic.wire_item m ∷ [])) ms
        ])
        ≡ (
          joined_parts system (if b then message_text m ∷ system_texts ms else system_texts ms),
          out
              ++ (if b
                  then Anthropic.native_messages ms
                  else Anthropic.wire_item m ∷ Anthropic.native_messages ms),
        )) [
          | true ↦ anthropic_split (str_append system (message_text m)) out ms
          | false ↦
              anthropic_split system (out ++ (Anthropic.wire_item m ∷ [])) ms
              ∙ ap (λ l. (joined_parts system (system_texts ms), l))
                  (append_assoc out (Anthropic.wire_item m ∷ []) (Anthropic.native_messages ms))
        ]

add_instruction :
    (texts : List String) (text : String)
    → some (add_part (instruction texts) text) ≡ instruction (texts ++ (text ∷ []))
add_instruction [] text = refl
add_instruction (t ∷ texts) text = refl

google_split :
    (texts : List String) (out : List WireContent) (ms : List Message)
    → Google.split_messages (instruction texts) out ms
      ≡ (instruction (texts ++ system_texts ms), out ++ Google.native_messages ms)
unfolding Google.split_messages Google.native_messages system_texts
google_split texts out [] =
    ap (λ l. (instruction l, out)) (sym (append-nil texts))
    ∙ ap (λ l. (instruction (texts ++ []), l)) (sym (append-nil out))
google_split texts out (m ∷ ms) =
    elim (str_eq m.role role_system)
      as (λ b.
        (elim b as (λ _. Option WireContent × List WireContent) [
          | true ↦
              Google.split_messages (some (add_part (instruction texts) (message_text m))) out ms
          | false ↦
              Google.split_messages (instruction texts) (out ++ (Google.wire_content m ∷ [])) ms
        ])
        ≡ (
          instruction (texts ++ (if b then message_text m ∷ system_texts ms else system_texts ms)),
          out
              ++ (if b
                  then Google.native_messages ms
                  else Google.wire_content m ∷ Google.native_messages ms),
        )) [
          | true ↦
              ap (λ i. Google.split_messages i out ms) (add_instruction texts (message_text m))
              ∙ google_split (texts ++ (message_text m ∷ [])) out ms
              ∙ ap (λ l. (instruction l, out ++ Google.native_messages ms))
                  (append_assoc texts (message_text m ∷ []) (system_texts ms))
          | false ↦
              google_split texts (out ++ (Google.wire_content m ∷ [])) ms
              ∙ ap (λ l. (instruction (texts ++ system_texts ms), l))
                  (append_assoc out (Google.wire_content m ∷ []) (Google.native_messages ms))
        ]

openai_native : (ms : List Message) → Openai.wire_messages ms ≡ Openai.native_messages ms
unfolding Openai.wire_messages Openai.native_messages
openai_native [] = refl
openai_native (m ∷ ms) = ap (◌∷◌ (Openai.wire_message m)) (openai_native ms)

azure_native : (ms : List Message) → Openai.wire_messages ms ≡ Azure.native_messages ms
unfolding Openai.wire_messages Azure.native_messages
azure_native [] = refl
azure_native (m ∷ ms) = ap (◌∷◌ (Openai.wire_message m)) (azure_native ms)

-- The messages of the request that each vendor sends are those that its `NativeMessages` returns.
-- Anthropic and Google take the system messages out of them and send their texts apart, in order:
-- Anthropic as one text, Google as the parts of an instruction, which is absent if there are none.
pub native_messages-Sent :
    (p : Vendor) (azure : Azure.AzureProvider) (req : Request) (stream : Bool)
    → ((Openai.build_wire_request p req stream).messages ≡ Openai.native_messages req.messages)
      × (((Azure.build_wire_request azure req stream).messages ≡ Azure.native_messages req.messages)
          × ((((Anthropic.build_wire_request p req stream).messages
                  ≡ Anthropic.native_messages req.messages)
                × ((Anthropic.build_wire_request p req stream).system
                    ≡ joined_parts "" (system_texts req.messages)))
              × (((Google.build_wire_request p req).contents ≡ Google.native_messages req.messages)
                  × ((Google.build_wire_request p req).system_instruction
                      ≡ instruction (system_texts req.messages)))))
unfolding Openai.build_wire_request Azure.build_wire_request Anthropic.build_wire_request
    Google.build_wire_request
native_messages-Sent p azure req stream = (
  openai_native req.messages,
  (
    azure_native req.messages,
    (
      (
        ap (λ q. q.1) (anthropic_split "" [] req.messages),
        ap (λ q. q.0) (anthropic_split "" [] req.messages),
      ),
      (
        ap (λ q. q.1) (google_split [] [] req.messages),
        ap (λ q. q.0) (google_split [] [] req.messages),
      ),
    ),
  ),
)
