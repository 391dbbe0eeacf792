-- ===== src/Memory/Warming.antt =====
-- pkg/memory/store.go: `WindowFor`, the default count of tokens, and the registry of threads.
use Prim.Native.Nat.{◌/◌}
use Prim.Native.String.{len as byte_len}
use bunshin_go.Common.{
  String, ℕ, zero, suc, ◌-◌, List, [], ◌∷◌, ◌++◌, Map, Option, none, some, lookup, insert, keys,
  false, if◌then◌else◌, ◌==◌, length,
}
use bunshin_go.Core.Errors.{Error, Result, ok, err}
use bunshin_go.Core.Value.{ℤ, Value}
use bunshin_go.Llm.Messages.{Message, Request, message_text, native_of, cache_native}
use bunshin_go.Memory.Threads.{MemoryStore, new_memory_store, window}

-- `defaultTokenCount`.
unfoldable pub default_token_count : Message → ℕ
default_token_count msg =
    let n = byte_len (message_text msg) in if n == 0 then 1 else if n / 4 == 0 then 1 else n / 4

-- The calls of a provider that `WindowFor` makes.
pub record Translator : Type 0 where
  pub id : String
  pub native_messages : List Message → Result Value

-- A message as the store sees it once its copy has cached a native form: the map is shared unless it
-- was nil.
abbrev pub seen_by_store : String → Value → Message → Message
seen_by_store id v m = elim m.native [ none ↦ m | some cached ↦ cache_native id v m ]

-- What a loop over messages leaves: the copies, the messages of the store, and the error.
pub record Warmed : Type 0 where
  pub copies : List Message
  pub seen : List Message
  pub error : Option Error

abbrev pub one_more : Message → Message → Warmed → Warmed
one_more copy seen w = record w { copies = copy ∷ w.copies; seen = seen ∷ w.seen }

abbrev pub stopped : Error → List Message → Warmed
stopped e ms = record { copies = ms; seen = ms; error = some e }

-- The loop of `WindowFor`.
unfoldable pub warm : Translator → List Message → Warmed
warm p [] = record { copies = []; seen = []; error = none }
warm p (m ∷ ms) = elim (native_of p.id m) [
  | some v ↦ one_more m m (warm p ms)
  | none ↦ elim (p.native_messages (m ∷ [])) [
    | err e ↦ stopped e (m ∷ ms)
    | ok v ↦ one_more (cache_native p.id v m) (seen_by_store p.id v m) (warm p ms)
  ]
]

-- The messages in front of a window.
unfoldable pub take_messages : ℕ → List Message → List Message
take_messages zero ms = []
take_messages (suc n) [] = []
take_messages (suc n) (m ∷ ms) = m ∷ take_messages n ms

abbrev pub request_of : List Message → Request
request_of ms = record {
  messages = ms;
  temperature = none;
  max_tokens = none;
  tools = [];
  stream = false;
}

-- `WindowFor`, with what it leaves in the store.
unfoldable pub window_for :
    Translator → ℤ → MemoryStore Message → MemoryStore Message × Result Request
window_for p max_tokens s =
    let ms = window max_tokens s in
    let warmed = warm p ms in
    (
      record s {
        messages = take_messages (length s.messages - length ms) s.messages ++ warmed.seen;
      },
      elim warmed.error [ some e ↦ err e | none ↦ ok (request_of warmed.copies) ],
    )

-- `MemoryThreadRegistry`, with the stores behind it.
abbrev pub ThreadRegistry : Type 0
ThreadRegistry = Map (MemoryStore Message)

-- `List`.
unfoldable pub list_threads : ThreadRegistry → List String
list_threads r = keys r

-- `GetOrCreate`.
unfoldable pub get_or_create : String → ThreadRegistry → ThreadRegistry × MemoryStore Message
get_or_create thread r = elim (lookup thread r) [
  | some s ↦ (r, s)
  | none ↦ let s = new_memory_store default_token_count in (insert thread s r, s)
]
