-- ===== src/Llm/Streams.antt =====
-- pkg/llm: what the readers of server-sent events send on their channels.
use mathlib.Core.List.{append_assoc}
use bunshin_go.Common.{
  String, List, [], ◌∷◌, ◌++◌, All, Option, none, some, Bool, true, false, ◌≡◌, refl, sym, ap, ◌∙◌,
  if◌then◌else◌, str_eq,
}
use bunshin_go.Core.Errors.{Error}
use bunshin_go.Llm.Messages.{Chunk, TokenUsage}
use bunshin_go.Llm.Openai.{
  Line, skipped, stopped, event, WireStreamChunk, chunk_of, last_chunk, end_of_stream,
}
use bunshin_go.Llm.Openai
use bunshin_go.Llm.Anthropic.{WireStreamEvent, Block, chunks_of, text_chunk}
use bunshin_go.Llm.Anthropic
use bunshin_go.Llm.Google.{WireResponse, WireContent, candidate_chunks, joined_parts}
use bunshin_go.Llm.Google

-- A chunk that is not the last.
abbrev pub IsOpen : Chunk → Type 0
IsOpen c = (c.done ≡ false) × (c.err ≡ none)

-- A stream that ends with its only chunk that is done; no other chunk carries an error.
pub record Closed (chunks : List Chunk) : Type 0 where
  pub before : List Chunk
  pub last : Chunk
  pub whole : chunks ≡ before ++ (last ∷ [])
  pub all_open : All IsOpen before
  pub ended : last.done ≡ true

closed_at_once : (c : Chunk) → c.done ≡ true → Closed (c ∷ [])
closed_at_once c h = record { before = []; last = c; whole = refl; all_open = tt; ended = h }

closed_after : (cs rest : List Chunk) → All IsOpen cs → Closed rest → Closed (cs ++ rest)
closed_after cs rest opens closed = record {
  before = cs ++ closed.before;
  last = closed.last;
  whole = ap (◌++◌ cs) closed.whole ∙ sym (append_assoc cs closed.before (closed.last ∷ []));
  all_open = both cs closed.before opens closed.all_open;
  ended = closed.ended;
}
  where
    both : (xs ys : List Chunk) → All IsOpen xs → All IsOpen ys → All IsOpen (xs ++ ys)
    both [] ys h k = k
    both (x ∷ xs) ys (h, hs) k = (h, both xs ys hs k)

end_of_stream-Closed :
    (vendor : String) (failure : Option Error) (usage : Option TokenUsage)
    → Closed (end_of_stream vendor failure usage ∷ [])
end_of_stream-Closed vendor none usage = closed_at_once _ refl
end_of_stream-Closed vendor (some e) usage = closed_at_once _ refl

openai-Closed :
    (unmarshal : String → Option WireStreamChunk) (vendor : String) (lines : List String)
    (failure : Option Error)
    → Closed (Openai.read_sse_stream unmarshal vendor lines failure)
unfolding Openai.read_sse_stream chunk_of
openai-Closed unmarshal vendor [] failure = end_of_stream-Closed vendor failure none
openai-Closed unmarshal vendor (line ∷ lines) failure =
    go (Openai.read_line unmarshal line) _ (openai-Closed unmarshal vendor lines failure)
  where
    go :
        (l : Line WireStreamChunk) (rest : List Chunk)
        → Closed rest
        → Closed (elim l as (λ _. List Chunk) [
          | skipped ↦ rest
          | stopped ↦ last_chunk none none ∷ []
          | event c ↦ chunk_of c ∷ rest
        ])
    go skipped rest h = h
    go stopped rest h = closed_at_once _ refl
    go (event c) rest h = closed_after (chunk_of c ∷ []) rest ((refl, refl), tt) h

chunks_of-All : (e : WireStreamEvent) → All IsOpen (chunks_of e)
unfolding chunks_of
chunks_of-All e = go (str_eq e.kind "content_block_delta") e.delta
  where
    go :
        (b : Bool) (delta : Option Block)
        → All IsOpen (
            if b
            then elim delta as (λ _. List Chunk) [
              | none ↦ []
              | some d ↦ if str_eq d.kind "text_delta" then text_chunk d.text ∷ [] else []
            ]
            else [])
    go false delta = tt
    go true none = tt
    go true (some d) =
        elim (str_eq d.kind "text_delta")
          as (λ b. All IsOpen (if b then text_chunk d.text ∷ [] else [])) [
            | true ↦ ((refl, refl), tt)
            | false ↦ tt
          ]

anthropic-Closed :
    (unmarshal : String → Option WireStreamEvent) (usage : Option TokenUsage) (lines : List String)
    (failure : Option Error)
    → Closed (Anthropic.read_sse_stream unmarshal usage lines failure)
unfolding Anthropic.read_sse_stream
anthropic-Closed unmarshal usage [] failure = end_of_stream-Closed "anthropic" failure usage
anthropic-Closed unmarshal usage (line ∷ lines) failure =
    go (Anthropic.read_line unmarshal line) (λ u. anthropic-Closed unmarshal u lines failure)
  where
    go :
        (l : Line WireStreamEvent)
        → ((u : Option TokenUsage) → Closed (Anthropic.read_sse_stream unmarshal u lines failure))
        → Closed (elim l as (λ _. List Chunk) [
          | skipped ↦ Anthropic.read_sse_stream unmarshal usage lines failure
          | stopped ↦ last_chunk none usage ∷ []
          | event e ↦
              chunks_of e
              ++ Anthropic.read_sse_stream unmarshal (Anthropic.usage_after e usage) lines failure
        ])
    go skipped h = h usage
    go stopped h = closed_at_once _ refl
    go (event e) h = closed_after (chunks_of e) _ (chunks_of-All e) (h _)

candidate_chunks-All : (cs : List WireContent) → All IsOpen (candidate_chunks cs)
unfolding candidate_chunks
candidate_chunks-All [] = tt
candidate_chunks-All (c ∷ cs) =
    elim (str_eq (joined_parts "" c.parts) "")
      as (λ b. All IsOpen (
        if b
        then candidate_chunks cs
        else text_chunk (joined_parts "" c.parts) ∷ candidate_chunks cs)) [
          | true ↦ candidate_chunks-All cs
          | false ↦ ((refl, refl), candidate_chunks-All cs)
        ]

google-Closed :
    (unmarshal : String → Option WireResponse) (usage : Option TokenUsage) (lines : List String)
    (failure : Option Error)
    → Closed (Google.read_sse_stream unmarshal usage lines failure)
unfolding Google.read_sse_stream
google-Closed unmarshal usage [] failure = end_of_stream-Closed "google" failure usage
google-Closed unmarshal usage (line ∷ lines) failure =
    go (Google.read_line unmarshal line) (λ u. google-Closed unmarshal u lines failure)
  where
    go :
        (l : Line WireResponse)
        → ((u : Option TokenUsage) → Closed (Google.read_sse_stream unmarshal u lines failure))
        → Closed (elim l as (λ _. List Chunk) [
          | skipped ↦ Google.read_sse_stream unmarshal usage lines failure
          | stopped ↦ end_of_stream "google" failure usage ∷ []
          | event r ↦
              candidate_chunks r.candidates
              ++ Google.read_sse_stream unmarshal
                  (Google.usage_after r.usage_metadata usage)
                  lines
                  failure
        ])
    go skipped h = h usage
    go stopped h = end_of_stream-Closed "google" failure usage
    go (event r) h = closed_after _ _ (candidate_chunks-All r.candidates) (h _)

-- Whatever lines the scanner yields, whatever they decode to and whether it fails, the goroutine of
-- `StreamComplete` of each vendor ends after it has sent exactly one chunk that is done, as its last;
-- no chunk before it carries an error.
pub streams-Closed :
    (lines : List String) (failure : Option Error)
    → ((unmarshal : String → Option WireStreamChunk) (vendor : String)
        → Closed (Openai.read_sse_stream unmarshal vendor lines failure))
      × (((unmarshal : String → Option WireStreamEvent)
            → Closed (Anthropic.read_sse_stream unmarshal none lines failure))
          × ((unmarshal : String → Option WireResponse)
              → Closed (Google.read_sse_stream unmarshal none lines failure)))
streams-Closed lines failure = (
  λ unmarshal vendor. openai-Closed unmarshal vendor lines failure,
  (
    λ unmarshal. anthropic-Closed unmarshal none lines failure,
    λ unmarshal. google-Closed unmarshal none lines failure,
  ),
)
