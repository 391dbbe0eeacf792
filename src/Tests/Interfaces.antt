-- ===== src/Tests/Interfaces.antt =====
-- pkg/api, pkg/prompt/composer.go, pkg/checkpoint and pkg/memory: runs at concrete inputs.
use bunshin_go.Common.{
  ℕ, zero, suc, ◌+◌, ◌*◌, ◌==◌, true, false, String, List, [], ◌∷◌, lookup, none, some, some-inj,
  ◌≡◌, refl, sym, arith, ap,
}
use bunshin_go.Core.Errors.{Error, errorf, Result, ok, err}
use bunshin_go.Core.Attempt.{returns, fails}
use bunshin_go.Core.Value.{pos, string}
use bunshin_go.Llm.Messages.{Message, new_text_message, role_user}
use bunshin_go.Workflow.Spec.{Spec}
use bunshin_go.Store.Versioned.{Store}
use bunshin_go.Api.Workflows.{Bodies}
use bunshin_go.Prompt.Fragments.{Fragment, FragmentRef, PromptTemplate, validate, missing_variable}
use bunshin_go.Prompt.Composer.{
  TemplateEngine, PendingFetch, fetch, select, qualifies, render, joined, overlaid, render_all,
  join,
}
use bunshin_go.Prompt.Slots.{Failed, first_failure}
use bunshin_go.Prompt.Orders.{Covers, fetch_each, render_any_order}
use bunshin_go.Agent.State.{last_of}
use bunshin_go.Checkpoint.Stores.{Checkpoint, JournalEntry, new_threads, load, history}
use bunshin_go.Checkpoint.Threads.{
  Change, adds, ends, writes, checkpointed, log_after, heap_after, stores_refine_logs,
}
use bunshin_go.Vector.Stores.{Arithmetic, index}
use bunshin_go.Vector.Indexing.{index_overwrites}
use bunshin_go.Eval.{EvalRun, Floats, latency_within, report_all, scores_of}
use bunshin_go.Eval.Schedules.{OwnExample, report_all-Scored}
use bunshin_go.Memory.Threads.{MemoryStore}
use bunshin_go.Memory.Warming.{Translator, default_token_count, window_for}
use bunshin_go.Memory.Caches.{SameMessages, window_for-WarmedWell}

-- Bodies that are texts; a text parses to the definition of that name.
abbrev bodies : Bodies String
bodies = record { spec = λ body. ok body; version = λ body. ok body }

abbrev named : String → Spec
named name = record { name = name; description = ""; nodes = []; version = "v1"; status = "" }

-- An engine that leaves texts as they are.
abbrev verbatim : TemplateEngine
verbatim = record {
  render = λ text vars. ok text;
  render_lenient = λ text vars. ok text;
  trim_space = λ text. text;
}

abbrev fragment_at : String → Fragment
fragment_at slug = record {
  id = "";
  slug = slug;
  content = slug;
  variables = [];
  tags = [];
  version = "";
  status = "";
}

abbrev backend : String → Result Fragment
backend slug = ok (fragment_at slug)

abbrev ref_to : String → FragmentRef
ref_to slug = record { slug = slug; overrides = []; condition = "" }

abbrev greeting : PromptTemplate
greeting = record { fragments = ref_to "hello" ∷ ref_to "world" ∷ []; separator = " " }

abbrev awaited : String → PendingFetch
awaited slug = record { ref = ref_to slug; merged = [] }

chosen : select verbatim greeting.fragments [] ≡ ok (awaited "hello" ∷ awaited "world" ∷ [])
unfolding select qualifies overlaid
chosen = refl

-- The second fetch ends first.
covered : Covers (1 ∷ 0 ∷ []) (awaited "hello" ∷ awaited "world" ∷ [])
covered zero p h = refl
covered (suc zero) p h = refl
covered (suc (suc i)) p h = absurd cc

fetched :
    fetch_each backend (awaited "hello" ∷ awaited "world" ∷ [])
    ≡ some (
        record { frag = fragment_at "hello"; merged = []; ref_slug = "hello" }
        ∷ record { frag = fragment_at "world"; merged = []; ref_slug = "world" }
        ∷ [])
unfolding fetch validate missing_variable
fetched = refl

-- A backend without fragments.
abbrev empty_backend : String → Result Fragment
empty_backend slug = err (errorf "no fragment" (slug ∷ []))

unfetched : fetch_each empty_backend (awaited "hello" ∷ awaited "world" ∷ []) ≡ none
unfolding fetch
unfetched = refl

-- One render that succeeds, and one in which both fetches fail.
render_any_order_example :
    (render verbatim backend (1 ∷ 0 ∷ []) greeting [] ≡ returns "hello world")
    × ((e : Error) × (render verbatim empty_backend (1 ∷ 0 ∷ []) greeting [] ≡ fails e)
        × (first_failure empty_backend (awaited "hello" ∷ awaited "world" ∷ []) (1 ∷ 0 ∷ [])
            ≡ some e)
        × Failed empty_backend (awaited "hello" ∷ awaited "world" ∷ []) e)
unfolding joined render_all join
render_any_order_example = (
  (render_any_order verbatim backend (1 ∷ 0 ∷ []) greeting []
        (awaited "hello" ∷ awaited "world" ∷ []) chosen covered).0
      _ fetched,
  (render_any_order verbatim empty_backend (1 ∷ 0 ∷ []) greeting []
        (awaited "hello" ∷ awaited "world" ∷ []) chosen covered).1
      unfetched,
)

abbrev at_step : String → ℕ → Checkpoint
at_step thread n = record {
  workflow_id = "w";
  thread_id = thread;
  step_index = pos n;
  step_id = "";
  state = "{}";
  version = pos 0;
  created_at = 0;
}

-- Pointers 0 and 2 lead to checkpoints of thread "a", 1 to one of thread "b".
abbrev saved_records : ℕ → Checkpoint
saved_records zero = at_step "a" 1
saved_records (suc zero) = at_step "b" 1
saved_records (suc (suc n)) = at_step "a" 2

abbrev entry_records : ℕ → JournalEntry
entry_records n = record {
  workflow_id = "w";
  thread_id = "a";
  step_index = pos n;
  step_id = "";
  inputs = [];
  outputs = [];
  err = "";
  start_time = 0;
  end_time = 0;
}

-- The last write is to a checkpoint that the store holds.
abbrev changes : List (Change Checkpoint)
changes = adds 0 ∷ adds 1 ∷ ends "a" ∷ adds 2 ∷ adds 0 ∷ writes 2 (at_step "b" 7) ∷ []

stores_refine_logs_example :
    (load "a" (checkpointed changes (new_threads saved_records)) ≡ ok 0)
    × (history "a" (checkpointed changes (new_threads saved_records)) ≡ ok (2 ∷ 0 ∷ []))
    × ((checkpointed changes (new_threads saved_records)).heap 2 ≡ at_step "b" 7)
unfolding log_after heap_after last_of
stores_refine_logs_example = (
  (stores_refine_logs changes [] saved_records entry_records "a").1,
  (stores_refine_logs changes [] saved_records entry_records "a").0,
  ap (λ heap. heap 2) (stores_refine_logs changes [] saved_records entry_records "a").2,
)

abbrev translator : Translator
translator = record { id = "openai"; native_messages = λ ms. ok (string "native") }

abbrev thread : MemoryStore Message
thread = record {
  messages = new_text_message role_user "hi" ∷ [];
  token_counter = default_token_count;
}

window_for-WarmedWell_example :
    SameMessages (window_for translator (pos 0) thread).0.messages thread.messages
window_for-WarmedWell_example = (window_for-WarmedWell translator (pos 0) thread).0

-- Vectors and scores of whole numbers; a sort leaves the order.
abbrev arithmetic : Arithmetic ℕ ℕ
arithmetic = record {
  zero_single = 0;
  zero_double = 0;
  wide_product = λ a b. a * b;
  plus = λ a b. a + b;
  times = λ a b. a * b;
  over = λ a b. a;
  sqrt = λ a. a;
  is_zero = λ a. a == 0;
  narrow = λ a. a;
  sort = λ rs. rs;
  equal = λ a b. some true;
  decimal = λ n. elim (n == 0) [ true ↦ "0" | false ↦ "1" ];
}

index_overwrites_example :
    lookup "doc-0"
      (index arithmetic
        ("new" ∷ [])
        []
        (ok ((2 ∷ []) ∷ []))
        (index arithmetic ("old" ∷ []) [] (ok ((1 ∷ []) ∷ [])) []).0).0
    ≡ lookup "doc-0" (index arithmetic ("new" ∷ []) [] (ok ((2 ∷ []) ∷ [])) []).0
index_overwrites_example =
    index_overwrites arithmetic ("old" ∷ []) ("new" ∷ []) [] [] ((1 ∷ []) ∷ []) ((2 ∷ []) ∷ []) []
      "doc-0" refl refl (omega arith)

-- Scores in whole numbers.
abbrev floats : Floats ℕ
floats = record {
  zero_float = 0;
  one_float = 1;
  plus = λ a b. a + b;
  over = λ a n. a;
  sprint = λ v. "value";
  print_error = λ e. "failure";
  contains_text = λ text phrase. true;
  got_want = λ got want. got;
  missing_phrase = λ phrase. phrase;
  too_slow = λ latency max. "slow";
}

abbrev ran : EvalRun
ran = record {
  example_id = "e1";
  input = [];
  actual = [];
  reference = [];
  latency = 5;
  failure = none;
}

own_example : OwnExample floats (latency_within floats 10 ∷ []) (ran ∷ []) ran
own_example zero other at same = sym (some-inj at)
own_example (suc j) other at same = absurd cc

report_all-Scored_example :
    lookup "e1"
      (report_all floats
        (latency_within floats 10 ∷ [])
        (ran ∷ [])
        (0 ∷ [])
        (record { runs = []; score_map = [] })).score_map
    ≡ some (scores_of floats (latency_within floats 10 ∷ []) ran)
report_all-Scored_example =
    report_all-Scored floats (latency_within floats 10 ∷ []) (ran ∷ []) (0 ∷ []) 0 ran
      (record { runs = []; score_map = [] }) refl own_example refl
