-- ===== src/Tests/Vendors.antt =====
-- pkg/llm: an exchange with each vendor over a client that always answers the same.
use bunshin_go.Common.{lookup, ℕ, ◌+◌, String, [], ◌∷◌, none, some, ◌≡◌, refl, false}
use bunshin_go.Core.Errors.{ok}
use bunshin_go.Core.Value.{pos}
use bunshin_go.Core.State.{State}
use bunshin_go.Graph.{Runnable, done, Final, invoke}
use bunshin_go.Llm.Messages.{Request, Response, new_text_message, role_system, role_user}
use bunshin_go.Llm.Fallback.{Provider}
use bunshin_go.Llm.Http.{Transport, Vendor, VendorConfig, configured, model_for}
use bunshin_go.Llm.Openai.{WireStreamChunk, last_chunk, read_sse_stream, read_line, payload_of}
use bunshin_go.Llm.Openai
use bunshin_go.Llm.Anthropic
use bunshin_go.Llm.Google
use bunshin_go.Llm.Azure
use bunshin_go.Llm.Streams.{Closed, streams-Closed}
use bunshin_go.Llm.Wires.{native_messages-Sent}
use bunshin_go.Llm.Exchange.{complete_iff}
use bunshin_go.Llm.Vendors.{openai, provider_openai}
use bunshin_go.Agent.State.{AgentState}
use bunshin_go.Agent.Nodes.{llm_node}
use bunshin_go.Agent.Loop.{agent_graph}
use bunshin_go.Agent.Vendors.{vendor_agent-Ends}

-- A client over bodies that are texts. Every encoding is "{}" and every reply `reply`; the world
-- counts requests and closed bodies.
abbrev fixed :
    {Wire Reply Event : Type 0} → Reply → Event → Transport Wire Reply Event String (ℕ × ℕ)
fixed reply event = record {
  marshal = λ wire. ok "{}";
  new_request = λ method url. none;
  send = λ r w. ((w.0 + 1, w.1), ok (record { status_code = 200; status = "200 OK"; body = "hi" }));
  read_all = λ body. ok body;
  decode = λ body. ok reply;
  scan = λ body. ("data: x" ∷ "" ∷ "data: [DONE]" ∷ [], none);
  unmarshal = λ line. some event;
  close = λ body w. (w.0, w.1 + 1);
  error_text = λ e. "failure";
}

abbrev openai_reply : Openai.WireResponse
openai_reply = record {
  choices = "hello" ∷ [];
  usage = record { prompt_tokens = 1; completion_tokens = 2; total_tokens = 3; cached_tokens = 0 };
  model = "gpt-4o";
}

abbrev openai_event : WireStreamChunk
openai_event = record { choices = "he" ∷ []; usage = none }

abbrev anthropic_reply : Anthropic.WireResponse
anthropic_reply = record {
  content = record { kind = "text"; text = "hello" } ∷ [];
  usage = record { input_tokens = 1; output_tokens = 2 };
  model = "claude";
}

abbrev anthropic_event : Anthropic.WireStreamEvent
anthropic_event = record { kind = "message_stop"; delta = none; usage = none }

abbrev google_reply : Google.WireResponse
google_reply = record {
  candidates = record { role = "model"; parts = "hello" ∷ [] } ∷ [];
  usage_metadata = record {
    prompt_token_count = 1;
    candidates_token_count = 2;
    total_token_count = 3;
  };
}

abbrev config : VendorConfig
config = record {
  api_key = "key";
  model = "";
  tier = "smart";
  max_tokens = 0;
  base_url = "";
  http_timeout = 0;
}

abbrev vendor : Vendor
vendor = record {
  cfg = record config { max_tokens = 1024; base_url = "https://api.openai.com/v1" };
  model = "gpt-4o";
  timeout = 30000000000;
}

made : Openai.new_provider config ≡ ok vendor
unfolding Openai.new_provider configured model_for lookup
made = refl

abbrev azure : Azure.AzureProvider
azure = record {
  cfg = record {
    api_key = "key";
    endpoint = "https://x";
    deployment = "gpt";
    api_version = "2024-02-01";
    max_tokens = 1024;
    http_timeout = 0;
  };
  timeout = 30000000000;
}

abbrev asked : Request
asked = record {
  messages = new_text_message role_system "Be brief." ∷ new_text_message role_user "Hi" ∷ [];
  temperature = none;
  max_tokens = none;
  tools = [];
  stream = false;
}

read :
    read_sse_stream (λ line. some openai_event) "openai" ("data: x" ∷ "" ∷ "data: [DONE]" ∷ []) none
    ≡ record { delta = "he"; tool_call_delta = none; done = false; err = none; usage = none }
      ∷ last_chunk none none
      ∷ []
unfolding read_sse_stream read_line payload_of Openai.chunk_of
read = refl

streams-Closed_example : Closed (
    read_sse_stream
      (λ line. some openai_event)
      "openai"
      ("data: x" ∷ "" ∷ "data: [DONE]" ∷ [])
      none)
streams-Closed_example =
    (streams-Closed ("data: x" ∷ "" ∷ "data: [DONE]" ∷ []) none).0 (λ line. some openai_event)
      "openai"

native_messages-Sent_example :
    (Openai.build_wire_request vendor asked false).messages ≡ Openai.native_messages asked.messages
native_messages-Sent_example = (native_messages-Sent vendor azure asked false).0

complete_iff_example :
    Openai.complete (fixed openai_reply openai_event) vendor asked (0, 0)
    ≡ ((1, 1), ok (Openai.response_of openai_reply))
unfolding Openai.completion_request Openai.set_headers
complete_iff_example =
    (complete_iff (fixed openai_reply openai_event) (fixed anthropic_reply anthropic_event)
        (fixed google_reply google_reply) vendor azure asked (0, 0) (1, 1)
        (Openai.response_of openai_reply)).0.1
      (record {
        body = "{}";
        answer = record { status_code = 200; status = "200 OK"; body = "hi" };
        between = (1, 0);
        reply = openai_reply;
        encoded = refl;
        built = refl;
        answered = refl;
        status = refl;
        closed = refl;
        read = refl;
        result = refl;
      })

abbrev provider : Provider Request Response (ℕ × ℕ)
provider = record {
  id = provider_openai;
  complete = Openai.complete (fixed openai_reply openai_event) vendor;
}

abbrev greeting : State AgentState
greeting = record { payload = record { task = "hi"; args = none; messages = [] }; meta = some [] }

abbrev never : Runnable AgentState (ℕ × ℕ)
never s w = ((99, 99), done s)

vendor_agent-Ends_example :
    (f : Final AgentState (ℕ × (ℕ × ℕ))) × ((invoke
          (λ w. none)
          (agent_graph "greeter" (pos 3) (llm_node "greeter" "" none provider [] [] []) never)
          5
          greeting
          (0, (0, 0))
        ≡ some f)
      × (f.world.1 ≡ (llm_node "greeter" "" none provider [] [] [] greeting (0, 0)).0))
vendor_agent-Ends_example =
    vendor_agent-Ends "greeter" "" none provider [] [] [] (λ w. none) (pos 3) never 3 greeting 0
      (0, 0) (openai (fixed openai_reply openai_event) vendor) refl
