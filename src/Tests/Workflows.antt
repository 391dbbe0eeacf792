-- ===== src/Tests/Workflows.antt =====
-- pkg/workflow: a definition with two nodes, parsed and compiled.
use bunshin_go.Common.{String, [], ◌∷◌, none, some, ◌≡◌, ◌≢◌, refl, inl, inr, differs}
use bunshin_go.Core.Errors.{ok, outside, err}
use bunshin_go.Core.Attempt.{panics}
use bunshin_go.Workflow.Spec.{NodeSpec, Spec, Codec, parse, canonical_json}
use bunshin_go.Workflow.Parsing.{IsWellFormed, parse_iff-IsWellFormed}
use bunshin_go.Workflow.Registry.{state}
use bunshin_go.Workflow.Compiler.{Registries, compile}
use bunshin_go.Workflow.Compiled.{compile-Placed}

abbrev node : String → String → NodeSpec
node id next = record {
  id = id;
  runnable = record {
    kind = "custom";
    provider_tier = "";
    provider_id = "";
    prompt = "";
    name = "pass";
    input_key = "";
    output_key = "";
  };
  next = next;
  router = none;
}

abbrev pipeline : Spec
pipeline = record {
  name = "pipeline";
  description = "";
  nodes = node "fetch" "" ∷ node "store" "__end__" ∷ [];
  version = "";
  status = "";
}

pipeline-IsWellFormed : IsWellFormed pipeline
pipeline-IsWellFormed = record {
  named = differs refl;
  populated = λ e. cc;
  nodes = ((differs refl, differs refl), ((differs refl, differs refl), tt));
  distinct = (refl, (refl, tt));
  pointing = (inl refl, (inr (inl refl), tt));
}

abbrev codec : Codec
codec = record {
  Bytes = Unit {0};
  unmarshal = λ b. ok pipeline;
  marshal = λ name description nodes. ok tt;
  hash = λ b. "h1";
}

parse_iff-IsWellFormed_example : parse codec tt ≡ ok (record pipeline { version = "h1" })
unfolding canonical_json
parse_iff-IsWellFormed_example =
    (parse_iff-IsWellFormed codec tt (record pipeline { version = "h1" })).1
      (pipeline, tt, refl, pipeline-IsWellFormed, refl, refl)

abbrev registries : Registries (Unit {0})
registries = record {
  services = record {
    Template = Unit {0};
    parse_template = λ name text. ok tt;
    execute = λ t vars. ok "";
    fragment = λ slug. ok "";
    tier = λ t. [];
    provider = λ id. none;
    tool = λ name. err (outside 0);
  };
  has_llm = none;
  has_tools = none;
  has_prompts = none;
  customs = some (("pass", λ s w. (w, record { seen = s; result = ok (state s) })) ∷ []);
  routers = none;
}

compile-Placed_example : compile registries (some pipeline) ≢ panics
compile-Placed_example = (compile-Placed registries pipeline pipeline-IsWellFormed (λ e. cc)).0

abbrev routed : NodeSpec
routed = record (node "route" "") {
  router = some (record { kind = "custom"; name = "pick"; config = none });
}
