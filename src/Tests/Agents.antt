-- ===== src/Tests/Agents.antt =====
-- pkg/agent/store/memory.go: an agent with two versions.
use bunshin_go.Common.{String, [], ◌∷◌, none, some, ◌≡◌, refl, differs}
use bunshin_go.Core.Errors.{ok}
use bunshin_go.Core.Value.{pos}
use bunshin_go.Store.Versioned.{store_code, status_draft, status_active}
use bunshin_go.Store.Agents.{
  AgentSpec, AgentVersion, Agents, create, find_entry, create_version, get_version, with_status,
  list_versions, activate,
}
use bunshin_go.Store.Listing.{list_versions-activate}

abbrev triage : String → AgentSpec
triage description = record {
  name = "triage";
  description = description;
  slug = "triage";
  tools = [];
  agents = [];
  skills = [];
  tier = "";
  tags = [];
  max_iterations = pos 5;
  input_schema = none;
  output_schema = none;
}

abbrev draft : String → AgentVersion
draft v = record { version = v; status = status_draft }

-- The hash is the description.
abbrev agents : Agents
agents =
    (create (λ s. ok s.description) "acme" (some (triage "b"))
      (create (λ s. ok s.description) "acme" (some (triage "a")) []).0).0

listed : list_versions "acme" "triage" agents ≡ ok (draft "b" ∷ draft "a" ∷ [])
unfolding store_code create create_version find_entry list_versions with_status
listed = refl

read_a : get_version "acme" "triage" "a" agents ≡ ok (triage "a")
unfolding store_code create create_version find_entry get_version
read_a = refl

list_versions-activate_example :
    list_versions "acme" "triage" (activate "acme" "triage" "a" agents).0
    ≡ ok (draft "b" ∷ record { version = "a"; status = status_active } ∷ [])
list_versions-activate_example =
    (list_versions-activate "acme" "triage" "a" agents (triage "a") (differs refl) read_a).2
      (draft "b" ∷ draft "a" ∷ []) listed
