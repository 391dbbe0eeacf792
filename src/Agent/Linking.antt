-- ===== src/Agent/Linking.antt =====
-- pkg/agent/compiler.go: the tools, the skills and the provider that a definition names.
use bunshin_go.Common.{String, List, [], ◌∷◌, ◌++◌, Map, insert, Bool}
use bunshin_go.Core.Errors.{errorf, Result, ok, err}
use bunshin_go.Agent.State.{Tool}
use bunshin_go.Llm.Fallback.{Provider}
use bunshin_go.Llm.Registry.{Tags, ProviderRegistry, select}
use bunshin_go.Tools as Tools

-- The result of a loop that notes what is missing.
abbrev pub unless_missing {ℓ} : {A : Type ℓ} → String → List String → A → Result A
unless_missing format [] found = ok found
unless_missing format (n ∷ ns) found = err (errorf format (n ∷ ns))

module _ {W : Type 0} where
  -- The loop of `resolveTools`: `resolved` and `missing`.
  unfoldable pub gather_tools :
      Map (Tool W) → List String → Map (Tool W) → List String → Map (Tool W) × List String
  gather_tools registry [] resolved missing = (resolved, missing)
  gather_tools registry (n ∷ ns) resolved missing = elim (Tools.get registry n) [
    | err e ↦ gather_tools registry ns resolved (missing ++ (n ∷ []))
    | ok t ↦ gather_tools registry ns (insert n t resolved) missing
  ]

  -- `resolveTools`.
  unfoldable pub resolve_tools : Map (Tool W) → List String → Result (Map (Tool W))
  resolve_tools registry names =
      let (resolved, missing) = gather_tools registry names [] [] in
      unless_missing "tools not found: %v" missing resolved

  -- The loop of `resolveSkills`; a skill is its name.
  unfoldable pub gather_skills :
      (String → W → W × Result String)
      → List String
      → Map String
      → List String
      → W
      → W × Map String × List String
  gather_skills resolver [] resolved missing w = (w, resolved, missing)
  gather_skills resolver (n ∷ ns) resolved missing w =
      let (w', out) = resolver n w in
      elim out [
        | err e ↦ gather_skills resolver ns resolved (missing ++ (n ∷ [])) w'
        | ok skill ↦ gather_skills resolver ns (insert n skill resolved) missing w'
      ]

  -- `resolveSkills`.
  unfoldable pub resolve_skills :
      (String → W → W × Result String) → List String → W → W × Result (Map String)
  resolve_skills resolver names w =
      let (w', resolved, missing) = gather_skills resolver names [] [] w in
      (w', unless_missing "skills not found: %v" missing resolved)

-- A filter for each tag.
unfoldable pub tag_filters : Tags → List Tags
tag_filters [] = []
tag_filters ((k, v) ∷ tags) = ((k, v) ∷ []) ∷ tag_filters tags

-- The pairs of tags that an error prints.
unfoldable pub tag_words : Tags → List String
tag_words [] = []
tag_words ((k, v) ∷ tags) = k ∷ v ∷ tag_words tags

module _ {Req Resp W : Type 0}
    (sort : (Provider Req Resp W → Provider Req Resp W → Bool)
      → List (Provider Req Resp W)
      → List (Provider Req Resp W)) where
  -- `selectProvider`, over the sort of `Select`.
  unfoldable pub select_provider :
      ProviderRegistry Req Resp W → String → Tags → Result (Provider Req Resp W)
  select_provider registry tier tags =
      elim (select sort ((("tier", tier) ∷ []) ∷ tag_filters tags) registry) [
        | [] ↦ err (errorf "no LLM provider found for tier=%q, tags=%v" (tier ∷ tag_words tags))
        | p ∷ ps ↦ ok p
      ]
