-- ===== src/Llm/Fallback.antt =====
-- pkg/llm/fallback.go: one provider made of several, and the availability that pkg/llm/registry.go
-- records.
use bunshin_go.Common.{
  String, List, [], ◌∷◌, ◌++◌, Map, Option, none, some, Bool, false, lookup, if◌then◌else◌,
}
use bunshin_go.Core.Errors.{Error, errorf, wrapf, join, Result, ok, err}

-- `LLMProvider`, with the calls that are made here.
pub record Provider (Req Resp W : Type 0) : Type 0 where
  pub id : String
  pub complete : Req → W → W × Result Resp

-- `IsAvailable` of a registry, on its map of availability.
unfoldable pub is_available : Map Bool → String → Bool
is_available available id = elim (lookup id available) [ none ↦ false | some b ↦ b ]

-- The error when no provider is left; there was one at least.
abbrev pub all_failed : List Error → Error
all_failed [] = errorf "llm: all providers failed: %w" []
all_failed (e ∷ es) = wrapf "llm: all providers failed: %w" [] (join e es)

module _ {Req Resp W : Type 0} where
  -- The loop of `candidates`.
  unfoldable pub select_available :
      Map Bool → List (Provider Req Resp W) → List (Provider Req Resp W)
  select_available available [] = []
  select_available available (p ∷ ps) =
      let rest = select_available available ps in
      if is_available available p.id then p ∷ rest else rest

  -- `candidates`; `none` is a fallback without a registry.
  unfoldable pub candidates :
      Option (Map Bool) → List (Provider Req Resp W) → List (Provider Req Resp W)
  candidates none ps = ps
  candidates (some available) ps = elim (select_available available ps) [
    | [] ↦ ps
    | p ∷ rest ↦ p ∷ rest
  ]

  -- The error of a provider in the list of errors.
  abbrev pub provider_failed : Provider Req Resp W → Error → Error
  provider_failed p e = wrapf "provider %s: %w" (p.id ∷ []) e

  -- The loop of `Complete`, with the errors so far.
  unfoldable pub try_all : List (Provider Req Resp W) → Req → List Error → W → W × Result Resp
  try_all [] req errs w = (w, err (all_failed errs))
  try_all (p ∷ ps) req errs w =
      let (w', out) = p.complete req w in
      elim out [
        | ok resp ↦ (w', ok resp)
        | err e ↦ try_all ps req (errs ++ (provider_failed p e ∷ [])) w'
      ]

  -- `Complete`.
  unfoldable pub complete :
      Option (Map Bool) → List (Provider Req Resp W) → Req → W → W × Result Resp
  complete registry ps req w = try_all (candidates registry ps) req [] w
