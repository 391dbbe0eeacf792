-- ===== src/Llm/Registry.antt =====
-- pkg/llm/registry.go: the registry of providers, their tags, and their availability.
use bunshin_go.Common.{
  String, ℕ, List, [], ◌∷◌, ◌++◌, Map, Option, none, some, lookup, insert, Bool, true, false,
  if◌then◌else◌, str_eq, ltb, not,
}
use bunshin_go.Core.Errors.{Error}
use bunshin_go.Llm.Fallback.{Provider, is_available}

abbrev pub Tags : Type 0
Tags = Map String

-- `time.Duration(math.MaxInt64)`.
abbrev pub no_latency : ℕ
no_latency = 9223372036854775807

-- A read of a map of texts, or of durations.
abbrev pub tag_of : Tags → String → String
tag_of m k = elim (lookup k m) [ none ↦ "" | some v ↦ v ]

abbrev pub latency_of : Map ℕ → String → ℕ
latency_of m k = elim (lookup k m) [ none ↦ 0 | some d ↦ d ]

-- The inner loop of `tagsMatch`.
unfoldable pub filter_matches : Tags → Tags → Bool
filter_matches entry_tags [] = true
filter_matches entry_tags ((k, v) ∷ rest) =
    let later = filter_matches entry_tags rest in
    if not (str_eq (tag_of entry_tags k) v) then false else later

-- `tagsMatch`.
unfoldable pub tags_match : Tags → List Tags → Bool
tags_match entry_tags [] = true
tags_match entry_tags (f ∷ fs) =
    let later = tags_match entry_tags fs in
    if not (filter_matches entry_tags f) then false else later

-- `providerEntry`.
pub record ProviderEntry (Req Resp W : Type 0) : Type 0 where
  pub provider : Provider Req Resp W
  pub tags : Tags

-- `ProviderRegistry`, without its interval and its logger.
pub record ProviderRegistry (Req Resp W : Type 0) : Type 0 where
  pub providers : List (Provider Req Resp W)
  pub entries : Map (ProviderEntry Req Resp W)
  pub available : Map Bool
  pub latency : Map ℕ

-- The `Ping` of a provider that has one: the time that it takes, and its error.
abbrev pub Pinger : Type 0 → Type 0 → Type 0 → Type 0
Pinger Req Resp W = Provider Req Resp W → Option (W → W × (ℕ × Option Error))

module _ {Req Resp W : Type 0} where
  -- The latencies that `NewProviderRegistry` starts from.
  unfoldable pub first_latencies : List (Provider Req Resp W) → Map ℕ → Map ℕ
  first_latencies [] m = m
  first_latencies (p ∷ ps) m = first_latencies ps (insert p.id no_latency m)

  -- `NewProviderRegistry`.
  unfoldable pub new_registry : List (Provider Req Resp W) → ProviderRegistry Req Resp W
  new_registry ps = record {
    providers = ps;
    entries = [];
    available = [];
    latency = first_latencies ps [];
  }

  -- The loop of `Register` over the pool.
  unfoldable pub pooled : String → List (Provider Req Resp W) → Bool
  pooled id [] = false
  pooled id (p ∷ ps) = let later = pooled id ps in if str_eq p.id id then true else later

  -- `Register`.
  unfoldable pub register :
      String
      → Provider Req Resp W
      → Tags
      → ProviderRegistry Req Resp W
      → ProviderRegistry Req Resp W
  register id p tags r =
      let r' = record r { entries = insert id (record { provider = p; tags = tags }) r.entries } in
      if pooled p.id r.providers then r' else record r' {
        providers = r.providers ++ (p ∷ []);
        latency = insert p.id no_latency r.latency;
      }

  -- `Get`.
  unfoldable pub get_provider : String → ProviderRegistry Req Resp W → Option (Provider Req Resp W)
  get_provider id r = elim (lookup id r.entries) [ none ↦ none | some e ↦ some e.provider ]

  -- The loop of `Select`.
  unfoldable pub matching :
      Map Bool → List Tags → Map (ProviderEntry Req Resp W) → List (Provider Req Resp W)
  matching available filters [] = []
  matching available filters ((id, e) ∷ es) =
      let rest = matching available filters es in
      if not (is_available available e.provider.id)
      then rest
      else if tags_match e.tags filters
      then e.provider ∷ rest
      else rest

  -- The loop of `Available`.
  unfoldable pub live : Map Bool → List (Provider Req Resp W) → List (Provider Req Resp W)
  live available [] = []
  live available (p ∷ ps) =
      let rest = live available ps in if is_available available p.id then p ∷ rest else rest

  -- The order of `sort.Slice` in `Select` and `Available`.
  abbrev pub faster : Map ℕ → Provider Req Resp W → Provider Req Resp W → Bool
  faster latency p q = ltb (latency_of latency p.id) (latency_of latency q.id)

  module _
      (sort : (Provider Req Resp W → Provider Req Resp W → Bool)
        → List (Provider Req Resp W)
        → List (Provider Req Resp W)) where
    -- `Select`, over `sort.Slice`.
    unfoldable pub select : List Tags → ProviderRegistry Req Resp W → List (Provider Req Resp W)
    select filters r = sort (faster r.latency) (matching r.available filters r.entries)

    -- `Available`, over `sort.Slice`.
    unfoldable pub all_available : ProviderRegistry Req Resp W → List (Provider Req Resp W)
    all_available r = elim (live r.available r.providers) [
      | [] ↦ r.providers
      | p ∷ ps ↦ sort (faster r.latency) (p ∷ ps)
    ]

  -- What `pingAll` records of a ping.
  unfoldable pub record_ping :
      String → ℕ × Option Error → ProviderRegistry Req Resp W → ProviderRegistry Req Resp W
  record_ping id (rtt, some e) r = record r { available = insert id false r.available }
  record_ping id (rtt, none) r = record r {
    available = insert id true r.available;
    latency = insert id rtt r.latency;
  }

  -- The body of the loop of `pingAll`.
  unfoldable pub ping_one :
      Pinger Req Resp W
      → Provider Req Resp W
      → ProviderRegistry Req Resp W
      → W
      → W × ProviderRegistry Req Resp W
  ping_one pinger p r w = elim (pinger p) [
    | none ↦ (w, record r { available = insert p.id true r.available })
    | some ping ↦ let (w', out) = ping w in (w', record_ping p.id out r)
  ]

  -- The loop of `pingAll`.
  unfoldable pub ping_from :
      Pinger Req Resp W
      → List (Provider Req Resp W)
      → ProviderRegistry Req Resp W
      → W
      → W × ProviderRegistry Req Resp W
  ping_from pinger [] r w = (w, r)
  ping_from pinger (p ∷ ps) r w = let (w', r') = ping_one pinger p r w in ping_from pinger ps r' w'

  -- `pingAll`.
  unfoldable pub ping_all :
      Pinger Req Resp W → ProviderRegistry Req Resp W → W → W × ProviderRegistry Req Resp W
  ping_all pinger r w = ping_from pinger r.providers r w
