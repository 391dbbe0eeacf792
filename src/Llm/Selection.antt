-- ===== src/Llm/Selection.antt =====
-- pkg/llm/registry.go: which providers `Select` returns.
use mathlib.Core.Path.{subst}
use mathlib.Core.List.{Memᴰ}
use mathlib.Core.List.Memᴰ.{head, tail}
use bunshin_go.Common.{
  String, none, some, lookup, str_eq, ◌⊎◌, inl, inr, Option-cases, List, [], ◌∷◌, Map, Bool, true,
  false, if◌then◌else◌, not, ◌≡◌, refl, sym, ap, arith, eq_iff, All, ◌↔◌,
}
use bunshin_go.Llm.Fallback.{Provider, is_available}
use bunshin_go.Llm.Registry.{
  Tags, ProviderEntry, ProviderRegistry, matching, tags_match, select, faster, filter_matches,
  tag_of,
}

-- A pair is among the tags; a pair with the empty text stands as well for a key that is missing.
abbrev pub HasTag : Tags → String × String → Type 0
HasTag tags (k, v) = (lookup k tags ≡ some v) ⊎ ((lookup k tags ≡ none) × (v ≡ ""))

-- Each pair of each filter is one of the tags, in this sense.
abbrev pub Carries : Tags → List Tags → Type 0
Carries tags = All (λ f. All (HasTag tags) f)

tag_of-HasTag :
    (tags : Tags) (k v : String) → (str_eq (tag_of tags k) v ≡ true) ↔ HasTag tags (k, v)
tag_of-HasTag tags k v = elim (Option-cases (lookup k tags)) [
  | inl missing ↦ (
    λ h. inr (missing, ground (arith, missing, eq_iff "" v)),
    λ h. ground (arith, missing, eq_iff "" v),
  )
  | inr (u, found) ↦
      (λ h. inl (ground (arith, found, eq_iff u v)), λ h. ground (arith, found, eq_iff u v))
]

filter_matches-Carries : (tags f : Tags) → (filter_matches tags f ≡ true) ↔ All (HasTag tags) f
unfolding filter_matches
filter_matches-Carries tags [] = (λ h. tt, λ h. refl)
filter_matches-Carries tags ((k, v) ∷ rest) =
    let later = filter_matches-Carries tags rest in
    (
      λ h. ((tag_of-HasTag tags k v).0 (ground arith), later.0 (ground arith)),
      λ h. let rest_ok = later.1 h.1 in let here = (tag_of-HasTag tags k v).1 h.0 in ground arith,
    )

tags_match-Carries : (tags : Tags) (fs : List Tags) → (tags_match tags fs ≡ true) ↔ Carries tags fs
unfolding tags_match
tags_match-Carries tags [] = (λ h. tt, λ h. refl)
tags_match-Carries tags (f ∷ fs) =
    let here = filter_matches-Carries tags f in
    let later = tags_match-Carries tags fs in
    (
      λ h. (here.0 (ground arith), later.0 (ground arith)),
      λ h. let a = here.1 h.0 in let b = later.1 h.1 in ground arith,
    )

-- An entry that a selection asks for.
pub record IsChosen {Req Resp W : Type 0} (available : Map Bool) (filters : List Tags)
    (es : Map (ProviderEntry Req Resp W)) (p : Provider Req Resp W) : Type 0 where
  pub name : String
  pub entry : ProviderEntry Req Resp W
  pub registered : Memᴰ (name, entry) es
  pub holds : entry.provider ≡ p
  pub alive : is_available available p.id ≡ true
  pub carries : Carries entry.tags filters

module _ {Req Resp W : Type 0} (available : Map Bool) (filters : List Tags) where
  IsChosen-tail :
      (es : Map (ProviderEntry Req Resp W)) (e : String × ProviderEntry Req Resp W)
      (p : Provider Req Resp W)
      → IsChosen available filters es p
      → IsChosen available filters (e ∷ es) p
  IsChosen-tail es e p c = record {
    name = c.name;
    entry = c.entry;
    registered = tail c.registered;
    holds = c.holds;
    alive = c.alive;
    carries = c.carries;
  }

  matching-IsChosen :
      (es : Map (ProviderEntry Req Resp W)) (p : Provider Req Resp W)
      → Memᴰ p (matching available filters es)
      → IsChosen available filters es p
  unfolding matching
  matching-IsChosen [] p m = elim m [ ]
  matching-IsChosen ((id, e) ∷ es) p m =
      go (is_available available e.provider.id) refl (tags_match e.tags filters) refl
        (λ later. IsChosen-tail es (id, e) p (matching-IsChosen es p later)) m
    where
      go :
          (up : Bool)
          → is_available available e.provider.id ≡ up
          → (ok : Bool) → tags_match e.tags filters ≡ ok
          → (Memᴰ p (matching available filters es) → IsChosen available filters ((id, e) ∷ es) p)
          → Memᴰ p (
              if not up
              then matching available filters es
              else if ok
              then e.provider ∷ matching available filters es
              else matching available filters es)
          → IsChosen available filters ((id, e) ∷ es) p
      go false down ok tags later m = later m
      go true alive false tags later m = later m
      go true alive true tags later (tail m) = later m
      go true alive true tags later (head same) = record {
        name = id;
        entry = e;
        registered = head refl;
        holds = sym same;
        alive = subst (λ q. is_available available q.id ≡ true) (sym same) alive;
        carries = (tags_match-Carries e.tags filters).0 tags;
      }

  IsChosen-matching :
      (es : Map (ProviderEntry Req Resp W)) (id : String) (e : ProviderEntry Req Resp W)
      → Memᴰ (id, e) es
      → is_available available e.provider.id ≡ true
      → tags_match e.tags filters ≡ true
      → Memᴰ e.provider (matching available filters es)
  unfolding matching
  IsChosen-matching [] id e m alive carries = elim m [ ]
  IsChosen-matching ((j, x) ∷ es) id e (head same) alive carries =
      let at : e ≡ x = ap (λ q. q.1) same in
      go (is_available available x.provider.id)
        (subst (λ q. is_available available q.provider.id ≡ true) at alive)
        (tags_match x.tags filters) (subst (λ q. tags_match q.tags filters ≡ true) at carries) at
    where
      go :
          (up : Bool)
          → up ≡ true
          → (ok : Bool) → ok ≡ true
          → e ≡ x
          → Memᴰ e.provider (
              if not up
              then matching available filters es
              else if ok
              then x.provider ∷ matching available filters es
              else matching available filters es)
      go true a true b at = head (ap (λ q. q.provider) at)
      go true a false b at = absurd cc
      go false a ok b at = absurd cc
  IsChosen-matching ((j, x) ∷ es) id e (tail m) alive carries =
      go (is_available available x.provider.id) (tags_match x.tags filters)
        (IsChosen-matching es id e m alive carries)
    where
      go :
          (up ok : Bool)
          → Memᴰ e.provider (matching available filters es)
          → Memᴰ e.provider (
              if not up
              then matching available filters es
              else if ok
              then x.provider ∷ matching available filters es
              else matching available filters es)
      go false ok later = later
      go true false later = later
      go true true later = tail later

-- `Select` returns exactly the providers of the entries whose tags have each pair of each filter, or
-- for a pair with the empty text lack its key, and that passed their last ping, for a sort that keeps
-- the elements.
pub select_iff-IsChosen :
    {Req Resp W : Type 0}
    (sort : (Provider Req Resp W → Provider Req Resp W → Bool)
      → List (Provider Req Resp W)
      → List (Provider Req Resp W))
    (filters : List Tags) (r : ProviderRegistry Req Resp W) (p : Provider Req Resp W)
    → ((lt : Provider Req Resp W → Provider Req Resp W → Bool) (xs : List (Provider Req Resp W))
        → Memᴰ p (sort lt xs) ↔ Memᴰ p xs)
    → Memᴰ p (select sort filters r) ↔ IsChosen r.available filters r.entries p
unfolding select
select_iff-IsChosen sort filters r p keeps =
    let same = keeps (faster r.latency) (matching r.available filters r.entries) in
    (
      λ m. matching-IsChosen r.available filters r.entries p (same.0 m),
      λ c. same.1 (
          subst (λ q. Memᴰ q (matching r.available filters r.entries)) c.holds
            (IsChosen-matching r.available filters r.entries c.name c.entry c.registered
              (subst (λ q. is_available r.available q.id ≡ true) (sym c.holds) c.alive)
              ((tags_match-Carries c.entry.tags filters).1 c.carries))),
    )
