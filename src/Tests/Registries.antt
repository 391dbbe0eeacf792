-- ===== src/Tests/Registries.antt =====
-- pkg/llm/registry.go: two instances of one vendor.
use mathlib.Core.List.{Memᴰ}
use bunshin_go.Common.{ℕ, ◌+◌, List, [], ◌∷◌, none, some, ◌≡◌, refl, true, ◌↔◌, Bool}
use bunshin_go.Core.Errors.{ok, err, outside}
use bunshin_go.Llm.Fallback.{Provider, is_available}
use bunshin_go.Llm.Registry.{ProviderRegistry, Pinger, register, ping_all, ping_from, select}
use bunshin_go.Llm.Health.{healthy, register-shared}
use bunshin_go.Llm.Selection.{IsChosen, select_iff-IsChosen}

abbrev cheap : Provider ℕ ℕ ℕ
cheap = record { id = "openai"; complete = λ req w. (w, ok 1) }

abbrev large : Provider ℕ ℕ ℕ
large = record { id = "openai"; complete = λ req w. (w, err (outside 0)) }

abbrev pinger : Pinger ℕ ℕ ℕ
pinger p = some (λ w. (w + 1, (5, none)))

abbrev registry : ProviderRegistry ℕ ℕ ℕ
registry = record {
  providers = cheap ∷ [];
  entries = ("cheap", record { provider = cheap; tags = ("budget", "low") ∷ [] }) ∷ [];
  available = ("openai", true) ∷ [];
  latency = [];
}

register-shared_example :
    is_available
      (ping_all pinger (register "large" large (("budget", "high") ∷ []) registry) 0).1.available
      "openai"
    ≡ healthy pinger cheap
        (ping_from pinger [] (register "large" large (("budget", "high") ∷ []) registry) 0).0
register-shared_example =
    register-shared pinger "large" large (("budget", "high") ∷ []) [] [] cheap registry 0 refl tt
      refl

abbrev unsorted :
    (Provider ℕ ℕ ℕ → Provider ℕ ℕ ℕ → Bool) → List (Provider ℕ ℕ ℕ) → List (Provider ℕ ℕ ℕ)
unsorted lt ps = ps

select_iff-IsChosen_example :
    Memᴰ cheap (select unsorted ((("budget", "low") ∷ []) ∷ []) registry)
    ↔ IsChosen registry.available ((("budget", "low") ∷ []) ∷ []) registry.entries cheap
select_iff-IsChosen_example =
    select_iff-IsChosen unsorted ((("budget", "low") ∷ []) ∷ []) registry cheap
      (λ lt xs. (λ m. m, λ m. m))
