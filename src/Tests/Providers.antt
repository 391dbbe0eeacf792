-- ===== src/Tests/Providers.antt =====
-- pkg/llm/fallback.go: a provider that is down and one that answers.
use bunshin_go.Common.{ℕ, ◌+◌, [], ◌∷◌, none, ◌≡◌, refl}
use bunshin_go.Core.Errors.{ok, err, outside}
use bunshin_go.Llm.Fallback.{Provider, candidates, try_all, complete}
use bunshin_go.Llm.Trying.{Answers, complete-Answers}

abbrev down : Provider ℕ ℕ ℕ
down = record { id = "down"; complete = λ req w. (w + 1, err (outside 0)) }

abbrev up : Provider ℕ ℕ ℕ
up = record { id = "up"; complete = λ req w. (w + 1, ok req) }

-- The world counts the calls.
second_answers : complete none (down ∷ up ∷ down ∷ []) 7 0 ≡ (2, ok 7)
unfolding complete candidates try_all
second_answers = refl

complete-Answers_example :
    Answers 7 []
      (candidates none (down ∷ up ∷ down ∷ []))
      0
      (complete none (down ∷ up ∷ down ∷ []) 7 0)
complete-Answers_example = (complete-Answers none (down ∷ up ∷ down ∷ []) 7 0).0
