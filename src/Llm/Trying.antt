-- ===== src/Llm/Trying.antt =====
-- pkg/llm/fallback.go: which provider answers.
use bunshin_go.Common.{List, [], ◌∷◌, ◌++◌, Map, Option, none, some, Bool, ◌≡◌, refl, sym, ap, ◌∙◌}
use bunshin_go.Core.Errors.{Error, Result, ok, err}
use bunshin_go.Llm.Fallback.{
  Provider, candidates, select_available, provider_failed, all_failed, try_all, complete,
}

append_one : (xs ys : List Error) (x : Error) → (xs ++ (x ∷ [])) ++ ys ≡ xs ++ (x ∷ ys)
append_one [] ys x = refl
append_one (z ∷ xs) ys x = ap (◌∷◌ z) (append_one xs ys x)

append_none : (xs : List Error) → xs ++ [] ≡ xs
append_none [] = refl
append_none (z ∷ xs) = ap (◌∷◌ z) (append_none xs)

module _ {Req Resp W : Type 0} (req : Req) where
  -- The providers are called in order and all fail, with these errors; the calls lead from one world
  -- to the other.
  pub data Failing : List (Provider Req Resp W) → W → W → List Error → Type 0 where
    untried : {w : W} → Failing [] w w []
    failing :
        {p : Provider Req Resp W} {ps : List (Provider Req Resp W)} {w w' w'' : W} {e : Error}
        {es : List Error}
        → p.complete req w ≡ (w', err e)
        → Failing ps w' w'' es
        → Failing (p ∷ ps) w w'' (provider_failed p e ∷ es)

  -- What is returned after the errors `errs`: the response of the first provider that does not fail,
  -- or those errors with the errors of all.
  pub data Answers (errs : List Error)
      : List (Provider Req Resp W) → W → W × Result Resp → Type 0 where
    answered :
        (before after : List (Provider Req Resp W)) (p : Provider Req Resp W) {w w' w'' : W}
        {es : List Error} {resp : Resp}
        → Failing before w w' es
        → p.complete req w' ≡ (w'', ok resp)
        → Answers errs (before ++ (p ∷ after)) w (w'', ok resp)
    exhausted :
        {ps : List (Provider Req Resp W)} {w w' : W} {es all : List Error}
        → Failing ps w w' es
        → all ≡ errs ++ es
        → Answers errs ps w (w', err (all_failed all))

  one_more :
      (errs : List Error) (p : Provider Req Resp W) (ps : List (Provider Req Resp W)) (w w' : W)
      (e : Error) (r : W × Result Resp)
      → p.complete req w ≡ (w', err e)
      → Answers (errs ++ (provider_failed p e ∷ [])) ps w' r
      → Answers errs (p ∷ ps) w r
  one_more errs p ps w w' e r called (answered before after q f at) =
      answered (p ∷ before) after q (failing called f) at
  one_more errs p ps w w' e r called (exhausted f same) =
      exhausted (failing called f) (same ∙ append_one errs _ (provider_failed p e))

  try_all-Answers :
      (ps : List (Provider Req Resp W)) (errs : List Error) (w : W)
      → Answers errs ps w (try_all ps req errs w)
  unfolding try_all
  try_all-Answers [] errs w = exhausted untried (sym (append_none errs))
  try_all-Answers (p ∷ ps) errs w =
      go (p.complete req w) refl
        (λ e w'. try_all-Answers ps (errs ++ (provider_failed p e ∷ [])) w')
    where
      go :
          (r : W × Result Resp)
          → p.complete req w ≡ r
          → ((e : Error) (w' : W)
              → Answers
                  (errs ++ (provider_failed p e ∷ []))
                  ps
                  w'
                  (try_all ps req (errs ++ (provider_failed p e ∷ [])) w'))
          → Answers errs (p ∷ ps) w (elim r.1 as (λ _. W × Result Resp) [
            | ok resp ↦ (r.0, ok resp)
            | err e ↦ try_all ps req (errs ++ (provider_failed p e ∷ [])) r.0
          ])
      go (w', ok resp) called later = answered [] ps p untried called
      go (w', err e) called later = one_more errs p ps w w' e _ called (later e w')

some_candidate :
    {Req Resp W : Type 0} (registry : Option (Map Bool)) (ps : List (Provider Req Resp W))
    → candidates registry ps ≡ []
    → ps ≡ []
unfolding candidates
some_candidate none ps h = h
some_candidate {Req} {Resp} {W} (some available) ps h = go (select_available available ps) h
  where
    go :
        (l : List (Provider Req Resp W))
        → (elim l as (λ _. List (Provider Req Resp W)) [ [] ↦ ps | p ∷ rest ↦ p ∷ rest ]) ≡ []
        → ps ≡ []
    go [] e = e
    go (p ∷ rest) e = cc

-- `Complete` of a fallback asks the candidates in order: it returns the response of the first that
-- does not fail, after which no other is asked, or, if all fail, the errors of all in order. There
-- are candidates where there are providers.
pub complete-Answers :
    {Req Resp W : Type 0} (registry : Option (Map Bool)) (ps : List (Provider Req Resp W))
    (req : Req) (w : W)
    → Answers req [] (candidates registry ps) w (complete registry ps req w)
      × (candidates registry ps ≡ [] → ps ≡ [])
unfolding complete candidates
complete-Answers registry ps req w =
    (try_all-Answers req (candidates registry ps) [] w, some_candidate registry ps)
