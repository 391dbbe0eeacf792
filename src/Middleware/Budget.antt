-- ===== src/Middleware/Budget.antt =====
-- pkg/middleware/budget.go: limits on the number of calls and on tokens. Counts of tokens are not
-- negative here.
use bunshin_go.Common.{ℕ, ◌+◌, ◌-◌, [], Option, none, some, if◌then◌else◌, ltb, ◌==◌}
use bunshin_go.Core.Errors.{Error, errorf, wrapf_at}
use bunshin_go.Middleware.Runnables.{Pair, Runnable}

-- `ErrMaxIterationsExceeded` and `ErrTokenBudgetExceeded`.
abbrev pub err_max_iterations_exceeded : Error
err_max_iterations_exceeded = errorf "max iterations exceeded" []

abbrev pub err_token_budget_exceeded : Error
err_token_budget_exceeded = errorf "token budget exceeded" []

-- The part of `WithMaxIterations` that `Invoke` and `Stream` share; the world has the count in front.
-- No count is below 1, so a limit below 0 is the limit 0.
unfoldable pub counted : {W B : Type 0} → ℕ → (W → W × Pair B) → ℕ × W → (ℕ × W) × Pair B
counted max call (count, w) =
    if ltb max (count + 1)
    then ((count + 1, w), (none, some (wrapf_at "%w: limit %d" max err_max_iterations_exceeded)))
    else let (w', out) = call w in ((count + 1, w'), out)

-- `WithMaxIterations`.
unfoldable pub with_max_iterations :
    {Ctx W A Ch : Type 0} → ℕ → Runnable Ctx W A Ch → Runnable Ctx (ℕ × W) A Ch
with_max_iterations max next = record {
  name = next.name;
  invoke = λ ctx input. counted max (next.invoke ctx input);
  stream = λ ctx input. counted max (next.stream ctx input);
}

-- A call of `Consume` in progress: before `Load`, before `CompareAndSwap` with the value loaded, or
-- returned, with or without success. The number is the count of tokens asked for.
pub data Phase : Type 0 where
  ready : ℕ → Phase
  loaded : ℕ → ℕ → Phase
  spent : ℕ → Phase
  refused : ℕ → Phase

-- The next atomic operation of a call, on `remaining`.
unfoldable pub consume_step : ℕ → Phase → ℕ × Phase
consume_step remaining (ready n) = (remaining, loaded n remaining)
consume_step remaining (loaded n cur) =
    if ltb cur n
    then (remaining, refused n)
    else if remaining == cur
    then (cur - n, spent n)
    else (remaining, ready n)
consume_step remaining (spent n) = (remaining, spent n)
consume_step remaining (refused n) = (remaining, refused n)

-- `Consume` with no other call at the same time.
unfoldable pub consume : ℕ → ℕ → ℕ × Option Error
consume n remaining =
    if ltb remaining n then (remaining, some err_token_budget_exceeded) else (remaining - n, none)

-- The part of the closure of `WithTokenBudget` after the call of the runnable.
unfoldable pub settle : {W A : Type 0} → Option (Option A → ℕ) → (ℕ × W) × Pair A → (ℕ × W) × Pair A
settle extractor (world, (out, some e)) = (world, (out, some e))
settle none (world, (out, none)) = (world, (out, none))
settle (some count) ((remaining, w), (out, none)) =
    let (remaining', e) = consume (count out) remaining in ((remaining', w), (out, e))

module _ {Ctx W A Ch : Type 0} where
  -- `WithTokenBudget`, with the tracker's budget in front of the world; `inject` puts the tracker in
  -- the context.
  unfoldable pub with_token_budget :
      (Ctx → Ctx) → Option (Option A → ℕ) → Runnable Ctx (ℕ × W) A Ch → Runnable Ctx (ℕ × W) A Ch
  unfolding settle
  with_token_budget inject extractor next = record {
    name = next.name;
    invoke = λ ctx input world.
        if world.0 == 0
        then (world, (none, some err_token_budget_exceeded))
        else settle extractor (next.invoke (inject ctx) input world);
    stream = λ ctx input world.
        if world.0 == 0
        then (world, (none, some err_token_budget_exceeded))
        else next.stream (inject ctx) input world;
  }
