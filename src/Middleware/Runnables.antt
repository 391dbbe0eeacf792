-- ===== src/Middleware/Runnables.antt =====
-- pkg/middleware/types.go and pkg/middleware/middleware.go: runnables behind middlewares.
use bunshin_go.Common.{String, List, [], ◌∷◌, Option}
use bunshin_go.Core.Errors.{Error}

-- A Go pair `(value, error)`, either of which may be nil.
abbrev pub Pair : Type 0 → Type 0
Pair A = Option A × Option Error

-- `core.Runnable`: `Ctx` is the context, `W` all that a call may change, `A` the values, `Ch` the
-- channels that `Stream` returns.
pub record Runnable (Ctx W A Ch : Type 0) : Type 0 where
  pub name : String
  pub invoke : Ctx → A → W → W × Pair A
  pub stream : Ctx → A → W → W × Pair Ch

-- `Middleware`.
abbrev pub Middleware : Type 0 → Type 0 → Type 0 → Type 0 → Type 0
Middleware Ctx W A Ch = Runnable Ctx W A Ch → Runnable Ctx W A Ch

-- `Chain`: the loop from the last middleware to the first.
unfoldable pub chain :
    {Ctx W A Ch : Type 0} → Runnable Ctx W A Ch → List (Middleware Ctx W A Ch) → Runnable Ctx W A Ch
chain r [] = r
chain r (m ∷ mw) = m (chain r mw)
