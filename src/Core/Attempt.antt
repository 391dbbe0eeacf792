-- ===== src/Core/Attempt.antt =====
-- The outcome of Go code that may also panic.
use bunshin_go.Common.{String, List}
use bunshin_go.Core.Errors.{Error, Result, ok, err, wrapf}

pub data Attempt {ℓ} (A : Type ℓ) : Type ℓ where
  returns : A → Attempt A
  fails : Error → Attempt A
  panics : Attempt A

infixl 5 ◌>>=◌
abbrev pub ◌>>=◌ {ℓ κ} : {A : Type ℓ} {B : Type κ} → Attempt A → (A → Attempt B) → Attempt B
returns a >>= f = f a
fails e >>= f = fails e
panics >>= f = panics

-- A call that cannot panic.
abbrev pub calls {ℓ} : {A : Type ℓ} → Result A → Attempt A
calls (ok a) = returns a
calls (err e) = fails e

-- `fmt.Errorf` round the error of a call; a panic passes through.
abbrev pub wrap_attempt {ℓ} : {A : Type ℓ} → String → List String → Attempt A → Attempt A
wrap_attempt format args (returns a) = returns a
wrap_attempt format args (fails e) = fails (wrapf format args e)
wrap_attempt format args panics = panics
