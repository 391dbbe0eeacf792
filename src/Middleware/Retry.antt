-- ===== src/Middleware/Retry.antt =====
-- pkg/middleware/middleware.go: `WithRetry`, `WithLogging` and `WithMetadata`.
use Prim.Native.Nat.{◌/◌}
use bunshin_go.Common.{
  ℕ, zero, suc, ◌+◌, ◌-◌, List, [], ◌∷◌, String, Option, none, some, Bool, true, false, ltb,
  if◌then◌else◌,
}
use bunshin_go.Core.Errors.{Error, errorf_at, wrapf_at}
use bunshin_go.Core.Value.{ℤ, pos, negsuc}
use bunshin_go.Middleware.Runnables.{Pair, Middleware}

-- `RetryConfig`; a float64 is its 64 bits.
pub record RetryConfig : Type 0 where
  pub max_attempts : ℤ
  pub initial_delay : ℤ
  pub multiplier : ℕ
  pub retry_if : Option (Error → Bool)

-- What Go's packages supply: the wait for `time.After` or for the end of the context, whose error it
-- then returns, `rand.Int63n`, the product of a duration and a float64, and the test `<= 0`.
pub record Clock (Ctx W : Type 0) : Type 0 where
  pub wait : Ctx → ℤ → W → W × Option Error
  pub random : ℕ → W → W × ℕ
  pub scale : ℕ → ℤ → ℤ
  pub at_most_zero : ℕ → Bool

-- The bits of 2.0.
abbrev pub two : ℕ
two = 4611686018427387904

-- An int64 that is written as a number below 2 ^ 64.
abbrev pub wrap_int : ℕ → ℤ
wrap_int n = if ltb n 9223372036854775808 then pos n else negsuc (18446744073709551615 - n)

-- The default of `MaxAttempts`.
unfoldable pub attempts_of : ℤ → ℕ
attempts_of (pos zero) = 3
attempts_of (pos (suc n)) = suc n
attempts_of (negsuc n) = 3

-- The default of `RetryIf`.
unfoldable pub retries : Option (Error → Bool) → Error → Bool
retries none e = true
retries (some test) e = test e

module _ {Ctx W : Type 0} (clock : Clock Ctx W) where
  -- The wait with its jitter.
  unfoldable pub jittered : ℤ → W → W × ℤ
  jittered (pos n) w =
      if ltb 0 (n / 2)
      then (let (w', r) = clock.random (n / 2) w in (w', wrap_int (n - n / 4 + r)))
      else (w, pos n)
  jittered (negsuc n) w = (w, negsuc n)

  -- What precedes an attempt: nothing before the first one, otherwise the wait. It returns the error
  -- of a context that has ended, and the delay after this one.
  unfoldable pub pause : Ctx → ℕ → Bool → ℤ → W → W × (Option Error × ℤ)
  pause ctx multiplier true delay w = (w, (none, delay))
  pause ctx multiplier false delay w =
      let (w', wait) = jittered delay w in
      let (w'', stop) = clock.wait ctx wait w' in (w'', (stop, clock.scale multiplier delay))

  -- The default of `Multiplier`.
  unfoldable pub multiplier_of : ℕ → ℕ
  multiplier_of m = if clock.at_most_zero m then two else m

-- The error after the last attempt; there was one, since `MaxAttempts` is at least 1.
abbrev pub attempts_failed : ℕ → Option Error → Error
attempts_failed max none = errorf_at "all %d attempts failed: %w" max
attempts_failed max (some e) = wrapf_at "all %d attempts failed: %w" max e

module _ {W A : Type 0} (retry_if : Error → Bool) where
  -- What the loop does with what a call returns; `again` is the rest of the loop.
  unfoldable pub answered : (Error → W → W × Pair A) → W × Pair A → W × Pair A
  answered again (w, (out, none)) = (w, (out, none))
  answered again (w, (out, some e)) = elim (retry_if e) [
    | false ↦ (w, (none, some e))
    | true ↦ again e w
  ]

  -- The body of the loop after the wait.
  unfoldable pub resumed :
      (W → W × Pair A) → (ℤ → Error → W → W × Pair A) → W × (Option Error × ℤ) → W × Pair A
  resumed call again (w, (some e, delay)) = (w, (none, some e))
  resumed call again (w, (none, delay)) = answered (again delay) (call w)

  -- The loop, with the number of attempts that are left and whether the next is the first.
  unfoldable pub attempt_from :
      ℕ
      → (Bool → ℤ → W → W × (Option Error × ℤ))
      → (W → W × Pair A)
      → ℕ
      → Bool
      → ℤ
      → Option Error
      → W
      → W × Pair A
  attempt_from max before call zero first delay last w =
      (w, (none, some (attempts_failed max last)))
  attempt_from max before call (suc left) first delay last w =
      resumed call (λ d e. attempt_from max before call left false d (some e))
        (before first delay w)

-- `WithRetry`.
unfoldable pub with_retry :
    {Ctx W A Ch : Type 0} → Clock Ctx W → RetryConfig → Middleware Ctx W A Ch
with_retry clock cfg next = record {
  name = next.name;
  invoke = λ ctx input w.
      attempt_from (retries cfg.retry_if) (attempts_of cfg.max_attempts)
        (pause clock ctx (multiplier_of clock cfg.multiplier)) (next.invoke ctx input)
        (attempts_of cfg.max_attempts) true cfg.initial_delay none w;
  stream = next.stream;
}

-- `WithLogging`; `log` writes the line for the runnable and its error, or none.
unfoldable pub with_logging :
    {Ctx W A Ch : Type 0} → (String → Option Error → W → W) → Middleware Ctx W A Ch
with_logging log next = record {
  name = next.name;
  invoke =
      λ ctx input w. let (w', (out, e)) = next.invoke ctx input w in (log next.name e w', (out, e));
  stream = next.stream;
}

-- `inject` of `WithMetadata`, over `context.WithValue`; a key without a value is dropped.
unfoldable pub inject : {Ctx A : Type 0} → (A → A → Ctx → Ctx) → List A → Ctx → Ctx
inject with_value [] ctx = ctx
inject with_value (k ∷ []) ctx = ctx
inject with_value (k ∷ (v ∷ kv)) ctx = inject with_value kv (with_value k v ctx)

-- `WithMetadata`.
unfoldable pub with_metadata :
    {Ctx W A Ch : Type 0} → (A → A → Ctx → Ctx) → List A → Middleware Ctx W A Ch
with_metadata with_value kv next = record {
  name = next.name;
  invoke = λ ctx. next.invoke (inject with_value kv ctx);
  stream = λ ctx. next.stream (inject with_value kv ctx);
}
