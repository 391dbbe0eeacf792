-- ===== src/Middleware/Retrying.antt =====
-- pkg/middleware/middleware.go: how often `WithRetry` calls a runnable, and what comes of it.
use Prim.Native.Nat.{◌/◌}
use bunshin_go.Common.{
  ℕ, zero, suc, ◌+◌, ◌-◌, ◌≤◌, ◌<◌, Option, none, some, Bool, true, false, ◌≡◌, refl, ap, ◌∙◌,
  arith,
}
use bunshin_go.Core.Errors.{Error, wrapf_at}
use bunshin_go.Core.Value.{ℤ, pos, negsuc}
use bunshin_go.Middleware.Runnables.{Pair, Runnable}
use bunshin_go.Middleware.Retry.{
  RetryConfig, Clock, attempts_of, retries, attempts_failed, pause, jittered, multiplier_of,
  answered, resumed, attempt_from, with_retry,
}

-- Where the loop stands: whether the next attempt is the first, the delay, the last error, the world.
pub record Standing (W : Type 0) : Type 0 where
  pub first : Bool
  pub delay : ℤ
  pub last : Option Error
  pub world : W

module _ {W A : Type 0} (retry_if : Error → Bool) (before : Bool → ℤ → W → W × (Option Error × ℤ))
    (call : W → W × Pair A) where
  -- So many attempts one after the other fail with an error that is retried, and no wait is cut short.
  pub data Failing : ℕ → Standing W → Standing W → Type 0 where
    untried : {s : Standing W} → Failing 0 s s
    failing :
        {k : ℕ} {s t : Standing W} {w w' : W} {d : ℤ} {out : Option A} {e : Error}
        → before s.first s.delay s.world ≡ (w, (none, d))
        → call w ≡ (w', (out, some e))
        → retry_if e ≡ true
        → Failing k (record { first = false; delay = d; last = some e; world = w' }) t
        → Failing (suc k) s t

  abbrev from : ℕ → ℕ → Standing W → W × Pair A
  from max left s = attempt_from retry_if max before call left s.first s.delay s.last s.world

  answered_retried :
      (w : W) (out : Option A) (e : Error) (again : Error → W → W × Pair A)
      → retry_if e ≡ true
      → answered retry_if again (w, (out, some e)) ≡ again e w
  unfolding answered
  answered_retried w out e again r = rw (r, answered) refl

  from_failing :
      (max left : ℕ) {w w' : W} {d : ℤ} {out : Option A} {e : Error} (s : Standing W)
      → before s.first s.delay s.world ≡ (w, (none, d))
      → call w ≡ (w', (out, some e))
      → retry_if e ≡ true
      → from max (suc left) s
        ≡ from max left (record { first = false; delay = d; last = some e; world = w' })
  unfolding attempt_from resumed
  from_failing max left s b c r = rw (b, c) (answered_retried _ _ _ _ r)

  from_succeeding :
      (max left : ℕ) {w w' : W} {d : ℤ} {out : Option A} (s : Standing W)
      → before s.first s.delay s.world ≡ (w, (none, d))
      → call w ≡ (w', (out, none))
      → from max (suc left) s ≡ (w', (out, none))
  unfolding attempt_from resumed answered
  from_succeeding max left s b c = rw (b, c) refl

  from-Failing :
      (max left : ℕ) {k : ℕ} {s t : Standing W}
      → Failing k s t
      → from max (k + left) s ≡ from max left t
  from-Failing max left untried = ap (λ n. from max n _) (omega arith)
  from-Failing max left {s = s} (failing {k = k} b c r f) =
      ap (λ n. from max n s) (omega arith)
      ∙ from_failing max (k + left) s b c r
      ∙ from-Failing max left f

  from_enough :
      (max k : ℕ) {w w' : W} {d : ℤ} {out : Option A} (s t : Standing W)
      → Failing k s t
      → k < max
      → before t.first t.delay t.world ≡ (w, (none, d))
      → call w ≡ (w', (out, none))
      → from max max s ≡ (w', (out, none))
  from_enough max k s t f h b c =
      ap (λ n. from max n s) (omega arith)
      ∙ from-Failing max (suc (max - suc k)) f
      ∙ from_succeeding max (max - suc k) t b c

  from_all :
      (max : ℕ) (s t : Standing W) (e : Error)
      → Failing max s t
      → t.last ≡ some e
      → from max max s ≡ (t.world, (none, some (wrapf_at "all %d attempts failed: %w" max e)))
  unfolding attempt_from
  from_all max s t e f h =
      ap (λ n. from max n s) (omega arith)
      ∙ from-Failing max 0 f
      ∙ ap (λ last. (t.world, (none, some (attempts_failed max last)))) h

-- `WithRetry` recovers: when the attempts before fail with errors that are retried, the context does
-- not end while it waits, fewer than `MaxAttempts` attempts (3 by default) have been made and the
-- next one succeeds, then `Invoke` returns what this one returns.
pub retry_recovers :
    {Ctx W A Ch : Type 0} (clock : Clock Ctx W) (cfg : RetryConfig) (next : Runnable Ctx W A Ch)
    (ctx : Ctx) (input : A) (k : ℕ) (w w' w'' : W) (delay : ℤ) (out : Option A) (t : Standing W)
    → Failing
        (retries cfg.retry_if)
        (pause clock ctx (multiplier_of clock cfg.multiplier))
        (next.invoke ctx input)
        k
        (record { first = true; delay = cfg.initial_delay; last = none; world = w })
        t
    → k < attempts_of cfg.max_attempts
    → pause clock ctx (multiplier_of clock cfg.multiplier) t.first t.delay t.world
      ≡ (w', (none, delay))
    → next.invoke ctx input w' ≡ (w'', (out, none))
    → (with_retry clock cfg next).invoke ctx input w ≡ (w'', (out, none))
unfolding with_retry
retry_recovers clock cfg next ctx input k w w' w'' delay out t f h b c =
    from_enough (retries cfg.retry_if) (pause clock ctx (multiplier_of clock cfg.multiplier))
      (next.invoke ctx input) (attempts_of cfg.max_attempts) k _ t f h b c

-- When all attempts that `MaxAttempts` allows fail with errors that are retried, and the context does
-- not end while `WithRetry` waits, `Invoke` returns the last error, wrapped with their number.
pub retry_exhausts :
    {Ctx W A Ch : Type 0} (clock : Clock Ctx W) (cfg : RetryConfig) (next : Runnable Ctx W A Ch)
    (ctx : Ctx) (input : A) (w : W) (t : Standing W) (e : Error)
    → Failing
        (retries cfg.retry_if)
        (pause clock ctx (multiplier_of clock cfg.multiplier))
        (next.invoke ctx input)
        (attempts_of cfg.max_attempts)
        (record { first = true; delay = cfg.initial_delay; last = none; world = w })
        t
    → t.last ≡ some e
    → (with_retry clock cfg next).invoke ctx input w ≡ (
      t.world,
      (none, some (wrapf_at "all %d attempts failed: %w" (attempts_of cfg.max_attempts) e)),
    )
unfolding with_retry
retry_exhausts clock cfg next ctx input w t e f h =
    from_all (retries cfg.retry_if) (pause clock ctx (multiplier_of clock cfg.multiplier))
      (next.invoke ctx input) (attempts_of cfg.max_attempts) _ t e f h

module _ {W A : Type 0} (calls : W → ℕ) (retry_if : Error → Bool)
    (before : Bool → ℤ → W → W × (Option Error × ℤ)) (call : W → W × Pair A)
    (waiting : (first : Bool) (d : ℤ) (w : W) → calls (before first d w).0 ≡ calls w)
    (counted : (w : W) → calls (call w).0 ≡ calls w + 1) where
  abbrev Between : ℕ → ℕ → W × Pair A → Type 0
  Between low high p = (low ≤ calls p.0) × (calls p.0 ≤ high)

  answered-Between :
      (again : Error → W → W × Pair A) (low high : ℕ) (p : W × Pair A)
      → Between low high p
      → ((e : Error) → Between low high (again e p.0))
      → Between low high (answered retry_if again p)
  unfolding answered
  answered-Between again low high (w, (out, none)) h later = h
  answered-Between again low high (w, (out, some e)) h later = go (retry_if e)
    where
      go :
          (b : Bool)
          → Between low high
              (elim b as (λ _. W × Pair A) [ false ↦ (w, (none, some e)) | true ↦ again e w ])
      go false = h
      go true = later e

  called-Between :
      (again : Error → W → W × Pair A) (left : ℕ) (w : W)
      → ((e : Error) (w : W) → Between (calls w) (calls w + left) (again e w))
      → Between (calls w + 1) (calls w + suc left) (answered retry_if again (call w))
  called-Between again left w later =
      answered-Between again (calls w + 1) (calls w + suc left) (call w)
        (omega (arith, counted w), omega (arith, counted w))
        (λ e. (
          omega (arith, counted w, (later e (call w).0).0),
          omega (arith, counted w, (later e (call w).0).1),
        ))

  resumed-Between :
      (again : ℤ → Error → W → W × Pair A) (left made : ℕ) (p : W × (Option Error × ℤ))
      → calls p.0 ≡ made
      → ((d : ℤ) (e : Error) (w : W) → Between (calls w) (calls w + left) (again d e w))
      → Between made (made + suc left) (resumed retry_if call again p)
  unfolding resumed
  resumed-Between again left made (w, (some e, d)) h later = (omega arith, omega arith)
  resumed-Between again left made (w, (none, d)) h later =
      let (low, high) = called-Between (again d) left w (later d) in
      (omega (arith, low), omega (arith, high))

  attempt_from-Between :
      (max left : ℕ) (first : Bool) (d : ℤ) (last : Option Error) (w : W)
      → Between
          (calls w)
          (calls w + left)
          (attempt_from retry_if max before call left first d last w)
  unfolding attempt_from
  attempt_from-Between max zero first d last w = (omega arith, omega arith)
  attempt_from-Between max (suc left) first d last w =
      resumed-Between (λ d e. attempt_from retry_if max before call left false d (some e)) left
        (calls w) (before first d w) (waiting first d w)
        (λ d e w'. attempt_from-Between max left false d (some e) w')

  first-Between :
      (max n : ℕ) (d : ℤ) (last : Option Error) (w : W)
      → 0 < n
      → before true d w ≡ (w, (none, d))
      → Between (calls w + 1) (calls w + n) (attempt_from retry_if max before call n true d last w)
  unfolding attempt_from resumed
  first-Between max zero d last w h b = absurd omega arith
  first-Between max (suc left) d last w h b = rw b (
      called-Between (λ e. attempt_from retry_if max before call left false d (some e)) left w
        (λ e w'. attempt_from-Between max left false d (some e) w'))

attempts_of-Positive : (n : ℤ) → 0 < attempts_of n
unfolding attempts_of
attempts_of-Positive (pos zero) = omega arith
attempts_of-Positive (pos (suc n)) = omega arith
attempts_of-Positive (negsuc n) = omega arith

module _ {Ctx W : Type 0} (calls : W → ℕ) (clock : Clock Ctx W) (ctx : Ctx)
    (waits : (d : ℤ) (w : W) → calls (clock.wait ctx d w).0 ≡ calls w)
    (randoms : (n : ℕ) (w : W) → calls (clock.random n w).0 ≡ calls w) where
  calls-jittered : (d : ℤ) (w : W) → calls (jittered clock d w).0 ≡ calls w
  unfolding jittered
  calls-jittered (pos n) w = ground (arith, randoms (n / 2) w)
  calls-jittered (negsuc n) w = refl

  calls-pause :
      (multiplier : ℕ) (first : Bool) (d : ℤ) (w : W)
      → calls (pause clock ctx multiplier first d w).0 ≡ calls w
  unfolding pause
  calls-pause multiplier true d w = refl
  calls-pause multiplier false d w = waits _ _ ∙ calls-jittered d w

-- `WithRetry` calls the runnable at least once and at most `MaxAttempts` times (3 by default), for a
-- count of calls that each call raises by one and that neither waiting nor the random numbers change.
pub retry-AtMost :
    {Ctx W A Ch : Type 0} (calls : W → ℕ) (clock : Clock Ctx W) (cfg : RetryConfig)
    (next : Runnable Ctx W A Ch) (ctx : Ctx) (input : A) (w : W)
    → ((d : ℤ) (w : W) → calls (clock.wait ctx d w).0 ≡ calls w)
    → ((n : ℕ) (w : W) → calls (clock.random n w).0 ≡ calls w)
    → ((w : W) → calls (next.invoke ctx input w).0 ≡ calls w + 1)
    → (calls w + 1 ≤ calls ((with_retry clock cfg next).invoke ctx input w).0)
      × (calls ((with_retry clock cfg next).invoke ctx input w).0
          ≤ calls w + attempts_of cfg.max_attempts)
unfolding with_retry pause
retry-AtMost calls clock cfg next ctx input w waits randoms counted =
    first-Between calls (retries cfg.retry_if)
      (pause clock ctx (multiplier_of clock cfg.multiplier)) (next.invoke ctx input)
      (calls-pause calls clock ctx waits randoms _) counted (attempts_of cfg.max_attempts)
      (attempts_of cfg.max_attempts) cfg.initial_delay none w
      (attempts_of-Positive cfg.max_attempts) refl
