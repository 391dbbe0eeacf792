-- ===== src/Tests/Retries.antt =====
-- pkg/middleware/middleware.go: a runnable that fails twice behind `WithRetry`.
use bunshin_go.Common.{ℕ, zero, suc, ◌+◌, ◌≤◌, none, some, true, false, ◌≡◌, refl, arith}
use bunshin_go.Core.Errors.{outside}
use bunshin_go.Core.Value.{pos}
use bunshin_go.Middleware.Runnables.{Runnable, Pair}
use bunshin_go.Middleware.Retry.{
  RetryConfig, Clock, with_retry, pause, jittered, multiplier_of, attempts_of, retries,
}
use bunshin_go.Middleware.Retrying.{
  Standing, Failing, untried, failing, retry_recovers, retry-AtMost,
}

-- The world counts the calls.
abbrev clock : Clock (Unit {0}) ℕ
clock = record {
  wait = λ ctx d w. (w, none);
  random = λ n w. (w, 0);
  scale = λ m d. d;
  at_most_zero = λ m. false;
}

abbrev third_time : ℕ → ℕ → ℕ × Pair ℕ
third_time x zero = (1, (none, some (outside 0)))
third_time x (suc zero) = (2, (none, some (outside 1)))
third_time x (suc (suc n)) = (suc (suc (suc n)), (some x, none))

abbrev flaky : Runnable (Unit {0}) ℕ ℕ (Unit {0})
flaky = record { name = "flaky"; invoke = λ ctx. third_time; stream = λ ctx x w. (w, (none, none)) }

abbrev config : RetryConfig
config = record { max_attempts = pos 0; initial_delay = pos 100; multiplier = 0; retry_if = none }

abbrev after_two : Standing ℕ
after_two = record { first = false; delay = pos 100; last = some (outside 1); world = 2 }

two_failures :
    Failing
      (retries none)
      (pause clock tt (multiplier_of clock 0))
      (third_time 7)
      2
      (record { first = true; delay = pos 100; last = none; world = 0 })
      after_two
unfolding retries pause jittered
two_failures = failing refl refl refl (failing refl refl refl untried)

waited : pause clock tt (multiplier_of clock 0) false (pos 100) 2 ≡ (2, (none, pos 100))
unfolding pause jittered
waited = refl

retry_recovers_example : (with_retry clock config flaky).invoke tt 7 0 ≡ (3, (some 7, none))
unfolding attempts_of
retry_recovers_example =
    retry_recovers clock config flaky tt 7 2 0 2 3 (pos 100) (some 7) after_two two_failures
      (omega arith) waited refl

counts_calls : (w : ℕ) → (third_time 7 w).0 ≡ w + 1
counts_calls zero = refl
counts_calls (suc zero) = refl
counts_calls (suc (suc n)) = omega arith

retry-AtMost_example :
    (0 + 1 ≤ ((with_retry clock config flaky).invoke tt 7 0).0)
    × (((with_retry clock config flaky).invoke tt 7 0).0 ≤ 0 + attempts_of (pos 0))
retry-AtMost_example =
    retry-AtMost (λ w. w) clock config flaky tt 7 0 (λ d w. refl) (λ n w. refl) counts_calls
