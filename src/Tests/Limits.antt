-- ===== src/Tests/Limits.antt =====
-- pkg/middleware and pkg/memory/store.go: runs of the limits, of the callers' checks and of a window.
use bunshin_go.Common.{
  String, ℕ, ◌+◌, List, [], ◌∷◌, ◌++◌, Option, none, some, Bool, true, false, ◌≡◌, refl, differs,
  str_eq,
}
use bunshin_go.Core.Errors.{Result, ok, err, errorf}
use bunshin_go.Core.Value.{pos}
use bunshin_go.Middleware.Runnables.{Runnable, chain}
use bunshin_go.Middleware.Budget.{spent, refused, consume_step, with_max_iterations}
use bunshin_go.Middleware.Limits.{call_all, take, max_iterations-take}
use bunshin_go.Middleware.Consuming.{run_schedule, step_at, all_ready, total_spent, consume-Sound}
use bunshin_go.Middleware.Auth.{
  Principal, Context, has_role, with_bearer_jwt, with_rbac, guarded-Admits,
}
use bunshin_go.Memory.Threads.{MemoryStore, window, walk, rev_append, drop}
use bunshin_go.Memory.Windows.{Fits, window-Fits}

-- A runnable that records its inputs.
abbrev recorder : Runnable (Unit {0}) (List ℕ) ℕ (Unit {0})
recorder = record {
  name = "recorder";
  invoke = λ ctx x w. (w ++ (x ∷ []), (some x, none));
  stream = λ ctx x w. (w, (none, none));
}

max_iterations-take_example :
    (call_all (with_max_iterations 2 recorder) tt (7 ∷ 8 ∷ 9 ∷ []) (0, [])).1
    ≡ call_all recorder tt (take 2 (7 ∷ 8 ∷ 9 ∷ [])) []
max_iterations-take_example = max_iterations-take 2 recorder tt (7 ∷ 8 ∷ 9 ∷ []) []

recorded : call_all recorder tt (take 2 (7 ∷ 8 ∷ 9 ∷ [])) [] ≡ 7 ∷ 8 ∷ []
unfolding call_all take
recorded = refl

-- Two calls load the same value, and the second has to try again: it is then refused.
race :
    run_schedule (0 ∷ 1 ∷ 0 ∷ 1 ∷ 1 ∷ 1 ∷ []) (5, all_ready (3 ∷ 4 ∷ []))
    ≡ (2, spent 3 ∷ refused 4 ∷ [])
unfolding run_schedule step_at consume_step
race = refl

consume-Sound_example :
    (run_schedule (0 ∷ 1 ∷ 0 ∷ 1 ∷ 1 ∷ 1 ∷ []) (5, all_ready (3 ∷ 4 ∷ []))).0
      + total_spent (run_schedule (0 ∷ 1 ∷ 0 ∷ 1 ∷ 1 ∷ 1 ∷ []) (5, all_ready (3 ∷ 4 ∷ []))).1
    ≡ 5
consume-Sound_example = (consume-Sound (0 ∷ 1 ∷ 0 ∷ 1 ∷ 1 ∷ 1 ∷ []) 5 (3 ∷ 4 ∷ [])).0

-- A runnable whose output costs 9 tokens.
abbrev costly : Runnable (Unit {0}) (ℕ × ℕ) ℕ (Unit {0})
costly = record {
  name = "costly";
  invoke = λ ctx x w. ((w.0, w.1 + 1), (some 9, none));
  stream = λ ctx x w. (w, (none, none));
}

abbrev tokens : Option ℕ → ℕ
tokens none = 0
tokens (some n) = n

abbrev admin : Principal
admin = record { subject = "root"; tenant_id = "acme"; roles = "admin" ∷ []; claims = [] }

abbrev request : Context
request = record { principal = none; token = some "secret" }

abbrev service : Runnable Context ℕ ℕ (Unit {0})
service = record {
  name = "service";
  invoke = λ ctx x w. (w + 1, (some x, none));
  stream = λ ctx x w. (w, (some tt, none));
}

abbrev check_token : String → Result Principal
check_token token = elim (str_eq token "secret") [ true ↦ ok admin | false ↦ err (errorf "bad" []) ]

abbrev administrators : Principal → Bool
administrators p = has_role p "admin"

guarded-Admits_example :
    (chain service (with_bearer_jwt check_token ∷ with_rbac administrators ∷ [])).invoke request 1 0
    ≡ (1, (some 1, none))
unfolding has_role
guarded-Admits_example =
    (guarded-Admits check_token administrators service request 1 0).0 admin (record {
      token = "secret";
      sent = refl;
      present = differs refl;
      valid = refl;
      permitted = refl;
    })

-- Messages that cost what they are.
abbrev thread : MemoryStore ℕ
thread = record { messages = 5 ∷ 2 ∷ 3 ∷ []; token_counter = λ m. m }

two_recent : window (pos 6) thread ≡ 2 ∷ 3 ∷ []
unfolding window walk rev_append drop
two_recent = refl

window-Fits_example : Fits (λ m. m) 6 (5 ∷ 2 ∷ 3 ∷ []) (window (pos 6) thread)
window-Fits_example = window-Fits thread 5
