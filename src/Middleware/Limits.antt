-- ===== src/Middleware/Limits.antt =====
-- pkg/middleware/budget.go: what the limits let through.
use bunshin_go.Common.{
  ℕ, zero, suc, ◌+◌, ◌<◌, ◌≤◌, List, [], ◌∷◌, Option, none, some, ◌≡◌, refl, ap, ◌∙◌, if◌then◌else◌,
  ◌==◌, arith,
}
use bunshin_go.Middleware.Runnables.{Pair, Runnable}
use bunshin_go.Middleware.Budget.{
  counted, with_max_iterations, consume, settle, with_token_budget, err_token_budget_exceeded,
}

-- A runnable is called with one input after another.
unfoldable pub call_all : {Ctx W A Ch : Type 0} → Runnable Ctx W A Ch → Ctx → List A → W → W
call_all r ctx [] w = w
call_all r ctx (x ∷ xs) w = call_all r ctx xs (r.invoke ctx x w).0

unfoldable pub take : {A : Type 0} → ℕ → List A → List A
take zero xs = []
take (suc n) [] = []
take (suc n) (x ∷ xs) = x ∷ take n xs

counted_over :
    {W B : Type 0} (max : ℕ) (call : W → W × Pair B) (k : ℕ) (w : W)
    → max ≤ k
    → (counted max call (k, w)).0 ≡ (k + 1, w)
unfolding counted
counted_over max call k w h = ground arith

counted_within :
    {W B : Type 0} (max : ℕ) (call : W → W × Pair B) (k : ℕ) (w : W)
    → k < max
    → (counted max call (k, w)).0 ≡ (k + 1, (call w).0)
unfolding counted
counted_within max call k w h = ground arith

refused_all :
    {Ctx W A Ch : Type 0} (max : ℕ) (next : Runnable Ctx W A Ch) (ctx : Ctx) (inputs : List A)
    (k : ℕ) (w : W)
    → max ≤ k
    → (call_all (with_max_iterations max next) ctx inputs (k, w)).1 ≡ w
unfolding call_all with_max_iterations
refused_all max next ctx [] k w h = refl
refused_all max next ctx (x ∷ xs) k w h =
    ap (λ q. (call_all (with_max_iterations max next) ctx xs q).1)
      (counted_over max (next.invoke ctx x) k w h)
    ∙ refused_all max next ctx xs (k + 1) w (omega arith)

call_all-take :
    {Ctx W A Ch : Type 0} (more max : ℕ) (next : Runnable Ctx W A Ch) (ctx : Ctx) (inputs : List A)
    (k : ℕ) (w : W)
    → k + more ≡ max
    → (call_all (with_max_iterations max next) ctx inputs (k, w)).1
      ≡ call_all next ctx (take more inputs) w
unfolding call_all take with_max_iterations
call_all-take zero max next ctx inputs k w h = refused_all max next ctx inputs k w (omega arith)
call_all-take (suc more) max next ctx [] k w h = refl
call_all-take (suc more) max next ctx (x ∷ xs) k w h =
    ap (λ q. (call_all (with_max_iterations max next) ctx xs q).1)
      (counted_within max (next.invoke ctx x) k w (omega arith))
    ∙ call_all-take more max next ctx xs (k + 1) (next.invoke ctx x w).0 (omega arith)

-- However many calls are made behind `WithMaxIterations`, the runnable is called with the first
-- `max` inputs, in order, and with no other.
pub max_iterations-take :
    {Ctx W A Ch : Type 0} (max : ℕ) (next : Runnable Ctx W A Ch) (ctx : Ctx) (inputs : List A)
    (w : W)
    → (call_all (with_max_iterations max next) ctx inputs (0, w)).1
      ≡ call_all next ctx (take max inputs) w
max_iterations-take max next ctx inputs w = call_all-take max max next ctx inputs 0 w (omega arith)

if_positive : {B : Type 0} (r : ℕ) (x y : B) → 0 < r → (if r == 0 then x else y) ≡ y
if_positive r x y h = ground arith

settle_over :
    {W A : Type 0} (count : Option A → ℕ) (r : ℕ) (w : W) (out : Option A)
    → r < count out
    → settle (some count) ((r, w), (out, none)) ≡ ((r, w), (out, some err_token_budget_exceeded))
unfolding settle consume
settle_over count r w out h = ground arith

settle_keeps :
    {W A : Type 0} (extractor : Option (Option A → ℕ)) (p : (ℕ × W) × Pair A)
    → (settle extractor p).0.1 ≡ p.0.1
unfolding settle
settle_keeps extractor (world, (out, some e)) = refl
settle_keeps none (world, (out, none)) = refl
settle_keeps (some count) ((r, w), (out, none)) = refl

-- A call behind `WithTokenBudget` whose tokens are more than what remains returns its output with the
-- error, and leaves the budget as it was: the next call reaches the runnable again.
pub budget_overrun :
    {Ctx W A Ch : Type 0} (inject : Ctx → Ctx) (count : Option A → ℕ)
    (next : Runnable Ctx (ℕ × W) A Ch) (ctx : Ctx) (input again : A) (r : ℕ) (w w' : W)
    (out : Option A)
    → 0 < r
    → next.invoke (inject ctx) input (r, w) ≡ ((r, w'), (out, none))
    → r < count out
    → ((with_token_budget inject (some count) next).invoke ctx input (r, w)
        ≡ ((r, w'), (out, some err_token_budget_exceeded)))
      × (((with_token_budget inject (some count) next).invoke ctx again (r, w')).0.1
          ≡ (next.invoke (inject ctx) again (r, w')).0.1)
unfolding with_token_budget
budget_overrun {W = W} {A = A} inject count next ctx input again r w w' out left called over = (
  if_positive r _ _ left ∙ ap (settle (some count)) called ∙ settle_over count r w' out over,
  ap (λ (q : (ℕ × W) × Pair A). q.0.1) (if_positive r _ _ left) ∙ settle_keeps (some count) _,
)
