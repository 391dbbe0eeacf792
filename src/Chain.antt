-- ===== src/Chain.antt =====
-- pkg/chain/types.go and pkg/chain/chain.go: steps that run one after another.
use bunshin_go.Common.{String, List, [], ◌∷◌, ◌++◌, Option, none, some, ◌≡◌, refl}
use bunshin_go.Core.Errors.{Error, wrapf}
use bunshin_go.Core.State.{State}
use bunshin_go.Graph.{Runnable, Reply, done, failed, Final}

-- `Step`, without its model.
pub record Step (S W : Type 0) : Type 0 where
  pub id : String
  pub runnable : Runnable S W

-- `Chain`.
pub record Chain (S W : Type 0) : Type 0 where
  pub name : String
  pub steps : List (Step S W)

module _ {S W : Type 0} where
  -- `New`.
  unfoldable pub new_chain : String → List (Step S W) → Chain S W
  new_chain name steps = record { name = name; steps = steps }

  -- The loop of `Invoke` over the steps that are left; `ctx_err` is `ctx.Err`.
  unfoldable pub run_steps : (W → Option Error) → String → List (Step S W) → State S → W → Final S W
  run_steps ctx_err name [] current w = record { state = current; error = none; world = w }
  run_steps ctx_err name (step ∷ rest) current w = elim (ctx_err w) [
    | some e ↦ record { state = current; error = some e; world = w }
    | none ↦
        let (w', reply) = step.runnable current w in
        elim reply [
          | failed e seen ↦ record {
            state = seen;
            error = some (wrapf "chain %q step %q: %w" (name ∷ step.id ∷ []) e);
            world = w';
          }
          | done out ↦ run_steps ctx_err name rest out w'
        ]
  ]

  -- `Invoke`.
  unfoldable pub invoke_chain : (W → Option Error) → Chain S W → State S → W → Final S W
  invoke_chain ctx_err c input w = run_steps ctx_err c.name c.steps input w

  -- A result that has no error is the input of what comes next; an error ends the run.
  unfoldable pub followed : Final S W → (State S → W → Final S W) → Final S W
  followed r next = elim r.error [ none ↦ next r.state r.world | some e ↦ r ]

  run_steps-append :
      (ctx_err : W → Option Error) (name : String) (xs ys : List (Step S W)) (s : State S) (w : W)
      → run_steps ctx_err name (xs ++ ys) s w
        ≡ followed (run_steps ctx_err name xs s w) (run_steps ctx_err name ys)
  unfolding run_steps followed
  run_steps-append ctx_err name [] ys s w = refl
  run_steps-append ctx_err name (x ∷ xs) ys s w =
      go (ctx_err w) (x.runnable s w) (run_steps-append ctx_err name xs ys)
    where
      go :
          (cancelled : Option Error) (p : W × Reply S)
          → ((s' : State S) (w' : W)
              → run_steps ctx_err name (xs ++ ys) s' w'
                ≡ followed (run_steps ctx_err name xs s' w') (run_steps ctx_err name ys))
          → (elim cancelled as (λ _. Final S W) [
            | some e ↦ record { state = s; error = some e; world = w }
            | none ↦ elim p.1 as (λ _. Final S W) [
              | failed e seen ↦ record {
                state = seen;
                error = some (wrapf "chain %q step %q: %w" (name ∷ x.id ∷ []) e);
                world = p.0;
              }
              | done out ↦ run_steps ctx_err name (xs ++ ys) out p.0
            ]
          ])
            ≡ followed
                (elim cancelled as (λ _. Final S W) [
                  | some e ↦ record { state = s; error = some e; world = w }
                  | none ↦ elim p.1 as (λ _. Final S W) [
                    | failed e seen ↦ record {
                      state = seen;
                      error = some (wrapf "chain %q step %q: %w" (name ∷ x.id ∷ []) e);
                      world = p.0;
                    }
                    | done out ↦ run_steps ctx_err name xs out p.0
                  ]
                ])
                (run_steps ctx_err name ys)
      go (some e) p later = refl
      go none (w', failed e seen) later = refl
      go none (w', done out) later = later out w'

-- A chain of the steps `xs` and then `ys` runs as the chain of `xs`, and, if that has no error, as the
-- chain of `ys` on the state it leaves; otherwise it ends with that error and no step of `ys` runs.
pub invoke_chain-append :
    {S W : Type 0} (ctx_err : W → Option Error) (name : String) (xs ys : List (Step S W))
    (input : State S) (w : W)
    → invoke_chain ctx_err (new_chain name (xs ++ ys)) input w
      ≡ followed
          (invoke_chain ctx_err (new_chain name xs) input w)
          (invoke_chain ctx_err (new_chain name ys))
unfolding invoke_chain new_chain
invoke_chain-append ctx_err name xs ys input w = run_steps-append ctx_err name xs ys input w
