-- ===== src/Middleware/Auth.antt =====
-- pkg/middleware/auth.go: the middlewares that ask who the caller is.
use bunshin_go.Common.{
  String, List, Map, contains, false, [], ◌∷◌, Option, none, some, Bool, true, if◌then◌else◌,
  str_eq, ◌≡◌, refl, ◌≢◌, arith, eq_iff, Option-cases, Bool-cases, inl, inr,
}
use bunshin_go.Core.Errors.{Error, errorf, Result, ok, err, Result-cases}
use bunshin_go.Core.Value.{Value}
use bunshin_go.Middleware.Runnables.{Pair, Runnable, Middleware, chain}

-- `auth.Principal`.
pub record Principal : Type 0 where
  pub subject : String
  pub tenant_id : String
  pub roles : List String
  pub claims : Map Value

-- `HasRole`.
unfoldable pub has_role : Principal → String → Bool
has_role p role = contains role p.roles

-- The values of the context that are read here.
pub record Context : Type 0 where
  pub principal : Option Principal
  pub token : Option String

-- `ErrUnauthorized` and `ErrForbidden`.
abbrev pub err_unauthorized : Error
err_unauthorized = errorf "unauthorized" []

abbrev pub err_forbidden : Error
err_forbidden = errorf "forbidden" []

abbrev refuse : {W A : Type 0} → Error → W → W × Pair A
refuse e w = (w, (none, some e))

module _ {W A Ch : Type 0} where
  -- `WithAPIKey`.
  unfoldable pub with_api_key : Middleware Context W A Ch
  with_api_key next = record {
    name = next.name;
    invoke = λ ctx input w. elim ctx.principal [
      | none ↦ refuse err_unauthorized w
      | some p ↦ if str_eq p.subject "" then refuse err_unauthorized w else next.invoke ctx input w
    ];
    stream = next.stream;
  }

  -- `WithBearerJWT`.
  unfoldable pub with_bearer_jwt : (String → Result Principal) → Middleware Context W A Ch
  with_bearer_jwt validate next = record {
    name = next.name;
    invoke = λ ctx input w. elim ctx.token [
      | none ↦ refuse err_unauthorized w
      | some token ↦ if str_eq token "" then refuse err_unauthorized w else elim (validate token) [
        | err e ↦ refuse err_unauthorized w
        | ok p ↦ next.invoke (record ctx { principal = some p }) input w
      ]
    ];
    stream = next.stream;
  }

  -- `WithRBAC`.
  unfoldable pub with_rbac : (Principal → Bool) → Middleware Context W A Ch
  with_rbac allowed next = record {
    name = next.name;
    invoke = λ ctx input w. elim ctx.principal [
      | none ↦ refuse err_unauthorized w
      | some p ↦ if allowed p then next.invoke ctx input w else refuse err_forbidden w
    ];
    stream = next.stream;
  }

-- The caller that a token stands for, if it is allowed.
pub record Admits (validate : String → Result Principal) (allowed : Principal → Bool)
    (ctx : Context) (p : Principal) : Type 0 where
  pub token : String
  pub sent : ctx.token ≡ some token
  pub present : token ≢ ""
  pub valid : validate token ≡ ok p
  pub permitted : allowed p ≡ true

-- No caller is known by the token of the context: it is missing, empty or not valid.
pub data NotAuthenticated (validate : String → Result Principal) (ctx : Context) : Type 0 where
  no_token : ctx.token ≡ none → NotAuthenticated validate ctx
  empty_token : ctx.token ≡ some "" → NotAuthenticated validate ctx
  bad_token :
      {token : String} {e : Error}
      → ctx.token ≡ some token
      → validate token ≡ err e
      → NotAuthenticated validate ctx

module _ {W A Ch : Type 0} (validate : String → Result Principal) (allowed : Principal → Bool)
    (next : Runnable Context W A Ch) (ctx : Context) (input : A) (w : W) where
  guarded_admitted :
      (p : Principal)
      → Admits validate allowed ctx p
      → (chain next (with_bearer_jwt validate ∷ with_rbac allowed ∷ [])).invoke ctx input w
        ≡ next.invoke (record ctx { principal = some p }) input w
  unfolding chain with_bearer_jwt with_rbac
  guarded_admitted p h =
      rw (h.sent) (ground (arith, eq_iff h.token "", h.present, h.valid, h.permitted))

  guarded_unauthorized :
      NotAuthenticated validate ctx
      → (chain next (with_bearer_jwt validate ∷ with_rbac allowed ∷ [])).invoke ctx input w
        ≡ (w, (none, some err_unauthorized))
  unfolding chain with_bearer_jwt with_rbac
  guarded_unauthorized (no_token h) = rw h refl
  guarded_unauthorized (empty_token h) = rw h refl
  guarded_unauthorized (bad_token {token} {e} h bad) = elim (Bool-cases (str_eq token "")) [
    | inl nothing ↦ rw (h, nothing) refl
    | inr given ↦ rw (h, given, bad) refl
  ]

  guarded_forbidden :
      (p : Principal) (token : String)
      → ctx.token ≡ some token
      → token ≢ ""
      → validate token ≡ ok p
      → allowed p ≡ false
      → (chain next (with_bearer_jwt validate ∷ with_rbac allowed ∷ [])).invoke ctx input w
        ≡ (w, (none, some err_forbidden))
  unfolding chain with_bearer_jwt with_rbac
  guarded_forbidden p token sent present valid denied =
      rw sent (ground (arith, eq_iff token "", present, valid, denied))

  guarded_moved :
      ((chain next (with_bearer_jwt validate ∷ with_rbac allowed ∷ [])).invoke ctx input w).0 ≢ w
      → (p : Principal) × Admits validate allowed ctx p
  unfolding chain with_bearer_jwt with_rbac
  guarded_moved moved = elim (Option-cases ctx.token) [
    | inl absent ↦ absurd (moved (rw absent))
    | inr (token, sent) ↦ elim (Bool-cases (str_eq token "")) [
      | inl nothing ↦ absurd (moved (rw (sent, nothing)))
      | inr given ↦ elim (Result-cases (validate token)) [
        | inl (e, refused) ↦ absurd (moved (rw (sent, given, refused)))
        | inr (p, valid) ↦ elim (Bool-cases (allowed p)) [
          | inr denied ↦ absurd (moved (rw (sent, given, valid, denied)))
          | inl permitted ↦ (
            p,
            record {
              token = token;
              sent = sent;
              present = ground (arith, eq_iff token "");
              valid = valid;
              permitted = permitted;
            },
          )
        ]
      ]
    ]
  ]

-- Behind `WithBearerJWT` outside `WithRBAC`, `Invoke` of a runnable is its own call with the caller
-- that the token stands for where the token is there, valid and allowed. With no token, an empty or an
-- invalid one it returns `ErrUnauthorized`, with a valid one that is not allowed `ErrForbidden`, and
-- leaves the world alone; a call that does anything to the world had an allowed token. `Stream` is the
-- runnable's own, whatever the token.
pub guarded-Admits :
    {W A Ch : Type 0} (validate : String → Result Principal) (allowed : Principal → Bool)
    (next : Runnable Context W A Ch) (ctx : Context) (input : A) (w : W)
    → ((p : Principal)
        → Admits validate allowed ctx p
        → (chain next (with_bearer_jwt validate ∷ with_rbac allowed ∷ [])).invoke ctx input w
          ≡ next.invoke (record ctx { principal = some p }) input w)
      × (NotAuthenticated validate ctx
          → (chain next (with_bearer_jwt validate ∷ with_rbac allowed ∷ [])).invoke ctx input w
            ≡ (w, (none, some err_unauthorized)))
      × ((p : Principal) (token : String)
          → ctx.token ≡ some token
          → token ≢ ""
          → validate token ≡ ok p
          → allowed p ≡ false
          → (chain next (with_bearer_jwt validate ∷ with_rbac allowed ∷ [])).invoke ctx input w
            ≡ (w, (none, some err_forbidden)))
      × (((chain next (with_bearer_jwt validate ∷ with_rbac allowed ∷ [])).invoke ctx input w).0 ≢ w
          → (p : Principal) × Admits validate allowed ctx p)
      × ((chain next (with_bearer_jwt validate ∷ with_rbac allowed ∷ [])).stream ≡ next.stream)
unfolding chain with_bearer_jwt with_rbac
guarded-Admits validate allowed next ctx input w = (
  λ p h. guarded_admitted validate allowed next ctx input w p h,
  guarded_unauthorized validate allowed next ctx input w,
  guarded_forbidden validate allowed next ctx input w,
  guarded_moved validate allowed next ctx input w,
  refl,
)
