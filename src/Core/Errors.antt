-- ===== src/Core/Errors.antt =====
-- Go error values: `errors.New` and `fmt.Errorf` in every package, and the wrapper of
-- pkg/core/errors.go.
use bunshin_go.Common.{
  String, ℕ, List, [], ◌∷◌, Bool, false, Option, none, some, str_eq, ◌≡◌, refl, ◌||◌, ◌⊎◌, inl, inr,
}

-- `outside` is an error of code that the library only calls; `errorf` a format with its arguments;
-- `wrapf` the same round the error that its `%w` verb wraps.
pub data Error : Type 0 where
  outside : ℕ → Error
  errorf : String → List String → Error
  wrapf : String → List String → Error → Error
  errorf_at : String → ℕ → Error
  wrapf_at : String → ℕ → Error → Error
  joined : Error → Error → Error

-- A Go result pair `(value, error)` of which the caller reads one part.
pub data Result {ℓ} (A : Type ℓ) : Type ℓ where
  ok : A → Result A
  err : Error → Result A

pub Result-cases {ℓ} :
    {A : Type ℓ} (r : Result A) → ((e : Error) × (r ≡ err e)) ⊎ ((a : A) × (r ≡ ok a))
Result-cases (ok a) = inr (a, refl)
Result-cases (err e) = inl (e, refl)

infixl 5 ◌>>=◌
abbrev pub ◌>>=◌ {ℓ κ} : {A : Type ℓ} {B : Type κ} → Result A → (A → Result B) → Result B
ok a >>= f = f a
err e >>= f = err e

-- `if err != nil { return fmt.Errorf("...: %w", err) }` round a call.
abbrev pub wrap {ℓ} : {A : Type ℓ} → String → List String → Result A → Result A
wrap format args (ok a) = ok a
wrap format args (err e) = err (wrapf format args e)

-- `errors.Is(e, sentinel)` for a sentinel made by `errors.New(text)`.
unfoldable pub is_sentinel : String → Error → Bool
is_sentinel text (outside n) = false
is_sentinel text (errorf format args) = str_eq format text
is_sentinel text (wrapf format args e) = is_sentinel text e
is_sentinel text (errorf_at format n) = false
is_sentinel text (wrapf_at format n e) = is_sentinel text e
is_sentinel text (joined e f) = is_sentinel text e || is_sentinel text f

-- `errors.Join` of at least one error.
abbrev pub join : Error → List Error → Error
join e [] = e
join e (f ∷ fs) = joined e (join f fs)

-- `WrapError`: nil stays nil.
unfoldable pub wrap_error : String → Option Error → Option Error
wrap_error runnable none = none
wrap_error runnable (some e) = some (wrapf "runnable %q: %v" (runnable ∷ []) e)
