-- ===== src/Prompt/Slots.antt =====
-- pkg/prompt/composer.go: what the goroutines that fetch fragments leave, in the order in which they end.
use mathlib.Core.Path.{subst}
use bunshin_go.Common.{
  String, ℕ, ◌==◌, get_elem?, List, [], ◌∷◌, Option, none, some, Bool, true, false, ◌||◌,
  if◌then◌else◌, ◌≡◌, ◌⊎◌, inl, inr, refl, sym, ap, ◌∙◌, arith, some-inj, Bool-cases,
}
use bunshin_go.Core.Errors.{Error, Result, ok, err}
use bunshin_go.Prompt.Fragments.{Fragment}
use bunshin_go.Prompt.Composer.{
  PendingFetch, FragWork, Fetched, fetch, ended, first_error, finish_one, finish_all,
}

-- An index that is in an order.
abbrev pub occurs : ℕ → List ℕ → Bool
occurs i [] = false
occurs i (j ∷ js) = (j == i) || occurs i js

same_index : (j i : ℕ) → (j == i) ≡ true → j ≡ i
same_index j i h = ground arith

index_same : (i : ℕ) → (i == i) ≡ true
index_same i = ground arith

module _ (get : String → Result Fragment) (ps : List PendingFetch) where
  ended_other :
      (i j : ℕ) (r : Result FragWork) (s : Fetched)
      → (j == i) ≡ false
      → (ended j r s).work i ≡ s.work i
  unfolding ended
  ended_other i j (err e) s h = refl
  ended_other i j (ok v) s h = rw h refl

  finish_other :
      (i j : ℕ) (s : Fetched) → (j == i) ≡ false → (finish_one get ps j s).work i ≡ s.work i
  unfolding finish_one
  finish_other i j s h = go (get_elem? ps j)
    where
      go :
          (o : Option PendingFetch)
          → (elim o as (λ _. Fetched) [ none ↦ s | some q ↦ ended j (fetch get q) s ]).work i
            ≡ s.work i
      go none = refl
      go (some q) = ended_other i j (fetch get q) s h

  finish_same :
      (i : ℕ) (p : PendingFetch) (w : FragWork) (s : Fetched)
      → get_elem? ps i ≡ some p
      → fetch get p ≡ ok w
      → (finish_one get ps i s).work i ≡ some w
  unfolding finish_one ended
  finish_same i p w s at got =
      rw (at, finish_one)
        (rw (got, ended) (ap (λ b. if b then some w else s.work i) (index_same i)))

  -- A slot that is written keeps the fragment of its fetch.
  pub keeps :
      (i : ℕ) (p : PendingFetch) (w : FragWork)
      → get_elem? ps i ≡ some p
      → fetch get p ≡ ok w
      → (order : List ℕ) (s : Fetched) → (s.work i ≡ some w) ⊎ (occurs i order ≡ true)
      → (finish_all get ps order s).work i ≡ some w
  unfolding finish_all
  keeps i p w at got [] s (inl h) = h
  keeps i p w at got [] s (inr h) = absurd cc
  keeps i p w at got (j ∷ order) s h =
      keeps i p w at got order (finish_one get ps j s) (elim (Bool-cases (j == i)) [
        | inl e ↦ inl (
            subst (λ k. (finish_one get ps k s).work i ≡ some w) (sym (same_index j i e))
              (finish_same i p w s at got))
        | inr n ↦ elim h [
          | inl k ↦ inl (finish_other i j s n ∙ k)
          | inr k ↦ inr (ground (arith, n, k))
        ]
      ])

  -- An error that has been recorded stays.
  pub error_stays :
      (order : List ℕ) (s : Fetched) (e : Error)
      → s.error ≡ some e
      → (finish_all get ps order s).error ≡ some e
  unfolding finish_all ended finish_one
  error_stays [] s e h = h
  error_stays (j ∷ order) s e h = error_stays order (finish_one get ps j s) e (go (get_elem? ps j))
    where
      still : (r : Result FragWork) → (ended j r s).error ≡ some e
      still (ok v) = h
      still (err f) = ap (λ o. first_error o f) h

      go :
          (o : Option PendingFetch)
          → (elim o as (λ _. Fetched) [ none ↦ s | some q ↦ ended j (fetch get q) s ]).error
            ≡ some e
      go none = h
      go (some q) = still (fetch get q)

  -- The error of one fetch, and that of the first in an order which has one.
  abbrev pub or_first : Option Error → Option Error → Option Error
  or_first none o = o
  or_first (some e) o = some e

  abbrev pub failure_of : Result FragWork → Option Error
  failure_of (ok w) = none
  failure_of (err e) = some e

  abbrev pub failure_at : ℕ → Option Error
  failure_at i = elim (get_elem? ps i) [ none ↦ none | some p ↦ failure_of (fetch get p) ]

  abbrev pub first_failure : List ℕ → Option Error
  first_failure [] = none
  first_failure (i ∷ order) = or_first (failure_at i) (first_failure order)

  or_first_assoc : (a b c : Option Error) → or_first (or_first a b) c ≡ or_first a (or_first b c)
  or_first_assoc none b c = refl
  or_first_assoc (some e) b c = refl

  or_first-none : (a : Option Error) → a ≡ or_first a none
  or_first-none none = refl
  or_first-none (some e) = refl

  ended_error :
      (j : ℕ) (r : Result FragWork) (s : Fetched)
      → (ended j r s).error ≡ or_first s.error (failure_of r)
  unfolding ended
  ended_error j (ok w) s = or_first-none s.error
  ended_error j (err f) s = go s.error
    where
      go : (o : Option Error) → first_error o f ≡ or_first o (some f)
      go none = refl
      go (some g) = refl

  finish_one_error :
      (j : ℕ) (s : Fetched) → (finish_one get ps j s).error ≡ or_first s.error (failure_at j)
  unfolding finish_one
  finish_one_error j s = go (get_elem? ps j)
    where
      go :
          (o : Option PendingFetch)
          → (elim o as (λ _. Fetched) [ none ↦ s | some q ↦ ended j (fetch get q) s ]).error
            ≡ or_first s.error
                (elim o as (λ _. Option Error) [ none ↦ none | some p ↦ failure_of (fetch get p) ])
      go none = or_first-none s.error
      go (some q) = ended_error j (fetch get q) s

  -- The error that phase 2 leaves is the one that came first.
  pub finish_all_error :
      (order : List ℕ) (s : Fetched)
      → (finish_all get ps order s).error ≡ or_first s.error (first_failure order)
  unfolding finish_all
  finish_all_error [] s = or_first-none s.error
  finish_all_error (j ∷ order) s =
      finish_all_error order (finish_one get ps j s)
      ∙ ap (λ o. or_first o (first_failure order)) (finish_one_error j s)
      ∙ or_first_assoc s.error (failure_at j) (first_failure order)

  -- One of the fetches fails with this error.
  pub record Failed (e : Error) : Type 0 where
    pub index : ℕ
    pub pending : PendingFetch
    pub there : get_elem? ps index ≡ some pending
    pub failing : fetch get pending ≡ err e

  abbrev pub Known : Fetched → Type 0
  Known s = (e : Error) → s.error ≡ some e → Failed e

  first_error-Failed :
      (o : Option Error) (f e : Error)
      → ((g : Error) → o ≡ some g → Failed g)
      → Failed f
      → first_error o f ≡ some e
      → Failed e
  first_error-Failed none f e known here h = subst Failed (some-inj h) here
  first_error-Failed (some g) f e known here h = known e h

  ended-Known :
      (j : ℕ) (q : PendingFetch) (s : Fetched)
      → get_elem? ps j ≡ some q
      → Known s
      → Known (ended j (fetch get q) s)
  unfolding ended
  ended-Known j q s at known = go (fetch get q) refl
    where
      go : (r : Result FragWork) → fetch get q ≡ r → Known (ended j r s)
      go (ok w) got e h = known e h
      go (err f) got e h =
          first_error-Failed s.error f e known
            (record { index = j; pending = q; there = at; failing = got }) h

  finish_one-Known : (j : ℕ) (s : Fetched) → Known s → Known (finish_one get ps j s)
  unfolding finish_one
  finish_one-Known j s known = go (get_elem? ps j) refl
    where
      go :
          (o : Option PendingFetch)
          → get_elem? ps j ≡ o
          → Known (elim o as (λ _. Fetched) [ none ↦ s | some q ↦ ended j (fetch get q) s ])
      go none at = known
      go (some q) at = ended-Known j q s at known

  pub finish_all-Known :
      (order : List ℕ) (s : Fetched) → Known s → Known (finish_all get ps order s)
  unfolding finish_all
  finish_all-Known [] s known = known
  finish_all-Known (j ∷ order) s known =
      finish_all-Known order (finish_one get ps j s) (finish_one-Known j s known)

  -- A fetch that fails leaves an error.
  abbrev pub HasError : Fetched → Type 0
  HasError s = (e : Error) × (s.error ≡ some e)

  finish_failing :
      (i : ℕ) (p : PendingFetch) (f : Error) (s : Fetched)
      → get_elem? ps i ≡ some p
      → fetch get p ≡ err f
      → HasError (finish_one get ps i s)
  unfolding finish_one ended
  finish_failing i p f s at bad = rw (at, finish_one) (rw (bad, ended) (go s.error))
    where
      go : (o : Option Error) → (e : Error) × (first_error o f ≡ some e)
      go none = (f, refl)
      go (some g) = (g, refl)

  pub fails_somewhere :
      (i : ℕ) (p : PendingFetch) (f : Error)
      → get_elem? ps i ≡ some p
      → fetch get p ≡ err f
      → (order : List ℕ) (s : Fetched) → occurs i order ≡ true
      → HasError (finish_all get ps order s)
  unfolding finish_all
  fails_somewhere i p f at bad [] s h = absurd cc
  fails_somewhere i p f at bad (j ∷ order) s h = elim (Bool-cases (j == i)) [
    | inl e ↦
        let (g, k) =
          subst (λ n. HasError (finish_one get ps n s)) (sym (same_index j i e))
            (finish_failing i p f s at bad) in
        (g, error_stays order (finish_one get ps j s) g k)
    | inr n ↦ fails_somewhere i p f at bad order (finish_one get ps j s) (ground (arith, n, h))
  ]
