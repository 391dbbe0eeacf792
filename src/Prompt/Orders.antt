-- ===== src/Prompt/Orders.antt =====
-- pkg/prompt/composer.go: what the order in which fragments arrive decides.
use bunshin_go.Common.{
  String, ℕ, zero, suc, ◌+◌, get_elem?, List, [], ◌∷◌, Map, Option, none, some, ◌≡◌, ◌≢◌, inr, refl,
  sym, ap, ◌∙◌, arith, some-inj, true,
}
use bunshin_go.Core.Errors.{Error, Result, ok, err}
use bunshin_go.Core.Attempt.{fails}
use bunshin_go.Core.Value.{Value}
use bunshin_go.Prompt.Fragments.{Fragment, PromptTemplate}
use bunshin_go.Prompt.Composer.{
  TemplateEngine, PendingFetch, FragWork, fetch, finish_all, collect, nothing_fetched, select,
  separator_of, join, joined, render_all, render_pending, render,
}
use bunshin_go.Prompt.Slots.{
  occurs, keeps, Failed, finish_all-Known, fails_somewhere, first_failure, finish_all_error,
}

-- Each index of a pending fetch is in the order.
abbrev pub Covers : List ℕ → List PendingFetch → Type 0
Covers order ps = (i : ℕ) (p : PendingFetch) → get_elem? ps i ≡ some p → occurs i order ≡ true

-- The fetches one after the other: the reference for what phase 2 leaves.
abbrev pub fetch_each : (String → Result Fragment) → List PendingFetch → Option (List FragWork)
fetch_each get [] = some []
fetch_each get (p ∷ ps) = elim (fetch get p) [
  | err e ↦ none
  | ok w ↦ elim (fetch_each get ps) [ none ↦ none | some ws ↦ some (w ∷ ws) ]
]

module _ (get : String → Result Fragment) where
  -- The first fetch and the others, where all succeed.
  each_cons :
      (q : PendingFetch) (ps : List PendingFetch) (ws : List FragWork)
      → fetch_each get (q ∷ ps) ≡ some ws
      → (w : FragWork) × (ws' : List FragWork) × (fetch get q ≡ ok w)
        × (fetch_each get ps ≡ some ws')
        × (some (w ∷ ws') ≡ some ws)
  each_cons q ps ws h = go (fetch get q) refl (fetch_each get ps) refl h
    where
      go :
          (r : Result FragWork)
          → fetch get q ≡ r
          → (rest : Option (List FragWork)) → fetch_each get ps ≡ rest
          → (elim r as (λ _. Option (List FragWork)) [
            | err e ↦ none
            | ok w ↦ elim rest as (λ _. Option (List FragWork)) [
              | none ↦ none
              | some ws ↦ some (w ∷ ws)
            ]
          ])
            ≡ some ws
          → (w : FragWork) × (ws' : List FragWork) × (fetch get q ≡ ok w)
            × (fetch_each get ps ≡ some ws')
            × (some (w ∷ ws') ≡ some ws)
      go (err e) got rest same eq = absurd cc
      go (ok w) got none same eq = absurd cc
      go (ok w) got (some ws') same eq = (w, ws', got, same, eq)

  -- The slots that hold what the fetches return are collected in order.
  collect_all :
      (ps : List PendingFetch) (k : ℕ) (work : ℕ → Option FragWork) (ws : List FragWork)
      → fetch_each get ps ≡ some ws
      → ((i : ℕ) (p : PendingFetch) (w : FragWork)
          → get_elem? ps i ≡ some p
          → fetch get p ≡ ok w
          → work (k + i) ≡ some w)
      → collect ps k work ≡ some ws
  unfolding collect
  collect_all [] k work ws h slots = h
  collect_all (p ∷ ps) k work ws h slots =
      let (w, ws', got, same, eq) = each_cons p ps ws h in
      let here : k ≡ k + 0 = omega arith in
      let later : collect ps (k + 1) work ≡ some ws' =
        collect_all ps (k + 1) work ws' same (λ i q v at ran.
          let next : (k + 1) + i ≡ k + suc i = omega arith in
          ap work next ∙ slots (suc i) q v at ran) in
      rw (ap work here ∙ slots 0 p w refl got, collect) (rw (later, collect) eq)

  -- Each fetch succeeds where all do.
  succeeds :
      (ps : List PendingFetch) (ws : List FragWork) (i : ℕ) (p : PendingFetch)
      → fetch_each get ps ≡ some ws
      → get_elem? ps i ≡ some p
      → (w : FragWork) × (fetch get p ≡ ok w)
  succeeds [] ws i p h at = absurd cc
  succeeds (q ∷ ps) ws zero p h at =
      let (w, ws', got, same, eq) = each_cons q ps ws h in
      (w, ap (fetch get) (sym (some-inj at)) ∙ got)
  succeeds (q ∷ ps) ws (suc i) p h at =
      let (w, ws', got, same, eq) = each_cons q ps ws h in succeeds ps ws' i p same at

  -- One fetch fails where not all succeed.
  fails_first : (ps : List PendingFetch) → fetch_each get ps ≡ none → (e : Error) × Failed get ps e
  fails_first [] h = absurd cc
  fails_first (q ∷ ps) h = go (fetch get q) refl (fetch_each get ps) refl h (fails_first ps)
    where
      later : (e : Error) × Failed get ps e → (e : Error) × Failed get (q ∷ ps) e
      later (e, x) = (
        e,
        record { index = suc x.index; pending = x.pending; there = x.there; failing = x.failing },
      )

      go :
          (r : Result FragWork)
          → fetch get q ≡ r
          → (rest : Option (List FragWork)) → fetch_each get ps ≡ rest
          → (elim r as (λ _. Option (List FragWork)) [
            | err e ↦ none
            | ok w ↦ elim rest as (λ _. Option (List FragWork)) [
              | none ↦ none
              | some ws ↦ some (w ∷ ws)
            ]
          ])
            ≡ none
          → (fetch_each get ps ≡ none → (e : Error) × Failed get ps e)
          → (e : Error) × Failed get (q ∷ ps) e
      go (err e) got rest same eq more =
          (e, record { index = 0; pending = q; there = refl; failing = got })
      go (ok w) got none same eq more = later (more same)
      go (ok w) got (some ws) same eq more = absurd cc

  no_error : (o : Option Error) → ((e : Error) → o ≢ some e) → o ≡ none
  no_error none h = refl
  no_error (some e) h = absurd (h e refl)

  -- What phase 2 leaves, for an order in which every goroutine ends.
  phase_two :
      (ps : List PendingFetch) (order : List ℕ) (ws : List FragWork)
      → Covers order ps
      → fetch_each get ps ≡ some ws
      → ((finish_all get ps order nothing_fetched).error ≡ none)
        × (collect ps 0 (finish_all get ps order nothing_fetched).work ≡ some ws)
  phase_two ps order ws covers all = (
    no_error _ (λ e h.
        let x = finish_all-Known get ps order nothing_fetched (λ f k. absurd cc) e h in
        let (w, got) = succeeds ps ws x.index x.pending all x.there in
        clash (sym (x.failing) ∙ got)),
    collect_all ps 0 _ ws all (λ i p w at got.
        let here : 0 + i ≡ i = omega arith in
        ap (finish_all get ps order nothing_fetched).work here
        ∙ keeps get ps i p w at got order nothing_fetched (inr (covers i p at))),
  )
    where
      clash : {e : Error} {w : FragWork} → ¬ (err e ≡ ok w)
      clash h = cc

  phase_two_fails :
      (ps : List PendingFetch) (order : List ℕ)
      → Covers order ps
      → fetch_each get ps ≡ none
      → (e : Error) × ((finish_all get ps order nothing_fetched).error ≡ some e)
        × (first_failure get ps order ≡ some e)
        × Failed get ps e
  phase_two_fails ps order covers h =
      let (f, x) = fails_first ps h in
      let (e, k) =
        fails_somewhere get ps x.index x.pending f x.there x.failing order nothing_fetched
          (covers x.index x.pending x.there) in
      (
        e,
        k,
        sym (finish_all_error get ps order nothing_fetched) ∙ k,
        finish_all-Known get ps order nothing_fetched (λ g j. absurd cc) e k,
      )

module _ (engine : TemplateEngine) (get : String → Result Fragment) (order : List ℕ)
    (sep : String) where
  pending_succeeds :
      (ps : List PendingFetch) (ws : List FragWork)
      → Covers order ps
      → fetch_each get ps ≡ some ws
      → render_pending engine get order sep ps ≡ joined engine sep (some ws)
  unfolding render_pending joined render_all join
  pending_succeeds [] ws covers all = ap (λ l. joined engine sep l) all
  pending_succeeds (p ∷ ps) ws covers all =
      let (clean, full) = phase_two get (p ∷ ps) order ws covers all in
      rw (clean, render_pending) (ap (joined engine sep) full)

  pending_fails :
      (ps : List PendingFetch)
      → Covers order ps
      → fetch_each get ps ≡ none
      → (e : Error) × (render_pending engine get order sep ps ≡ fails e)
        × (first_failure get ps order ≡ some e)
        × Failed get ps e
  unfolding render_pending
  pending_fails [] covers none_all = absurd cc
  pending_fails (p ∷ ps) covers some_fail =
      let (e, recorded, first, x) = phase_two_fails get (p ∷ ps) order covers some_fail in
      (e, rw (recorded, render_pending) refl, first, x)

-- For an order in which all goroutines of the second phase of `Render` end: if every fetch succeeds,
-- it renders and joins what the fetches return one after the other, whatever the order, and never
-- meets a nil fragment; otherwise it returns the error of the fetch that fails first in the order.
pub render_any_order :
    (engine : TemplateEngine) (get : String → Result Fragment) (order : List ℕ) (t : PromptTemplate)
    (vars : Map Value) (pending : List PendingFetch)
    → select engine t.fragments vars ≡ ok pending
    → Covers order pending
    → ((ws : List FragWork)
        → fetch_each get pending ≡ some ws
        → render engine get order t vars ≡ joined engine (separator_of t) (some ws))
      × (fetch_each get pending ≡ none
          → (e : Error) × (render engine get order t vars ≡ fails e)
            × (first_failure get pending order ≡ some e)
            × Failed get pending e)
unfolding render
render_any_order engine get order t vars pending selected covers = (
  λ ws all.
      rw (selected, render)
        (pending_succeeds engine get order (separator_of t) pending ws covers all),
  λ failing.
      let (e, failed, first, x) =
        pending_fails engine get order (separator_of t) pending covers failing in
      (e, rw (selected, render) failed, first, x),
)
