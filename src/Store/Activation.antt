-- ===== src/Store/Activation.antt =====
-- pkg/workflow/store/memory/memory.go: what `Get` and `GetVersion` return before and after `Activate`.
use mathlib.Core.Path.{subst}
use bunshin_go.Common.{
  some-inj, String, [], ◌∷◌, Option, none, some, lookup, ◌≡◌, refl, ◌≢◌, ◌↔◌, ◌∙◌, if◌then◌else◌,
  str_eq, arith, eq_iff, lookup-insert, Option-cases, Bool-cases, inl, inr, sym, ap,
}
use bunshin_go.Core.Errors.{wrapf, Result, ok, err}
use bunshin_go.Store.Entries.{put_entry}
use bunshin_go.Store.Versioned.{
  Versioned, Entry, Store, status_draft, status_active, find_entry, get, get_version, demote,
  promote, activate,
}
use bunshin_go.Store.Invariant.{IsValid, find_entry_found, demote-cases}
use bunshin_go.Store.Reaches.{
  Reaches, get_version-Reaches, Reaches-get_version, Reaches-activate, activate-Reaches,
  activate_refused, entry_at-put_entry_self, get_here,
}

module _ {A : Type 0} (o : Versioned A) where
  -- `Get` never dereferences a nil pointer on a valid store, and what it returns is marked active
  -- and carries the name that was asked for.
  pub get_total :
      (t n : String) (s : Store A)
      → IsValid o s
      → (r : Result A) × (get o t n s ≡ some r)
        × ((a : A) → r ≡ ok a → (o.status a ≡ status_active) × (o.name a ≡ n))
  unfolding get
  get_total t n s h = go (find_entry o t n s) refl
    where
      marked :
          (e : Entry A)
          → find_entry o t n s ≡ ok e
          → e.active ≢ ""
          → (a : A) × (lookup e.active e.versions ≡ some a)
            × (o.status a ≡ status_active)
            × (o.name a ≡ n)
      marked e at some_active =
          let valid = h t n e (find_entry_found o t n s e at).0 in
          let (a, found, status) = valid.current some_active in
          (a, found, status, (valid.named e.active a found).1)

      go :
          (found : Result (Entry A))
          → find_entry o t n s ≡ found
          → (r : Result A) × (elim found as (λ _. Option (Result A)) [
            | err x ↦ some (err x)
            | ok e ↦
                if str_eq e.active ""
                then some (err (wrapf o.about_active (n ∷ []) o.not_found))
                else elim (lookup e.active e.versions) [ none ↦ none | some sp ↦ some (ok sp) ]
          ]
              ≡ some r)
            × ((a : A) → r ≡ ok a → (o.status a ≡ status_active) × (o.name a ≡ n))
      go (err x) at = (err x, refl, λ a e. cc)
      go (ok e) at = elim (Bool-cases (str_eq e.active "")) [
        | inl idle ↦ (err (wrapf o.about_active (n ∷ []) o.not_found), ground arith, λ a e. cc)
        | inr busy ↦
            let (a, found, status, name) = marked e at (ground (arith, eq_iff e.active "")) in
            (ok a, ground arith, λ b same. ground arith)
      ]

  -- `Activate` succeeds exactly on a version that `GetVersion` finds, and changes nothing
  -- otherwise.
  pub activate_iff-get_version :
      (t n v : String) (s : Store A)
      → (((activate o t n v s).1 ≡ none) ↔ ((sp : A) × (get_version o t n v s ≡ ok sp)))
        × ((activate o t n v s).1 ≢ none → (activate o t n v s).0 ≡ s)
  activate_iff-get_version t n v s = (
    (
      λ h. let (e, sp, r) = activate-Reaches o t n v s h in (sp, Reaches-get_version o r),
      λ h.
          let (e, r) = get_version-Reaches o t n v s h.0 h.1 in
          ap (λ x. x.1) (Reaches-activate o r),
    ),
    activate_refused o t n v s,
  )

  -- The state after a successful `Activate`.
  module _ {t n v : String} {s : Store A} {e : Entry A} {sp : A} (r : Reaches t n v s e sp) where
    after_activate : (activate o t n v s).0 ≡ put_entry t n (promote o v sp e) s
    after_activate = ap (λ x. x.0) (Reaches-activate o r)

    Reaches-after_activate :
        (u : String) (a : A)
        → lookup u (promote o v sp e).versions ≡ some a
        → Reaches t n u (put_entry t n (promote o v sp e) s) (promote o v sp e) a
    unfolding promote
    Reaches-after_activate u a stored = record {
      here = entry_at-put_entry_self o t n (promote o v sp e) s;
      live = r.live;
      stored = stored;
    }

    lookup-promote_ne :
        (u : String) → u ≢ v → lookup u (promote o v sp e).versions ≡ lookup u (demote o v e)
    unfolding promote
    lookup-promote_ne u other =
        ground (arith, lookup-insert v u (o.set_status status_active sp) (demote o v e), eq_iff v u)

    get_after_activate :
        v ≢ ""
        → get o t n (put_entry t n (promote o v sp e) s) ≡ some (ok (o.set_status status_active sp))
    unfolding promote
    get_after_activate named =
        get_here o t n _ (promote o v sp e) (o.set_status status_active sp)
          (Reaches-after_activate v (o.set_status status_active sp) (
            ground (
              arith,
              lookup-insert v v (o.set_status status_active sp) (demote o v e),
              eq_iff v v,
            )))
          named

  lookup-demote_ne :
      (v u : String) (e : Entry A) → u ≢ e.active → lookup u (demote o v e) ≡ lookup u e.versions
  lookup-demote_ne v u e other = elim (demote-cases o v u e) [
    | inl same ↦ same
    | inr (prev, was, at, _, _) ↦ absurd (other (sym at))
  ]

  lookup-demote_active :
      (v : String) (e : Entry A) (prev : A)
      → e.active ≢ v
      → lookup e.active e.versions ≡ some prev
      → lookup e.active (demote o v e) ≡ some (o.set_status status_draft prev)
  unfolding demote
  lookup-demote_active v e prev other was = ground (
    arith,
    eq_iff e.active v,
    eq_iff e.active e.active,
    lookup-insert e.active e.active (o.set_status status_draft prev) e.versions,
  )

  -- What `Get` returns is the spec under the active version.
  get-active :
      (t n v : String) (s : Store A) (e : Entry A) (sp a : A)
      → Reaches t n v s e sp
      → get o t n s ≡ some (ok a)
      → lookup e.active e.versions ≡ some a
  unfolding get find_entry
  get-active t n v s e sp a r h = elim (Option-cases (lookup e.active e.versions)) [
    | inl missing ↦ absurd (ground arith)
    | inr (b, found) ↦ ground arith
  ]

  -- After `Activate` of a stored version other than "", `Get` returns that version marked active.
  -- Of the other versions, `GetVersion` finds the one that `Get` returned before marked as a draft,
  -- and each of the rest as it was.
  pub get-activate :
      (t n v : String) (s : Store A) (sp : A)
      → IsValid o s
      → v ≢ ""
      → get_version o t n v s ≡ ok sp
      → (get o t n (activate o t n v s).0 ≡ some (ok (o.set_status status_active sp)))
        × ((u : String) (a : A)
            → u ≢ v
            → u ≢ ""
            → get_version o t n u s ≡ ok a
            → (get o t n s ≡ some (ok a)
                → get_version o t n u (activate o t n v s).0 ≡ ok (o.set_status status_draft a))
              × (get o t n s ≢ some (ok a) → get_version o t n u (activate o t n v s).0 ≡ ok a))
  get-activate t n v s sp h named found =
      let (e, r) = get_version-Reaches o t n v s sp found in
      let valid = h t n e r.here in
      rw (after_activate r) (
        get_after_activate r named,
        λ u a other real read.
            let (e', r') = get_version-Reaches o t n u s a read in
            let same : e' ≡ e = some-inj (sym r'.here ∙ r.here) in
            let stored : lookup u e.versions ≡ some a = rw same at r'.stored in
            (
              λ was.
                  let current = get-active t n v s e sp a r was in
                  let at : e.active ≡ u =
                    sym (valid.named e.active a current).0 ∙ (valid.named u a stored).0 in
                  Reaches-get_version o (
                    Reaches-after_activate r u _ (
                      lookup-promote_ne r u other
                      ∙ subst (λ k. lookup k (demote o v e) ≡ some (o.set_status status_draft a)) at
                          (lookup-demote_active v e a (λ x. other (sym at ∙ x)) current))),
              λ was_not. Reaches-get_version o (
                  Reaches-after_activate r u a (
                    lookup-promote_ne r u other
                    ∙ lookup-demote_ne v u e (λ x. was_not (
                        get_here o t n s e a
                          (record { here = r.here; live = r.live; stored = rw (← x) stored })
                          (λ y. real (x ∙ y))))
                    ∙ stored)),
            ),
      )
