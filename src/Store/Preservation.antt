-- ===== src/Store/Preservation.antt =====
-- Every operation of the in-memory versioned store keeps its invariant.
use mathlib.Core.Path.{subst}
use bunshin_go.Common.{
  ◌∙◌, sym, String, List, [], ◌∷◌, Option, none, some, lookup, ◌≡◌, refl, true, str_eq, ◌&&◌, arith,
  eq_iff, Bool-cases, inl, inr,
}
use bunshin_go.Core.Errors.{Error, wrapf, Result, ok, err}
use bunshin_go.Store.Entries.{entry_at, put_entry, lookup-tenant_bucket, entry_at-put_entry}
use bunshin_go.Store.Versioned.{
  Versioned, Entry, Store, new_entry, create, find_entry, promote, activate, delete,
}
use bunshin_go.Store.Invariant.{
  EntryIsValid, IsValid, new_entry-valid, create_version-valid, promote-valid, delete-valid,
  find_entry_found,
}

module _ {A : Type 0} (o : Versioned A) where
  put_entry-IsValid :
      (t n : String) (e : Entry A) (s : Store A)
      → IsValid o s
      → EntryIsValid o n e
      → IsValid o (put_entry t n e s)
  put_entry-IsValid t n e s h he t' n' e' found = elim (Bool-cases (str_eq t t' && str_eq n n')) [
    | inr other ↦ h t' n' e' (sym (entry_at-put_entry t t' n n' e s ∙ rw other) ∙ found)
    | inl at ↦
        let same_name : n ≡ n' = ground (arith, eq_iff n n') in
        let written : entry_at t' n' (put_entry t n e s) ≡ some e =
          entry_at-put_entry t t' n n' e s ∙ rw at in
        let same : e ≡ e' = cc in
        subst (λ m. EntryIsValid o m e') same_name (subst (EntryIsValid o n) same he)
  ]

  pub create-IsValid :
      (t : String) (spec : Option A) (s : Store A) → IsValid o s → IsValid o (create o t spec s).0
  unfolding create
  create-IsValid t none s h = h
  create-IsValid t (some spec) s h = rw lookup-tenant_bucket (
      put_entry-IsValid t (o.name spec) _ s h
        (create_version-valid o spec _ (old (entry_at t (o.name spec) s) refl)))
    where
      old :
          (found : Option (Entry A))
          → entry_at t (o.name spec) s ≡ found
          → EntryIsValid o (o.name spec) (elim found [ none ↦ new_entry o | some e ↦ e ])
      old none found = new_entry-valid o (o.name spec)
      old (some e) found = h t (o.name spec) e found

  activate-IsValid : (t n v : String) (s : Store A) → IsValid o s → IsValid o (activate o t n v s).0
  unfolding activate
  activate-IsValid t n v s h = at_entry (find_entry o t n s) refl
    where
      at_version :
          (e : Entry A) (found : Option A)
          → find_entry o t n s ≡ ok e
          → lookup v e.versions ≡ found
          → IsValid o
              (elim found as (λ _. Store A × Option Error) [
                | none ↦ (s, some (wrapf o.about_version (n ∷ v ∷ []) o.version_conflict))
                | some sp ↦ (put_entry t n (promote o v sp e) s, none)
              ]).0
      at_version e none at found = h
      at_version e (some sp) at found =
          let (here, live) = find_entry_found o t n s e at in
          put_entry-IsValid t n (promote o v sp e) s h
            (promote-valid o n v sp e (h t n e here) found live)

      at_entry :
          (r : Result (Entry A))
          → find_entry o t n s ≡ r
          → IsValid o
              (elim r as (λ _. Store A × Option Error) [
                | err x ↦ (s, some x)
                | ok e ↦ elim (lookup v e.versions) [
                  | none ↦ (s, some (wrapf o.about_version (n ∷ v ∷ []) o.version_conflict))
                  | some sp ↦ (put_entry t n (promote o v sp e) s, none)
                ]
              ]).0
      at_entry (err x) at = h
      at_entry (ok e) at = at_version e (lookup v e.versions) at refl

  delete-IsValid : (t n : String) (s : Store A) → IsValid o s → IsValid o (delete o t n s).0
  unfolding delete
  delete-IsValid t n s h = at_entry (find_entry o t n s) refl
    where
      at_entry :
          (r : Result (Entry A))
          → find_entry o t n s ≡ r
          → IsValid o
              (elim r as (λ _. Store A × Option Error) [
                | err x ↦ (s, some x)
                | ok e ↦ (put_entry t n (record e { deleted = true; active = "" }) s, none)
              ]).0
      at_entry (err x) at = h
      at_entry (ok e) at =
          put_entry-IsValid t n _ s h
            (delete-valid o n e (h t n e (find_entry_found o t n s e at).0))

-- The calls that change a store, and a sequence of them from the empty store.
pub data Op (A : Type 0) : Type 0 where
  create_op : String → Option A → Op A
  activate_op : String → String → String → Op A
  delete_op : String → String → Op A

abbrev pub apply : {A : Type 0} → Versioned A → Op A → Store A → Store A
apply o (create_op t spec) s = (create o t spec s).0
apply o (activate_op t n v) s = (activate o t n v s).0
apply o (delete_op t n) s = (delete o t n s).0

abbrev pub run : {A : Type 0} → Versioned A → List (Op A) → Store A → Store A
run o [] s = s
run o (op ∷ ops) s = run o ops (apply o op s)

pub run-IsValid_from :
    {A : Type 0} (o : Versioned A) (ops : List (Op A)) (s : Store A)
    → IsValid o s
    → IsValid o (run o ops s)
run-IsValid_from o [] s h = h
run-IsValid_from o (create_op t spec ∷ ops) s h =
    run-IsValid_from o ops _ (create-IsValid o t spec s h)
run-IsValid_from o (activate_op t n v ∷ ops) s h =
    run-IsValid_from o ops _ (activate-IsValid o t n v s h)
run-IsValid_from o (delete_op t n ∷ ops) s h = run-IsValid_from o ops _ (delete-IsValid o t n s h)

-- After any sequence of `Create`, `Activate` and `Delete` from the empty store, every entry is
-- valid: its list has exactly the stored versions, once each, every spec stands under its own
-- version and name, and an active version is stored and marked active.
pub run-IsValid : {A : Type 0} (o : Versioned A) (ops : List (Op A)) → IsValid o (run o ops [])
unfolding entry_at lookup
run-IsValid o ops = run-IsValid_from o ops [] (λ t n e h. cc)
