-- ===== src/Store/Creation.antt =====
-- pkg/workflow/store/memory/memory.go: what `Create` keeps, and what it finds after `Delete`.
use mathlib.Core.Path.{subst}
use bunshin_go.Common.{
  some-inj, String, [], ◌∷◌, none, some, lookup, insert, ◌≡◌, ◌∙◌, true, false, arith, eq_iff,
  lookup-insert, Option-cases, inl, inr, sym, ap,
}
use bunshin_go.Core.Errors.{wrapf, ok, err}
use bunshin_go.Store.Entries.{entry_at, put_entry, lookup-tenant_bucket, put_entry_same}
use bunshin_go.Store.Versioned.{
  Versioned, Entry, Store, status_draft, status_active, new_entry, create_version, create,
  find_entry, get, get_version, delete,
}
use bunshin_go.Store.Invariant.{IsValid}
use bunshin_go.Store.Reaches.{
  Reaches, get_version-Reaches, Reaches-get_version, entry_at-put_entry_self, get_here, get-Reaches,
}

module _ {A : Type 0} (o : Versioned A) where
  old_entry : String → String → Store A → Entry A
  old_entry t n s = elim (entry_at t n s) [ none ↦ new_entry o | some e ↦ e ]

  create-old_entry :
      (t : String) (spec : A) (s : Store A)
      → create o t (some spec) s ≡ (
        put_entry t (o.name spec) (create_version o spec (old_entry t (o.name spec) s)) s,
        ok (o.version spec),
      )
  unfolding create old_entry
  create-old_entry t spec s = rw lookup-tenant_bucket

  create_version_idem :
      (spec : A) (e : Entry A)
      → create_version o spec (create_version o spec e) ≡ create_version o spec e
  unfolding create_version
  create_version_idem spec e = elim (Option-cases (lookup (o.version spec) e.versions)) [
    | inr (old, found) ↦ ground arith
    | inl absent ↦ ground (
      arith,
      lookup-insert (o.version spec) (o.version spec) (o.set_status status_draft spec) e.versions,
      eq_iff (o.version spec) (o.version spec),
    )
  ]

  old_entry_found :
      (t n : String) (s : Store A) (e : Entry A) → entry_at t n s ≡ some e → old_entry t n s ≡ e
  unfolding old_entry
  old_entry_found t n s e here = rw (here, old_entry)

  old_entry_new :
      (t n : String) (s : Store A) → entry_at t n s ≡ none → old_entry t n s ≡ new_entry o
  unfolding old_entry
  old_entry_new t n s absent = rw (absent, old_entry)

  -- `Create` is idempotent: to create the same spec again changes nothing and returns the same
  -- version.
  pub create_idem :
      (t : String) (spec : A) (s : Store A)
      → create o t (some spec) (create o t (some spec) s).0 ≡ create o t (some spec) s
  create_idem t spec s =
      let n = o.name spec in
      let e = create_version o spec (old_entry t n s) in
      let s' = put_entry t n e s in
      let here : entry_at t n s' ≡ some e = entry_at-put_entry_self o t n e s in
      let created = create-old_entry t spec s in
      let again : create o t (some spec) s' ≡ (s', ok (o.version spec)) =
        create-old_entry t spec s'
        ∙ rw (old_entry_found t n s' e here, create_version_idem)
            (rw (put_entry_same t n e s' here)) in
      ap (λ x. create o t (some spec) x.0) created ∙ again ∙ sym created

  create_version_keeps :
      (spec : A) (e : Entry A) (u : String) (a : A)
      → lookup u e.versions ≡ some a
      → lookup u (create_version o spec e).versions ≡ some a
  unfolding create_version
  create_version_keeps spec e u a h = elim (Option-cases (lookup (o.version spec) e.versions)) [
    | inr (old, found) ↦ ground arith
    | inl absent ↦ ground (
      arith,
      lookup-insert (o.version spec) u (o.set_status status_draft spec) e.versions,
      eq_iff (o.version spec) u,
    )
  ]

  create_version_frame :
      (spec : A) (e : Entry A)
      → ((create_version o spec e).deleted ≡ false) × ((create_version o spec e).active ≡ e.active)
  unfolding create_version
  create_version_frame spec e = ground arith

  Reaches-create :
      (t u : String) (spec : A) (s : Store A) (e : Entry A) (a : A)
      → entry_at t (o.name spec) s ≡ some e
      → lookup u e.versions ≡ some a
      → Reaches t (o.name spec) u (create o t (some spec) s).0 (create_version o spec e) a
  Reaches-create t u spec s e a here stored =
      rw (create-old_entry, old_entry_found t (o.name spec) s e here)
        (record {
          here = entry_at-put_entry_self o t (o.name spec) (create_version o spec e) s;
          live = (create_version_frame spec e).0;
          stored = create_version_keeps spec e u a stored;
        })

  create_version_new :
      (spec : A)
      → lookup (o.version spec) (create_version o spec (new_entry o)).versions
        ≡ some (o.set_status status_draft spec)
  unfolding create_version lookup insert
  create_version_new spec = ground (arith, eq_iff (o.version spec) (o.version spec))

  Reaches-fresh :
      (t : String) (spec : A) (s : Store A)
      → entry_at t (o.name spec) s ≡ none
      → Reaches t
          (o.name spec)
          (o.version spec)
          (create o t (some spec) s).0
          (create_version o spec (new_entry o))
          (o.set_status status_draft spec)
  Reaches-fresh t spec s absent =
      rw (create-old_entry, old_entry_new t (o.name spec) s absent)
        (record {
          here = entry_at-put_entry_self o t (o.name spec) (create_version o spec (new_entry o)) s;
          live = (create_version_frame spec (new_entry o)).0;
          stored = create_version_new spec;
        })

  create_version_has :
      (spec : A) (e : Entry A)
      → (a : A) × (lookup (o.version spec) (create_version o spec e).versions ≡ some a)
  unfolding create_version
  create_version_has spec e = elim (Option-cases (lookup (o.version spec) e.versions)) [
    | inr (old, found) ↦ (old, ground arith)
    | inl absent ↦ (
      o.set_status status_draft spec,
      ground (
        arith,
        lookup-insert (o.version spec) (o.version spec) (o.set_status status_draft spec) e.versions,
        eq_iff (o.version spec) (o.version spec),
      ),
    )
  ]

  -- A version that is created can be read.
  pub create-get_version :
      (t : String) (spec : A) (s : Store A)
      → (a : A) × (get_version o t (o.name spec) (o.version spec) (create o t (some spec) s).0
          ≡ ok a)
  create-get_version t spec s =
      let e = old_entry t (o.name spec) s in
      let (a, stored) = create_version_has spec e in
      (
        a,
        rw create-old_entry (
            Reaches-get_version o (record {
              here = entry_at-put_entry_self o t (o.name spec) (create_version o spec e) s;
              live = (create_version_frame spec e).0;
              stored = stored;
            })),
      )

  -- `Create` loses and changes nothing that can be read: every version of the entry that
  -- `GetVersion` finds, and what `Get` returns, are the same afterwards. In an entry that was never
  -- there the new version is a draft.
  pub create_keeps :
      (t : String) (spec : A) (s : Store A)
      → ((u : String) (a : A)
          → get_version o t (o.name spec) u s ≡ ok a
          → get_version o t (o.name spec) u (create o t (some spec) s).0 ≡ ok a)
        × ((a : A)
            → get o t (o.name spec) s ≡ some (ok a)
            → get o t (o.name spec) (create o t (some spec) s).0 ≡ some (ok a))
        × (entry_at t (o.name spec) s ≡ none
            → get_version o t (o.name spec) (o.version spec) (create o t (some spec) s).0
              ≡ ok (o.set_status status_draft spec))
  create_keeps t spec s = (
    λ u a h.
        let (e, r) = get_version-Reaches o t (o.name spec) u s a h in
        Reaches-get_version o (Reaches-create t u spec s e a r.here r.stored),
    λ a h.
        let (e, r, named) = get-Reaches o t (o.name spec) s a h in
        let same = (create_version_frame spec e).1 in
        let e' = create_version o spec e in
        let s' = (create o t (some spec) s).0 in
        get_here o t (o.name spec) s' e' a
          (subst (λ k. Reaches t (o.name spec) k s' e' a) (sym same)
            (Reaches-create t e.active spec s e a r.here r.stored))
          (λ x. named (sym same ∙ x)),
    λ absent. Reaches-get_version o (Reaches-fresh t spec s absent),
  )

  get_idle :
      (t n : String) (s : Store A) (e : Entry A)
      → entry_at t n s ≡ some e
      → e.deleted ≡ false
      → e.active ≡ ""
      → get o t n s ≡ some (err (wrapf o.about_active (n ∷ []) o.not_found))
  unfolding get find_entry
  get_idle t n s e here live idle = ground (arith, eq_iff e.active "")

  deleted_entry : Entry A → Entry A
  deleted_entry e = record e { deleted = true; active = "" }

  delete-Reaches :
      {t n v : String} {s : Store A} {e : Entry A} {sp : A}
      → Reaches t n v s e sp
      → (delete o t n s).0 ≡ put_entry t n (deleted_entry e) s
  unfolding delete find_entry deleted_entry
  delete-Reaches r = ground arith

  -- A spec that is active, deleted and created again is read by `GetVersion` with the status
  -- "active", although its entry has no active version and `Get` fails: `Delete` does not demote.
  pub delete-create_stale :
      (t n : String) (s : Store A) (a : A)
      → IsValid o s
      → get o t n s ≡ some (ok a)
      → (get o t n (create o t (some a) (delete o t n s).0).0
          ≡ some (err (wrapf o.about_active (n ∷ []) o.not_found)))
        × (get_version o t n (o.version a) (create o t (some a) (delete o t n s).0).0 ≡ ok a)
        × (o.status a ≡ status_active)
  unfolding deleted_entry
  delete-create_stale t n s a h read =
      let (e, r, named) = get-Reaches o t n s a read in
      let valid = (h t n e r.here).named e.active a r.stored in
      let (b, found, status) = (h t n e r.here).current named in
      let gone = deleted_entry e in
      let s' = put_entry t n gone s in
      let here : entry_at t (o.name a) s' ≡ some gone =
        subst (λ k. entry_at t k s' ≡ some gone) (sym valid.1)
          (entry_at-put_entry_self o t n gone s) in
      let stored : lookup (o.version a) e.versions ≡ some a =
        subst (λ k. lookup k e.versions ≡ some a) (sym valid.0) r.stored in
      let back =
        subst
          (λ k. Reaches t k (o.version a) (create o t (some a) s').0 (create_version o a gone) a)
          valid.1 (Reaches-create t (o.version a) a s' gone a here stored) in
      rw (delete-Reaches r) (
        get_idle t n _ (create_version o a gone) back.here back.live
            (create_version_frame a gone).1,
        Reaches-get_version o back,
        rw (some-inj (sym r.stored ∙ found)) status,
      )
