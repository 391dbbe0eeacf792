-- ===== src/Store/Invariant.antt =====
-- The invariant of the in-memory versioned store, and that every operation keeps it.
use bunshin_go.Common.{
  ◌⊎◌, String, [], ◌∷◌, none, some, lookup, insert, ◌≡◌, refl, ◌≢◌, true, false, if◌then◌else◌,
  str_eq, arith, eq_iff, lookup-insert, is_some, contains, contains-append, Distinct,
  Distinct-concat, Option-cases, Bool-cases, inl, inr,
}
use bunshin_go.Core.Errors.{ok}
use bunshin_go.Store.Entries.{entry_at}
use bunshin_go.Store.Versioned.{
  Versioned, Entry, Store, status_draft, status_active, new_entry, create_version, find_entry,
  demote, promote,
}

module _ {A : Type 0} (o : Versioned A) where
  -- The list holds exactly the keys of the map, once each; each spec stands under its own version
  -- and carries the entry's name; the active version is there and marked active; a deleted entry
  -- has none.
  pub record EntryIsValid (name : String) (e : Entry A) : Type 0 where
    pub listed : (v : String) → contains v e.version_list ≡ is_some (lookup v e.versions)
    pub distinct : Distinct e.version_list
    pub named :
        (v : String) (a : A) → lookup v e.versions ≡ some a → (o.version a ≡ v) × (o.name a ≡ name)
    pub current :
        e.active ≢ ""
        → (a : A) × (lookup e.active e.versions ≡ some a) × (o.status a ≡ status_active)
    pub unmarked : e.deleted ≡ true → e.active ≡ ""

  abbrev pub IsValid : Store A → Type 0
  IsValid s = (t n : String) (e : Entry A) → entry_at t n s ≡ some e → EntryIsValid n e

  pub new_entry-valid : (name : String) → EntryIsValid name (new_entry o)
  unfolding lookup
  new_entry-valid name = record {
    listed = λ v. refl;
    distinct = tt;
    named = λ v a h. cc;
    current = λ h. absurd (h refl);
    unmarked = λ h. refl;
  }

  pub create_version-valid :
      (spec : A) (e : Entry A)
      → EntryIsValid (o.name spec) e
      → EntryIsValid (o.name spec) (create_version o spec e)
  unfolding create_version
  create_version-valid spec e h = elim (Option-cases (lookup (o.version spec) e.versions)) [
    | inr (old, found) ↦
        rw (found, create_version)
          (record {
            listed = h.listed;
            distinct = h.distinct;
            named = h.named;
            current = h.current;
            unmarked = λ x. cc;
          })
    | inl absent ↦
        rw (absent, create_version)
          (record {
            listed = λ v. ground (
              arith,
              h.listed v,
              contains-append v e.version_list (o.version spec ∷ []),
              lookup-insert (o.version spec) v draft e.versions,
              eq_iff (o.version spec) v,
            );
            distinct =
                Distinct-concat e.version_list (o.version spec) h.distinct
                  (ground (arith, h.listed (o.version spec)));
            named = λ v a x. ground (
              arith,
              h.named v a,
              lookup-insert (o.version spec) v draft e.versions,
              eq_iff (o.version spec) v,
              o.version-set_status status_draft spec,
              o.name-set_status status_draft spec,
            );
            current = λ x. kept absent (h.current x);
            unmarked = λ x. cc;
          })
  ]
    where
      draft : A
      draft = o.set_status status_draft spec

      kept :
          lookup (o.version spec) e.versions ≡ none
          → (a : A) × (lookup e.active e.versions ≡ some a) × (o.status a ≡ status_active)
          → (a : A) × (lookup e.active (insert (o.version spec) draft e.versions) ≡ some a)
            × (o.status a ≡ status_active)
      kept absent (a, found, marked) = (
        a,
        ground (
          arith,
          lookup-insert (o.version spec) e.active draft e.versions,
          eq_iff (o.version spec) e.active,
        ),
        marked,
      )

  -- What a lookup finds after the demotion: what was there, but the demoted spec under the version
  -- that was active, if another is promoted.
  pub demote-cases :
      (version v : String) (e : Entry A)
      → (lookup v (demote o version e) ≡ lookup v e.versions)
        ⊎ ((prev : A) × (lookup e.active e.versions ≡ some prev)
            × (e.active ≡ v)
            × (e.active ≢ version)
            × (lookup v (demote o version e) ≡ some (o.set_status status_draft prev)))
  unfolding demote
  demote-cases version v e = elim (Option-cases (lookup e.active e.versions)) [
    | inl absent ↦ inl (rw (absent, demote))
    | inr (prev, found) ↦ elim (Bool-cases (str_eq e.active version)) [
      | inl same ↦ inl (rw (found, demote, same))
      | inr other ↦ elim (Bool-cases (str_eq e.active v)) [
        | inr away ↦
            inl
              (ground (arith, lookup-insert e.active v (o.set_status status_draft prev) e.versions))
        | inl at ↦ inr (
          prev,
          found,
          (eq_iff _ _).0 at,
          ground (arith, eq_iff e.active version),
          ground (arith, lookup-insert e.active v (o.set_status status_draft prev) e.versions),
        )
      ]
    ]
  ]

  pub promote-valid :
      (name version : String) (sp : A) (e : Entry A)
      → EntryIsValid name e
      → lookup version e.versions ≡ some sp
      → e.deleted ≡ false
      → EntryIsValid name (promote o version sp e)
  unfolding promote
  promote-valid name version sp e h found live = record {
    listed = λ v. elim (demote-cases version v e) [
      | inl same ↦ ground (arith, h.listed v, found, at v, eq_iff version v)
      | inr (prev, was, here, other, now) ↦ ground (arith, h.listed v, at v, eq_iff version v)
    ];
    distinct = h.distinct;
    named = λ v a x. elim (demote-cases version v e) [
      | inl same ↦ ground (arith, h.named v a, h.named v sp, laws sp, at v, eq_iff version v)
      | inr (prev, was, here, other, now) ↦
          ground (arith, h.named v prev, h.named v sp, laws sp, laws' prev, at v, eq_iff version v)
    ];
    current = λ x. (
      o.set_status status_active sp,
      ground (arith, at version, eq_iff version version),
      o.status-set_status status_active sp,
    );
    unmarked = λ x. cc;
  }
    where
      at :
          (v : String)
          → lookup v (insert version (o.set_status status_active sp) (demote o version e)) ≡ (
              if str_eq version v
              then some (o.set_status status_active sp)
              else lookup v (demote o version e))
      at v = lookup-insert version v (o.set_status status_active sp) (demote o version e)

      laws :
          (a : A)
          → (o.version (o.set_status status_active a) ≡ o.version a)
            × (o.name (o.set_status status_active a) ≡ o.name a)
      laws a = (o.version-set_status status_active a, o.name-set_status status_active a)

      laws' :
          (a : A)
          → (o.version (o.set_status status_draft a) ≡ o.version a)
            × (o.name (o.set_status status_draft a) ≡ o.name a)
      laws' a = (o.version-set_status status_draft a, o.name-set_status status_draft a)

  pub delete-valid :
      (name : String) (e : Entry A)
      → EntryIsValid name e
      → EntryIsValid name (record e { deleted = true; active = "" })
  delete-valid name e h = record {
    listed = h.listed;
    distinct = h.distinct;
    named = h.named;
    current = λ x. absurd (x refl);
    unmarked = λ x. refl;
  }

  -- An entry that `findEntry` finds is there and is not deleted.
  pub find_entry_found :
      (t n : String) (s : Store A) (e : Entry A)
      → find_entry o t n s ≡ ok e
      → (entry_at t n s ≡ some e) × (e.deleted ≡ false)
  unfolding find_entry
  find_entry_found t n s e h = ground arith
