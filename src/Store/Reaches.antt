-- ===== src/Store/Reaches.antt =====
-- pkg/workflow/store/memory/memory.go: stored versions that calls can reach.
use bunshin_go.Common.{
  String, none, some, lookup, ◌≡◌, ◌≢◌, false, arith, eq_iff, Option-cases, inl, inr, ◌⊎◌,
}
use bunshin_go.Core.Errors.{ok}
use bunshin_go.Store.Entries.{entry_at, put_entry, entry_at-put_entry}
use bunshin_go.Store.Versioned.{
  Versioned, Entry, Store, find_entry, get, get_version, promote, activate,
}

-- A stored version that calls can reach: its entry is there and not deleted.
pub record Reaches {A : Type 0} (t n v : String) (s : Store A) (e : Entry A) (sp : A) : Type 0 where
  pub here : entry_at t n s ≡ some e
  pub live : e.deleted ≡ false
  pub stored : lookup v e.versions ≡ some sp

module _ {A : Type 0} (o : Versioned A) where
  pub get_version-Reaches :
      (t n v : String) (s : Store A) (sp : A)
      → get_version o t n v s ≡ ok sp
      → (e : Entry A) × Reaches t n v s e sp
  unfolding get_version find_entry
  get_version-Reaches t n v s sp h = elim (Option-cases (entry_at t n s)) [
    | inl absent ↦ absurd (ground arith)
    | inr (e, here) ↦ (e, record { here = here; live = ground arith; stored = ground arith })
  ]

  pub Reaches-get_version :
      {t n v : String} {s : Store A} {e : Entry A} {sp : A}
      → Reaches t n v s e sp
      → get_version o t n v s ≡ ok sp
  unfolding get_version find_entry
  Reaches-get_version r = ground arith

  pub Reaches-activate :
      {t n v : String} {s : Store A} {e : Entry A} {sp : A}
      → Reaches t n v s e sp
      → activate o t n v s ≡ (put_entry t n (promote o v sp e) s, none)
  unfolding activate find_entry
  Reaches-activate r = ground arith

  pub activate-Reaches :
      (t n v : String) (s : Store A)
      → (activate o t n v s).1 ≡ none
      → (e : Entry A) × (sp : A) × Reaches t n v s e sp
  unfolding activate find_entry
  activate-Reaches t n v s h = elim (Option-cases (entry_at t n s)) [
    | inl absent ↦ absurd (ground arith)
    | inr (e, here) ↦ elim (Option-cases (lookup v e.versions)) [
      | inl missing ↦ absurd (ground arith)
      | inr (sp, stored) ↦ (e, sp, record { here = here; live = ground arith; stored = stored })
    ]
  ]

  pub activate_refused :
      (t n v : String) (s : Store A) → (activate o t n v s).1 ≢ none → (activate o t n v s).0 ≡ s
  unfolding activate
  activate_refused t n v s h = ground arith

  pub entry_at-put_entry_self :
      (t n : String) (e : Entry A) (s : Store A) → entry_at t n (put_entry t n e s) ≡ some e
  entry_at-put_entry_self t n e s =
      ground (arith, entry_at-put_entry t t n n e s, eq_iff t t, eq_iff n n)

  pub get_here :
      (t n : String) (s : Store A) (e : Entry A) (sp : A)
      → Reaches t n e.active s e sp
      → e.active ≢ ""
      → get o t n s ≡ some (ok sp)
  unfolding get find_entry
  get_here t n s e sp r named = ground (arith, eq_iff e.active "")

  pub get-Reaches :
      (t n : String) (s : Store A) (a : A)
      → get o t n s ≡ some (ok a)
      → (e : Entry A) × Reaches t n e.active s e a × (e.active ≢ "")
  unfolding get find_entry
  get-Reaches t n s a h = elim (Option-cases (entry_at t n s)) [
    | inl absent ↦ absurd (ground arith)
    | inr (e, here) ↦ elim (Option-cases (lookup e.active e.versions)) [
      | inl missing ↦ absurd (ground arith)
      | inr (b, found) ↦ (
        e,
        record { here = here; live = ground arith; stored = ground arith },
        ground (arith, eq_iff e.active ""),
      )
    ]
  ]

  -- A call that writes the entry at a tenant and a name leaves every other entry alone.
  pub put_entry_elsewhere :
      (t t' n n' : String) (e : Entry A) (s : Store A)
      → (t ≢ t') ⊎ (n ≢ n')
      → entry_at t' n' (put_entry t n e s) ≡ entry_at t' n' s
  put_entry_elsewhere t t' n n' e s apart =
      ground (arith, entry_at-put_entry t t' n n' e s, eq_iff t t', eq_iff n n')
