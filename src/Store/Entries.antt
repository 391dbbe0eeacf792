-- ===== src/Store/Entries.antt =====
-- The two-level map of the in-memory stores, `map[tenantID]map[name]*entry`: the entry at a tenant
-- and a name, and the store with that entry written.
use bunshin_go.Common.{
  String, Map, Option, none, some, lookup, insert, ◌≡◌, ◌&&◌, if◌then◌else◌, str_eq, [],
  lookup-insert, eq_iff, arith, Bool-cases, Option-cases, insert_same, inl, inr, ◌∙◌,
}

-- `tenantBucket`: the tenant's map, made when it is absent.
unfoldable pub tenant_bucket {ℓ} : {E : Type ℓ} → String → Map (Map E) → Map E
tenant_bucket tenant s = elim (lookup tenant s) [ none ↦ [] | some b ↦ b ]

unfoldable pub entry_at {ℓ} : {E : Type ℓ} → String → String → Map (Map E) → Option E
entry_at tenant name s = elim (lookup tenant s) [ none ↦ none | some b ↦ lookup name b ]

unfoldable pub put_entry {ℓ} : {E : Type ℓ} → String → String → E → Map (Map E) → Map (Map E)
put_entry tenant name e s = insert tenant (insert name e (tenant_bucket tenant s)) s

-- The entry is read in the tenant's bucket.
entry_at_bucket {ℓ} :
    {E : Type ℓ} (t n : String) (s : Map (Map E)) {b : Map E}
    → lookup t s ≡ some b
    → entry_at t n s ≡ lookup n b
unfolding entry_at
entry_at_bucket t n s found = rw (found, entry_at)

entry_at_congr {ℓ} :
    {E : Type ℓ} (t n : String) (s s' : Map (Map E))
    → lookup t s ≡ lookup t s'
    → entry_at t n s ≡ entry_at t n s'
unfolding entry_at
entry_at_congr t n s s' same = rw (same, entry_at)

-- `bucket[name]` in the bucket that `tenantBucket` returns is the entry at the tenant and name.
pub lookup-tenant_bucket {ℓ} :
    {E : Type ℓ} (t n : String) (s : Map (Map E)) → lookup n (tenant_bucket t s) ≡ entry_at t n s
unfolding entry_at tenant_bucket lookup
lookup-tenant_bucket t n s = ground arith

-- A written entry is found at its tenant and name, and every other entry is as before.
pub entry_at-put_entry {ℓ} :
    {E : Type ℓ} (t t' n n' : String) (e : E) (s : Map (Map E))
    → entry_at t' n' (put_entry t n e s)
      ≡ (if str_eq t t' && str_eq n n' then some e else entry_at t' n' s)
unfolding put_entry
entry_at-put_entry t t' n n' e s = elim (Bool-cases (str_eq t t')) [
  | inr other ↦ rw other (
      entry_at_congr t' n' (put_entry t n e s) s
        (lookup-insert t t' (insert n e (tenant_bucket t s)) s ∙ rw other))
  | inl same ↦
      let at : t ≡ t' = (eq_iff t t').0 same in
      rw same (
        entry_at_bucket t' n' (put_entry t n e s)
          (lookup-insert t t' (insert n e (tenant_bucket t s)) s ∙ rw same)
        ∙ lookup-insert n n' e (tenant_bucket t s)
        ∙ rw (lookup-tenant_bucket, at))
]

tenant_bucket_found {ℓ} :
    {E : Type ℓ} (t : String) (s : Map (Map E)) (b : Map E)
    → lookup t s ≡ some b
    → tenant_bucket t s ≡ b
unfolding tenant_bucket
tenant_bucket_found t s b found = rw (found, tenant_bucket)

-- To write an entry back changes nothing.
pub put_entry_same {ℓ} :
    {E : Type ℓ} (t n : String) (e : E) (s : Map (Map E))
    → entry_at t n s ≡ some e
    → put_entry t n e s ≡ s
unfolding put_entry entry_at
put_entry_same t n e s h = elim (Option-cases (lookup t s)) [
  | inl absent ↦ absurd (ground arith)
  | inr (b, found) ↦
      rw (tenant_bucket_found t s b found)
        (rw (insert_same n e b (ground arith)) (insert_same t b s found))
]
