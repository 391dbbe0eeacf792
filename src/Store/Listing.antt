-- ===== src/Store/Listing.antt =====
-- pkg/agent/store/memory.go: what `Get`, `GetVersion` and `ListVersions` return after `Activate`.
use mathlib.Core.List.{reverse, reverse_aux}
use bunshin_go.Common.{
  String, List, [], ◌∷◌, none, some, map, lookup, ◌≡◌, refl, sym, ap, ◌∙◌, ◌≢◌, false,
  if◌then◌else◌, str_eq, Option-cases, inl, inr, arith, eq_iff,
}
use bunshin_go.Core.Errors.{Result, ok, err, errorf}
use bunshin_go.Store.Entries.{entry_at, put_entry, entry_at-put_entry}
use bunshin_go.Store.Versioned.{Entry, status_active, status_draft}
use bunshin_go.Store.Agents.{
  AgentSpec, AgentVersion, Agents, find_entry, get, get_version, with_status, list_versions,
  activate,
}

-- A listed version with its status when `v` is the active one.
abbrev pub marked : String → AgentVersion → AgentVersion
marked v x = record {
  version = x.version;
  status = if str_eq x.version v then status_active else status_draft;
}

with_status-marked :
    (v a : String) (vs : List String) → with_status v vs ≡ map (marked v) (with_status a vs)
unfolding with_status
with_status-marked v a [] = refl
with_status-marked v a (x ∷ xs) =
    ap (◌∷◌ (record { version = x; status = if str_eq x v then status_active else status_draft }))
      (with_status-marked v a xs)

get_version-entry :
    (t n v : String) (s : Agents) (sp : AgentSpec)
    → get_version t n v s ≡ ok sp
    → (e : Entry AgentSpec) × (find_entry t n s ≡ ok e)
      × (e.deleted ≡ false)
      × (lookup v e.versions ≡ some sp)
unfolding get_version find_entry
get_version-entry t n v s sp h = elim (Option-cases (entry_at t n s)) [
  | inl absent ↦ absurd (ground arith)
  | inr (e, here) ↦ (e, ground arith, ground arith, ground arith)
]

find_entry-put_entry :
    (t n : String) (e : Entry AgentSpec) (s : Agents)
    → e.deleted ≡ false
    → find_entry t n (put_entry t n e s) ≡ ok e
unfolding find_entry
find_entry-put_entry t n e s live =
    ground (arith, entry_at-put_entry t t n n e s, eq_iff t t, eq_iff n n)

map-reverse_aux :
    {A B : Type 0} (f : A → B) (xs ys : List A)
    → map f (reverse_aux xs ys) ≡ reverse_aux (map f xs) (map f ys)
map-reverse_aux f [] ys = refl
map-reverse_aux f (x ∷ xs) ys = map-reverse_aux f xs (x ∷ ys)

abbrev promoted : String → Entry AgentSpec → Entry AgentSpec
promoted v e = record e { active = v }

activate-promoted :
    (t n v : String) (s : Agents) (e : Entry AgentSpec) (sp : AgentSpec)
    → find_entry t n s ≡ ok e
    → lookup v e.versions ≡ some sp
    → (activate t n v s).0 ≡ put_entry t n (promoted v e) s
unfolding activate
activate-promoted t n v s e sp found stored = ground arith

get-find_entry :
    (t n : String) (s : Agents) (e : Entry AgentSpec)
    → find_entry t n s ≡ ok e
    → e.active ≢ ""
    → get t n s ≡ ok (lookup e.active e.versions)
unfolding get
get-find_entry t n s e found busy = rw found (ground (arith, eq_iff e.active ""))

version_of : (t n u : String) → Entry AgentSpec → Result AgentSpec
version_of t n u e = elim (lookup u e.versions) [
  | none ↦ err (errorf "agent %q version %q tenant %q: not found" (n ∷ u ∷ t ∷ []))
  | some spec ↦ ok spec
]

get_version-find_entry :
    (t n u : String) (s : Agents) (e : Entry AgentSpec)
    → find_entry t n s ≡ ok e
    → get_version t n u s ≡ version_of t n u e
unfolding get_version version_of
get_version-find_entry t n u s e found = rw found refl

list_versions-find_entry :
    (t n : String) (s : Agents) (e : Entry AgentSpec)
    → find_entry t n s ≡ ok e
    → list_versions t n s ≡ ok (reverse (with_status e.active e.version_list))
unfolding list_versions
list_versions-find_entry t n s e found = rw found refl

-- After `Activate` of a stored version other than "", `Get` returns that version's spec,
-- `GetVersion` finds every version as before, and `ListVersions` lists the same versions in the same
-- order, this one marked active and the others as drafts.
pub list_versions-activate :
    (t n v : String) (s : Agents) (sp : AgentSpec)
    → v ≢ ""
    → get_version t n v s ≡ ok sp
    → (get t n (activate t n v s).0 ≡ ok (some sp))
      × ((u : String) → get_version t n u (activate t n v s).0 ≡ get_version t n u s)
      × ((vs : List AgentVersion)
          → list_versions t n s ≡ ok vs
          → list_versions t n (activate t n v s).0 ≡ ok (map (marked v) vs))
unfolding version_of
list_versions-activate t n v s sp named h =
    let (e, found, live, stored) = get_version-entry t n v s sp h in
    let s' = put_entry t n (promoted v e) s in
    let after : find_entry t n s' ≡ ok (promoted v e) =
      find_entry-put_entry t n (promoted v e) s live in
    let moved : (activate t n v s).0 ≡ s' = activate-promoted t n v s e sp found stored in
    rw moved (
      get-find_entry t n s' (promoted v e) after named ∙ ap ok stored,
      λ u.
          get_version-find_entry t n u s' (promoted v e) after
          ∙ sym (get_version-find_entry t n u s e found),
      λ vs listed.
          let same : ok (reverse (with_status e.active e.version_list)) ≡ ok vs =
            sym (list_versions-find_entry t n s e found) ∙ listed in
          list_versions-find_entry t n s' (promoted v e) after
          ∙ ap (λ l. ok (reverse l)) (with_status-marked v e.active e.version_list)
          ∙ ap ok (
              sym (map-reverse_aux (marked v) (with_status e.active e.version_list) [])
              ∙ ap (map (marked v)) cc),
    )
