-- ===== src/Prompt/Reading.antt =====
-- pkg/prompt/backends.go: what is read after `Put` and after `Rename`.
use bunshin_go.Common.{
  String, ℕ, Map, none, some, lookup, insert, remove, if◌then◌else◌, str_eq, not, ◌≡◌, ◌≢◌, refl,
  arith, eq_iff, lookup-insert, lookup-remove,
}
use bunshin_go.Core.Errors.{ok, err}
use bunshin_go.Prompt.Fragments.{Fragment}
use bunshin_go.Prompt.Backend.{
  MemoryBackend, Heap, write, bucket, insert_in, identified, get, rename, move_versions, notify_all,
  slug_missing,
}

write_here : (a : ℕ) (f : Fragment) (h : Heap) → write a f h a ≡ f
write_here a f h = ground arith

read_back {ℓ} : {V : Type ℓ} (k : String) (v : V) (m : Map V) → lookup k (insert k v m) ≡ some v
read_back k v m = ground (arith, lookup-insert k k v m, eq_iff k k)

-- The store after a `Put` that succeeds.
abbrev stored : String → String → ℕ → MemoryBackend → MemoryBackend
stored fresh t a b = record {
  heap = write a (identified fresh (b.heap a)) b.heap;
  by_slug = insert_in t (b.heap a).slug a b.by_slug;
  by_uuid = insert (identified fresh (b.heap a)).id a b.by_uuid;
  by_version =
      if not (str_eq (b.heap a).version "")
      then insert t (insert_in (b.heap a).slug (b.heap a).version a (bucket t b.by_version))
          b.by_version
      else b.by_version;
  watchers = notify_all t (b.heap a).slug a b.watchers;
}

-- The store after a `Rename` that succeeds.
abbrev renamed : String → String → ℕ → Map ℕ → MemoryBackend → MemoryBackend
renamed t new a tm b = record b {
  heap = write a (record (b.heap a) { slug = new }) b.heap;
  by_slug = insert t (insert new a (remove (b.heap a).slug tm)) b.by_slug;
  by_version = move_versions t (b.heap a).slug new b.by_version;
}

rename_done :
    (t id new : String) (a : ℕ) (tm : Map ℕ) (b : MemoryBackend)
    → lookup id b.by_uuid ≡ some a
    → lookup t b.by_slug ≡ some tm
    → rename t id new b ≡ (renamed t new a tm b, none)
unfolding rename
rename_done t id new a tm b known owned = rw (rename, known, owned) refl

renamed-get :
    (t new : String) (a : ℕ) (tm : Map ℕ) (b : MemoryBackend)
    → get t new (renamed t new a tm b) ≡ ok a
unfolding get
renamed-get t new a tm b =
    let left = remove (b.heap a).slug tm in
    rw (get, read_back t (insert new a left) b.by_slug, read_back new a left) refl

renamed-get_old :
    (t new : String) (a : ℕ) (tm : Map ℕ) (b : MemoryBackend)
    → (b.heap a).slug ≢ new
    → get t (b.heap a).slug (renamed t new a tm b) ≡ err (slug_missing (b.heap a).slug t)
unfolding get
renamed-get_old t new a tm b other =
    let old = (b.heap a).slug in
    let left = remove old tm in
    let gone : lookup old (insert new a left) ≡ none = ground (
      arith,
      lookup-insert new old a left,
      lookup-remove old old tm,
      eq_iff new old,
      eq_iff old old,
    ) in
    rw (get, read_back t (insert new a left) b.by_slug, gone) refl

-- `Rename` asks for no owner: for any tenant that has a map of slugs, and the identifier of a fragment of
-- whichever tenant, it gives that tenant the fragment under the new slug, takes from it what it has
-- under the old slug of the fragment, if that is another one, and renames the fragment everywhere.
pub rename_foreign :
    (t id new : String) (a : ℕ) (tm : Map ℕ) (b : MemoryBackend)
    → lookup id b.by_uuid ≡ some a
    → lookup t b.by_slug ≡ some tm
    → ((rename t id new b).1 ≡ none)
      × (get t new (rename t id new b).0 ≡ ok a)
      × ((rename t id new b).0.heap a ≡ record (b.heap a) { slug = new })
      × ((b.heap a).slug ≢ new
          → get t (b.heap a).slug (rename t id new b).0 ≡ err (slug_missing (b.heap a).slug t))
rename_foreign t id new a tm b known owned = rw (rename_done t id new a tm b known owned) (
  refl,
  renamed-get t new a tm b,
  write_here a (record (b.heap a) { slug = new }) b.heap,
  renamed-get_old t new a tm b,
)
