-- ===== src/Tests/Prompts.antt =====
-- pkg/prompt: two tenants with a fragment each, and a cache over a backend and a server.
use bunshin_go.Common.{
  String, [], ◌∷◌, Map, none, some, ◌≡◌, ◌≢◌, refl, lookup, insert, false, lookup-insert, ap, ◌==◌,
  arith, if◌then◌else◌, eq_iff,
}
use bunshin_go.Core.Errors.{Result, ok, err, outside}
use bunshin_go.Prompt.Fragments.{Fragment}
use bunshin_go.Prompt.Backend.{MemoryBackend, put, get, rename, slug_missing, Heap}
use bunshin_go.Prompt.Reading.{rename_foreign}
use bunshin_go.Prompt.Cache.{
  PromptBackend, Redis, Encoding, PromptCache, redis_key, cached, write_to_redis,
}
use bunshin_go.Prompt.Cache as Cache
use bunshin_go.Prompt.Stale.{delete_still_served}

abbrev fragment : String → String → Fragment
fragment id slug = record {
  id = id;
  slug = slug;
  content = "text";
  variables = [];
  tags = [];
  version = "1";
  status = "";
}

abbrev heap : Heap
heap a = if a == 0 then fragment "" "greeting" else fragment "u1" "greeting"

abbrev empty : MemoryBackend
empty = record { heap = heap; by_slug = []; by_uuid = []; by_version = []; watchers = [] }

-- Both tenants have a greeting; the identifier u1 is that of the second.
abbrev shared : MemoryBackend
shared = record {
  heap = heap;
  by_slug = ("acme", ("greeting", 0) ∷ []) ∷ ("other", ("greeting", 1) ∷ []) ∷ [];
  by_uuid = ("u0", 0) ∷ ("u1", 1) ∷ [];
  by_version = [];
  watchers = [];
}

known : lookup "u1" shared.by_uuid ≡ some 1
unfolding lookup
known = refl

owned : lookup "acme" shared.by_slug ≡ some (("greeting", 0) ∷ [])
unfolding lookup
owned = refl

rename_foreign_example :
    ((rename "acme" "u1" "stolen" shared).1 ≡ none)
    × (get "acme" "stolen" (rename "acme" "u1" "stolen" shared).0 ≡ ok 1)
    × ((rename "acme" "u1" "stolen" shared).0.heap 1 ≡ record (shared.heap 1) { slug = "stolen" })
    × ((shared.heap 1).slug ≢ "stolen"
        → get "acme" (shared.heap 1).slug (rename "acme" "u1" "stolen" shared).0
          ≡ err (slug_missing (shared.heap 1).slug "acme"))
rename_foreign_example =
    rename_foreign "acme" "u1" "stolen" 1 (("greeting", 0) ∷ []) shared known owned

-- A backend that keeps its fragments by slug, a server that is a map, and fragments as their own
-- encoding.
abbrev store : PromptBackend (Map Fragment)
store = record {
  get = λ t slug b. (
    b,
    elim (lookup slug b) as (λ _. Result Fragment) [ none ↦ err (outside 0) | some f ↦ ok f ],
  );
  put = λ t f b. (insert f.slug f b, f, none);
  delete = λ t slug b. ([], none);
  rename = λ t id new b. (b, some (outside 1));
}

abbrev server : Redis Fragment (Map Fragment)
server = record {
  get = λ k r. (r, ok (lookup k r));
  set = λ k v r. (insert k v r, none);
  keys = λ pattern r. (r, ok []);
}

abbrev itself : Encoding Fragment
itself = record { marshal = ok; unmarshal = ok; index = λ s sub. none }

abbrev cold : PromptCache
cold = record { snapshot = []; pending = false }

set-get :
    (k : String) (v : Fragment) (s : Map Fragment)
    → (server.set k v s).1 ≡ none
    → (server.get k (server.set k v s).0).1 ≡ ok (some v)
set-get k v s done = ap ok (ground (arith, lookup-insert k k v s, eq_iff k k))

written : Cache.put itself store server "acme" (fragment "u0" "greeting") [] [] ≡ (
  (
    ("greeting", fragment "u0" "greeting") ∷ [],
    ("acme:prompt:greeting", fragment "u0" "greeting") ∷ [],
  ),
  none,
)
unfolding Cache.put write_to_redis insert
written = refl

missed : cached "acme" "greeting" cold.snapshot ≡ none
unfolding cached lookup
missed = refl

delete_still_served_example :
    (Cache.get itself store server "acme" "greeting"
      (Cache.delete itself store server "acme" "greeting" cold
        (("greeting", fragment "u0" "greeting") ∷ [])).0.0
      (Cache.delete itself store server "acme" "greeting" cold
        (("greeting", fragment "u0" "greeting") ∷ [])).0.1
      (("acme:prompt:greeting", fragment "u0" "greeting") ∷ [])).1
    ≡ ok (fragment "u0" "greeting")
delete_still_served_example =
    delete_still_served itself store server "acme" (fragment "u0" "greeting")
      (fragment "u0" "greeting") (fragment "u0" "greeting") cold []
      (("greeting", fragment "u0" "greeting") ∷ []) []
      (("acme:prompt:greeting", fragment "u0" "greeting") ∷ []) refl refl refl set-get written
      missed
