-- ===== src/Prompt/Cache.antt =====
-- pkg/prompt/cache.go: the cache of fragments, in the process and in Redis.
use Prim.Native.String.{◌++◌ as str_append, slice}
use bunshin_go.Common.{
  String, ℕ, List, [], ◌∷◌, Map, Option, none, some, lookup, insert, Bool, true, false,
  if◌then◌else◌, str_eq,
}
use bunshin_go.Core.Errors.{Error, wrapf, Result, ok, err}
use bunshin_go.Prompt.Fragments.{Fragment, has_all_tags}
use bunshin_go.Prompt.Backend.{bucket}

-- The calls of a `PromptBackend` that the cache makes, on the state of the backend. `Put` updates the
-- fragment that its caller holds.
pub record PromptBackend (B : Type 0) : Type 0 where
  pub get : String → String → B → B × Result Fragment
  pub put : String → Fragment → B → B × Fragment × Option Error
  pub delete : String → String → B → B × Option Error
  pub rename : String → String → String → B → B × Option Error

-- The client of Redis, on the state of the server: a missing key is `none`, which is `redis.Nil`.
pub record Redis (Bytes R : Type 0) : Type 0 where
  pub get : String → R → R × Result (Option Bytes)
  pub set : String → Bytes → R → R × Option Error
  pub keys : String → R → R × Result (List String)

-- `encoding/json` on fragments, and `strings.Index`, `none` for -1.
pub record Encoding (Bytes : Type 0) : Type 0 where
  pub marshal : Fragment → Result Bytes
  pub unmarshal : Bytes → Result Fragment
  pub index : String → String → Option ℕ

-- `PromptCache`: the snapshot, and whether `refreshCh` holds a request.
pub record PromptCache : Type 0 where
  pub snapshot : Map (Map Fragment)
  pub pending : Bool

-- `redisKey`.
abbrev pub redis_key : String → String → String
redis_key t slug = str_append t (str_append ":prompt:" slug)

-- A read of the snapshot.
unfoldable pub cached : String → String → Map (Map Fragment) → Option Fragment
cached t slug snapshot = elim (lookup t snapshot) [ none ↦ none | some tm ↦ lookup slug tm ]

-- The loop of `List`.
unfoldable pub cached_tags : List String → Map Fragment → List Fragment
cached_tags tags [] = []
cached_tags tags ((slug, f) ∷ m) =
    let rest = cached_tags tags m in if has_all_tags f.tags tags then f ∷ rest else rest

-- `List`.
unfoldable pub list : String → List String → PromptCache → List Fragment
list t tags c = cached_tags tags (bucket t c.snapshot)

-- `Refresh`.
abbrev pub refresh : PromptCache → PromptCache
refresh c = record c { pending = true }

module _ {Bytes B R : Type 0} (encoding : Encoding Bytes) (backend : PromptBackend B)
    (redis : Redis Bytes R) where
  -- `extractTenantID`.
  unfoldable pub extract_tenant : String → String
  extract_tenant key = elim (encoding.index key ":prompt:") [ none ↦ "" | some i ↦ slice key 0 i ]

  -- `writeToRedis`.
  unfoldable pub write_to_redis : String → Fragment → R → R × Option Error
  write_to_redis t f r = elim (encoding.marshal f) [
    | err e ↦ (r, some (wrapf "prompt cache: marshal: %w" [] e))
    | ok bytes ↦
        let key = redis_key t f.slug in
        let (r', out) = redis.set key bytes r in
        (
          r',
          elim out [
            | none ↦ none
            | some e ↦ some (wrapf "prompt cache: redis set %q: %w" (key ∷ []) e)
          ],
        )
  ]

  -- `fetchFromRedis`.
  unfoldable pub fetch_from_redis : String → String → B → R → (B × R) × Result Fragment
  fetch_from_redis t slug b r =
      let (r', out) = redis.get (redis_key t slug) r in
      elim out [
        | err e ↦ ((b, r'), err (wrapf "prompt cache: redis get: %w" [] e))
        | ok none ↦ let (b', found) = backend.get t slug b in ((b', r'), found)
        | ok (some bytes) ↦ elim (encoding.unmarshal bytes) [
          | err e ↦ ((b, r'), err (wrapf "prompt cache: decode: %w" [] e))
          | ok f ↦ ((b, r'), ok f)
        ]
      ]

  -- `Get`.
  unfoldable pub get : String → String → PromptCache → B → R → (B × R) × Result Fragment
  get t slug c b r = elim (cached t slug c.snapshot) [
    | some f ↦ ((b, r), ok f)
    | none ↦ fetch_from_redis t slug b r
  ]

  -- `Put`.
  unfoldable pub put : String → Fragment → B → R → (B × R) × Option Error
  put t f b r =
      let (b', stored, out) = backend.put t f b in
      elim out [
        | some e ↦ ((b', r), some e)
        | none ↦ let (r', written) = write_to_redis t stored r in ((b', r'), written)
      ]

  -- `Delete`.
  unfoldable pub delete : String → String → PromptCache → B → (PromptCache × B) × Option Error
  delete t slug c b =
      let (b', out) = backend.delete t slug b in
      elim out [ some e ↦ ((c, b'), some e) | none ↦ ((refresh c, b'), none) ]

  -- The body of the loop of `doRefresh`, after the read of a key.
  unfoldable pub refresh_key :
      String → Result (Option Bytes) → Map (Map Fragment) → Map (Map Fragment)
  refresh_key key (err e) m = m
  refresh_key key (ok none) m = m
  refresh_key key (ok (some bytes)) m = elim (encoding.unmarshal bytes) [
    | err e ↦ m
    | ok f ↦
        let t = extract_tenant key in
        if str_eq t "" then m else insert t (insert f.slug f (bucket t m)) m
  ]

  -- The loop of `doRefresh`.
  unfoldable pub refresh_keys : List String → Map (Map Fragment) → R → R × Map (Map Fragment)
  refresh_keys [] m r = (r, m)
  refresh_keys (key ∷ ks) m r =
      let (r', out) = redis.get key r in refresh_keys ks (refresh_key key out m) r'

  -- `doRefresh`, as `poll` calls it on a request.
  unfoldable pub do_refresh : PromptCache → R → R × PromptCache
  do_refresh c r =
      let (r', out) = redis.keys "*:prompt:*" r in
      elim out [
        | err e ↦ (r', record c { pending = false })
        | ok ks ↦
            let (r'', m) = refresh_keys ks [] r' in (r'', record { snapshot = m; pending = false })
      ]
