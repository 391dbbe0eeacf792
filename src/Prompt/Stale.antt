-- ===== src/Prompt/Stale.antt =====
-- pkg/prompt/cache.go: what `Get` returns after `Put` and `Delete`.
use bunshin_go.Common.{String, [], ◌∷◌, Option, none, some, true, ◌≡◌, refl, ap, sym, ◌∙◌}
use bunshin_go.Core.Errors.{Error, wrapf, Result, ok, err}
use bunshin_go.Prompt.Fragments.{Fragment}
use bunshin_go.Prompt.Cache.{
  PromptBackend, Redis, Encoding, PromptCache, redis_key, cached, write_to_redis, fetch_from_redis,
  get, put, delete,
}

module _ {Bytes B R : Type 0} (encoding : Encoding Bytes) (backend : PromptBackend B)
    (redis : Redis Bytes R) where
  delete-snapshot :
      (t slug : String) (c : PromptCache) (b : B)
      → (delete encoding backend redis t slug c b).0.0.snapshot ≡ c.snapshot
  unfolding delete
  delete-snapshot t slug c b = go (backend.delete t slug b)
    where
      go :
          (called : B × Option Error)
          → (elim called.1 as (λ _. (PromptCache × B) × Option Error) [
            | some e ↦ ((c, called.0), some e)
            | none ↦ ((record c { pending = true }, called.0), none)
          ]).0.0.snapshot
            ≡ c.snapshot
      go (b', none) = refl
      go (b', some e) = refl

  put-write_to_redis :
      (t : String) (f stored : Fragment) (b b' : B) (r r' : R)
      → (backend.put t f b).1 ≡ stored
      → put encoding backend redis t f b r ≡ ((b', r'), none)
      → write_to_redis encoding backend redis t stored r ≡ (r', none)
  unfolding put
  put-write_to_redis t f stored b b' r r' same done =
      ap (λ g. write_to_redis encoding backend redis t g r) (sym same)
      ∙ go (backend.put t f b) (write_to_redis encoding backend redis t ((backend.put t f b).1) r)
          done
    where
      go :
          (called : B × Fragment × Option Error) (written : R × Option Error)
          → (elim called.2 as (λ _. (B × R) × Option Error) [
            | some e ↦ ((called.0, r), some e)
            | none ↦ ((called.0, written.0), written.1)
          ])
            ≡ ((b', r'), none)
          → written ≡ (r', none)
      go (b1, g, some e) written done = absurd cc
      go (b1, g, none) (r1, out) done = cc

  -- A `Put` that succeeds has set the encoding in Redis.
  write_to_redis-set :
      (t : String) (f : Fragment) (bytes : Bytes) (r r' : R)
      → encoding.marshal f ≡ ok bytes
      → write_to_redis encoding backend redis t f r ≡ (r', none)
      → redis.set (redis_key t f.slug) bytes r ≡ (r', none)
  unfolding write_to_redis
  write_to_redis-set t f bytes r r' enc done = go (encoding.marshal f) enc done
    where
      key : String
      key = redis_key t f.slug

      set_done :
          (out : R × Option Error)
          → ◌≡◌ {A = R × Option Error}
              (
                out.0,
                elim out.1 as (λ _. Option Error) [
                  | none ↦ none
                  | some e ↦ some (wrapf "prompt cache: redis set %q: %w" (key ∷ []) e)
                ],
              )
              (r', none)
          → out ≡ (r', none)
      set_done (r1, none) done = done
      set_done (r1, some e) done = absurd cc

      go :
          (m : Result Bytes)
          → m ≡ ok bytes
          → (elim m as (λ _. R × Option Error) [
            | err e ↦ (r, some (wrapf "prompt cache: marshal: %w" [] e))
            | ok v ↦ (
              (redis.set key v r).0,
              elim (redis.set key v r).1 as (λ _. Option Error) [
                | none ↦ none
                | some e ↦ some (wrapf "prompt cache: redis set %q: %w" (key ∷ []) e)
              ],
            )
          ])
            ≡ (r', none)
          → redis.set key bytes r ≡ (r', none)
      go (err e) same done = absurd cc
      go (ok v) same done =
          let at : v ≡ bytes = cc in
          ap (λ x. redis.set key x r) (sym at) ∙ set_done (redis.set key v r) done

  -- `Delete` leaves Redis alone: after a `Put` that succeeds and a `Delete`, `Get` still returns the
  -- fragment as the backend left it if the snapshot has none for its slug, when Redis returns for a key
  -- what was set for it and the fragment is decoded from its encoding.
  pub delete_still_served :
      (t : String) (f stored : Fragment) (bytes : Bytes) (c : PromptCache) (b b' : B) (r r' : R)
      → (backend.put t f b).1 ≡ stored
      → encoding.marshal stored ≡ ok bytes
      → encoding.unmarshal bytes ≡ ok stored
      → ((k : String) (v : Bytes) (s : R)
          → (redis.set k v s).1 ≡ none
          → (redis.get k (redis.set k v s).0).1 ≡ ok (some v))
      → put encoding backend redis t f b r ≡ ((b', r'), none)
      → cached t stored.slug c.snapshot ≡ none
      → (get encoding backend redis t stored.slug
          (delete encoding backend redis t stored.slug c b').0.0
          (delete encoding backend redis t stored.slug c b').0.1
          r').1
        ≡ ok stored
  unfolding get fetch_from_redis
  delete_still_served t f stored bytes c b b' r r' given enc dec reads put_ok cold =
      let set =
        write_to_redis-set t stored bytes r r' enc
          (put-write_to_redis t f stored b b' r r' given put_ok) in
      let read : (redis.get (redis_key t stored.slug) r').1 ≡ ok (some bytes) =
        ap (λ x. (redis.get (redis_key t stored.slug) x.0).1) (sym set)
        ∙ reads (redis_key t stored.slug) bytes r (ap (λ x. x.1) set) in
      rw (get, delete-snapshot t stored.slug c b', cold, fetch_from_redis, read, dec) refl
