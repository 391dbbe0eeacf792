-- ===== src/Core/State.antt =====
-- pkg/core/state.go: the envelope that flows between runnables. A Go map is `none` when it is nil:
-- reading a nil map misses, and writing to one panics, so the writers below make the map first
-- where the source does.
use bunshin_go.Common.{
  String, [], Map, Option, none, some, lookup, insert, ◌≡◌, refl, if◌then◌else◌, str_eq,
  lookup-insert,
}
use bunshin_go.Core.Value.{Value}

-- `State[S]`: the payload and the cross-cutting `Meta` map.
pub record State {ℓ} (S : Type ℓ) : Type ℓ where
  pub payload : S
  pub meta : Option (Map Value)

-- `NewState`: `Meta` is made, so it is never nil.
unfoldable pub new_state {ℓ} : {S : Type ℓ} → S → State S
new_state d = record { payload = d; meta = some [] }

-- A read of a map that may be nil.
abbrev pub get_key {ℓ} : {V : Type ℓ} → Option (Map V) → String → Option V
get_key none k = none
get_key (some m) k = lookup k m

-- The entries that a `range` over a map that may be nil visits.
abbrev pub entries {ℓ} : {V : Type ℓ} → Option (Map V) → Map V
entries none = []
entries (some m) = m

-- `WithMeta`: a fresh map with the old entries and the new one; the receiver is left alone.
unfoldable pub with_meta {ℓ} : {S : Type ℓ} → String → Value → State S → State S
with_meta k v s = record s { meta = some (insert k v (entries s.meta)) }

-- `GetMeta`.
unfoldable pub get_meta {ℓ} : {S : Type ℓ} → State S → String → Option Value
get_meta s k = get_key s.meta k

-- What `WithMeta` writes is what `GetMeta` reads back, on a nil `Meta` too; every other key reads
-- as before, and the payload is the same.
pub get_meta-with_meta {ℓ} :
    {S : Type ℓ} (s : State S) (k j : String) (v : Value)
    → (get_meta (with_meta k v s) j ≡ (if str_eq k j then some v else get_meta s j))
      × ((with_meta k v s).payload ≡ s.payload)
unfolding get_meta with_meta lookup
get_meta-with_meta s k j v = (go s.meta, refl)
  where
    go :
        (m : Option (Map Value))
        → lookup j (insert k v (entries m)) ≡ (if str_eq k j then some v else get_key m j)
    go none = lookup-insert k j v []
    go (some m) = lookup-insert k j v m
