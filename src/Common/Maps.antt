-- ===== src/Common/Maps.antt =====
-- Go maps with string keys as association lists. A write replaces the value in place or adds the
-- key at the end; the order of the list stands for one of the orders that `range` may take.
use Prim.Native.String.{String}
use mathlib.Core.Path.{◌≡◌, refl}
use mathlib.Core.Option.{Option, none, some}
use mathlib.Core.Bool.{false}
use mathlib.Core.Logic.{◌≢◌}
use mathlib.Core.List.{List, [], ◌∷◌, map}
use native.Mathlib.Omega.{arith}
use text.Mathlib.Text.{◌==◌}
use text.Mathlib.TextEquality.{eq_iff}
use bunshin_go.Common.Tests.{if◌then◌else◌}

abbrev pub Map {ℓ} : Type ℓ → Type ℓ
Map V = List (String × V)

module _ {ℓ} {V : Type ℓ} where
  unfoldable pub lookup : String → Map V → Option V
  lookup k [] = none
  lookup k ((j, v) ∷ m) = if j == k then some v else lookup k m

  unfoldable pub insert : String → V → Map V → Map V
  insert k v [] = (k, v) ∷ []
  insert k v ((j, w) ∷ m) = if j == k then (k, v) ∷ m else (j, w) ∷ insert k v m

  unfoldable pub remove : String → Map V → Map V
  remove k [] = []
  remove k ((j, w) ∷ m) = let rest = remove k m in if j == k then rest else (j, w) ∷ rest

  abbrev pub keys : Map V → List String
  keys = map (λ e. e.0)

  pub lookup-insert :
      (written asked : String) (value : V) (entries : Map V)
      → lookup asked (insert written value entries)
        ≡ (if written == asked then some value else lookup asked entries)
  unfolding insert lookup
  lookup-insert written asked value [] = refl
  lookup-insert written asked value ((there, old) ∷ others) =
      let later = lookup-insert written asked value others in
      ground (eq_iff there asked, eq_iff there written, eq_iff written asked, later, arith)

  pub lookup-remove :
      (k j : String) (m : Map V) → lookup j (remove k m) ≡ (if k == j then none else lookup j m)
  unfolding lookup remove
  lookup-remove k j [] = ground arith
  lookup-remove k j ((i, w) ∷ m) =
      ground (arith, eq_iff k j, eq_iff i k, eq_iff i j, lookup-remove k j m)

  -- To write what is already there changes nothing.
  pub insert_same : (k : String) (v : V) (m : Map V) → lookup k m ≡ some v → insert k v m ≡ m
  unfolding lookup insert
  insert_same k v [] h = cc
  insert_same k v ((i, w) ∷ m) h = ground (arith, eq_iff i k, insert_same k v m)

-- Two texts that the test tells apart.
pub differs : {s t : String} → (s == t) ≡ false → s ≢ t
differs {s} {t} h = ground (arith, eq_iff s t)
