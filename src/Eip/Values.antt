-- ===== src/Eip/Values.antt =====
-- The helpers at the end of pkg/graph/router/eip/eip.go: what a router accepts as a string, a map
-- of strings, a slice, a number and a truth value.
use bunshin_go.Common.{
  String, ℕ, ◌+◌, List, [], ◌∷◌, map, Map, Option, none, some, Bool, true, false, ◌&&◌, str_eq, not,
  ◌==◌, get_elem?, insert,
}
use bunshin_go.Core.Errors.{errorf, errorf_at, Result, ok, err, ◌>>=◌}
use bunshin_go.Core.Value.{
  ℤ, pos, negsuc, Value, null, bool, int, int64, int32, float64, string, strings, slice, maps, dict,
  string_dict, Values, no_items, item, Fields, no_fields, field, to_list, rows_to_list, Runtime,
}
use bunshin_go.Core.State.{State, get_key}

-- The payload of a YAML-compiled workflow, `map[string]any`, nil or not.
abbrev pub Data : Type 0
Data = Option (Map Value)

-- `requireString`.
unfoldable pub require_string : Option (Map Value) → String → Result String
require_string config key = elim (get_key config key) [
  | none ↦ err (errorf "config missing required key %q" (key ∷ []))
  | some (string s) ↦ ok s
  | some _ ↦ err (errorf "config key %q must be a string, got %T" (key ∷ []))
]

-- `toInt`, on a value that may be absent (a read of a missing key gives nil). An int is 64 bits.
unfoldable pub to_int : Runtime → Option Value → ℤ
to_int rt (some (int n)) = n
to_int rt (some (int64 n)) = n
to_int rt (some (int32 n)) = n
to_int rt (some (float64 bits)) = rt.int_of_float bits
to_int rt _ = pos 0

string_fields : Fields → Result (Map String)
string_fields no_fields = ok []
string_fields (field k (string s) fs) = do rest ← string_fields fs; ok ((k, s) ∷ rest)
string_fields (field k _ fs) = err (errorf "value for key %q must be string, got %T" (k ∷ []))

-- `toStringMap`.
unfoldable pub to_string_map : Value → Result (Map String)
unfolding string_fields
to_string_map (string_dict m) = ok m
to_string_map (dict fs) = string_fields fs
to_string_map _ = err (errorf "expected map[string]string, got %T" [])

-- The loop of `toStringSlice` and of `toAnyStringSlice`, from element `i` on.
string_items : ℕ → Values → Result (List String)
string_items i no_items = ok []
string_items i (item (string s) vs) = do rest ← string_items (i + 1) vs; ok (s ∷ rest)
string_items i (item _ vs) = err (errorf_at "element %d must be string, got %T" i)

-- `toStringSlice`.
unfoldable pub to_string_slice : Value → Result (List String)
unfolding string_items
to_string_slice (strings l) = ok l
to_string_slice (slice vs) = string_items 0 vs
to_string_slice _ = err (errorf "expected []string, got %T" [])

-- `toAnyStringSlice`: the same on every value.
unfoldable pub to_any_string_slice : Value → Result (List String)
unfolding string_items
to_any_string_slice (strings l) = ok l
to_any_string_slice (slice vs) = string_items 0 vs
to_any_string_slice _ = err (errorf "expected []string, got %T" [])

-- `toAnySlice`.
unfoldable pub to_any_slice : Value → Result (List Value)
to_any_slice (slice vs) = ok (to_list vs)
to_any_slice (strings l) = ok (map string l)
to_any_slice (maps ms) = ok (rows_to_list ms)
to_any_slice _ = err (errorf "expected []any|[]string|[]map[string]any, got %T" [])

abbrev is_zero : ℤ → Bool
is_zero (pos n) = n == 0
is_zero (negsuc n) = false

-- `isTruthy`. A float64 is zero if its bits are all 0 but for the sign.
unfoldable pub is_truthy : Runtime → Value → Bool
is_truthy rt null = false
is_truthy rt (bool b) = b
is_truthy rt (int n) = not (is_zero n)
is_truthy rt (float64 bits) = not (bits == 0) && not (bits == 0x8000000000000000)
is_truthy rt (string s) = not (str_eq s "") && (not (rt.equal_fold s "false") && not (str_eq s "0"))
is_truthy rt _ = true

-- `ensureMeta` and the write after it, as the caller of the router sees them: a router gets a copy
-- of the state, so the map that is made for a nil `Meta` is lost with the copy.
unfoldable pub write_meta : String → Value → State Data → State Data
write_meta k v s = elim s.meta [ none ↦ s | some m ↦ record s { meta = some (insert k v m) } ]

-- A write to `state.Data`, which is not nil where the routers write.
unfoldable pub write_data : String → Value → State Data → State Data
write_data k v s = elim s.payload [ none ↦ s | some m ↦ record s { payload = some (insert k v m) } ]

-- `xs[p]` behind the test `p < 0 || p >= len(xs)`, with the position that is stored next.
unfoldable pub take_at {ℓ} : {A : Type ℓ} → ℤ → List A → Option (A × ℤ)
take_at (negsuc n) xs = none
take_at (pos n) xs = elim (get_elem? xs n) [ none ↦ none | some x ↦ some (x, pos (n + 1)) ]
