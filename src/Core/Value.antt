-- ===== src/Core/Value.antt =====
-- The `any` values that YAML-compiled workflows carry in `State.Data` and `State.Meta`.
use bunshin_go.Common.{String, ℕ, List, [], ◌∷◌, Bool, Map}

-- Go's `int`, `int32` and `int64`: `negsuc n` is -(n + 1).
pub data ℤ : Type 0 where
  pos : ℕ → ℤ
  negsuc : ℕ → ℤ

-- A dynamic value by its dynamic type. A float64 is its 64 bits. `other` is a value of any type
-- that the library does not look into, named by an identity.
mutual
  pub data Value : Type 0 where
    null : Value
    bool : Bool → Value
    int : ℤ → Value
    int64 : ℤ → Value
    int32 : ℤ → Value
    float64 : ℕ → Value
    string : String → Value
    strings : List String → Value
    slice : Values → Value
    maps : Rows → Value
    dict : Fields → Value
    string_dict : List (String × String) → Value
    other : ℕ → Value

  pub data Values : Type 0 where
    no_items : Values
    item : Value → Values → Values

  pub data Rows : Type 0 where
    no_rows : Rows
    row : Fields → Rows → Rows

  pub data Fields : Type 0 where
    no_fields : Fields
    field : String → Value → Fields → Fields

-- `[]any` as a list, and back.
abbrev pub to_list : Values → List Value
to_list no_items = []
to_list (item v vs) = v ∷ to_list vs

abbrev pub of_list : List Value → Values
of_list [] = no_items
of_list (v ∷ vs) = item v (of_list vs)

abbrev pub rows_to_list : Rows → List Value
rows_to_list no_rows = []
rows_to_list (row m ms) = dict m ∷ rows_to_list ms

abbrev pub fields_to_map : Fields → Map Value
fields_to_map no_fields = []
fields_to_map (field k v fs) = (k, v) ∷ fields_to_map fs

-- What the Go runtime and `fmt` supply: `fmt.Sprintf("%v", v)`, the conversion `int(f)` of a
-- float64, and `strings.EqualFold`.
pub record Runtime : Type 0 where
  pub sprint : Value → String
  pub int_of_float : ℕ → ℤ
  pub equal_fold : String → String → Bool
