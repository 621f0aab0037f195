-- ===== src/Json.antt =====
-- `serde_json::Value`, and what the clients read and build of it. Numbers that are not unsigned are
-- kept by their text. An object is the list of its fields, in an order that a map might choose.
use ebpf_assist.Prelude.{ℕ, Bool, List, [], ◌∷◌, String, Option, none, some, if◌then◌else◌, str_eq}

mutual
  pub data Json : Type 0 where
    null : Json
    bool : Bool → Json
    number : ℕ → Json
    other_number string : String → Json
    array : Items → Json
    object : Fields → Json

  pub data Items : Type 0 where
    no_items : Items
    item : Json → Items → Items

  pub data Fields : Type 0 where
    no_fields : Fields
    field : String → Json → Fields → Fields

abbrev pub items : List Json → Items
items [] = Items.no_items
items (j ∷ js) = Items.item j (items js)

abbrev pub fields : List (String × Json) → Fields
fields [] = Fields.no_fields
fields ((k, j) ∷ rest) = Fields.field k j (fields rest)

-- `json!({…})` and `json!([…])`
abbrev pub obj : List (String × Json) → Json
obj fs = object (fields fs)

abbrev pub arr : List Json → Json
arr js = array (items js)

abbrev pub string_items : List String → Items
string_items [] = Items.no_items
string_items (s ∷ ss) = Items.item (string s) (string_items ss)

abbrev pub strings : List String → Json
strings ss = array (string_items ss)

-- An optional string in a `json!`
abbrev pub or_null : Option String → Json
or_null none = null
or_null (some s) = string s

unfoldable pub get_field : String → Fields → Option Json
get_field key Fields.no_fields = none
get_field key (Fields.field k j rest) = if str_eq k key then some j else get_field key rest

-- `get`, `as_str`, `as_bool`, `as_u64`, `as_array`
unfoldable pub get : Json → String → Option Json
unfolding get_field
get (object fs) key = get_field key fs
get _ key = none

abbrev pub as_str : Json → Option String
as_str (string s) = some s
as_str _ = none

abbrev pub as_bool : Json → Option Bool
as_bool (bool b) = some b
as_bool _ = none

abbrev pub as_u64 : Json → Option ℕ
as_u64 (number n) = some n
as_u64 _ = none

abbrev pub list_of : Items → List Json
list_of Items.no_items = []
list_of (Items.item j js) = j ∷ list_of js

abbrev pub as_array : Json → Option (List Json)
as_array (array js) = some (list_of js)
as_array _ = none

-- `.and_then(f).unwrap_or(default)` on an optional value
abbrev pub read_or {ℓ} : {A : Type ℓ} → A → (Json → Option A) → Option Json → A
read_or default f none = default
read_or default f (some j) = elim (f j) [ none ↦ default | some a ↦ a ]
