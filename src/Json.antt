-- ===== src/Json.antt =====
-- JSON values as the services hold them (`Prisma.JsonValue`): objects keep the order in which their
-- keys were set. (JavaScript lists keys that are array indices first, ascending: an object of the
-- model has them in that order, and the keys that the code sets are names.) A number is held as the text that prints it.
pub mod Objects
pub mod Equality
use schematica_api.Common.{
  String, ℕ, Bool, true, false, Option, none, some, List, [], ◌∷◌, ◌==◌, if◌then◌else◌,
}

mutual
  pub data Value : Type 0 where
    null : Value
    bool : Bool → Value
    num : String → Value
    str : String → Value
    obj : Fields → Value
    arr : Items → Value

  -- the keys of an object in the order in which they were set
  pub data Fields : Type 0 where
    end : Fields
    field : String → Value → Fields → Fields

  -- the elements of an array
  pub data Items : Type 0 where
    nil : Items
    cons : Value → Items → Items

-- `fields[key]`, none where the key is missing
unfoldable pub get_field : String → Fields → Option Value
get_field key end = none
get_field key (field k v fs) = if k == key then some v else get_field key fs

-- `fields[key] = value`: an old key keeps its place
unfoldable pub set_field : String → Value → Fields → Fields
set_field key value end = field key value end
set_field key value (field k v fs) =
    if k == key then field k value fs else field k v (set_field key value fs)

-- `const { [key]: _, ...rest } = fields`
unfoldable pub omit_field : String → Fields → Fields
omit_field key end = end
omit_field key (field k v fs) =
    if k == key then omit_field key fs else field k v (omit_field key fs)

-- `key in fields`
unfoldable pub has_field : String → Fields → Bool
has_field key end = false
has_field key (field k v fs) = if k == key then true else has_field key fs

-- `Object.entries(fields)` and `Object.keys(fields)`
unfoldable pub entries : Fields → List (String × Value)
entries end = []
entries (field k v fs) = (k, v) ∷ entries fs

unfoldable pub keys : Fields → List String
keys end = []
keys (field k v fs) = k ∷ keys fs

-- `typeof v === 'string'`
abbrev pub is_string : Value → Bool
is_string (str s) = true
is_string _ = false
