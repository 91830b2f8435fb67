-- ===== src/Model/Value.antt =====
-- A JavaScript value that comes from JSON, before anything is known of it. A number is the text that
-- it is printed as. An object has its fields in their order.
use cot_server.Base.{
  ℕ, ◌+◌, String, Bool, true, false, not, ◌&&◌, Option, none, some, List, [], ◌∷◌, str_eq,
  if◌then◌else◌,
}
use cot_server.Base.BigIntText.{decimal}

mutual
  pub data Value : Type 0 where
    undefined null : Value
    bool : Bool → Value
    number : String → Value
    text : String → Value
    array : Values → Value
    object : Fields → Value

  pub data Values : Type 0 where
    end : Values
    item : Value → Values → Values

  pub data Fields : Type 0 where
    no_more : Fields
    field : (name : String) → Value → Fields → Fields

-- `if (value)`
unfoldable pub truthy_value : Value → Bool
truthy_value undefined = false
truthy_value null = false
truthy_value (bool b) = b
truthy_value (number s) = not (str_eq s "0") && not (str_eq s "NaN")
truthy_value (text s) = not (str_eq s "")
truthy_value (array _) = true
truthy_value (object _) = true

-- `typeof value === "boolean"`
unfoldable pub is_boolean : Value → Bool
is_boolean (bool b) = true
is_boolean _ = false

unfoldable pub field_of : String → Fields → Value
field_of name no_more = undefined
field_of name (field key value rest) = if str_eq key name then value else field_of name rest

-- `value[name]`, for a name that is no property of arrays and texts; reading a property of
-- `undefined` or of `null` is an error.
unfoldable pub property : String → Value → Option Value
unfolding field_of
property name undefined = none
property name null = none
property name (object fields) = some (field_of name fields)
property name _ = some undefined

unfoldable pub items_from : ℕ → Values → List (String × Value)
items_from i end = []
items_from i (item value rest) = (decimal i, value) ∷ items_from (i + 1) rest

unfoldable pub characters_from : ℕ → String → List (String × Value)
characters_from i String.[] = []
characters_from i (String.◌∷◌ c s) = (decimal i, text (String.◌∷◌ c "")) ∷ characters_from (i + 1) s

unfoldable pub fields_list : Fields → List (String × Value)
fields_list no_more = []
fields_list (field name value rest) = (name, value) ∷ fields_list rest

-- The names that `for (const name in value)` goes through, each with `value[name]`.
unfoldable pub entries : Value → List (String × Value)
unfolding items_from characters_from fields_list
entries (array values) = items_from 0 values
entries (text s) = characters_from 0 s
entries (object fields) = fields_list fields
entries _ = []
