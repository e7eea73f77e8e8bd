-- ===== src/Json.antt =====
-- JSON values as Python's `json.loads` returns them, and what the source asks of them: `isinstance`,
-- `dict.get`, truth, and `==`.
pub mod Equal
use kavita_ingest.Prelude.{
  ℕ, String, Bool, true, false, not, ◌&&◌, ◌||◌, Option, none, some, List, [], ◌∷◌, ◌==◌, string_Eq,
  nat_Eq, if◌then◌else◌,
}

-- A number that is not written as a natural one comes with the natural number that it equals, if
-- there is one; with a text for its value, the same for all numbers that are equal and none for a NaN;
-- and with its text as it is written. The names of an object are different.
mutual
  pub data Json : Type 0 where
    null : Json
    boolean : Bool → Json
    number : ℕ → Json
    real : Option ℕ → Option String → String → Json
    text : String → Json
    array : Items → Json
    object : Fields → Json

  pub data Items : Type 0 where
    nil : Items
    item : Json → Items → Items

  pub data Fields : Type 0 where
    empty : Fields
    field : String → Json → Fields → Fields

unfoldable pub elements : Items → List Json
elements nil = []
elements (item j rest) = j ∷ elements rest

unfoldable pub items_of : List Json → Items
items_of [] = nil
items_of (j ∷ rest) = item j (items_of rest)

unfoldable pub fields_of : List (String × Json) → Fields
fields_of [] = empty
fields_of ((name, j) ∷ rest) = field name j (fields_of rest)

-- d.items()
unfoldable pub members : Fields → List (String × Json)
members empty = []
members (field name j rest) = (name, j) ∷ members rest

abbrev pub members_of : Json → List (String × Json)
members_of (object fields) = members fields
members_of _ = []

-- `name in d` and `d.get(name)` of an object's fields
unfoldable pub field_at : String → Fields → Option Json
field_at name empty = none
field_at name (field n j rest) =
    let later = field_at name rest in if n == name then some j else later

abbrev pub or_null : Option Json → Json
or_null none = null
or_null (some j) = j

-- d.get(name), where `d` is an object; anything else has no field.
unfoldable pub get : String → Json → Json
get name (object fields) = or_null (field_at name fields)
get name _ = null

unfoldable pub has : String → Json → Bool
has name (object fields) = elim (field_at name fields) [ none ↦ false | some j ↦ true ]
has name _ = false

abbrev pub is_null : Json → Bool
is_null null = true
is_null _ = false

abbrev pub is_object : Json → Bool
is_object (object fields) = true
is_object _ = false

-- isinstance(j, list), with the elements
abbrev pub as_list : Json → Option (List Json)
as_list (array items) = some (elements items)
as_list _ = none

abbrev pub as_text : Json → Option String
as_text (text s) = some s
as_text _ = none

-- The natural number that a value equals. Python counts `true` and `false` as numbers.
abbrev pub as_number : Json → Option ℕ
as_number (boolean true) = some 1
as_number (boolean false) = some 0
as_number (number n) = some n
as_number (real value exact s) = value
as_number _ = none

-- isinstance(j, int)
abbrev pub as_int : Json → Option ℕ
as_int (boolean true) = some 1
as_int (boolean false) = some 0
as_int (number n) = some n
as_int _ = none

abbrev pub is_true : Json → Bool
is_true (boolean b) = b
is_true _ = false

-- bool(j)
abbrev pub truthy : Json → Bool
truthy null = false
truthy (boolean b) = b
truthy (number n) = not (n == 0)
truthy (real none exact s) = true
truthy (real (some n) exact s) = not (n == 0)
truthy (text s) = not (s == "")
truthy (array nil) = false
truthy (array (item j rest)) = true
truthy (object empty) = false
truthy (object (field n j rest)) = true

-- A number that equals no natural one is compared by the text of its value; a NaN equals nothing.
abbrev pub real_text : Json → Option String
real_text (real none exact s) = exact
real_text _ = none

abbrev pub same_number : Option ℕ → Option ℕ → Bool
same_number (some m) (some n) = m == n
same_number _ _ = false

abbrev pub same_text : Option String → Option String → Bool
same_text (some s) (some t) = s == t
same_text _ _ = false

abbrev pub numbers_equal : Json → Json → Bool
numbers_equal j k = same_number (as_number j) (as_number k) || same_text (real_text j) (real_text k)

abbrev pub as_items : Json → Option Items
as_items (array items) = some items
as_items _ = none

abbrev pub as_fields : Json → Option Fields
as_fields (object fields) = some fields
as_fields _ = none

-- j == k. Fields are compared in the order in which they stand, that of their names in a canonical
-- payload.
unfoldable mutual
  pub json_equal : Json → Json → Bool
  json_equal null k = is_null k
  json_equal (text s) k = same_text (some s) (as_text k)
  json_equal (array xs) k = elim (as_items k) [ none ↦ false | some ys ↦ items_equal xs ys ]
  json_equal (object xs) k = elim (as_fields k) [ none ↦ false | some ys ↦ fields_equal xs ys ]
  json_equal (boolean b) k = numbers_equal (boolean b) k
  json_equal (number n) k = numbers_equal (number n) k
  json_equal (real value exact s) k = numbers_equal (real value exact s) k

  pub items_equal : Items → Items → Bool
  items_equal nil nil = true
  items_equal (item j xs) (item k ys) = json_equal j k && items_equal xs ys
  items_equal _ _ = false

  pub fields_equal : Fields → Fields → Bool
  fields_equal empty empty = true
  fields_equal (field m j xs) (field n k ys) = m == n && (json_equal j k && fields_equal xs ys)
  fields_equal _ _ = false
