-- ===== src/Provider/Json.antt =====
-- The values of encoding/json, decoded as `any`. An object has each key once. A number is a natural
-- number, or any other number by its literal (`float`), those below zero included; a count that is an int64 is written
-- as its bit pattern.
pub mod Laws
use pogu.Prelude.{
  ℕ, ◌≡◌, List, [], ◌∷◌, ◌++◌, Option, none, some, Bool, true, false, not, if◌then◌else◌, Text,
  codes, eq_text, where_, any, map,
}
use Prim.Native.String.{String}

mutual
  pub data Json : Type 0 where
    null : Json
    bool : Bool → Json
    int : ℕ → Json
    float : Text → Json
    str : Text → Json
    arr : Items → Json
    obj : Fields → Json

  pub data Items : Type 0 where
    nil : Items
    cons : Json → Items → Items

  pub data Fields : Type 0 where
    end : Fields
    field : Text → Json → Fields → Fields

-- []any
abbrev pub Array : Type 0
Array = List Json

-- map[string]any
abbrev pub Object : Type 0
Object = List (Text × Json)

abbrev pub to_items : Array → Items
to_items [] = nil
to_items (j ∷ js) = cons j (to_items js)

abbrev pub of_items : Items → Array
of_items nil = []
of_items (cons j js) = j ∷ of_items js

abbrev pub to_fields : Object → Fields
to_fields [] = end
to_fields ((key, j) ∷ o) = field key j (to_fields o)

abbrev pub of_fields : Fields → Object
of_fields end = []
of_fields (field key j o) = (key, j) ∷ of_fields o

abbrev pub list : Array → Json
list js = arr (to_items js)

abbrev pub object : Object → Json
object o = obj (to_fields o)

-- j.([]any)
abbrev pub as_list : Json → Option Array
as_list (arr js) = some (of_items js)
as_list _ = none

-- j.(map[string]any)
abbrev pub as_object : Json → Option Object
as_object (obj o) = some (of_fields o)
as_object _ = none

-- j.(string)
abbrev pub as_text : Json → Option Text
as_text (str s) = some s
as_text _ = none

-- m[key], which is nil where the key is missing
abbrev pub get : Text → Object → Json
get key [] = null
get key ((k, j) ∷ o) = if eq_text k key then j else get key o

-- _, ok := m[key]
abbrev pub has : Text → Object → Bool
has key o = any (λ f. eq_text f.0 key) o

-- m[key] = j
abbrev pub put : Text → Json → Object → Object
put key j [] = (key, j) ∷ []
put key j ((k, old) ∷ o) =
    let behind = put key j o in if eq_text k key then (k, j) ∷ o else (k, old) ∷ behind

-- delete(m, key)
abbrev pub delete : Text → Object → Object
delete key o = where_ (λ f. not (eq_text f.0 key)) o

-- stringOf
abbrev pub string_of : Json → Text
string_of (str s) = s
string_of _ = []

abbrev pub is_nil : Json → Bool
is_nil null = true
is_nil _ = false

-- A field of an object literal.
abbrev pub at : String → Json → Text × Json
at key j = (codes key, j)

abbrev pub text : String → Json
text s = str (codes s)

abbrev pub int_or_null : Option ℕ → Json
int_or_null none = null
int_or_null (some n) = int n
