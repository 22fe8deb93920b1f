-- ===== src/Connectors/Json.antt =====
-- A decoded JSON document, as `json.load` gives it: a number stands by its literal, since the modelled
-- code does not compute with it.
pub mod Reading
use memapp.Prelude.{String, Bool, Option, none, some, List, [], ◌∷◌}
use memapp.Prelude.Dict.{Dict, find}

mutual
  pub data Json : Type 0 where
    null : Json
    flag : Bool → Json
    number : (literal : String) → Json
    text : String → Json
    array : Items → Json
    object : Fields → Json

  pub data Items : Type 0 where
    no_items : Items
    item : Json → Items → Items

  pub data Fields : Type 0 where
    no_fields : Fields
    field : String → Json → Fields → Fields

abbrev pub items : Items → List Json
items Items.no_items = []
items (Items.item v rest) = v ∷ items rest

abbrev pub fields : Fields → Dict Json
fields Fields.no_fields = []
fields (Fields.field k v rest) = (k, v) ∷ fields rest

-- `d.get(k)` of a dict
abbrev pub or_null : Option Json → Json
or_null none = Json.null
or_null (some v) = v

abbrev pub get : Fields → String → Json
get d k = or_null (find k (fields d))

-- `[c for c in v if isinstance(c, str)]`
abbrev pub texts_of : List Json → List String
texts_of [] = []
texts_of (Json.text s ∷ rest) = s ∷ texts_of rest
texts_of (Json.null ∷ rest) = texts_of rest
texts_of (Json.flag b ∷ rest) = texts_of rest
texts_of (Json.number n ∷ rest) = texts_of rest
texts_of (Json.array a ∷ rest) = texts_of rest
texts_of (Json.object o ∷ rest) = texts_of rest
