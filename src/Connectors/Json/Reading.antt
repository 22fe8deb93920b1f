-- ===== src/Connectors/Json/Reading.antt =====
-- What Python does with a decoded value that is expected to be of one kind. An attribute or a method
-- that a value lacks raises `AttributeError`, which stands here as `type_error`, as do an index and a
-- loop that its type does not have.
use memapp.Prelude.{
  String, Bool, false, not, Option, none, some, List, [], ◌∷◌, map, ◌==◌, is_empty,
}
use memapp.Prelude.Dict.{find, keys}
use memapp.Prelude.Result.{Result, ok, err, type_error, key_error, value_error, ◌>>=◌}
use memapp.Connectors.Json.{Json, items, fields}

abbrev pub or_missing : Option Json → Result Json
or_missing none = err key_error
or_missing (some v) = ok v

-- `v[k]`
abbrev pub item : Json → String → Result Json
item (Json.object d) k = or_missing (find k (fields d))
item Json.null k = err type_error
item (Json.flag b) k = err type_error
item (Json.number n) k = err type_error
item (Json.text s) k = err type_error
item (Json.array a) k = err type_error

abbrev pub or_default : Option Json → Json → Json
or_default none v = v
or_default (some w) v = w

-- `v.get(k, default)`
abbrev pub get_or : Json → String → Json → Result Json
get_or (Json.object d) k v = ok (or_default (find k (fields d)) v)
get_or Json.null k v = err type_error
get_or (Json.flag b) k v = err type_error
get_or (Json.number n) k v = err type_error
get_or (Json.text s) k v = err type_error
get_or (Json.array a) k v = err type_error

-- the characters of a text, each a text
abbrev pub letters : String → List Json
letters String.[] = []
letters (String.◌∷◌ c s) = Json.text (String.◌∷◌ c "") ∷ letters s

-- `for x in v`
abbrev pub iterate : Json → Result (List Json)
iterate (Json.array a) = ok (items a)
iterate (Json.object d) = ok (map Json.text (keys (fields d)))
iterate (Json.text s) = ok (letters s)
iterate Json.null = err type_error
iterate (Json.flag b) = err type_error
iterate (Json.number n) = err type_error

-- A value that has to be a text, else the error
abbrev pub text_or {ℓ} : {A : Type ℓ} → Result A → (String → Result A) → Json → Result A
text_or e k (Json.text s) = k s
text_or e k Json.null = e
text_or e k (Json.flag b) = e
text_or e k (Json.number n) = e
text_or e k (Json.array a) = e
text_or e k (Json.object o) = e

-- what a method of `str` is called on
abbrev pub text_of : Json → Result String
text_of = text_or (err type_error) ok

-- pydantic's check of a `list[str]`
abbrev pub valid_texts : List Json → Result (List String)
valid_texts [] = ok []
valid_texts (v ∷ rest) = do
  s ← text_or (err value_error) ok v
  later ← valid_texts rest
  ok (s ∷ later)

abbrev pub text_list : Json → Result (List String)
text_list (Json.array a) = valid_texts (items a)
text_list Json.null = err value_error
text_list (Json.flag b) = err value_error
text_list (Json.number n) = err value_error
text_list (Json.text s) = err value_error
text_list (Json.object o) = err value_error

-- `bool(v)`; `nonzero` tells it of a number's literal
abbrev pub truthy : (String → Bool) → Json → Bool
truthy nonzero Json.null = false
truthy nonzero (Json.flag b) = b
truthy nonzero (Json.number n) = nonzero n
truthy nonzero (Json.text s) = not (s == "")
truthy nonzero (Json.array a) = not (is_empty (items a))
truthy nonzero (Json.object o) = not (is_empty (fields o))
