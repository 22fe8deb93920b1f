-- ===== src/Connectors/Chatgpt.antt =====
-- connectors/chatgpt.py: the surviving branch of a conversation tree.
pub mod Branch
pub mod Turns
pub mod Records
pub mod Exports
pub mod Located
pub mod Owners
pub mod Separation
pub mod Sample
pub mod Times
pub mod Incremental
use memapp.Prelude.{
  ℕ, zero, suc, String, ◌+◌, ◌-◌, ◌*◌, ◌/◌, ◌%◌, ◌≤◌, ◌<◌, ◌≡◌, ◌≢◌, refl, sym, ap, ◌∙◌, ◌↔◌, ◌⊎◌,
  inl, inr, Bool, true, false, not, ◌&&◌, ◌||◌, Option, none, some, List, [], ◌∷◌, ◌++◌, map, Memᴰ,
  arith, ◌==◌, eq_iff, ltb, leb, eqb, if◌then◌else◌, Bool-cases, if_true, if_false, Option-cases,
  and_true, leb→le, ltb→lt, length, is_empty, any, all, keep, first, head?, last?, take, drop, All,
  gather, keep_some, cons_some, contains, unique, distinct, length-append, length-take-le,
  length-keep-le, length-keep-add, All-append, All-keep, keep-All, length-map, map-All,
  is_empty-map,
}
use memapp.Prelude.Dict.{Dict, find, has, keys}
use memapp.Prelude.Result.{Result, ok, err, type_error, ◌>>=◌}
use memapp.Connectors.Json.{Json, Items, Fields, items, fields, get, texts_of}

-- `value in mapping`: a list or a dict cannot be a key, and asking raises
unfoldable pub is_key : Dict Json → Json → Result Bool
is_key mapping (Json.text s) = ok (has s mapping)
is_key mapping Json.null = ok false
is_key mapping (Json.flag b) = ok false
is_key mapping (Json.number n) = ok false
is_key mapping (Json.array a) = err type_error
is_key mapping (Json.object o) = err type_error

-- `isinstance(node, dict) and node.get("parent") not in mapping`
abbrev pub is_root : Dict Json → Json → Result Bool
is_root mapping (Json.object node) = do inside ← is_key mapping (get node "parent"); ok (not inside)
is_root mapping Json.null = ok false
is_root mapping (Json.flag b) = ok false
is_root mapping (Json.number n) = ok false
is_root mapping (Json.text s) = ok false
is_root mapping (Json.array a) = ok false

abbrev pub roots_from : Dict Json → Dict Json → Result (List String)
roots_from mapping [] = ok []
roots_from mapping ((i, node) ∷ rest) = do
  root ← is_root mapping node
  later ← roots_from mapping rest
  ok (if root then i ∷ later else later)

-- `roots or list(mapping)`
unfoldable pub roots : Dict Json → Result (List String)
unfolding is_key
roots mapping = do
  found ← roots_from mapping mapping
  ok (if is_empty found then keys mapping else found)

abbrev pub message_of : Json → List Json
message_of (Json.object m) = Json.object m ∷ []
message_of Json.null = []
message_of (Json.flag b) = []
message_of (Json.number n) = []
message_of (Json.text s) = []
message_of (Json.array a) = []

abbrev pub children_of : Json → List String
children_of (Json.array a) = texts_of (items a)
children_of Json.null = []
children_of (Json.flag b) = []
children_of (Json.number n) = []
children_of (Json.text s) = []
children_of (Json.object o) = []

-- What one round of the loop makes of the value under the id: the messages that it adds and the next
-- id. Where the loop breaks off there are none, and no id.
abbrev pub visit : Option Json → List Json × Option String
visit none = ([], none)
visit (some (Json.object node)) =
    (message_of (get node "message"), last? (children_of (get node "children")))
visit (some Json.null) = ([], none)
visit (some (Json.flag b)) = ([], none)
visit (some (Json.number n)) = ([], none)
visit (some (Json.text s)) = ([], none)
visit (some (Json.array a)) = ([], none)

abbrev pub after : List Json → Option (List Json) → Option (List Json)
after messages none = none
after messages (some later) = some (messages ++ later)

-- The loop, with the ids seen and a bound on its rounds; `none` where the bound is too small
unfoldable pub walk_from : ℕ → Dict Json → List String → Option String → Option (List Json)
walk_from fuel mapping seen none = some []
walk_from zero mapping seen (some i) = none
walk_from (suc fuel) mapping seen (some i) =
    let (messages, next) = visit (find i mapping) in
    let rest = walk_from fuel mapping (i ∷ seen) next in
    if contains seen i then some [] else after messages rest

-- `walk_linear`, on a mapping that is a dict: one round more than the mapping has nodes is enough.
unfoldable pub walk_linear : Dict Json → Result (Option (List Json))
unfolding roots walk_from
walk_linear mapping = do
  starts ← roots mapping
  ok (walk_from (suc (length mapping)) mapping [] (head? starts))
