-- ===== src/Connectors/Chatgpt/Turns.antt =====
-- connectors/chatgpt.py: the turns of a conversation. `ms_of` is `int(seconds * 1000)` of a number's
-- literal, for times from 1970 on, and raises for what is no finite number; `nonzero` is a number's
-- truth value.
use Prim.Native.Char.{code}
use memapp.Prelude.{
  ℕ, zero, suc, String, Bool, true, false, not, ◌||◌, Option, none, some, List, [], ◌∷◌, map, ◌==◌,
  if◌then◌else◌, first, keep_some, cons_some,
}
use memapp.Prelude.Texts.{◌<>◌, join, is_space, strip_text, is_blank}
use memapp.Prelude.Result.{Result, ok, ◌>>=◌}
use memapp.Connectors.Json.{Json, Fields, items, get}
use memapp.Connectors.Json.Reading.{truthy}

pub record Turn : Type 0 where
  pub role : String
  pub text : String
  pub at_ms : Option ℕ

-- `v if isinstance(v, dict) else {}`
abbrev pub dict_of : Json → Fields
dict_of (Json.object d) = d
dict_of Json.null = Fields.no_fields
dict_of (Json.flag b) = Fields.no_fields
dict_of (Json.number n) = Fields.no_fields
dict_of (Json.text s) = Fields.no_fields
dict_of (Json.array a) = Fields.no_fields

-- `v if isinstance(v, str) else None`
abbrev pub str_or_none : Json → Option String
str_or_none (Json.text s) = some s
str_or_none Json.null = none
str_or_none (Json.flag b) = none
str_or_none (Json.number n) = none
str_or_none (Json.array a) = none
str_or_none (Json.object o) = none

-- a text that is more than white space, if the value is one
abbrev pub written : Option String → Option String
written none = none
written (some s) = if is_blank (strip_text s) then none else some s

abbrev pub or_next {ℓ} : {A : Type ℓ} → Option A → Option A → Option A
or_next none o = o
or_next (some a) o = some a

abbrev pub or_empty : Option String → String
or_empty none = ""
or_empty (some s) = s

abbrev pub bracketed : Option String → String
bracketed none = ""
bracketed (some kind) = "[" <> kind <> "]"

abbrev pub found_text : Option String → String → String
found_text none s = s
found_text (some t) s = t

-- `_part_text`
unfoldable pub part_text : Json → String
part_text (Json.text s) = s
part_text (Json.object part) =
    found_text
      (or_next (written (str_or_none (get part "text")))
        (written (str_or_none (get part "content"))))
      (bracketed (str_or_none (get part "content_type")))
part_text Json.null = ""
part_text (Json.flag b) = ""
part_text (Json.number n) = ""
part_text (Json.array a) = ""

-- What `_message_text` joins: the parts, where they are a list, and else the text
abbrev pub joined : Json → Json → String
joined (Json.array parts) other =
    join "\n" (keep_some (λ p. written (some (part_text p))) (items parts))
joined Json.null other = or_empty (str_or_none other)
joined (Json.flag b) other = or_empty (str_or_none other)
joined (Json.number n) other = or_empty (str_or_none other)
joined (Json.text s) other = or_empty (str_or_none other)
joined (Json.object o) other = or_empty (str_or_none other)

abbrev pub content_text : Json → String
content_text (Json.object content) = strip_text (joined (get content "parts") (get content "text"))
content_text Json.null = ""
content_text (Json.flag b) = ""
content_text (Json.number n) = ""
content_text (Json.text s) = ""
content_text (Json.array a) = ""

unfoldable pub message_text : Fields → String
unfolding part_text
message_text message = content_text (get message "content")

-- `_role`
unfoldable pub role : Fields → Option String
role message = str_or_none (get (dict_of (get message "author")) "role")

-- `role in _KEPT_ROLES`
abbrev pub is_kept : Option String → Bool
is_kept none = false
is_kept (some s) = s == "user" || s == "assistant"

module _ (ms_of : String → Result ℕ) (nonzero : String → Bool) where
  -- `_ms`
  unfoldable pub ms : Json → Result (Option ℕ)
  ms (Json.number n) = do t ← ms_of n; ok (some t)
  ms Json.null = ok none
  ms (Json.flag b) = ok none
  ms (Json.text s) = ok none
  ms (Json.array a) = ok none
  ms (Json.object o) = ok none

  unfoldable pub is_hidden : Fields → Bool
  is_hidden message =
      truthy nonzero (get (dict_of (get message "metadata")) "is_visually_hidden_from_conversation")

  -- A message that makes no turn
  abbrev pub is_skipped : Fields → Bool
  is_skipped message =
      not (is_kept (role message)) || is_hidden message || is_blank (message_text message)

  abbrev pub turn_of : Fields → Option ℕ → Turn
  turn_of message at_ms = record {
    role = or_empty (role message);
    text = message_text message;
    at_ms = at_ms;
  }

  unfoldable pub turns : List Fields → Result (List Turn)
  unfolding role is_hidden message_text ms
  turns [] = ok []
  turns (message ∷ rest) = do
    now ←
        if is_skipped message
        then ok none
        else (do t ← ms (get message "create_time"); ok (some (turn_of message t)))
    later ← turns rest
    ok (cons_some now later)

abbrev pub flush : String → List String → List String
flush w ws = if is_blank w then ws else w ∷ ws

abbrev pub put_char : Bool → (String → String) → String × List String → String × List String
put_char true c (w, ws) = ("", flush w ws)
put_char false c (w, ws) = (c w, ws)

-- the word that the text begins with, which may be blank, and the later ones
abbrev pub front_word : String → String × List String
front_word String.[] = ("", [])
front_word (String.◌∷◌ c s) = put_char (is_space (code c)) (String.◌∷◌ c) (front_word s)

-- `s.split()`
abbrev pub words : String → List String
words s = let (w, ws) = front_word s in flush w ws

-- `s[:n]`
abbrev pub take_text : ℕ → String → String
take_text zero s = ""
take_text (suc n) String.[] = ""
take_text (suc n) (String.◌∷◌ c s) = String.◌∷◌ c (take_text n s)

abbrev pub is_user : Turn → Bool
is_user t = t.role == "user"

abbrev pub first_line : Option Turn → String
first_line none = "Untitled ChatGPT conversation"
first_line (some t) = take_text 80 (join " " (words t.text))

abbrev pub title_or : Option String → List Turn → String
title_or none said = first_line (first is_user said)
title_or (some title) said = strip_text title

-- `_title_for`: a turn's text is never empty
unfoldable pub title_for : Fields → List Turn → String
title_for conversation said = title_or (written (str_or_none (get conversation "title"))) said

unfoldable pub render_transcript : List Turn → String
render_transcript said = join "\n\n" (map (λ t. t.role <> ": " <> t.text) said)
