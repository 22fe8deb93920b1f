-- ===== src/Connectors/Chatgpt/Records.antt =====
-- connectors/chatgpt.py: a conversation as a record, and the export as records.
use memapp.Prelude.{
  ℕ, String, Bool, Option, none, some, List, [], ◌∷◌, map, ◌==◌, leb, eqb, if◌then◌else◌, length,
  keep, first, keep_some, cons_some,
}
use memapp.Prelude.Dict.{Dict, values}
use memapp.Prelude.Order.{sorted_set}
use memapp.Prelude.Texts.{◌<>◌, is_blank}
use memapp.Prelude.Result.{Result, ok, ◌>>=◌}
use memapp.Schema.{RawRecord, MetaValue}
use memapp.Connectors.Json.{Json, Fields, items, fields, get}
use memapp.Connectors.Json.Reading.{truthy}
use memapp.Connectors.Chatgpt.{walk_linear}
use memapp.Connectors.Chatgpt.Turns.{
  Turn, dict_of, str_or_none, ms, turns, title_for, render_transcript,
}

-- The messages of a walk; `none` stands for a bound that is too small.
abbrev pub walked : Option (List Json) → List Fields
walked none = []
walked (some messages) = map dict_of messages

abbrev pub nonempty : Option String → Option String
nonempty none = none
nonempty (some s) = if is_blank s then none else some s

abbrev pub max : ℕ → ℕ → ℕ
max a b = if leb b a then a else b

-- `max([first, *rest])`
abbrev pub max_of : ℕ → List ℕ → ℕ
max_of first [] = first
max_of first (t ∷ ts) = max_of (max first t) ts

abbrev pub min_from : ℕ → List ℕ → ℕ
min_from first [] = first
min_from first (t ∷ ts) = min_from (if leb first t then first else t) ts

-- `min(ts) if ts else None`
abbrev pub min_of : List ℕ → Option ℕ
min_of [] = none
min_of (t ∷ ts) = some (min_from t ts)

abbrev pub or_zero : Option ℕ → ℕ
or_zero none = 0
or_zero (some t) = t

-- `a or b`: a missing number and zero give way to the next
abbrev pub or_time : Option ℕ → ℕ → ℕ
or_time none t = t
or_time (some s) t = if eqb s 0 then t else s

abbrev pub times : List Turn → List ℕ
times = keep_some (λ t. t.at_ms)

unfoldable pub created_at : Option ℕ → Option ℕ → List ℕ → ℕ
created_at create_time update_time message_times =
    or_time create_time (or_time (min_of message_times) (or_time update_time 0))

unfoldable pub last_activity : ℕ → Option ℕ → List ℕ → ℕ
last_activity created_ms update_time message_times =
    max_of created_ms (or_zero update_time ∷ message_times)

-- The slug of a node's model, if it has one
abbrev pub model_of : Json → Option String
model_of node = nonempty (
    str_or_none
      (get (dict_of (get (dict_of (get (dict_of node) "message")) "metadata")) "model_slug"))

-- `_models`, each as often as it occurs
unfoldable pub models : Dict Json → List String
models mapping = keep_some model_of (values mapping)

abbrev pub role_count : String → List Turn → MetaValue
role_count role said = MetaValue.number (length (keep (λ t. t.role == role) said))

module _ (ms_of : String → Result ℕ) (nonzero : String → Bool) (sensitive : Bool) where
  abbrev pub or_value : Json → Json → Json
  or_value v w = if truthy nonzero v then v else w

  abbrev pub record_of : Fields → Dict Json → String → List Turn → ℕ → ℕ → RawRecord
  record_of conversation mapping external_id said created_ms last_activity_ms = record {
    external_id = external_id;
    connector = "chatgpt";
    occurred_at_ms = created_ms;
    title = title_for conversation said;
    body = render_transcript said;
    url = some ("https://chatgpt.com/c/" <> external_id);
    sensitive = sensitive;
    participants = [];
    metadata =
        ("conversation_id", MetaValue.text external_id)
        ∷ ("message_count", MetaValue.number (length said))
        ∷ ("user_messages", role_count "user" said)
        ∷ ("assistant_messages", role_count "assistant" said)
        ∷ ("models", MetaValue.texts (sorted_set (models mapping)))
        ∷ ("last_activity_ms", MetaValue.number last_activity_ms)
        ∷ ("is_archived", MetaValue.flag (truthy nonzero (get conversation "is_archived")))
        ∷ [];
  }

  -- what is left to do once there are turns and an id
  unfoldable pub timed : Fields → Dict Json → String → List Turn → Result (Option (RawRecord × ℕ))
  unfolding created_at last_activity
  timed conversation mapping external_id said = do
    create_time ← ms ms_of nonzero (get conversation "create_time")
    update_time ← ms ms_of nonzero (get conversation "update_time")
    ok (
        some (
          record_of conversation mapping external_id said
              (created_at create_time update_time (times said))
              (last_activity (created_at create_time update_time (times said)) update_time
                (times said)),
          last_activity (created_at create_time update_time (times said)) update_time (times said),
        ))

  abbrev pub identified :
      Fields → Dict Json → List Turn → Option String → Result (Option (RawRecord × ℕ))
  identified conversation mapping said none = ok none
  identified conversation mapping said (some external_id) =
      timed conversation mapping external_id said

  abbrev pub with_turns : Fields → Dict Json → List Turn → Result (Option (RawRecord × ℕ))
  with_turns conversation mapping [] = ok none
  with_turns conversation mapping (t ∷ ts) = identified conversation mapping (t ∷ ts) (
      nonempty
        (str_or_none (or_value (get conversation "conversation_id") (get conversation "id"))))

  abbrev pub convert : Fields → Dict Json → Result (Option (RawRecord × ℕ))
  convert conversation mapping = do
    messages ← walk_linear mapping
    said ← turns ms_of nonzero (walked messages)
    with_turns conversation mapping said

  unfoldable pub conversation_to_record : Json → Result (Option (RawRecord × ℕ))
  unfolding timed
  conversation_to_record (Json.object conversation) =
      convert conversation (fields (dict_of (get conversation "mapping")))
  conversation_to_record Json.null = ok none
  conversation_to_record (Json.flag b) = ok none
  conversation_to_record (Json.number n) = ok none
  conversation_to_record (Json.text s) = ok none
  conversation_to_record (Json.array a) = ok none

  -- the record, if its last activity is not before `since_ms`
  abbrev pub since : ℕ → Option (RawRecord × ℕ) → Option RawRecord
  since since_ms none = none
  since since_ms (some (r, last_activity_ms)) =
      if leb since_ms last_activity_ms then some r else none

  abbrev pub parse_each : ℕ → List Json → Result (List RawRecord)
  parse_each since_ms [] = ok []
  parse_each since_ms (conversation ∷ rest) = do
    parsed ← conversation_to_record conversation
    later ← parse_each since_ms rest
    ok (cons_some (since since_ms parsed) later)

  -- `list(parse_export(payload, since_ms, sensitive=sensitive))`
  unfoldable pub parse_export : ℕ → Json → Result (List RawRecord)
  unfolding conversation_to_record
  parse_export since_ms (Json.array payload) = parse_each since_ms (items payload)
  parse_export since_ms Json.null = ok []
  parse_export since_ms (Json.flag b) = ok []
  parse_export since_ms (Json.number n) = ok []
  parse_export since_ms (Json.text s) = ok []
  parse_export since_ms (Json.object o) = ok []
