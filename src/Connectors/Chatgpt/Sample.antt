-- ===== src/Connectors/Chatgpt/Sample.antt =====
-- connectors/chatgpt.py: the bundled export, as `json.load` would give it.
use memapp.Prelude.{String}
use memapp.Connectors.Json.{Json, Items, Fields}

abbrev field1 : String → Json → Fields
field1 k v = Fields.field k v Fields.no_fields

abbrev list1 : Json → Json
list1 v = Json.array (Items.item v Items.no_items)

abbrev content : String → Json
content part =
    Json.object
      (Fields.field "content_type" (Json.text "text") (field1 "parts" (list1 (Json.text part))))

abbrev root : Json
root = Json.object (
    Fields.field "id" (Json.text "root") (
      Fields.field "message" Json.null
        (Fields.field "parent" Json.null (field1 "children" (list1 (Json.text "m1"))))))

abbrev message : String → String → String → String → Fields → Json
message i who at part more = Json.object (
    Fields.field "id" (Json.text i) (
      Fields.field "author" (Json.object (field1 "role" (Json.text who)))
        (Fields.field "create_time" (Json.number at) (Fields.field "content" (content part) more))))

abbrev asked : String → String → Json
asked at part = Json.object (
    Fields.field "id" (Json.text "m1") (
      Fields.field "parent" (Json.text "root") (
        Fields.field "children" (list1 (Json.text "m2"))
          (field1 "message" (message "m1" "user" at part Fields.no_fields)))))

abbrev answered : String → String → Json
answered at part = Json.object (
    Fields.field "id" (Json.text "m2") (
      Fields.field "parent" (Json.text "m1") (
        Fields.field "children" (Json.array Items.no_items) (
          field1 "message" (
            message "m2" "assistant" at part
              (field1 "metadata" (Json.object (field1 "model_slug" (Json.text "gpt-4o")))))))))

abbrev mapping : Json → Json → Json
mapping m1 m2 = Json.object (Fields.field "root" root (Fields.field "m1" m1 (field1 "m2" m2)))

abbrev conversation : String → String → String → String → Json → Json
conversation title created updated i nodes = Json.object (
    Fields.field "title" (Json.text title) (
      Fields.field "create_time" (Json.number created) (
        Fields.field "update_time" (Json.number updated)
          (Fields.field "conversation_id" (Json.text i) (field1 "mapping" nodes)))))

abbrev pub datastore : Json
datastore = conversation "Atlas datastore" "1735689600.0" "1735689900.0" "chatgpt-mock-001" (
    mapping
      (asked "1735689600.0"
        "Alice decided that project Atlas will use Postgres for the primary datastore. Does that hold up?")
      (answered "1735689660.0" "Postgres is a reasonable default for that workload."))

abbrev pub revisited : Json
revisited =
    conversation "Atlas storage revisited" "1735948800.0" "1735949000.0" "chatgpt-mock-002" (
      mapping
        (asked "1735948800.0"
          "Bob decided that project Atlas will use Neo4j for the primary datastore instead.")
        (answered "1735948860.0" "Noted -- a graph store fits the traversal requirement."))

-- `MOCK_EXPORT`
abbrev pub mock_export : Json
mock_export = Json.array (Items.item datastore (Items.item revisited Items.no_items))
