-- ===== src/Examples/Sources.antt =====
-- Chunks, a registration and a conversation.
use memapp.Prelude.{
  ℕ, String, ◌≤◌, ◌≡◌, refl, ◌↔◌, ◌⊎◌, false, none, some, List, [], ◌∷◌, length, is_empty, All,
}
use memapp.Prelude.Dict.{Dict}
use memapp.Prelude.Texts.{codes}
use memapp.Prelude.Result.{ok}
use memapp.Connectors.Chunks.{units, pack_paragraphs, turns_of, chunk_transcript}
use memapp.Connectors.Chunks.Packing.{join_blank, pack_paragraphs-join}
use memapp.Connectors.Chunks.Budget.{Fits, OfLongTurn, pack_paragraphs-Fits, chunk_transcript-Fits}
use memapp.Connectors.Registry.{ConnectorSpec, default_chunker, register}
use memapp.Connectors.Registry.Registering.{IsAcceptable, Adds, register_iff}
use memapp.Connectors.Json.{Json, Items, Fields}
use memapp.Connectors.Chatgpt.{roots, walk_linear}
use memapp.Connectors.Chatgpt.Branch.{walk_linear_returns}

-- Two paragraphs that do not fit into one chunk of ten, with spaces around the second
abbrev prose : List ℕ
prose = codes "one two\n\n three \n\nfour"

prose_test : pack_paragraphs 12 prose ≡ codes "one two" ∷ codes "three\n\nfour" ∷ []
unfolding pack_paragraphs
prose_test = refl

pack_paragraphs-join_example : join_blank (pack_paragraphs 12 prose) ≡ join_blank (units prose)
pack_paragraphs-join_example = pack_paragraphs-join 12 prose

pack_paragraphs-Fits_example : All (Fits 12 (units prose)) (pack_paragraphs 12 prose)
pack_paragraphs-Fits_example = pack_paragraphs-Fits 12 prose

abbrev chat : List ℕ
chat = codes "user: hello\n\nassistant: hi\n\nthere"

chat_turns : is_empty (turns_of chat) ≡ false
chat_turns = refl

chunk_transcript-Fits_example :
    All
      (λ chunk. (length chunk ≤ 12) ⊎ OfLongTurn 12 (turns_of chat) chunk)
      (chunk_transcript chat 12)
chunk_transcript-Fits_example = chunk_transcript-Fits chat 12 chat_turns

abbrev mock_spec : ConnectorSpec ℕ ℕ
mock_spec = record {
  identity = 1;
  source_id = "mock";
  display_name = "Mock";
  factory = λ settings. ok settings;
  chunker = default_chunker;
  requires_oauth = false;
  oauth_scopes = [];
  mock_factory = none;
}

register_iff_example : IsAcceptable mock_spec [] ↔ (
    (after : Dict (ConnectorSpec ℕ ℕ)) × ((register mock_spec [] ≡ ok after)
      × Adds mock_spec [] after))
register_iff_example = register_iff mock_spec []

-- Two nodes that are each other's children, the first of them a root
abbrev said : String → Json
said text = Json.object (Fields.field "text" (Json.text text) Fields.no_fields)

abbrev node : String → String → Json
node text child = Json.object (
    Fields.field "message" (said text) (
      Fields.field "children" (Json.array (Items.item (Json.text child) Items.no_items))
        Fields.no_fields))

abbrev circle : Dict Json
circle = ("a", node "hello" "b") ∷ ("b", node "hi" "a") ∷ []

circle-roots : roots circle ≡ ok ("a" ∷ "b" ∷ [])
unfolding roots
circle-roots = refl

walk_linear_returns_example :
    (messages : List Json) × ((walk_linear circle ≡ ok (some messages))
      × (length messages ≤ length circle))
walk_linear_returns_example = walk_linear_returns circle ("a" ∷ "b" ∷ []) circle-roots
