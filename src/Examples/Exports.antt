-- ===== src/Examples/Exports.antt =====
-- The bundled export of conversations, and the files of an owner.
use memapp.Prelude.{
  ℕ, String, ◌≡◌, refl, Bool, true, false, Option, none, some, List, [], ◌∷◌, ◌==◌, if◌then◌else◌,
  keep,
}
use memapp.Prelude.Result.{Result, ok, err, value_error, ◌>>=◌}
use memapp.Schema.{RawRecord}
use memapp.Connectors.Chatgpt.{walk_linear}
use memapp.Connectors.Chatgpt.Turns.{ms, turns, is_hidden, message_text, part_text, role}
use memapp.Connectors.Chatgpt.Records.{conversation_to_record, parse_export}
use memapp.Connectors.Chatgpt.Incremental.{active_since, parse_export-keep}
use memapp.Connectors.Chatgpt.Sample.{datastore, mock_export}
use memapp.Connectors.Chatgpt.Exports.{FilePath, Files, safe_owner, join_path, resolve_export_path}
use memapp.Connectors.Chatgpt.Owners.{IsBelow, resolve_export_path-IsBelow}
use memapp.Connectors.Chatgpt.Separation.{resolve_export_path-inj}
use memapp.Examples.Proposals.{value_or}

-- The times of the first conversation, and a later one
abbrev pub ms_of : String → Result ℕ
ms_of literal =
    if literal == "1735689600.0"
    then ok 1735689600000
    else if literal == "1735689660.0"
    then ok 1735689660000
    else if literal == "1735689900.0"
    then ok 1735689900000
    else ok 1735948800000

abbrev pub nonzero : String → Bool
nonzero literal = true

abbrev no_record : Option (RawRecord × ℕ)
no_record = none

abbrev some_or {ℓ} : {A : Type ℓ} → A → Option A → A
some_or a none = a
some_or a (some b) = b

abbrev blank_record : RawRecord
blank_record = record {
  external_id = "";
  connector = "";
  occurred_at_ms = 0;
  title = "";
  body = "";
  url = none;
  sensitive = false;
  participants = [];
  metadata = [];
}

unfoldable converted : RawRecord × ℕ
unfolding conversation_to_record walk_linear turns ms is_hidden role message_text part_text
converted =
    some_or (blank_record, 0)
      (value_or no_record (conversation_to_record ms_of nonzero true datastore))

converted_last : converted.1 ≡ 1735689900000
unfolding converted conversation_to_record walk_linear turns ms is_hidden role message_text
    part_text
converted_last = refl

parse_export-keep_example : parse_export ms_of nonzero true 1735700000000 mock_export ≡ (
    parse_export ms_of nonzero true 0 mock_export
    >>= (λ rs. ok (keep (active_since 1735700000000) rs)))
parse_export-keep_example = parse_export-keep ms_of nonzero true 1735700000000 mock_export

-- Two archives in each directory
abbrev pub archives : List String → Files
archives names = record {
  is_file = λ path. false;
  is_dir = λ path. true;
  names_in = λ path. names;
  is_zipfile = λ path. true;
  zip_names = λ path. "chat.html" ∷ "export/conversations.json" ∷ [];
  read_member = λ path member. ok mock_export;
  read_text = λ path. err value_error;
}

abbrev dir : FilePath
dir = record { absolute = true; parts = "var" ∷ "exports" ∷ [] }

abbrev newest : FilePath
newest = record { absolute = true; parts = "var" ∷ "exports" ∷ "ann" ∷ "2025.zip" ∷ [] }

newest_found :
    resolve_export_path (archives ("2024.zip" ∷ "notes.txt" ∷ "2025.zip" ∷ [])) (some dir) "ann"
    ≡ ok newest
unfolding resolve_export_path safe_owner join_path
newest_found = refl

only_found : resolve_export_path (archives ("2025.zip" ∷ [])) (some dir) "ann" ≡ ok newest
unfolding resolve_export_path safe_owner join_path
only_found = refl

refused : resolve_export_path (archives []) (some dir) "../bo" ≡ err value_error
unfolding resolve_export_path safe_owner
refused = refl

-- As in enums.py, the pattern lets a final line feed through.
line_feed_accepted : safe_owner "ann\n" ≡ true
unfolding safe_owner
line_feed_accepted = refl

resolve_export_path-IsBelow_example : IsBelow dir "ann" newest
resolve_export_path-IsBelow_example =
    resolve_export_path-IsBelow (archives ("2024.zip" ∷ "notes.txt" ∷ "2025.zip" ∷ [])) dir "ann"
      newest newest_found

abbrev ann : String
ann = "ann"

resolve_export_path-inj_example : ann ≡ ann
resolve_export_path-inj_example =
    resolve_export_path-inj (archives ("2024.zip" ∷ "notes.txt" ∷ "2025.zip" ∷ []))
      (archives ("2025.zip" ∷ [])) dir ann ann newest newest_found only_found
