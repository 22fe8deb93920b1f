-- ===== src/Connectors/Chatgpt/Exports.antt =====
-- connectors/chatgpt.py: where an owner's export may lie, and its reading. A path stands by its components,
-- as in `pathlib`. `Files` is the file system and `zipfile`: the tests, the names in a directory and in an
-- archive, and JSON read and decoded.
use Prim.Native.Char.{code}
use memapp.Prelude.{
  ℕ, String, Bool, true, false, not, ◌&&◌, ◌||◌, Option, none, some, List, [], ◌∷◌, ◌++◌, ◌==◌, leb,
  eqb, if◌then◌else◌, length, all, keep, first, last?,
}
use memapp.Prelude.Order.{sort_by, text_le}
use memapp.Prelude.Texts.{◌<>◌, codes, is_blank, split_on}
use memapp.Prelude.Result.{Result, ok, err, value_error, not_found, ◌>>=◌}
use memapp.Enums.{before_final_newline}
use memapp.Schema.{RawRecord}
use memapp.Connectors.Json.{Json}
use memapp.Connectors.Chatgpt.Records.{parse_export}

pub record FilePath : Type 0 where
  pub absolute : Bool
  pub parts : List String

pub record Files : Type 0 where
  pub is_file : FilePath → Bool
  pub is_dir : FilePath → Bool
  pub names_in : FilePath → List String
  pub is_zipfile : FilePath → Bool
  pub zip_names : FilePath → List String
  pub read_member : FilePath → String → Result Json
  pub read_text : FilePath → Result Json

-- `[A-Za-z0-9]`
abbrev pub is_alnum : ℕ → Bool
is_alnum c = leb b'A' c && leb c b'Z' || leb b'a' c && leb c b'z' || leb b'0' c && leb c b'9'

-- `[A-Za-z0-9._@-]`
abbrev pub is_owner_char : ℕ → Bool
is_owner_char c = is_alnum c || eqb c b'.' || eqb c b'_' || eqb c b'@' || eqb c b'-'

abbrev pub owner_chars : List ℕ → Bool
owner_chars [] = false
owner_chars (c ∷ cs) = is_alnum c && (all is_owner_char cs && leb (length cs) 127)

-- `_SAFE_OWNER.match(owner_id)`: as in enums.py, `$` matches also in front of a final line feed
unfoldable pub safe_owner : String → Bool
safe_owner owner_id = owner_chars (before_final_newline (codes owner_id))

-- `s.split("/")`
abbrev pub pieces : String → List String
pieces s = split_on b'/' s

-- A piece that names something: `pathlib` drops the empty ones and the dots
abbrev pub is_named : String → Bool
is_named s = not (s == "") && not (s == ".")

abbrev pub starts_at_root : String → Bool
starts_at_root String.[] = false
starts_at_root (String.◌∷◌ c s) = eqb (code c) b'/'

-- `path / s`
unfoldable pub join_path : FilePath → String → FilePath
join_path path s =
    let named = keep is_named (pieces s) in
    if starts_at_root s
    then record { absolute = true; parts = named }
    else record { absolute = path.absolute; parts = path.parts ++ named }

abbrev pub conversations : String
conversations = "conversations.json"

-- the files that `candidate_paths` begins with; the directory comes last
unfoldable pub candidate_files : FilePath → String → List FilePath
unfolding join_path
candidate_files export_dir owner_id =
    join_path (join_path export_dir owner_id) conversations
    ∷ join_path export_dir (owner_id <> ".json")
    ∷ join_path export_dir (owner_id <> ".zip")
    ∷ []

-- `s.endswith(end)`
abbrev pub ends_with : String → String → Bool
ends_with end String.[] = is_blank end
ends_with end (String.◌∷◌ c s) = String.◌∷◌ c s == end || ends_with end s

module _ (files : Files) where
  -- `path.glob("*.zip")`
  abbrev pub zips_in : FilePath → List String
  zips_in path = keep (ends_with ".zip") (files.names_in path)

  abbrev pub inside : FilePath → String → FilePath
  inside path file = record path { parts = path.parts ++ file ∷ [] }

  abbrev pub last_zip : FilePath → Option String → Result FilePath
  last_zip path none = err not_found
  last_zip path (some file) = ok (inside path file)

  -- `sorted(owner_dir.glob("*.zip"))[-1]`, and what follows where there is none
  abbrev pub in_directory : FilePath → Result FilePath
  in_directory path =
      if files.is_dir path
      then last_zip path (last? (sort_by text_le (zips_in path)))
      else err not_found

  abbrev pub or_in_directory : Option FilePath → FilePath → Result FilePath
  or_in_directory (some path) owner_dir = ok path
  or_in_directory none owner_dir = in_directory owner_dir

  -- `ChatGPTExportNotFoundError` is a `FileNotFoundError`.
  abbrev pub located : Option FilePath → String → Result FilePath
  located none owner_id = err not_found
  located (some export_dir) owner_id =
      or_in_directory (first files.is_file (candidate_files export_dir owner_id))
        (join_path export_dir owner_id)

  unfoldable pub resolve_export_path : Option FilePath → String → Result FilePath
  unfolding safe_owner candidate_files
  resolve_export_path export_dir owner_id =
      if safe_owner owner_id then located export_dir owner_id else err value_error

  -- `n == _CONVERSATIONS or n.endswith(f"/{_CONVERSATIONS}")`
  abbrev pub is_conversations : String → Bool
  is_conversations n = n == conversations || ends_with ("/" <> conversations) n

  abbrev pub member_or_raise : FilePath → Option String → Result Json
  member_or_raise path none = err value_error
  member_or_raise path (some member) = files.read_member path member

  -- `_load_zip`
  unfoldable pub load_zip : FilePath → Result Json
  load_zip path = member_or_raise path (first is_conversations (files.zip_names path))

  unfoldable pub load_export : FilePath → Result Json
  unfolding load_zip
  load_export path = if files.is_zipfile path then load_zip path else files.read_text path

  -- `ChatGPTConnector.fetch`; `export_dir` is the setting, with the home directory filled in
  unfoldable pub fetch :
      (ms_of : String → Result ℕ)
      → (nonzero : String → Bool) → (sensitive : Bool) → Option FilePath
      → String
      → ℕ
      → Result (List RawRecord)
  unfolding resolve_export_path load_export
  fetch ms_of nonzero sensitive export_dir owner_id since_ms = do
    path ← resolve_export_path export_dir owner_id
    payload ← load_export path
    parse_export ms_of nonzero sensitive since_ms payload
