-- ===== src/Connectors/Builtins.antt =====
-- The connectors that come with the program: the `SPEC` of each module under connectors/, and
-- `_register_builtins` of connectors/registry.py. `Reading` is what the ChatGPT connector takes of its
-- surroundings: a number's time and truth value, the file system, and `Path(…).expanduser()`.
use memapp.Prelude.{ℕ, String, Bool, true, false, Option, none, some, List, [], ◌∷◌, if◌then◌else◌}
use memapp.Prelude.Dict.{Dict}
use memapp.Prelude.Texts.{is_blank}
use memapp.Prelude.Result.{Result, ok, err, not_implemented, ◌>>=◌}
use memapp.Schema.{RawRecord}
use memapp.Config.{Settings}
use memapp.Connectors.Chunks.{pack_paragraphs, chunk_transcript}
use memapp.Connectors.Diffs.{chunk_diff}
use memapp.Connectors.Registry.{ConnectorSpec, register}
use memapp.Connectors.Fixtures.{fixtures_since}
use memapp.Connectors.Chatgpt.Exports.{FilePath, Files, fetch}
use memapp.Connectors.Chatgpt.Records.{parse_export}
use memapp.Connectors.Chatgpt.Sample.{mock_export}

pub record Reading : Type 0 where
  pub ms_of : String → Result ℕ
  pub nonzero : String → Bool
  pub files : Files
  pub expand_user : String → FilePath

-- A connector is its `fetch`, by owner and time.
abbrev pub Connector : Type 0
Connector = String → ℕ → Result (List RawRecord)

-- `fetch` of connectors/google.py and of connectors/github.py
unfoldable pub not_connected : Connector
not_connected owner_id since_ms = err not_implemented

-- `Path(directory).expanduser() if directory else None`
abbrev pub directory : Reading → Option String → Option FilePath
directory reading none = none
directory reading (some dir) = if is_blank dir then none else some (reading.expand_user dir)

-- `ChatGPTConnector`
unfoldable pub chatgpt_connector : Reading → Settings → Connector
chatgpt_connector reading settings owner_id since_ms =
    fetch reading.files reading.ms_of reading.nonzero settings.chatgpt_sensitive
      (directory reading settings.chatgpt_export_dir) owner_id since_ms

-- `MockChatGPTConnector`
unfoldable pub mock_chatgpt_connector : Reading → Settings → Connector
mock_chatgpt_connector reading settings owner_id since_ms =
    parse_export reading.ms_of reading.nonzero settings.chatgpt_sensitive since_ms mock_export

abbrev pub mock_spec : ConnectorSpec Settings Connector
mock_spec = record {
  identity = 1;
  source_id = "mock";
  display_name = "Mock fixtures";
  factory = λ settings. ok fixtures_since;
  chunker = λ text. ok (pack_paragraphs 800 text);
  requires_oauth = false;
  oauth_scopes = [];
  mock_factory = some (λ settings. ok fixtures_since);
}

abbrev pub google_spec : ConnectorSpec Settings Connector
google_spec = record {
  identity = 2;
  source_id = "google";
  display_name = "Google (Gmail, Calendar)";
  factory = λ settings. ok not_connected;
  chunker = λ text. ok (pack_paragraphs 1200 text);
  requires_oauth = true;
  oauth_scopes =
      "https://www.googleapis.com/auth/gmail.readonly"
      ∷ "https://www.googleapis.com/auth/calendar.readonly" ∷ [];
  mock_factory = none;
}

abbrev pub github_spec : ConnectorSpec Settings Connector
github_spec = record {
  identity = 3;
  source_id = "github";
  display_name = "GitHub";
  factory = λ settings. ok not_connected;
  chunker = chunk_diff;
  requires_oauth = true;
  oauth_scopes = "read:user" ∷ "repo" ∷ [];
  mock_factory = none;
}

abbrev pub chatgpt_spec : Reading → ConnectorSpec Settings Connector
chatgpt_spec reading = record {
  identity = 4;
  source_id = "chatgpt";
  display_name = "ChatGPT (data export)";
  factory = λ settings. ok (chatgpt_connector reading settings);
  chunker = λ text. ok (chunk_transcript text 1200);
  requires_oauth = false;
  oauth_scopes = [];
  mock_factory = some (λ settings. ok (mock_chatgpt_connector reading settings));
}

abbrev pub register_all :
    List (ConnectorSpec Settings Connector)
    → Dict (ConnectorSpec Settings Connector)
    → Result (Dict (ConnectorSpec Settings Connector))
register_all [] specs = ok specs
register_all (spec ∷ rest) specs = register spec specs >>= register_all rest

-- `_register_builtins`
unfoldable pub register_builtins : Reading → Result (Dict (ConnectorSpec Settings Connector))
register_builtins reading =
    register_all (mock_spec ∷ google_spec ∷ github_spec ∷ chatgpt_spec reading ∷ []) []
