-- ===== src/Examples/Requests.antt =====
-- Requests to the API, a gateway, the settings and a diff.
use memapp.Prelude.{ℕ, zero, suc, String, ◌≡◌, refl, true, Option, none, some, List, [], ◌∷◌, All}
use memapp.Prelude.Dict.{Dict}
use memapp.Prelude.Texts.{codes, join}
use memapp.Prelude.Result.{Result, ok, err, value_error}
use memapp.Connectors.Json.{Json, Fields}
use memapp.Connectors.Diffs.{chunk_diff, parts}
use memapp.Connectors.Registry.{ConnectorSpec, register, ids}
use memapp.Connectors.Builtins.{Reading, Connector, mock_spec, register_builtins}
use memapp.Config.{Settings, defaults, source_enabled, split_csv}
use memapp.Config.Sources.{IsEntry, split_csv-join}
use memapp.Gateway.{
  post, Http, GatewayClient, new_client, unwrap, introspect_scope, open_session, adopt_session,
  headers, seal_encrypt, grant_scope, SealedContent,
}
use memapp.Gateway.Sessions.{IsSent, seal_body, grant_body, bearing, open_session-IsSent}
use memapp.Enums.{check_source_id}
use memapp.Graphs.Checked.{authorize}
use memapp.Graphs.Query.{answer, run_query}
use memapp.Api.{
  query, runtime, IngestRequest, IngestResponse, enqueue_ingest, Runtime, Request, Answer, serve,
}
use memapp.Api.Served.{IsServed, InBounds, serve-IsServed}
use memapp.Mcp.{Process, ToolCall, get_runtime, query_memory, call_tool, call_all}
use memapp.Mcp.Tools.{AreAnswered, call_all-AreAnswered}
use memapp.Examples.Samples.{scope, memory, printer}
use memapp.Examples.Proposals.{value_or}
use memapp.Examples.Exports.{ms_of, nonzero, archives}

abbrev sources : List String
sources = "mock" ∷ "chatgpt" ∷ []

sources-IsEntry : All IsEntry sources
sources-IsEntry = (
  record { no_comma = (refl, (refl, (refl, (refl, tt)))); stripped = refl; not_blank = refl },
  (
    record {
      no_comma = (refl, (refl, (refl, (refl, (refl, (refl, (refl, tt)))))));
      stripped = refl;
      not_blank = refl;
    },
    tt,
  ),
)

split_csv-join_example : split_csv (join "," sources) ≡ sources
split_csv-join_example = split_csv-join sources sources-IsEntry

-- A gateway that opens a session and says of each grant that it is active
abbrev said : Json
said = Json.object (
    Fields.field "session_token" (Json.text "jwt") (
      Fields.field "active" (Json.flag true) (
        Fields.field "scope" Json.null (
          Fields.field "grant_token" (Json.text "grant") (
            Fields.field "ciphertext_b64" (Json.text "AA==") (
              Fields.field "key_id" (Json.text "k1") (
                Fields.field "scheme" (Json.text "aes")
                  (Fields.field "attestation" Json.null Fields.no_fields))))))))

abbrev http : Http
http = record {
  get = λ path. ok (record { status_code = 200; json = ok said });
  post = λ path body header. ok (record { status_code = 200; json = ok said });
  str_of = λ v. "None";
  nonzero = nonzero;
  b64encode = λ bytes. "";
  b64decode = λ s. ok [];
  dump_scope = λ s. Json.null;
  read_scope = λ v. ok scope;
}

abbrev client : GatewayClient
client = new_client "http://127.0.0.1:8080/"

abbrev opened : GatewayClient
opened = record { base_url = "http://127.0.0.1:8080"; session_token = Json.text "jwt" }

session_opened : open_session http client (some "mock_google_ann") none ≡ ok (said, opened)
unfolding open_session unwrap
session_opened = refl

abbrev sealed : SealedContent
sealed = record {
  ciphertext = [];
  ref = record { key_id = "k1"; scheme = "aes"; blob_id = none; byte_len = 0 };
  attestation = Json.null;
}

sealed_first : seal_encrypt http opened [] ≡ ok sealed
unfolding seal_encrypt unwrap
sealed_first = refl

granted : grant_scope http opened scope "3600" ≡ ok (Json.text "grant")
unfolding grant_scope unwrap
granted = refl

sealed_later : seal_encrypt http (adopt_session "other" opened) [] ≡ ok sealed
unfolding seal_encrypt unwrap adopt_session
sealed_later = refl

open_session-IsSent_example :
    IsSent http "/memory/seal/encrypt" (seal_body http []) (bearing "jwt")
    × (IsSent http "/memory/scope/grant" (grant_body http scope "3600") (bearing "jwt")
        × IsSent http "/memory/seal/encrypt" (seal_body http []) (bearing "other"))
open_session-IsSent_example =
    open_session-IsSent http client opened (some "mock_google_ann") none said "jwt" "other" []
      sealed sealed scope "3600" (Json.text "grant") session_opened refl sealed_first granted
      sealed_later

-- A diff of two hunks, and one of nothing but marks
chunk_diff_test :
    chunk_diff (codes "diff\n@@ -1 +1\n-a\n@@ -9 +9\n-b")
    ≡ ok (codes "diff" ∷ codes "@@ -1 +1\n-a" ∷ codes "@@ -9 +9\n-b" ∷ [])
unfolding chunk_diff
chunk_diff_test = refl

-- Without a text before them the first hunk loses its mark.
first_mark_lost : chunk_diff (codes "\n@@ -1 +1\n-a") ≡ ok (codes "-1 +1\n-a" ∷ [])
unfolding chunk_diff
first_mark_lost = refl

abbrev server : Runtime ℕ ℕ
server = record {
  http = http;
  gateway = client;
  store = memory;
  retrieve = λ owner_id top_k question. [];
  printer = printer;
  now_ms = 50;
}

abbrev ready : Option (Runtime ℕ ℕ)
ready = some server

abbrev question : Request
question = Request.query_request "what does Ann owe?" "grant" (some 5)

abbrev nothing_found : Answer
nothing_found = Answer.of_query (answer scope 50 "what does Ann owe?" [])

question_answered : serve ready question ≡ ok nothing_found
unfolding serve query runtime run_query authorize introspect_scope post headers unwrap
question_answered = refl

serve-IsServed_example : IsServed ready "grant" × InBounds question
serve-IsServed_example = serve-IsServed ready question nothing_found question_answered

abbrev calls : List ToolCall
calls =
    ToolCall.query_call "what does Ann owe?" "grant" none ∷ ToolCall.shift_call "c1" "grant" ∷ []

-- A process in which the first build of a runtime raises
abbrev builds_of : ℕ → Result (Runtime ℕ ℕ)
builds_of zero = err value_error
builds_of (suc n) = ok server

abbrev started : Process ℕ ℕ
started = record { kept = none; builds = 0 }

served_test :
    call_all builds_of started (
      ToolCall.shift_call "c1" "grant" ∷ ToolCall.query_call "what does Ann owe?" "grant" none ∷ [])
    ≡ err value_error ∷ ok (nothing_found, server) ∷ []
unfolding call_all call_tool get_runtime query_memory run_query authorize introspect_scope post
    headers unwrap
served_test = refl

call_all-AreAnswered_example : AreAnswered builds_of none calls (call_all builds_of started calls)
call_all-AreAnswered_example = call_all-AreAnswered builds_of started calls

abbrev reading : Reading
reading = record {
  ms_of = ms_of;
  nonzero = nonzero;
  files = archives [];
  expand_user = λ path. record { absolute = true; parts = "exports" ∷ [] };
}

unfoldable registry : Dict (ConnectorSpec Settings Connector)
unfolding register_builtins register check_source_id
registry = value_or [] (register_builtins reading)

registry_built : register_builtins reading ≡ ok registry
unfolding registry register_builtins register check_source_id
registry_built = refl

registry-ids : ids registry ≡ "chatgpt" ∷ "github" ∷ "google" ∷ "mock" ∷ []
unfolding registry register_builtins register check_source_id ids
registry-ids = refl

abbrev pub mock_only : Dict (ConnectorSpec Settings Connector)
mock_only = ("mock", mock_spec) ∷ []

abbrev pub request : IngestRequest
request = record { owner_id = "ann"; source = "mock"; since_ms = 0; session_token = none }

abbrev pub response : IngestResponse
response = record { job_id = "job-1"; queue = "memorai-ingestion" }

pub request_enqueued : enqueue_ingest defaults mock_only (λ req. "job-1") request ≡ ok response
unfolding enqueue_ingest source_enabled
request_enqueued = refl
