-- ===== src/Api.antt =====
-- api.py. A request is one that pydantic accepts but for the bounds, which are modelled; a number that
-- is not given is `none`. `http_error` is `HTTPException` with its status, and 422 what FastAPI answers
-- for a request out of bounds.
pub mod Served
use memapp.Prelude.{
  ℕ, zero, suc, String, ◌+◌, ◌-◌, ◌*◌, ◌/◌, ◌%◌, ◌≤◌, ◌<◌, ◌≡◌, ◌≢◌, refl, sym, ap, ◌∙◌, ◌↔◌, ◌⊎◌,
  inl, inr, Bool, true, false, not, ◌&&◌, ◌||◌, Option, none, some, List, [], ◌∷◌, ◌++◌, map, Memᴰ,
  arith, ◌==◌, eq_iff, ltb, leb, eqb, if◌then◌else◌, Bool-cases, if_true, if_false, Option-cases,
  and_true, leb→le, ltb→lt, length, is_empty, any, all, keep, first, head?, last?, take, drop, All,
  gather, keep_some, cons_some, contains, unique, distinct, length-append, length-take-le,
  length-keep-le, length-keep-add, All-append, All-keep, keep-All, length-map, map-All,
  is_empty-map, Among, Among-append_left, Among-append_right, All-Among, Among-All, All-weaken,
  append-All, gather-All,
}
use memapp.Prelude.Dict.{Dict, has, find}
use memapp.Prelude.Result.{Result, ok, err, http_error, ◌>>=◌}
use memapp.Connectors.Json.{Json}
use memapp.Connectors.Registry.{ConnectorSpec, ids}
use memapp.Config.{Settings, source_enabled}
use memapp.Gateway.{Http, GatewayClient, introspect_scope}
use memapp.Store.{Graph}
use memapp.Retrieval.{RankedNode}
use memapp.Graphs.Checked.{is_given}
use memapp.Graphs.Query.{QueryAnswer, run_query}
use memapp.Graphs.History.Views.{Printer}
use memapp.Graphs.History.Shift.{ShiftHistory, why_did_this_shift}
use memapp.Graphs.History.Context.{ContextChain, context_chain}
use memapp.Graphs.Neighbourhood.{Neighbourhood, neighbourhood}

pub record IngestRequest : Type 0 where
  pub owner_id : String
  pub source : String
  pub since_ms : ℕ
  pub session_token : Option String

pub record IngestResponse : Type 0 where
  pub job_id : String
  pub queue : String

-- `Field(default=…, ge=…, le=…)`
abbrev pub bounded : ℕ → ℕ → ℕ → Option ℕ → Result ℕ
bounded default least most none = ok default
bounded default least most (some n) =
    if leb least n && leb n most then ok n else err (http_error 422)

-- `Field(min_length=…, max_length=…)`
abbrev pub bounded_list : ℕ → ℕ → List String → Result (List String)
bounded_list least most xs =
    if leb least (length xs) && leb (length xs) most then ok xs else err (http_error 422)

unfoldable pub enqueue_ingest :
    {Connector : Type 0}
    → Settings
    → Dict (ConnectorSpec Settings Connector)
    → (enqueue : IngestRequest → String) → IngestRequest
    → Result IngestResponse
enqueue_ingest settings specs enqueue req =
    if not (has req.source specs)
    then err (http_error 400)
    else if not (source_enabled settings req.source)
    then err (http_error 400)
    else ok (record { job_id = enqueue req; queue = settings.ingestion_queue })

pub record SourceInfo : Type 0 where
  pub id : String
  pub display_name : String
  pub requires_oauth : Bool
  pub oauth_scopes : List String
  pub enabled : Bool
  pub mock_fixtures : Bool

abbrev pub source_info :
    {Connector : Type 0} → Settings → ConnectorSpec Settings Connector → SourceInfo
source_info settings spec = record {
  id = spec.source_id;
  display_name = spec.display_name;
  requires_oauth = spec.requires_oauth;
  oauth_scopes = spec.oauth_scopes;
  enabled = source_enabled settings spec.source_id;
  mock_fixtures = is_given spec.mock_factory;
}

-- `REGISTRY.specs()`, each as the endpoint shows it
unfoldable pub sources :
    {Connector : Type 0} → Settings → Dict (ConnectorSpec Settings Connector) → List SourceInfo
sources settings specs = map (source_info settings) (keep_some (λ i. find i specs) (ids specs))

abbrev pub or_no_job {ℓ} : {Job : Type ℓ} → Option Job → Result Job
or_no_job none = err (http_error 404)
or_no_job (some job) = ok job

unfoldable pub ingest_status {ℓ} :
    {Job : Type ℓ} → (fetch_job : String → Option Job) → String → Result Job
ingest_status fetch_job job_id = or_no_job (fetch_job job_id)

-- What the endpoints use of a runtime: the gateway, the store and the embedder's ranking, with the clock
pub record Runtime (V S : Type 0) : Type 0 where
  pub http : Http
  pub gateway : GatewayClient
  pub store : Graph V
  pub retrieve : String → ℕ → String → List (RankedNode S)
  pub printer : Printer
  pub now_ms : ℕ

module _ {V S : Type 0} where
  -- `runtime()`
  unfoldable pub runtime : Option (Runtime V S) → Result (Runtime V S)
  runtime none = err (http_error 503)
  runtime (some r) = ok r

  unfoldable pub query :
      Option (Runtime V S) → (question grant_token : String) → Option ℕ → Result QueryAnswer
  unfolding runtime
  query ready question grant_token top_k = do
    k ← bounded 8 1 50 top_k
    r ← runtime ready
    run_query (introspect_scope r.http r.gateway) r.retrieve r.now_ms question grant_token k

  unfoldable pub shift :
      Option (Runtime V S) → (claim_id grant_token : String) → Result ShiftHistory
  unfolding runtime
  shift ready claim_id grant_token = do
    r ← runtime ready
    why_did_this_shift r.printer (introspect_scope r.http r.gateway) r.store r.now_ms claim_id
        grant_token

  unfoldable pub context :
      Option (Runtime V S) → (object_id grant_token : String) → Option ℕ → Result ContextChain
  unfolding runtime
  context ready object_id grant_token hops = do
    n ← bounded 3 1 6 hops
    r ← runtime ready
    context_chain r.printer (introspect_scope r.http r.gateway) r.store r.now_ms object_id
        grant_token n

  unfoldable pub memory_neighbourhood :
      Option (Runtime V S) → List String → String → Option ℕ → Result Neighbourhood
  unfolding runtime
  memory_neighbourhood ready seed_ids grant_token hops = do
    seeds ← bounded_list 1 25 seed_ids
    n ← bounded 2 1 4 hops
    r ← runtime ready
    neighbourhood r.printer (introspect_scope r.http r.gateway) r.store r.now_ms seeds grant_token n

-- A request to one of the four endpoints that read the memory
pub data Request : Type 0 where
  query_request : (question grant_token : String) → Option ℕ → Request
  shift_request : (claim_id grant_token : String) → Request
  context_request : (object_id grant_token : String) → Option ℕ → Request
  neighbourhood_request : (seed_ids : List String) → (grant_token : String) → Option ℕ → Request

pub data Answer : Type 0 where
  of_query : QueryAnswer → Answer
  of_shift : ShiftHistory → Answer
  of_context : ContextChain → Answer
  of_neighbourhood : Neighbourhood → Answer

abbrev pub as_answer {ℓ} : {A : Type ℓ} → (A → Answer) → Result A → Result Answer
as_answer f call = call >>= (λ a. ok (f a))

-- The routes of the four endpoints
unfoldable pub serve : {V S : Type 0} → Option (Runtime V S) → Request → Result Answer
unfolding query shift context memory_neighbourhood
serve ready (Request.query_request question grant_token top_k) =
    as_answer Answer.of_query (query ready question grant_token top_k)
serve ready (Request.shift_request claim_id grant_token) =
    as_answer Answer.of_shift (shift ready claim_id grant_token)
serve ready (Request.context_request object_id grant_token hops) =
    as_answer Answer.of_context (context ready object_id grant_token hops)
serve ready (Request.neighbourhood_request seed_ids grant_token hops) =
    as_answer Answer.of_neighbourhood (memory_neighbourhood ready seed_ids grant_token hops)

-- One of the checks of `health`: whether it answered; the text of the exception is left out.
abbrev pub answers {ℓ} : {A : Type ℓ} → Result A → Bool
answers (err raised) = false
answers (ok value) = true

pub record Health : Type 0 where
  pub status : String
  pub mode : String
  pub neo4j : Bool
  pub redis : Bool
  pub gateway : Option Json

abbrev pub answer_of : Result Json → Option Json
answer_of (err raised) = none
answer_of (ok value) = some value

-- `verify`, `ping` and `gateway_health` are what the three calls come to.
unfoldable pub health :
    Settings → (verify ping : Result {0} Unit) → (gateway_health : Result Json) → Health
health settings verify ping gateway_health = record {
  status = if answers verify && answers ping && answers gateway_health then "ok" else "degraded";
  mode = settings.mode;
  neo4j = answers verify;
  redis = answers ping;
  gateway = answer_of gateway_health;
}
