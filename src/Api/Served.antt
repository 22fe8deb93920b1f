-- ===== src/Api/Served.antt =====
-- What is served, and what is enqueued.
use memapp.Prelude.{
  ℕ, String, ◌≤◌, ◌≡◌, sym, ap, ◌∙◌, ◌⊎◌, inl, inr, Bool, true, false, ◌&&◌, Option, none, some,
  List, arith, leb, Bool-cases, Option-cases, and_true, length,
}
use memapp.Prelude.Dict.{Dict, has, find, some-inj}
use memapp.Prelude.Result.{Result, ok, err, http_error, both_returned, ok-inj, if_returned}
use memapp.Permissions.{Scope}
use memapp.Schema.{RawRecord}
use memapp.Connectors.Registry.{ConnectorSpec, connector, build, spec_of}
use memapp.Config.{Settings, source_enabled, use_fixture_connectors}
use memapp.Gateway.{introspect_scope}
use memapp.Gateway.Sessions.{IsActive, authorize-IsActive}
use memapp.Graphs.Checked.{authorize}
use memapp.Graphs.Query.{run_query}
use memapp.Graphs.History.Shift.{why_did_this_shift}
use memapp.Graphs.History.Context.{context_chain}
use memapp.Graphs.Neighbourhood.{neighbourhood}
use memapp.Graphs.Ingestion.{fetch}
use memapp.Api.{
  IngestRequest, IngestResponse, bounded, bounded_list, enqueue_ingest, Runtime, runtime, query,
  shift, context, memory_neighbourhood, Request, Answer, serve,
}

abbrev pub token_of : Request → String
token_of (Request.query_request question grant_token top_k) = grant_token
token_of (Request.shift_request claim_id grant_token) = grant_token
token_of (Request.context_request object_id grant_token hops) = grant_token
token_of (Request.neighbourhood_request seed_ids grant_token hops) = grant_token

-- A number that is given is within the bounds.
abbrev pub Within : ℕ → ℕ → Option ℕ → Type 0
Within least most none = Unit
Within least most (some n) = (least ≤ n) × (n ≤ most)

abbrev pub InBounds : Request → Type 0
InBounds (Request.query_request question grant_token top_k) = Within 1 50 top_k
InBounds (Request.shift_request claim_id grant_token) = Unit
InBounds (Request.context_request object_id grant_token hops) = Within 1 6 hops
InBounds (Request.neighbourhood_request seed_ids grant_token hops) =
    ((1 ≤ length seed_ids) × (length seed_ids ≤ 25)) × Within 1 4 hops

bounded-Within :
    (default least most : ℕ) (o : Option ℕ) (n : ℕ)
    → bounded default least most o ≡ ok n
    → Within least most o
bounded-Within default least most none n h = tt
bounded-Within default least most (some m) n h =
    let (inside, same) = if_returned (leb least m && leb m most) (ok m) (http_error 422) h in
    (ground arith, ground arith)

bounded_list-length :
    (least most : ℕ) (xs out : List String)
    → bounded_list least most xs ≡ ok out
    → (least ≤ length xs) × (length xs ≤ most)
bounded_list-length least most xs out h =
    let (inside, same) =
      if_returned (leb least (length xs) && leb (length xs) most) (ok xs) (http_error 422) h in
    (ground arith, ground arith)

module _ {V S : Type 0} where
  runtime-some :
      (ready : Option (Runtime V S)) (r : Runtime V S) → runtime ready ≡ ok r → ready ≡ some r
  unfolding runtime
  runtime-some none r h = absurd cc
  runtime-some (some q) r h = ap some (ok-inj h)

  -- The runtime is ready, and its gateway answered for the token that the grant is active.
  abbrev pub IsServed : Option (Runtime V S) → String → Type 0
  IsServed ready grant_token =
      (r : Runtime V S) × ((ready ≡ some r) × ((scope : Scope) × IsActive r.http grant_token scope))

  served :
      (ready : Option (Runtime V S)) (r : Runtime V S) (grant_token : String) (scope : Scope)
      → runtime ready ≡ ok r
      → authorize (introspect_scope r.http r.gateway) none (some grant_token) ≡ ok scope
      → IsServed ready grant_token
  served ready r grant_token scope e h =
      let (t, (same, active)) =
        authorize-IsActive r.http r.gateway none (some grant_token) scope h in
      (r, (runtime-some ready r e, (scope, rw (some-inj same) active)))

  -- If one of the endpoints that read the memory answers, then the runtime is ready, the gateway answered
  -- for the token of the request, with a status below 400, that its grant is active, and the numbers of
  -- the request are within the endpoint's bounds.
  pub serve-IsServed :
      (ready : Option (Runtime V S)) (req : Request) (out : Answer)
      → serve ready req ≡ ok out
      → IsServed ready (token_of req) × InBounds req
  unfolding serve query shift context memory_neighbourhood run_query why_did_this_shift
      context_chain neighbourhood
  serve-IsServed ready (Request.query_request question grant_token top_k) out h =
      let (a, (e0, _)) = both_returned (query ready question grant_token top_k) _ h in
      let (k, (e1, h1)) = both_returned (bounded 8 1 50 top_k) _ e0 in
      let (r, (e2, h2)) = both_returned (runtime ready) _ h1 in
      let (scope, (e3, h3)) =
        both_returned (authorize (introspect_scope r.http r.gateway) none (some grant_token)) _
          h2 in
      (served ready r grant_token scope e2 e3, bounded-Within 8 1 50 top_k k e1)
  serve-IsServed ready (Request.shift_request claim_id grant_token) out h =
      let (a, (e0, _)) = both_returned (shift ready claim_id grant_token) _ h in
      let (r, (e2, h2)) = both_returned (runtime ready) _ e0 in
      let (scope, (e3, h3)) =
        both_returned (authorize (introspect_scope r.http r.gateway) none (some grant_token)) _
          h2 in
      (served ready r grant_token scope e2 e3, tt)
  serve-IsServed ready (Request.context_request object_id grant_token hops) out h =
      let (a, (e0, _)) = both_returned (context ready object_id grant_token hops) _ h in
      let (n, (e1, h1)) = both_returned (bounded 3 1 6 hops) _ e0 in
      let (r, (e2, h2)) = both_returned (runtime ready) _ h1 in
      let (scope, (e3, h3)) =
        both_returned (authorize (introspect_scope r.http r.gateway) none (some grant_token)) _
          h2 in
      (served ready r grant_token scope e2 e3, bounded-Within 3 1 6 hops n e1)
  serve-IsServed ready (Request.neighbourhood_request seed_ids grant_token hops) out h =
      let (a, (e0, _)) = both_returned (memory_neighbourhood ready seed_ids grant_token hops) _ h in
      let (seeds, (e4, h4)) = both_returned (bounded_list 1 25 seed_ids) _ e0 in
      let (n, (e1, h1)) = both_returned (bounded 2 1 4 hops) _ h4 in
      let (r, (e2, h2)) = both_returned (runtime ready) _ h1 in
      let (scope, (e3, h3)) =
        both_returned (authorize (introspect_scope r.http r.gateway) none (some grant_token)) _
          h2 in
      (
        served ready r grant_token scope e2 e3,
        (bounded_list-length 1 25 seed_ids seeds e4, bounded-Within 2 1 4 hops n e1),
      )

-- An ingestion is enqueued exactly where the source is registered and enabled, and is else refused with
-- status 400; what is enqueued is under the id that the queue gives, in the deployment's queue.
pub enqueue_ingest_iff :
    {Connector : Type 0} (settings : Settings) (specs : Dict (ConnectorSpec Settings Connector))
    (enqueue : IngestRequest → String) (req : IngestRequest)
    → ((has req.source specs && source_enabled settings req.source ≡ true)
        × (enqueue_ingest settings specs enqueue req
            ≡ ok (record { job_id = enqueue req; queue = settings.ingestion_queue })))
      ⊎ ((has req.source specs && source_enabled settings req.source ≡ false)
          × (enqueue_ingest settings specs enqueue req ≡ err (http_error 400)))
unfolding enqueue_ingest
enqueue_ingest_iff settings specs enqueue req = elim (Bool-cases (has req.source specs)) [
  | inl e ↦ elim (Bool-cases (source_enabled settings req.source)) [
    | inl f ↦ inl (rw (e, f), rw (e, f))
    | inr f ↦ inr (rw (e, f), rw (e, f))
  ]
  | inr e ↦ inr (rw e, rw e)
]

module _ {Connector : Type 0} (settings : Settings)
    (specs : Dict (ConnectorSpec Settings Connector)) where
  registered :
      (source : String)
      → has source specs ≡ true
      → (spec : ConnectorSpec Settings Connector) × (find source specs ≡ some spec)
  registered source h = elim (Option-cases (find source specs)) [
    | inl e ↦ absurd (let never : false ≡ true = rw (has, e) at h in ground arith)
    | inr found ↦ found
  ]

  enabled_fetch :
      (enabled : Bool) (fetched : Result (List RawRecord))
      → enabled ≡ true
      → fetch enabled fetched ≡ fetched
  unfolding fetch
  enabled_fetch enabled fetched h = rw h

  -- If an ingestion is enqueued, then its job finds a connector registered for the source, which it builds
  -- from the fixtures or not as the settings say, and its graph fetches what that connector gives.
  pub enqueue_ingest-connector :
      (enqueue : IngestRequest → String) (req : IngestRequest) (out : IngestResponse)
      (fetched : Result (List RawRecord))
      → enqueue_ingest settings specs enqueue req ≡ ok out
      → (spec : ConnectorSpec Settings Connector) × ((find req.source specs ≡ some spec)
          × ((connector use_fixture_connectors req.source settings specs
                ≡ build (use_fixture_connectors settings) spec.mock_factory spec.factory settings)
              × (fetch (source_enabled settings req.source) fetched ≡ fetched)))
  unfolding connector spec_of
  enqueue_ingest-connector enqueue req out fetched h =
      elim (enqueue_ingest_iff settings specs enqueue req) [
        | inl (both, accepted) ↦
            let (known, enabled) =
              and_true (has req.source specs) (source_enabled settings req.source) both in
            let (spec, found) = registered req.source known in
            (
              spec,
              (
                found,
                (rw found, enabled_fetch (source_enabled settings req.source) fetched enabled),
              ),
            )
        | inr (e, refused) ↦ absurd (let never = sym refused ∙ h in cc)
      ]
