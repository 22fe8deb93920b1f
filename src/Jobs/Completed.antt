-- ===== src/Jobs/Completed.antt =====
-- The jobs of the ingestions that were enqueued.
use memapp.Prelude.{String, ◌≡◌, refl, ◌∙◌, ◌⊎◌, inl, inr, Bool, Option, List, length, Among}
use memapp.Prelude.Dict.{Dict}
use memapp.Prelude.Result.{Result, ok}
use memapp.Schema.{RawRecord, Candidate, EncryptedContentRef}
use memapp.Store.{Graph}
use memapp.Store.Typed.{IsTyped}
use memapp.Config.{Settings, use_fixture_connectors, source_enabled}
use memapp.Connectors.Registry.{ConnectorSpec, connector}
use memapp.Connectors.Builtins.{Connector}
use memapp.Graphs.Ingestion.{IngestionResult, run_ingestion, fetch, resolve, encrypt, result_of}
use memapp.Graphs.Ingestion.Returns.{RaisesAs, extract_all-cases, write-Completes}
use memapp.Api.{IngestRequest, IngestResponse, enqueue_ingest}
use memapp.Api.Served.{enqueue_ingest-connector}
use memapp.Jobs.{fetched, ingest_source}

module _ {V : Type 0} (embed : String → Result V)
    (seal : String → String → Option EncryptedContentRef)
    (extract_one : RawRecord → Result Candidate) where
  -- The run returned, left a typed graph and counted the records, or it raised what the extractor raised
  -- on one of the records or the embedder on a text.
  abbrev pub IsRunOf : List RawRecord → Result (Graph V × IngestionResult) → Type 0
  IsRunOf records out =
      ((p : Graph V × IngestionResult) × ((out ≡ ok p)
          × (IsTyped p.0 × (p.1.records ≡ length records))))
      ⊎ ((r : RawRecord) × (Among r records × RaisesAs (extract_one r) out))
      ⊎ ((text : String) × RaisesAs (embed text) out)

  run_ingestion-IsRunOf :
      (owner_id : String) (enabled : Bool) (answer : Result (List RawRecord))
      (records : List RawRecord) (g : Graph V)
      → fetch enabled answer ≡ ok records
      → IsTyped g
      → IsRunOf records (run_ingestion embed seal extract_one owner_id enabled answer g)
  unfolding run_ingestion
  run_ingestion-IsRunOf owner_id enabled answer records g h typed =
      elim (extract_all-cases extract_one records) [
        | inr (r, (there, (x, (said, raised)))) ↦
            inr (inl (r, (there, (x, (said, rw (h, raised) refl)))))
        | inl (candidates, given) ↦
            let done = encrypt seal records in
            let resolved = resolve g owner_id candidates in
            elim (write-Completes embed records done.sealed resolved.0 g typed) [
              | inr (text, (x, (said, raised))) ↦
                  inr (inr (text, (x, (said, rw (h, given, raised) refl))))
              | inl (s, (e, kept)) ↦ inl (
                (s.graph, result_of owner_id records resolved done s),
                (rw (h, given, e) refl, (kept, refl)),
              )
            ]
      ]

  -- If an ingestion was enqueued, and the connector that the settings choose for its source answers, then
  -- the job, on a typed graph, returns, leaves a typed graph and reports as many records as the connector
  -- gave, or it raises what the extractor raised on one of the records or the embedder on a text: not for the
  -- source, which was found enabled.
  pub ingest_source-IsRunOf :
      (settings : Settings) (specs : Dict (ConnectorSpec Settings Connector))
      (enqueue : IngestRequest → String) (req : IngestRequest) (out : IngestResponse)
      (c : Connector) (records : List RawRecord) (g : Graph V)
      → enqueue_ingest settings specs enqueue req ≡ ok out
      → connector use_fixture_connectors req.source settings specs ≡ ok c
      → c req.owner_id req.since_ms ≡ ok records
      → IsTyped g
      → IsRunOf records (ingest_source settings specs embed seal extract_one req g)
  unfolding ingest_source fetched
  ingest_source-IsRunOf settings specs enqueue req out c records g accepted chosen answered typed =
      let (spec, (found, (built, passed))) =
        enqueue_ingest-connector settings specs enqueue req out (fetched settings specs req)
          accepted in
      let answer : fetched settings specs req ≡ ok records = rw chosen answered in
      run_ingestion-IsRunOf req.owner_id (source_enabled settings req.source)
        (fetched settings specs req) records g (passed ∙ answer) typed
