-- ===== src/Jobs.antt =====
-- jobs/tasks.py: the task that the queue runs. The runtime that it builds and closes is the arguments:
-- the settings and the registry, the embedder, the seal of the session's gateway, the extractor and the
-- store.
pub mod Completed
use memapp.Prelude.{
  ℕ, zero, suc, String, ◌+◌, ◌-◌, ◌*◌, ◌/◌, ◌%◌, ◌≤◌, ◌<◌, ◌≡◌, ◌≢◌, refl, sym, ap, ◌∙◌, ◌↔◌, ◌⊎◌,
  inl, inr, Bool, true, false, not, ◌&&◌, ◌||◌, Option, none, some, List, [], ◌∷◌, ◌++◌, map, Memᴰ,
  arith, ◌==◌, eq_iff, ltb, leb, eqb, if◌then◌else◌, Bool-cases, if_true, if_false, Option-cases,
  and_true, leb→le, ltb→lt, length, is_empty, any, all, keep, first, head?, last?, take, drop, All,
  gather, keep_some, cons_some, contains, unique, distinct, length-append, length-take-le,
  length-keep-le, length-keep-add, All-append, All-keep, keep-All, length-map, map-All,
  is_empty-map, Among, Among-append_left, Among-append_right, All-Among, Among-All, All-weaken,
  append-All, gather-All,
}
use memapp.Prelude.Dict.{Dict}
use memapp.Prelude.Result.{Result, ◌>>=◌}
use memapp.Schema.{RawRecord, Candidate, EncryptedContentRef}
use memapp.Store.{Graph}
use memapp.Config.{Settings, use_fixture_connectors, source_enabled}
use memapp.Connectors.Registry.{ConnectorSpec, connector}
use memapp.Connectors.Builtins.{Connector}
use memapp.Graphs.Ingestion.{IngestionResult, run_ingestion}
use memapp.Api.{IngestRequest}

module _ (settings : Settings) (specs : Dict (ConnectorSpec Settings Connector)) where
  -- What the node `fetch` calls, once it has seen that the source is enabled
  unfoldable pub fetched : IngestRequest → Result (List RawRecord)
  fetched req =
      connector use_fixture_connectors req.source settings specs
      >>= (λ c. c req.owner_id req.since_ms)

  unfoldable pub ingest_source :
      {V : Type 0}
      → (embed : String → Result V) → (seal : String → String → Option EncryptedContentRef)
      → (extract_one : RawRecord → Result Candidate) → IngestRequest
      → Graph V
      → Result (Graph V × IngestionResult)
  unfolding fetched
  ingest_source embed seal extract_one req g =
      run_ingestion embed seal extract_one req.owner_id (source_enabled settings req.source)
        (fetched req) g
