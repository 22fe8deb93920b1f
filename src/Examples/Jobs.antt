-- ===== src/Examples/Jobs.antt =====
-- The job of the request, over the fixtures.
use memapp.Prelude.{◌≡◌, refl}
use memapp.Prelude.Result.{ok}
use memapp.Config.{defaults, use_fixture_connectors}
use memapp.Connectors.Registry.{connector, spec_of}
use memapp.Connectors.Fixtures.{fixtures, fixtures_since}
use memapp.Jobs.{ingest_source}
use memapp.Jobs.Completed.{IsRunOf, ingest_source-IsRunOf}
use memapp.Examples.Samples.{memory, embed, no_seal, extract_one}
use memapp.Examples.Writes.{memory-IsTyped}
use memapp.Examples.Requests.{mock_only, request, response, request_enqueued}

fixtures_chosen : connector use_fixture_connectors "mock" defaults mock_only ≡ ok fixtures_since
unfolding connector spec_of use_fixture_connectors
fixtures_chosen = refl

fixtures_given : fixtures_since "ann" 0 ≡ ok fixtures
unfolding fixtures_since
fixtures_given = refl

ingest_source-IsRunOf_example :
    IsRunOf embed no_seal extract_one fixtures
      (ingest_source defaults mock_only embed no_seal extract_one request memory)
ingest_source-IsRunOf_example =
    ingest_source-IsRunOf embed no_seal extract_one defaults mock_only (λ req. "job-1") request
      response fixtures_since fixtures memory request_enqueued fixtures_chosen fixtures_given
      memory-IsTyped
