-- ===== src/Connectors/Fixtures.antt =====
-- connectors/mock.py: the fixtures and their connector.
use memapp.Prelude.{ℕ, String, ◌+◌, ◌*◌, true, false, some, List, [], ◌∷◌, leb, keep}
use memapp.Prelude.Result.{Result, ok}
use memapp.Schema.{RawRecord}

abbrev day_ms : ℕ
day_ms = 86400000

-- 2025-01-01T00:00:00Z
abbrev base_ms : ℕ
base_ms = 1735689600000

abbrev fixture_1 : RawRecord
fixture_1 = record {
  external_id = "mock-001";
  connector = "mock";
  occurred_at_ms = base_ms;
  title = "Kickoff for project Atlas";
  body =
      "Alice and Bob agreed that project Atlas will use Postgres for the primary datastore. Decision recorded at kickoff.";
  url = some "https://mock.local/records/mock-001";
  sensitive = false;
  participants = "Alice" ∷ "Bob" ∷ [];
  metadata = [];
}

abbrev fixture_2 : RawRecord
fixture_2 = record {
  external_id = "mock-002";
  connector = "mock";
  occurred_at_ms = base_ms + 3 * day_ms;
  title = "Atlas storage revisited";
  body =
      "Bob decided that project Atlas will use Neo4j for the primary datastore, replacing the earlier Postgres decision.";
  url = some "https://mock.local/records/mock-002";
  sensitive = false;
  participants = "Bob" ∷ [];
  metadata = [];
}

abbrev fixture_3 : RawRecord
fixture_3 = record {
  external_id = "mock-003";
  connector = "mock";
  occurred_at_ms = base_ms + 5 * day_ms;
  title = "Atlas compensation note";
  body =
      "Carol noted that project Atlas will use Postgres for the primary datastore after all, pending review.";
  url = some "https://mock.local/records/mock-003";
  sensitive = true;
  participants = "Carol" ∷ [];
  metadata = [];
}

abbrev fixture_4 : RawRecord
fixture_4 = record {
  external_id = "mock-004";
  connector = "mock";
  occurred_at_ms = base_ms + 9 * day_ms;
  title = "Beacon rollout owner";
  body = "Alice decided that project Beacon will ship behind a feature flag.";
  url = some "https://mock.local/records/mock-004";
  sensitive = false;
  participants = "Alice" ∷ [];
  metadata = [];
}

abbrev fixture_5 : RawRecord
fixture_5 = record {
  external_id = "mock-005";
  connector = "mock";
  occurred_at_ms = base_ms + 12 * day_ms;
  title = "Atlas migration owner";
  body = "Alice committed to Bob that project Atlas will ship the storage migration by 2025-02-14.";
  url = some "https://mock.local/records/mock-005";
  sensitive = false;
  participants = "Alice" ∷ "Bob" ∷ [];
  metadata = [];
}

abbrev fixture_6 : RawRecord
fixture_6 = record {
  external_id = "mock-006";
  connector = "mock";
  occurred_at_ms = base_ms + 15 * day_ms;
  title = "Atlas migration reassigned";
  body = "Bob committed to Alice that project Atlas will ship the storage migration by 2025-03-07.";
  url = some "https://mock.local/records/mock-006";
  sensitive = false;
  participants = "Alice" ∷ "Bob" ∷ [];
  metadata = [];
}

abbrev fixture_7 : RawRecord
fixture_7 = record {
  external_id = "mock-007";
  connector = "mock";
  occurred_at_ms = base_ms + 16 * day_ms;
  title = "Beacon rollout plan";
  body = "Carol committed that project Beacon will publish the rollout plan by 2025-01-24.";
  url = some "https://mock.local/records/mock-007";
  sensitive = false;
  participants = "Carol" ∷ [];
  metadata = [];
}

abbrev pub fixtures : List RawRecord
fixtures = fixture_1 ∷ fixture_2 ∷ fixture_3 ∷ fixture_4 ∷ fixture_5 ∷ fixture_6 ∷ fixture_7 ∷ []

-- `MockConnector.fetch`
unfoldable pub fixtures_since : String → ℕ → Result (List RawRecord)
fixtures_since owner_id since_ms = ok (keep (λ r. leb since_ms r.occurred_at_ms) fixtures)
