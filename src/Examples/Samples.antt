-- ===== src/Examples/Samples.antt =====
-- A small memory: the owner "ann" with claims on one topic, an agent's scope, and a sensitive record.
use memapp.Prelude.{ℕ, String, true, Option, none, some, List, [], ◌∷◌}
use memapp.Enums.{EntityKind, ClaimStatus, FulfillmentStatus, Sensitivity}
use memapp.Permissions.{Scope, ObjectAcl}
use memapp.Prelude.Result.{Result, ok}
use memapp.Schema.{
  SourceRef, Provenance, Entity, Event, Claim, EncryptedContentRef, MemoryNode, RawRecord,
  Candidate,
}
use memapp.Store.{Graph, label_of}
use memapp.Store.Writes.{row_of}
use memapp.Graphs.Checked.{Found}
use memapp.Graphs.History.Views.{Printer}

abbrev pub acl_of : String → ObjectAcl
acl_of source = record {
  owner_id = "ann";
  sources = source ∷ [];
  sensitivity = Sensitivity.personal;
  entity_kinds = EntityKind.topic ∷ [];
  occurred_at_ms = 40;
  denied_agents = [];
}

-- An agent that may read the source "mock"
abbrev pub scope : Scope
scope = record {
  agent_id = "agent";
  owner_id = "ann";
  sources = "mock" ∷ [];
  entity_kinds = EntityKind.topic ∷ EntityKind.person ∷ [];
  not_before_ms = some 10;
  not_after_ms = none;
  max_sensitivity = Sensitivity.personal;
  expires_at_ms = some 100;
}

abbrev pub narrow_scope : Scope
narrow_scope = record scope {
  entity_kinds = EntityKind.topic ∷ [];
  not_before_ms = some 20;
  not_after_ms = some 90;
  expires_at_ms = some 60;
}

abbrev pub origin : String → SourceRef
origin connector = record {
  connector = connector;
  external_id = "mail-1";
  url = none;
  occurred_at_ms = 40;
  ingested_at_ms = 45;
}

abbrev pub provenance : String → Provenance
provenance connector = record {
  citations = record { event_id = "e1"; source = origin connector; quote = none } ∷ [];
  derived_by = "mock";
  confidence = 900;
  created_at_ms = 45;
}

abbrev pub claim : String → String → ℕ → String → Claim
claim i statement at source = record {
  id = i;
  owner_id = "ann";
  statement = statement;
  subject_entity_ids = "atlas" ∷ [];
  status = ClaimStatus.active;
  supersedes = [];
  contradicts = [];
  reconciled_into = none;
  commitment = none;
  asserted_at_ms = at;
  provenance = provenance source;
  acl = acl_of source;
}

abbrev pub postgres : Claim
postgres = claim "c1" "Project Atlas will use Postgres." 40 "mock"

abbrev pub neo4j : Claim
neo4j = claim "c2" "Project Atlas will use Neo4j." 50 "gmail"

abbrev pub owed : Claim
owed = record (claim "c3" "Ann will send the budget." 45 "mock") {
  commitment = some (record {
    owed_by_entity_id = "ann";
    owed_to_entity_id = none;
    due_at_ms = some 70;
    fulfillment = FulfillmentStatus.opened;
    settled_at_ms = none;
  });
}

abbrev pub event : Event
event = record {
  id = "e1";
  owner_id = "ann";
  summary = "Meeting";
  body = some "what was said";
  entity_ids = "atlas" ∷ [];
  source = origin "mock";
  encrypted_content = none;
  provenance = provenance "mock";
  acl = acl_of "mock";
}

abbrev pub entity : Entity
entity = record {
  id = "atlas";
  owner_id = "ann";
  kind = EntityKind.topic;
  name = "Atlas";
  aliases = [];
  first_seen_at_ms = 40;
  last_seen_at_ms = 40;
  provenance = provenance "mock";
  acl = acl_of "mock";
}

abbrev pub found : MemoryNode → String → Found
found node i = record { id = i; label = label_of node; node = node }

-- Two candidates, of which `scope` covers the first
abbrev pub candidates : List Found
candidates = found (MemoryNode.claim postgres) "c1" ∷ found (MemoryNode.claim neo4j) "c2" ∷ []

abbrev pub batch : List Candidate
batch =
    record { entities = entity ∷ []; events = event ∷ []; claims = postgres ∷ owed ∷ [] }
    ∷ record { entities = []; events = []; claims = neo4j ∷ [] }
    ∷ []

abbrev pub extract_one : RawRecord → Result Candidate
extract_one r = ok (record { entities = entity ∷ []; events = event ∷ []; claims = owed ∷ [] })

abbrev pub mail : RawRecord
mail = record {
  external_id = "mail-1";
  connector = "mock";
  occurred_at_ms = 40;
  title = "Meeting";
  body = "what was said";
  url = none;
  sensitive = true;
  participants = [];
  metadata = [];
}

-- An enclave that cannot be reached
abbrev pub no_seal : String → String → Option EncryptedContentRef
no_seal i body = none

abbrev pub embed : String → Result ℕ
embed text = ok 0

abbrev pub memory : Graph ℕ
memory = record {
  rows =
      row_of (MemoryNode.claim postgres) 0
      ∷ row_of (MemoryNode.claim owed) 0
      ∷ row_of (MemoryNode.entity entity) 0
      ∷ [];
  edges = [];
}

abbrev pub printer : Printer
printer = record { repr = λ s. s; days = λ gap. "some" }
