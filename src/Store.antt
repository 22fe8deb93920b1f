-- ===== src/Store.antt =====
-- storage/neo4j_store.py: the graph that Neo4j holds, and the parts that its queries share. A query
-- is translated into a function over the rows and edges. Where a query has no ORDER BY the rows come
-- in the order of the model's list, which no theorem depends on.
pub mod Writes
pub mod Reads
pub mod Walks
pub mod Kept
pub mod Coherence
pub mod Typed
pub mod Owners
use Prim.Native.Nat.{max}
use memapp.Prelude.{
  ℕ, String, Bool, true, false, not, ◌&&◌, ◌||◌, List, [], ◌∷◌, ◌++◌, Option, none, some, map, keep,
  head?, any, all, is_empty, leb, eqb, ◌==◌, if◌then◌else◌, length,
}
use memapp.Prelude.Texts.{strip_text, join, ◌<>◌}
use memapp.Prelude.Result.{Result, ok, err, value_error}
use memapp.Enums.{
  ClaimStatus, FulfillmentStatus, EntityKind, Sensitivity, status_value, fulfillment_value,
  kind_value, sensitivity_value,
}
use memapp.Schema.{MemoryNode, Entity, Event, Claim, Commitment, node_id, node_owner, node_acl}

pub data Label : Type 0 where
  entity event claim : Label

abbrev pub label_name : Label → String
label_name Label.entity = "Entity"
label_name Label.event = "Event"
label_name Label.claim = "Claim"

abbrev pub label_eq : Label → Label → Bool
label_eq Label.entity Label.entity = true
label_eq Label.event Label.event = true
label_eq Label.claim Label.claim = true
label_eq Label.entity _ = false
label_eq Label.event _ = false
label_eq Label.claim _ = false

pub record StoredNode : Type 0 where
  pub id : String
  pub label : Label
  pub node : MemoryNode
  pub text : String
  pub occurred_at_ms : ℕ

abbrev pub label_of : MemoryNode → Label
label_of (MemoryNode.entity e) = Label.entity
label_of (MemoryNode.event e) = Label.event
label_of (MemoryNode.claim c) = Label.claim

-- `x or ""`
abbrev pub or_empty : Option String → String
or_empty none = ""
or_empty (some s) = s

abbrev pub text_of : MemoryNode → String
text_of (MemoryNode.entity e) = join " " (e.name ∷ e.aliases)
text_of (MemoryNode.event e) = strip_text (e.summary <> " " <> or_empty e.body)
text_of (MemoryNode.claim c) = c.statement

abbrev pub occurred_at : MemoryNode → ℕ
occurred_at (MemoryNode.entity e) = e.last_seen_at_ms
occurred_at (MemoryNode.event e) = e.source.occurred_at_ms
occurred_at (MemoryNode.claim c) = c.asserted_at_ms

-- The claim fields that are lifted out of the payload into indexable columns.
pub record Promoted : Type 0 where
  pub claim_status : Option String
  pub commitment_fulfillment : Option String
  pub commitment_due_at_ms : Option ℕ
  pub commitment_owed_by : Option String
  pub commitment_owed_to : Option String

abbrev pub no_columns : Promoted
no_columns = record {
  claim_status = none;
  commitment_fulfillment = none;
  commitment_due_at_ms = none;
  commitment_owed_by = none;
  commitment_owed_to = none;
}

abbrev pub promoted_claim : Claim → Promoted
promoted_claim c = elim c.commitment [
  | none ↦ record no_columns { claim_status = some (status_value c.status) }
  | some m ↦ record {
    claim_status = some (status_value c.status);
    commitment_fulfillment = some (fulfillment_value m.fulfillment);
    commitment_due_at_ms = m.due_at_ms;
    commitment_owed_by = some m.owed_by_entity_id;
    commitment_owed_to = m.owed_to_entity_id;
  }
]

unfoldable pub promoted : MemoryNode → Promoted
promoted (MemoryNode.entity e) = no_columns
promoted (MemoryNode.event e) = no_columns
promoted (MemoryNode.claim c) = promoted_claim c

-- One node of the graph: the label `Memory`, which every node carries, is left implicit. The payload
-- is the object itself, since a model survives the round trip through its JSON.
pub record Row (V : Type 0) : Type 0 where
  pub id : String
  pub label : Label
  pub owner_id : String
  pub payload : MemoryNode
  pub text : String
  pub occurred_at_ms : ℕ
  pub acl_sources : List String
  pub acl_sensitivity : String
  pub acl_entity_kinds : List String
  pub embedding : V
  pub columns : Promoted

-- What identifies a node of the graph
pub record Key : Type 0 where
  pub label : Label
  pub id : String

pub record Edge : Type 0 where
  pub source : Key
  pub rel : String
  pub target : Key

pub record Graph (V : Type 0) : Type 0 where
  pub rows : List (Row V)
  pub edges : List Edge

abbrev pub key_eq : Key → Key → Bool
key_eq a b = label_eq a.label b.label && a.id == b.id

abbrev pub edge_eq : Edge → Edge → Bool
edge_eq a b = key_eq a.source b.source && (a.rel == b.rel && key_eq a.target b.target)

abbrev pub key_of : {V : Type 0} → Row V → Key
key_of r = record { label = r.label; id = r.id }

unfoldable pub hydrate : {V : Type 0} → Row V → StoredNode
hydrate r = record {
  id = r.id;
  label = r.label;
  node = r.payload;
  text = r.text;
  occurred_at_ms = r.occurred_at_ms;
}
