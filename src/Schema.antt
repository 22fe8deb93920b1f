-- ===== src/Schema.antt =====
-- schema.py: the records of memory. Times are milliseconds, which the wire type holds as unsigned
-- words; a confidence is in thousandths, since nothing computes with it.
use memapp.Prelude.{ℕ, String, Bool, List, Option}
use memapp.Enums.{EntityKind, ClaimStatus, FulfillmentStatus}
use memapp.Permissions.{ObjectAcl}

pub record SourceRef : Type 0 where
  pub connector : String
  pub external_id : String
  pub url : Option String
  pub occurred_at_ms : ℕ
  pub ingested_at_ms : ℕ

pub record Citation : Type 0 where
  pub event_id : String
  pub source : SourceRef
  pub quote : Option String

pub record Provenance : Type 0 where
  pub citations : List Citation
  pub derived_by : String
  pub confidence : ℕ
  pub created_at_ms : ℕ

pub record EncryptedContentRef : Type 0 where
  pub key_id : String
  pub scheme : String
  pub blob_id : Option String
  pub byte_len : ℕ

pub record Entity : Type 0 where
  pub id : String
  pub owner_id : String
  pub kind : EntityKind
  pub name : String
  pub aliases : List String
  pub first_seen_at_ms : ℕ
  pub last_seen_at_ms : ℕ
  pub provenance : Provenance
  pub acl : ObjectAcl

pub record Event : Type 0 where
  pub id : String
  pub owner_id : String
  pub summary : String
  pub body : Option String
  pub entity_ids : List String
  pub source : SourceRef
  pub encrypted_content : Option EncryptedContentRef
  pub provenance : Provenance
  pub acl : ObjectAcl

pub record Commitment : Type 0 where
  pub owed_by_entity_id : String
  pub owed_to_entity_id : Option String
  pub due_at_ms : Option ℕ
  pub fulfillment : FulfillmentStatus
  pub settled_at_ms : Option ℕ

pub record Claim : Type 0 where
  pub id : String
  pub owner_id : String
  pub statement : String
  pub subject_entity_ids : List String
  pub status : ClaimStatus
  pub supersedes : List String
  pub contradicts : List String
  pub reconciled_into : Option String
  pub commitment : Option Commitment
  pub asserted_at_ms : ℕ
  pub provenance : Provenance
  pub acl : ObjectAcl

pub data MemoryNode : Type 0 where
  entity : Entity → MemoryNode
  event : Event → MemoryNode
  claim : Claim → MemoryNode

-- What a connector puts under a key of `RawRecord.metadata`.
pub data MetaValue : Type 0 where
  text : String → MetaValue
  number : ℕ → MetaValue
  flag : Bool → MetaValue
  texts : List String → MetaValue

pub record RawRecord : Type 0 where
  pub external_id : String
  pub connector : String
  pub occurred_at_ms : ℕ
  pub title : String
  pub body : String
  pub url : Option String
  pub sensitive : Bool
  pub participants : List String
  pub metadata : List (String × MetaValue)

pub record Candidate : Type 0 where
  pub entities : List Entity
  pub events : List Event
  pub claims : List Claim

-- The fields that the three models share.
abbrev pub node_id : MemoryNode → String
node_id (MemoryNode.entity e) = e.id
node_id (MemoryNode.event e) = e.id
node_id (MemoryNode.claim c) = c.id

abbrev pub node_owner : MemoryNode → String
node_owner (MemoryNode.entity e) = e.owner_id
node_owner (MemoryNode.event e) = e.owner_id
node_owner (MemoryNode.claim c) = c.owner_id

abbrev pub node_acl : MemoryNode → ObjectAcl
node_acl (MemoryNode.entity e) = e.acl
node_acl (MemoryNode.event e) = e.acl
node_acl (MemoryNode.claim c) = c.acl

abbrev pub node_provenance : MemoryNode → Provenance
node_provenance (MemoryNode.entity e) = e.provenance
node_provenance (MemoryNode.event e) = e.provenance
node_provenance (MemoryNode.claim c) = c.provenance
