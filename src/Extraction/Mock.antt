-- ===== src/Extraction/Mock.antt =====
-- extraction/mock.py: what its passes add. `Grammar` is what its four regular expressions find in a text, from left to right,
-- as Python's `re` does; a group that took no part in a match is `none`. `now_ms` is the clock's.
pub mod Passes
pub mod Entities
pub mod Extracted
pub mod Dates
use Prim.Native.Char.{code}
use Prim.Native.String
use memapp.Prelude.{
  ℕ, zero, suc, String, ◌+◌, ◌-◌, ◌*◌, ◌/◌, ◌%◌, ◌≤◌, ◌<◌, ◌≡◌, ◌≢◌, refl, sym, ap, ◌∙◌, ◌↔◌, ◌⊎◌,
  inl, inr, Bool, true, false, not, ◌&&◌, ◌||◌, Option, none, some, List, [], ◌∷◌, ◌++◌, map, Memᴰ,
  arith, ◌==◌, eq_iff, ltb, leb, eqb, if◌then◌else◌, Bool-cases, if_true, if_false, Option-cases,
  and_true, leb→le, ltb→lt, length, is_empty, any, all, keep, first, head?, last?, take, drop, All,
  gather, keep_some, cons_some, contains, unique, distinct, length-append, length-take-le,
  length-keep-le, length-keep-add, All-append, All-keep, keep-All, length-map, map-All,
  is_empty-map, Among, Among-append_left, Among-append_right, All-Among, Among-All, All-weaken,
}
use memapp.Prelude.Dict.{find}
use memapp.Prelude.Texts.{◌<>◌, strip_text}
use memapp.Prelude.Result.{Result, ok, err, type_error, value_error, ◌>>=◌}
use memapp.Enums.{check_source_id, EntityKind, ClaimStatus, FulfillmentStatus, kind_value, kind_eq}
use memapp.Schema.{
  RawRecord, SourceRef, MetaValue, Citation, Provenance, Entity, Event, Claim, Commitment,
  Candidate,
}
use memapp.Extraction.{Host, stable_id, sorted_kinds, source_of, acl_of, event_id_of, cited}

pub record ClaimMatch : Type 0 where
  pub whole : String
  pub person : String
  pub decision : String

pub record CommitmentMatch : Type 0 where
  pub whole : String
  pub owed_by : String
  pub owed_to : Option String
  pub obligation : String
  pub due : Option String

pub record Grammar : Type 0 where
  pub claims : String → List ClaimMatch
  pub commitments : String → List CommitmentMatch
  pub projects : String → List String
  pub artifacts : String → List String

abbrev pub name : String
name = "mock-extractor@v1"

-- a group that matched, and not the empty text
abbrev pub given : Option String → Option String
given none = none
given (some s) = if s == "" then none else some s

abbrev pub or_raised : Option ℕ → Result (Option ℕ)
or_raised none = err value_error
or_raised (some t) = ok (some t)

-- `_due_ms`: here a date that is none raises
abbrev pub due_of : (String → Option ℕ) → Option String → Result (Option ℕ)
due_of parse_date none = ok none
due_of parse_date (some date) = or_raised (parse_date date)

abbrev pub names_of : CommitmentMatch → List String
names_of m = m.owed_by ∷ cons_some (given m.owed_to) []

-- `s.partition(":")`, without the separator
abbrev pub partition_colon : String → String × String
partition_colon String.[] = ("", "")
partition_colon (String.◌∷◌ c s) =
    let rest = partition_colon s in
    if eqb (code c) b':' then ("", s) else (String.◌∷◌ c rest.0, rest.1)

abbrev pub characters : String → List String
characters String.[] = []
characters (String.◌∷◌ c s) = String.◌∷◌ c "" ∷ characters s

-- what the loop over `record.metadata.get("cites", [])` runs through
abbrev pub references : Option MetaValue → Result (List String)
references none = ok []
references (some (MetaValue.texts ss)) = ok ss
references (some (MetaValue.text s)) = ok (characters s)
references (some (MetaValue.number n)) = err type_error
references (some (MetaValue.flag b)) = err type_error

-- `e.kind in (EntityKind.PROJECT, EntityKind.ARTIFACT)`
abbrev pub is_subject : Entity → Bool
is_subject e = kind_eq e.kind EntityKind.project || kind_eq e.kind EntityKind.artifact

abbrev pub or_added : Option Entity → Entity → List Entity → Entity × List Entity
or_added (some existing) e entities = (existing, entities)
or_added none e entities = (e, entities ++ e ∷ [])

module _ (host : Host) (owner_id : String) where
  abbrev pub entity_id : EntityKind → String → String
  entity_id kind s = stable_id host "ent" (owner_id ∷ kind_value kind ∷ host.lower s ∷ [])

  module _ (r : RawRecord) (now_ms : ℕ) where
    abbrev pub provenance : List Citation → ℕ → Provenance
    provenance citations confidence = record {
      citations = citations;
      derived_by = name;
      confidence = confidence;
      created_at_ms = now_ms;
    }

    abbrev pub quoted : Option String → Citation
    quoted quote = cited (event_id_of host owner_id r) r now_ms quote

    abbrev pub new_entity : EntityKind → String → Entity
    new_entity kind s = record {
      id = entity_id kind s;
      owner_id = owner_id;
      kind = kind;
      name = s;
      aliases = [];
      first_seen_at_ms = r.occurred_at_ms;
      last_seen_at_ms = r.occurred_at_ms;
      provenance = provenance (quoted (some s) ∷ []) 900;
      acl = acl_of owner_id r (kind ∷ []);
    }

    -- the entity, and the entities with it
    unfoldable pub add_entity : EntityKind → String → List Entity → Entity × List Entity
    add_entity kind s entities =
        or_added (first (λ e. e.id == entity_id kind s) entities) (new_entity kind s) entities

    unfoldable pub add_each : EntityKind → List String → List Entity → List Entity
    unfolding add_entity
    add_each kind [] entities = entities
    add_each kind (s ∷ ss) entities = add_each kind ss (add_entity kind s entities).1

    -- A citation of the record that a reference `<connector>:<external_id>` names; the citation's source
    -- checks its connector.
    unfoldable pub reference_citation : String → Result Citation
    unfolding check_source_id
    reference_citation reference =
        let (connector, external_id) = partition_colon reference in
        do
          valid ← check_source_id connector
          ok (record {
            event_id = stable_id host "evt" (owner_id ∷ connector ∷ external_id ∷ []);
            source = record {
              connector = valid;
              external_id = external_id;
              url = none;
              occurred_at_ms = r.occurred_at_ms;
              ingested_at_ms = now_ms;
            };
            quote = none;
          })

    unfoldable pub reference_citations : List String → Result (List Citation)
    unfolding reference_citation
    reference_citations [] = ok []
    reference_citations (reference ∷ rest) = do
      c ← reference_citation reference
      cs ← reference_citations rest
      ok (c ∷ cs)

    unfoldable pub event_of : List Citation → List Entity → Event
    event_of citations entities = record {
      id = event_id_of host owner_id r;
      owner_id = owner_id;
      summary = r.title;
      body = if r.sensitive then none else some r.body;
      entity_ids = map (λ e. e.id) entities;
      source = source_of r now_ms;
      encrypted_content = none;
      provenance = provenance (quoted (some r.title) ∷ citations) 1000;
      acl = acl_of owner_id r (sorted_kinds (map (λ e. e.kind) entities));
    }

    abbrev pub new_claim : String → String → List Entity → Option Commitment → List Entity → Claim
    new_claim statement quote subjects commitment parties = record {
      id = stable_id host "clm" (owner_id ∷ event_id_of host owner_id r ∷ statement ∷ []);
      owner_id = owner_id;
      statement = statement;
      subject_entity_ids = map (λ e. e.id) subjects;
      status = ClaimStatus.active;
      supersedes = [];
      contradicts = [];
      reconciled_into = none;
      commitment = commitment;
      asserted_at_ms = r.occurred_at_ms;
      provenance = provenance (quoted (some quote) ∷ []) 800;
      acl = acl_of owner_id r (sorted_kinds (map (λ e. e.kind) (subjects ++ parties)));
    }
