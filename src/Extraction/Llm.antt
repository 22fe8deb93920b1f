-- ===== src/Extraction/Llm.antt =====
-- `_to_candidate` of extraction/llm.py and what it calls. `parsed` is the model's answer, decoded, and
-- `now_ms` the clock's.
pub mod Bindings
pub mod Proposals
pub mod Visibility
pub mod Clock
pub mod Again
use memapp.Prelude.{
  ℕ, zero, suc, String, ◌+◌, ◌-◌, ◌*◌, ◌/◌, ◌%◌, ◌≤◌, ◌<◌, ◌≡◌, ◌≢◌, refl, sym, ap, ◌∙◌, ◌↔◌, ◌⊎◌,
  inl, inr, Bool, true, false, not, ◌&&◌, ◌||◌, Option, none, some, List, [], ◌∷◌, ◌++◌, map, Memᴰ,
  arith, ◌==◌, eq_iff, ltb, leb, eqb, if◌then◌else◌, Bool-cases, if_true, if_false, Option-cases,
  and_true, leb→le, ltb→lt, length, is_empty, any, all, keep, first, head?, last?, take, drop, All,
  gather, keep_some, cons_some, contains, unique, distinct, length-append, length-take-le,
  length-keep-le, length-keep-add, All-append, All-keep, keep-All, length-map, map-All,
  is_empty-map, Among, Among-append_left, Among-append_right, All-Among, Among-All, All-weaken,
}
use memapp.Prelude.Dict.{Dict, find, put}
use memapp.Prelude.Result.{Result, ok, err, type_error, value_error, ◌>>=◌}
use memapp.Enums.{EntityKind, ClaimStatus, FulfillmentStatus, kind_value}
use memapp.Schema.{RawRecord, Citation, Provenance, Entity, Event, Claim, Commitment, Candidate}
use memapp.Connectors.Json.{Json, Items, Fields, items, fields}
use memapp.Connectors.Json.Reading.{item, get_or, iterate, text_or, text_of, text_list, truthy}
use memapp.Extraction.{Host, stable_id, sorted_kinds, source_of, acl_of, event_id_of, cited}

-- `EntityKind(v)`
abbrev pub kind_of : String → Result EntityKind
kind_of s =
    if s == "person"
    then ok EntityKind.person
    else if s == "project"
    then ok EntityKind.project
    else if s == "artifact"
    then ok EntityKind.artifact
    else if s == "organization"
    then ok EntityKind.organization
    else if s == "topic"
    then ok EntityKind.topic
    else err value_error

abbrev pub entity_kind : Json → Result EntityKind
entity_kind = text_or (err value_error) kind_of

-- The entities read so far, and the last of them under each name
pub record Known : Type 0 where
  pub entities : List Entity
  pub by_name : Dict Entity

module _ (host : Host) where
  -- `_due_ms`: a date that is none is dropped; a value that is neither empty nor a text raises
  unfoldable pub due_ms : Json → Result (Option ℕ)
  due_ms date =
      if truthy host.nonzero date
      then text_or (err type_error) (λ s. ok (host.parse_date s)) date
      else ok none

  -- `str(v)`
  abbrev pub spelled : Json → String
  spelled (Json.text s) = s
  spelled Json.null = host.str_of Json.null
  spelled (Json.flag b) = host.str_of (Json.flag b)
  spelled (Json.number n) = host.str_of (Json.number n)
  spelled (Json.array a) = host.str_of (Json.array a)
  spelled (Json.object o) = host.str_of (Json.object o)

  -- `v or ""`
  abbrev pub or_blank : Json → Json
  or_blank v = if truthy host.nonzero v then v else Json.text ""

  abbrev pub parties_of : Entity → Option Entity → List Entity
  parties_of owed_by none = owed_by ∷ []
  parties_of owed_by (some owed_to) = owed_by ∷ owed_to ∷ []

  abbrev pub id_of : Option Entity → Option String
  id_of none = none
  id_of (some e) = some e.id

  abbrev pub owed : Option Entity → Json → Entity → Result (Option Commitment × List Entity)
  owed owed_to raw owed_by = do
    date ← get_or raw "due_at" Json.null
    due ← due_ms date
    ok (
      some (record {
        owed_by_entity_id = owed_by.id;
        owed_to_entity_id = id_of owed_to;
        due_at_ms = due;
        fulfillment = FulfillmentStatus.opened;
        settled_at_ms = none;
      }),
      parties_of owed_by owed_to,
    )

  -- what follows the look-up of the party who owes
  abbrev pub owed_by_found :
      Json → Dict Entity → Option Entity → Result (Option Commitment × List Entity)
  owed_by_found raw by_name none = ok (none, [])
  owed_by_found raw by_name (some owed_by) = do
    to ← get_or raw "owed_to" Json.null
    owed (find (host.lower (spelled (or_blank to))) by_name) raw owed_by

  unfoldable pub commitment_of : Json → Dict Entity → Result (Option Commitment × List Entity)
  unfolding due_ms
  commitment_of raw by_name =
      if truthy host.nonzero raw
      then (get_or raw "owed_by" (Json.text "")
          >>= (λ by. owed_by_found raw by_name (find (host.lower (spelled by)) by_name)))
      else ok (none, [])

  -- `[by_name[s.lower()] for s in … if s.lower() in by_name]`
  abbrev pub subjects_of : Dict Entity → List Json → Result (List Entity)
  subjects_of by_name [] = ok []
  subjects_of by_name (v ∷ rest) = do
    s ← text_of v
    later ← subjects_of by_name rest
    ok (cons_some (find (host.lower s) by_name) later)

  module _ (owner_id : String) (r : RawRecord) (derived_by : String) (now_ms : ℕ) where
    abbrev pub provenance : String → ℕ → Provenance
    provenance quote confidence = record {
      citations = cited (event_id_of host owner_id r) r now_ms (some quote) ∷ [];
      derived_by = derived_by;
      confidence = confidence;
      created_at_ms = now_ms;
    }

    abbrev pub new_entity : EntityKind → String → List String → Entity
    new_entity kind name aliases = record {
      id = stable_id host "ent" (owner_id ∷ kind_value kind ∷ host.lower name ∷ []);
      owner_id = owner_id;
      kind = kind;
      name = name;
      aliases = aliases;
      first_seen_at_ms = r.occurred_at_ms;
      last_seen_at_ms = r.occurred_at_ms;
      provenance = provenance name 900;
      acl = acl_of owner_id r (kind ∷ []);
    }

    unfoldable pub entity_of : Json → Result Entity
    entity_of raw = do
      kind ← item raw "kind" >>= entity_kind
      name ← item raw "name" >>= text_of
      aliases ← get_or raw "aliases" (Json.array Items.no_items) >>= text_list
      ok (new_entity kind name aliases)

    abbrev pub know : Entity → Known → Known
    know e known = record {
      entities = known.entities ++ e ∷ [];
      by_name = put (host.lower e.name) e known.by_name;
    }

    unfoldable pub read_entities : List Json → Known → Result Known
    unfolding entity_of
    read_entities [] known = ok known
    read_entities (raw ∷ rest) known = do e ← entity_of raw; read_entities rest (know e known)

    unfoldable pub event_of : List Entity → Event
    event_of entities = record {
      id = event_id_of host owner_id r;
      owner_id = owner_id;
      summary = r.title;
      body = if r.sensitive then none else some r.body;
      entity_ids = map (λ e. e.id) entities;
      source = source_of r now_ms;
      encrypted_content = none;
      provenance = provenance r.title 1000;
      acl = acl_of owner_id r (sorted_kinds (map (λ e. e.kind) entities));
    }

    abbrev pub new_claim : String → ℕ → List Entity → Option Commitment → List Entity → Claim
    new_claim statement confidence subjects commitment parties = record {
      id = stable_id host "clm" (owner_id ∷ event_id_of host owner_id r ∷ statement ∷ []);
      owner_id = owner_id;
      statement = statement;
      subject_entity_ids = map (λ e. e.id) subjects;
      status = ClaimStatus.active;
      supersedes = [];
      contradicts = [];
      reconciled_into = none;
      commitment = commitment;
      asserted_at_ms = r.occurred_at_ms;
      provenance = provenance statement confidence;
      acl = acl_of owner_id r (sorted_kinds (map (λ e. e.kind) (subjects ++ parties)));
    }

    unfoldable pub claim_of : Dict Entity → Json → Result Claim
    unfolding commitment_of
    claim_of by_name raw = do
      named ← get_or raw "subjects" (Json.array Items.no_items) >>= iterate
      subjects ← subjects_of by_name named
      promise ← get_or raw "commitment" Json.null
      found ← commitment_of promise by_name
      statement ← item raw "statement" >>= text_of
      confidence ← get_or raw "confidence" (Json.number "0.7") >>= host.to_confidence
      ok (new_claim statement confidence subjects found.0 found.1)

    unfoldable pub read_claims : Dict Entity → List Json → Result (List Claim)
    unfolding claim_of
    read_claims by_name [] = ok []
    read_claims by_name (raw ∷ rest) = do
      c ← claim_of by_name raw
      later ← read_claims by_name rest
      ok (c ∷ later)

    unfoldable pub to_candidate : Json → Result Candidate
    unfolding read_entities event_of read_claims
    to_candidate parsed = do
      raw_entities ← get_or parsed "entities" (Json.array Items.no_items) >>= iterate
      known ← read_entities raw_entities (record { entities = []; by_name = [] })
      raw_claims ← get_or parsed "claims" (Json.array Items.no_items) >>= iterate
      claims ← read_claims known.by_name raw_claims
      ok (record {
        entities = known.entities;
        events = event_of known.entities ∷ [];
        claims = claims;
      })
