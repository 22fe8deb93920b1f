-- ===== src/Graphs/Ingestion.antt =====
-- graphs/ingestion.py: fetch, extract, resolve, encrypt and write. `fetch` and `extract` call a connector
-- and an extractor; `seal` is the enclave's answer, through the gateway, for one record, and `embed` the
-- embedder's, which may raise like the extractor's.
pub mod Sealing
pub mod Returns
pub mod Report
pub mod Sealed
pub mod Run
use memapp.Prelude.{
  ℕ, zero, suc, String, ◌+◌, ◌-◌, ◌*◌, ◌/◌, ◌%◌, ◌≤◌, ◌<◌, ◌≡◌, ◌≢◌, refl, sym, ap, ◌∙◌, ◌↔◌, ◌⊎◌,
  inl, inr, Bool, true, false, not, ◌&&◌, ◌||◌, Option, none, some, List, [], ◌∷◌, ◌++◌, map, Memᴰ,
  arith, ◌==◌, eq_iff, ltb, leb, eqb, if◌then◌else◌, Bool-cases, Option-cases, and_true, leb→le,
  ltb→lt, length, is_empty, any, all, keep, first, head?, last?, take, drop, All, gather, keep_some,
  cons_some, contains, unique, distinct, length-append, length-take-le, length-keep-le,
  length-keep-add, All-append, All-keep, keep-All, length-map, map-All, is_empty-map,
}
use memapp.Prelude.Dict.{Dict, find, put_all, values}
use memapp.Prelude.Texts.{join, ◌<>◌}
use memapp.Prelude.Result.{Result, ok, err, value_error, ◌>>=◌}
use memapp.Enums.{ClaimStatus, status_value}
use memapp.Schema.{
  RawRecord, Candidate, Entity, Event, Claim, Citation, Commitment, EncryptedContentRef, MemoryNode,
}
use memapp.Store.{Graph}
use memapp.Store.Writes.{upsert, link, set_claim_status}
use memapp.Resolver.Defs.{Resolution, Links, join_links, no_links, resolve_batch}

-- The node `fetch`
unfoldable pub fetch : Bool → Result (List RawRecord) → Result (List RawRecord)
fetch source_enabled fetched = if source_enabled then fetched else err value_error

-- The node `extract`: the first record that the extractor does not read stops it.
unfoldable pub extract_all :
    (RawRecord → Result Candidate) → List RawRecord → Result (List Candidate)
extract_all extract_one [] = ok []
extract_all extract_one (r ∷ rest) = do
  c ← extract_one r
  cs ← extract_all extract_one rest
  ok (c ∷ cs)

abbrev pub with_claims : Candidate → Resolution → Candidate
with_claims candidate r = record candidate { claims = r.new_claims }

abbrev pub merge : List Candidate → List Resolution → List Candidate
merge (c ∷ candidates) (r ∷ resolutions) = with_claims c r ∷ merge candidates resolutions
merge [] resolutions = []
merge (c ∷ candidates) [] = []

abbrev pub all_links : List Resolution → Links
all_links [] = no_links
all_links (r ∷ rest) = join_links r.links (all_links rest)

-- The node `resolve`: the candidates with their resolved claims, and the links
unfoldable pub resolve : {V : Type 0} → Graph V → String → List Candidate → List Candidate × Links
unfolding resolve_batch
resolve g owner_id candidates =
    let resolutions = resolve_batch g owner_id candidates in
    (merge candidates resolutions, all_links resolutions)

pub record Encrypted : Type 0 where
  pub sealed : Dict EncryptedContentRef
  pub errors : List String

-- The sensitive records by id: of several with one id the last counts
abbrev pub sensitive_records : List RawRecord → Dict RawRecord
sensitive_records records =
    put_all (map (λ r. (r.external_id, r)) (keep (λ r. r.sensitive) records)) []

abbrev pub seal_failed : String → String
seal_failed external_id = "seal failed for " <> external_id

-- One round of the loop of `encrypt`; the text of the exception is left out of the message.
abbrev pub seal_one : String → Option EncryptedContentRef → Encrypted → Encrypted
seal_one i none done = record done { errors = done.errors ++ seal_failed i ∷ [] }
seal_one i (some blob) done = record done { sealed = done.sealed ++ (i, blob) ∷ [] }

module _ (seal : String → String → Option EncryptedContentRef) where
  unfoldable pub seal_all : Dict RawRecord → Encrypted → Encrypted
  seal_all [] done = done
  seal_all ((i, r) ∷ rest) done = seal_all rest (seal_one i (seal i r.body) done)

  -- The node `encrypt`
  unfoldable pub encrypt : List RawRecord → Encrypted
  unfolding seal_all
  encrypt records = seal_all (sensitive_records records) (record { sealed = []; errors = [] })

unfoldable pub needs_seal : List RawRecord → String → Bool
needs_seal records external_id = any (λ r. r.external_id == external_id && r.sensitive) records

-- The graph, and what the node `write` returns
pub record Written (V : Type 0) : Type 0 where
  pub graph : Graph V
  pub written : List String
  pub errors : List String

-- `for x in xs: action(x)`
abbrev pub each :
    {V A : Type 0} → (A → Graph V → Result (Graph V)) → List A → Graph V → Result (Graph V)
each action [] g = ok g
each action (x ∷ xs) g = do g' ← action x g; each action xs g'

abbrev pub when_given :
    {V : Type 0}
    → (String → Graph V → Result (Graph V))
    → Option String
    → Graph V
    → Result (Graph V)
when_given action none g = ok g
when_given action (some i) g = if i == "" then ok g else action i g

abbrev pub link_owed : {V : Type 0} → Claim → Option Commitment → Graph V → Result (Graph V)
link_owed c none g = ok g
link_owed c (some m) g = do
  g1 ← link c.id "OWED_BY" m.owed_by_entity_id g
  when_given (λ i. link c.id "OWED_TO" i) m.owed_to_entity_id g1

abbrev pub supersede : {V : Type 0} → Claim → String → Graph V → Result (Graph V)
supersede c superseded g = do
  g1 ← link c.id "SUPERSEDES" superseded g
  set_claim_status superseded (status_value ClaimStatus.superseded) g1

abbrev pub entity_text : Entity → String
entity_text e = e.name <> " " <> join " " e.aliases

abbrev pub event_text : Event → String
event_text e = e.summary <> " " <> elim e.body [ none ↦ "" | some b ↦ b ]

abbrev pub skipped : Event → String
skipped e = "skipped " <> e.id <> ": sensitive body was not sealed"

abbrev pub sealed_event : Event → EncryptedContentRef → Event
sealed_event e blob = record e { encrypted_content = some blob; body = none }

module _ {V : Type 0} (embed : String → Result V) where
  unfoldable pub write_entity : Entity → Written V → Result (Written V)
  write_entity e s = do
    v ← embed (entity_text e)
    let g = upsert (MemoryNode.entity e) v s.graph
    ok (record s { graph = g; written = s.written ++ e.id ∷ [] })

  -- The statements behind the `continue` of the loop over events
  unfoldable pub store_event : Event → Written V → Result (Written V)
  store_event e s = do
    v ← embed (event_text e)
    let g = upsert (MemoryNode.event e) v s.graph
    g1 ← each (λ i. link e.id "MENTIONS" i) e.entity_ids g
    g2 ←
        each (λ i. link e.id "CITES" i)
          (keep (λ i. not (i == e.id)) (map (λ c. c.event_id) e.provenance.citations)) g1
    ok (record s { graph = g2; written = s.written ++ e.id ∷ [] })

  abbrev pub write_unsealed : List RawRecord → Event → Written V → Result (Written V)
  write_unsealed records e s =
      if needs_seal records e.source.external_id
      then ok (record s { errors = s.errors ++ skipped e ∷ [] })
      else store_event e s

  abbrev pub write_sealed :
      List RawRecord → Option EncryptedContentRef → Event → Written V → Result (Written V)
  write_sealed records none e s = write_unsealed records e s
  write_sealed records (some blob) e s = store_event (sealed_event e blob) s

  unfoldable pub write_event :
      List RawRecord → Dict EncryptedContentRef → Event → Written V → Result (Written V)
  unfolding store_event
  write_event records sealed e s = write_sealed records (find e.source.external_id sealed) e s

  unfoldable pub write_claim : Claim → Written V → Result (Written V)
  write_claim c s = do
    v ← embed c.statement
    let g = upsert (MemoryNode.claim c) v s.graph
    g1 ← each (λ i. link c.id "ABOUT" i) c.subject_entity_ids g
    g2 ← link_owed c c.commitment g1
    g3 ← each (λ i. link c.id "CITES" i) (map (λ x. x.event_id) c.provenance.citations) g2
    g4 ← each (supersede c) c.supersedes g3
    g5 ← each (λ i. link c.id "CONTRADICTS" i) c.contradicts g4
    ok (record s { graph = g5; written = s.written ++ c.id ∷ [] })

abbrev pub each_written :
    {V A : Type 0} → (A → Written V → Result (Written V)) → List A → Written V → Result (Written V)
each_written action [] s = ok s
each_written action (x ∷ xs) s = do s' ← action x s; each_written action xs s'

module _ {V : Type 0} (embed : String → Result V) (records : List RawRecord)
    (sealed : Dict EncryptedContentRef) where
  unfoldable pub write_candidate : Candidate → Written V → Result (Written V)
  unfolding write_entity write_event write_claim
  write_candidate c s = do
    s1 ← each_written (write_entity embed) c.entities s
    s2 ← each_written (write_event embed records sealed) c.events s1
    each_written (write_claim embed) c.claims s2

  -- The node `write`
  unfoldable pub write : List Candidate → Graph V → Result (Written V)
  unfolding write_candidate
  write candidates g =
      each_written write_candidate candidates (record { graph = g; written = []; errors = [] })

pub record IngestionResult : Type 0 where
  pub owner_id : String
  pub records : ℕ
  pub entities : ℕ
  pub events : ℕ
  pub claims : ℕ
  pub sealed : ℕ
  pub links : Links
  pub errors : List String

abbrev pub total {ℓ} : {A : Type ℓ} → (A → ℕ) → List A → ℕ
total f [] = 0
total f (x ∷ xs) = f x + total f xs

abbrev pub result_of :
    {V : Type 0}
    → String
    → List RawRecord
    → List Candidate × Links
    → Encrypted
    → Written V
    → IngestionResult
result_of owner_id records (candidates, links) done s = record {
  owner_id = owner_id;
  records = length records;
  entities = total (λ c. length c.entities) candidates;
  events = total (λ c. length c.events) candidates;
  claims = total (λ c. length c.claims) candidates;
  sealed = length done.sealed;
  links = links;
  errors = done.errors ++ s.errors;
}

-- The graph run from start to end: the store it leaves, with the result. `fetched` is what the
-- connector gives, `extract_one` the extractor. Of a run that raises only the exception is kept, not what
-- it had written.
unfoldable pub run_ingestion :
    {V : Type 0}
    → (embed : String → Result V) (seal : String → String → Option EncryptedContentRef)
      (extract_one : RawRecord → Result Candidate) (owner_id : String) (source_enabled : Bool)
      (fetched : Result (List RawRecord))
    → Graph V
    → Result (Graph V × IngestionResult)
run_ingestion embed seal extract_one owner_id source_enabled fetched g = do
  records ← fetch source_enabled fetched
  candidates ← extract_all extract_one records
  let resolved = resolve g owner_id candidates
  let done = encrypt seal records
  s ← write embed records done.sealed resolved.0 g
  ok (s.graph, result_of owner_id records resolved done s)
