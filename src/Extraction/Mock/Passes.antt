-- ===== src/Extraction/Mock/Passes.antt =====
-- `MockExtractor.extract` of extraction/mock.py: its passes over the matches. The list of entities
-- that the passes change is handed from each to the next.
use memapp.Prelude.{
  ℕ, String, Option, none, some, List, [], ◌∷◌, ◌++◌, map, keep, gather, cons_some,
}
use memapp.Prelude.Dict.{find}
use memapp.Prelude.Texts.{◌<>◌, strip_text}
use memapp.Prelude.Result.{Result, ok, ◌>>=◌}
use memapp.Enums.{EntityKind, FulfillmentStatus}
use memapp.Schema.{RawRecord, Entity, Claim, Candidate}
use memapp.Extraction.{Host}
use memapp.Extraction.Mock.{
  Grammar, ClaimMatch, CommitmentMatch, given, due_of, names_of, references, is_subject, add_entity,
  add_each, event_of, new_claim, reference_citations,
}

abbrev pub text_of : RawRecord → String
text_of r = r.title <> ". " <> r.body

-- `f"{statement} by {due}"` if there is a date, and the full stop
abbrev pub obligation_of : Option String → String → String
obligation_of none obligation = strip_text obligation <> "."
obligation_of (some due) obligation = strip_text obligation <> " by " <> due <> "."

abbrev pub id_of : Option Entity → Option String
id_of none = none
id_of (some e) = some e.id

module _ (host : Host) (owner_id : String) (r : RawRecord) (now_ms : ℕ) where
  unfoldable pub decision : List Entity → ClaimMatch → Claim
  decision entities m =
      new_claim host owner_id r now_ms (strip_text m.decision <> ".") m.whole
        (keep is_subject entities) none []

  -- the second of the parties, if there is to be one, and the entities with it
  abbrev pub add_owed_to : Option String → List Entity → Option Entity × List Entity
  add_owed_to none entities = (none, entities)
  add_owed_to (some s) entities =
      let added = add_entity host owner_id r now_ms EntityKind.person s entities in
      (some added.0, added.1)

  abbrev pub new_promise : CommitmentMatch → List Entity → Entity → Option Entity → Option ℕ → Claim
  new_promise m entities owed_by owed_to due_at_ms =
      new_claim host owner_id r now_ms (obligation_of (given m.due) m.obligation) m.whole
        (keep is_subject entities)
        (some (record {
          owed_by_entity_id = owed_by.id;
          owed_to_entity_id = id_of owed_to;
          due_at_ms = due_at_ms;
          fulfillment = FulfillmentStatus.opened;
          settled_at_ms = none;
        }))
        (owed_by ∷ cons_some owed_to [])

  unfoldable pub promise : CommitmentMatch → List Entity → Result (Claim × List Entity)
  promise m entities =
      let by = add_entity host owner_id r now_ms EntityKind.person m.owed_by entities in
      let to = add_owed_to (given m.owed_to) by.1 in
      do due ← due_of host.parse_date (given m.due); ok (new_promise m entities by.0 to.0 due, to.1)

  unfoldable pub promises : List CommitmentMatch → List Entity → Result (List Claim × List Entity)
  unfolding promise
  promises [] entities = ok ([], entities)
  promises (m ∷ ms) entities = do
    made ← promise m entities
    later ← promises ms made.1
    ok (made.0 ∷ later.0, later.1)

  module _ (grammar : Grammar) where
    -- The entities of the five loops that come first
    unfoldable pub read : List Entity
    read =
        let text = text_of r in
        let add = add_each host owner_id r now_ms in
        add EntityKind.artifact (grammar.artifacts text) (
          add EntityKind.project (grammar.projects text) (
            add EntityKind.person (gather names_of (grammar.commitments text)) (
              add EntityKind.person (map (λ m. m.person) (grammar.claims text))
                (add EntityKind.person r.participants []))))

    unfoldable pub extract : Result Candidate
    unfolding read event_of decision promises reference_citations
    extract = do
      cites ← references (find "cites" r.metadata)
      citations ← reference_citations host owner_id r now_ms cites
      made ← promises (grammar.commitments (text_of r)) read
      ok (record {
        entities = made.1;
        events = event_of host owner_id r now_ms citations read ∷ [];
        claims = map (decision read) (grammar.claims (text_of r)) ++ made.0;
      })
