-- ===== src/Extraction/Mock/Extracted.antt =====
-- What `MockExtractor.extract` proposes of a record.
use memapp.Prelude.{
  ℕ, String, ◌≡◌, refl, sym, ap, Option, none, some, List, [], ◌∷◌, map, keep, All, gather,
  cons_some, All-append, All-keep, map-All, Among, Among-All, All-weaken, gather-All,
}
use memapp.Prelude.Dict.{find}
use memapp.Prelude.Result.{ok, both_returned, ok-inj}
use memapp.Enums.{EntityKind}
use memapp.Schema.{RawRecord, Entity, Claim, Candidate}
use memapp.Extraction.{Host}
use memapp.Extraction.Contract.{ids_of, IsProposal}
use memapp.Extraction.Mock.{
  Grammar, ClaimMatch, CommitmentMatch, given, due_of, names_of, references, is_subject, entity_id,
  add_entity, add_each, event_of, reference_citations,
}
use memapp.Extraction.Mock.Passes.{
  text_of, read, decision, add_owed_to, new_promise, promise, promises, extract, id_of,
}
use memapp.Extraction.Mock.Entities.{
  Held, DistinctIds, add_entity-present, add_each-DistinctIds, add_each-keeps, add_each-Held,
}

module _ (host : Host) (owner_id : String) (r : RawRecord) (now_ms : ℕ) where
  -- Those who promise and are promised to are among the entities already.
  abbrev PartiesHeld : List Entity → CommitmentMatch → Type 0
  PartiesHeld entities m =
      All (λ s. Held (entity_id host owner_id EntityKind.person s) entities) (names_of m)

  subjects_among : (entities : List Entity) → All (λ e. Among e entities) (keep is_subject entities)
  subjects_among entities =
      All-keep (λ e. Among e entities) is_subject entities
        (Among-All (λ e. Among e entities) entities (λ e a. a))

  decision-IsProposal :
      (entities : List Entity) (m : ClaimMatch)
      → IsProposal host owner_id r entities (decision host owner_id r now_ms entities m)
  unfolding decision
  decision-IsProposal entities m = record {
    active = refl;
    supersedes_nothing = refl;
    contradicts_nothing = refl;
    unreconciled = refl;
    pending = tt;
    cites = refl;
    access = refl;
    about = record {
      subjects = keep is_subject entities;
      parties = [];
      within =
          All-append (λ e. Among e entities) (keep is_subject entities) [] (subjects_among entities)
            tt;
      subject_ids = refl;
      bound = refl;
      kinds = refl;
    };
  }

  ids_of-cons_some : (o : Option Entity) → cons_some (id_of o) [] ≡ ids_of (cons_some o [])
  ids_of-cons_some none = refl
  ids_of-cons_some (some e) = refl

  new_promise-IsProposal :
      (m : CommitmentMatch) (entities : List Entity) (by : Entity) (to : Option Entity)
      (due : Option ℕ)
      → Among by entities
      → All (λ e. Among e entities) (cons_some to [])
      → IsProposal host owner_id r entities
          (new_promise host owner_id r now_ms m entities by to due)
  new_promise-IsProposal m entities by to due in_by in_to = record {
    active = refl;
    supersedes_nothing = refl;
    contradicts_nothing = refl;
    unreconciled = refl;
    pending = (refl, refl);
    cites = refl;
    access = refl;
    about = record {
      subjects = keep is_subject entities;
      parties = by ∷ cons_some to [];
      within =
          All-append (λ e. Among e entities) (keep is_subject entities) (by ∷ cons_some to [])
            (subjects_among entities) (in_by, in_to);
      subject_ids = refl;
      bound = ap (◌∷◌ by.id) (ids_of-cons_some to);
      kinds = refl;
    };
  }

  add_owed_to-Held :
      (to : Option String) (entities : List Entity)
      → All (λ s. Held (entity_id host owner_id EntityKind.person s) entities) (cons_some to [])
      → ((add_owed_to host owner_id r now_ms to entities).1 ≡ entities)
        × All
            (λ e. Among e entities)
            (cons_some (add_owed_to host owner_id r now_ms to entities).0 [])
  add_owed_to-Held none entities held = (refl, tt)
  add_owed_to-Held (some s) entities held =
      let (same, among) =
        add_entity-present host owner_id r now_ms EntityKind.person s entities held.0 in
      (same, (among, tt))

  promise-held :
      (m : CommitmentMatch) (entities : List Entity) (out : Claim × List Entity)
      → PartiesHeld entities m
      → promise host owner_id r now_ms m entities ≡ ok out
      → (out.1 ≡ entities) × IsProposal host owner_id r entities out.0
  unfolding promise
  promise-held m entities out held h =
      let (due, (e1, last)) = both_returned (due_of host.parse_date (given m.due)) _ h in
      let (same_by, in_by) =
        add_entity-present host owner_id r now_ms EntityKind.person m.owed_by entities held.0 in
      let (same_to, in_to) = add_owed_to-Held (given m.owed_to) entities held.1 in
      rw (sym (ok-inj last), same_by)
        (
          same_to,
          new_promise-IsProposal m entities
              (add_entity host owner_id r now_ms EntityKind.person m.owed_by entities).0
              (add_owed_to host owner_id r now_ms (given m.owed_to) entities).0 due in_by in_to,
        )

  promises-held :
      (ms : List CommitmentMatch) (entities : List Entity) (out : List Claim × List Entity)
      → All (PartiesHeld entities) ms
      → promises host owner_id r now_ms ms entities ≡ ok out
      → (out.1 ≡ entities) × All (IsProposal host owner_id r entities) out.0
  unfolding promises
  promises-held [] entities out held h = rw (sym (ok-inj h)) (refl, tt)
  promises-held (m ∷ ms) entities out held h =
      let (made, (e1, rest)) = both_returned (promise host owner_id r now_ms m entities) _ h in
      let (later, (e2, last)) = both_returned (promises host owner_id r now_ms ms made.1) _ rest in
      let (same, proposal) = promise-held m entities made held.0 e1 in
      let e3 : promises host owner_id r now_ms ms entities ≡ ok later = rw same at e2 in
      let (kept, proposals) = promises-held ms entities later held.1 e3 in
      rw (sym (ok-inj last)) (kept, (proposal, proposals))

  module _ (grammar : Grammar) where
    read-DistinctIds : DistinctIds (read host owner_id r now_ms grammar)
    unfolding read
    read-DistinctIds = search add_each-DistinctIds depth 8

    read-PartiesHeld :
        All (PartiesHeld (read host owner_id r now_ms grammar)) (grammar.commitments (text_of r))
    unfolding read
    read-PartiesHeld =
        let text = text_of r in
        let names = gather names_of (grammar.commitments text) in
        let people =
          add_each host owner_id r now_ms EntityKind.person
            (map (λ m. m.person) (grammar.claims text))
            (add_each host owner_id r now_ms EntityKind.person r.participants []) in
        let all_people = add_each host owner_id r now_ms EntityKind.person names people in
        let with_projects =
          add_each host owner_id r now_ms EntityKind.project (grammar.projects text) all_people in
        let held = add_each-Held host owner_id r now_ms EntityKind.person names people in
        gather-All
          (λ s.
            Held (entity_id host owner_id EntityKind.person s)
              (read host owner_id r now_ms grammar))
          names_of (grammar.commitments text)
          (All-weaken (λ s. Held (entity_id host owner_id EntityKind.person s) all_people)
            (λ s.
              Held (entity_id host owner_id EntityKind.person s)
                (read host owner_id r now_ms grammar))
            names
            (λ s h.
              add_each-keeps host owner_id r now_ms EntityKind.artifact (grammar.artifacts text)
                with_projects (entity_id host owner_id EntityKind.person s)
                (add_each-keeps host owner_id r now_ms EntityKind.project (grammar.projects text)
                  all_people (entity_id host owner_id EntityKind.person s) h))
            held)

    decisions-IsProposal :
        (entities : List Entity) (ms : List ClaimMatch)
        → All
            (IsProposal host owner_id r entities)
            (map (decision host owner_id r now_ms entities) ms)
    decisions-IsProposal entities ms =
        map-All (IsProposal host owner_id r entities) (decision host owner_id r now_ms entities) ms
          (Among-All
            (λ m. IsProposal host owner_id r entities (decision host owner_id r now_ms entities m))
            ms (λ m a. decision-IsProposal entities m))

    -- If a record is extracted, then no two of the entities share an id, there is one event, that of the
    -- record, which names all the entities, and each claim is active, supersedes, contradicts and
    -- reconciles nothing, commits to nothing or to what is open and unsettled, cites that event alone, and
    -- is about entities of the same record, whose kinds, those of the parties of its commitment among
    -- them, make up its access list.
    pub extract-IsProposal :
        (c : Candidate)
        → extract host owner_id r now_ms grammar ≡ ok c
        → DistinctIds c.entities
          × ((map (λ e. e.entity_ids) c.events ≡ ids_of c.entities ∷ [])
              × All (IsProposal host owner_id r c.entities) c.claims)
    unfolding extract event_of
    extract-IsProposal c h =
        let (cites, (e1, rest)) = both_returned (references (find "cites" r.metadata)) _ h in
        let (citations, (e0, rest')) =
          both_returned (reference_citations host owner_id r now_ms cites) _ rest in
        let (made, (e2, last)) =
          both_returned
            (promises host owner_id r now_ms (grammar.commitments (text_of r))
              (read host owner_id r now_ms grammar))
            _ rest' in
        let (same, proposals) =
          promises-held (grammar.commitments (text_of r)) (read host owner_id r now_ms grammar) made
            read-PartiesHeld e2 in
        let entities = read host owner_id r now_ms grammar in
        let decided = map (decision host owner_id r now_ms entities) (grammar.claims (text_of r)) in
        rw (sym (ok-inj last), same)
          (
            read-DistinctIds,
            (
              refl,
              All-append (IsProposal host owner_id r entities) decided made.0
                  (decisions-IsProposal entities (grammar.claims (text_of r))) proposals,
            ),
          )
