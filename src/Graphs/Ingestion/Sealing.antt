-- ===== src/Graphs/Ingestion/Sealing.antt =====
-- The node `write` puts no clear body of a sensitive record into the store.
use memapp.Prelude.{
  String, ◌≡◌, refl, sym, ◌∙◌, ◌⊎◌, inl, inr, Bool, true, false, not, ◌&&◌, ◌||◌, Option, none,
  some, List, [], ◌∷◌, map, ◌==◌, Bool-cases, if_true, if_false, keep, All,
}
use memapp.Prelude.Dict.{Dict, find}
use memapp.Prelude.Result.{Result, ok, both_returned, ok-inj}
use memapp.Enums.{ClaimStatus, status_value}
use memapp.Schema.{
  RawRecord, Candidate, Entity, Event, Claim, Commitment, EncryptedContentRef, MemoryNode,
}
use memapp.Store.{Row, Graph, text_of}
use memapp.Store.Writes.{upsert, link, set_claim_status}
use memapp.Store.Kept.{Rows, upsert-Rows, link-Rows, set_claim_status-Rows}
use memapp.Graphs.Ingestion.{
  Written, each, when_given, each_written, needs_seal, sealed_event, store_event, write_sealed,
  write_event, link_owed, supersede, write_claim, write_entity, write_candidate, write, event_text,
  entity_text,
}

-- What the store may hold of an event, for each record of the batch: the record is not sensitive, it is
-- not the record of the event, or neither the payload nor the text column has the body.
abbrev pub IsClearOf : Event → String → RawRecord → Type 0
IsClearOf e text r =
    (r.sensitive ≡ false)
    ⊎ ((r.external_id == e.source.external_id) ≡ false)
    ⊎ ((e.body ≡ none) × (text ≡ text_of (MemoryNode.event (record e { body = none }))))

abbrev pub HasNoBody : List RawRecord → MemoryNode → String → Type 0
HasNoBody records (MemoryNode.entity e) text = Unit
HasNoBody records (MemoryNode.claim c) text = Unit
HasNoBody records (MemoryNode.event e) text = All (IsClearOf e text) records

either_false : (a b : Bool) → (a || b) ≡ false → (a ≡ false) × (b ≡ false)
either_false false b h = (refl, h)
either_false true b h = absurd cc

both_false : (a b : Bool) → (a && b) ≡ false → (a ≡ false) ⊎ (b ≡ false)
both_false false b h = inl refl
both_false true b h = inr h

needless :
    (e : Event) (text : String) (records : List RawRecord)
    → needs_seal records e.source.external_id ≡ false
    → All (IsClearOf e text) records
unfolding needs_seal
needless e text [] h = tt
needless e text (r ∷ rest) h =
    let (near, far) = either_false _ _ h in
    (elim (both_false _ _ near) [ inl x ↦ inr (inl x) | inr y ↦ inl y ], needless e text rest far)

bodiless :
    (e : Event) (blob : EncryptedContentRef) (records : List RawRecord)
    → All
        (IsClearOf (sealed_event e blob) (text_of (MemoryNode.event (sealed_event e blob))))
        records
bodiless e blob [] = tt
bodiless e blob (r ∷ rest) = (inr (inr (refl, refl)), bodiless e blob rest)

module _ {V : Type 0} (records : List RawRecord) where
  abbrev pub RowSealed : Row V → Type 0
  RowSealed r = HasNoBody records r.payload r.text

  -- No row of an event of a sensitive record has the body of the event.
  abbrev pub IsSealed : Graph V → Type 0
  IsSealed = Rows RowSealed

  module _ {A : Type 0} where
    each-IsSealed :
        (action : A → Graph V → Result (Graph V))
        → ((a : A) (g g' : Graph V) → action a g ≡ ok g' → IsSealed g → IsSealed g')
        → (xs : List A) (g g' : Graph V) → each action xs g ≡ ok g'
        → IsSealed g
        → IsSealed g'
    each-IsSealed action keeps [] g g' e h = rw (sym (ok-inj e)) h
    each-IsSealed action keeps (x ∷ xs) g g' e h =
        let (g1, (e1, rest)) = both_returned (action x g) (each action xs) e in
        each-IsSealed action keeps xs g1 g' rest (keeps x g g1 e1 h)

    each_written-IsSealed :
        (action : A → Written V → Result (Written V))
        → ((a : A) (s s' : Written V) → action a s ≡ ok s' → IsSealed s.graph → IsSealed s'.graph)
        → (xs : List A) (s s' : Written V) → each_written action xs s ≡ ok s'
        → IsSealed s.graph
        → IsSealed s'.graph
    each_written-IsSealed action keeps [] s s' e h = rw (sym (ok-inj e)) h
    each_written-IsSealed action keeps (x ∷ xs) s s' e h =
        let (s1, (e1, rest)) = both_returned (action x s) (each_written action xs) e in
        each_written-IsSealed action keeps xs s1 s' rest (keeps x s s1 e1 h)

  link-IsSealed :
      (a rel b : String) (g g' : Graph V) → link a rel b g ≡ ok g' → IsSealed g → IsSealed g'
  link-IsSealed = link-Rows RowSealed

  links-IsSealed :
      (a rel : String) (ids : List String) (g g' : Graph V)
      → each (λ i. link a rel i) ids g ≡ ok g'
      → IsSealed g
      → IsSealed g'
  links-IsSealed a rel = each-IsSealed (λ i. link a rel i) (λ i. link-IsSealed a rel i)

  status-IsSealed :
      (i status : String) (g g' : Graph V)
      → set_claim_status i status g ≡ ok g'
      → IsSealed g
      → IsSealed g'
  status-IsSealed i status g g' e h =
      set_claim_status-Rows RowSealed i status g g' (λ r c c' b p e'. tt) e h

  supersede-IsSealed :
      (c : Claim) (i : String) (g g' : Graph V) → supersede c i g ≡ ok g' → IsSealed g → IsSealed g'
  supersede-IsSealed c i g g' e h =
      let (g1, (e1, rest)) = both_returned (link c.id "SUPERSEDES" i g) _ e in
      status-IsSealed i (status_value ClaimStatus.superseded) g1 g' rest
        (link-IsSealed c.id "SUPERSEDES" i g g1 e1 h)

  when_given-IsSealed :
      (a rel : String) (o : Option String) (g g' : Graph V)
      → when_given (λ i. link a rel i) o g ≡ ok g'
      → IsSealed g
      → IsSealed g'
  when_given-IsSealed a rel none g g' e h = rw (sym (ok-inj e)) h
  when_given-IsSealed a rel (some i) g g' e h = elim (Bool-cases (i == "")) [
    | inl b ↦ rw (sym (ok-inj (sym (if_true _ _ b) ∙ e))) h
    | inr b ↦ link-IsSealed a rel i g g' (sym (if_false _ _ b) ∙ e) h
  ]

  link_owed-IsSealed :
      (c : Claim) (o : Option Commitment) (g g' : Graph V)
      → link_owed c o g ≡ ok g'
      → IsSealed g
      → IsSealed g'
  link_owed-IsSealed c none g g' e h = rw (sym (ok-inj e)) h
  link_owed-IsSealed c (some m) g g' e h =
      let (g1, (e1, rest)) = both_returned (link c.id "OWED_BY" m.owed_by_entity_id g) _ e in
      when_given-IsSealed c.id "OWED_TO" m.owed_to_entity_id g1 g' rest
        (link-IsSealed c.id "OWED_BY" m.owed_by_entity_id g g1 e1 h)

  module _ (embed : String → Result V) where
    write_entity-IsSealed :
        (x : Entity) (s s' : Written V)
        → write_entity embed x s ≡ ok s'
        → IsSealed s.graph
        → IsSealed s'.graph
    unfolding write_entity
    write_entity-IsSealed x s s' e h =
        let (v, (e0, last)) = both_returned (embed (entity_text x)) _ e in
        rw (sym (ok-inj last)) (upsert-Rows RowSealed (MemoryNode.entity x) v s.graph tt h)

    write_claim-IsSealed :
        (c : Claim) (s s' : Written V)
        → write_claim embed c s ≡ ok s'
        → IsSealed s.graph
        → IsSealed s'.graph
    unfolding write_claim
    write_claim-IsSealed c s s' e h =
        let (v, (e0, r0)) = both_returned (embed c.statement) _ e in
        let g = upsert (MemoryNode.claim c) v s.graph in
        let (g1, (e1, r1)) =
          both_returned (each (λ i. link c.id "ABOUT" i) c.subject_entity_ids g) _ r0 in
        let (g2, (e2, r2)) = both_returned (link_owed c c.commitment g1) _ r1 in
        let cited = map (λ x. x.event_id) c.provenance.citations in
        let (g3, (e3, r3)) = both_returned (each (λ i. link c.id "CITES" i) cited g2) _ r2 in
        let (g4, (e4, r4)) = both_returned (each (supersede c) c.supersedes g3) _ r3 in
        let (g5, (e5, r5)) =
          both_returned (each (λ i. link c.id "CONTRADICTS" i) c.contradicts g4) _ r4 in
        let h1 =
          links-IsSealed c.id "ABOUT" c.subject_entity_ids g g1 e1
            (upsert-Rows RowSealed (MemoryNode.claim c) _ s.graph tt h) in
        let h3 =
          links-IsSealed c.id "CITES" cited g2 g3 e3
            (link_owed-IsSealed c c.commitment g1 g2 e2 h1) in
        let h4 = each-IsSealed (supersede c) (supersede-IsSealed c) c.supersedes g3 g4 e4 h3 in
        rw (sym (ok-inj r5)) (links-IsSealed c.id "CONTRADICTS" c.contradicts g4 g5 e5 h4)

    store_event-IsSealed :
        (x : Event) (s s' : Written V)
        → All (IsClearOf x (text_of (MemoryNode.event x))) records
        → store_event embed x s ≡ ok s'
        → IsSealed s.graph
        → IsSealed s'.graph
    unfolding store_event
    store_event-IsSealed x s s' clear e h =
        let (v, (e0, r0)) = both_returned (embed (event_text x)) _ e in
        let g = upsert (MemoryNode.event x) v s.graph in
        let (g1, (e1, r1)) =
          both_returned (each (λ i. link x.id "MENTIONS" i) x.entity_ids g) _ r0 in
        let cited = keep (λ i. not (i == x.id)) (map (λ c. c.event_id) x.provenance.citations) in
        let (g2, (e2, r2)) = both_returned (each (λ i. link x.id "CITES" i) cited g1) _ r1 in
        let h1 =
          links-IsSealed x.id "MENTIONS" x.entity_ids g g1 e1
            (upsert-Rows RowSealed (MemoryNode.event x) _ s.graph clear h) in
        rw (sym (ok-inj r2)) (links-IsSealed x.id "CITES" cited g1 g2 e2 h1)

    write_sealed-IsSealed :
        (o : Option EncryptedContentRef) (x : Event) (s s' : Written V)
        → write_sealed embed records o x s ≡ ok s'
        → IsSealed s.graph
        → IsSealed s'.graph
    write_sealed-IsSealed none x s s' e h =
        elim (Bool-cases (needs_seal records x.source.external_id)) [
          | inl b ↦ rw (sym (ok-inj (sym (if_true _ _ b) ∙ e))) h
          | inr b ↦
              store_event-IsSealed x s s' (needless x _ records b) (sym (if_false _ _ b) ∙ e) h
        ]
    write_sealed-IsSealed (some blob) x s s' e h =
        store_event-IsSealed (sealed_event x blob) s s' (bodiless x blob records) e h

    module _ (sealed : Dict EncryptedContentRef) where
      write_event-IsSealed :
          (x : Event) (s s' : Written V)
          → write_event embed records sealed x s ≡ ok s'
          → IsSealed s.graph
          → IsSealed s'.graph
      unfolding write_event
      write_event-IsSealed x = write_sealed-IsSealed (find x.source.external_id sealed) x

      write_candidate-IsSealed :
          (c : Candidate) (s s' : Written V)
          → write_candidate embed records sealed c s ≡ ok s'
          → IsSealed s.graph
          → IsSealed s'.graph
      unfolding write_candidate
      write_candidate-IsSealed c s s' e h =
          let (s1, (e1, r1)) = both_returned (each_written (write_entity embed) c.entities s) _ e in
          let (s2, (e2, e3)) =
            both_returned (each_written (write_event embed records sealed) c.events s1) _ r1 in
          each_written-IsSealed (write_claim embed) write_claim-IsSealed c.claims s2 s' e3 (
            each_written-IsSealed (write_event embed records sealed) write_event-IsSealed c.events
              s1 s2 e2
              (each_written-IsSealed (write_entity embed) write_entity-IsSealed c.entities s s1 e1
                h))

      -- If no row of an event of a sensitive record of the batch has its body in the graph, neither in
      -- the payload nor in the text column, then none has after `write` has returned, whichever of the records were sealed and whatever the candidates hold.
      pub write-IsSealed :
          (candidates : List Candidate) (g : Graph V) (s : Written V)
          → write embed records sealed candidates g ≡ ok s
          → IsSealed g
          → IsSealed s.graph
      unfolding write
      write-IsSealed candidates g s e h =
          each_written-IsSealed (write_candidate embed records sealed) write_candidate-IsSealed
            candidates (record { graph = g; written = []; errors = [] }) s e h
