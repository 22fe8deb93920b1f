-- ===== src/Graphs/Ingestion/Returns.antt =====
-- What the nodes `extract` and `write` may raise: what the extractor and the embedder raise. No call of
-- the store raises.
use memapp.Prelude.{
  String, ◌≡◌, refl, ◌∙◌, ◌⊎◌, inl, inr, true, not, Option, none, some, List, [], ◌∷◌, ◌++◌, map,
  ◌==◌, Bool-cases, if_true, if_false, keep, Among,
}
use memapp.Prelude.Dict.{Dict, find}
use memapp.Prelude.Result.{Result, Error, ok, err, ◌>>=◌}
use memapp.Enums.{ClaimStatus, status_value}
use memapp.Schema.{
  RawRecord, Candidate, Entity, Event, Claim, Commitment, EncryptedContentRef, MemoryNode,
}
use memapp.Store.{Graph}
use memapp.Store.Writes.{is_identifier, upsert, link, set_claim_status}
use memapp.Prelude.Texts.{codes}
use memapp.Store.Typed.{IsTyped, Returns, upsert-IsTyped, link-Returns, superseded-Returns}
use memapp.Graphs.Ingestion.{
  Written, each, when_given, each_written, needs_seal, sealed_event, store_event, write_sealed,
  write_event, link_owed, supersede, write_claim, write_entity, write_candidate, write, event_text,
  entity_text, extract_all,
}

-- The second call raises what the first raised.
abbrev pub RaisesAs : {A B : Type 0} → Result A → Result B → Type 0
RaisesAs call out = (e : Error) × ((call ≡ err e) × (out ≡ err e))

Result-cases :
    {A : Type 0} (call : Result A) → ((e : Error) × (call ≡ err e)) ⊎ ((a : A) × (call ≡ ok a))
Result-cases (err e) = inl (e, refl)
Result-cases (ok a) = inr (a, refl)

-- The node `extract` returns, or raises what the extractor raised on one of the records.
pub extract_all-cases :
    (extract_one : RawRecord → Result Candidate) (records : List RawRecord)
    → ((candidates : List Candidate) × (extract_all extract_one records ≡ ok candidates))
      ⊎ ((r : RawRecord) × (Among r records
            × RaisesAs (extract_one r) (extract_all extract_one records)))
unfolding extract_all
extract_all-cases extract_one [] = inl ([], refl)
extract_all-cases extract_one (r ∷ rest) = elim (Result-cases (extract_one r)) [
  | inl (e, h) ↦ inr (r, (inl refl, (e, (h, rw h refl))))
  | inr (c, h) ↦ elim (extract_all-cases extract_one rest) [
    | inl (cs, h') ↦ inl (c ∷ cs, rw (h, h') refl)
    | inr (q, (a, (e, (h1, h2)))) ↦ inr (q, (inr a, (e, (h1, rw (h, h2) refl))))
  ]
]

module _ {V : Type 0} where
  then-Returns :
      (f k : Graph V → Result (Graph V)) → Returns f → Returns k → Returns (λ g. f g >>= k)
  then-Returns f k hf hk g h =
      let (g1, (e1, h1)) = hf g h in let (g2, (e2, h2)) = hk g1 h1 in (g2, (rw e1 e2, h2))

  each-Returns :
      {A : Type 0} (action : A → Graph V → Result (Graph V))
      → ((a : A) → Returns (action a))
      → (xs : List A) → Returns (each action xs)
  each-Returns action total [] g h = (g, (refl, h))
  each-Returns action total (x ∷ xs) g h =
      then-Returns (action x) (each action xs) (total x) (each-Returns action total xs) g h

  links-Returns :
      (a rel : String)
      → is_identifier (codes rel) ≡ true
      → (ids : List String) → Returns {V = V} (each (λ i. link a rel i) ids)
  links-Returns a rel named ids =
      each-Returns (λ i. link a rel i) (λ i. link-Returns a rel i named) ids

  when_given-Returns :
      (action : String → Graph V → Result (Graph V))
      → ((i : String) → Returns (action i))
      → (o : Option String) → Returns (when_given action o)
  when_given-Returns action total none g h = (g, (refl, h))
  when_given-Returns action total (some i) g h = elim (Bool-cases (i == "")) [
    | inl b ↦ (g, (if_true _ _ b, h))
    | inr b ↦ let (g', (e, h')) = total i g h in (g', (if_false _ _ b ∙ e, h'))
  ]

  link_owed-Returns : (c : Claim) (o : Option Commitment) → Returns {V = V} (link_owed c o)
  link_owed-Returns c none g h = (g, (refl, h))
  link_owed-Returns c (some m) g h =
      then-Returns (link c.id "OWED_BY" m.owed_by_entity_id)
        (when_given (λ i. link c.id "OWED_TO" i) m.owed_to_entity_id)
        (link-Returns c.id "OWED_BY" m.owed_by_entity_id refl)
        (when_given-Returns (λ i. link c.id "OWED_TO" i) (λ i. link-Returns c.id "OWED_TO" i refl)
          m.owed_to_entity_id)
        g h

  supersede-Returns : (c : Claim) (i : String) → Returns {V = V} (supersede c i)
  supersede-Returns c i =
      then-Returns (link c.id "SUPERSEDES" i)
        (set_claim_status i (status_value ClaimStatus.superseded))
        (link-Returns c.id "SUPERSEDES" i refl) (superseded-Returns i)

module _ {V : Type 0} (embed : String → Result V) where
  -- An action on the state of `write` returns on a typed graph and leaves a typed one, or it raises
  -- what the embedder raised on a text.
  abbrev pub Completes : (Written V → Result (Written V)) → Type 0
  Completes action =
      (s : Written V)
      → IsTyped s.graph
      → ((s' : Written V) × ((action s ≡ ok s') × IsTyped s'.graph))
        ⊎ ((text : String) × RaisesAs (embed text) (action s))

  then-Completes :
      (f k : Written V → Result (Written V))
      → Completes f
      → Completes k
      → Completes (λ s. f s >>= k)
  then-Completes f k hf hk s h = elim (hf s h) [
    | inl (s1, (e1, h1)) ↦ elim (hk s1 h1) [
      | inl (s2, (e2, h2)) ↦ inl (s2, (rw e1 e2, h2))
      | inr (text, (e, (said, e2))) ↦ inr (text, (e, (said, rw e1 e2)))
    ]
    | inr (text, (e, (said, e1))) ↦ inr (text, (e, (said, rw e1 refl)))
  ]

  -- An action that asks for an embedding and goes on with calls of the store
  embedded-Completes :
      (text : String) (k : V → Written V → Result (Written V))
      → ((v : V) (s : Written V)
          → IsTyped s.graph
          → (s' : Written V) × ((k v s ≡ ok s') × IsTyped s'.graph))
      → Completes (λ s. embed text >>= (λ v. k v s))
  embedded-Completes text k total s h = elim (Result-cases (embed text)) [
    | inl (e, said) ↦ inr (text, (e, (said, rw said refl)))
    | inr (v, said) ↦ let (s', (e, h')) = total v s h in inl (s', (rw said e, h'))
  ]

  each_written-Completes :
      {A : Type 0} (action : A → Written V → Result (Written V))
      → ((a : A) → Completes (action a))
      → (xs : List A) → Completes (each_written action xs)
  each_written-Completes action total [] s h = inl (s, (refl, h))
  each_written-Completes action total (x ∷ xs) s h =
      then-Completes (action x) (each_written action xs) (total x)
        (each_written-Completes action total xs) s h

  write_entity-Completes : (x : Entity) → Completes (write_entity embed x)
  unfolding write_entity
  write_entity-Completes x =
      embedded-Completes (entity_text x) _
        (λ v s h. (_, (refl, upsert-IsTyped (MemoryNode.entity x) v s.graph h)))

  store_event-Completes : (x : Event) → Completes (store_event embed x)
  unfolding store_event
  store_event-Completes x = embedded-Completes (event_text x) _ (λ v s h.
      let cited = keep (λ i. not (i == x.id)) (map (λ c. c.event_id) x.provenance.citations) in
      let g = upsert (MemoryNode.event x) v s.graph in
      let (g1, (e1, h1)) =
        links-Returns x.id "MENTIONS" refl x.entity_ids g
          (upsert-IsTyped (MemoryNode.event x) v s.graph h) in
      let (g2, (e2, h2)) = links-Returns x.id "CITES" refl cited g1 h1 in
      (record s { graph = g2; written = s.written ++ x.id ∷ [] }, (rw (e1, e2) refl, h2)))

  write_claim-Completes : (c : Claim) → Completes (write_claim embed c)
  unfolding write_claim
  write_claim-Completes c = embedded-Completes c.statement _ (λ v s h.
      let g = upsert (MemoryNode.claim c) v s.graph in
      let (g1, (e1, h1)) =
        links-Returns c.id "ABOUT" refl c.subject_entity_ids g
          (upsert-IsTyped (MemoryNode.claim c) v s.graph h) in
      let (g2, (e2, h2)) = link_owed-Returns c c.commitment g1 h1 in
      let (g3, (e3, h3)) =
        links-Returns c.id "CITES" refl (map (λ x. x.event_id) c.provenance.citations) g2 h2 in
      let (g4, (e4, h4)) = each-Returns (supersede c) (supersede-Returns c) c.supersedes g3 h3 in
      let (g5, (e5, h5)) = links-Returns c.id "CONTRADICTS" refl c.contradicts g4 h4 in
      (
        record s { graph = g5; written = s.written ++ c.id ∷ [] },
        (rw (e1, e2, e3, e4, e5) refl, h5),
      ))

  module _ (records : List RawRecord) where
    write_sealed-Completes :
        (o : Option EncryptedContentRef) (x : Event) → Completes (write_sealed embed records o x)
    write_sealed-Completes none x s h =
        elim (Bool-cases (needs_seal records x.source.external_id)) [
          | inl b ↦ inl (_, (if_true _ _ b, h))
          | inr b ↦ rw b (store_event-Completes x s h)
        ]
    write_sealed-Completes (some blob) x s h = store_event-Completes (sealed_event x blob) s h

    module _ (sealed : Dict EncryptedContentRef) where
      write_event-Completes : (x : Event) → Completes (write_event embed records sealed x)
      unfolding write_event
      write_event-Completes x = write_sealed-Completes (find x.source.external_id sealed) x

      write_candidate-Completes :
          (c : Candidate) → Completes (write_candidate embed records sealed c)
      unfolding write_candidate
      write_candidate-Completes c =
          then-Completes (λ s. each_written (write_entity embed) c.entities s)
            (λ s.
              each_written (write_event embed records sealed) c.events s
              >>= (λ s'. each_written (write_claim embed) c.claims s'))
            (each_written-Completes (write_entity embed) write_entity-Completes c.entities)
            (then-Completes (λ s. each_written (write_event embed records sealed) c.events s)
              (λ s. each_written (write_claim embed) c.claims s)
              (each_written-Completes (write_event embed records sealed) write_event-Completes
                c.events)
              (each_written-Completes (write_claim embed) write_claim-Completes c.claims))

      -- The node `write` returns on a typed graph and leaves a typed one, or it raises what the
      -- embedder raised on a text.
      pub write-Completes :
          (candidates : List Candidate) (g : Graph V)
          → IsTyped g
          → ((s : Written V) × ((write embed records sealed candidates g ≡ ok s) × IsTyped s.graph))
            ⊎ ((text : String) × RaisesAs (embed text) (write embed records sealed candidates g))
      unfolding write
      write-Completes candidates g h =
          each_written-Completes (write_candidate embed records sealed) write_candidate-Completes
            candidates (record { graph = g; written = []; errors = [] }) h
