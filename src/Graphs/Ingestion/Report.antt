-- ===== src/Graphs/Ingestion/Report.antt =====
-- What `encrypt` and `write` report, told without their loops.
use memapp.Prelude.{
  String, ◌≡◌, refl, sym, ap, ◌∙◌, inl, inr, Bool, false, not, Option, none, some, List, [], ◌∷◌,
  ◌++◌, map, ◌==◌, if◌then◌else◌, Bool-cases, if_true, if_false, Option-cases, keep, gather,
  keep_some, contains,
}
use mathlib.Core.List.{append-nil, append_assoc}
use memapp.Prelude.Dict.{Dict, find}
use memapp.Prelude.Result.{Result, ok, ◌>>=◌, both_returned, ok-inj}
use memapp.Schema.{RawRecord, Candidate, Entity, Event, Claim, EncryptedContentRef}
use memapp.Store.{Graph}
use memapp.Store.Writes.{link}
use memapp.Graphs.Ingestion.{
  Encrypted, seal_failed, seal_one, seal_all, encrypt, sensitive_records, Written, each,
  each_written, needs_seal, skipped, sealed_event, store_event, write_sealed, write_event,
  link_owed, supersede, write_claim, write_entity, write_candidate, write, entity_text, event_text,
}

-- The sensitive records that the enclave sealed, and those it did not
abbrev pub sealed_pair : String → Option EncryptedContentRef → Option (String × EncryptedContentRef)
sealed_pair i none = none
sealed_pair i (some blob) = some (i, blob)

abbrev pub failure : String → Option EncryptedContentRef → Option String
failure i none = some (seal_failed i)
failure i (some blob) = none

module _ (seal : String → String → Option EncryptedContentRef) where
  abbrev pub sealed_of : String × RawRecord → Option (String × EncryptedContentRef)
  sealed_of (i, r) = sealed_pair i (seal i r.body)

  abbrev pub failure_of : String × RawRecord → Option String
  failure_of (i, r) = failure i (seal i r.body)

  seal_all-eq :
      (records : Dict RawRecord) (done : Encrypted)
      → seal_all seal records done ≡ record {
        sealed = done.sealed ++ keep_some sealed_of records;
        errors = done.errors ++ keep_some failure_of records;
      }
  unfolding seal_all
  seal_all-eq [] done = λ i. record {
    sealed = sym (append-nil done.sealed) i;
    errors = sym (append-nil done.errors) i;
  }
  seal_all-eq ((k, r) ∷ rest) done = elim (Option-cases (seal k r.body)) [
    | inl e ↦ rw e (
        seal_all-eq rest (seal_one k none done) ∙ λ i. record {
          sealed = done.sealed ++ keep_some sealed_of rest;
          errors = append_assoc done.errors (seal_failed k ∷ []) (keep_some failure_of rest) i;
        })
    | inr (blob, e) ↦ rw e (
        seal_all-eq rest (seal_one k (some blob) done) ∙ λ i. record {
          sealed = append_assoc done.sealed ((k, blob) ∷ []) (keep_some sealed_of rest) i;
          errors = done.errors ++ keep_some failure_of rest;
        })
  ]

  -- The seals and the errors of `encrypt` are, in order, those of the entries of `sensitive_records`.
  pub encrypt-eq :
      (records : List RawRecord)
      → encrypt seal records ≡ record {
        sealed = keep_some sealed_of (sensitive_records records);
        errors = keep_some failure_of (sensitive_records records);
      }
  unfolding encrypt
  encrypt-eq records = seal_all-eq (sensitive_records records) (record { sealed = []; errors = [] })

-- An id among those of the sensitive records
unfoldable pub is_sensitive : List RawRecord → String → Bool
is_sensitive records i = contains (map (λ r. r.external_id) (keep (λ r. r.sensitive) records)) i

needs_seal-eq :
    (records : List RawRecord) (i : String) → needs_seal records i ≡ is_sensitive records i
unfolding needs_seal is_sensitive
needs_seal-eq [] i = refl
needs_seal-eq (r ∷ rest) i = elim (Bool-cases r.sensitive) [
  | inl b ↦
      rw (b, needs_seal-eq rest i)
        (elim (Bool-cases (r.external_id == i)) [ inl b' ↦ rw b' refl | inr b' ↦ rw b' refl ])
  | inr b ↦
      rw (b, needs_seal-eq rest i)
        (elim (Bool-cases (r.external_id == i)) [ inl b' ↦ rw b' refl | inr b' ↦ rw b' refl ])
]

abbrev pub is_unsealed : Option EncryptedContentRef → Bool → Bool
is_unsealed none b = b
is_unsealed (some blob) b = false

module _ (records : List RawRecord) (sealed : Dict EncryptedContentRef) where
  -- An event that `write` leaves out: its record is sensitive and was not sealed.
  abbrev pub is_skipped : Event → Bool
  is_skipped e =
      is_unsealed (find e.source.external_id sealed) (is_sensitive records e.source.external_id)

  abbrev pub event_ids : Event → List String
  event_ids e = if is_skipped e then [] else e.id ∷ []

  abbrev pub event_errors : Event → List String
  event_errors e = if is_skipped e then skipped e ∷ [] else []

  abbrev pub candidate_ids : Candidate → List String
  candidate_ids c =
      gather (λ (x : Entity). x.id ∷ []) c.entities
      ++ (gather event_ids c.events ++ gather (λ (x : Claim). x.id ∷ []) c.claims)

  abbrev pub candidate_errors : Candidate → List String
  candidate_errors c = gather event_errors c.events

abbrev nothing : {A : Type 0} → A → List String
nothing a = []

gather-nothing : {A : Type 0} (xs : List A) → gather nothing xs ≡ []
gather-nothing [] = refl
gather-nothing (x ∷ xs) = gather-nothing xs

module _ {V : Type 0} where
  -- What an action, when it returns, adds to the two lists
  abbrev pub Adds : (Written V → Result (Written V)) → List String → List String → Type 0
  Adds action ids errors =
      (s s' : Written V)
      → action s ≡ ok s'
      → (s'.written ≡ s.written ++ ids) × (s'.errors ≡ s.errors ++ errors)

  then-Adds :
      (f k : Written V → Result (Written V)) (a b m n : List String)
      → Adds f a m
      → Adds k b n
      → Adds (λ s. f s >>= k) (a ++ b) (m ++ n)
  then-Adds f k a b m n hf hk s s' e =
      let (s1, (e1, e2)) = both_returned (f s) k e in
      let (w1, m1) = hf s s1 e1 in
      let (w2, m2) = hk s1 s' e2 in
      (
        w2 ∙ ap (λ l. l ++ b) w1 ∙ append_assoc s.written a b,
        m2 ∙ ap (λ l. l ++ n) m1 ∙ append_assoc s.errors m n,
      )

  each_written-Adds :
      {A : Type 0} (action : A → Written V → Result (Written V)) (ids errors : A → List String)
      → ((a : A) → Adds (action a) (ids a) (errors a))
      → (xs : List A) → Adds (each_written action xs) (gather ids xs) (gather errors xs)
  each_written-Adds action ids errors h [] s s' e = (
    ap (λ x. x.written) (sym (ok-inj e)) ∙ sym (append-nil s.written),
    ap (λ x. x.errors) (sym (ok-inj e)) ∙ sym (append-nil s.errors),
  )
  each_written-Adds action ids errors h (x ∷ xs) s s' e =
      then-Adds (action x) (each_written action xs) (ids x) (gather ids xs) (errors x)
        (gather errors xs) (h x) (each_written-Adds action ids errors h xs) s s' e

  silent-Adds :
      {A : Type 0} (action : A → Written V → Result (Written V)) (ids : A → List String)
      → ((a : A) → Adds (action a) (ids a) [])
      → (xs : List A) → Adds (each_written action xs) (gather ids xs) []
  silent-Adds action ids h xs s s' e =
      let (w, m) = each_written-Adds action ids nothing h xs s s' e in
      (w, m ∙ ap (λ l. s.errors ++ l) (gather-nothing xs))

  stored-Adds :
      (g : Result (Graph V)) (i : String) (s s' : Written V)
      → (g >>= (λ g'. ok (record s { graph = g'; written = s.written ++ i ∷ [] }))) ≡ ok s'
      → (s'.written ≡ s.written ++ i ∷ []) × (s'.errors ≡ s.errors ++ [])
  stored-Adds g i s s' e =
      let (g1, (e1, e2)) = both_returned g _ e in
      (
        ap (λ x. x.written) (sym (ok-inj e2)),
        ap (λ x. x.errors) (sym (ok-inj e2)) ∙ sym (append-nil s.errors),
      )

  module _ (embed : String → Result V) where
    write_entity-Adds : (x : Entity) → Adds (write_entity embed x) (x.id ∷ []) []
    unfolding write_entity
    write_entity-Adds x s s' e =
        let (v, (e0, last)) = both_returned (embed (entity_text x)) _ e in
        stored-Adds (ok _) x.id s s' last

    store_event-Adds : (x : Event) → Adds (store_event embed x) (x.id ∷ []) []
    unfolding store_event
    store_event-Adds x s s' e =
        let (v, (e0, r0)) = both_returned (embed (event_text x)) _ e in
        let (g1, (e1, r1)) =
          both_returned (each (λ i. link x.id "MENTIONS" i) x.entity_ids _) _ r0 in
        let cited = keep (λ i. not (i == x.id)) (map (λ c. c.event_id) x.provenance.citations) in
        stored-Adds (each (λ i. link x.id "CITES" i) cited g1) x.id s s' r1

    write_claim-Adds : (c : Claim) → Adds (write_claim embed c) (c.id ∷ []) []
    unfolding write_claim
    write_claim-Adds c s s' e =
        let (v, (e0, r0)) = both_returned (embed c.statement) _ e in
        let (g1, (e1, r1)) =
          both_returned (each (λ i. link c.id "ABOUT" i) c.subject_entity_ids _) _ r0 in
        let (g2, (e2, r2)) = both_returned (link_owed c c.commitment g1) _ r1 in
        let cited = map (λ x. x.event_id) c.provenance.citations in
        let (g3, (e3, r3)) = both_returned (each (λ i. link c.id "CITES" i) cited g2) _ r2 in
        let (g4, (e4, r4)) = both_returned (each (supersede c) c.supersedes g3) _ r3 in
        stored-Adds (each (λ i. link c.id "CONTRADICTS" i) c.contradicts g4) c.id s s' r4

    module _ (records : List RawRecord) (sealed : Dict EncryptedContentRef) where
      write_sealed-Adds :
          (o : Option EncryptedContentRef) (x : Event)
          → Adds
              (write_sealed embed records o x)
              (if is_unsealed o (is_sensitive records x.source.external_id) then [] else x.id ∷ [])
              (if is_unsealed o (is_sensitive records x.source.external_id)
                then skipped x ∷ []
                else [])
      write_sealed-Adds none x s s' e =
          elim (Bool-cases (is_sensitive records x.source.external_id)) [
            | inl b ↦
                let b' = needs_seal-eq records x.source.external_id ∙ b in
                let e' = ok-inj (sym (if_true _ _ b') ∙ e) in
                rw b (
                  ap (λ y. y.written) (sym e') ∙ sym (append-nil s.written),
                  ap (λ y. y.errors) (sym e'),
                )
            | inr b ↦ rw b (
                store_event-Adds x s s'
                  (sym (if_false _ _ (needs_seal-eq records x.source.external_id ∙ b)) ∙ e))
          ]
      write_sealed-Adds (some blob) x s s' e = store_event-Adds (sealed_event x blob) s s' e

      write_event-Adds :
          (x : Event)
          → Adds
              (write_event embed records sealed x)
              (event_ids records sealed x)
              (event_errors records sealed x)
      unfolding write_event
      write_event-Adds x = write_sealed-Adds (find x.source.external_id sealed) x

      write_candidate-Adds :
          (c : Candidate)
          → Adds
              (write_candidate embed records sealed c)
              (candidate_ids records sealed c)
              (candidate_errors records sealed c)
      unfolding write_candidate
      write_candidate-Adds c s s' e =
          let entities = λ (z : Written V). each_written (write_entity embed) c.entities z in
          let events =
            λ (z : Written V). each_written (write_event embed records sealed) c.events z in
          let claims = λ (z : Written V). each_written (write_claim embed) c.claims z in
          let (w, m) =
            then-Adds entities (λ z. events z >>= claims) (gather (λ x. x.id ∷ []) c.entities) _ []
              _ (silent-Adds (write_entity embed) (λ x. x.id ∷ []) write_entity-Adds c.entities)
              (then-Adds events claims _ (gather (λ x. x.id ∷ []) c.claims)
                (candidate_errors records sealed c) []
                (each_written-Adds (write_event embed records sealed) (event_ids records sealed)
                  (event_errors records sealed) write_event-Adds c.events)
                (silent-Adds (write_claim embed) (λ x. x.id ∷ []) write_claim-Adds c.claims))
              s s' e in
          (w, m ∙ ap (λ l. s.errors ++ l) (append-nil (candidate_errors records sealed c)))

      pub write_reports :
          (candidates : List Candidate) (g : Graph V) (s : Written V)
          → write embed records sealed candidates g ≡ ok s
          → (s.written ≡ gather (candidate_ids records sealed) candidates)
            × (s.errors ≡ gather (candidate_errors records sealed) candidates)
      unfolding write
      write_reports candidates g s e =
          each_written-Adds (write_candidate embed records sealed) (candidate_ids records sealed)
            (candidate_errors records sealed) write_candidate-Adds candidates
            (record { graph = g; written = []; errors = [] }) s e
