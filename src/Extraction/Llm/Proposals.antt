-- ===== src/Extraction/Llm/Proposals.antt =====
-- What the extractor proposes.
use memapp.Prelude.{
  ℕ, String, ◌≡◌, refl, sym, inl, List, [], ◌∷◌, ◌++◌, All, All-append, Among, Among-append_left,
  Among-append_right, All-weaken,
}
use memapp.Prelude.Dict.{Dict, put-All}
use memapp.Prelude.Result.{ok, ◌>>=◌, both_returned, ok-inj}
use memapp.Schema.{RawRecord, Entity, Claim, Candidate}
use memapp.Connectors.Json.{Json, Items}
use memapp.Connectors.Json.Reading.{item, get_or, iterate, text_of}
use memapp.Extraction.{Host}
use memapp.Extraction.Llm.{
  Known, commitment_of, entity_of, know, read_entities, event_of, subjects_of, claim_of,
  read_claims, to_candidate,
}
use memapp.Extraction.Llm.Bindings.{Names, commitment_of-Binds, subjects_of-within}
use memapp.Extraction.Contract.{IsProposal}

module _ (host : Host) (entities : List Entity) where
  module _ (owner_id : String) (r : RawRecord) (derived_by : String) (now_ms : ℕ) where
    claim_of-IsProposal :
        (by_name : Dict Entity) (raw : Json) (c : Claim)
        → Names entities by_name
        → claim_of host owner_id r derived_by now_ms by_name raw ≡ ok c
        → IsProposal host owner_id r entities c
    unfolding claim_of
    claim_of-IsProposal by_name raw c names h =
        let (named, (e1, h1)) =
          both_returned (get_or raw "subjects" (Json.array Items.no_items) >>= iterate) _ h in
        let (subjects, (e2, h2)) = both_returned (subjects_of host by_name named) _ h1 in
        let (promise, (e3, h3)) = both_returned (get_or raw "commitment" Json.null) _ h2 in
        let (found, (e4, h4)) = both_returned (commitment_of host promise by_name) _ h3 in
        let (statement, (e5, h5)) = both_returned (item raw "statement" >>= text_of) _ h4 in
        let (confidence, (e6, h6)) =
          both_returned (get_or raw "confidence" (Json.number "0.7") >>= host.to_confidence) _ h5 in
        let binds = commitment_of-Binds entities host promise by_name found names e4 in
        rw (sym (ok-inj h6)) (record {
          active = refl;
          supersedes_nothing = refl;
          contradicts_nothing = refl;
          unreconciled = refl;
          pending = binds.1.0;
          cites = refl;
          access = refl;
          about = record {
            subjects = subjects;
            parties = found.1;
            within =
                All-append (λ e. Among e entities) subjects found.1
                  (subjects_of-within entities host by_name named subjects names e2) binds.1.1;
            subject_ids = refl;
            bound = binds.0;
            kinds = refl;
          };
        })

    read_claims-IsProposal :
        (by_name : Dict Entity) (raws : List Json) (cs : List Claim)
        → Names entities by_name
        → read_claims host owner_id r derived_by now_ms by_name raws ≡ ok cs
        → All (IsProposal host owner_id r entities) cs
    unfolding read_claims
    read_claims-IsProposal by_name [] cs names h = rw (sym (ok-inj h)) tt
    read_claims-IsProposal by_name (raw ∷ raws) cs names h =
        let (c, (e1, rest)) =
          both_returned (claim_of host owner_id r derived_by now_ms by_name raw) _ h in
        let (later, (e2, last)) =
          both_returned (read_claims host owner_id r derived_by now_ms by_name raws) _ rest in
        rw (sym (ok-inj last)) (
          claim_of-IsProposal by_name raw c names e1,
          read_claims-IsProposal by_name raws later names e2,
        )

-- What has been read so far is named from what has been read.
abbrev IsNamed : Known → Type 0
IsNamed known = All (λ p. Among p.1 known.entities) known.by_name

module _ (host : Host) (owner_id : String) (r : RawRecord) (derived_by : String) (now_ms : ℕ) where
  know-IsNamed :
      (e : Entity) (known : Known)
      → IsNamed known
      → IsNamed (know host owner_id r derived_by now_ms e known)
  know-IsNamed e known h =
      let es = known.entities ++ e ∷ [] in
      let here = Among-append_right e known.entities (e ∷ []) (inl refl) in
      put-All (λ p. Among p.1 es) (host.lower e.name) e known.by_name (λ j eq. here) here
        (All-weaken (λ p. Among p.1 known.entities) (λ p. Among p.1 es) known.by_name
          (λ p a. Among-append_left p.1 known.entities (e ∷ []) a) h)

  read_entities-IsNamed :
      (raws : List Json) (known out : Known)
      → IsNamed known
      → read_entities host owner_id r derived_by now_ms raws known ≡ ok out
      → IsNamed out
  unfolding read_entities
  read_entities-IsNamed [] known out n h = rw (sym (ok-inj h)) n
  read_entities-IsNamed (raw ∷ raws) known out n h =
      let (e, (e1, rest)) = both_returned (entity_of host owner_id r derived_by now_ms raw) _ h in
      read_entities-IsNamed raws (know host owner_id r derived_by now_ms e known) out
        (know-IsNamed e known n) rest

  -- If the model's answer is read, then there is one event, that of the record, about all the entities
  -- read, and each claim is active, supersedes, contradicts and reconciles nothing, commits to nothing
  -- or to what is open and unsettled, cites that event alone, and is about entities read from the same
  -- answer, whose kinds, those of the parties of its commitment among them, make up its access list.
  pub to_candidate-IsProposal :
      (parsed : Json) (c : Candidate)
      → to_candidate host owner_id r derived_by now_ms parsed ≡ ok c
      → (c.events ≡ event_of host owner_id r derived_by now_ms c.entities ∷ [])
        × All (IsProposal host owner_id r c.entities) c.claims
  unfolding to_candidate
  to_candidate-IsProposal parsed c h =
      let (raw_entities, (e1, h1)) =
        both_returned (get_or parsed "entities" (Json.array Items.no_items) >>= iterate) _ h in
      let (known, (e2, h2)) =
        both_returned
          (read_entities host owner_id r derived_by now_ms raw_entities
            (record { entities = []; by_name = [] }))
          _ h1 in
      let (raw_claims, (e3, h3)) =
        both_returned (get_or parsed "claims" (Json.array Items.no_items) >>= iterate) _ h2 in
      let (claims, (e4, h4)) =
        both_returned (read_claims host owner_id r derived_by now_ms known.by_name raw_claims) _
          h3 in
      let named =
        read_entities-IsNamed raw_entities (record { entities = []; by_name = [] }) known tt e2 in
      rw (sym (ok-inj h4)) (
        refl,
        read_claims-IsProposal host known.entities owner_id r derived_by now_ms known.by_name
            raw_claims claims named e4,
      )
