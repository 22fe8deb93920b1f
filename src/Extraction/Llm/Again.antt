-- ===== src/Extraction/Llm/Again.antt =====
-- The same answer, read at two times.
use memapp.Prelude.{ℕ, String, ◌≡◌, refl, sym, ap, Option, List, [], ◌∷◌, ◌++◌, map}
use memapp.Prelude.Dict.{Dict, map_values, put-map_values}
use memapp.Prelude.Result.{ok, ◌>>=◌}
use memapp.Schema.{RawRecord, Entity, Commitment}
use memapp.Connectors.Json.{Json, Items}
use memapp.Connectors.Json.Reading.{item, get_or, iterate, text_of, text_list}
use memapp.Extraction.{Host}
use memapp.Extraction.Llm.{
  Known, entity_kind, commitment_of, entity_of, know, read_entities, event_of, subjects_of,
  new_claim, claim_of, read_claims, to_candidate,
}
use memapp.Extraction.Llm.Clock.{
  then_changed, then_same, map-append, stamp_entity, stamp_claim, stamp_event, stamp, stamp_known,
  stamp_owed, stamp-ids_of, stamp-kinds_of, commitment_of-stamp, subjects_of-stamp,
}

module _ (host : Host) (owner_id : String) (r : RawRecord) (derived_by : String)
    (now_ms later_ms : ℕ) where
  entity_of-stamp :
      (raw : Json)
      → entity_of host owner_id r derived_by later_ms raw ≡ (
          entity_of host owner_id r derived_by now_ms raw
          >>= (λ e. ok (stamp_entity host owner_id r derived_by later_ms e)))
  unfolding entity_of
  entity_of-stamp raw =
      let s = stamp_entity host owner_id r derived_by later_ms in
      then_same (item raw "kind" >>= entity_kind) _ _ s (λ kind.
        then_same (item raw "name" >>= text_of) _ _ s (λ n.
          then_same (get_or raw "aliases" (Json.array Items.no_items) >>= text_list) _ _ s
            (λ aliases. refl)))

  know-stamp :
      (e : Entity) (known : Known)
      → know host owner_id r derived_by later_ms
          (stamp_entity host owner_id r derived_by later_ms e)
          (stamp_known host owner_id r derived_by later_ms known)
        ≡ stamp_known host owner_id r derived_by later_ms
            (know host owner_id r derived_by now_ms e known)
  know-stamp e known = rw (
    map-append (stamp_entity host owner_id r derived_by later_ms) known.entities (e ∷ []),
    put-map_values (stamp_entity host owner_id r derived_by later_ms) (host.lower e.name) e
        known.by_name,
  )

  read_entities-stamp :
      (raws : List Json) (known : Known)
      → read_entities host owner_id r derived_by later_ms raws
          (stamp_known host owner_id r derived_by later_ms known)
        ≡ (read_entities host owner_id r derived_by now_ms raws known
            >>= (λ k. ok (stamp_known host owner_id r derived_by later_ms k)))
  unfolding read_entities
  read_entities-stamp [] known = refl
  read_entities-stamp (raw ∷ raws) known =
      then_changed (entity_of host owner_id r derived_by now_ms raw) _
        (stamp_entity host owner_id r derived_by later_ms) _ _
        (stamp_known host owner_id r derived_by later_ms) (entity_of-stamp raw)
        (λ e.
          rw (know-stamp e known)
            (read_entities-stamp raws (know host owner_id r derived_by now_ms e known)))

  new_claim-stamp :
      (statement : String) (confidence : ℕ) (subjects : List Entity)
      (commitment : Option Commitment) (parties : List Entity)
      → new_claim host owner_id r derived_by later_ms statement confidence
          (map (stamp_entity host owner_id r derived_by later_ms) subjects)
          commitment
          (map (stamp_entity host owner_id r derived_by later_ms) parties)
        ≡ stamp_claim host owner_id r derived_by later_ms (
            new_claim host owner_id r derived_by now_ms statement confidence subjects commitment
              parties)
  new_claim-stamp statement confidence subjects commitment parties = rw (
    sym (map-append (stamp_entity host owner_id r derived_by later_ms) subjects parties),
    stamp-ids_of host owner_id r derived_by later_ms subjects,
    stamp-kinds_of host owner_id r derived_by later_ms (subjects ++ parties),
  )

  claim_of-stamp :
      (by_name : Dict Entity) (raw : Json)
      → claim_of host owner_id r derived_by later_ms
          (map_values (stamp_entity host owner_id r derived_by later_ms) by_name)
          raw
        ≡ (claim_of host owner_id r derived_by now_ms by_name raw
            >>= (λ c. ok (stamp_claim host owner_id r derived_by later_ms c)))
  unfolding claim_of
  claim_of-stamp by_name raw =
      let s = stamp_claim host owner_id r derived_by later_ms in
      then_same (get_or raw "subjects" (Json.array Items.no_items) >>= iterate) _ _ s (λ named.
        then_changed (subjects_of host by_name named) _
          (map (stamp_entity host owner_id r derived_by later_ms)) _ _ s
          (subjects_of-stamp host owner_id r derived_by later_ms by_name named)
          (λ subjects. then_same (get_or raw "commitment" Json.null) _ _ s (λ promise.
            then_changed (commitment_of host promise by_name) _
              (stamp_owed host owner_id r derived_by later_ms) _ _ s
              (commitment_of-stamp host owner_id r derived_by later_ms promise by_name)
              (λ found. then_same (item raw "statement" >>= text_of) _ _ s (λ statement.
                then_same (get_or raw "confidence" (Json.number "0.7") >>= host.to_confidence) _ _ s
                  (λ confidence.
                    ap ok (new_claim-stamp statement confidence subjects found.0 found.1)))))))

  read_claims-stamp :
      (by_name : Dict Entity) (raws : List Json)
      → read_claims host owner_id r derived_by later_ms
          (map_values (stamp_entity host owner_id r derived_by later_ms) by_name)
          raws
        ≡ (read_claims host owner_id r derived_by now_ms by_name raws
            >>= (λ cs. ok (map (stamp_claim host owner_id r derived_by later_ms) cs)))
  unfolding read_claims
  read_claims-stamp by_name [] = refl
  read_claims-stamp by_name (raw ∷ raws) =
      then_changed (claim_of host owner_id r derived_by now_ms by_name raw) _
        (stamp_claim host owner_id r derived_by later_ms) _ _
        (map (stamp_claim host owner_id r derived_by later_ms)) (claim_of-stamp by_name raw)
        (λ c.
          then_changed (read_claims host owner_id r derived_by now_ms by_name raws) _
            (map (stamp_claim host owner_id r derived_by later_ms)) _ _
            (map (stamp_claim host owner_id r derived_by later_ms)) (read_claims-stamp by_name raws)
            (λ cs. refl))

  event_of-stamp :
      (es : List Entity)
      → event_of host owner_id r derived_by later_ms
          (map (stamp_entity host owner_id r derived_by later_ms) es)
        ≡ stamp_event host owner_id r derived_by later_ms
            (event_of host owner_id r derived_by now_ms es)
  unfolding event_of
  event_of-stamp es = rw (
    stamp-ids_of host owner_id r derived_by later_ms es,
    stamp-kinds_of host owner_id r derived_by later_ms es,
  )

  -- Reading the same answer at another time comes to the same, also where it raises, but for the
  -- provenances and the time of ingestion: the ids, and all that they are made of, do not depend on the
  -- clock.
  pub to_candidate-stamp :
      (parsed : Json)
      → to_candidate host owner_id r derived_by later_ms parsed ≡ (
          to_candidate host owner_id r derived_by now_ms parsed
          >>= (λ c. ok (stamp host owner_id r derived_by later_ms c)))
  unfolding to_candidate
  to_candidate-stamp parsed =
      let s = stamp host owner_id r derived_by later_ms in
      then_same (get_or parsed "entities" (Json.array Items.no_items) >>= iterate) _ _ s (λ raws.
        then_changed
          (read_entities host owner_id r derived_by now_ms raws
            (record { entities = []; by_name = [] }))
          _ (stamp_known host owner_id r derived_by later_ms) _ _ s
          (read_entities-stamp raws (record { entities = []; by_name = [] }))
          (λ known.
            then_same (get_or parsed "claims" (Json.array Items.no_items) >>= iterate) _ _ s
              (λ claims.
                then_changed (read_claims host owner_id r derived_by now_ms known.by_name claims) _
                  (map (stamp_claim host owner_id r derived_by later_ms)) _ _ s
                  (read_claims-stamp known.by_name claims)
                  (λ cs. rw (event_of-stamp known.entities)))))
