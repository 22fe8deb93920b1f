-- ===== src/Extraction/Llm/Bindings.antt =====
-- Which entities the subjects and the commitment of a proposed claim name.
use memapp.Prelude.{
  String, ◌≡◌, refl, sym, inl, inr, Option, none, some, List, [], ◌∷◌, Bool-cases, All, cons_some,
  Among,
}
use memapp.Prelude.Dict.{Dict, find, find-All}
use memapp.Prelude.Result.{ok, both_returned, ok-inj}
use memapp.Schema.{Entity, Commitment}
use memapp.Connectors.Json.{Json}
use memapp.Connectors.Json.Reading.{get_or, text_of, truthy}
use memapp.Extraction.{Host}
use memapp.Extraction.Llm.{
  due_ms, spelled, or_blank, owed, owed_by_found, commitment_of, subjects_of,
}
use memapp.Extraction.Contract.{ids_of, IsPending, party_ids}

module _ (entities : List Entity) where
  -- Each name stands for one of the entities.
  abbrev pub Names : Dict Entity → Type 0
  Names = All (λ p. Among p.1 entities)

  found-Among :
      (k : String) (by_name : Dict Entity) {e : Entity}
      → Names by_name
      → find k by_name ≡ some e
      → Among e entities
  found-Among k by_name names h = find-All (λ e. Among e entities) k by_name h names

  -- A commitment block read: it binds some of the entities.
  abbrev pub Binds : Option Commitment × List Entity → Type 0
  Binds (m, parties) =
      (party_ids m ≡ ids_of parties) × (IsPending m × All (λ e. Among e entities) parties)

  found-in :
      (k : String) (by_name : Dict Entity)
      → Names by_name
      → (e : Entity) → find k by_name ≡ some e
      → Among e entities
  found-in k by_name names e h = found-Among k by_name names h

  cons_some-All :
      (o : Option Entity) (es : List Entity)
      → ((e : Entity) → o ≡ some e → Among e entities)
      → All (λ e. Among e entities) es
      → All (λ e. Among e entities) (cons_some o es)
  cons_some-All none es h hs = hs
  cons_some-All (some e) es h hs = (h e refl, hs)

  module _ (host : Host) where
    owed-Binds :
        (to : Option Entity) (raw : Json) (by : Entity) (out : Option Commitment × List Entity)
        → Among by entities
        → ((e : Entity) → to ≡ some e → Among e entities)
        → owed host to raw by ≡ ok out
        → Binds out
    owed-Binds none raw by out in_by in_to h =
        let (date, (e1, rest)) = both_returned (get_or raw "due_at" Json.null) _ h in
        let (due, (e2, last)) = both_returned (due_ms host date) _ rest in
        rw (sym (ok-inj last)) (refl, ((refl, refl), (in_by, tt)))
    owed-Binds (some e) raw by out in_by in_to h =
        let (date, (e1, rest)) = both_returned (get_or raw "due_at" Json.null) _ h in
        let (due, (e2, last)) = both_returned (due_ms host date) _ rest in
        rw (sym (ok-inj last)) (refl, ((refl, refl), (in_by, (in_to e refl, tt))))

    found-Binds :
        (raw : Json) (by_name : Dict Entity) (by : Option Entity)
        (out : Option Commitment × List Entity)
        → Names by_name
        → ((e : Entity) → by ≡ some e → Among e entities)
        → owed_by_found host raw by_name by ≡ ok out
        → Binds out
    found-Binds raw by_name none out names in_by h = rw (sym (ok-inj h)) (refl, (tt, tt))
    found-Binds raw by_name (some e) out names in_by h =
        let (to, (e1, rest)) = both_returned (get_or raw "owed_to" Json.null) _ h in
        let key = host.lower (spelled host (or_blank host to)) in
        owed-Binds (find key by_name) raw e out (in_by e refl) (found-in key by_name names) rest

    pub commitment_of-Binds :
        (raw : Json) (by_name : Dict Entity) (out : Option Commitment × List Entity)
        → Names by_name
        → commitment_of host raw by_name ≡ ok out
        → Binds out
    unfolding commitment_of
    commitment_of-Binds raw by_name out names h = elim (Bool-cases (truthy host.nonzero raw)) [
      | inl e ↦
          let (by, (e1, rest)) =
            both_returned (get_or raw "owed_by" (Json.text "")) _ (rw e at h) in
          let key = host.lower (spelled host by) in
          found-Binds raw by_name (find key by_name) out names (found-in key by_name names) rest
      | inr e ↦ rw (sym (ok-inj (rw e at h))) (refl, (tt, tt))
    ]

    pub subjects_of-within :
        (by_name : Dict Entity) (vs : List Json) (out : List Entity)
        → Names by_name
        → subjects_of host by_name vs ≡ ok out
        → All (λ e. Among e entities) out
    subjects_of-within by_name [] out names h = rw (sym (ok-inj h)) tt
    subjects_of-within by_name (v ∷ vs) out names h =
        let (s, (e1, rest)) = both_returned (text_of v) _ h in
        let (later, (e2, last)) = both_returned (subjects_of host by_name vs) _ rest in
        rw (sym (ok-inj last)) (
          cons_some-All (find (host.lower s) by_name) later (found-in (host.lower s) by_name names)
            (subjects_of-within by_name vs later names e2))
