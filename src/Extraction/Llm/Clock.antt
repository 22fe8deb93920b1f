-- ===== src/Extraction/Llm/Clock.antt =====
-- An answer that is read at another time.
use memapp.Prelude.{
  ℕ, String, ◌≡◌, refl, ap, inl, inr, Option, none, some, List, [], ◌∷◌, ◌++◌, map, Bool-cases,
  cons_some,
}
use memapp.Prelude.Dict.{Dict, find, map_values, map_found, find-map_values}
use memapp.Prelude.Result.{Result, ok, err, ◌>>=◌}
use memapp.Schema.{RawRecord, Entity, Event, Claim, Commitment, Candidate}
use memapp.Connectors.Json.{Json}
use memapp.Connectors.Json.Reading.{get_or, text_of, truthy}
use memapp.Extraction.{Host, source_of}
use memapp.Extraction.Contract.{ids_of, kinds_of}
use memapp.Extraction.Llm.{
  Known, due_ms, spelled, or_blank, owed, owed_by_found, commitment_of, provenance, subjects_of,
}

-- Two runs that agree up to a change of their values go on to agree.
pub then_changed {ℓ κ μ ν} :
    {A : Type ℓ} {B : Type κ} {C : Type μ} {D : Type ν} (call : Result A) (other : Result B)
    (h : A → B) (next : A → Result C) (after : B → Result D) (g : C → D)
    → other ≡ (call >>= (λ a. ok (h a)))
    → ((a : A) → after (h a) ≡ (next a >>= (λ c. ok (g c))))
    → (other >>= after) ≡ ((call >>= next) >>= (λ c. ok (g c)))
then_changed (err e) other h next after g same goes_on = rw same
then_changed (ok a) other h next after g same goes_on = rw same (goes_on a)

pub then_same {ℓ μ ν} :
    {A : Type ℓ} {C : Type μ} {D : Type ν} (call : Result A) (next : A → Result C)
    (after : A → Result D) (g : C → D)
    → ((a : A) → after a ≡ (next a >>= (λ c. ok (g c))))
    → (call >>= after) ≡ ((call >>= next) >>= (λ c. ok (g c)))
then_same (err e) next after g goes_on = refl
then_same (ok a) next after g goes_on = goes_on a

pub map-append {ℓ κ} :
    {A : Type ℓ} {B : Type κ} (f : A → B) (xs ys : List A) → map f (xs ++ ys) ≡ map f xs ++ map f ys
map-append f [] ys = refl
map-append f (x ∷ xs) ys = ap (◌∷◌ (f x)) (map-append f xs ys)

cons_some-map {ℓ κ} :
    {A : Type ℓ} {B : Type κ} (f : A → B) (o : Option A) (xs : List A)
    → cons_some (map_found f o) (map f xs) ≡ map f (cons_some o xs)
cons_some-map f none xs = refl
cons_some-map f (some a) xs = refl

module _ (host : Host) (owner_id : String) (r : RawRecord) (derived_by : String)
    (later_ms : ℕ) where
  -- An entity, a claim and an event as a reading at the later time stamps them
  abbrev pub stamp_entity : Entity → Entity
  stamp_entity e = record e {
    provenance = provenance host owner_id r derived_by later_ms e.name 900;
  }

  abbrev pub stamp_claim : Claim → Claim
  stamp_claim c = record c {
    provenance = provenance host owner_id r derived_by later_ms c.statement c.provenance.confidence;
  }

  abbrev pub stamp_event : Event → Event
  stamp_event e = record e {
    source = source_of r later_ms;
    provenance = provenance host owner_id r derived_by later_ms r.title 1000;
  }

  abbrev pub stamp : Candidate → Candidate
  stamp c = record {
    entities = map stamp_entity c.entities;
    events = map stamp_event c.events;
    claims = map stamp_claim c.claims;
  }

  abbrev pub stamp_known : Known → Known
  stamp_known known = record {
    entities = map stamp_entity known.entities;
    by_name = map_values stamp_entity known.by_name;
  }

  pub stamp-ids_of : (es : List Entity) → ids_of (map stamp_entity es) ≡ ids_of es
  stamp-ids_of [] = refl
  stamp-ids_of (e ∷ es) = ap (◌∷◌ e.id) (stamp-ids_of es)

  pub stamp-kinds_of : (es : List Entity) → kinds_of (map stamp_entity es) ≡ kinds_of es
  stamp-kinds_of [] = refl
  stamp-kinds_of (e ∷ es) = ap (◌∷◌ e.kind) (stamp-kinds_of es)

  abbrev pub stamp_owed : Option Commitment × List Entity → Option Commitment × List Entity
  stamp_owed out = (out.0, map stamp_entity out.1)

  owed-stamp :
      (to : Option Entity) (raw : Json) (by : Entity)
      → owed host (map_found stamp_entity to) raw (stamp_entity by)
        ≡ (owed host to raw by >>= (λ out. ok (stamp_owed out)))
  owed-stamp none raw by =
      then_same (get_or raw "due_at" Json.null) _ _ stamp_owed
        (λ date. then_same (due_ms host date) _ _ stamp_owed (λ due. refl))
  owed-stamp (some e) raw by =
      then_same (get_or raw "due_at" Json.null) _ _ stamp_owed
        (λ date. then_same (due_ms host date) _ _ stamp_owed (λ due. refl))

  found-stamp :
      (raw : Json) (by_name : Dict Entity) (by : Option Entity)
      → owed_by_found host raw (map_values stamp_entity by_name) (map_found stamp_entity by)
        ≡ (owed_by_found host raw by_name by >>= (λ out. ok (stamp_owed out)))
  found-stamp raw by_name none = refl
  found-stamp raw by_name (some by) =
      then_same (get_or raw "owed_to" Json.null) _ _ stamp_owed (λ to.
        rw (find-map_values stamp_entity (host.lower (spelled host (or_blank host to))) by_name)
          (owed-stamp (find (host.lower (spelled host (or_blank host to))) by_name) raw by))

  pub commitment_of-stamp :
      (raw : Json) (by_name : Dict Entity)
      → commitment_of host raw (map_values stamp_entity by_name)
        ≡ (commitment_of host raw by_name >>= (λ out. ok (stamp_owed out)))
  unfolding commitment_of
  commitment_of-stamp raw by_name = elim (Bool-cases (truthy host.nonzero raw)) [
    | inl e ↦ rw e (
        then_same (get_or raw "owed_by" (Json.text "")) _ _ stamp_owed (λ by.
          rw (find-map_values stamp_entity (host.lower (spelled host by)) by_name)
            (found-stamp raw by_name (find (host.lower (spelled host by)) by_name))))
    | inr e ↦ rw e
  ]

  pub subjects_of-stamp :
      (by_name : Dict Entity) (vs : List Json)
      → subjects_of host (map_values stamp_entity by_name) vs
        ≡ (subjects_of host by_name vs >>= (λ es. ok (map stamp_entity es)))
  subjects_of-stamp by_name [] = refl
  subjects_of-stamp by_name (v ∷ vs) = then_same (text_of v) _ _ (map stamp_entity) (λ s.
      then_changed (subjects_of host by_name vs) _ (map stamp_entity) _ _ (map stamp_entity)
        (subjects_of-stamp by_name vs)
        (λ es.
          rw (find-map_values stamp_entity (host.lower s) by_name)
            (ap ok (cons_some-map stamp_entity (find (host.lower s) by_name) es))))
