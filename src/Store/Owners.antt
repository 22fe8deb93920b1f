-- ===== src/Store/Owners.antt =====
-- What `wipe_owner` of neo4j_store.py leaves of one owner, and of the others.
use memapp.Prelude.{
  ℕ, String, ◌≡◌, refl, ap, inl, inr, Bool, true, false, not, ◌&&◌, Option, List, [], ◌∷◌, map,
  arith, ◌==◌, eq_iff, if◌then◌else◌, Bool-cases, any, keep, contains,
}
use memapp.Store.{Row, Graph, Label, label_eq, key_of, hydrate}
use memapp.Store.Coherence.{due_sorted}
use memapp.Store.Writes.{owned_by, wipe_owner}
use memapp.Store.Reads.{is_owned_claim, is_open, is_about, get_many, claims_about, open_commitments}

module _ {A : Type 0} (p q : A → Bool) where
  keep-none : ((x : A) → q x ≡ true → p x ≡ false) → (xs : List A) → keep p (keep q xs) ≡ []
  keep-none h [] = refl
  keep-none h (x ∷ xs) = elim (Bool-cases (q x)) [
    | inl e ↦ rw (e, h x e) (keep-none h xs)
    | inr e ↦ rw e (keep-none h xs)
  ]

  keep-rest : ((x : A) → q x ≡ false → p x ≡ false) → (xs : List A) → keep p (keep q xs) ≡ keep p xs
  keep-rest h [] = refl
  keep-rest h (x ∷ xs) = elim (Bool-cases (q x)) [
    | inl e ↦ rw e (ap (λ l. if p x then x ∷ l else l) (keep-rest h xs))
    | inr e ↦ rw (e, h x e) (keep-rest h xs)
  ]

-- One owner's memory is gone, and the other's nodes and commitments are as before.
pub record IsErased {V : Type 0} (g g' : Graph V) (owner other : String) : Type 0 where
  pub no_nodes : (ids : List String) → get_many g' owner ids ≡ []
  pub no_claims : (entities : List String) → claims_about g' owner entities ≡ []
  pub no_commitments :
      (due : Option ℕ) (owed_by : Option String) (all_states : Bool)
      → open_commitments g' owner due owed_by all_states ≡ []
  pub other_nodes : (ids : List String) → get_many g' other ids ≡ get_many g other ids
  pub other_commitments :
      (due : Option ℕ) (owed_by : Option String) (all_states : Bool)
      → open_commitments g' other due owed_by all_states
        ≡ open_commitments g other due owed_by all_states

no_claim : (b c : Bool) → (b && false) && c ≡ false
no_claim b c = ground arith

module _ {V : Type 0} (owner : String) where
  abbrev pub stays : Row V → Bool
  stays r = not (owned_by owner r)

  gone : (b c : Bool) (r : Row V) → stays r ≡ true → (b && owned_by owner r) && c ≡ false
  gone b c r h = ground arith

  gone_first : (c : Bool) (r : Row V) → stays r ≡ true → owned_by owner r && c ≡ false
  gone_first c r h = ground arith

  module _ (other : String) (apart : (other == owner) ≡ false) where
    not_other : (r : Row V) → stays r ≡ false → owned_by other r ≡ false
    not_other r h =
        ground (arith, eq_iff r.owner_id owner, eq_iff r.owner_id other, eq_iff other owner)

    -- Wiping an owner leaves no node, claim or commitment of that owner to any read, and every node and
    -- open commitment of another owner as it was.
    pub wipe_owner-IsErased : (g : Graph V) → IsErased g (wipe_owner owner g) owner other
    unfolding wipe_owner get_many claims_about open_commitments
    wipe_owner-IsErased g = record {
      no_nodes = λ ids.
          ap (map hydrate) (keep-none _ stays (λ r. gone_first (contains ids r.id) r) g.rows);
      no_claims = λ entities. ap (map hydrate) (
          keep-none
            (λ r.
              is_owned_claim owner r
              && any (is_about entities (key_of r)) (wipe_owner owner g).edges)
            stays
            (λ r.
              gone (label_eq r.label Label.claim)
                (any (is_about entities (key_of r)) (wipe_owner owner g).edges) r)
            g.rows);
      no_commitments = λ due owed_by all_states.
          ap (λ rows. map hydrate (due_sorted rows))
            (keep-none (λ r. is_owned_claim owner r && is_open due owed_by all_states r) stays
              (λ r. gone (label_eq r.label Label.claim) (is_open due owed_by all_states r) r)
              g.rows);
      other_nodes = λ ids. ap (map hydrate) (
          keep-rest (λ r. owned_by other r && contains ids r.id) stays
            (λ r h. rw (not_other r h) refl) g.rows);
      other_commitments = λ due owed_by all_states.
          ap (λ rows. map hydrate (due_sorted rows))
            (keep-rest (λ r. is_owned_claim other r && is_open due owed_by all_states r) stays
              (λ r h.
                rw (not_other r h)
                  (no_claim (label_eq r.label Label.claim) (is_open due owed_by all_states r)))
              g.rows);
    }
