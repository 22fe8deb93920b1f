-- ===== src/Store/Reads.antt =====
-- The reads of neo4j_store.py that look at nodes and at single edges.
use Prim.Native.Nat.{max}
use memapp.Prelude.{
  ℕ, String, Bool, true, false, ◌&&◌, ◌||◌, ◌*◌, List, [], ◌∷◌, Option, none, some, map, keep, any,
  head?, take, ltb, length, contains, unique, is_empty, ◌==◌, if◌then◌else◌,
}
use memapp.Prelude.Order.{sort_by, text_le, pair_le}
use memapp.Store.{
  Label, Row, Key, Edge, Graph, StoredNode, label_eq, label_name, hydrate, key_of, key_eq,
}
use memapp.Store.Writes.{owned_by, owner_of_key}

-- `x IS NULL OR test(x)` for a parameter of a query
abbrev pub if_given {ℓ} : {A : Type ℓ} → Option A → (A → Bool) → Bool
if_given none test = true
if_given (some a) test = test a

-- `column = value` and `column < value`, which a missing column fails
abbrev pub column_is : Option String → String → Bool
column_is none s = false
column_is (some t) s = t == s

abbrev pub column_below : Option ℕ → ℕ → Bool
column_below none n = false
column_below (some m) n = ltb m n

abbrev pub opt_le : Option ℕ → String → Option ℕ → String → Bool
opt_le none s none t = text_le s t
opt_le none s (some n) t = false
opt_le (some m) s none t = true
opt_le (some m) s (some n) t = pair_le m s n t

abbrev pub pair_text_le : String × String → String × String → Bool
pair_text_le p q = if p.0 == q.0 then text_le p.1 q.1 else text_le p.0 q.0

abbrev pub triple_text_le : String × String × String → String × String × String → Bool
triple_text_le p q = if p.0 == q.0 then pair_text_le (p.1, p.2) (q.1, q.2) else text_le p.0 q.0

abbrev pub is_about : List String → Key → Edge → Bool
is_about entity_ids k e =
    key_eq e.source k
    && (e.rel == "ABOUT"
        && (label_eq e.target.label Label.entity && contains entity_ids e.target.id))

module _ {V : Type 0} where
  unfoldable pub get : Graph V → String → Option StoredNode
  unfolding hydrate
  get g node_id = elim (head? (keep (λ r. r.id == node_id) g.rows)) [
    | none ↦ none
    | some r ↦ some (hydrate r)
  ]

  -- One entry for each label that occurs
  unfoldable pub count : Graph V → String → List (String × ℕ)
  count g owner_id =
      let of_label = λ (l : Label). keep (λ r. owned_by owner_id r && label_eq r.label l) g.rows in
      keep (λ p. ltb 0 p.1)
        (map (λ l. (label_name l, length (of_label l)))
          (Label.entity ∷ Label.event ∷ Label.claim ∷ []))

  abbrev pub is_owned_claim : String → Row V → Bool
  is_owned_claim owner_id r = label_eq r.label Label.claim && owned_by owner_id r

  unfoldable pub claims_about : Graph V → String → List String → List StoredNode
  unfolding hydrate
  claims_about g owner_id entity_ids =
      map hydrate (
        keep (λ r. is_owned_claim owner_id r && any (is_about entity_ids (key_of r)) g.edges)
          g.rows)

  -- The WHERE clause of `open_commitments`
  abbrev pub is_open : Option ℕ → Option String → Bool → Row V → Bool
  is_open due_before_ms owed_by include_superseded r =
      column_is r.columns.commitment_fulfillment "open"
      && ((include_superseded || column_is r.columns.claim_status "active")
          && (if_given due_before_ms (column_below r.columns.commitment_due_at_ms)
              && if_given owed_by (column_is r.columns.commitment_owed_by)))

  unfoldable pub open_commitments :
      Graph V → String → Option ℕ → Option String → Bool → List StoredNode
  unfolding hydrate
  open_commitments g owner_id due_before_ms owed_by include_superseded = map hydrate (
      sort_by
        (λ r s. opt_le r.columns.commitment_due_at_ms r.id s.columns.commitment_due_at_ms s.id)
        (keep (λ r. is_owned_claim owner_id r && is_open due_before_ms owed_by include_superseded r)
          g.rows))

  unfoldable pub get_many : Graph V → String → List String → List StoredNode
  unfolding hydrate
  get_many g owner_id ids =
      map hydrate (keep (λ r. owned_by owner_id r && contains ids r.id) g.rows)

  -- Both ends of an edge are nodes of the owner.
  abbrev pub ends_owned : Graph V → String → Edge → Bool
  ends_owned g owner_id e =
      column_is (owner_of_key g.rows e.source) owner_id
      && column_is (owner_of_key g.rows e.target) owner_id

  unfoldable pub conflict_links : Graph V → String → List String → List (String × String)
  conflict_links g owner_id ids = sort_by pair_text_le (
      unique (λ p q. p.0 == q.0 && p.1 == q.1)
        (map (λ e. (e.source.id, e.target.id))
          (keep
            (λ e.
              e.rel == "CONTRADICTS"
              && (label_eq e.source.label Label.claim
                  && (label_eq e.target.label Label.claim
                      && (ends_owned g owner_id e
                          && (contains ids e.source.id || contains ids e.target.id)))))
            g.edges)))

  unfoldable pub edges_among : Graph V → String → List String → List (String × String × String)
  edges_among g owner_id ids =
      if is_empty ids
      then []
      else sort_by triple_text_le (
          unique (λ p q. p.0 == q.0 && (p.1 == q.1 && p.2 == q.2))
            (map (λ e. (e.source.id, e.rel, e.target.id))
              (keep
                (λ e.
                  ends_owned g owner_id e && (contains ids e.source.id && contains ids e.target.id))
                g.edges)))

  -- The vector index is Neo4j's own: `index k embedding` lists the rows that it answers, with scores.
  unfoldable pub vector_search :
      {S : Type 0} → (ℕ → V → List (Row V × S)) → String → V → ℕ → List (StoredNode × S)
  unfolding hydrate
  vector_search index owner_id embedding top_k = take top_k (
      map (λ p. (hydrate p.0, p.1))
        (keep (λ p. owned_by owner_id p.0) (index (max (top_k * 4) top_k) embedding)))
