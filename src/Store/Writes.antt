-- ===== src/Store/Writes.antt =====
-- The writes of neo4j_store.py. A write returns the graph that it leaves, or raises and leaves none.
use memapp.Prelude.{
  ℕ, String, Bool, false, not, ◌&&◌, ◌||◌, List, [], ◌∷◌, ◌++◌, Option, none, some, map, keep, any,
  all, gather, leb, eqb, ◌==◌, if◌then◌else◌,
}
use memapp.Prelude.Texts.{codes}
use memapp.Prelude.Result.{Result, ok, err, value_error, ◌>>=◌}
use memapp.Enums.{
  FulfillmentStatus, kind_value, sensitivity_value, claim_status, fulfillment_status,
}
use memapp.Schema.{MemoryNode, Claim, node_id, node_owner, node_acl}
use memapp.Store.{
  Label, Row, Key, Edge, Graph, label_of, label_eq, text_of, occurred_at, promoted, key_eq, edge_eq,
  key_of,
}

module _ {V : Type 0} where
  -- The parameters of the statement of `upsert`
  abbrev pub row_of : MemoryNode → V → Row V
  row_of node embedding = record {
    id = node_id node;
    label = label_of node;
    owner_id = node_owner node;
    payload = node;
    text = text_of node;
    occurred_at_ms = occurred_at node;
    acl_sources = (node_acl node).sources;
    acl_sensitivity = sensitivity_value (node_acl node).sensitivity;
    acl_entity_kinds = map kind_value (node_acl node).entity_kinds;
    embedding = embedding;
    columns = promoted node;
  }

  abbrev pub has_key : Key → Row V → Bool
  has_key k r = key_eq (key_of r) k

  -- `MERGE (n:label {id}) SET …`: every match is overwritten, and a new node made if there is none
  abbrev pub merge_row : Row V → List (Row V) → List (Row V)
  merge_row r rows =
      if any (has_key (key_of r)) rows
      then map (λ s. if has_key (key_of r) s then r else s) rows
      else rows ++ r ∷ []

  unfoldable pub upsert : MemoryNode → V → Graph V → Graph V
  upsert node embedding g = record g { rows = merge_row (row_of node embedding) g.rows }

-- `str.isidentifier`, for texts in ASCII: the relationship types of the program are such texts.
abbrev pub is_name_start : ℕ → Bool
is_name_start c = leb b'a' c && leb c b'z' || leb b'A' c && leb c b'Z' || eqb c b'_'

abbrev pub is_name_char : ℕ → Bool
is_name_char c = is_name_start c || leb b'0' c && leb c b'9'

abbrev pub is_identifier : List ℕ → Bool
is_identifier [] = false
is_identifier (c ∷ cs) = is_name_start c && all is_name_char cs

-- `MERGE (a)-[:rel]->(b)`
abbrev pub merge_edge : List Edge → Edge → List Edge
merge_edge edges e = if any (λ f. edge_eq f e) edges then edges else edges ++ e ∷ []

abbrev pub merge_edges : List Edge → List Edge → List Edge
merge_edges edges [] = edges
merge_edges edges (e ∷ es) = merge_edges (merge_edge edges e) es

-- `Claim.model_validate_json`
abbrev pub validate_claim : MemoryNode → Result Claim
validate_claim (MemoryNode.claim c) = ok c
validate_claim (MemoryNode.entity e) = err value_error
validate_claim (MemoryNode.event e) = err value_error

abbrev pub with_status : String → Claim → Result Claim
with_status status c = do s ← claim_status status; ok (record c { status = s })

abbrev pub settled : FulfillmentStatus → Option ℕ → Option ℕ
settled FulfillmentStatus.opened at = none
settled FulfillmentStatus.fulfilled at = at
settled FulfillmentStatus.dropped at = at

abbrev pub with_fulfillment : FulfillmentStatus → Option ℕ → Claim → Result Claim
with_fulfillment state at c = elim c.commitment [
  | none ↦ err value_error
  | some m ↦ ok (record c {
    commitment = some (record m { fulfillment = state; settled_at_ms = settled state at });
  })
]

module _ {V : Type 0} where
  -- the nodes that `MATCH (n:Memory {id: …})` finds
  abbrev pub keys_of_id : String → List (Row V) → List Key
  keys_of_id i rows = map key_of (keep (λ r. r.id == i) rows)

  abbrev pub link_pairs : String → String → String → List (Row V) → List Edge
  link_pairs from_id rel to_id rows =
      gather (λ a. map (λ b. record { source = a; rel = rel; target = b }) (keys_of_id to_id rows))
        (keys_of_id from_id rows)

  unfoldable pub link : String → String → String → Graph V → Result (Graph V)
  link from_id rel to_id g =
      if is_identifier (codes rel)
      then ok (record g { edges = merge_edges g.edges (link_pairs from_id rel to_id g.rows) })
      else err value_error

  abbrev pub is_claim_id : String → Row V → Bool
  is_claim_id i r = label_eq r.label Label.claim && r.id == i

  -- `SET c.payload = …` and the promoted columns, on each row that passes the test
  abbrev pub set_payload : (Row V → Bool) → MemoryNode → Graph V → Graph V
  set_payload test node g = record g {
    rows =
        map (λ r. if test r then record r { payload = node; columns = promoted node } else r)
          g.rows;
  }

  -- The rows that the first statement of `_mutate_claim` returns, and the change made from the first
  abbrev pub mutate_rows :
      String → (Claim → Result Claim) → Graph V → List (Row V) → Result (Graph V × Option Claim)
  mutate_rows i mutate g [] = ok (g, none)
  mutate_rows i mutate g (r ∷ _) = do
    found ← validate_claim r.payload
    changed ← mutate found
    ok (set_payload (is_claim_id i) (MemoryNode.claim changed) g, some changed)

  unfoldable pub mutate_claim :
      String → (Claim → Result Claim) → Graph V → Result (Graph V × Option Claim)
  mutate_claim i mutate g = mutate_rows i mutate g (keep (is_claim_id i) g.rows)

  unfoldable pub set_claim_status : String → String → Graph V → Result (Graph V)
  set_claim_status i status g = do changed ← mutate_claim i (with_status status) g; ok changed.0

  unfoldable pub set_fulfillment :
      String → String → Option ℕ → Graph V → Result (Graph V × Option Claim)
  set_fulfillment i fulfillment settled_at_ms g = do
    state ← fulfillment_status fulfillment
    mutate_claim i (with_fulfillment state settled_at_ms) g

  unfoldable pub replace_payload : MemoryNode → Graph V → Graph V
  replace_payload node g = set_payload (λ r. r.id == node_id node) node g

  abbrev pub owner_of_key : List (Row V) → Key → Option String
  owner_of_key [] k = none
  owner_of_key (r ∷ rs) k = if has_key k r then some r.owner_id else owner_of_key rs k

  abbrev pub owned_by : String → Row V → Bool
  owned_by owner_id r = r.owner_id == owner_id

  -- `DETACH DELETE`: the owner's nodes, with every edge at one of them
  unfoldable pub wipe_owner : String → Graph V → Graph V
  wipe_owner owner_id g =
      let gone = map key_of (keep (owned_by owner_id) g.rows) in
      record {
        rows = keep (λ r. not (owned_by owner_id r)) g.rows;
        edges =
            keep (λ e. not (any (key_eq e.source) gone) && not (any (key_eq e.target) gone))
              g.edges;
      }
