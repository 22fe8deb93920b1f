-- ===== src/Retrieval.antt =====
-- retrieval/ranking.py and `retrieve_stored` of retrieval/index.py. Scores are floats, which stand here
-- as a parameter with the operations that the code uses.
pub mod Retrieved
use Prim.Native.Nat.{max}
use memapp.Prelude.{
  ℕ, String, Bool, List, [], ◌∷◌, Option, none, some, map, take, length, is_empty, ◌-◌, ◌*◌, ◌/◌,
  if◌then◌else◌,
}
use memapp.Prelude.Dict.{Dict, find}
use memapp.Prelude.Order.{sort_by}
use memapp.Prelude.Result.{Result, ok, ◌>>=◌}
use memapp.Store.{StoredNode, Graph, Row}
use memapp.Store.Reads.{vector_search}
use memapp.Store.Walks.{neighbour_ids}

pub record Scores : Type 1 where
  pub Score : Type 0
  pub zero_score : Score
  -- n / 100
  pub hundredths : ℕ → Score
  pub plus : Score → Score → Score
  pub times : Score → Score → Score
  -- exp(-(age / half_life))
  pub decay : (age half_life : ℕ) → Score
  -- 1.0 / float(n), which raises at 0
  pub inverse : ℕ → Result Score
  pub at_least : Score → Score → Bool

abbrev pub recency_half_life_ms : ℕ
recency_half_life_ms = 30 * 86_400_000

pub record RankedNode (S : Type 0) : Type 0 where
  pub node : StoredNode
  pub score : S
  pub semantic : S
  pub recency : S
  pub proximity : S

module _ (scores : Scores) where
  open scores use {Score, zero_score, hundredths, plus, times, decay, inverse, at_least}

  abbrev pub recency_score : ℕ → ℕ → Score
  recency_score occurred_at_ms now_ms = decay (now_ms - occurred_at_ms) recency_half_life_ms

  unfoldable pub proximity_score : Option ℕ → Result Score
  proximity_score none = ok zero_score
  proximity_score (some hops) = inverse hops

  unfoldable pub ranked_node : Dict ℕ → ℕ → StoredNode × Score → Result (RankedNode Score)
  unfolding proximity_score
  ranked_node hops_by_id now_ms (node, semantic) = do
    let rec = recency_score node.occurred_at_ms now_ms
    prox ← proximity_score (find node.id hops_by_id)
    ok (record {
      node = node;
      score =
          plus (plus (times (hundredths 60) semantic) (times (hundredths 15) rec))
            (times (hundredths 25) prox);
      semantic = semantic;
      recency = rec;
      proximity = prox;
    })

  unfoldable pub ranked_nodes :
      Dict ℕ → ℕ → List (StoredNode × Score) → Result (List (RankedNode Score))
  unfolding ranked_node
  ranked_nodes hops_by_id now_ms [] = ok []
  ranked_nodes hops_by_id now_ms (c ∷ candidates) = do
    r ← ranked_node hops_by_id now_ms c
    rest ← ranked_nodes hops_by_id now_ms candidates
    ok (r ∷ rest)

  -- A stable sort, the highest score first
  unfoldable pub rank : List (StoredNode × Score) → Dict ℕ → ℕ → Result (List (RankedNode Score))
  unfolding ranked_nodes
  rank candidates hops_by_id now_ms = do
    ranked ← ranked_nodes hops_by_id now_ms candidates
    ok (sort_by (λ a b. at_least a.score b.score) ranked)

  -- The strongest third of the matches, and at least one
  abbrev pub seed_ids : List (StoredNode × Score) → List String
  seed_ids candidates = map (λ p. p.0.id) (take (max (length candidates / 3) 1) candidates)

  module _ {V : Type 0} where
    unfoldable pub retrieve_stored :
        Graph V
        → (ℕ → V → List (Row V × Score))
        → (String → Result V)
        → String
        → ℕ
        → ℕ
        → String
        → Result (List (RankedNode Score))
    unfolding rank
    retrieve_stored g index embed owner_id top_k now_ms query = do
      v ← embed query
      let candidates = vector_search index owner_id v (top_k * 2)
      if is_empty candidates then ok [] else do
        let hops_by_id = neighbour_ids g owner_id (seed_ids candidates) 2
        ranked ← rank candidates hops_by_id now_ms
        ok (take top_k ranked)
