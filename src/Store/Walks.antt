-- ===== src/Store/Walks.antt =====
-- The reads of neo4j_store.py that walk paths. As in Cypher, a path never takes the same
-- relationship twice, and it is walked without regard to direction.
use memapp.Prelude.{
  ℕ, zero, suc, String, Bool, false, ◌&&◌, List, [], ◌∷◌, ◌++◌, Option, none, some, map, keep, any,
  all, gather, leb, length, contains, unique, last?, ◌==◌, if◌then◌else◌,
}
use memapp.Prelude.Order.{sort_by, pair_le}
use memapp.Store.{Label, Key, Edge, Graph, StoredNode, label_eq, hydrate, key_of, key_eq}
use memapp.Store.Writes.{owned_by, owner_of_key}
use memapp.Store.Reads.{column_is, is_owned_claim, pair_text_le}

-- One relationship of a path, and the node that it leads to
pub record Step : Type 0 where
  pub edge : Edge
  pub at : Key

-- Each edge, with the edges that are left without it
abbrev pub picks : List Edge → List (Edge × List Edge)
picks [] = []
picks (e ∷ es) = (e, es) ∷ map (λ p. (p.0, e ∷ p.1)) (picks es)

abbrev pub other_end : Key → Edge → List Key
other_end k e =
    if key_eq e.source k then e.target ∷ [] else if key_eq e.target k then e.source ∷ [] else []

-- The paths of one to `depth` relationships from a node
pub trails : ℕ → List Edge → Key → List (List Step)
trails zero edges k = []
trails (suc depth) edges k =
    gather
      (λ p.
        gather
          (λ t.
            let s : Step = record { edge = p.0; at = t } in
            (s ∷ []) ∷ map (λ path. s ∷ path) (trails depth p.1 t))
          (other_end k p.0))
      (picks edges)

-- The node at the end of a path
abbrev pub end_of : List Step → Option Key
end_of path = elim (last? path) [ none ↦ none | some s ↦ some s.at ]

-- `min(length(path))` for each end, grouped by id
abbrev pub add_hops : String → ℕ → List (String × ℕ) → List (String × ℕ)
add_hops i n [] = (i, n) ∷ []
add_hops i n ((j, m) ∷ rest) =
    if j == i then (j, (if leb m n then m else n)) ∷ rest else (j, m) ∷ add_hops i n rest

abbrev pub end_id : List Step → String
end_id path = elim (last? path) [ none ↦ "" | some s ↦ s.at.id ]

abbrev pub min_hops : List (List Step) → List (String × ℕ)
min_hops [] = []
min_hops (path ∷ paths) = add_hops (end_id path) (length path) (min_hops paths)

abbrev pub ends_in_claim : List Step → Bool
ends_in_claim path = elim (end_of path) [ none ↦ false | some k ↦ label_eq k.label Label.claim ]

module _ {V : Type 0} where
  abbrev pub is_owned_key : Graph V → String → Key → Bool
  is_owned_key g owner_id k = column_is (owner_of_key g.rows k) owner_id

  -- `ALL(n IN nodes(path) WHERE n.owner_id = $owner_id)`; the seed is matched with its owner.
  abbrev pub path_owned : Graph V → String → List Step → Bool
  path_owned g owner_id path = all (λ s. is_owned_key g owner_id s.at) path

  abbrev pub rel_edges : Graph V → String → List Edge
  rel_edges g rel = keep (λ e. e.rel == rel) g.edges

  -- The supersession run from one seed: the ends of its paths, and itself
  abbrev pub chain_keys : Graph V → String → ℕ → Key → List Key
  chain_keys g owner_id max_hops seed =
      gather (λ path. elim (end_of path) [ none ↦ [] | some k ↦ k ∷ [] ])
        (keep (λ path. ends_in_claim path && path_owned g owner_id path)
          (trails max_hops (rel_edges g "SUPERSEDES") seed))
      ++ seed ∷ []

  unfoldable pub supersession_chain : Graph V → String → String → ℕ → List StoredNode
  unfolding hydrate trails
  supersession_chain g owner_id claim_id max_hops =
      let seeds = map key_of (keep (λ r. is_owned_claim owner_id r && r.id == claim_id) g.rows) in
      let chain = gather (chain_keys g owner_id max_hops) seeds in
      map hydrate (
        sort_by (λ r s. pair_le r.occurred_at_ms r.id s.occurred_at_ms s.id)
          (keep (λ r. any (key_eq (key_of r)) chain) g.rows))

  abbrev pub owned_trails : Graph V → String → ℕ → Key → List (List Step)
  owned_trails g owner_id depth seed =
      keep (path_owned g owner_id) (trails depth (rel_edges g "CITES") seed)

  unfoldable pub cites_chain :
      Graph V → String → String → ℕ → List (String × ℕ) × List (String × String)
  unfolding trails
  cites_chain g owner_id node_id hops =
      let seeds = map key_of (keep (λ r. owned_by owner_id r && r.id == node_id) g.rows) in
      let paths = gather (owned_trails g owner_id hops) seeds in
      (
        min_hops paths,
        sort_by pair_text_le (
            unique (λ p q. p.0 == q.0 && p.1 == q.1)
              (map (λ e. (e.source.id, e.target.id)) (gather (map (λ s. s.edge)) paths))),
      )

  -- Only the two ends of a path are constrained to the owner.
  unfoldable pub neighbour_ids : Graph V → String → List String → ℕ → List (String × ℕ)
  unfolding trails
  neighbour_ids g owner_id ids hops =
      let seeds = map key_of (keep (λ r. owned_by owner_id r && contains ids r.id) g.rows) in
      min_hops (
        keep (λ path. elim (end_of path) [ none ↦ false | some k ↦ is_owned_key g owner_id k ])
          (gather (λ seed. trails hops g.edges seed) seeds))
