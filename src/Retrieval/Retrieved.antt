-- ===== src/Retrieval/Retrieved.antt =====
-- What `retrieve_stored` gives: the owner's rows that the index matched, with the scores that rank them.
use memapp.Prelude.{ℕ, String, ◌-◌, ◌≡◌, List, Among}
use memapp.Prelude.Result.{Result}
use memapp.Prelude.Dict.{Dict}
use memapp.Store.{Row, StoredNode, hydrate}
use memapp.Retrieval.{Scores, RankedNode}

module _ (scores : Scores) where
  open scores use {Score, hundredths, plus, times, decay, at_least}

  -- The scores of a ranked node: the match's own for the text; how recent it is, with a half-life of 30
  -- days; how near; and of these 60, 15 and 25 hundredths.
  pub record IsScored (now_ms : ℕ) (c : StoredNode × Score) (r : RankedNode Score) : Type 0 where
    pub node : r.node ≡ c.0
    pub semantic : r.semantic ≡ c.1
    pub recency : r.recency ≡ decay (now_ms - c.0.occurred_at_ms) 2592000000
    pub score :
        r.score
        ≡ plus
            (plus (times (hundredths 60) c.1) (times (hundredths 15) r.recency))
            (times (hundredths 25) r.proximity)

  module _ {V : Type 0} (index : ℕ → V → List (Row V × Score)) (owner_id : String) where
    -- A match: a row of the owner that the index answered for the embedding, and its score
    abbrev pub IsMatch : V → StoredNode × Score → Type 0
    IsMatch v c =
        (asked : ℕ) × ((row : Row V) × (Among (row, c.1) (index asked v)
            × ((row.owner_id ≡ owner_id) × (c.0 ≡ hydrate row))))

    -- A ranked node of a retrieval: a match, with its scores
    abbrev pub IsRetrieved : V → ℕ → RankedNode Score → Type 0
    IsRetrieved v now_ms r = (c : StoredNode × Score) × (IsMatch v c × IsScored now_ms c r)
