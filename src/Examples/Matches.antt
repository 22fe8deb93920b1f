-- ===== src/Examples/Matches.antt =====
-- A retrieval of two stored claims, with natural numbers for scores.
use memapp.Prelude.{ℕ, zero, suc, ◌+◌, ◌*◌, ◌/◌, ◌≡◌, refl, List, [], ◌∷◌, leb, length}
use Prim.Native.Nat.{max}
use memapp.Prelude.Result.{Result, ok, err, value_error}
use memapp.Schema.{MemoryNode}
use memapp.Store.{Row}
use memapp.Store.Reads.{vector_search}
use memapp.Store.Walks.{neighbour_ids}
use memapp.Store.Writes.{row_of}
use memapp.Retrieval.{Scores, RankedNode, retrieve_stored}
use memapp.Examples.Samples.{postgres, owed, memory, embed}
use memapp.Examples.Proposals.{value_or}

abbrev inverse_of : ℕ → Result ℕ
inverse_of zero = err value_error
inverse_of (suc n) = ok (100 / suc n)

abbrev points : Scores
points = record {
  Score = ℕ;
  zero_score = 0;
  hundredths = λ n. n;
  plus = λ a b. a + b;
  times = λ a b. a * b;
  decay = λ age half_life. half_life / max 1 age;
  inverse = inverse_of;
  at_least = λ a b. leb b a;
}

abbrev matched : ℕ → ℕ → List (Row ℕ × ℕ)
matched k v =
    (row_of (MemoryNode.claim owed) 0, 70) ∷ (row_of (MemoryNode.claim postgres) 0, 90) ∷ []

unfoldable found : List (RankedNode ℕ)
unfolding retrieve_stored vector_search neighbour_ids
found = value_or [] (retrieve_stored points memory matched embed "ann" 1 60 "Which database?")

found_one : length found ≡ 1
unfolding found retrieve_stored vector_search neighbour_ids
found_one = refl
