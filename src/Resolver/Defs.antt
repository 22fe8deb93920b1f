-- ===== src/Resolver/Defs.antt =====
-- `Resolver` of resolution/resolver.py. A claim of the batch is one object: the list of earlier claims
-- holds the same objects as the resolutions, so what a later claim does to it shows in both. The model
-- keeps the claims in the resolutions made so far and changes them there. A stored claim is read anew
-- for each claim, so what is done to that copy is dropped.
use memapp.Prelude.{
  String, Bool, true, false, not, ◌&&◌, ◌||◌, List, [], ◌∷◌, ◌++◌, Option, none, some, keep_some,
  ltb, eqb, ◌==◌, if◌then◌else◌,
}
use memapp.Enums.{ClaimStatus, is_active}
use memapp.Schema.{Claim, Candidate, MemoryNode}
use memapp.Store.{Graph, StoredNode}
use memapp.Store.Reads.{get, claims_about}
use memapp.Resolver.Topics.{topic, tokens, same_set, obligation, same_obligation}

pub record Links : Type 0 where
  pub supersessions : List (String × String)
  pub contradictions : List (String × String)

abbrev pub no_links : Links
no_links = record { supersessions = []; contradictions = [] }

abbrev pub join_links : Links → Links → Links
join_links a b = record {
  supersessions = a.supersessions ++ b.supersessions;
  contradictions = a.contradictions ++ b.contradictions;
}

-- The tests by which the loop goes on to the next claim
abbrev pub is_unrelated : Claim → Claim → Bool
is_unrelated claim other =
    other.id == claim.id
    || (not (same_set (topic other.statement) (topic claim.statement))
        || (same_set (tokens other.statement) (tokens claim.statement)
              && same_obligation (obligation other) (obligation claim)
            || not (is_active other.status)))

-- The two objects after one round of the loop, and what was recorded
pub record Met : Type 0 where
  pub claim : Claim
  pub other : Claim
  pub links : Links

abbrev pub take_over : Claim → Claim → Met
take_over claim other = record {
  claim = record claim { supersedes = claim.supersedes ++ other.id ∷ [] };
  other = record other { status = ClaimStatus.superseded };
  links = record { supersessions = (claim.id, other.id) ∷ []; contradictions = [] };
}

abbrev pub clash : Claim → Claim → Met
clash claim other = record {
  claim = record claim {
    contradicts = claim.contradicts ++ other.id ∷ [];
    status = ClaimStatus.contradicted;
  };
  other = other;
  links = record { supersessions = []; contradictions = (claim.id, other.id) ∷ [] };
}

abbrev pub arrive_late : Claim → Claim → Met
arrive_late claim other = record {
  claim = record claim { status = ClaimStatus.superseded };
  other = other;
  links = record { supersessions = (other.id, claim.id) ∷ []; contradictions = [] };
}

unfoldable pub meet : Claim → Claim → Met
meet claim other =
    if is_unrelated claim other
    then record { claim = claim; other = other; links = no_links }
    else if ltb other.asserted_at_ms claim.asserted_at_ms
    then take_over claim other
    else if eqb claim.asserted_at_ms other.asserted_at_ms
    then clash claim other
    else arrive_late claim other

-- The loop over a list of existing claims
pub record Passed (L : Type 0) : Type 0 where
  pub claim : Claim
  pub others : L
  pub links : Links

unfoldable pub pass_over : Claim → List Claim → Passed (List Claim)
pass_over claim [] = record { claim = claim; others = []; links = no_links }
pass_over claim (other ∷ rest) =
    let met = meet claim other in
    let later = pass_over met.claim rest in
    record {
      claim = later.claim;
      others = met.other ∷ later.others;
      links = join_links met.links later.links;
    }

pub record Resolution : Type 0 where
  pub new_claims : List Claim
  pub links : Links
  pub duplicates : List String

-- The loop over the claims of the records before, where they stand
unfoldable pub pass_done : Claim → List Resolution → Passed (List Resolution)
unfolding pass_over
pass_done claim [] = record { claim = claim; others = []; links = no_links }
pass_done claim (r ∷ rest) =
    let here = pass_over claim r.new_claims in
    let later = pass_done here.claim rest in
    record {
      claim = later.claim;
      others = record r { new_claims = here.others } ∷ later.others;
      links = join_links here.links later.links;
    }

abbrev pub claim_node : StoredNode → Option Claim
claim_node s = elim s.node [
  | MemoryNode.claim c ↦ some c
  | MemoryNode.entity e ↦ none
  | MemoryNode.event e ↦ none
]

-- What the calls know: the resolutions of the records before, and that of this one
pub record Session : Type 0 where
  pub done : List Resolution
  pub current : Resolution

abbrev pub fresh : Resolution
fresh = record { new_claims = []; links = no_links; duplicates = [] }

module _ {V : Type 0} (g : Graph V) (owner_id : String) where
  -- `self._store.get(claim.id) is not None`
  abbrev pub is_stored : Claim → Bool
  is_stored claim = elim (get g claim.id) [ none ↦ false | some s ↦ true ]

  abbrev pub stored_about : Claim → List Claim
  stored_about claim = keep_some claim_node (claims_about g owner_id claim.subject_entity_ids)

  abbrev pub duplicate : Claim → Session → Session
  duplicate claim s = record s {
    current = record s.current { duplicates = s.current.duplicates ++ claim.id ∷ [] };
  }

  -- `existing = stored + prior`, in this order
  unfoldable pub admit : Claim → Session → Session
  admit claim s =
      let a = pass_over claim (stored_about claim) in
      let b = pass_done a.claim s.done in
      let c = pass_over b.claim s.current.new_claims in
      record {
        done = b.others;
        current = record {
          new_claims = c.others ++ c.claim ∷ [];
          links = join_links s.current.links (join_links a.links (join_links b.links c.links));
          duplicates = s.current.duplicates;
        };
      }

  unfoldable pub resolve_claim : Claim → Session → Session
  resolve_claim claim s = if is_stored claim then duplicate claim s else admit claim s

  unfoldable pub resolve_claims : List Claim → Session → Session
  unfolding resolve_claim
  resolve_claims [] s = s
  resolve_claims (claim ∷ rest) s = resolve_claims rest (resolve_claim claim s)

  -- One candidate, against the resolutions that the batch made before it
  unfoldable pub resolve : List Resolution → Candidate → Session
  unfolding resolve_claims
  resolve done candidate = resolve_claims candidate.claims (record { done = done; current = fresh })

  unfoldable pub resolve_from : List Resolution → List Candidate → List Resolution
  unfolding resolve
  resolve_from done [] = done
  resolve_from done (candidate ∷ rest) =
      let s = resolve done candidate in resolve_from (s.done ++ s.current ∷ []) rest

  unfoldable pub resolve_batch : List Candidate → List Resolution
  unfolding resolve_from
  resolve_batch candidates = resolve_from [] candidates
