-- ===== src/Extraction/Llm/Visibility.antt =====
-- Which agents may see a claim that the extractor proposed.
use memapp.Prelude.{ℕ, String, ◌≡◌, true, Among, All-Among}
use memapp.Permissions.{Scope, permits}
use memapp.Prelude.Result.{ok}
use memapp.Schema.{RawRecord, Claim, Candidate}
use memapp.Connectors.Json.{Json}
use memapp.Extraction.{Host}
use memapp.Extraction.Llm.{to_candidate}
use memapp.Extraction.Llm.Proposals.{to_candidate-IsProposal}
use memapp.Extraction.Contract.{IsProposal, IsGranted, IsProposal-IsGranted}

module _ (host : Host) (owner_id : String) (r : RawRecord) (scope : Scope) (at_ms : ℕ) where
  -- If the model's answer is read and a scope may see one of the claims proposed, then the scope is the
  -- owner's, grants the record's source, reaches the record's sensitivity, and grants the kind of each
  -- entity that the claim is about and of each party that its commitment binds.
  pub to_candidate-IsGranted :
      (derived_by : String) (now_ms : ℕ) (parsed : Json) (c : Candidate) (claim : Claim)
      → to_candidate host owner_id r derived_by now_ms parsed ≡ ok c
      → Among claim c.claims
      → permits scope claim.acl at_ms ≡ true
      → IsGranted owner_id scope r c.entities claim
  to_candidate-IsGranted derived_by now_ms parsed c claim h among seen =
      let (events, proposals) =
        to_candidate-IsProposal host owner_id r derived_by now_ms parsed c h in
      let p = All-Among (IsProposal host owner_id r c.entities) claim c.claims proposals among in
      IsProposal-IsGranted host owner_id r scope at_ms c.entities claim p seen
