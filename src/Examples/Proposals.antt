-- ===== src/Examples/Proposals.antt =====
-- A record about a promise, and the model's answer to it.
use memapp.Prelude.{
  String, ◌≡◌, refl, inl, true, false, none, some, List, [], ◌∷◌, ◌==◌, if◌then◌else◌, All, Among,
}
use memapp.Prelude.Result.{Result, ok, err, ◌>>=◌}
use memapp.Permissions.{permits, evaluate}
use memapp.Schema.{RawRecord, Claim, Candidate}
use memapp.Connectors.Json.{Json, Items, Fields}
use memapp.Extraction.{Host}
use memapp.Extraction.Contract.{IsProposal, IsGranted}
use memapp.Extraction.Llm.{event_of, to_candidate}
use memapp.Extraction.Llm.Clock.{stamp}
use memapp.Extraction.Llm.Again.{to_candidate-stamp}
use memapp.Extraction.Llm.Proposals.{to_candidate-IsProposal}
use memapp.Extraction.Llm.Visibility.{to_candidate-IsGranted}
use memapp.Examples.Samples.{scope, postgres}

-- Lower case and digests that change nothing, and one date
abbrev pub host : Host
host = record {
  lower = λ s. s;
  digest = λ s. s;
  str_of = λ v. "None";
  parse_date = λ s. if s == "2025-02-14" then some 70 else none;
  to_confidence = λ v. ok 700;
  nonzero = λ literal. true;
}

abbrev pub mail : RawRecord
mail = record {
  external_id = "mail-7";
  connector = "mock";
  occurred_at_ms = 40;
  title = "Budget";
  body = "Ann committed to Bo that project Atlas will ship by 2025-02-14.";
  url = none;
  sensitive = false;
  participants = [];
  metadata = [];
}

abbrev named : String → String → Json
named kind name =
    Json.object
      (Fields.field "kind" (Json.text kind) (Fields.field "name" (Json.text name) Fields.no_fields))

abbrev promise : Json
promise = Json.object (
    Fields.field "owed_by" (Json.text "Ann") (
      Fields.field "owed_to" (Json.text "Bo")
        (Fields.field "due_at" (Json.text "2025-02-14") Fields.no_fields)))

abbrev answer : Json
answer = Json.object (
    Fields.field "entities"
      (Json.array (
        Items.item (named "person" "Ann")
          (Items.item (named "person" "Bo") (Items.item (named "topic" "Atlas") Items.no_items))))
      (Fields.field "claims"
        (Json.array (
          Items.item
            (Json.object (
              Fields.field "statement" (Json.text "project Atlas will ship") (
                Fields.field "subjects" (Json.array (Items.item (Json.text "Atlas") Items.no_items))
                  (Fields.field "commitment" promise Fields.no_fields))))
            Items.no_items))
        Fields.no_fields))

abbrev pub none_proposed : Candidate
none_proposed = record { entities = []; events = []; claims = [] }

abbrev pub value_or {ℓ} : {A : Type ℓ} → A → Result A → A
value_or a (err raised) = a
value_or a (ok value) = value

unfoldable proposed : Candidate
unfolding to_candidate
proposed = value_or none_proposed (to_candidate host "ann" mail "claude" 50 answer)

answer_read : to_candidate host "ann" mail "claude" 50 answer ≡ ok proposed
unfolding proposed to_candidate
answer_read = refl

to_candidate-IsProposal_example :
    (proposed.events ≡ event_of host "ann" mail "claude" 50 proposed.entities ∷ [])
    × All (IsProposal host "ann" mail proposed.entities) proposed.claims
to_candidate-IsProposal_example =
    to_candidate-IsProposal host "ann" mail "claude" 50 answer proposed answer_read

abbrev claim_or_sample : List Claim → Claim
claim_or_sample [] = postgres
claim_or_sample (c ∷ cs) = c

unfoldable first_claim : Claim
unfolding proposed
first_claim = claim_or_sample proposed.claims

first_claim_proposed : Among first_claim proposed.claims
unfolding first_claim
first_claim_proposed = inl refl

first_claim_seen : permits scope first_claim.acl 60 ≡ true
unfolding first_claim permits evaluate
first_claim_seen = refl

to_candidate-IsGranted_example : IsGranted "ann" scope mail proposed.entities first_claim
to_candidate-IsGranted_example =
    to_candidate-IsGranted host "ann" mail scope 60 "claude" 50 answer proposed first_claim
      answer_read first_claim_proposed first_claim_seen

to_candidate-stamp_example : to_candidate host "ann" mail "claude" 90 answer ≡ (
    to_candidate host "ann" mail "claude" 50 answer
    >>= (λ c. ok (stamp host "ann" mail "claude" 90 c)))
to_candidate-stamp_example = to_candidate-stamp host "ann" mail "claude" 50 90 answer
