-- ===== src/Graphs/History/Shift.antt =====
-- `build_shift_graph` and `why_did_this_shift` of graphs/history.py.
pub mod Veil
pub mod Assembly
pub mod Secrecy
use memapp.Prelude.{
  ℕ, zero, suc, String, ◌+◌, ◌-◌, ◌*◌, ◌/◌, ◌%◌, ◌≤◌, ◌<◌, ◌≡◌, ◌≢◌, refl, sym, ap, ◌∙◌, ◌↔◌, ◌⊎◌,
  inl, inr, Bool, true, false, not, ◌&&◌, ◌||◌, Option, none, some, List, [], ◌∷◌, ◌++◌, map, Memᴰ,
  arith, ◌==◌, eq_iff, ltb, leb, eqb, if◌then◌else◌, Bool-cases, Option-cases, and_true, leb→le,
  ltb→lt, length, is_empty, any, all, keep, first, head?, last?, take, drop, All, gather, keep_some,
  contains, unique, distinct, length-append, length-take-le, length-keep-le, length-keep-add,
  All-append, All-keep, keep-All, length-map, map-All,
}
use memapp.Prelude.Dict.{Dict, find, put_all, has, values, keys}
use memapp.Prelude.Order.{sort_by, sorted_set, pair_le}
use memapp.Prelude.Texts.{join, spaced, decimal, ◌<>◌}
use memapp.Prelude.Result.{Result, ok, ◌>>=◌}
use memapp.Permissions.{Scope}
use memapp.Schema.{Claim, MemoryNode}
use memapp.Store.{Graph, StoredNode, Label, label_eq}
use memapp.Store.Reads.{get_many, conflict_links}
use memapp.Store.Walks.{supersession_chain}
use memapp.Graphs.Checked.{
  Found, Denial, Checks, found_of, verdict_of, check_permissions, authorize,
}
use memapp.Graphs.History.Views.{
  Printer, ClaimView, StepView, ConflictView, claim_view, step, shift_text, passes,
}

pub record ReconciliationView : Type 0 where
  pub claim : ClaimView
  pub reconciled_into : ClaimView

pub record ShiftHistory : Type 0 where
  pub claim_id : String
  pub answered : Bool
  pub text : String
  pub chain : List ClaimView
  pub steps : List StepView
  pub conflicts : List ConflictView
  pub reconciliations : List ReconciliationView
  pub denied : List Denial
  pub considered : ℕ

-- What the walk leaves in the state
pub record Walk : Type 0 where
  pub candidates : List Found
  pub edges : List (String × String)
  pub in_chain : List String

abbrev pub claim_of : MemoryNode → Option Claim
claim_of (MemoryNode.claim c) = some c
claim_of (MemoryNode.entity e) = none
claim_of (MemoryNode.event e) = none

abbrev pub non_empty : Option String → Option String
non_empty none = none
non_empty (some t) = if t == "" then none else some t

-- `claim.reconciled_into`, where it is neither absent nor empty
abbrev pub target_of : Claim → Option String
target_of c = non_empty c.reconciled_into

abbrev pub target_ids : StoredNode → List String
target_ids s = elim (claim_of s.node) [
  | none ↦ []
  | some c ↦ elim (target_of c) [ none ↦ [] | some t ↦ t ∷ [] ]
]

unfoldable pub walk : {V : Type 0} → Graph V → String → String → Walk
walk g owner_id claim_id =
    let chain = supersession_chain g owner_id claim_id 24 in
    let ids = map (λ s. s.id) chain in
    let links = if is_empty ids then [] else conflict_links g owner_id ids in
    let extra =
      keep (λ i. not (contains ids i))
        (gather target_ids chain ++ gather (λ p. p.0 ∷ p.1 ∷ []) links) in
    let found = chain ++ (if is_empty extra then [] else get_many g owner_id (sorted_set extra)) in
    record {
      candidates = map found_of (keep (λ s. label_eq s.label Label.claim) found);
      edges = links;
      in_chain = ids;
    }

-- `_stored(candidates)`, which holds claims alone
abbrev pub claim_entry : Found → Option (String × Claim)
claim_entry c = elim (claim_of c.node) [ none ↦ none | some m ↦ some (c.id, m) ]

abbrev pub stored : List Found → Dict Claim
stored candidates = put_all (keep_some claim_entry candidates) []

abbrev pub claim_le : Claim → Claim → Bool
claim_le a b = pair_le a.asserted_at_ms a.id b.asserted_at_ms b.id

module _ (verdicts : Dict (Option String)) where
  abbrev pub view : Claim → ClaimView
  view c = claim_view c (verdict_of verdicts c.id)

  -- `claims.get(superseded_id)`, passed over if it is missing
  abbrev pub step_to : Claim → Option Claim → Option StepView
  step_to c none = none
  step_to c (some earlier) = some (step c earlier verdicts)

  abbrev pub steps_of : Dict Claim → Claim → List StepView
  steps_of claims c = keep_some (λ i. step_to c (find i claims)) c.supersedes

  abbrev pub steps : Dict Claim → List StepView
  steps claims = gather (steps_of claims) (sort_by claim_le (values claims))

  abbrev pub conflict_of : String → String → Option Claim → Option Claim → Option ConflictView
  conflict_of a b (some x) (some y) = some (record {
    claim = claim_view x (verdict_of verdicts a);
    contradicts = claim_view y (verdict_of verdicts b);
  })
  conflict_of a b (some x) none = none
  conflict_of a b none other = none

  abbrev pub conflict : Dict Claim → String × String → Option ConflictView
  conflict claims (a, b) = conflict_of a b (find a claims) (find b claims)

  abbrev pub target_view : String → Option Claim → ClaimView
  target_view t none = ClaimView.unknown t
  target_view t (some m) = claim_view m (verdict_of verdicts t)

  abbrev pub reconciliation_of : Dict Claim → Claim → Option String → Option ReconciliationView
  reconciliation_of claims c none = none
  reconciliation_of claims c (some t) =
      some (record { claim = view c; reconciled_into = target_view t (find t claims) })

  abbrev pub reconciliation : Dict Claim → Claim → Option ReconciliationView
  reconciliation claims c = reconciliation_of claims c (target_of c)

abbrev pub ordered : List String → Dict Claim → List Claim
ordered in_chain claims = sort_by claim_le (values (keep (λ p. contains in_chain p.0) claims))

abbrev pub nothing_found : Printer → String → ShiftHistory
nothing_found printer claim_id = record {
  claim_id = claim_id;
  answered = false;
  text = "No claim " <> printer.repr claim_id <> " is present in this memory.";
  chain = [];
  steps = [];
  conflicts = [];
  reconciliations = [];
  denied = [];
  considered = 0;
}

abbrev pub declined : String → List Denial → ℕ → ShiftHistory
declined claim_id denials n = record {
  claim_id = claim_id;
  answered = false;
  text =
      "Declining to answer: "
      <> decimal n
      <> " claim(s) make up this decision's history, but none are within the requesting agent's scope ("
      <> join ", " (map spaced (sorted_set (map (λ d. d.reason) denials)))
      <> ").";
  chain = [];
  steps = [];
  conflicts = [];
  reconciliations = [];
  denied = denials;
  considered = n;
}

-- The body of `assemble`, over the claims that were found
unfoldable pub assemble_claims :
    Printer → String → Checks → List (String × String) → List String → Dict Claim → ShiftHistory
unfolding step shift_text
assemble_claims printer claim_id checks edges in_chain claims =
    if is_empty claims
    then nothing_found printer claim_id
    else if all (λ p. not (passes (verdict_of checks.verdicts p.0))) claims
    then declined claim_id checks.denials (length claims)
    else let found_steps = steps checks.verdicts claims in
      let conflicts = keep_some (conflict checks.verdicts claims) edges in
      record {
        claim_id = claim_id;
        answered = true;
        text = shift_text printer claim_id found_steps conflicts;
        chain = map (view checks.verdicts) (ordered in_chain claims);
        steps = found_steps;
        conflicts = conflicts;
        reconciliations =
            keep_some (reconciliation checks.verdicts claims) (ordered in_chain claims);
        denied = checks.denials;
        considered = length claims;
      }

unfoldable pub assemble : Printer → String → Walk → Checks → ShiftHistory
unfolding assemble_claims
assemble printer claim_id w checks =
    assemble_claims printer claim_id checks w.edges w.in_chain (stored w.candidates)

-- The nodes behind the walk
unfoldable pub shift_answer : Printer → Scope → ℕ → String → Walk → ShiftHistory
unfolding assemble check_permissions
shift_answer printer scope now_ms claim_id w =
    assemble printer claim_id w (check_permissions scope now_ms w.candidates)

unfoldable pub why_did_this_shift :
    {V : Type 0}
    → Printer
    → (String → Result Scope)
    → Graph V
    → ℕ
    → (claim_id grant_token : String) → Result ShiftHistory
unfolding shift_answer authorize walk
why_did_this_shift printer introspect g now_ms claim_id grant_token = do
  scope ← authorize introspect none (some grant_token)
  ok (shift_answer printer scope now_ms claim_id (walk g scope.owner_id claim_id))
