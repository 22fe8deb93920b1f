-- ===== src/Graphs/Query.antt =====
-- graphs/query.py: retrieve, check each candidate, and assemble an answer or decline.
pub mod Answers
use memapp.Prelude.{
  ℕ, String, Bool, true, false, not, List, [], ◌∷◌, ◌++◌, Option, none, some, map, keep, is_empty,
  length, head?, ◌==◌, eqb, if◌then◌else◌,
}
use memapp.Prelude.Order.{sorted_set}
use memapp.Prelude.Texts.{join, spaced, decimal, ◌<>◌}
use memapp.Prelude.Result.{Result, ok, err, ◌>>=◌}
use memapp.Enums.{status_value, kind_value}
use memapp.Permissions.{Scope, evaluate, allowed}
use memapp.Schema.{MemoryNode, Citation, node_id, node_acl, node_provenance}
use memapp.Store.{Label, label_name}
use memapp.Retrieval.{Scores, RankedNode}
use memapp.Graphs.Checked.{Found, Denial, authorize, reason_text, found_of}

pub record AnswerCitation : Type 0 where
  pub object_id : String
  pub label : String
  pub source : String
  pub url : Option String
  pub occurred_at_ms : ℕ
  pub ingested_at_ms : Option ℕ

pub record QueryAnswer : Type 0 where
  pub question : String
  pub answered : Bool
  pub text : String
  pub citations : List AnswerCitation
  pub denied : List Denial
  pub considered : ℕ

pub record Sorted : Type 0 where
  pub permitted : List Found
  pub denials : List Denial

-- The loop of `check_permissions`
unfoldable pub sort_from : Scope → ℕ → Sorted → List Found → Sorted
sort_from scope now_ms done [] = done
sort_from scope now_ms done (c ∷ rest) =
    let decision = evaluate scope (node_acl c.node) now_ms in
    sort_from scope now_ms
      (if allowed decision
        then record done { permitted = done.permitted ++ c ∷ [] }
        else record done {
          denials = done.denials ++ record { id = c.id; reason = reason_text decision } ∷ [];
        })
      rest

unfoldable pub check_permissions : Scope → ℕ → List Found → Sorted
unfolding sort_from
check_permissions scope now_ms candidates =
    sort_from scope now_ms (record { permitted = []; denials = [] }) candidates

abbrev pub decline_text : ℕ → List String → String
decline_text considered reasons =
    if eqb considered 0
    then "No memory matches this question."
    else "Declining to answer: "
      <> decimal considered
      <> " candidate memory object(s) matched, but none are within the requesting agent's scope ("
      <> join ", " (map spaced reasons)
      <> ")."

abbrev pub line_of : Found → String
line_of c = elim c.node [
  | MemoryNode.claim m ↦
      let status = status_value m.status in
      "- "
      <> m.statement
      <> (if status == "active" then "" else " [" <> status <> "]")
      <> " ("
      <> m.id
      <> ")"
  | MemoryNode.event e ↦ "- " <> e.summary <> " (" <> e.id <> ")"
  | MemoryNode.entity e ↦ "- " <> kind_value e.kind <> ": " <> e.name <> " (" <> e.id <> ")"
]

abbrev pub citation_of : Found → AnswerCitation
citation_of c =
    let first : Option Citation = head? (node_provenance c.node).citations in
    record {
      object_id = node_id c.node;
      label = label_name c.label;
      source = join "," (node_acl c.node).sources;
      url = elim first [ none ↦ none | some x ↦ x.source.url ];
      occurred_at_ms = (node_acl c.node).occurred_at_ms;
      ingested_at_ms = elim first [ none ↦ none | some x ↦ some x.source.ingested_at_ms ];
    }

unfoldable pub assemble : String → List Found → Sorted → QueryAnswer
assemble question candidates checked =
    if is_empty checked.permitted
    then record {
      question = question;
      answered = false;
      text = decline_text (length candidates) (sorted_set (map (λ d. d.reason) checked.denials));
      citations = [];
      denied = checked.denials;
      considered = length candidates;
    }
    else record {
      question = question;
      answered = true;
      text = join "\n" (map line_of checked.permitted);
      citations = map citation_of checked.permitted;
      denied = checked.denials;
      considered = length candidates;
    }

-- The nodes behind `retrieve`
unfoldable pub answer : Scope → ℕ → String → List Found → QueryAnswer
unfolding assemble check_permissions
answer scope now_ms question candidates =
    assemble question candidates (check_permissions scope now_ms candidates)

-- `run_query`: `retrieve` is `retrieve_stored` for the owner that the scope names.
unfoldable pub run_query :
    {S : Type 0}
    → (String → Result Scope)
    → (String → ℕ → String → List (RankedNode S))
    → ℕ
    → (question grant_token : String) → ℕ
    → Result QueryAnswer
unfolding answer authorize
run_query introspect retrieve now_ms question grant_token top_k = do
  scope ← authorize introspect none (some grant_token)
  ok (
      answer scope now_ms question
        (map (λ r. found_of r.node) (retrieve scope.owner_id top_k question)))
