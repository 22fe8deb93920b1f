-- ===== src/Examples/Answers.antt =====
-- Answers of the reading graphs on the samples.
use memapp.Prelude.{◌≡◌, refl, true, none, some, [], ◌∷◌, map, any, All, gather}
use memapp.Prelude.Order.{sort_by, sorted_set}
use memapp.Prelude.Dict.{values}
use memapp.Schema.{node_acl}
use memapp.Permissions.{evaluate}
use memapp.Graphs.Checked.{Checks, check_permissions, check_from}
use memapp.Graphs.Query.{answer}
use memapp.Graphs.Query.Answers.{
  redact, is_visible, IsAccount, answer-redact, answer-answered, answer-IsAccount,
}
use memapp.Graphs.History.Shift.{Walk, shift_answer}
use memapp.Graphs.History.Shift.Secrecy.{IsNamed, veil_found, shift_answer-veil}
use memapp.Graphs.History.Context as Context
use memapp.Graphs.History.Context.Sources.{open_nodes, context-sources}
use memapp.Graphs.Neighbourhood as Neighbourhood
use memapp.Graphs.Neighbourhood.Shown.{IsPermitted, IsBetween, assemble-shown}
use memapp.Examples.Samples.{scope, candidates, printer}

answer-redact_example :
    answer scope 50 "Which database?" (map (redact scope 50) candidates)
    ≡ answer scope 50 "Which database?" candidates
answer-redact_example = answer-redact scope 50 "Which database?" candidates

answer-answered_example :
    (answer scope 50 "Which database?" candidates).answered ≡ any (is_visible scope 50) candidates
answer-answered_example = answer-answered scope 50 "Which database?" candidates

answer-IsAccount_example :
    IsAccount scope 50 candidates (answer scope 50 "Which database?" candidates)
answer-IsAccount_example = answer-IsAccount scope 50 "Which database?" candidates

abbrev history : Walk
history = record { candidates = candidates; edges = []; in_chain = "c1" ∷ "c2" ∷ [] }

candidates-IsNamed : IsNamed candidates
candidates-IsNamed = (refl, (refl, tt))

shift_answer-veil_example :
    shift_answer printer scope 50 "c2" (record history {
      candidates =
          map
            (veil_found (check_permissions scope 50 history.candidates).verdicts)
            history.candidates;
    })
    ≡ shift_answer printer scope 50 "c2" history
shift_answer-veil_example = shift_answer-veil printer scope 50 "c2" history candidates-IsNamed

-- The checks of the two candidates: the second is denied.
abbrev checks : Checks
checks = record {
  verdicts = ("c1", none) ∷ ("c2", some "source_not_in_scope") ∷ [];
  denials = record { id = "c2"; reason = "source_not_in_scope" } ∷ [];
}

checks_test : check_permissions scope 50 candidates ≡ checks
unfolding check_permissions check_from evaluate
checks_test = refl

abbrev chain : Context.Walk
chain = record {
  candidates = candidates;
  edges = ("c1", "c2") ∷ [];
  hop_of = ("c1", 0) ∷ ("c2", 1) ∷ [];
}

chain-answered : (Context.assemble printer "c1" 1 chain checks).answered ≡ true
unfolding Context.assemble
chain-answered = refl

context-sources_example :
    (Context.assemble printer "c1" 1 chain checks).sources
    ≡ sorted_set (
        gather
          (λ n. (node_acl n).sources)
          (open_nodes checks.verdicts
            (sort_by (Context.hop_le chain.hop_of) (values (Context.stored chain.candidates)))))
context-sources_example = context-sources printer "c1" 1 chain checks chain-answered

abbrev around : Neighbourhood.Walk
around = record {
  candidates = candidates;
  edges = ("c2", "SUPERSEDES", "c1") ∷ [];
  hop_of = ("c1", 0) ∷ ("c2", 1) ∷ [];
}

assemble-shown_example :
    All
      (IsPermitted scope 50 around)
      (Neighbourhood.assemble printer
        ("c1" ∷ [])
        1
        around
        (check_permissions scope 50 candidates)).nodes
    × All
        (IsBetween scope 50 around
          (Neighbourhood.assemble printer
            ("c1" ∷ [])
            1
            around
            (check_permissions scope 50 candidates)).nodes)
        (Neighbourhood.assemble printer
          ("c1" ∷ [])
          1
          around
          (check_permissions scope 50 candidates)).edges
assemble-shown_example = assemble-shown scope 50 around candidates-IsNamed printer ("c1" ∷ []) 1
