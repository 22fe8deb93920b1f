-- ===== src/Mcp/Tools.antt =====
-- What a sequence of calls of the tools is served from.
use memapp.Prelude.{ℕ, String, ◌+◌, ◌≡◌, refl, ◌⊎◌, inl, inr, Option, none, some, List, [], ◌∷◌}
use memapp.Prelude.Result.{Result, Error, ok, err, both_returned}
use memapp.Permissions.{Scope}
use memapp.Gateway.{introspect_scope}
use memapp.Gateway.Sessions.{IsActive, authorize-IsActive}
use memapp.Graphs.Checked.{authorize}
use memapp.Graphs.Query.{run_query}
use memapp.Graphs.History.Shift.{why_did_this_shift}
use memapp.Graphs.History.Context.{context_chain}
use memapp.Prelude.Dict.{some-inj}
use memapp.Api.{Runtime, Answer}
use memapp.Mcp.{
  Process, ToolCall, get_runtime, query_memory, why_this_shifted, memory_context_chain, run_tool,
  call_tool, call_all,
}

abbrev pub token_of : ToolCall → String
token_of (ToolCall.query_call question grant_token top_k) = grant_token
token_of (ToolCall.shift_call claim_id grant_token) = grant_token
token_of (ToolCall.context_call object_id grant_token hops) = grant_token

Result-cases {ℓ} :
    {A : Type ℓ} (call : Result A) → ((e : Error) × (call ≡ err e)) ⊎ ((a : A) × (call ≡ ok a))
Result-cases (err e) = inl (e, refl)
Result-cases (ok a) = inr (a, refl)

module _ {V S : Type 0} where
  authorized :
      (r : Runtime V S) (grant_token : String) (scope : Scope)
      → authorize (introspect_scope r.http r.gateway) none (some grant_token) ≡ ok scope
      → (s : Scope) × IsActive r.http grant_token s
  authorized r grant_token scope h =
      let (t, (same, active)) =
        authorize-IsActive r.http r.gateway none (some grant_token) scope h in
      (scope, rw (some-inj same) active)

  run_tool-IsActive :
      (r : Runtime V S) (call : ToolCall) (answer : Answer)
      → run_tool r call ≡ ok answer
      → (scope : Scope) × IsActive r.http (token_of call) scope
  unfolding query_memory why_this_shifted memory_context_chain run_query why_did_this_shift
      context_chain
  run_tool-IsActive r (ToolCall.query_call question grant_token top_k) answer h =
      let (a, (e0, _)) = both_returned (query_memory r question grant_token top_k) _ h in
      let (scope, (e1, _)) =
        both_returned (authorize (introspect_scope r.http r.gateway) none (some grant_token)) _
          e0 in
      authorized r grant_token scope e1
  run_tool-IsActive r (ToolCall.shift_call claim_id grant_token) answer h =
      let (a, (e0, _)) = both_returned (why_this_shifted r claim_id grant_token) _ h in
      let (scope, (e1, _)) =
        both_returned (authorize (introspect_scope r.http r.gateway) none (some grant_token)) _
          e0 in
      authorized r grant_token scope e1
  run_tool-IsActive r (ToolCall.context_call object_id grant_token hops) answer h =
      let (a, (e0, _)) = both_returned (memory_context_chain r object_id grant_token hops) _ h in
      let (scope, (e1, _)) =
        both_returned (authorize (introspect_scope r.http r.gateway) none (some grant_token)) _
          e0 in
      authorized r grant_token scope e1

  -- Where a runtime is from: it is the one that answered before, or else some build came to it.
  abbrev pub IsFrom : (ℕ → Result (Runtime V S)) → Option (Runtime V S) → Runtime V S → Type 0
  IsFrom build none r = (n : ℕ) × (build n ≡ ok r)
  IsFrom build (some q) r = r ≡ q

  -- Each call raised, or it was answered from the runtime of the answered calls before it, or `seen`
  -- before the first of them, whose gateway says that the grant of the call's token is active.
  abbrev pub AreAnswered :
      (ℕ → Result (Runtime V S))
      → (seen : Option (Runtime V S)) → List ToolCall
      → List (Result (Answer × Runtime V S))
      → Type 0
  AreAnswered build seen [] [] = Unit
  AreAnswered build seen [] (out ∷ outs) = ⊥
  AreAnswered build seen (call ∷ calls) [] = ⊥
  AreAnswered build seen (call ∷ calls) (err e ∷ outs) = AreAnswered build seen calls outs
  AreAnswered build seen (call ∷ calls) (ok (answer, r) ∷ outs) =
      IsFrom build seen r
      × (((scope : Scope) × IsActive r.http (token_of call) scope)
          × AreAnswered build (some r) calls outs)

  -- The runtime that is kept is the one that was seen, or was built and not seen yet.
  abbrev Agrees : (ℕ → Result (Runtime V S)) → Option (Runtime V S) → Option (Runtime V S) → Type 0
  Agrees build none none = Unit
  Agrees build none (some q) = (n : ℕ) × (build n ≡ ok q)
  Agrees build (some r) none = ⊥
  Agrees build (some r) (some q) = q ≡ r

  Agrees-IsFrom :
      (build : ℕ → Result (Runtime V S)) (seen : Option (Runtime V S)) (q : Runtime V S)
      → Agrees build seen (some q)
      → IsFrom build seen q
  Agrees-IsFrom build none q h = h
  Agrees-IsFrom build (some r) q h = h

  module _ (build : ℕ → Result (Runtime V S)) where
    served :
        (seen kept : Option (Runtime V S)) (builds : ℕ) (calls : List ToolCall)
        → Agrees build seen kept
        → AreAnswered build seen calls
            (call_all build (record { kept = kept; builds = builds }) calls)
    unfolding call_all call_tool get_runtime
    served seen kept builds [] h = tt
    served seen (some q) builds (call ∷ calls) h = elim (Result-cases (run_tool q call)) [
      | inl (e, raised) ↦ rw raised (served seen (some q) builds calls h)
      | inr (answer, returned) ↦ rw returned (
        Agrees-IsFrom build seen q h,
        (run_tool-IsActive q call answer returned, served (some q) (some q) builds calls refl),
      )
    ]
    served none none builds (call ∷ calls) h = elim (Result-cases (build builds)) [
      | inl (e, failed) ↦ rw failed (served none none (builds + 1) calls tt)
      | inr (q, built) ↦ rw built (elim (Result-cases (run_tool q call)) [
        | inl (e, raised) ↦ rw raised (served none (some q) (builds + 1) calls (builds, built))
        | inr (answer, returned) ↦ rw returned (
          (builds, built),
          (
            run_tool-IsActive q call answer returned,
            served (some q) (some q) (builds + 1) calls refl,
          ),
        )
      ])
    ]
    served (some r) none builds (call ∷ calls) h = absurd h

    kept-Agrees : (kept : Option (Runtime V S)) → Agrees build kept kept
    kept-Agrees none = tt
    kept-Agrees (some q) = refl

    -- Of tools called one after another, whatever each build of a runtime comes to, each raises, or it is
    -- answered from the runtime that the process kept, or, where it kept none, from one and the same
    -- runtime that a build came to; and the gateway of that runtime answered for the token of the call,
    -- with a status below 400, that its grant is active.
    pub call_all-AreAnswered :
        (p : Process V S) (calls : List ToolCall)
        → AreAnswered build p.kept calls (call_all build p calls)
    call_all-AreAnswered p calls = served p.kept p.kept p.builds calls (kept-Agrees p.kept)
