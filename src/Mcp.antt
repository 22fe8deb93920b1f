-- ===== src/Mcp.antt =====
-- mcp_server.py: the tools, and the runtime that the first call of one builds and the later ones find.
pub mod Tools
use memapp.Prelude.{
  ℕ, zero, suc, String, ◌+◌, ◌-◌, ◌*◌, ◌/◌, ◌%◌, ◌≤◌, ◌<◌, ◌≡◌, ◌≢◌, refl, sym, ap, ◌∙◌, ◌↔◌, ◌⊎◌,
  inl, inr, Bool, true, false, not, ◌&&◌, ◌||◌, Option, none, some, List, [], ◌∷◌, ◌++◌, map, Memᴰ,
  arith, ◌==◌, eq_iff, ltb, leb, eqb, if◌then◌else◌, Bool-cases, if_true, if_false, Option-cases,
  and_true, leb→le, ltb→lt, length, is_empty, any, all, keep, first, head?, last?, take, drop, All,
  gather, keep_some, cons_some, contains, unique, distinct, length-append, length-take-le,
  length-keep-le, length-keep-add, All-append, All-keep, keep-All, length-map, map-All,
  is_empty-map, Among, Among-append_left, Among-append_right, All-Among, Among-All, All-weaken,
  append-All, gather-All,
}
use memapp.Prelude.Result.{Result, ok, err, ◌>>=◌}
use memapp.Gateway.{introspect_scope}
use memapp.Graphs.Query.{QueryAnswer, run_query}
use memapp.Graphs.History.Shift.{ShiftHistory, why_did_this_shift}
use memapp.Graphs.History.Context.{ContextChain, context_chain}
use memapp.Api.{Runtime, Answer, as_answer}

-- A number that is not given is `none`, and has no bounds.
pub data ToolCall : Type 0 where
  query_call : (question grant_token : String) → (top_k : Option ℕ) → ToolCall
  shift_call : (claim_id grant_token : String) → ToolCall
  context_call : (object_id grant_token : String) → (hops : Option ℕ) → ToolCall

abbrev pub or_number : ℕ → Option ℕ → ℕ
or_number default none = default
or_number default (some n) = n

-- The process: the runtime that is kept, and how often one was built. What a build comes to is up to the
-- environment at that time, so each of them has a result of its own.
pub record Process (V S : Type 0) : Type 0 where
  pub kept : Option (Runtime V S)
  pub builds : ℕ

module _ {V S : Type 0} where
  abbrev pub keep_built : Result (Runtime V S) → Process V S → Result (Runtime V S) × Process V S
  keep_built (err e) p = (err e, record p { builds = p.builds + 1 })
  keep_built (ok r) p = (ok r, record { kept = some r; builds = p.builds + 1 })

  abbrev pub kept_or_built :
      (ℕ → Result (Runtime V S))
      → Option (Runtime V S)
      → Process V S
      → Result (Runtime V S) × Process V S
  kept_or_built build none p = keep_built (build p.builds) p
  kept_or_built build (some r) p = (ok r, p)

  -- `_get_runtime`: the runtime, and the process after; `build n` is what the build comes to that `n`
  -- others went before.
  unfoldable pub get_runtime :
      (ℕ → Result (Runtime V S)) → Process V S → Result (Runtime V S) × Process V S
  get_runtime build p = kept_or_built build p.kept p

  unfoldable pub query_memory :
      Runtime V S → (question grant_token : String) → Option ℕ → Result QueryAnswer
  query_memory r question grant_token top_k =
      run_query (introspect_scope r.http r.gateway) r.retrieve r.now_ms question grant_token
        (or_number 8 top_k)

  unfoldable pub why_this_shifted :
      Runtime V S → (claim_id grant_token : String) → Result ShiftHistory
  why_this_shifted r claim_id grant_token =
      why_did_this_shift r.printer (introspect_scope r.http r.gateway) r.store r.now_ms claim_id
        grant_token

  unfoldable pub memory_context_chain :
      Runtime V S → (object_id grant_token : String) → Option ℕ → Result ContextChain
  memory_context_chain r object_id grant_token hops =
      context_chain r.printer (introspect_scope r.http r.gateway) r.store r.now_ms object_id
        grant_token (or_number 3 hops)

  abbrev pub run_tool : Runtime V S → ToolCall → Result Answer
  run_tool r (ToolCall.query_call question grant_token top_k) =
      as_answer Answer.of_query (query_memory r question grant_token top_k)
  run_tool r (ToolCall.shift_call claim_id grant_token) =
      as_answer Answer.of_shift (why_this_shifted r claim_id grant_token)
  run_tool r (ToolCall.context_call object_id grant_token hops) =
      as_answer Answer.of_context (memory_context_chain r object_id grant_token hops)

  abbrev pub with_runtime : Result (Runtime V S) → ToolCall → Result (Answer × Runtime V S)
  with_runtime runtime call = do r ← runtime; answer ← run_tool r call; ok (answer, r)

  -- A call of a tool: the answer with the runtime that it is from, and the process after, also where the
  -- tool raised
  unfoldable pub call_tool :
      (ℕ → Result (Runtime V S))
      → Process V S
      → ToolCall
      → Result (Answer × Runtime V S) × Process V S
  unfolding get_runtime query_memory why_this_shifted memory_context_chain
  call_tool build p call = let found = get_runtime build p in (with_runtime found.0 call, found.1)

  -- The tools called one after another; an exception is the answer to its call alone.
  unfoldable pub call_all :
      (ℕ → Result (Runtime V S))
      → Process V S
      → List ToolCall
      → List (Result (Answer × Runtime V S))
  unfolding call_tool
  call_all build p [] = []
  call_all build p (call ∷ calls) =
      let out = call_tool build p call in out.0 ∷ call_all build out.1 calls
