-- ===== src/Graphs/Checked.antt =====
-- What the three reading graphs share: a candidate of the permission-blind walk, the authorisation, and
-- the pass that evaluates each candidate before anything is assembled. `now_ms` is the clock's answer.
use memapp.Prelude.{
  ℕ, String, Bool, true, false, ◌&&◌, List, [], ◌∷◌, ◌++◌, Option, none, some, ◌==◌, if◌then◌else◌,
}
use memapp.Prelude.Dict.{Dict, find, put}
use memapp.Prelude.Result.{Result, err, value_error, key_error}
use memapp.Enums.{EntityKind, reason_value}
use memapp.Permissions.{Scope, ObjectAcl, PermissionDecision, evaluate, allowed}
use memapp.Schema.{MemoryNode, node_acl}
use memapp.Store.{StoredNode, Label}

-- `{"id": …, "label": …, "payload": …}`. The payload is the object, since a model survives its dump.
pub record Found : Type 0 where
  pub id : String
  pub label : Label
  pub node : MemoryNode

abbrev pub found_of : StoredNode → Found
found_of s = record { id = s.id; label = s.label; node = s.node }

-- `decision.reason.value`; an evaluation that denies always has a reason.
abbrev pub reason_text : PermissionDecision → String
reason_text d = elim d.reason [ none ↦ "" | some r ↦ reason_value r ]

pub record Denial : Type 0 where
  pub id : String
  pub reason : String

-- `None if decision.allowed else decision.reason.value`
abbrev pub verdict : Scope → ℕ → ObjectAcl → Option String
verdict scope now_ms acl =
    let decision = evaluate scope acl now_ms in
    if allowed decision then none else some (reason_text decision)

pub record Checks : Type 0 where
  pub verdicts : Dict (Option String)
  pub denials : List Denial

abbrev pub denial : String → Option String → List Denial
denial i none = []
denial i (some reason) = record { id = i; reason = reason } ∷ []

-- One round of the loop of `_check_permissions`
abbrev pub note : String → Option String → Checks → Checks
note i v done = record { verdicts = put i v done.verdicts; denials = done.denials ++ denial i v }

unfoldable pub check_from : Scope → ℕ → Checks → List Found → Checks
check_from scope now_ms done [] = done
check_from scope now_ms done (c ∷ rest) =
    check_from scope now_ms (note c.id (verdict scope now_ms (node_acl c.node)) done) rest

unfoldable pub check_permissions : Scope → ℕ → List Found → Checks
unfolding check_from
check_permissions scope now_ms candidates =
    check_from scope now_ms (record { verdicts = []; denials = [] }) candidates

-- `verdicts.get(id)`: an id that was not checked reads as allowed
abbrev pub verdict_of : Dict (Option String) → String → Option String
verdict_of verdicts i = elim (find i verdicts) [ none ↦ none | some v ↦ v ]

-- An object of which only the access list is left
abbrev pub blank : ObjectAcl → MemoryNode
blank acl = MemoryNode.entity (record {
  id = "";
  owner_id = "";
  kind = EntityKind.topic;
  name = "";
  aliases = [];
  first_seen_at_ms = 0;
  last_seen_at_ms = 0;
  provenance = record { citations = []; derived_by = ""; confidence = 0; created_at_ms = 0 };
  acl = acl;
})

-- The node `authorize`: a grant token is resolved by the gateway, and a scope that the caller supplies
-- without one is refused. `introspect` is the gateway's answer for a token.
abbrev pub no_token : Option String → Bool
no_token none = true
no_token (some t) = t == ""

abbrev pub is_given {ℓ} : {A : Type ℓ} → Option A → Bool
is_given none = false
is_given (some a) = true

abbrev pub introspected : (String → Result Scope) → Option String → Result Scope
introspected introspect none = err key_error
introspected introspect (some t) = introspect t

unfoldable pub authorize : (String → Result Scope) → Option Scope → Option String → Result Scope
authorize introspect supplied grant_token =
    if is_given supplied && no_token grant_token
    then err value_error
    else introspected introspect grant_token
