-- ===== src/Permissions.antt =====
-- permissions.py: the decision whether an agent's scope covers one object. `now_ms` is an argument,
-- as every caller passes it; where it is left out, the source reads the clock.
pub mod Rules
pub mod Narrowing
use memapp.Prelude.{
  ℕ, String, Bool, false, not, ◌||◌, List, Option, none, some, all, any, contains, is_empty, ltb,
  leb, ◌==◌, if◌then◌else◌,
}
use memapp.Enums.{
  EntityKind, Sensitivity, DenyReason, kind_eq, rank, wrong_owner, grant_expired, agent_revoked,
  source_not_in_scope, entity_kind_not_in_scope, outside_time_window, too_sensitive,
}

pub record ObjectAcl : Type 0 where
  pub owner_id : String
  pub sources : List String
  pub sensitivity : Sensitivity
  pub entity_kinds : List EntityKind
  pub occurred_at_ms : ℕ
  pub denied_agents : List String

pub record Scope : Type 0 where
  pub agent_id : String
  pub owner_id : String
  pub sources : List String
  pub entity_kinds : List EntityKind
  pub not_before_ms : Option ℕ
  pub not_after_ms : Option ℕ
  pub max_sensitivity : Sensitivity
  pub expires_at_ms : Option ℕ

pub record PermissionDecision : Type 0 where
  pub decision : String
  pub reason : Option DenyReason

-- the property `allowed`
abbrev pub allowed : PermissionDecision → Bool
allowed d = d.decision == "allow"

abbrev pub allow : PermissionDecision
allow = record { decision = "allow"; reason = none }

abbrev pub deny : DenyReason → PermissionDecision
deny reason = record { decision = "deny"; reason = some reason }

-- `k in scope.entity_kinds`
abbrev pub has_kind : List EntityKind → EntityKind → Bool
has_kind kinds k = any (λ j. kind_eq j k) kinds

-- `bound is not None and test(bound)`
abbrev pub bound_fails : (ℕ → Bool) → Option ℕ → Bool
bound_fails test none = false
bound_fails test (some b) = test b

unfoldable pub evaluate : Scope → ObjectAcl → ℕ → PermissionDecision
evaluate scope acl now_ms =
    if not (scope.owner_id == acl.owner_id)
    then deny wrong_owner
    else if bound_fails (λ t. leb t now_ms) scope.expires_at_ms
    then deny grant_expired
    else if contains acl.denied_agents scope.agent_id
    then deny agent_revoked
    else if is_empty acl.sources || not (all (contains scope.sources) acl.sources)
    then deny source_not_in_scope
    else if is_empty acl.entity_kinds || not (all (has_kind scope.entity_kinds) acl.entity_kinds)
    then deny entity_kind_not_in_scope
    else if bound_fails (λ t. ltb acl.occurred_at_ms t) scope.not_before_ms
    then deny outside_time_window
    else if bound_fails (λ t. ltb t acl.occurred_at_ms) scope.not_after_ms
    then deny outside_time_window
    else if ltb (rank scope.max_sensitivity) (rank acl.sensitivity)
    then deny too_sensitive
    else allow

unfoldable pub permits : Scope → ObjectAcl → ℕ → Bool
permits scope acl now_ms = allowed (evaluate scope acl now_ms)
