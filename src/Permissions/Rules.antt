-- ===== src/Permissions/Rules.antt =====
-- What `evaluate` decides: the exact condition under which an object is allowed, and the form of a
-- denial.
use memapp.Prelude.{
  ℕ, ◌≡◌, refl, ◌↔◌, Bool, true, false, not, ◌&&◌, ◌||◌, Option, none, some, all, contains,
  is_empty, ltb, leb, ◌==◌, arith, ◌≤◌, ◌<◌, if◌then◌else◌,
}
use memapp.Enums.{DenyReason, rank}
use memapp.Permissions.{
  ObjectAcl, Scope, PermissionDecision, allow, allowed, deny, has_kind, bound_fails, evaluate,
  permits,
}

-- `t <= o`, where a missing bound always holds
abbrev pub AtLeast : Option ℕ → ℕ → Type 0
AtLeast none o = Unit
AtLeast (some t) o = t ≤ o

abbrev pub AtMost : Option ℕ → ℕ → Type 0
AtMost none o = Unit
AtMost (some t) o = o ≤ t

abbrev pub Before : Option ℕ → ℕ → Type 0
Before none now = Unit
Before (some t) now = now < t

-- The object lies within the scope in every respect that a grant can restrict.
pub record IsCovered (scope : Scope) (acl : ObjectAcl) (now_ms : ℕ) : Type 0 where
  pub same_owner : (scope.owner_id == acl.owner_id) ≡ true
  pub not_expired : Before scope.expires_at_ms now_ms
  pub not_revoked : contains acl.denied_agents scope.agent_id ≡ false
  pub has_source : is_empty acl.sources ≡ false
  pub sources_granted : all (contains scope.sources) acl.sources ≡ true
  pub some_kind : is_empty acl.entity_kinds ≡ false
  pub kinds_granted : all (has_kind scope.entity_kinds) acl.entity_kinds ≡ true
  pub not_too_old : AtLeast scope.not_before_ms acl.occurred_at_ms
  pub not_too_new : AtMost scope.not_after_ms acl.occurred_at_ms
  pub not_too_sensitive : rank acl.sensitivity ≤ rank scope.max_sensitivity

-- The tests of `evaluate`, in its order.
abbrev pub tests : Scope → ObjectAcl → ℕ → Bool
tests scope acl now_ms =
    not (not (scope.owner_id == acl.owner_id))
    && (not (bound_fails (λ t. leb t now_ms) scope.expires_at_ms)
        && (not (contains acl.denied_agents scope.agent_id)
            && (not (is_empty acl.sources || not (all (contains scope.sources) acl.sources))
                && (not (
                      is_empty acl.entity_kinds
                      || not (all (has_kind scope.entity_kinds) acl.entity_kinds))
                    && (not (bound_fails (λ t. ltb acl.occurred_at_ms t) scope.not_before_ms)
                        && (not (bound_fails (λ t. ltb t acl.occurred_at_ms) scope.not_after_ms)
                            && not (ltb (rank scope.max_sensitivity) (rank acl.sensitivity))))))))

allowed-guard :
    (b : Bool) (reason : DenyReason) (d : PermissionDecision)
    → allowed (if b then deny reason else d) ≡ (not b && allowed d)
allowed-guard true reason d = refl
allowed-guard false reason d = refl

allowed-last : (b : Bool) (reason : DenyReason) → allowed (if b then deny reason else allow) ≡ not b
allowed-last true reason = refl
allowed-last false reason = refl

pub permits-tests :
    (scope : Scope) (acl : ObjectAcl) (now_ms : ℕ)
    → permits scope acl now_ms ≡ tests scope acl now_ms
unfolding permits evaluate
permits-tests scope acl now_ms = rw (
  allowed-guard, allowed-guard, allowed-guard, allowed-guard, allowed-guard, allowed-guard,
  allowed-guard, allowed-last,
)

expired :
    (bound : Option ℕ) (now : ℕ) → bound_fails (λ t. leb t now) bound ≡ false ↔ Before bound now
expired none now = (λ _. tt, λ _. refl)
expired (some t) now = (λ h. ground arith, λ h. ground arith)

too_old : (bound : Option ℕ) (o : ℕ) → bound_fails (λ t. ltb o t) bound ≡ false ↔ AtLeast bound o
too_old none o = (λ _. tt, λ _. refl)
too_old (some t) o = (λ h. ground arith, λ h. ground arith)

too_new : (bound : Option ℕ) (o : ℕ) → bound_fails (λ t. ltb t o) bound ≡ false ↔ AtMost bound o
too_new none o = (λ _. tt, λ _. refl)
too_new (some t) o = (λ h. ground arith, λ h. ground arith)

module _ (scope : Scope) (acl : ObjectAcl) (now_ms : ℕ) where
  tests→IsCovered : tests scope acl now_ms ≡ true → IsCovered scope acl now_ms
  tests→IsCovered h = record {
    same_owner = ground arith;
    not_expired = (expired scope.expires_at_ms now_ms).0 (ground arith);
    not_revoked = ground arith;
    has_source = ground arith;
    sources_granted = ground arith;
    some_kind = ground arith;
    kinds_granted = ground arith;
    not_too_old = (too_old scope.not_before_ms acl.occurred_at_ms).0 (ground arith);
    not_too_new = (too_new scope.not_after_ms acl.occurred_at_ms).0 (ground arith);
    not_too_sensitive = ground arith;
  }

  IsCovered→tests : IsCovered scope acl now_ms → tests scope acl now_ms ≡ true
  IsCovered→tests c =
      rw
        (
          c.same_owner,
          (expired scope.expires_at_ms now_ms).1 c.not_expired,
          c.not_revoked,
          c.has_source,
          c.sources_granted,
          c.some_kind,
          c.kinds_granted,
          (too_old scope.not_before_ms acl.occurred_at_ms).1 c.not_too_old,
          (too_new scope.not_after_ms acl.occurred_at_ms).1 c.not_too_new,
        )
        (ground arith)

-- An agent may see an object exactly when the object lies within its scope in every respect: the
-- same owner, an unexpired grant, an agent that is not revoked, at least one source and every
-- source granted, at least one entity kind and every kind granted, the time window, and the
-- sensitivity ceiling.
pub permits_iff :
    (scope : Scope) (acl : ObjectAcl) (now_ms : ℕ)
    → (permits scope acl now_ms ≡ true) ↔ IsCovered scope acl now_ms
permits_iff scope acl now_ms = (
  λ h. tests→IsCovered scope acl now_ms (rw permits-tests at h),
  λ c. rw permits-tests (IsCovered→tests scope acl now_ms c),
)
