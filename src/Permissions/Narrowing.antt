-- ===== src/Permissions/Narrowing.antt =====
-- A narrower grant never shows more.
use memapp.Prelude.{
  ℕ, String, ◌≡◌, Bool, true, List, [], ◌∷◌, Option, none, some, all, contains, arith, ◌≤◌,
}
use memapp.Enums.{EntityKind, rank}
use memapp.Permissions.{ObjectAcl, Scope, has_kind, permits}
use memapp.Permissions.Rules.{IsCovered, permits_iff, AtLeast, AtMost, Before}

-- Each bound of the second is at least as strict: a missing bound allows everything.
abbrev pub TighterFrom : Option ℕ → Option ℕ → Type 0
TighterFrom none b = Unit
TighterFrom (some s) none = ⊥
TighterFrom (some s) (some t) = s ≤ t

abbrev pub TighterTo : Option ℕ → Option ℕ → Type 0
TighterTo none b = Unit
TighterTo (some s) none = ⊥
TighterTo (some s) (some t) = t ≤ s

-- `narrow` grants no more than `wide` to the same agent over the same owner's memory.
pub record IsNarrower (wide narrow : Scope) : Type 0 where
  pub same_agent : wide.agent_id ≡ narrow.agent_id
  pub same_owner : wide.owner_id ≡ narrow.owner_id
  pub fewer_sources :
      (s : String) → contains narrow.sources s ≡ true → contains wide.sources s ≡ true
  pub fewer_kinds :
      (k : EntityKind) → has_kind narrow.entity_kinds k ≡ true → has_kind wide.entity_kinds k ≡ true
  pub later_start : TighterFrom wide.not_before_ms narrow.not_before_ms
  pub earlier_end : TighterTo wide.not_after_ms narrow.not_after_ms
  pub lower_ceiling : rank narrow.max_sensitivity ≤ rank wide.max_sensitivity
  pub earlier_expiry : TighterTo wide.expires_at_ms narrow.expires_at_ms

all_mono {ℓ} :
    {A : Type ℓ} (p q : A → Bool)
    → ((a : A) → p a ≡ true → q a ≡ true)
    → (xs : List A) → all p xs ≡ true
    → all q xs ≡ true
all_mono p q step [] h = h
all_mono p q step (x ∷ xs) h = ground (arith, step x, all_mono p q step xs)

AtLeast-mono :
    (wide narrow : Option ℕ) (o : ℕ) → TighterFrom wide narrow → AtLeast narrow o → AtLeast wide o
AtLeast-mono none narrow o t h = tt
AtLeast-mono (some s) none o t h = absurd t
AtLeast-mono (some s) (some u) o t h = omega arith

AtMost-mono :
    (wide narrow : Option ℕ) (o : ℕ) → TighterTo wide narrow → AtMost narrow o → AtMost wide o
AtMost-mono none narrow o t h = tt
AtMost-mono (some s) none o t h = absurd t
AtMost-mono (some s) (some u) o t h = omega arith

Before-mono :
    (wide narrow : Option ℕ) (o : ℕ) → TighterTo wide narrow → Before narrow o → Before wide o
Before-mono none narrow o t h = tt
Before-mono (some s) none o t h = absurd t
Before-mono (some s) (some u) o t h = omega arith

module _ (wide narrow : Scope) (n : IsNarrower wide narrow) (acl : ObjectAcl) (now_ms : ℕ) where
  IsCovered-narrow : IsCovered narrow acl now_ms → IsCovered wide acl now_ms
  IsCovered-narrow c = record {
    same_owner = rw (n.same_owner) c.same_owner;
    not_expired = Before-mono _ _ _ n.earlier_expiry c.not_expired;
    not_revoked = rw (n.same_agent) c.not_revoked;
    has_source = c.has_source;
    sources_granted = all_mono _ _ n.fewer_sources acl.sources c.sources_granted;
    some_kind = c.some_kind;
    kinds_granted = all_mono _ _ n.fewer_kinds acl.entity_kinds c.kinds_granted;
    not_too_old = AtLeast-mono _ _ _ n.later_start c.not_too_old;
    not_too_new = AtMost-mono _ _ _ n.earlier_end c.not_too_new;
    not_too_sensitive = omega (arith, n.lower_ceiling, c.not_too_sensitive);
  }

-- Whatever a narrower scope may see, the wider scope may see: restricting a grant, in its sources,
-- kinds, window, ceiling or expiry, never reveals another object.
pub permits-IsNarrower :
    (wide narrow : Scope)
    → IsNarrower wide narrow
    → (acl : ObjectAcl) (now_ms : ℕ) → permits narrow acl now_ms ≡ true
    → permits wide acl now_ms ≡ true
permits-IsNarrower wide narrow n acl now_ms h =
    (permits_iff wide acl now_ms).1
      (IsCovered-narrow wide narrow n acl now_ms ((permits_iff narrow acl now_ms).0 h))
