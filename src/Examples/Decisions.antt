-- ===== src/Examples/Decisions.antt =====
-- Decisions and resolutions on the samples.
use memapp.Prelude.{◌≡◌, refl, ◌↔◌, true, not, [], ◌∷◌, map, arith, keep}
use memapp.Enums.{EntityKind}
use memapp.Permissions.{has_kind, permits, evaluate}
use memapp.Permissions.Rules.{IsCovered, permits_iff}
use memapp.Permissions.Narrowing.{IsNarrower, permits-IsNarrower}
use memapp.Resolver.Topics.{topic, same_set}
use memapp.Resolver.Defs.{resolve_batch, is_stored}
use memapp.Resolver.Links.{IsExact, pass_over-IsExact}
use memapp.Resolver.Outcomes.{content, contents, resolve_batch-contents}
use memapp.Examples.Samples.{scope, narrow_scope, acl_of, postgres, neo4j, batch, memory}

-- Two statements that differ in the last word and in case are about the same topic.
topic_test :
    same_set (topic "Project Atlas will use Postgres.") (topic "the project ATLAS will use Neo4j")
    ≡ true
unfolding topic
topic_test = refl

permits_iff_example : (permits scope (acl_of "mock") 50 ≡ true) ↔ IsCovered scope (acl_of "mock") 50
permits_iff_example = permits_iff scope (acl_of "mock") 50

topic_only :
    (k : EntityKind)
    → has_kind narrow_scope.entity_kinds k ≡ true
    → has_kind scope.entity_kinds k ≡ true
topic_only k h = ground arith

narrow_scope-IsNarrower : IsNarrower scope narrow_scope
narrow_scope-IsNarrower = record {
  same_agent = refl;
  same_owner = refl;
  fewer_sources = λ s h. h;
  fewer_kinds = topic_only;
  later_start = omega arith;
  earlier_end = tt;
  lower_ceiling = omega arith;
  earlier_expiry = omega arith;
}

narrow-permits : permits narrow_scope (acl_of "mock") 50 ≡ true
unfolding permits evaluate
narrow-permits = refl

permits-IsNarrower_example : permits scope (acl_of "mock") 50 ≡ true
permits-IsNarrower_example =
    permits-IsNarrower scope narrow_scope narrow_scope-IsNarrower (acl_of "mock") 50 narrow-permits

pass_over-IsExact_example : IsExact neo4j (postgres ∷ [])
pass_over-IsExact_example = pass_over-IsExact neo4j (postgres ∷ [])

resolve_batch-contents_example :
    map contents (resolve_batch memory "ann" batch)
    ≡ map (λ c. map content (keep (λ m. not (is_stored memory "ann" m)) c.claims)) batch
resolve_batch-contents_example = resolve_batch-contents memory "ann" batch
