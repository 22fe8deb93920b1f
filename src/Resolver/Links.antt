-- ===== src/Resolver/Links.antt =====
-- Exactly which links one claim's loop records, and where they are kept.
use mathlib.Core.List.{append-nil, append_assoc}
use memapp.Prelude.{
  sym, ℕ, String, ◌≡◌, refl, ap, ◌∙◌, Bool, true, false, not, ◌&&◌, List, [], ◌∷◌, ◌++◌, map, keep,
  gather, ltb, eqb, arith, if◌then◌else◌, Bool-cases, inl, inr,
}
use memapp.Enums.{ClaimStatus}
use memapp.Schema.{Claim}
use memapp.Resolver.Defs.{is_unrelated, meet, pass_over, take_over, clash, arrive_late}

-- The other claim is about the same topic, says something else, is active, and is older, as old, or
-- newer than the claim.
abbrev pub overtaken : Claim → Claim → Bool
overtaken claim other =
    not (is_unrelated claim other) && ltb other.asserted_at_ms claim.asserted_at_ms

abbrev pub tied : Claim → Claim → Bool
tied claim other = not (is_unrelated claim other) && eqb claim.asserted_at_ms other.asserted_at_ms

abbrev pub newer : Claim → Claim → Bool
newer claim other = not (is_unrelated claim other) && ltb claim.asserted_at_ms other.asserted_at_ms

abbrev pub retire : Claim → Claim → Claim
retire claim other =
    if overtaken claim other then record other { status = ClaimStatus.superseded } else other

abbrev pub recorded : Claim → Claim → List (String × String)
recorded claim other =
    if overtaken claim other
    then (claim.id, other.id) ∷ []
    else if newer claim other
    then (other.id, claim.id) ∷ []
    else []

abbrev pub ids : List Claim → List String
ids = map (λ c. c.id)

-- The result of the loop, described by the tests alone
pub record IsExact (claim : Claim) (others : List Claim) : Type 0 where
  pub supersedes :
      (pass_over claim others).claim.supersedes
      ≡ claim.supersedes ++ ids (keep (overtaken claim) others)
  pub contradicts :
      (pass_over claim others).claim.contradicts
      ≡ claim.contradicts ++ ids (keep (tied claim) others)
  pub others_retired : (pass_over claim others).others ≡ map (retire claim) others
  pub supersessions : (pass_over claim others).links.supersessions ≡ gather (recorded claim) others
  pub contradictions :
      (pass_over claim others).links.contradictions
      ≡ map (λ o. (claim.id, o.id)) (keep (tied claim) others)

older_not_tied : (a b : ℕ) → ltb b a ≡ true → (eqb a b ≡ false) × (ltb a b ≡ false)
older_not_tied a b h = ground arith

tied_not_newer : (a b : ℕ) → eqb a b ≡ true → ltb a b ≡ false
tied_not_newer a b h = ground arith

newer_otherwise : (a b : ℕ) → ltb b a ≡ false → eqb a b ≡ false → ltb a b ≡ true
newer_otherwise a b h k = ground arith

-- The loop over existing claims does exactly this, whatever it meets: the claim supersedes the ids of
-- the older claims and contradicts those of the claims as old, in order; the older ones become
-- superseded and no other changes; and the links recorded are those of the older claims, and, the other
-- way round, of the newer ones, which the claim's own list of superseded ids does not hold.
pub pass_over-IsExact : (claim : Claim) (others : List Claim) → IsExact claim others
unfolding pass_over meet
pass_over-IsExact claim [] = record {
  supersedes = sym (append-nil claim.supersedes);
  contradicts = sym (append-nil claim.contradicts);
  others_retired = refl;
  supersessions = refl;
  contradictions = refl;
}
pass_over-IsExact claim (other ∷ rest) = elim (Bool-cases (is_unrelated claim other)) [
  | inl e ↦
      let h = pass_over-IsExact claim rest in
      record {
        supersedes = rw e h.supersedes;
        contradicts = rw e h.contradicts;
        others_retired = rw e (ap (◌∷◌ other) h.others_retired);
        supersessions = rw e h.supersessions;
        contradictions = rw e h.contradictions;
      }
  | inr e ↦ elim (Bool-cases (ltb other.asserted_at_ms claim.asserted_at_ms)) [
    | inl f ↦
        let h = pass_over-IsExact (take_over claim other).claim rest in
        let (no_tie, no_newer) = older_not_tied claim.asserted_at_ms other.asserted_at_ms f in
        record {
          supersedes = rw (e, f) (h.supersedes ∙ append_assoc claim.supersedes (other.id ∷ []) _);
          contradicts = rw (e, f, no_tie) h.contradicts;
          others_retired = rw (e, f) (ap (◌∷◌ (take_over claim other).other) h.others_retired);
          supersessions = rw (e, f) (ap (◌∷◌ (claim.id, other.id)) h.supersessions);
          contradictions = rw (e, f, no_tie) h.contradictions;
        }
    | inr f ↦ elim (Bool-cases (eqb claim.asserted_at_ms other.asserted_at_ms)) [
      | inl k ↦
          let h = pass_over-IsExact (clash claim other).claim rest in
          let no_newer = tied_not_newer claim.asserted_at_ms other.asserted_at_ms k in
          record {
            supersedes = rw (e, f, k) h.supersedes;
            contradicts =
                rw (e, f, k) (h.contradicts ∙ append_assoc claim.contradicts (other.id ∷ []) _);
            others_retired = rw (e, f, k) (ap (◌∷◌ other) h.others_retired);
            supersessions = rw (e, f, k, no_newer) h.supersessions;
            contradictions = rw (e, f, k) (ap (◌∷◌ (claim.id, other.id)) h.contradictions);
          }
      | inr k ↦
          let h = pass_over-IsExact (arrive_late claim other).claim rest in
          let late = newer_otherwise claim.asserted_at_ms other.asserted_at_ms f k in
          record {
            supersedes = rw (e, f, k) h.supersedes;
            contradicts = rw (e, f, k) h.contradicts;
            others_retired = rw (e, f, k) (ap (◌∷◌ other) h.others_retired);
            supersessions = rw (e, f, k, late) (ap (◌∷◌ (other.id, claim.id)) h.supersessions);
            contradictions = rw (e, f, k) h.contradictions;
          }
    ]
  ]
]
