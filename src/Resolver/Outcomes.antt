-- ===== src/Resolver/Outcomes.antt =====
-- What resolving does to claims: it moves three fields, loses none, and is exact about which link is
-- recorded.
use mathlib.Core.List.{map-append, append_assoc, append-nil}
use memapp.Prelude.{
  String, ◌≡◌, refl, ap, sym, ◌∙◌, not, List, [], ◌∷◌, ◌++◌, map, keep, ltb, eqb, arith, Bool-cases,
  inl, inr,
}
use memapp.Enums.{ClaimStatus}
use memapp.Schema.{Claim, Candidate}
use memapp.Store.{Graph}
use memapp.Resolver.Defs.{
  is_unrelated, meet, pass_over, pass_done, Resolution, Session, fresh, is_stored, admit,
  stored_about, resolve_claim, resolve_claims, resolve, resolve_from, resolve_batch,
}

-- A claim without the three fields that resolving writes
abbrev pub content : Claim → Claim
content c = record c { status = ClaimStatus.active; supersedes = []; contradicts = [] }

module _ (claim other : Claim) where
  meet-content :
      (content (meet claim other).claim ≡ content claim)
      × (content (meet claim other).other ≡ content other)
  unfolding meet
  meet-content = elim (Bool-cases (is_unrelated claim other)) [
    | inl e ↦ rw e (refl, refl)
    | inr e ↦ rw e (elim (Bool-cases (ltb other.asserted_at_ms claim.asserted_at_ms)) [
      | inl f ↦ rw f (refl, refl)
      | inr f ↦ rw f (elim (Bool-cases (eqb claim.asserted_at_ms other.asserted_at_ms)) [
        | inl k ↦ rw k (refl, refl)
        | inr k ↦ rw k (refl, refl)
      ])
    ])
  ]

pass_over-content :
    (claim : Claim) (others : List Claim)
    → (content (pass_over claim others).claim ≡ content claim)
      × (map content (pass_over claim others).others ≡ map content others)
unfolding pass_over
pass_over-content claim [] = (refl, refl)
pass_over-content claim (other ∷ rest) =
    let m = meet-content claim other in
    let later = pass_over-content (meet claim other).claim rest in
    (later.0 ∙ m.0, ap (λ l. l) (cc (m.1, later.1)))

abbrev pub contents : Resolution → List Claim
contents r = map content r.new_claims

pass_done-content :
    (claim : Claim) (done : List Resolution)
    → (content (pass_done claim done).claim ≡ content claim)
      × (map contents (pass_done claim done).others ≡ map contents done)
unfolding pass_done
pass_done-content claim [] = (refl, refl)
pass_done-content claim (r ∷ rest) =
    let here = pass_over-content claim r.new_claims in
    let later = pass_done-content (pass_over claim r.new_claims).claim rest in
    (later.0 ∙ here.0, cc (here.1, later.1))

module _ {V : Type 0} (g : Graph V) (owner_id : String) where
  -- The claims of a candidate that are not stored yet
  abbrev pub unstored : List Claim → List Claim
  unstored claims = keep (λ c. not (is_stored g owner_id c)) claims

  admit-content :
      (claim : Claim) (s : Session)
      → (map contents (admit g owner_id claim s).done ≡ map contents s.done)
        × (contents (admit g owner_id claim s).current ≡ contents s.current ++ content claim ∷ [])
  unfolding admit
  admit-content claim s =
      let a = pass_over-content claim (stored_about g owner_id claim) in
      let first = (pass_over claim (stored_about g owner_id claim)).claim in
      let b = pass_done-content first s.done in
      let second = (pass_done first s.done).claim in
      let c = pass_over-content second s.current.new_claims in
      (b.1, rw map-append (cc (c.1, c.0, b.0, a.0)))

  resolve_claim-content :
      (claim : Claim) (s : Session)
      → (map contents (resolve_claim g owner_id claim s).done ≡ map contents s.done)
        × (contents (resolve_claim g owner_id claim s).current
            ≡ contents s.current ++ map content (unstored (claim ∷ [])))
  unfolding resolve_claim
  resolve_claim-content claim s = elim (Bool-cases (is_stored g owner_id claim)) [
    | inl e ↦ rw e (refl, sym (append-nil _))
    | inr e ↦ rw e (admit-content claim s)
  ]

  unstored-cons :
      (claim : Claim) (rest : List Claim)
      → map content (unstored (claim ∷ rest))
        ≡ map content (unstored (claim ∷ [])) ++ map content (unstored rest)
  unstored-cons claim rest = ground arith

  resolve_claims-content :
      (claims : List Claim) (s : Session)
      → (map contents (resolve_claims g owner_id claims s).done ≡ map contents s.done)
        × (contents (resolve_claims g owner_id claims s).current
            ≡ contents s.current ++ map content (unstored claims))
  unfolding resolve_claims
  resolve_claims-content [] s = (refl, sym (append-nil _))
  resolve_claims-content (claim ∷ rest) s =
      let one = resolve_claim-content claim s in
      let more = resolve_claims-content rest (resolve_claim g owner_id claim s) in
      (
        more.0 ∙ one.0,
        more.1
            ∙ ap (λ l. l ++ map content (unstored rest)) one.1
            ∙ append_assoc (contents s.current) (map content (unstored (claim ∷ [])))
                (map content (unstored rest))
            ∙ ap (λ l. contents s.current ++ l) (sym (unstored-cons claim rest)),
      )

  abbrev pub fresh_contents : Candidate → List Claim
  fresh_contents candidate = map content (unstored candidate.claims)

  resolve_from-content :
      (done : List Resolution) (candidates : List Candidate)
      → map contents (resolve_from g owner_id done candidates)
        ≡ map contents done ++ map fresh_contents candidates
  unfolding resolve_from resolve
  resolve_from-content done [] = sym (append-nil _)
  resolve_from-content done (candidate ∷ rest) =
      let start : Session = record { done = done; current = fresh } in
      let s = resolve_claims g owner_id candidate.claims start in
      let kept = resolve_claims-content candidate.claims start in
      resolve_from-content (s.done ++ s.current ∷ []) rest
      ∙ ap (λ l. l ++ map fresh_contents rest) (map-append contents s.done (s.current ∷ []))
      ∙ append_assoc (map contents s.done) (contents s.current ∷ []) (map fresh_contents rest)
      ∙ cc (kept.0, kept.1)

-- A batch loses no claim and rewrites none: the resolution of each candidate holds the candidate's
-- claims that are not stored yet, in order, and each of them differs from what was extracted in its
-- status and its two lists of links alone.
pub resolve_batch-contents :
    {V : Type 0} (g : Graph V) (owner_id : String) (candidates : List Candidate)
    → map contents (resolve_batch g owner_id candidates)
      ≡ map (λ c. map content (keep (λ m. not (is_stored g owner_id m)) c.claims)) candidates
unfolding resolve_batch
resolve_batch-contents g owner_id candidates = resolve_from-content g owner_id [] candidates
