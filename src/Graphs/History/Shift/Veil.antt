-- ===== src/Graphs/History/Shift/Veil.antt =====
-- A shift history shows nothing of what a denied claim says.
use memapp.Prelude.{
  String, ◌≡◌, refl, sym, ap, ◌∙◌, ◌⊎◌, inl, inr, Option, none, some, List, [], ◌∷◌, ◌++◌, map,
  Option-cases, keep, gather, keep_some, cons_some, contains,
}
use mathlib.Core.Path.{fun_ext, ap₂}
use memapp.Prelude.Dict.{
  Dict, find, values, map_values, map_found, find-map_values, values-map_values, keep-map_values,
}
use memapp.Prelude.Order.{sort_by, sort_by-map}
use memapp.Enums.{ClaimStatus}
use memapp.Schema.{Claim}
use memapp.Graphs.Checked.{verdict_of}
use memapp.Graphs.History.Views.{claim_view, step}
use memapp.Graphs.History.Shift.{claim_le, view, step_to, steps_of, steps, ordered}

-- What a history is arranged by: the id, the time, the links and the access list
abbrev pub veiled : Claim → Claim
veiled c = record {
  id = c.id;
  owner_id = "";
  statement = "";
  subject_entity_ids = [];
  status = ClaimStatus.active;
  supersedes = c.supersedes;
  contradicts = [];
  reconciled_into = c.reconciled_into;
  commitment = none;
  asserted_at_ms = c.asserted_at_ms;
  provenance = record { citations = []; derived_by = ""; confidence = 0; created_at_ms = 0 };
  acl = c.acl;
}

abbrev pub veil_by : Option String → Claim → Claim
veil_by none c = c
veil_by (some reason) c = veiled c

gather-map {ℓ κ} :
    {A : Type ℓ} {B : Type κ} (f : A → A) (g h : A → List B)
    → ((a : A) → g (f a) ≡ h a)
    → (xs : List A) → gather g (map f xs) ≡ gather h xs
gather-map f g h same [] = refl
gather-map f g h same (x ∷ xs) = ap₂ (λ l m. l ++ m) (same x) (gather-map f g h same xs)

pub keep_some-map {ℓ κ} :
    {A : Type ℓ} {B : Type κ} (f : A → A) (g h : A → Option B)
    → ((a : A) → g (f a) ≡ h a)
    → (xs : List A) → keep_some g (map f xs) ≡ keep_some h xs
keep_some-map f g h same [] = refl
keep_some-map f g h same (x ∷ xs) = ap₂ cons_some (same x) (keep_some-map f g h same xs)

module _ (verdicts : Dict (Option String)) where
  -- The claim, or only its frame if it is denied
  abbrev pub veil : Claim → Claim
  veil c = veil_by (verdict_of verdicts c.id) c

  pub veil-frame :
      (c : Claim)
      → ((veil c).id ≡ c.id)
        × ((veil c).asserted_at_ms ≡ c.asserted_at_ms)
        × ((veil c).supersedes ≡ c.supersedes)
        × ((veil c).reconciled_into ≡ c.reconciled_into)
  veil-frame c = elim (Option-cases (verdict_of verdicts c.id)) [
    | inl e ↦ rw e (refl, refl, refl, refl)
    | inr (r, e) ↦ rw e (refl, refl, refl, refl)
  ]

  claim_le-veil : (a b : Claim) → claim_le (veil a) (veil b) ≡ claim_le a b
  claim_le-veil a b =
      let (ia, ta, _, _) = veil-frame a in let (ib, tb, _, _) = veil-frame b in rw (ia, ta, ib, tb)

  veil_cases :
      (c : Claim)
      → (veil c ≡ c)
        ⊎ ((reason : String) × (verdict_of verdicts c.id ≡ some reason) × (veil c ≡ veiled c))
  veil_cases c = elim (Option-cases (verdict_of verdicts c.id)) [
    | inl e ↦ inl (ap (λ v. veil_by v c) e)
    | inr (r, e) ↦ inr (r, e, ap (λ v. veil_by v c) e)
  ]

  pub view-veil : (c : Claim) → view verdicts (veil c) ≡ view verdicts c
  unfolding claim_view
  view-veil c = elim (veil_cases c) [
    | inl p ↦ ap (view verdicts) p
    | inr (r, e, p) ↦ ap (view verdicts) p ∙ rw e
  ]

  pub claim_view-veil :
      (c : Claim) (k : String)
      → c.id ≡ k
      → claim_view (veil c) (verdict_of verdicts k) ≡ claim_view c (verdict_of verdicts k)
  claim_view-veil c k same =
      ap (λ i. claim_view (veil c) (verdict_of verdicts i)) (sym same ∙ sym ((veil-frame c).0))
      ∙ view-veil c
      ∙ ap (λ i. claim_view c (verdict_of verdicts i)) same

  step-veil_left : (a b : Claim) → step (veil a) b verdicts ≡ step a b verdicts
  unfolding step
  step-veil_left a b = elim (veil_cases a) [
    | inl p ↦ ap (λ c. step c b verdicts) p
    | inr (r, e, p) ↦ ap (λ c. step c b verdicts) p ∙ rw e
  ]

  step-veil_right : (a b : Claim) → step a (veil b) verdicts ≡ step a b verdicts
  unfolding step
  step-veil_right a b = elim (veil_cases b) [
    | inl p ↦ ap (λ c. step a c verdicts) p
    | inr (r, e, p) ↦
        ap (λ c. step a c verdicts) p ∙ elim (Option-cases (verdict_of verdicts a.id)) [
          | inl f ↦ rw (e, f)
          | inr (s, f) ↦ rw (e, f)
        ]
  ]

  step-veil : (a b : Claim) → step (veil a) (veil b) verdicts ≡ step a b verdicts
  step-veil a b = step-veil_left a (veil b) ∙ step-veil_right a b

  step_to-veil :
      (c : Claim) (o : Option Claim)
      → step_to verdicts (veil c) (map_found veil o) ≡ step_to verdicts c o
  step_to-veil c none = refl
  step_to-veil c (some earlier) = ap some (step-veil c earlier)

  steps_of-veil :
      (claims : Dict Claim) (c : Claim)
      → steps_of verdicts (map_values veil claims) (veil c) ≡ steps_of verdicts claims c
  steps_of-veil claims c =
      ap₂ keep_some
        (fun_ext λ i.
          ap (step_to verdicts (veil c)) (find-map_values veil i claims)
          ∙ step_to-veil c (find i claims))
        ((veil-frame c).2)

  pub steps-veil :
      (claims : Dict Claim) → steps verdicts (map_values veil claims) ≡ steps verdicts claims
  steps-veil claims =
      ap (λ l. gather (steps_of verdicts (map_values veil claims)) (sort_by claim_le l))
        (values-map_values veil claims)
      ∙ ap (gather (steps_of verdicts (map_values veil claims)))
          (sort_by-map claim_le veil claim_le-veil (values claims))
      ∙ gather-map veil (steps_of verdicts (map_values veil claims)) (steps_of verdicts claims)
          (steps_of-veil claims) (sort_by claim_le (values claims))

  pub ordered-veil :
      (in_chain : List String) (claims : Dict Claim)
      → ordered in_chain (map_values veil claims) ≡ map veil (ordered in_chain claims)
  ordered-veil in_chain claims =
      ap (λ d. sort_by claim_le (values d)) (keep-map_values veil (contains in_chain) claims)
      ∙ ap (sort_by claim_le) (values-map_values veil (keep (λ p. contains in_chain p.0) claims))
      ∙ sort_by-map claim_le veil claim_le-veil (values (keep (λ p. contains in_chain p.0) claims))

  pub views-veil :
      (claims : List Claim) → map (view verdicts) (map veil claims) ≡ map (view verdicts) claims
  views-veil [] = refl
  views-veil (c ∷ rest) = ap₂ (λ v l. v ∷ l) (view-veil c) (views-veil rest)
