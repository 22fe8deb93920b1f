-- ===== src/Graphs/History/Shift/Assembly.antt =====
-- The conflicts, the reconciliations and the whole assembly of a shift history, over veiled claims.
use memapp.Prelude.{
  String, ◌≡◌, refl, ap, ◌∙◌, inl, inr, true, not, Option, none, some, List, [], ◌∷◌, map, arith,
  ◌==◌, eq_iff, if◌then◌else◌, Bool-cases, length, is_empty, all, All, keep_some, length-map,
  is_empty-map,
}
use mathlib.Core.Path.{fun_ext, ap₂}
use memapp.Prelude.Dict.{Dict, find, map_values, map_found, find-map_values, all-map_values}
use memapp.Schema.{Claim}
use memapp.Graphs.Checked.{Checks, verdict_of}
use memapp.Graphs.History.Views.{Printer, passes, shift_text}
use memapp.Graphs.History.Shift.{
  nothing_found, declined, view, steps, conflict, conflict_of, target_view, reconciliation_of,
  non_empty, reconciliation, ordered, assemble_claims, target_of,
}
use memapp.Graphs.History.Shift.Veil.{
  veil, veil-frame, view-veil, claim_view-veil, steps-veil, ordered-veil, views-veil, keep_some-map,
}

module _ (verdicts : Dict (Option String)) where
  -- Each claim stands under its own id.
  abbrev pub Keyed : Dict Claim → Type 0
  Keyed = All (λ p. p.1.id ≡ p.0)

  find-Keyed :
      (claims : Dict Claim) (i : String) (c : Claim)
      → Keyed claims
      → find i claims ≡ some c
      → c.id ≡ i
  find-Keyed [] i c keyed h = cc
  find-Keyed ((j, d) ∷ rest) i c keyed h = elim (Bool-cases (j == i)) [
    | inl e ↦ ground (arith, eq_iff j i)
    | inr e ↦ find-Keyed rest i c keyed.1 (rw e at h)
  ]

  module _ (claims : Dict Claim) (keyed : Keyed claims) where
    conflict_of-veil :
        (a b : String) (x y : Option Claim)
        → find a claims ≡ x
        → find b claims ≡ y
        → conflict_of verdicts a b (map_found (veil verdicts) x) (map_found (veil verdicts) y)
          ≡ conflict_of verdicts a b x y
    conflict_of-veil a b none y ex ey = refl
    conflict_of-veil a b (some x) none ex ey = refl
    conflict_of-veil a b (some x) (some y) ex ey =
        ap₂ (λ v w. some (record { claim = v; contradicts = w }))
          (claim_view-veil verdicts x a (find-Keyed claims a x keyed ex))
          (claim_view-veil verdicts y b (find-Keyed claims b y keyed ey))

    conflict-veil :
        (pair : String × String)
        → conflict verdicts (map_values (veil verdicts) claims) pair ≡ conflict verdicts claims pair
    conflict-veil (a, b) =
        ap₂ (conflict_of verdicts a b) (find-map_values (veil verdicts) a claims)
          (find-map_values (veil verdicts) b claims)
        ∙ conflict_of-veil a b (find a claims) (find b claims) refl refl

    target_view-veil :
        (t : String) (o : Option Claim)
        → find t claims ≡ o
        → target_view verdicts t (map_found (veil verdicts) o) ≡ target_view verdicts t o
    target_view-veil t none e = refl
    target_view-veil t (some m) e = claim_view-veil verdicts m t (find-Keyed claims t m keyed e)

    reconciliation_of-veil :
        (c : Claim) (o : Option String)
        → reconciliation_of verdicts (map_values (veil verdicts) claims) (veil verdicts c) o
          ≡ reconciliation_of verdicts claims c o
    reconciliation_of-veil c none = refl
    reconciliation_of-veil c (some t) =
        ap₂ (λ v w. some (record { claim = v; reconciled_into = w })) (view-veil verdicts c)
          (ap (target_view verdicts t) (find-map_values (veil verdicts) t claims)
            ∙ target_view-veil t (find t claims) refl)

    reconciliation-veil :
        (c : Claim)
        → reconciliation verdicts (map_values (veil verdicts) claims) (veil verdicts c)
          ≡ reconciliation verdicts claims c
    reconciliation-veil c =
        ap
          (λ o.
            reconciliation_of verdicts (map_values (veil verdicts) claims) (veil verdicts c)
              (non_empty o))
          ((veil-frame verdicts c).3)
        ∙ reconciliation_of-veil c (target_of c)

module _ (printer : Printer) (claim_id : String) (checks : Checks) where
  pub assemble_claims-veil :
      (edges : List (String × String)) (in_chain : List String) (claims : Dict Claim)
      → Keyed checks.verdicts claims
      → assemble_claims printer claim_id checks edges in_chain
          (map_values (veil checks.verdicts) claims)
        ≡ assemble_claims printer claim_id checks edges in_chain claims
  unfolding assemble_claims
  assemble_claims-veil edges in_chain claims keyed = λ i.
      if none_found i
      then nothing_found printer claim_id
      else if all_denied i
      then declined claim_id checks.denials (number i)
      else record {
        claim_id = claim_id;
        answered = true;
        text = shift_text printer claim_id (same_steps i) (same_conflicts i);
        chain = same_chain i;
        steps = same_steps i;
        conflicts = same_conflicts i;
        reconciliations = same_reconciliations i;
        denied = checks.denials;
        considered = number i;
      }
    where
      veil' : Claim → Claim
      veil' = veil checks.verdicts

      none_found : is_empty (map_values veil' claims) ≡ is_empty claims
      none_found = is_empty-map (λ p. (p.0, veil' p.1)) claims

      all_denied :
          all (λ p. not (passes (verdict_of checks.verdicts p.0))) (map_values veil' claims)
          ≡ all (λ p. not (passes (verdict_of checks.verdicts p.0))) claims
      all_denied = all-map_values veil' (λ k. not (passes (verdict_of checks.verdicts k))) claims

      number : length (map_values veil' claims) ≡ length claims
      number = length-map (λ p. (p.0, veil' p.1)) claims

      same_steps : steps checks.verdicts (map_values veil' claims) ≡ steps checks.verdicts claims
      same_steps = steps-veil checks.verdicts claims

      same_conflicts :
          keep_some (conflict checks.verdicts (map_values veil' claims)) edges
          ≡ keep_some (conflict checks.verdicts claims) edges
      same_conflicts =
          ap (λ f. keep_some f edges) (fun_ext (conflict-veil checks.verdicts claims keyed))

      same_chain :
          map (view checks.verdicts) (ordered in_chain (map_values veil' claims))
          ≡ map (view checks.verdicts) (ordered in_chain claims)
      same_chain =
          ap (map (view checks.verdicts)) (ordered-veil checks.verdicts in_chain claims)
          ∙ views-veil checks.verdicts (ordered in_chain claims)

      same_reconciliations :
          keep_some
            (reconciliation checks.verdicts (map_values veil' claims))
            (ordered in_chain (map_values veil' claims))
          ≡ keep_some (reconciliation checks.verdicts claims) (ordered in_chain claims)
      same_reconciliations =
          ap (keep_some (reconciliation checks.verdicts (map_values veil' claims)))
            (ordered-veil checks.verdicts in_chain claims)
          ∙ keep_some-map veil' (reconciliation checks.verdicts (map_values veil' claims))
              (reconciliation checks.verdicts claims)
              (reconciliation-veil checks.verdicts claims keyed) (ordered in_chain claims)
