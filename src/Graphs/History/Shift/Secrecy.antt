-- ===== src/Graphs/History/Shift/Secrecy.antt =====
-- A shift history shows nothing of what a denied claim says.
use memapp.Prelude.{
  ℕ, String, ◌≡◌, refl, sym, ap, ◌∙◌, inl, inr, Option, none, some, List, [], ◌∷◌, map, eq_iff,
  Option-cases, All, keep_some, cons_some,
}
use mathlib.Core.Path.{ap₂}
use memapp.Prelude.Dict.{Dict, map_values, map_found, put_all, put_all-map_values, put_all-All}
use memapp.Permissions.{Scope}
use memapp.Schema.{Claim, MemoryNode, node_id, node_acl}
use memapp.Store.{Label}
use memapp.Graphs.Checked.{Found, Checks, verdict, verdict_of, note, check_from, check_permissions}
use memapp.Graphs.History.Views.{Printer}
use memapp.Graphs.History.Shift.{Walk, claim_entry, stored, assemble, assemble_claims, shift_answer}
use memapp.Graphs.History.Shift.Veil.{veil}
use memapp.Graphs.History.Shift.Assembly.{Keyed, assemble_claims-veil}

abbrev pub veil_node : Dict (Option String) → MemoryNode → MemoryNode
veil_node verdicts (MemoryNode.claim m) = MemoryNode.claim (veil verdicts m)
veil_node verdicts (MemoryNode.entity e) = MemoryNode.entity e
veil_node verdicts (MemoryNode.event e) = MemoryNode.event e

-- The candidate with nothing of a denied claim left but what the history is arranged by
abbrev pub veil_found : Dict (Option String) → Found → Found
veil_found verdicts c = record c { node = veil_node verdicts c.node }

-- Each candidate is known by the id of its object.
abbrev pub IsNamed : List Found → Type 0
IsNamed = All (λ c. c.id ≡ node_id c.node)

module _ (verdicts : Dict (Option String)) where
  acl-veil : (m : Claim) → (veil verdicts m).acl ≡ m.acl
  acl-veil m = elim (Option-cases (verdict_of verdicts m.id)) [ inl e ↦ rw e | inr (r, e) ↦ rw e ]

  node_acl-veil : (n : MemoryNode) → node_acl (veil_node verdicts n) ≡ node_acl n
  node_acl-veil (MemoryNode.claim m) = acl-veil m
  node_acl-veil (MemoryNode.entity e) = refl
  node_acl-veil (MemoryNode.event e) = refl

  check_from-veil :
      (scope : Scope) (now_ms : ℕ) (done : Checks) (candidates : List Found)
      → check_from scope now_ms done (map (veil_found verdicts) candidates)
        ≡ check_from scope now_ms done candidates
  unfolding check_from
  check_from-veil scope now_ms done [] = refl
  check_from-veil scope now_ms done (c ∷ rest) =
      ap
        (λ a.
          check_from scope now_ms (note c.id (verdict scope now_ms a) done)
            (map (veil_found verdicts) rest))
        (node_acl-veil c.node)
      ∙ check_from-veil scope now_ms (note c.id (verdict scope now_ms (node_acl c.node)) done) rest

  claim_entry-veil :
      (i : String) (l : Label) (n : MemoryNode)
      → claim_entry (veil_found verdicts (record { id = i; label = l; node = n }))
        ≡ map_found
            (λ p. (p.0, veil verdicts p.1))
            (claim_entry (record { id = i; label = l; node = n }))
  claim_entry-veil i l (MemoryNode.claim m) = refl
  claim_entry-veil i l (MemoryNode.entity e) = refl
  claim_entry-veil i l (MemoryNode.event e) = refl

  cons_some-veil :
      (o : Option (String × Claim)) (l : Dict Claim)
      → cons_some (map_found (λ p. (p.0, veil verdicts p.1)) o) (map_values (veil verdicts) l)
        ≡ map_values (veil verdicts) (cons_some o l)
  cons_some-veil none l = refl
  cons_some-veil (some p) l = refl

  entries-veil :
      (candidates : List Found)
      → keep_some claim_entry (map (veil_found verdicts) candidates)
        ≡ map_values (veil verdicts) (keep_some claim_entry candidates)
  entries-veil [] = refl
  entries-veil (c ∷ rest) =
      ap₂ cons_some (claim_entry-veil c.id c.label c.node) (entries-veil rest)
      ∙ cons_some-veil (claim_entry c) (keep_some claim_entry rest)

  stored-veil :
      (candidates : List Found)
      → stored (map (veil_found verdicts) candidates)
        ≡ map_values (veil verdicts) (stored candidates)
  stored-veil candidates =
      ap (λ l. put_all l []) (entries-veil candidates)
      ∙ put_all-map_values (veil verdicts) (keep_some claim_entry candidates) []

check_permissions-veil :
    (verdicts : Dict (Option String)) (scope : Scope) (now_ms : ℕ) (candidates : List Found)
    → check_permissions scope now_ms (map (veil_found verdicts) candidates)
      ≡ check_permissions scope now_ms candidates
unfolding check_permissions
check_permissions-veil verdicts scope now_ms candidates =
    check_from-veil verdicts scope now_ms (record { verdicts = []; denials = [] }) candidates

entries-Keyed :
    (candidates : List Found)
    → IsNamed candidates
    → All (λ (p : String × Claim). p.1.id ≡ p.0) (keep_some claim_entry candidates)
entries-Keyed [] named = tt
entries-Keyed (c ∷ rest) named = entry_first c.node named.0 (entries-Keyed rest named.1)
  where
    entry_first :
        (n : MemoryNode)
        → c.id ≡ node_id n
        → All (λ (p : String × Claim). p.1.id ≡ p.0) (keep_some claim_entry rest)
        → All
            (λ (p : String × Claim). p.1.id ≡ p.0)
            (cons_some (claim_entry (record c { node = n })) (keep_some claim_entry rest))
    entry_first (MemoryNode.claim m) e h = (sym e, h)
    entry_first (MemoryNode.entity x) e h = h
    entry_first (MemoryNode.event x) e h = h

stored-Keyed :
    (verdicts : Dict (Option String)) (candidates : List Found)
    → IsNamed candidates
    → Keyed verdicts (stored candidates)
stored-Keyed verdicts candidates named =
    put_all-All (λ p. p.1.id ≡ p.0) (keep_some claim_entry candidates) []
      (λ k j a e h. h ∙ sym ((eq_iff j k).0 e)) (entries-Keyed candidates named) tt

-- A denied claim's statement, status, sources, citations, commitment, subjects and contradictions never
-- reach a shift history: with all of them blanked in every denied claim the whole result, its chain,
-- steps, conflicts, reconciliations and text, is the same. What stays is what the history is arranged
-- by: the id, the time of assertion, the superseded ids and the target of a reconciliation.
pub shift_answer-veil :
    (printer : Printer) (scope : Scope) (now_ms : ℕ) (claim_id : String) (w : Walk)
    → IsNamed w.candidates
    → shift_answer printer scope now_ms claim_id (record w {
      candidates =
          map (veil_found (check_permissions scope now_ms w.candidates).verdicts) w.candidates;
    })
      ≡ shift_answer printer scope now_ms claim_id w
unfolding shift_answer assemble
shift_answer-veil printer scope now_ms claim_id w named =
    let verdicts = (check_permissions scope now_ms w.candidates).verdicts in
    let veiled : List Found = map (veil_found verdicts) w.candidates in
    ap (assemble printer claim_id (record w { candidates = veiled }))
      (check_permissions-veil verdicts scope now_ms w.candidates)
    ∙ ap
        (assemble_claims printer claim_id (check_permissions scope now_ms w.candidates) w.edges
          w.in_chain)
        (stored-veil verdicts w.candidates)
    ∙ assemble_claims-veil printer claim_id (check_permissions scope now_ms w.candidates) w.edges
        w.in_chain (stored w.candidates) (stored-Keyed verdicts w.candidates named)
