-- ===== src/Graphs/Query/Answers.antt =====
-- What an answer may depend on.
use mathlib.Core.List.{append-nil, append_assoc}
use memapp.Prelude.{
  ℕ, String, ◌+◌, ◌≡◌, refl, sym, ap, ◌∙◌, inl, inr, Bool, not, List, [], ◌∷◌, ◌++◌, map, arith,
  if◌then◌else◌, Bool-cases, length, is_empty, any, keep, length-keep-add, length-map,
}
use memapp.Permissions.{Scope, evaluate, allowed}
use memapp.Schema.{node_acl}
use memapp.Store.{Label}
use memapp.Graphs.Checked.{Found, Denial, blank, reason_text}
use memapp.Graphs.Query.{
  QueryAnswer, Sorted, sort_from, check_permissions, assemble, answer, citation_of,
}

module _ (scope : Scope) (now_ms : ℕ) where
  -- The agent may see the candidate.
  abbrev pub is_visible : Found → Bool
  is_visible c = allowed (evaluate scope (node_acl c.node) now_ms)

  abbrev pub denial_of : Found → Denial
  denial_of c = record { id = c.id; reason = reason_text (evaluate scope (node_acl c.node) now_ms) }

  sort_from-keep :
      (done : Sorted) (candidates : List Found)
      → sort_from scope now_ms done candidates ≡ record {
        permitted = done.permitted ++ keep is_visible candidates;
        denials = done.denials ++ map denial_of (keep (λ c. not (is_visible c)) candidates);
      }
  unfolding sort_from
  sort_from-keep done [] = λ i. record {
    permitted = sym (append-nil done.permitted) i;
    denials = sym (append-nil done.denials) i;
  }
  sort_from-keep done (c ∷ rest) = elim (Bool-cases (is_visible c)) [
    | inl e ↦ rw e (
        sort_from-keep (record done { permitted = done.permitted ++ c ∷ [] }) rest
        ∙ rw append_assoc)
    | inr e ↦ rw e (
        sort_from-keep (record done { denials = done.denials ++ denial_of c ∷ [] }) rest
        ∙ rw append_assoc)
  ]

  -- The check splits the candidates in two, in their order: those that the scope permits, and a denial
  -- with its reason for each of the others.
  pub check_permissions-eq :
      (candidates : List Found)
      → check_permissions scope now_ms candidates ≡ record {
        permitted = keep is_visible candidates;
        denials = map denial_of (keep (λ c. not (is_visible c)) candidates);
      }
  unfolding check_permissions
  check_permissions-eq candidates =
      sort_from-keep (record { permitted = []; denials = [] }) candidates

  assemble-length :
      (question : String) (xs ys : List Found) (checked : Sorted)
      → length xs ≡ length ys
      → assemble question xs checked ≡ assemble question ys checked
  unfolding assemble
  assemble-length question xs ys checked h = rw h

  -- The candidate with nothing of a denied object left but its id and its access list
  abbrev pub redact : Found → Found
  redact c =
      if is_visible c then c else record c { label = Label.entity; node = blank (node_acl c.node) }

  keep-redact :
      (candidates : List Found)
      → keep is_visible (map redact candidates) ≡ keep is_visible candidates
  keep-redact [] = refl
  keep-redact (c ∷ rest) = elim (Bool-cases (is_visible c)) [
    | inl e ↦ rw (e, e) (ap (◌∷◌ c) (keep-redact rest))
    | inr e ↦ rw (e, e) (keep-redact rest)
  ]

  denials-redact :
      (candidates : List Found)
      → map denial_of (keep (λ c. not (is_visible c)) (map redact candidates))
        ≡ map denial_of (keep (λ c. not (is_visible c)) candidates)
  denials-redact [] = refl
  denials-redact (c ∷ rest) = elim (Bool-cases (is_visible c)) [
    | inl e ↦ rw (e, e) (denials-redact rest)
    | inr e ↦ rw (e, e) (ap (◌∷◌ (denial_of c)) (denials-redact rest))
  ]

  check_permissions-redact :
      (candidates : List Found)
      → check_permissions scope now_ms (map redact candidates)
        ≡ check_permissions scope now_ms candidates
  check_permissions-redact candidates =
      check_permissions-eq (map redact candidates)
      ∙ rw (keep-redact candidates, denials-redact candidates)
          (sym (check_permissions-eq candidates))

module _ (question : String) (candidates : List Found) (checked : Sorted) where
  assemble-answered :
      (assemble question candidates checked).answered ≡ not (is_empty checked.permitted)
  unfolding assemble
  assemble-answered = elim (Bool-cases (is_empty checked.permitted)) [ inl e ↦ rw e | inr e ↦ rw e ]

  assemble-citations :
      (assemble question candidates checked).citations ≡ map citation_of checked.permitted
  unfolding assemble
  assemble-citations = nothing_to_cite checked.permitted
    where
      nothing_to_cite :
          (permitted : List Found)
          → (assemble question candidates (record checked { permitted = permitted })).citations
            ≡ map citation_of permitted
      nothing_to_cite [] = refl
      nothing_to_cite (c ∷ rest) = refl

  assemble-denied : (assemble question candidates checked).denied ≡ checked.denials
  unfolding assemble
  assemble-denied = elim (Bool-cases (is_empty checked.permitted)) [ inl e ↦ rw e | inr e ↦ rw e ]

  assemble-considered : (assemble question candidates checked).considered ≡ length candidates
  unfolding assemble
  assemble-considered = elim (Bool-cases (is_empty checked.permitted)) [
    | inl e ↦ rw e
    | inr e ↦ rw e
  ]

any-keep {ℓ} : {A : Type ℓ} (p : A → Bool) (xs : List A) → not (is_empty (keep p xs)) ≡ any p xs
any-keep p [] = refl
any-keep p (x ∷ xs) = elim (Bool-cases (p x)) [ inl e ↦ rw e | inr e ↦ rw e (any-keep p xs) ]

-- The whole answer, its text and its citations included, is the same whatever the denied candidates
-- contain: blanking each of them, but for its id and its access list, changes nothing.
pub answer-redact :
    (scope : Scope) (now_ms : ℕ) (question : String) (candidates : List Found)
    → answer scope now_ms question (map (redact scope now_ms) candidates)
      ≡ answer scope now_ms question candidates
unfolding answer
answer-redact scope now_ms question candidates =
    assemble-length scope now_ms question (map (redact scope now_ms) candidates) candidates
      (check_permissions scope now_ms (map (redact scope now_ms) candidates))
      (length-map (redact scope now_ms) candidates)
    ∙ ap (assemble question candidates) (check_permissions-redact scope now_ms candidates)

-- An answer is given exactly when some candidate is permitted; otherwise the query declines.
pub answer-answered :
    (scope : Scope) (now_ms : ℕ) (question : String) (candidates : List Found)
    → (answer scope now_ms question candidates).answered ≡ any (is_visible scope now_ms) candidates
unfolding answer
answer-answered scope now_ms question candidates =
    assemble-answered question candidates (check_permissions scope now_ms candidates)
    ∙ ap (λ s. not (is_empty s.permitted)) (check_permissions-eq scope now_ms candidates)
    ∙ any-keep (is_visible scope now_ms) candidates

-- What an answer reports of the candidates
pub record IsAccount (scope : Scope) (now_ms : ℕ) (candidates : List Found) (a : QueryAnswer)
    : Type 0 where
  pub cited : a.citations ≡ map citation_of (keep (is_visible scope now_ms) candidates)
  pub refused :
      a.denied
      ≡ map (denial_of scope now_ms) (keep (λ c. not (is_visible scope now_ms c)) candidates)
  pub all_counted : length a.citations + length a.denied ≡ a.considered
  pub considered : a.considered ≡ length candidates

-- Every candidate is accounted for: a citation for each permitted one and a denial with its reason for
-- each of the others, both in the order of retrieval, and their numbers add up to the number considered.
pub answer-IsAccount :
    (scope : Scope) (now_ms : ℕ) (question : String) (candidates : List Found)
    → IsAccount scope now_ms candidates (answer scope now_ms question candidates)
unfolding answer
answer-IsAccount scope now_ms question candidates = record {
  cited = cited;
  refused = refused;
  all_counted = omega (
    arith,
    ap length cited,
    ap length refused,
    length-map citation_of (keep (is_visible scope now_ms) candidates),
    length-map (denial_of scope now_ms) (keep (λ c. not (is_visible scope now_ms c)) candidates),
    length-keep-add (is_visible scope now_ms) candidates,
    assemble-considered question candidates checked,
  );
  considered = assemble-considered question candidates checked;
}
  where
    checked : Sorted
    checked = check_permissions scope now_ms candidates

    cited :
        (assemble question candidates checked).citations
        ≡ map citation_of (keep (is_visible scope now_ms) candidates)
    cited =
        assemble-citations question candidates checked
        ∙ ap (λ s. map citation_of s.permitted) (check_permissions-eq scope now_ms candidates)

    refused :
        (assemble question candidates checked).denied
        ≡ map (denial_of scope now_ms) (keep (λ c. not (is_visible scope now_ms c)) candidates)
    refused =
        assemble-denied question candidates checked
        ∙ ap (λ s. s.denials) (check_permissions-eq scope now_ms candidates)
