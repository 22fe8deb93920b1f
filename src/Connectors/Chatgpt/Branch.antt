-- ===== src/Connectors/Chatgpt/Branch.antt =====
-- The walk along a conversation ends, whatever the links between its nodes are.
use memapp.Prelude.{
  ℕ, zero, suc, String, ◌≤◌, ◌<◌, ◌≡◌, refl, sym, ap, ◌∙◌, inl, inr, true, false, not, Option, none,
  some, List, [], ◌∷◌, ◌++◌, arith, ◌==◌, eq_iff, Bool-cases, if_true, if_false, Option-cases,
  length, keep, head?, contains, length-append,
}
use memapp.Prelude.Dict.{Dict, find}
use memapp.Prelude.Result.{ok}
use memapp.Connectors.Json.{Json, get}
use memapp.Connectors.Chatgpt.{message_of, visit, after, walk_from, walk_linear, roots}

-- The nodes that the walk has not seen
abbrev pub unseen : List String → Dict Json → Dict Json
unseen seen mapping = keep (λ p. not (contains seen p.0)) mapping

-- Seeing one id more leaves no more nodes, and one fewer if the id is a node's and is new.
unseen-cons-le :
    (i : String) (seen : List String) (mapping : Dict Json)
    → length (unseen (i ∷ seen) mapping) ≤ length (unseen seen mapping)
unseen-cons-le i seen [] = omega arith
unseen-cons-le i seen ((k, v) ∷ rest) = ground (arith, unseen-cons-le i seen rest)

self_seen : (i : String) (seen : List String) → contains (i ∷ seen) i ≡ true
self_seen i seen = rw ((eq_iff i i).1 refl)

unseen-cons-lt :
    (i : String) (seen : List String) (mapping : Dict Json) (v : Json)
    → find i mapping ≡ some v
    → contains seen i ≡ false
    → length (unseen (i ∷ seen) mapping) < length (unseen seen mapping)
unseen-cons-lt i seen [] v h new = absurd cc
unseen-cons-lt i seen ((k, u) ∷ rest) v h new = elim (Bool-cases (k == i)) [
  | inl e ↦
      let same = (eq_iff k i).0 e in
      let fewer = unseen-cons-le i seen rest in
      let old : contains seen k ≡ false = ap (contains seen) same ∙ new in
      let now : contains (i ∷ seen) k ≡ true = ap (contains (i ∷ seen)) same ∙ self_seen i seen in
      ground (arith, old, now, fewer)
  | inr e ↦
      let fewer = unseen-cons-lt i seen rest v (sym (if_false _ _ e) ∙ h) new in
      ground (arith, e, eq_iff k i, eq_iff i k, fewer)
]

walk_from-none :
    (fuel : ℕ) (mapping : Dict Json) (seen : List String)
    → walk_from fuel mapping seen none ≡ some []
unfolding walk_from
walk_from-none zero mapping seen = refl
walk_from-none (suc fuel) mapping seen = refl

length-message_of-le : (v : Json) → length (message_of v) ≤ 1
length-message_of-le (Json.object o) = omega arith
length-message_of-le Json.null = omega arith
length-message_of-le (Json.flag b) = omega arith
length-message_of-le (Json.number n) = omega arith
length-message_of-le (Json.text s) = omega arith
length-message_of-le (Json.array a) = omega arith

length-visit-le : (o : Option Json) → length (visit o).0 ≤ 1
length-visit-le none = omega arith
length-visit-le (some (Json.object o)) = length-message_of-le (get o "message")
length-visit-le (some Json.null) = omega arith
length-visit-le (some (Json.flag b)) = omega arith
length-visit-le (some (Json.number n)) = omega arith
length-visit-le (some (Json.text s)) = omega arith
length-visit-le (some (Json.array a)) = omega arith

-- The walk returns, with at most one message for each node that it had not seen.
abbrev Ends : Option (List Json) → ℕ → Type 0
Ends o bound = (messages : List Json) × ((o ≡ some messages) × (length messages ≤ bound))

-- With more rounds than there are unseen nodes, the walk ends within the bound.
walk_from-returns :
    (fuel : ℕ) (mapping : Dict Json) (seen : List String) (next : Option String)
    → length (unseen seen mapping) < fuel
    → Ends (walk_from fuel mapping seen next) (length (unseen seen mapping))
unfolding walk_from
walk_from-returns zero mapping seen next h = absurd (omega arith)
walk_from-returns (suc fuel) mapping seen none h = ([], (refl, omega arith))
walk_from-returns (suc fuel) mapping seen (some i) h = elim (Bool-cases (contains seen i)) [
  | inl e ↦ ([], (if_true _ _ e, omega arith))
  | inr e ↦ elim (Option-cases (find i mapping)) [
    | inl f ↦ (
      [],
      (if_false _ _ e ∙ rw f (ap (after []) (walk_from-none fuel mapping (i ∷ seen))), omega arith),
    )
    | inr (v, f) ↦
        let fewer = unseen-cons-lt i seen mapping v f e in
        let (later, (same, few)) =
          walk_from-returns fuel mapping (i ∷ seen) (visit (some v)).1 (omega (arith, fewer, h)) in
        (
          (visit (some v)).0 ++ later,
          (
            if_false _ _ e ∙ rw f (ap (after (visit (some v)).0) same),
            omega (
              arith,
              fewer,
              few,
              length-append (visit (some v)).0 later,
              length-visit-le (some v),
            ),
          ),
        )
  ]
]

nothing_seen : (mapping : Dict Json) → unseen [] mapping ≡ mapping
nothing_seen [] = refl
nothing_seen (p ∷ rest) = ap (◌∷◌ p) (nothing_seen rest)

-- Where the roots can be told, the walk along a conversation ends, even if its nodes point in a circle,
-- and gives at most one message for each node.
pub walk_linear_returns :
    (mapping : Dict Json) (starts : List String)
    → roots mapping ≡ ok starts
    → (messages : List Json) × ((walk_linear mapping ≡ ok (some messages))
        × (length messages ≤ length mapping))
unfolding walk_linear
walk_linear_returns mapping starts h =
    let all_unseen = ap length (nothing_seen mapping) in
    let (messages, (same, few)) =
      walk_from-returns (suc (length mapping)) mapping [] (head? starts)
        (omega (arith, all_unseen)) in
    (messages, (rw (h, same), omega (arith, few, all_unseen)))
