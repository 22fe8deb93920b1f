-- ===== src/Graphs/History/Context/Sources.antt =====
-- A context chain names the sources of the visible objects alone.
use mathlib.Core.Path.{ap₂}
use memapp.Prelude.{
  ℕ, String, ◌≡◌, refl, ap, inl, inr, true, not, Option, List, [], ◌∷◌, ◌++◌, map, Bool-cases,
  Option-cases, is_empty, all, keep, gather,
}
use memapp.Prelude.Dict.{Dict, values}
use memapp.Prelude.Order.{sort_by, sorted_set}
use memapp.Graphs.Checked.{Checks, verdict_of}
use memapp.Graphs.History.Views.{Printer, passes}
use memapp.Schema.{MemoryNode, node_id, node_acl}
use memapp.Graphs.History.Context.{
  Walk, assemble, stored, view_at, view_sources, hop_le, shown_view, hops_at,
}

-- The objects that may be shown, in the order of the chain
abbrev pub open_nodes : Dict (Option String) → List MemoryNode → List MemoryNode
open_nodes verdicts = keep (λ n. passes (verdict_of verdicts (node_id n)))

sources-shown_view :
    (n : MemoryNode) (hops : ℕ) → view_sources (shown_view n hops) ≡ (node_acl n).sources
sources-shown_view (MemoryNode.entity e) hops = refl
sources-shown_view (MemoryNode.event e) hops = refl
sources-shown_view (MemoryNode.claim c) hops = refl

module _ (hop_of : Dict ℕ) (verdicts : Dict (Option String)) where
  gather-sources :
      (nodes : List MemoryNode)
      → gather view_sources (map (view_at hop_of verdicts) nodes)
        ≡ gather (λ n. (node_acl n).sources) (open_nodes verdicts nodes)
  gather-sources [] = refl
  gather-sources (n ∷ rest) = elim (Option-cases (verdict_of verdicts (node_id n))) [
    | inl e ↦ rw e (
        ap₂ (λ l m. l ++ m) (sources-shown_view n (hops_at hop_of (node_id n)))
          (gather-sources rest))
    | inr (r, e) ↦ rw e (gather-sources rest)
  ]

-- The sources that an answered context chain lists are exactly those of the objects that it shows: a
-- source that only withheld objects have is not named.
pub context-sources :
    (printer : Printer) (seed_id : String) (hops : ℕ) (w : Walk) (checks : Checks)
    → (assemble printer seed_id hops w checks).answered ≡ true
    → (assemble printer seed_id hops w checks).sources
      ≡ sorted_set (
          gather
            (λ n. (node_acl n).sources)
            (open_nodes checks.verdicts (sort_by (hop_le w.hop_of) (values (stored w.candidates)))))
unfolding assemble
context-sources printer seed_id hops w checks = elim (Bool-cases (is_empty (stored w.candidates))) [
  | inl e ↦ rw e (λ h. cc)
  | inr e ↦
      elim (Bool-cases
        (all (λ p. not (passes (verdict_of checks.verdicts p.0))) (stored w.candidates))) [
          | inl f ↦ rw (e, f) (λ h. cc)
          | inr f ↦
              rw (e, f)
                (λ h. ap sorted_set (
                  gather-sources w.hop_of checks.verdicts
                    (sort_by (hop_le w.hop_of) (values (stored w.candidates)))))
        ]
]
