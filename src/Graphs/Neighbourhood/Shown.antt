-- ===== src/Graphs/Neighbourhood/Shown.antt =====
-- What a neighbourhood shows: permitted objects alone, and no edge to any other.
use memapp.Prelude.{
  ℕ, String, ◌≡◌, refl, sym, ap, ◌∙◌, inl, inr, true, Option, none, some, List, [], ◌∷◌, map,
  eq_iff, Bool-cases, and_true, is_empty, keep, All, map-All, Among, All-Among, Among-All,
  keep-Among, map-Among,
}
use memapp.Prelude.Dict.{Dict, has, values, put_all-All, put_all-IsDict, entry-find, has-Among}
use memapp.Prelude.Order.{sort_by, sort_by-All, sort_by-Among}
use memapp.Permissions.{Scope, permits}
use memapp.Schema.{MemoryNode, node_id, node_acl}
use memapp.Graphs.Checked.{Found, check_permissions}
use memapp.Graphs.Neighbourhood.Verdicts.{check_from-Agree, shown-permits}
use memapp.Graphs.History.Views.{Printer}
use memapp.Graphs.Neighbourhood.{
  Walk, NodeView, EdgeView, assemble, stored, visible, is_shown, within, shown_edges, shown_nodes,
  node_view, hops_at, hop_le, edge_view,
}

is_empty→nil {ℓ} : {A : Type ℓ} (xs : List A) → is_empty xs ≡ true → xs ≡ []
is_empty→nil [] h = refl
is_empty→nil (x ∷ xs) h = cc

shown_edges-nil : (edges : List (String × String × String)) → shown_edges [] edges ≡ []
shown_edges-nil [] = refl
shown_edges-nil (e ∷ rest) = shown_edges-nil rest

node_view-id : (n : MemoryNode) (hops : ℕ) → (node_view n hops).id ≡ node_id n
node_view-id (MemoryNode.entity e) hops = refl
node_view-id (MemoryNode.event e) hops = refl
node_view-id (MemoryNode.claim c) hops = refl

module _ (scope : Scope) (now_ms : ℕ) (w : Walk) where
  -- The view is of an object of the walk that the permission check allows.
  abbrev pub IsPermitted : NodeView → Type 0
  IsPermitted v =
      (c : Found) × (Among c w.candidates
        × ((permits scope (node_acl c.node) now_ms ≡ true)
            × (v ≡ node_view c.node (hops_at w.hop_of (node_id c.node)))))

  -- The edge is one of the walk, and both its ends are ids of shown views.
  abbrev pub IsBetween : List NodeView → EdgeView → Type 0
  IsBetween views e =
      Among (e.from_id, e.rel, e.to_id) w.edges
      × (Among e.from_id (map (λ v. v.id) views) × Among e.to_id (map (λ v. v.id) views))

  abbrev verdicts : Dict (Option String)
  verdicts = (check_permissions scope now_ms w.candidates).verdicts

  abbrev seen : Dict MemoryNode
  seen = visible verdicts (stored w.candidates)

  -- What is known of an entry of the visible objects
  abbrev IsSeen : String × MemoryNode → Type 0
  IsSeen q =
      (c : Found) × (Among c w.candidates
        × ((c.node ≡ q.1) × (permits scope (node_acl q.1) now_ms ≡ true)))

  abbrev IsWalked : String × MemoryNode → Type 0
  IsWalked q = (c : Found) × (Among c w.candidates × (c.node ≡ q.1))

  stored-IsWalked : All IsWalked (stored w.candidates)
  stored-IsWalked =
      put_all-All IsWalked (map (λ (c : Found). (c.id, c.node)) w.candidates) [] (λ k j a e h. h)
        (map-All IsWalked (λ (c : Found). (c.id, c.node)) w.candidates
          (Among-All (λ (c : Found). IsWalked (c.id, c.node)) w.candidates (λ c a. (c, (a, refl)))))
        tt

  seen-IsSeen : (q : String × MemoryNode) → Among q seen → IsSeen q
  unfolding check_permissions
  seen-IsSeen q a =
      let (walked, shown) = keep-Among (λ p. is_shown verdicts p.0) q (stored w.candidates) a in
      let (c, (among, same)) = All-Among IsWalked q (stored w.candidates) stored-IsWalked walked in
      let pairs = map (λ (x : Found). (x.id, x.node)) w.candidates in
      let found = entry-find q (stored w.candidates) (put_all-IsDict pairs [] tt) walked in
      let checked =
        check_from-Agree scope now_ms w.candidates (record { verdicts = []; denials = [] }) []
          (λ k n (h : none ≡ some n). absurd cc) q.0 q.1 found in
      (c, (among, (same, shown-permits scope now_ms verdicts q.0 q.1 checked shown)))

  seen-views : All IsPermitted (shown_nodes w.hop_of seen)
  seen-views =
      map-All IsPermitted (λ n. node_view n (hops_at w.hop_of (node_id n)))
        (sort_by (hop_le w.hop_of) (values seen))
        (sort_by-All (hop_le w.hop_of) P (values seen) (
          map-All P (λ (q : String × MemoryNode). q.1) seen
            (Among-All (λ (q : String × MemoryNode). P q.1) seen
              (λ q a.
                let (c, (among, (same, allowed'))) = seen-IsSeen q a in
                (
                  c,
                  (
                    among,
                    (
                      ap (λ n. permits scope (node_acl n) now_ms) same ∙ allowed',
                      ap (λ n. node_view n (hops_at w.hop_of (node_id n))) (sym same),
                    ),
                  ),
                )))))
    where
      P : MemoryNode → Type 0
      P n = IsPermitted (node_view n (hops_at w.hop_of (node_id n)))

  module _ (named : All (λ (c : Found). c.id ≡ node_id c.node) w.candidates) where
    abbrev IsKeyed : String × MemoryNode → Type 0
    IsKeyed q = q.0 ≡ node_id q.1

    stored-IsKeyed : All IsKeyed (stored w.candidates)
    stored-IsKeyed =
        put_all-All IsKeyed (map (λ (c : Found). (c.id, c.node)) w.candidates) []
          (λ k j a e h. (eq_iff j k).0 e ∙ h)
          (map-All IsKeyed (λ (c : Found). (c.id, c.node)) w.candidates named) tt

    -- An id among the visible objects is that of a shown view.
    has-shown :
        (k : String) → has k seen ≡ true → Among k (map (λ v. v.id) (shown_nodes w.hop_of seen))
    has-shown k h =
        let (n, a) = has-Among k seen h in
        let (walked, _) = keep-Among (λ p. is_shown verdicts p.0) (k, n) (stored w.candidates) a in
        let keyed : k ≡ node_id n =
          All-Among IsKeyed (k, n) (stored w.candidates) stored-IsKeyed walked in
        let view = λ (m : MemoryNode). node_view m (hops_at w.hop_of (node_id m)) in
        let there =
          map-Among (λ (v : NodeView). v.id) (view n) (shown_nodes w.hop_of seen)
            (map-Among view n (sort_by (hop_le w.hop_of) (values seen)) (
              sort_by-Among (hop_le w.hop_of) n (values seen)
                (map-Among (λ (q : String × MemoryNode). q.1) (k, n) seen a))) in
        let same : (view n).id ≡ k = node_view-id n (hops_at w.hop_of (node_id n)) ∙ sym keyed in
        rw same at there

    seen-edges : All (IsBetween (shown_nodes w.hop_of seen)) (shown_edges seen w.edges)
    seen-edges =
        map-All (IsBetween (shown_nodes w.hop_of seen)) edge_view (keep (within seen) w.edges) (
          Among-All (λ e. IsBetween (shown_nodes w.hop_of seen) (edge_view e))
            (keep (within seen) w.edges)
            (λ e a.
              let (there, ends) = keep-Among (within seen) e w.edges a in
              let (first_end, second_end) = and_true _ _ ends in
              (there, (has-shown e.0 first_end, has-shown e.2 second_end))))

    -- If the candidates of a walk stand under their own ids, then every node that the neighbourhood
    -- shows is that of an object of the walk which the permission check allows, and every edge that it
    -- shows is one of the walk with both its ends among the nodes shown.
    pub assemble-shown :
        (printer : Printer) (seeds : List String) (hops : ℕ)
        → All IsPermitted
            (assemble printer seeds hops w (check_permissions scope now_ms w.candidates)).nodes
          × All
              (IsBetween
                (assemble printer seeds hops w (check_permissions scope now_ms w.candidates)).nodes)
              (assemble printer seeds hops w (check_permissions scope now_ms w.candidates)).edges
    unfolding assemble
    assemble-shown printer seeds hops = elim (Bool-cases (is_empty (stored w.candidates))) [
      | inl e ↦ rw e (tt, tt)
      | inr e ↦ elim (Bool-cases (is_empty seen)) [
        | inl f ↦ rw (e, f) (tt, tt)
        | inr f ↦ rw (e, f) (seen-views, seen-edges)
      ]
    ]
