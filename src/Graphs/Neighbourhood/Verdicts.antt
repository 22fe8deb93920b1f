-- ===== src/Graphs/Neighbourhood/Verdicts.antt =====
-- The verdicts of `check_permissions` on the objects that a walk has stored.
use memapp.Prelude.{
  ℕ, String, ◌≡◌, refl, sym, ap, ◌∙◌, inl, inr, true, false, Option, some, List, [], ◌∷◌, map, ◌==◌,
  Bool-cases, if_true, if_false,
}
use memapp.Prelude.Dict.{Dict, find, put, put_all, find-put, some-inj}
use memapp.Permissions.{Scope, permits, allowed, evaluate}
use memapp.Schema.{MemoryNode, node_acl}
use memapp.Graphs.Checked.{Found, Checks, verdict, verdict_of, note, check_from}
use memapp.Graphs.History.Views.{passes}
use memapp.Graphs.Neighbourhood.{is_shown}

verdict_of-found :
    (k : String) (v : Option String) (verdicts : Dict (Option String))
    → find k verdicts ≡ some v
    → verdict_of verdicts k ≡ v
verdict_of-found k v verdicts h = rw (verdict_of, h) refl

module _ (scope : Scope) (now_ms : ℕ) where
  -- Each stored object has the verdict on its own access list.
  abbrev pub Agree : Dict (Option String) → Dict MemoryNode → Type 0
  Agree verdicts d =
      (k : String) (n : MemoryNode)
      → find k d ≡ some n
      → find k verdicts ≡ some (verdict scope now_ms (node_acl n))

  put-Agree :
      (i : String) (n : MemoryNode) (verdicts : Dict (Option String)) (d : Dict MemoryNode)
      → Agree verdicts d
      → Agree (put i (verdict scope now_ms (node_acl n)) verdicts) (put i n d)
  put-Agree i n verdicts d h k m e = elim (Bool-cases (i == k)) [
    | inl b ↦
        let same : n ≡ m = some-inj (sym (find-put i k n d ∙ if_true _ _ b) ∙ e) in
        find-put i k _ verdicts
        ∙ if_true _ _ b
        ∙ ap (λ x. some (verdict scope now_ms (node_acl x))) same
    | inr b ↦
        find-put i k _ verdicts
        ∙ if_false _ _ b
        ∙ h k m (sym (find-put i k n d ∙ if_false _ _ b) ∙ e)
  ]

  pub check_from-Agree :
      (candidates : List Found) (done : Checks) (d : Dict MemoryNode)
      → Agree done.verdicts d
      → Agree
          (check_from scope now_ms done candidates).verdicts
          (put_all (map (λ (c : Found). (c.id, c.node)) candidates) d)
  unfolding check_from
  check_from-Agree [] done d h = h
  check_from-Agree (c ∷ rest) done d h =
      check_from-Agree rest (note c.id (verdict scope now_ms (node_acl c.node)) done)
        (put c.id c.node d) (put-Agree c.id c.node done.verdicts d h)

  passes-permits :
      (n : MemoryNode)
      → passes (verdict scope now_ms (node_acl n)) ≡ true
      → permits scope (node_acl n) now_ms ≡ true
  unfolding permits
  passes-permits n h = elim (Bool-cases (allowed (evaluate scope (node_acl n) now_ms))) [
    | inl e ↦ e
    | inr e ↦ let no : false ≡ true = rw e at h in absurd cc
  ]

  pub shown-permits :
      (verdicts : Dict (Option String)) (k : String) (n : MemoryNode)
      → find k verdicts ≡ some (verdict scope now_ms (node_acl n))
      → is_shown verdicts k ≡ true
      → permits scope (node_acl n) now_ms ≡ true
  shown-permits verdicts k n h shown =
      passes-permits n (sym (ap passes (verdict_of-found k _ verdicts h)) ∙ shown)
