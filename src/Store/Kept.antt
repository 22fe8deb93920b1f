-- ===== src/Store/Kept.antt =====
-- Which facts on the rows a write of neo4j_store.py keeps: rules for any predicate on rows, and the
-- agreement of the promoted columns with the payload.
use memapp.Prelude.{
  ℕ, String, ◌≡◌, sym, ap, inl, inr, Bool, true, not, Option, List, [], ◌∷◌, map, ◌==◌,
  if◌then◌else◌, Bool-cases, and_true, any, all, keep, All, All-append, All-keep,
}
use memapp.Prelude.Result.{Result, ok, both_returned, ok-inj, if_ok, value_error}
use memapp.Schema.{MemoryNode, Claim, node_id}
use memapp.Store.{Row, Label, label_eq, Graph, promoted}
use memapp.Store.Writes.{
  row_of, has_key, merge_row, upsert, link, is_claim_id, mutate_rows, mutate_claim, with_status,
  set_claim_status, with_fulfillment, set_fulfillment, replace_payload, wipe_owner, owned_by,
  validate_claim, is_identifier,
}
use memapp.Store.{key_of}
use memapp.Prelude.Texts.{codes}
use memapp.Enums.{FulfillmentStatus, fulfillment_status}

abbrev pub with_payload : {V : Type 0} → Row V → MemoryNode → Row V
with_payload r node = record r { payload = node; columns = promoted node }

module _ {V : Type 0} (P : Row V → Type 0) where
  abbrev pub Rows : Graph V → Type 0
  Rows g = All P g.rows

  replaced-All :
      (test : Row V → Bool) (change : Row V → Row V) (rows : List (Row V))
      → ((r : Row V) → test r ≡ true → P r → P (change r))
      → All P rows
      → All P (map (λ r. if test r then change r else r) rows)
  replaced-All test change [] h all = tt
  replaced-All test change (r ∷ rows) h all = elim (Bool-cases (test r)) [
    | inl e ↦ rw e (h r e all.0, replaced-All test change rows h all.1)
    | inr e ↦ rw e (all.0, replaced-All test change rows h all.1)
  ]

  merge_row-All : (r : Row V) (rows : List (Row V)) → P r → All P rows → All P (merge_row r rows)
  merge_row-All r rows h all = elim (Bool-cases (any (has_key (key_of r)) rows)) [
    | inl e ↦ rw e (replaced-All (has_key (key_of r)) (λ s. r) rows (λ s _ _. h) all)
    | inr e ↦ rw e (All-append P rows (r ∷ []) all (h, tt))
  ]

  pub upsert-Rows :
      (node : MemoryNode) (v : V) (g : Graph V)
      → P (row_of node v)
      → Rows g
      → Rows (upsert node v g)
  unfolding upsert
  upsert-Rows node v g h all = merge_row-All (row_of node v) g.rows h all

  pub link-Rows : (a rel b : String) (g g' : Graph V) → link a rel b g ≡ ok g' → Rows g → Rows g'
  unfolding link
  link-Rows a rel b g g' e h =
      let same = (if_ok (is_identifier (codes rel)) _ value_error e).1 in rw (sym same) h

  -- What a change of a claim's payload has to keep
  abbrev pub Changed : (Claim → Result Claim) → Type 0
  Changed mutate =
      (r : Row V) (c c' : Claim)
      → label_eq r.label Label.claim ≡ true
      → P r
      → mutate c ≡ ok c'
      → P (with_payload r (MemoryNode.claim c'))

  mutate_rows-Rows :
      (i : String) (mutate : Claim → Result Claim) (g : Graph V) (rows : List (Row V))
      (g' : Graph V) (o : Option Claim)
      → Changed mutate
      → mutate_rows i mutate g rows ≡ ok (g', o)
      → Rows g
      → Rows g'
  mutate_rows-Rows i mutate g [] g' o h e all = rw (sym (ap (λ p. p.0) (ok-inj e))) all
  mutate_rows-Rows i mutate g (r ∷ rs) g' o h e all =
      let (found, (e1, rest)) = both_returned (validate_claim r.payload) _ e in
      let (changed, (e2, last)) = both_returned (mutate found) _ rest in
      rw (sym (ap (λ p. p.0) (ok-inj last))) (
        replaced-All (is_claim_id i) (λ s. with_payload s (MemoryNode.claim changed)) g.rows
          (λ s b hs. h s found changed (and_true _ _ b).0 hs e2) all)

  pub set_claim_status-Rows :
      (i status : String) (g g' : Graph V)
      → Changed (with_status status)
      → set_claim_status i status g ≡ ok g'
      → Rows g
      → Rows g'
  unfolding set_claim_status mutate_claim
  set_claim_status-Rows i status g g' h e all =
      let ((g1, o), (e1, last)) = both_returned (mutate_claim i (with_status status) g) _ e in
      rw (sym (ok-inj last))
        (mutate_rows-Rows i (with_status status) g (keep (is_claim_id i) g.rows) g1 o h e1 all)

  pub set_fulfillment-Rows :
      (i fulfillment : String) (at : Option ℕ) (g g' : Graph V) (o : Option Claim)
      → ((state : FulfillmentStatus) → Changed (with_fulfillment state at))
      → set_fulfillment i fulfillment at g ≡ ok (g', o)
      → Rows g
      → Rows g'
  unfolding set_fulfillment mutate_claim
  set_fulfillment-Rows i fulfillment at g g' o h e all =
      let (state, (e1, rest)) = both_returned (fulfillment_status fulfillment) _ e in
      mutate_rows-Rows i (with_fulfillment state at) g (keep (is_claim_id i) g.rows) g' o (h state)
        rest all

  pub replace_payload-Rows :
      (node : MemoryNode) (g : Graph V)
      → ((r : Row V) → P r → P (with_payload r node))
      → Rows g
      → Rows (replace_payload node g)
  unfolding replace_payload
  replace_payload-Rows node g h all =
      replaced-All (λ r. r.id == node_id node) (λ s. with_payload s node) g.rows (λ r _. h r) all

  pub wipe_owner-Rows : (o : String) (g : Graph V) → Rows g → Rows (wipe_owner o g)
  unfolding wipe_owner
  wipe_owner-Rows o g all = All-keep P (λ r. not (owned_by o r)) g.rows all
