-- ===== src/Store/Typed.antt =====
-- A graph whose labels tell what the payloads are: on it no write of neo4j_store.py raises that
-- ingestion makes.
use memapp.Prelude.{
  String, ◌≡◌, refl, sym, ◌∙◌, inl, inr, true, Option, some, List, [], ◌∷◌, Bool-cases, if_true,
  and_true, keep, All,
}
use memapp.Prelude.Result.{Result, ok}
use memapp.Prelude.Texts.{codes}
use memapp.Schema.{MemoryNode, Claim}
use memapp.Enums.{ClaimStatus, status_value}
use memapp.Store.{Row, Graph, Label, label_of, label_eq}
use memapp.Store.Writes.{
  is_identifier, upsert, link, is_claim_id, set_payload, mutate_rows, mutate_claim, with_status,
  set_claim_status, validate_claim,
}
use memapp.Store.Kept.{Rows, Changed, upsert-Rows, set_claim_status-Rows}

abbrev pub RowTyped : {V : Type 0} → Row V → Type 0
RowTyped r = label_of r.payload ≡ r.label

abbrev pub IsTyped : {V : Type 0} → Graph V → Type 0
IsTyped = Rows RowTyped

claim_label : (l : Label) → label_eq l Label.claim ≡ true → l ≡ Label.claim
claim_label Label.entity h = absurd cc
claim_label Label.event h = absurd cc
claim_label Label.claim h = refl

validate_claim-returns :
    (node : MemoryNode) → label_of node ≡ Label.claim → (c : Claim) × (validate_claim node ≡ ok c)
validate_claim-returns (MemoryNode.claim c) h = (c, refl)
validate_claim-returns (MemoryNode.entity e) h = absurd cc
validate_claim-returns (MemoryNode.event e) h = absurd cc

module _ {V : Type 0} where
  -- An action returns on typed graphs, and leaves a typed graph.
  abbrev pub Returns : (Graph V → Result (Graph V)) → Type 0
  Returns action = (g : Graph V) → IsTyped g → (g' : Graph V) × ((action g ≡ ok g') × IsTyped g')

  pub upsert-IsTyped :
      (node : MemoryNode) (v : V) (g : Graph V) → IsTyped g → IsTyped (upsert node v g)
  upsert-IsTyped node v g h = upsert-Rows RowTyped node v g refl h

  pub link-Returns : (a rel b : String) → is_identifier (codes rel) ≡ true → Returns (link a rel b)
  unfolding link
  link-Returns a rel b named g h = (_, (if_true _ _ named, h))

  mutate_rows-Returns :
      (i : String) (mutate : Claim → Result Claim) (g : Graph V) (rows : List (Row V))
      → ((c : Claim) → (c' : Claim) × (mutate c ≡ ok c'))
      → All (λ r. label_of r.payload ≡ Label.claim) rows
      → (p : Graph V × Option Claim) × (mutate_rows i mutate g rows ≡ ok p)
  mutate_rows-Returns i mutate g [] total h = (_, refl)
  mutate_rows-Returns i mutate g (r ∷ rs) total h =
      let (found, e1) = validate_claim-returns r.payload h.0 in
      let (changed, e2) = total found in
      ((set_payload (is_claim_id i) (MemoryNode.claim changed) g, some changed), rw (e1, e2) refl)

  claims_typed :
      (i : String) (rows : List (Row V))
      → All RowTyped rows
      → All (λ r. label_of r.payload ≡ Label.claim) (keep (is_claim_id i) rows)
  claims_typed i [] h = tt
  claims_typed i (r ∷ rows) h = elim (Bool-cases (is_claim_id i r)) [
    | inl e ↦ rw e (h.0 ∙ claim_label r.label (and_true _ _ e).0, claims_typed i rows h.1)
    | inr e ↦ rw e (claims_typed i rows h.1)
  ]

  with_status-RowTyped : (status : String) → Changed {V = V} RowTyped (with_status status)
  with_status-RowTyped status r c c' b h e = sym (claim_label r.label b)

  pub superseded-Returns :
      (i : String) → Returns (set_claim_status i (status_value ClaimStatus.superseded))
  unfolding set_claim_status mutate_claim
  superseded-Returns i g h =
      let status = status_value ClaimStatus.superseded in
      let (p, e) =
        mutate_rows-Returns i (with_status status) g (keep (is_claim_id i) g.rows) (λ c. (_, refl))
          (claims_typed i g.rows h) in
      let e' : set_claim_status i status g ≡ ok p.0 = rw e refl in
      (p.0, (e', set_claim_status-Rows RowTyped i status g p.0 (with_status-RowTyped status) e' h))
