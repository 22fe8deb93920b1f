-- ===== src/Store/Coherence.antt =====
-- The promoted columns of neo4j_store.py agree with the payloads, whatever writes have run, so that a
-- query over columns is one over the claims themselves.
use memapp.Prelude.{
  ℕ, String, ◌≡◌, refl, ap, ◌∙◌, inl, inr, Bool, true, false, ◌&&◌, ◌||◌, Option, none, some, List,
  [], ◌∷◌, map, ◌==◌, if◌then◌else◌, Option-cases, keep, All,
}
use mathlib.Core.Path.{ap₂}
use memapp.Prelude.Result.{ok}
use memapp.Schema.{MemoryNode, Claim, Commitment}
use memapp.Enums.{ClaimStatus, is_active, FulfillmentStatus, status_value, fulfillment_value}
use memapp.Store.{Row, Graph, Promoted, hydrate, promoted}
use memapp.Store.Writes.{
  upsert, link, set_claim_status, set_fulfillment, replace_payload, wipe_owner,
}
use memapp.Store.Reads.{
  if_given, column_is, column_below, opt_le, is_open, is_owned_claim, open_commitments,
}
use memapp.Prelude.Order.{sort_by}
use memapp.Store.Kept.{
  Rows, upsert-Rows, link-Rows, set_claim_status-Rows, set_fulfillment-Rows, replace_payload-Rows,
  wipe_owner-Rows,
}

-- The writes of the store that return
pub data Step {V : Type 0} : Graph V → Graph V → Type 0 where
  upserted : (node : MemoryNode) (v : V) (g : Graph V) → Step g (upsert node v g)
  linked : (a rel b : String) (g g' : Graph V) → link a rel b g ≡ ok g' → Step g g'
  restated : (i status : String) (g g' : Graph V) → set_claim_status i status g ≡ ok g' → Step g g'
  settled :
      (i fulfillment : String) (at : Option ℕ) (g g' : Graph V) (o : Option Claim)
      → set_fulfillment i fulfillment at g ≡ ok (g', o)
      → Step g g'
  replaced : (node : MemoryNode) (g : Graph V) → Step g (replace_payload node g)
  wiped : (owner_id : String) (g : Graph V) → Step g (wipe_owner owner_id g)

abbrev pub empty_graph : {V : Type 0} → Graph V
empty_graph = record { rows = []; edges = [] }

-- What a run of writes makes of the empty graph
pub data Reached {V : Type 0} : Graph V → Type 0 where
  start : Reached empty_graph
  step : (g g' : Graph V) → Reached g → Step g g' → Reached g'

abbrev pub RowIndexed : {V : Type 0} → Row V → Type 0
RowIndexed r = r.columns ≡ promoted r.payload

abbrev pub IsIndexed : {V : Type 0} → Graph V → Type 0
IsIndexed = Rows RowIndexed

module _ {V : Type 0} where
  Step-IsIndexed : (g g' : Graph V) → Step g g' → IsIndexed g → IsIndexed g'
  Step-IsIndexed g g' (Step.upserted node v _) h = upsert-Rows RowIndexed node v g refl h
  Step-IsIndexed g g' (Step.linked a rel b _ _ e) h = link-Rows RowIndexed a rel b g g' e h
  Step-IsIndexed g g' (Step.restated i s _ _ e) h =
      set_claim_status-Rows RowIndexed i s g g' (λ r c c' b p e'. refl) e h
  Step-IsIndexed g g' (Step.settled i f at _ _ o e) h =
      set_fulfillment-Rows RowIndexed i f at g g' o (λ state r c c' b p e'. refl) e h
  Step-IsIndexed g g' (Step.replaced node _) h =
      replace_payload-Rows RowIndexed node g (λ r p. refl) h
  Step-IsIndexed g g' (Step.wiped o _) h = wipe_owner-Rows RowIndexed o g h

  -- Whatever writes have made the graph, the promoted columns of every row are those of its payload.
  pub Reached-IsIndexed : (g : Graph V) → Reached g → IsIndexed g
  Reached-IsIndexed _ Reached.start = tt
  Reached-IsIndexed _ (Reached.step g g' before s) =
      Step-IsIndexed g g' s (Reached-IsIndexed g before)

abbrev pub opened : FulfillmentStatus → Bool
opened FulfillmentStatus.opened = true
opened FulfillmentStatus.fulfilled = false
opened FulfillmentStatus.dropped = false

-- The open commitments, told from the claim itself
abbrev pub is_due : Option ℕ → Option String → Bool → Claim → Option Commitment → Bool
is_due due_before_ms owed_by include_superseded c none = false
is_due due_before_ms owed_by include_superseded c (some m) =
    opened m.fulfillment
    && ((include_superseded || is_active c.status)
        && (if_given due_before_ms (column_below m.due_at_ms)
            && if_given owed_by (λ s. m.owed_by_entity_id == s)))

abbrev pub holds_due : Option ℕ → Option String → Bool → MemoryNode → Bool
holds_due due_before_ms owed_by include_superseded (MemoryNode.claim c) =
    is_due due_before_ms owed_by include_superseded c c.commitment
holds_due due_before_ms owed_by include_superseded (MemoryNode.entity e) = false
holds_due due_before_ms owed_by include_superseded (MemoryNode.event e) = false

-- The test of `open_commitments` on given columns
abbrev pub columns_open : Option ℕ → Option String → Bool → Promoted → Bool
columns_open due_before_ms owed_by include_superseded k =
    column_is k.commitment_fulfillment "open"
    && ((include_superseded || column_is k.claim_status "active")
        && (if_given due_before_ms (column_below k.commitment_due_at_ms)
            && if_given owed_by (column_is k.commitment_owed_by)))

opened-eq : (f : FulfillmentStatus) → column_is (some (fulfillment_value f)) "open" ≡ opened f
opened-eq FulfillmentStatus.opened = refl
opened-eq FulfillmentStatus.fulfilled = refl
opened-eq FulfillmentStatus.dropped = refl

is_active-eq : (s : ClaimStatus) → column_is (some (status_value s)) "active" ≡ is_active s
is_active-eq ClaimStatus.active = refl
is_active-eq ClaimStatus.superseded = refl
is_active-eq ClaimStatus.contradicted = refl
is_active-eq ClaimStatus.reconciled = refl

abbrev pub due_sorted : {V : Type 0} → List (Row V) → List (Row V)
due_sorted =
    sort_by (λ r s. opt_le r.columns.commitment_due_at_ms r.id s.columns.commitment_due_at_ms s.id)

module _ (due : Option ℕ) (owed_by : Option String) (all_states : Bool) where
  columns_open-eq :
      (node : MemoryNode)
      → columns_open due owed_by all_states (promoted node) ≡ holds_due due owed_by all_states node
  unfolding promoted
  columns_open-eq (MemoryNode.entity e) = refl
  columns_open-eq (MemoryNode.event e) = refl
  columns_open-eq (MemoryNode.claim c) = elim (Option-cases c.commitment) [
    | inl e ↦ rw e refl
    | inr (m, e) ↦
        rw (e, opened-eq m.fulfillment, is_active-eq c.status)
          (elim owed_by [ none ↦ refl | some s ↦ refl ])
  ]

  module _ {V : Type 0} (owner_id : String) where
    keep-due :
        (rows : List (Row V))
        → All RowIndexed rows
        → keep (λ r. is_owned_claim owner_id r && is_open due owed_by all_states r) rows
          ≡ keep (λ r. is_owned_claim owner_id r && holds_due due owed_by all_states r.payload) rows
    keep-due [] h = refl
    keep-due (r ∷ rows) h =
        let same : is_open due owed_by all_states r ≡ holds_due due owed_by all_states r.payload =
          ap (columns_open due owed_by all_states) h.0 ∙ columns_open-eq r.payload in
        ap₂ (λ (b : Bool) rest. if is_owned_claim owner_id r && b then r ∷ rest else rest) same
          (keep-due rows h.1)

    -- On a graph that any run of writes has made, `open_commitments` answers the owner's claims whose
    -- payload has a commitment that is open, due before the bound and owed by the given entity, where
    -- these are given, and that are active unless superseded ones are asked for; no others.
    pub open_commitments-eq :
        (g : Graph V)
        → Reached g
        → open_commitments g owner_id due owed_by all_states
          ≡ map hydrate (
              due_sorted (
                keep
                  (λ r. is_owned_claim owner_id r && holds_due due owed_by all_states r.payload)
                  g.rows))
    unfolding open_commitments
    open_commitments-eq g run =
        ap (λ rows. map hydrate (due_sorted rows)) (keep-due g.rows (Reached-IsIndexed g run))
