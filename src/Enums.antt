-- ===== src/Enums.antt =====
-- enums.py: source ids and the wire-level enums. A test of two members compares their values, as
-- `StrEnum` does.
use memapp.Prelude.{
  ℕ, String, Bool, true, false, ◌&&◌, ◌||◌, List, [], ◌∷◌, all, length, leb, eqb, ◌==◌,
  if◌then◌else◌,
}
use memapp.Prelude.Texts.{codes}
use memapp.Prelude.Result.{Result, ok, err, value_error}

-- `[a-z0-9_-]`
abbrev pub is_source_id_char : ℕ → Bool
is_source_id_char c =
    leb b'a' c && leb c b'z' || leb b'0' c && leb c b'9' || eqb c b'_' || eqb c b'-'

-- Python's `$` matches at the end, and also in front of a line feed that ends the text.
abbrev pub before_final_newline : List ℕ → List ℕ
before_final_newline [] = []
before_final_newline (c ∷ []) = if eqb c 10 then [] else c ∷ []
before_final_newline (c ∷ d ∷ cs) = c ∷ before_final_newline (d ∷ cs)

-- `^[a-z0-9_-]{1,64}$`
abbrev pub source_id_re : List ℕ → Bool
source_id_re cs =
    let body = before_final_newline cs in
    all is_source_id_char body && leb 1 (length body) && leb (length body) 64

unfoldable pub check_source_id : String → Result String
check_source_id value = if source_id_re (codes value) then ok value else err value_error

pub data EntityKind : Type 0 where
  person project artifact organization topic : EntityKind

abbrev pub kind_value : EntityKind → String
kind_value EntityKind.person = "person"
kind_value EntityKind.project = "project"
kind_value EntityKind.artifact = "artifact"
kind_value EntityKind.organization = "organization"
kind_value EntityKind.topic = "topic"

abbrev pub kind_eq : EntityKind → EntityKind → Bool
kind_eq a b = kind_value a == kind_value b

pub data ClaimStatus : Type 0 where
  active superseded contradicted reconciled : ClaimStatus

abbrev pub status_value : ClaimStatus → String
status_value ClaimStatus.active = "active"
status_value ClaimStatus.superseded = "superseded"
status_value ClaimStatus.contradicted = "contradicted"
status_value ClaimStatus.reconciled = "reconciled"

abbrev pub is_active : ClaimStatus → Bool
is_active ClaimStatus.active = true
is_active ClaimStatus.superseded = false
is_active ClaimStatus.contradicted = false
is_active ClaimStatus.reconciled = false

-- `ClaimStatus(status)`
abbrev pub claim_status : String → Result ClaimStatus
claim_status s =
    if s == "active"
    then ok ClaimStatus.active
    else if s == "superseded"
    then ok ClaimStatus.superseded
    else if s == "contradicted"
    then ok ClaimStatus.contradicted
    else if s == "reconciled"
    then ok ClaimStatus.reconciled
    else err value_error

-- "Past due" is no member: it is `open` with a due time in the past.
pub data FulfillmentStatus : Type 0 where
  opened fulfilled dropped : FulfillmentStatus

abbrev pub fulfillment_value : FulfillmentStatus → String
fulfillment_value FulfillmentStatus.opened = "open"
fulfillment_value FulfillmentStatus.fulfilled = "fulfilled"
fulfillment_value FulfillmentStatus.dropped = "dropped"

-- `FulfillmentStatus(fulfillment)`
abbrev pub fulfillment_status : String → Result FulfillmentStatus
fulfillment_status s =
    if s == "open"
    then ok FulfillmentStatus.opened
    else if s == "fulfilled"
    then ok FulfillmentStatus.fulfilled
    else if s == "dropped"
    then ok FulfillmentStatus.dropped
    else err value_error

pub data Sensitivity : Type 0 where
  public personal confidential restricted : Sensitivity

abbrev pub rank : Sensitivity → ℕ
rank Sensitivity.public = 0
rank Sensitivity.personal = 1
rank Sensitivity.confidential = 2
rank Sensitivity.restricted = 3

abbrev pub sensitivity_value : Sensitivity → String
sensitivity_value Sensitivity.public = "public"
sensitivity_value Sensitivity.personal = "personal"
sensitivity_value Sensitivity.confidential = "confidential"
sensitivity_value Sensitivity.restricted = "restricted"

pub data DenyReason : Type 0 where
  wrong_owner grant_expired agent_revoked source_not_in_scope : DenyReason
  entity_kind_not_in_scope outside_time_window too_sensitive : DenyReason

abbrev pub reason_value : DenyReason → String
reason_value DenyReason.wrong_owner = "wrong_owner"
reason_value DenyReason.grant_expired = "grant_expired"
reason_value DenyReason.agent_revoked = "agent_revoked"
reason_value DenyReason.source_not_in_scope = "source_not_in_scope"
reason_value DenyReason.entity_kind_not_in_scope = "entity_kind_not_in_scope"
reason_value DenyReason.outside_time_window = "outside_time_window"
reason_value DenyReason.too_sensitive = "too_sensitive"
