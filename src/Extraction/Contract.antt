-- ===== src/Extraction/Contract.antt =====
-- What an extractor promises of the claims that it proposes, and which agents may see them.
use memapp.Prelude.{
  ℕ, String, ◌≤◌, ◌≡◌, sym, ap, ◌∙◌, inl, inr, Bool, true, not, Option, none, some, List, [], ◌∷◌,
  ◌++◌, map, ◌==◌, eq_iff, if◌then◌else◌, Bool-cases, and_true, all, keep, All, cons_some, contains,
  unique, Among, append-All,
}
use memapp.Prelude.Order.{insert, sort_by, text_le}
use memapp.Enums.{
  EntityKind, ClaimStatus, FulfillmentStatus, Sensitivity, rank, kind_value, kind_eq,
}
use memapp.Permissions.{Scope, has_kind, permits}
use memapp.Permissions.Rules.{permits_iff}
use memapp.Schema.{RawRecord, Entity, Claim, Commitment}
use memapp.Extraction.{Host, sorted_kinds, acl_of, event_id_of}

abbrev pub ids_of : List Entity → List String
ids_of = map (λ e. e.id)

abbrev pub kinds_of : List Entity → List EntityKind
kinds_of = map (λ e. e.kind)

-- Who owes, and to whom if to anyone
abbrev pub party_ids : Option Commitment → List String
party_ids none = []
party_ids (some m) = m.owed_by_entity_id ∷ cons_some m.owed_to_entity_id []

-- A commitment is open and has not been settled.
abbrev pub IsPending : Option Commitment → Type 0
IsPending none = Unit
IsPending (some m) = (m.fulfillment ≡ FulfillmentStatus.opened) × (m.settled_at_ms ≡ none)

-- The entities that a claim is about, and those that its commitment binds
pub record IsAbout (entities : List Entity) (claim : Claim) : Type 0 where
  pub subjects : List Entity
  pub parties : List Entity
  pub within : All (λ e. Among e entities) (subjects ++ parties)
  pub subject_ids : claim.subject_entity_ids ≡ ids_of subjects
  pub bound : party_ids claim.commitment ≡ ids_of parties
  pub kinds : claim.acl.entity_kinds ≡ sorted_kinds (kinds_of (subjects ++ parties))

pub record IsProposal (host : Host) (owner_id : String) (r : RawRecord) (entities : List Entity)
    (claim : Claim) : Type 0 where
  pub active : claim.status ≡ ClaimStatus.active
  pub supersedes_nothing : claim.supersedes ≡ []
  pub contradicts_nothing : claim.contradicts ≡ []
  pub unreconciled : claim.reconciled_into ≡ none
  pub pending : IsPending claim.commitment
  pub cites : map (λ c. c.event_id) claim.provenance.citations ≡ event_id_of host owner_id r ∷ []
  pub access : claim.acl ≡ acl_of owner_id r claim.acl.entity_kinds
  pub about : IsAbout entities claim

module _ {ℓ κ} {A : Type ℓ} (P : A → Type κ) where
  inserted : (le : A → A → Bool) (x : A) (xs : List A) → All P (insert le x xs) → P x × All P xs
  inserted le x [] h = (h.0, tt)
  inserted le x (y ∷ ys) h = elim (Bool-cases (le x y)) [
    | inl e ↦ rw e at h
    | inr e ↦ let (hy, rest) = rw e at h in let (hx, hs) = inserted le x ys rest in (hx, (hy, hs))
  ]

  sorted : (le : A → A → Bool) (xs : List A) → All P (sort_by le xs) → All P xs
  sorted le [] h = tt
  sorted le (x ∷ xs) h = let (hx, rest) = inserted le x (sort_by le xs) h in (hx, sorted le xs rest)

  kept_rest :
      (q : A → Bool) (xs : List A)
      → ((x : A) → q x ≡ true → P x)
      → All P (keep (λ x. not (q x)) xs)
      → All P xs
  kept_rest q [] near h = tt
  kept_rest q (x ∷ xs) near h = elim (Bool-cases (q x)) [
    | inl e ↦ (near x e, kept_rest q xs near (rw e at h))
    | inr e ↦ let (hx, rest) = rw e at h in (hx, kept_rest q xs near rest)
  ]

  once :
      (same : A → A → Bool) (xs : List A)
      → ((x y : A) → same x y ≡ true → P x → P y)
      → All P (unique same xs)
      → All P xs
  once same [] near h = tt
  once same (x ∷ xs) near h =
      (h.0, once same xs near (kept_rest (same x) (unique same xs) (λ y e. near x y e h.0) h.1))

tested {ℓ} : {A : Type ℓ} (p : A → Bool) (xs : List A) → all p xs ≡ true → All (λ x. p x ≡ true) xs
tested p [] h = tt
tested p (x ∷ xs) h = let (hx, rest) = and_true (p x) (all p xs) h in (hx, tested p xs rest)

same_kind-granted :
    (granted : List EntityKind) (j k : EntityKind)
    → kind_eq j k ≡ true
    → has_kind granted j ≡ true
    → has_kind granted k ≡ true
same_kind-granted granted j k same h =
    let e = (eq_iff (kind_value j) (kind_value k)).0 same in rw e at h

-- A scope that has all the kinds of an access list has all the kinds that the list was made of.
granted_kinds :
    (granted ks : List EntityKind)
    → all (has_kind granted) (sorted_kinds ks) ≡ true
    → All (λ k. has_kind granted k ≡ true) ks
granted_kinds granted ks h =
    let P : EntityKind → Type 0 = λ k. has_kind granted k ≡ true in
    let in_order = tested (has_kind granted) (sorted_kinds ks) h in
    once P kind_eq ks (same_kind-granted granted)
      (sorted P (λ j k. text_le (kind_value j) (kind_value k)) (unique kind_eq ks) in_order)

All-kinds_of {κ} :
    (P : EntityKind → Type κ) (es : List Entity) → All P (kinds_of es) → All (λ e. P e.kind) es
All-kinds_of P [] h = tt
All-kinds_of P (e ∷ es) h = (h.0, All-kinds_of P es h.1)

pub record IsGranted (owner_id : String) (scope : Scope) (r : RawRecord) (entities : List Entity)
    (claim : Claim) : Type 0 where
  pub owner : (scope.owner_id == owner_id) ≡ true
  pub source : contains scope.sources r.connector ≡ true
  pub sensitivity :
      rank (if r.sensitive then Sensitivity.confidential else Sensitivity.personal)
      ≤ rank scope.max_sensitivity
  pub about : IsAbout entities claim
  pub subjects : All (λ e. has_kind scope.entity_kinds e.kind ≡ true) about.subjects
  pub parties : All (λ e. has_kind scope.entity_kinds e.kind ≡ true) about.parties

module _ (host : Host) (owner_id : String) (r : RawRecord) (scope : Scope) (at_ms : ℕ) where
  pub IsProposal-IsGranted :
      (entities : List Entity) (claim : Claim)
      → IsProposal host owner_id r entities claim
      → permits scope claim.acl at_ms ≡ true
      → IsGranted owner_id scope r entities claim
  IsProposal-IsGranted entities claim p h =
      let c = (permits_iff scope claim.acl at_ms).0 h in
      let kinds = rw p.about.kinds at c.kinds_granted in
      let all_kinds =
        granted_kinds scope.entity_kinds (kinds_of (p.about.subjects ++ p.about.parties)) kinds in
      let each =
        All-kinds_of (λ k. has_kind scope.entity_kinds k ≡ true)
          (p.about.subjects ++ p.about.parties) all_kinds in
      let split =
        append-All (λ e. has_kind scope.entity_kinds e.kind ≡ true) p.about.subjects p.about.parties
          each in
      record {
        owner = sym (ap (λ a. scope.owner_id == a.owner_id) p.access) ∙ c.same_owner;
        source =
            (and_true (contains scope.sources r.connector) true (
              sym (ap (λ a. all (contains scope.sources) a.sources) p.access)
              ∙ c.sources_granted)).0;
        sensitivity = let e = ap (λ a. rank a.sensitivity) p.access in rw e at c.not_too_sensitive;
        about = p.about;
        subjects = split.0;
        parties = split.1;
      }
