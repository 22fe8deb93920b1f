-- ===== src/Connectors/Registry/Registering.antt =====
-- When a registration succeeds, and what it leaves.
use memapp.Prelude.{
  ℕ, String, ◌≡◌, refl, ap, ◌∙◌, ◌↔◌, ◌⊎◌, inl, inr, Bool, true, false, not, ◌&&◌, Option, none,
  some, List, [], ◌∷◌, arith, ◌==◌, eqb, if◌then◌else◌, is_empty,
}
use memapp.Prelude.Dict.{Dict, find, put, find-put, some-inj}
use memapp.Prelude.Result.{ok, value_error, both_returned, if_ok, unless_err}
use memapp.Enums.{check_source_id, source_id_re}
use memapp.Prelude.Texts.{codes}
use memapp.Connectors.Registry.{ConnectorSpec, taken, scopes_without_oauth, place, register}

scopes_cases :
    (scopes : List String) (oauth : Bool)
    → ((not (is_empty scopes) && not oauth) ≡ false) ↔ ((scopes ≡ []) ⊎ (oauth ≡ true))
scopes_cases [] oauth = (λ h. inl refl, λ h. refl)
scopes_cases (s ∷ scopes) true = (λ h. inr refl, λ h. refl)
scopes_cases (s ∷ scopes) false =
    (λ h. absurd cc, λ h. elim h [ inl e ↦ absurd cc | inr e ↦ absurd cc ])

same_number : (a b : ℕ) → not (eqb a b) ≡ false → a ≡ b
same_number a b h = ground arith

number_same : (a b : ℕ) → a ≡ b → not (eqb a b) ≡ false
number_same a b h = ground arith

module _ {Settings Connector : Type 0} where
  -- What registration asks of a spec: a valid id, scopes only with OAuth, and an id under which nothing is
  -- registered, or the same object
  pub record IsAcceptable (spec : ConnectorSpec Settings Connector)
      (specs : Dict (ConnectorSpec Settings Connector)) : Type 0 where
    pub valid : source_id_re (codes spec.source_id) ≡ true
    pub scopes : (spec.oauth_scopes ≡ []) ⊎ (spec.requires_oauth ≡ true)
    pub free :
        (find spec.source_id specs ≡ none)
        ⊎ ((there : ConnectorSpec Settings Connector) × ((find spec.source_id specs ≡ some there)
              × (there.identity ≡ spec.identity)))

  scopes_iff :
      (spec : ConnectorSpec Settings Connector)
      → (scopes_without_oauth spec ≡ false)
        ↔ ((spec.oauth_scopes ≡ []) ⊎ (spec.requires_oauth ≡ true))
  scopes_iff spec = scopes_cases spec.oauth_scopes spec.requires_oauth

  free_iff :
      (spec : ConnectorSpec Settings Connector) (o : Option (ConnectorSpec Settings Connector))
      → (taken o spec ≡ false) ↔ (
          (o ≡ none)
          ⊎ ((there : ConnectorSpec Settings Connector) × ((o ≡ some there)
                × (there.identity ≡ spec.identity))))
  free_iff spec none = (λ h. inl refl, λ h. refl)
  free_iff spec (some there) = (
    λ h. inr (there, (refl, same_number there.identity spec.identity h)),
    λ h. elim h [
      | inl e ↦ absurd cc
      | inr (s, (e, same)) ↦
          let e' : there.identity ≡ s.identity =
            ap (λ (x : ConnectorSpec Settings Connector). x.identity) (some-inj e) in
          number_same there.identity spec.identity (e' ∙ same)
    ],
  )

  -- The registry after: the spec under its id, and every other id as it was
  abbrev pub Adds :
      ConnectorSpec Settings Connector
      → Dict (ConnectorSpec Settings Connector)
      → Dict (ConnectorSpec Settings Connector)
      → Type 0
  Adds spec specs after =
      (j : String) → find j after ≡ (if spec.source_id == j then some spec else find j specs)

  -- A spec is registered exactly when its id is valid, it has no scopes or requires OAuth, and nothing or
  -- the same object is registered under its id; then it is found under its id and what every other id finds is unchanged.
  pub register_iff :
      (spec : ConnectorSpec Settings Connector) (specs : Dict (ConnectorSpec Settings Connector))
      → IsAcceptable spec specs ↔ (
          (after : Dict (ConnectorSpec Settings Connector)) × ((register spec specs ≡ ok after)
            × Adds spec specs after))
  unfolding register check_source_id
  register_iff spec specs = (
    λ h. (
      put spec.source_id spec specs,
      (
        rw
            (
              h.valid,
              (scopes_iff spec).1 h.scopes,
              (free_iff spec (find spec.source_id specs)).1 h.free,
            )
            refl,
        λ j. find-put spec.source_id j spec specs,
      ),
    ),
    λ p. accepted p.1.0,
  )
    where
      accepted :
          {after : Dict (ConnectorSpec Settings Connector)}
          → register spec specs ≡ ok after
          → IsAcceptable spec specs
      accepted e =
          let (valid, (e1, rest)) =
            both_returned (check_source_id spec.source_id) (λ valid. place spec specs) e in
          let (scopes, placed) = unless_err (scopes_without_oauth spec) _ value_error rest in
          let (free, done) =
            unless_err (taken (find spec.source_id specs) spec) _ value_error placed in
          record {
            valid = (if_ok (source_id_re (codes spec.source_id)) spec.source_id value_error e1).0;
            scopes = (scopes_iff spec).0 scopes;
            free = (free_iff spec (find spec.source_id specs)).0 free;
          }
