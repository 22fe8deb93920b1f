-- ===== src/Extraction/Mock/Entities.antt =====
-- How `add_entity` of extraction/mock.py keeps the entities apart by their ids.
use memapp.Prelude.{
  ℕ, String, ◌≡◌, refl, ◌∙◌, inl, inr, Bool, true, false, ◌||◌, none, some, List, [], ◌∷◌, ◌++◌,
  arith, ◌==◌, eq_iff, Bool-cases, if_true, if_false, any, first, All, Among,
}
use memapp.Enums.{EntityKind}
use memapp.Schema.{RawRecord, Entity}
use memapp.Extraction.{Host}
use memapp.Extraction.Mock.{entity_id, new_entity, add_entity, add_each}

-- An entity with this id is in the list.
abbrev pub Held : String → List Entity → Type 0
Held i entities = any (λ e. e.id == i) entities ≡ true

-- No id stands twice.
abbrev pub DistinctIds : List Entity → Type 0
DistinctIds [] = Unit
DistinctIds (e ∷ es) = (any (λ f. f.id == e.id) es ≡ false) × DistinctIds es

any-append {ℓ} :
    {A : Type ℓ} (p : A → Bool) (xs ys : List A) → any p (xs ++ ys) ≡ (any p xs || any p ys)
any-append p [] ys = refl
any-append p (x ∷ xs) ys = elim (Bool-cases (p x)) [
  | inl e ↦ rw e
  | inr e ↦ rw e (any-append p xs ys)
]

-- A search finds one of the list where there is one, and nothing where there is none.
first-any-true :
    {A : Type 0} (p : A → Bool) (xs : List A)
    → any p xs ≡ true
    → (x : A) × ((first p xs ≡ some x) × Among x xs)
first-any-true p [] h = absurd (ground arith)
first-any-true p (x ∷ xs) h = elim (Bool-cases (p x)) [
  | inl e ↦ (x, (if_true (some x) (first p xs) e, inl refl))
  | inr e ↦
      let (y, (found, among)) = first-any-true p xs (rw e at h) in
      (y, (if_false (some x) (first p xs) e ∙ found, inr among))
]

first-any-false : {A : Type 0} (p : A → Bool) (xs : List A) → any p xs ≡ false → first p xs ≡ none
first-any-false p [] h = refl
first-any-false p (x ∷ xs) h = elim (Bool-cases (p x)) [
  | inl e ↦ absurd (ground arith)
  | inr e ↦ if_false (some x) (first p xs) e ∙ first-any-false p xs (rw e at h)
]

snoc-DistinctIds :
    (es : List Entity) (e : Entity)
    → DistinctIds es
    → any (λ f. f.id == e.id) es ≡ false
    → DistinctIds (es ++ e ∷ [])
snoc-DistinctIds [] e d h = (refl, tt)
snoc-DistinctIds (f ∷ es) e d h =
    let apart : (e.id == f.id) ≡ false = ground (arith, eq_iff e.id f.id, eq_iff f.id e.id) in
    let rest : any (λ f. f.id == e.id) es ≡ false = ground arith in
    (any-append (λ g. g.id == f.id) es (e ∷ []) ∙ rw (d.0, apart), snoc-DistinctIds es e d.1 rest)

module _ (host : Host) (owner_id : String) (r : RawRecord) (now_ms : ℕ) (kind : EntityKind) where
  module _ (s : String) (es : List Entity) where
    pub add_entity-present :
        Held (entity_id host owner_id kind s) es
        → ((add_entity host owner_id r now_ms kind s es).1 ≡ es)
          × Among (add_entity host owner_id r now_ms kind s es).0 es
    unfolding add_entity
    add_entity-present h =
        let (e, (found, among)) =
          first-any-true (λ e. e.id == entity_id host owner_id kind s) es h in
        rw found (refl, among)

    add_entity-new :
        any (λ e. e.id == entity_id host owner_id kind s) es ≡ false
        → (add_entity host owner_id r now_ms kind s es).1
          ≡ es ++ new_entity host owner_id r now_ms kind s ∷ []
    unfolding add_entity
    add_entity-new h = rw (first-any-false (λ e. e.id == entity_id host owner_id kind s) es h)

    pub add_entity-DistinctIds :
        DistinctIds es → DistinctIds (add_entity host owner_id r now_ms kind s es).1
    add_entity-DistinctIds d =
        elim (Bool-cases (any (λ e. e.id == entity_id host owner_id kind s) es)) [
          | inl e ↦ rw ((add_entity-present e).0) d
          | inr e ↦
              rw (add_entity-new e)
                (snoc-DistinctIds es (new_entity host owner_id r now_ms kind s) d e)
        ]

    add_entity-Held :
        Held (entity_id host owner_id kind s) (add_entity host owner_id r now_ms kind s es).1
    add_entity-Held = elim (Bool-cases (any (λ e. e.id == entity_id host owner_id kind s) es)) [
      | inl e ↦ rw ((add_entity-present e).0) e
      | inr e ↦
          rw (add_entity-new e, any-append, e)
            (ground
              (arith, eq_iff (entity_id host owner_id kind s) (entity_id host owner_id kind s)))
    ]

    add_entity-keeps :
        (i : String) → Held i es → Held i (add_entity host owner_id r now_ms kind s es).1
    add_entity-keeps i h =
        elim (Bool-cases (any (λ e. e.id == entity_id host owner_id kind s) es)) [
          | inl e ↦ rw ((add_entity-present e).0) h
          | inr e ↦ rw (add_entity-new e, any-append, h)
        ]

  pub add_each-DistinctIds :
      (ss : List String) (es : List Entity)
      → DistinctIds es
      → DistinctIds (add_each host owner_id r now_ms kind ss es)
  unfolding add_each
  add_each-DistinctIds [] es d = d
  add_each-DistinctIds (s ∷ ss) es d =
      add_each-DistinctIds ss (add_entity host owner_id r now_ms kind s es).1
        (add_entity-DistinctIds s es d)

  pub add_each-keeps :
      (ss : List String) (es : List Entity) (i : String)
      → Held i es
      → Held i (add_each host owner_id r now_ms kind ss es)
  unfolding add_each
  add_each-keeps [] es i h = h
  add_each-keeps (s ∷ ss) es i h =
      add_each-keeps ss (add_entity host owner_id r now_ms kind s es).1 i
        (add_entity-keeps s es i h)

  pub add_each-Held :
      (ss : List String) (es : List Entity)
      → All
          (λ s. Held (entity_id host owner_id kind s) (add_each host owner_id r now_ms kind ss es))
          ss
  unfolding add_each
  add_each-Held [] es = tt
  add_each-Held (s ∷ ss) es =
      let next = (add_entity host owner_id r now_ms kind s es).1 in
      (
        add_each-keeps ss next (entity_id host owner_id kind s) (add_entity-Held s es),
        add_each-Held ss next,
      )
