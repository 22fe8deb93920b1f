-- ===== src/Graphs/Ingestion/Sealed.antt =====
-- What the node `encrypt` comes to for each sensitive record.
use memapp.Prelude.{
  String, ◌≡◌, refl, sym, ap, ◌∙◌, ◌⊎◌, inl, inr, Bool, true, false, Option, some, List, [], ◌∷◌,
  map, ◌==◌, eq_iff, Bool-cases, Option-cases, keep, All, keep_some, map-All, Among, Among-All,
  keep-Among, map-Among,
}
use memapp.Prelude.Dict.{Dict, put, put_all, keys, put_all-All}
use memapp.Schema.{RawRecord, EncryptedContentRef}
use memapp.Graphs.Ingestion.{Encrypted, encrypt, seal_failed, sensitive_records}
use memapp.Graphs.Ingestion.Report.{sealed_of, failure_of, encrypt-eq}

module _ {A : Type 0} where
  put-key : (k : String) (a : A) (d : Dict A) → Among k (keys (put k a d))
  put-key k a [] = inl refl
  put-key k a ((j, b) ∷ d) = elim (Bool-cases (j == k)) [
    | inl e ↦ rw e (inl (sym ((eq_iff j k).0 e)))
    | inr e ↦ rw e (inr (put-key k a d))
  ]

  put-keys : (i k : String) (a : A) (d : Dict A) → Among i (keys d) → Among i (keys (put k a d))
  put-keys i k a [] h = absurd h
  put-keys i k a ((j, b) ∷ d) h = elim (Bool-cases (j == k)) [
    | inl e ↦ rw e h
    | inr e ↦ rw e (elim h [ inl same ↦ inl same | inr later ↦ inr (put-keys i k a d later) ])
  ]

  put_all-keys :
      (i : String) (pairs : List (String × A)) (d : Dict A)
      → Among i (keys d) ⊎ Among i (keys pairs)
      → Among i (keys (put_all pairs d))
  put_all-keys i [] d (inl h) = h
  put_all-keys i [] d (inr h) = absurd h
  put_all-keys i ((k, a) ∷ pairs) d (inl h) =
      put_all-keys i pairs (put k a d) (inl (put-keys i k a d h))
  put_all-keys i ((k, a) ∷ pairs) d (inr (inl e)) =
      put_all-keys i pairs (put k a d) (inl (rw e (put-key k a d)))
  put_all-keys i ((k, a) ∷ pairs) d (inr (inr h)) = put_all-keys i pairs (put k a d) (inr h)

among-keep :
    {A : Type 0} (p : A → Bool) (x : A) (xs : List A)
    → Among x xs
    → p x ≡ true
    → Among x (keep p xs)
among-keep p x [] h e = absurd h
among-keep p x (y ∷ ys) (inl same) e = rw (sym (ap p same) ∙ e) (inl same)
among-keep p x (y ∷ ys) (inr later) e = elim (Bool-cases (p y)) [
  | inl b ↦ rw b (inr (among-keep p x ys later e))
  | inr b ↦ rw b (among-keep p x ys later e)
]

-- A sensitive record of the list with this id
abbrev pub IsSensitive : List RawRecord → String → RawRecord → Type 0
IsSensitive records i r = Among r records × ((r.sensitive ≡ true) × (r.external_id ≡ i))

module _ (seal : String → String → Option EncryptedContentRef) where
  -- What becomes of a record: nothing where it is not sensitive; else its id has a seal, or an error says
  -- that it has none.
  abbrev pub IsDealtWith : Encrypted → RawRecord → Type 0
  IsDealtWith done r =
      (r.sensitive ≡ false)
      ⊎ Among r.external_id (keys done.sealed)
      ⊎ Among (seal_failed r.external_id) done.errors

  -- Where a seal is from: the enclave gave it for the body of a sensitive record with that id.
  abbrev pub IsSealOf : List RawRecord → String × EncryptedContentRef → Type 0
  IsSealOf records q = (r : RawRecord) × (IsSensitive records q.0 r × (seal q.0 r.body ≡ some q.1))

  pub record IsSealing (records : List RawRecord) (done : Encrypted) : Type 0 where
    pub dealt_with : All (IsDealtWith done) records
    pub seals : All (IsSealOf records) done.sealed

  either :
      (i : String) (d : Dict RawRecord)
      → Among i (keys d)
      → Among i (keys (keep_some (sealed_of seal) d))
        ⊎ Among (seal_failed i) (keep_some (failure_of seal) d)
  either i [] h = absurd h
  either i ((k, r) ∷ d) (inl same) = elim (Option-cases (seal k r.body)) [
    | inl e ↦ rw e (inr (inl (ap seal_failed same)))
    | inr (blob, e) ↦ rw e (inl (inl same))
  ]
  either i ((k, r) ∷ d) (inr later) = elim (Option-cases (seal k r.body)) [
    | inl e ↦ rw e (elim (either i d later) [ inl a ↦ inl a | inr a ↦ inr (inr a) ])
    | inr (blob, e) ↦ rw e (elim (either i d later) [ inl a ↦ inl (inr a) | inr a ↦ inr a ])
  ]

  module _ (records : List RawRecord) where
    abbrev Kept : String × RawRecord → Type 0
    Kept q = IsSensitive records q.0 q.1

    records-Kept : All Kept (sensitive_records records)
    records-Kept =
        put_all-All Kept
          (map (λ (r : RawRecord). (r.external_id, r)) (keep (λ r. r.sensitive) records)) []
          (λ k j r e h. (h.0, (h.1.0, h.1.1 ∙ sym ((eq_iff j k).0 e))))
          (map-All Kept (λ (r : RawRecord). (r.external_id, r)) (keep (λ r. r.sensitive) records)
            (Among-All (λ (r : RawRecord). Kept (r.external_id, r))
              (keep (λ r. r.sensitive) records)
              (λ r a.
                let (there, sensitive) = keep-Among (λ r. r.sensitive) r records a in
                (there, (sensitive, refl)))))
          tt

    seals-IsSealOf :
        (d : Dict RawRecord) → All Kept d → All (IsSealOf records) (keep_some (sealed_of seal) d)
    seals-IsSealOf [] h = tt
    seals-IsSealOf ((k, r) ∷ d) h = elim (Option-cases (seal k r.body)) [
      | inl e ↦ rw e (seals-IsSealOf d h.1)
      | inr (blob, e) ↦ rw e ((r, (h.0, e)), seals-IsSealOf d h.1)
    ]

    Among-sensitive :
        (r : RawRecord)
        → Among r records
        → r.sensitive ≡ true
        → Among r.external_id (keys (sensitive_records records))
    Among-sensitive r a e =
        let pair : RawRecord → String × RawRecord = λ x. (x.external_id, x) in
        let kept = among-keep (λ x. x.sensitive) r records a e in
        put_all-keys r.external_id (map pair (keep (λ x. x.sensitive) records)) [] (
          inr (
            map-Among (λ (q : String × RawRecord). q.0) (pair r) _
              (map-Among pair r (keep (λ x. x.sensitive) records) kept)))

    record-dealt_with :
        (r : RawRecord)
        → Among r records
        → (r.sensitive ≡ false)
          ⊎ Among r.external_id (keys (keep_some (sealed_of seal) (sensitive_records records)))
          ⊎ Among
              (seal_failed r.external_id)
              (keep_some (failure_of seal) (sensitive_records records))
    record-dealt_with r a = elim (Bool-cases r.sensitive) [
      | inr e ↦ inl e
      | inl e ↦ inr (either r.external_id (sensitive_records records) (Among-sensitive r a e))
    ]

    -- Of every record of the batch, it is not sensitive, or `encrypt` has a seal under its id, or reports
    -- that the seal for its id failed; and every seal that `encrypt` has is what the enclave gave, under
    -- that id, for the body of a sensitive record of the batch with that id.
    pub encrypt-IsSealing : IsSealing records (encrypt seal records)
    encrypt-IsSealing = rw (encrypt-eq seal records) (record {
      dealt_with =
          Among-All
            (IsDealtWith (record {
              sealed = keep_some (sealed_of seal) (sensitive_records records);
              errors = keep_some (failure_of seal) (sensitive_records records);
            }))
            records record-dealt_with;
      seals = seals-IsSealOf (sensitive_records records) records-Kept;
    })
