-- ===== src/Extraction/Mock/Dates.antt =====
-- When `MockExtractor.extract` raises for a reference or a deadline.
use memapp.Prelude.{
  ℕ, String, ◌≡◌, refl, ◌⊎◌, inl, inr, Bool, true, false, not, ◌||◌, Option, none, some, List, [],
  ◌∷◌, Bool-cases, any,
}
use memapp.Prelude.Dict.{find}
use memapp.Prelude.Result.{Result, ok, err, value_error, ◌>>=◌}
use memapp.Schema.{RawRecord, Entity}
use memapp.Prelude.Texts.{codes}
use memapp.Enums.{source_id_re, check_source_id}
use memapp.Extraction.{Host}
use memapp.Extraction.Mock.{
  Grammar, CommitmentMatch, given, or_raised, due_of, references, partition_colon,
  reference_citation, reference_citations,
}
use memapp.Extraction.Mock.Passes.{text_of, read, promise, promises, extract}

abbrev missing : Option ℕ → Bool
missing none = true
missing (some t) = false

-- A deadline is given, and is no date.
abbrev pub undated : (String → Option ℕ) → Option String → Bool
undated parse_date none = false
undated parse_date (some date) = missing (parse_date date)

-- A call raised `value_error` where the test holds, and returned where it does not.
abbrev pub RaisesIf {ℓ} : {A : Type ℓ} → Bool → Result A → Type ℓ
RaisesIf {A = A} b call =
    ((b ≡ true) × (call ≡ err value_error)) ⊎ ((b ≡ false) × ((out : A) × (call ≡ ok out)))

or_raised-RaisesIf : (t : Option ℕ) → RaisesIf (missing t) (or_raised t)
or_raised-RaisesIf none = inl (refl, refl)
or_raised-RaisesIf (some t) = inr (refl, (some t, refl))

due_of-RaisesIf :
    (parse_date : String → Option ℕ) (due : Option String)
    → RaisesIf (undated parse_date due) (due_of parse_date due)
due_of-RaisesIf parse_date none = inr (refl, (none, refl))
due_of-RaisesIf parse_date (some date) = or_raised-RaisesIf (parse_date date)

-- What returns after it does not change when a call raises.
then_returns {ℓ κ} :
    {A : Type ℓ} {B : Type κ} (b : Bool) (call : Result A) (next : A → B)
    → RaisesIf b call
    → RaisesIf b (call >>= (λ a. ok (next a)))
then_returns b call next (inl (e, raised)) = inl (e, rw raised)
then_returns b call next (inr (e, (a, returned))) = inr (e, (next a, rw returned))

-- A reference whose text before the colon is no id of a source
abbrev pub is_misdirected : String → Bool
is_misdirected reference = not (source_id_re (codes (partition_colon reference).0))

module _ (host : Host) (owner_id : String) (r : RawRecord) (now_ms : ℕ) where
  promise-RaisesIf :
      (m : CommitmentMatch) (entities : List Entity)
      → RaisesIf (undated host.parse_date (given m.due)) (promise host owner_id r now_ms m entities)
  unfolding promise
  promise-RaisesIf m entities =
      then_returns (undated host.parse_date (given m.due)) (due_of host.parse_date (given m.due)) _
        (due_of-RaisesIf host.parse_date (given m.due))

  promises-RaisesIf :
      (ms : List CommitmentMatch) (entities : List Entity)
      → RaisesIf
          (any (λ m. undated host.parse_date (given m.due)) ms)
          (promises host owner_id r now_ms ms entities)
  unfolding promises
  promises-RaisesIf [] entities = inr (refl, (([], entities), refl))
  promises-RaisesIf (m ∷ ms) entities = elim (promise-RaisesIf m entities) [
    | inl (e, raised) ↦ inl (rw e, rw raised)
    | inr (e, (made, returned)) ↦
        rw (e, returned)
          (then_returns (any (λ m. undated host.parse_date (given m.due)) ms)
            (promises host owner_id r now_ms ms made.1) _ (promises-RaisesIf ms made.1))
  ]

  reference_citation-RaisesIf :
      (reference : String)
      → RaisesIf (is_misdirected reference) (reference_citation host owner_id r now_ms reference)
  unfolding reference_citation check_source_id
  reference_citation-RaisesIf reference =
      elim (Bool-cases (source_id_re (codes (partition_colon reference).0))) [
        | inl e ↦ rw e (inr (refl, (_, refl)))
        | inr e ↦ rw e (inl (refl, refl))
      ]

  reference_citations-RaisesIf :
      (cites : List String)
      → RaisesIf (any is_misdirected cites) (reference_citations host owner_id r now_ms cites)
  unfolding reference_citations
  reference_citations-RaisesIf [] = inr (refl, ([], refl))
  reference_citations-RaisesIf (c ∷ cites) = elim (reference_citation-RaisesIf c) [
    | inl (e, raised) ↦ inl (rw e refl, rw raised refl)
    | inr (e, (cited, returned)) ↦
        rw (e, returned)
          (then_returns (any is_misdirected cites)
            (reference_citations host owner_id r now_ms cites) _
            (reference_citations-RaisesIf cites))
  ]

  -- If the record's references can be read, then the extraction raises `ValueError` where a reference
  -- names no valid source before its colon, or a commitment that the record spells out has a deadline that
  -- is no date, and returns a candidate where neither is the case.
  pub extract-RaisesIf :
      (grammar : Grammar) (cites : List String)
      → references (find "cites" r.metadata) ≡ ok cites
      → RaisesIf
          (any is_misdirected cites
            || any (λ m. undated host.parse_date (given m.due)) (grammar.commitments (text_of r)))
          (extract host owner_id r now_ms grammar)
  unfolding extract
  extract-RaisesIf grammar cites h =
      let ms = grammar.commitments (text_of r) in
      let made = promises host owner_id r now_ms ms (read host owner_id r now_ms grammar) in
      elim (reference_citations-RaisesIf cites) [
        | inl (e, raised) ↦ inl (rw e refl, rw (h, raised) refl)
        | inr (e, (citations, returned)) ↦
            rw (e, h, returned)
              (then_returns (any (λ m. undated host.parse_date (given m.due)) ms) made _
                (promises-RaisesIf ms (read host owner_id r now_ms grammar)))
      ]
