-- ===== src/Graphs/History/Views.antt =====
-- The views that graphs/history.py returns of claims, citations and steps.
use memapp.Prelude.{
  ℕ, String, ◌+◌, Bool, true, false, not, ◌&&◌, Option, none, some, List, [], ◌∷◌, ◌++◌, map, ◌==◌,
  if◌then◌else◌, length, is_empty, keep, contains,
}
use memapp.Prelude.Int.{ℤ, sub_ℕ}
use memapp.Prelude.Dict.{Dict}
use memapp.Prelude.Texts.{join, decimal, ◌<>◌}
use memapp.Enums.{status_value}
use memapp.Schema.{Claim, Citation}
use memapp.Graphs.Checked.{verdict_of}

-- What the texts take from Python's formatting: `repr` of a text, and a number of milliseconds as days
-- with one decimal.
pub record Printer : Type 0 where
  pub repr : String → String
  pub days : ℤ → String

pub record ClaimDetails : Type 0 where
  pub statement : String
  pub status : String
  pub asserted_at_ms : ℕ
  pub sources : List String
  pub is_commitment : Bool

-- A view has an id, and either a reason for which the rest is withheld, the rest, or nothing more.
pub data ClaimView : Type 0 where
  withheld : (id reason : String) → ClaimView
  shown : (id : String) → ClaimDetails → ClaimView
  unknown : (id : String) → ClaimView

abbrev pub has_facet {ℓ} : {A : Type ℓ} → Option A → Bool
has_facet none = false
has_facet (some a) = true

abbrev pub claim_details : Claim → ClaimDetails
claim_details claim = record {
  statement = claim.statement;
  status = status_value claim.status;
  asserted_at_ms = claim.asserted_at_ms;
  sources = claim.acl.sources;
  is_commitment = has_facet claim.commitment;
}

unfoldable pub claim_view : Claim → Option String → ClaimView
claim_view claim none = ClaimView.shown claim.id (claim_details claim)
claim_view claim (some reason) = ClaimView.withheld claim.id reason

pub record CitationView : Type 0 where
  pub event_id : String
  pub connector : String
  pub external_id : String
  pub url : Option String
  pub occurred_at_ms : ℕ
  pub ingested_at_ms : ℕ
  pub quote : Option String

abbrev pub citation_view : Citation → CitationView
citation_view citation = record {
  event_id = citation.event_id;
  connector = citation.source.connector;
  external_id = citation.source.external_id;
  url = citation.source.url;
  occurred_at_ms = citation.source.occurred_at_ms;
  ingested_at_ms = citation.source.ingested_at_ms;
  quote = citation.quote;
}

pub record StepView : Type 0 where
  pub superseding : ClaimView
  pub superseded : ClaimView
  pub elapsed_ms : Option ℤ
  pub new_citations : List CitationView
  pub withheld : Bool

-- `verdict is None`
abbrev pub passes : Option String → Bool
passes none = true
passes (some reason) = false

-- The citations of the first claim whose event the second does not cite
abbrev pub new_citations : Claim → Claim → List Citation
new_citations superseding superseded =
    let known = map (λ c. c.event_id) superseded.provenance.citations in
    keep (λ c. not (contains known c.event_id)) superseding.provenance.citations

unfoldable pub step : Claim → Claim → Dict (Option String) → StepView
unfolding claim_view
step superseding superseded verdicts =
    let both_visible =
      passes (verdict_of verdicts superseding.id) && passes (verdict_of verdicts superseded.id) in
    record {
      superseding = claim_view superseding (verdict_of verdicts superseding.id);
      superseded = claim_view superseded (verdict_of verdicts superseded.id);
      elapsed_ms =
          if both_visible
          then some (sub_ℕ superseding.asserted_at_ms superseded.asserted_at_ms)
          else none;
      new_citations =
          if both_visible then map citation_view (new_citations superseding superseded) else [];
      withheld = not both_visible;
    }

abbrev pub short : ClaimView → String
short (ClaimView.withheld i reason) = "[withheld " <> i <> "]"
short (ClaimView.shown i d) = "\"" <> d.statement <> "\" (" <> i <> ")"
short (ClaimView.unknown i) = i

pub record ConflictView : Type 0 where
  pub claim : ClaimView
  pub contradicts : ClaimView

module _ (printer : Printer) where
  abbrev pub gap_text : Option ℤ → String
  gap_text none = ""
  gap_text (some gap) = printer.days gap

  abbrev pub step_line : ℕ → StepView → String
  step_line n s =
      let before = short s.superseded in
      let after = short s.superseding in
      let evidence = join ", " (map (λ c. c.connector <> "/" <> c.external_id) s.new_citations) in
      if s.withheld
      then decimal n
        <> ". "
        <> after
        <> " superseded "
        <> before
        <> " -- details withheld (out of scope)."
      else decimal n
        <> ". after "
        <> gap_text s.elapsed_ms
        <> "d, "
        <> after
        <> " superseded "
        <> before
        <> (if evidence == ""
            then " -- no new citations."
            else " -- new evidence: " <> evidence <> ".")

  abbrev pub step_lines : ℕ → List StepView → List String
  step_lines n [] = []
  step_lines n (s ∷ rest) = step_line n s ∷ step_lines (n + 1) rest

  unfoldable pub shift_text : String → List StepView → List ConflictView → String
  shift_text claim_id steps conflicts =
      if is_empty steps && is_empty conflicts
      then claim_id <> " has not been superseded or contradicted."
      else join "\n" (
          (claim_id
              <> ": "
              <> decimal (length steps)
              <> " supersession(s), "
              <> decimal (length conflicts)
              <> " open conflict(s).")
            ∷ step_lines 1 steps
          ++ map (λ c. "! " <> short c.claim <> " still contradicts " <> short c.contradicts <> ".")
              conflicts)
