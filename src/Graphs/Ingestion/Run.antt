-- ===== src/Graphs/Ingestion/Run.antt =====
-- A whole run of ingestion: what it returns, what it may raise, that it seals, and that its result accounts
-- for what it did.
use memapp.Prelude.{String, ◌≡◌, ◌⊎◌, inl, inr, Option, List, ◌++◌, gather, keep_some}
use memapp.Prelude.Dict.{Dict}
use memapp.Prelude.Result.{Result, ok}
use memapp.Schema.{RawRecord, Candidate, EncryptedContentRef}
use memapp.Store.{Graph}
use memapp.Store.Typed.{IsTyped}
use memapp.Graphs.Ingestion.{
  Written, write, resolve, extract_all, IngestionResult, sensitive_records,
}
use memapp.Graphs.Ingestion.Returns.{RaisesAs, write-Completes}
use memapp.Graphs.Ingestion.Sealing.{IsSealed, write-IsSealed}
use memapp.Graphs.Ingestion.Report.{
  candidate_ids, candidate_errors, sealed_of, failure_of, write_reports,
}

module _ {V : Type 0} (embed : String → Result V) where
  -- On a graph whose labels tell the kinds of the payloads, and where no row of an event of a sensitive
  -- record of the batch has the body, neither in the payload nor in the text column, `write` returns and
  -- leaves such a graph, whatever the candidates and the seals are, or it raises what the embedder
  -- raised on a text. A sensitive record that the enclave did not seal is not in the clear in it.
  pub write_seals :
      (records : List RawRecord) (sealed : Dict EncryptedContentRef) (candidates : List Candidate)
      (g : Graph V)
      → IsTyped g
      → IsSealed records g
      → ((s : Written V) × ((write embed records sealed candidates g ≡ ok s)
            × (IsTyped s.graph × IsSealed records s.graph)))
        ⊎ ((text : String) × RaisesAs (embed text) (write embed records sealed candidates g))
  write_seals records sealed candidates g typed clear =
      elim (write-Completes embed records sealed candidates g typed) [
        | inl (s, (e, typed')) ↦
            inl (s, (e, (typed', write-IsSealed records embed sealed candidates g s e clear)))
        | inr raised ↦ inr raised
      ]

  -- On a graph whose labels tell the kinds of the payloads, `write` raises what the embedder raised on a
  -- text, or it returns and has reported every object of the candidates once, in order: an entity, a
  -- claim and an event by its id as written, save an event whose record's id is that of a sensitive
  -- record and has no seal, which it reports as skipped instead.
  pub write_accounts :
      (records : List RawRecord) (sealed : Dict EncryptedContentRef) (candidates : List Candidate)
      (g : Graph V)
      → IsTyped g
      → ((s : Written V) × ((write embed records sealed candidates g ≡ ok s)
            × ((s.written ≡ gather (candidate_ids records sealed) candidates)
                × (s.errors ≡ gather (candidate_errors records sealed) candidates))))
        ⊎ ((text : String) × RaisesAs (embed text) (write embed records sealed candidates g))
  write_accounts records sealed candidates g typed =
      elim (write-Completes embed records sealed candidates g typed) [
        | inl (s, (e, typed')) ↦ inl (s, (e, write_reports embed records sealed candidates g s e))
        | inr raised ↦ inr raised
      ]

  module _ (seal : String → String → Option EncryptedContentRef)
      (extract_one : RawRecord → Result Candidate) (owner_id : String) where
    -- The errors of a run: the failed seals, then the events left out for want of one
    abbrev pub expected_errors : Graph V → List RawRecord → List Candidate → List String
    expected_errors g records candidates =
        let sensitive = sensitive_records records in
        keep_some (failure_of seal) sensitive
        ++ gather (candidate_errors records (keep_some (sealed_of seal) sensitive))
            (resolve g owner_id candidates).0

    -- What a run that returned leaves
    abbrev pub IsReported : List RawRecord → Graph V → Graph V × IngestionResult → Type 0
    IsReported records g p =
        (IsTyped p.0 × IsSealed records p.0)
        × ((candidates : List Candidate) × ((extract_all extract_one records ≡ ok candidates)
              × (p.1.errors ≡ expected_errors g records candidates)))
