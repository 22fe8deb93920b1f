-- ===== src/Examples/Extracts.antt =====
-- The record about a promise, with what the regular expressions find in it.
use memapp.Prelude.{String, ◌≡◌, refl, some, [], ◌∷◌, ◌||◌, map, any, All}
use memapp.Prelude.Dict.{find}
use memapp.Prelude.Result.{ok, err, value_error}
use memapp.Enums.{check_source_id}
use memapp.Schema.{RawRecord, MetaValue, Candidate}
use memapp.Extraction.Contract.{ids_of, IsProposal}
use memapp.Extraction.{stable_id}
use memapp.Extraction.Mock.{Grammar, references, given, add_each}
use memapp.Extraction.Mock.Entities.{DistinctIds}
use memapp.Extraction.Mock.Passes.{text_of, extract}
use memapp.Extraction.Mock.Extracted.{extract-IsProposal}
use memapp.Extraction.Mock.Dates.{undated, is_misdirected, RaisesIf, extract-RaisesIf}
use memapp.Examples.Proposals.{host, mail, none_proposed, value_or}

-- A promise by Ann to Bo about Atlas, by a date
abbrev grammar_of : String → Grammar
grammar_of due = record {
  claims = λ text. [];
  commitments = λ text.
      record {
        whole = "Ann committed to Bo that project Atlas will ship by 2025-02-14.";
        owed_by = "Ann";
        owed_to = some "Bo";
        obligation = "project Atlas will ship";
        due = some due;
      }
      ∷ [];
  projects = λ text. "Atlas" ∷ [];
  artifacts = λ text. [];
}

unfoldable extracted : Candidate
unfolding extract
extracted = value_or none_proposed (extract host "ann" mail 50 (grammar_of "2025-02-14"))

extracted_read : extract host "ann" mail 50 (grammar_of "2025-02-14") ≡ ok extracted
unfolding extracted extract
extracted_read = refl

extracted_promise :
    map (λ c. c.subject_entity_ids) extracted.claims ≡ ("ent_ann\u{1f}project\u{1f}Atlas" ∷ []) ∷ []
unfolding extracted extract add_each stable_id
extracted_promise = refl

extract-IsProposal_example :
    DistinctIds extracted.entities
    × ((map (λ e. e.entity_ids) extracted.events ≡ ids_of extracted.entities ∷ [])
        × All (IsProposal host "ann" mail extracted.entities) extracted.claims)
extract-IsProposal_example =
    extract-IsProposal host "ann" mail 50 (grammar_of "2025-02-14") extracted extracted_read

-- The same with a reference to an issue
abbrev referring : RawRecord
referring = record mail { metadata = ("cites", MetaValue.texts ("github:7" ∷ [])) ∷ [] }

one_reference : references (find "cites" referring.metadata) ≡ ok ("github:7" ∷ [])
one_reference = refl

extract-RaisesIf_example :
    RaisesIf
      (any is_misdirected ("github:7" ∷ [])
        || any
            (λ m. undated host.parse_date (given m.due))
            ((grammar_of "2025-99-14").commitments (text_of referring)))
      (extract host "ann" referring 50 (grammar_of "2025-99-14"))
extract-RaisesIf_example =
    extract-RaisesIf host "ann" referring 50 (grammar_of "2025-99-14") ("github:7" ∷ [])
      one_reference

-- A reference to what is no source's id raises.
misdirected :
    extract host "ann"
      (record mail { metadata = ("cites", MetaValue.texts ("Foo:1" ∷ [])) ∷ [] })
      50
      (grammar_of "2025-02-14")
    ≡ err value_error
unfolding extract check_source_id
misdirected = refl
