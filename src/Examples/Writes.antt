-- ===== src/Examples/Writes.antt =====
-- Writes to the store and a run of ingestion on the samples.
use memapp.Prelude.{
  ℕ, String, ◌≡◌, refl, ◌⊎◌, true, false, ◌&&◌, Option, none, some, List, [], ◌∷◌, map, ◌==◌,
  if◌then◌else◌, keep, gather,
}
use memapp.Prelude.Result.{Result, ok}
use memapp.Schema.{MemoryNode, RawRecord, EncryptedContentRef}
use memapp.Store.{Graph, hydrate}
use memapp.Store.Writes.{upsert, wipe_owner}
use memapp.Store.Reads.{is_owned_claim, open_commitments}
use memapp.Store.Coherence.{
  Step, Reached, IsIndexed, empty_graph, due_sorted, holds_due, Reached-IsIndexed,
  open_commitments-eq,
}
use memapp.Store.Owners.{IsErased, wipe_owner-IsErased}
use memapp.Store.Typed.{IsTyped}
use memapp.Graphs.Ingestion.{Written, IngestionResult, encrypt, write, run_ingestion}
use memapp.Graphs.Ingestion.Returns.{RaisesAs}
use memapp.Graphs.Ingestion.Sealing.{IsSealed}
use memapp.Graphs.Ingestion.Report.{candidate_ids, candidate_errors}
use memapp.Graphs.Ingestion.Sealed.{IsSealing, encrypt-IsSealing}
use memapp.Graphs.Ingestion.Run.{write_seals, write_accounts}
use memapp.Examples.Samples.{owed, postgres, mail, batch, memory, embed, no_seal, extract_one}

-- The graph after two upserts
abbrev two_claims : Graph ℕ
two_claims = upsert (MemoryNode.claim postgres) 1 (upsert (MemoryNode.claim owed) 0 empty_graph)

two_claims-Reached : Reached two_claims
two_claims-Reached =
    Reached.step _ _
      (Reached.step _ _ Reached.start (Step.upserted (MemoryNode.claim owed) 0 empty_graph))
      (Step.upserted (MemoryNode.claim postgres) 1 (upsert (MemoryNode.claim owed) 0 empty_graph))

Reached-IsIndexed_example : IsIndexed two_claims
Reached-IsIndexed_example = Reached-IsIndexed two_claims two_claims-Reached

open_commitments-eq_example :
    open_commitments two_claims "ann" (some 90) none false
    ≡ map hydrate (
        due_sorted (
          keep
            (λ r. is_owned_claim "ann" r && holds_due (some 90) none false r.payload)
            two_claims.rows))
open_commitments-eq_example =
    open_commitments-eq (some 90) none false "ann" two_claims two_claims-Reached

wipe_owner-IsErased_example : IsErased memory (wipe_owner "ann" memory) "ann" "bob"
wipe_owner-IsErased_example = wipe_owner-IsErased "ann" "bob" refl memory

pub memory-IsTyped : IsTyped memory
memory-IsTyped = (refl, (refl, (refl, tt)))

memory-IsSealed : IsSealed (mail ∷ []) memory
memory-IsSealed = (tt, (tt, (tt, tt)))

write_seals_example :
    ((s : Written ℕ) × ((write embed (mail ∷ []) [] batch memory ≡ ok s)
        × (IsTyped s.graph × IsSealed (mail ∷ []) s.graph)))
    ⊎ ((text : String) × RaisesAs (embed text) (write embed (mail ∷ []) [] batch memory))
write_seals_example = write_seals embed (mail ∷ []) [] batch memory memory-IsTyped memory-IsSealed

write_accounts_example :
    ((s : Written ℕ) × ((write embed (mail ∷ []) [] batch memory ≡ ok s)
        × ((s.written ≡ gather (candidate_ids (mail ∷ []) []) batch)
            × (s.errors ≡ gather (candidate_errors (mail ∷ []) []) batch))))
    ⊎ ((text : String) × RaisesAs (embed text) (write embed (mail ∷ []) [] batch memory))
write_accounts_example = write_accounts embed (mail ∷ []) [] batch memory memory-IsTyped

abbrev run : Result (Graph ℕ × IngestionResult)
run = run_ingestion embed no_seal extract_one "ann" true (ok (mail ∷ [])) memory

-- Two sensitive records, of which the enclave seals the first
abbrev secrets : List RawRecord
secrets =
    record mail { sensitive = true } ∷ record mail { external_id = "mail-8"; sensitive = true } ∷ []

abbrev seal_first : String → String → Option EncryptedContentRef
seal_first i body =
    if i == "mail-1"
    then some (record { key_id = "k1"; scheme = "aes"; blob_id = none; byte_len = 3 })
    else none

encrypt_test : (encrypt seal_first secrets).errors ≡ "seal failed for mail-8" ∷ []
unfolding encrypt
encrypt_test = refl

encrypt-IsSealing_example : IsSealing seal_first secrets (encrypt seal_first secrets)
encrypt-IsSealing_example = encrypt-IsSealing seal_first secrets
