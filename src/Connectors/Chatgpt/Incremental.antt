-- ===== src/Connectors/Chatgpt/Incremental.antt =====
-- An export that is read again from a later time.
use memapp.Prelude.{
  ℕ, String, ◌≡◌, refl, ap, ◌∙◌, ◌⊎◌, inl, inr, Bool, true, false, Option, none, some, List, [],
  ◌∷◌, arith, leb, Bool-cases, keep, cons_some,
}
use memapp.Prelude.Dict.{find}
use memapp.Prelude.Result.{Result, Error, ok, err, ◌>>=◌}
use memapp.Schema.{RawRecord, MetaValue}
use memapp.Connectors.Json.{Json, items}
use memapp.Connectors.Chatgpt.Records.{conversation_to_record, since, parse_each, parse_export}
use memapp.Connectors.Chatgpt.Times.{IsTimely, conversation_to_record-IsTimely}

abbrev at_least : ℕ → Option MetaValue → Bool
at_least since_ms none = false
at_least since_ms (some (MetaValue.number t)) = leb since_ms t
at_least since_ms (some (MetaValue.text s)) = false
at_least since_ms (some (MetaValue.flag b)) = false
at_least since_ms (some (MetaValue.texts ss)) = false

-- The last activity that the record's metadata state is at that time or later.
abbrev pub active_since : ℕ → RawRecord → Bool
active_since since_ms r = at_least since_ms (find "last_activity_ms" r.metadata)

Result-cases {ℓ} :
    {A : Type ℓ} (call : Result A) → ((e : Error) × (call ≡ err e)) ⊎ ((a : A) × (call ≡ ok a))
Result-cases (err e) = inl (e, refl)
Result-cases (ok a) = inr (a, refl)

module _ (ms_of : String → Result ℕ) (nonzero : String → Bool) (sensitive : Bool)
    (since_ms : ℕ) where
  keep-since :
      (c : Json) (parsed : Option (RawRecord × ℕ)) (rs : List RawRecord)
      → ((out : RawRecord × ℕ) → parsed ≡ some out → IsTimely ms_of nonzero sensitive c out.0 out.1)
      → cons_some (since ms_of nonzero sensitive since_ms parsed) (keep (active_since since_ms) rs)
        ≡ keep (active_since since_ms) (cons_some (since ms_of nonzero sensitive 0 parsed) rs)
  keep-since c none rs h = refl
  keep-since c (some (r, last)) rs h =
      let always : leb 0 last ≡ true = ground arith in
      let stamp : active_since since_ms r ≡ leb since_ms last = rw ((h (r, last) refl).stamped) in
      elim (Bool-cases (leb since_ms last)) [
        | inl e ↦ rw (always, stamp, e)
        | inr e ↦ rw (always, stamp, e)
      ]

  parse_each-keep :
      (cs : List Json)
      → parse_each ms_of nonzero sensitive since_ms cs
        ≡ (parse_each ms_of nonzero sensitive 0 cs >>= (λ rs. ok (keep (active_since since_ms) rs)))
  parse_each-keep [] = refl
  parse_each-keep (c ∷ cs) =
      elim (Result-cases (conversation_to_record ms_of nonzero sensitive c)) [
        | inl (e, raised) ↦ rw raised
        | inr (parsed, returned) ↦
            rw (returned, parse_each-keep cs)
              (elim (Result-cases (parse_each ms_of nonzero sensitive 0 cs)) [
                | inl (e, raised) ↦ rw raised
                | inr (rs, later) ↦ rw later (
                    ap ok (
                      keep-since c parsed rs (λ out e.
                        conversation_to_record-IsTimely ms_of nonzero sensitive c out
                          (returned ∙ ap ok e))))
              ])
      ]

  -- Reading an export from some time on comes to the same as reading all of it and keeping the records
  -- whose last activity is not before that time, also where the reading raises.
  pub parse_export-keep :
      (payload : Json)
      → parse_export ms_of nonzero sensitive since_ms payload ≡ (
          parse_export ms_of nonzero sensitive 0 payload
          >>= (λ rs. ok (keep (active_since since_ms) rs)))
  unfolding parse_export
  parse_export-keep (Json.array payload) = parse_each-keep (items payload)
  parse_export-keep Json.null = refl
  parse_export-keep (Json.flag b) = refl
  parse_export-keep (Json.number n) = refl
  parse_export-keep (Json.text s) = refl
  parse_export-keep (Json.object o) = refl
