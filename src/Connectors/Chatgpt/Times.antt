-- ===== src/Connectors/Chatgpt/Times.antt =====
-- The records of an export: their turns, their times, and which of them a later fetch takes.
use memapp.Prelude.{
  ℕ, String, ◌≤◌, ◌≡◌, refl, sym, inl, inr, Bool, true, false, not, Option, none, some, List, [],
  ◌∷◌, arith, Bool-cases, Option-cases, is_empty, keep, first, All,
}
use memapp.Prelude.Dict.{Dict, find, some-inj}
use memapp.Prelude.Texts.{is_blank}
use memapp.Prelude.Result.{Result, ok, err, ◌>>=◌, both_returned, ok-inj}
use memapp.Schema.{RawRecord, MetaValue}
use memapp.Connectors.Json.{Json, Fields, fields, get}
use memapp.Connectors.Chatgpt.{walk_linear}
use memapp.Connectors.Chatgpt.Turns.{
  Turn, dict_of, str_or_none, ms, is_kept, role, is_skipped, turn_of, turns, render_transcript,
  or_empty,
}
use memapp.Connectors.Chatgpt.Records.{
  walked, nonempty, max, max_of, times, or_zero, or_value, created_at, last_activity, timed,
  identified, with_turns, conversation_to_record,
}

max-le : (a b : ℕ) → (a ≤ max a b) × (b ≤ max a b)
max-le a b = (ground arith, ground arith)

max_of-le : (first : ℕ) (ts : List ℕ) → first ≤ max_of first ts
max_of-le first [] = omega arith
max_of-le first (t ∷ ts) = omega (arith, max_of-le (max first t) ts, (max-le first t).0)

max_of-All : (first : ℕ) (ts : List ℕ) → All (λ t. t ≤ max_of first ts) ts
max_of-All first [] = tt
max_of-All first (t ∷ ts) =
    (omega (arith, max_of-le (max first t) ts, (max-le first t).1), max_of-All (max first t) ts)

-- The turn was not after that time, if its message has one.
abbrev pub NotAfter : ℕ → Option ℕ → Type 0
NotAfter last none = Unit
NotAfter last (some t) = t ≤ last

times-NotAfter :
    (last : ℕ) (said : List Turn)
    → All (λ t. t ≤ last) (times said)
    → All (λ t. NotAfter last t.at_ms) said
times-NotAfter last [] h = tt
times-NotAfter last (turn ∷ said) h = elim (Option-cases turn.at_ms) [
  | inl e ↦ rw e (tt, times-NotAfter last said (rw e at h))
  | inr (t, e) ↦ let h2 = rw e at h in rw e (h2.0, times-NotAfter last said h2.1)
]

-- What is said by the user or the assistant, and is not empty
pub record IsSaid (last : ℕ) (turn : Turn) : Type 0 where
  pub by_kept : is_kept (some turn.role) ≡ true
  pub not_blank : is_blank turn.text ≡ false
  pub not_after : NotAfter last turn.at_ms

then_ok {ℓ} : {A : Type ℓ} (call : Result A) → (call >>= (λ a. ok a)) ≡ call
then_ok (err raised) = refl
then_ok (ok a) = refl

module _ (ms_of : String → Result ℕ) (nonzero : String → Bool) where
  kept_role : (r : Option String) → is_kept r ≡ true → is_kept (some (or_empty r)) ≡ true
  kept_role none h = absurd (ground arith)
  kept_role (some s) h = h

  abbrev Spoken : Turn → Type 0
  Spoken turn = (is_kept (some turn.role) ≡ true) × (is_blank turn.text ≡ false)

  turn_of-Spoken :
      (message : Fields) (t : Option ℕ)
      → is_skipped ms_of nonzero message ≡ false
      → Spoken (turn_of ms_of nonzero message t)
  turn_of-Spoken message t h = (kept_role (role message) (ground arith), ground arith)

  turns-Spoken :
      (messages : List Fields) (said : List Turn)
      → turns ms_of nonzero messages ≡ ok said
      → All Spoken said
  unfolding turns
  turns-Spoken [] said h = rw (sym (ok-inj h)) tt
  turns-Spoken (message ∷ rest) said h = elim (Bool-cases (is_skipped ms_of nonzero message)) [
    | inl e ↦
        let (later, (e1, last)) = both_returned (turns ms_of nonzero rest) _ (rw e at h) in
        rw (sym (ok-inj last)) (turns-Spoken rest later e1)
    | inr e ↦
        let (now, (e0, rest2)) =
          both_returned
            (ms ms_of nonzero (get message "create_time")
              >>= (λ t. ok (some (turn_of ms_of nonzero message t))))
            _ (rw e at h) in
        let (t, (e1, e2)) = both_returned (ms ms_of nonzero (get message "create_time")) _ e0 in
        let (later, (e3, last)) = both_returned (turns ms_of nonzero rest) _ rest2 in
        rw (sym (ok-inj last), sym (ok-inj e2))
          (turn_of-Spoken message t e, turns-Spoken rest later e3)
  ]

  -- A message that is hidden, empty, or neither the user's nor the assistant's leaves no trace.
  turns-keep :
      (messages : List Fields)
      → turns ms_of nonzero messages
        ≡ turns ms_of nonzero (keep (λ m. not (is_skipped ms_of nonzero m)) messages)
  unfolding turns
  turns-keep [] = refl
  turns-keep (message ∷ rest) = elim (Bool-cases (is_skipped ms_of nonzero message)) [
    | inl e ↦
        rw (e, turns-keep rest)
          (then_ok (turns ms_of nonzero (keep (λ m. not (is_skipped ms_of nonzero m)) rest)))
    | inr e ↦ rw (e, e, turns-keep rest)
  ]

  module _ (sensitive : Bool) where
    -- The turns on the active branch of a conversation
    abbrev pub turns_said : Json → Result (List Turn)
    turns_said conversation = do
      messages ← walk_linear (fields (dict_of (get (dict_of conversation) "mapping")))
      turns ms_of nonzero (walked messages)

    -- A record of the turns of a conversation, all said by the time of its last activity
    pub record IsTimely (conversation : Json) (r : RawRecord) (last : ℕ) : Type 0 where
      pub said : List Turn
      pub all_said : turns_said conversation ≡ ok said
      pub some_said : is_empty said ≡ false
      pub each_said : All (IsSaid last) said
      pub body : r.body ≡ render_transcript said
      pub begun : r.occurred_at_ms ≤ last
      pub sealed : r.sensitive ≡ sensitive
      pub stamped : find "last_activity_ms" r.metadata ≡ some (MetaValue.number last)

    all-IsSaid :
        (last : ℕ) (said : List Turn)
        → All Spoken said
        → All (λ t. NotAfter last t.at_ms) said
        → All (IsSaid last) said
    all-IsSaid last [] h n = tt
    all-IsSaid last (t ∷ said) h n = (
      record { by_kept = h.0.0; not_blank = h.0.1; not_after = n.0 },
      all-IsSaid last said h.1 n.1,
    )

    timed-IsTimely :
        (whole : Json) (conversation : Fields) (mapping : Dict Json) (external_id : String)
        (said : List Turn) (out : RawRecord × ℕ)
        → is_empty said ≡ false
        → turns_said whole ≡ ok said
        → All Spoken said
        → timed ms_of nonzero sensitive conversation mapping external_id said ≡ ok (some out)
        → IsTimely whole out.0 out.1
    unfolding timed created_at last_activity
    timed-IsTimely whole conversation mapping external_id said out some_said whole_said spoken h =
        let (create_time, (e1, h1)) =
          both_returned (ms ms_of nonzero (get conversation "create_time")) _ h in
        let (update_time, (e2, h2)) =
          both_returned (ms ms_of nonzero (get conversation "update_time")) _ h1 in
        let created_ms = created_at create_time update_time (times said) in
        let within = max_of-All created_ms (or_zero update_time ∷ times said) in
        let last = last_activity created_ms update_time (times said) in
        rw (sym (some-inj (ok-inj h2))) (record {
          said = said;
          all_said = whole_said;
          some_said = some_said;
          each_said = all-IsSaid last said spoken (times-NotAfter last said within.1);
          body = refl;
          begun = max_of-le created_ms (or_zero update_time ∷ times said);
          sealed = refl;
          stamped = refl;
        })

    identified-IsTimely :
        (whole : Json) (conversation : Fields) (mapping : Dict Json) (said : List Turn)
        (i : Option String) (out : RawRecord × ℕ)
        → is_empty said ≡ false
        → turns_said whole ≡ ok said
        → All Spoken said
        → identified ms_of nonzero sensitive conversation mapping said i ≡ ok (some out)
        → IsTimely whole out.0 out.1
    identified-IsTimely whole conversation mapping said none out some_said whole_said spoken h =
        absurd cc
    identified-IsTimely whole conversation mapping said (some i) out some_said whole_said spoken h =
        timed-IsTimely whole conversation mapping i said out some_said whole_said spoken h

    with_turns-IsTimely :
        (whole : Json) (conversation : Fields) (mapping : Dict Json) (said : List Turn)
        (out : RawRecord × ℕ)
        → turns_said whole ≡ ok said
        → All Spoken said
        → with_turns ms_of nonzero sensitive conversation mapping said ≡ ok (some out)
        → IsTimely whole out.0 out.1
    with_turns-IsTimely whole conversation mapping [] out whole_said spoken h = absurd cc
    with_turns-IsTimely whole conversation mapping (t ∷ ts) out whole_said spoken h =
        identified-IsTimely whole conversation mapping (t ∷ ts)
          (nonempty (
            str_or_none (
              or_value ms_of nonzero sensitive (get conversation "conversation_id")
                (get conversation "id"))))
          out refl whole_said spoken h

    pub conversation_to_record-IsTimely :
        (conversation : Json) (out : RawRecord × ℕ)
        → conversation_to_record ms_of nonzero sensitive conversation ≡ ok (some out)
        → IsTimely conversation out.0 out.1
    unfolding conversation_to_record
    conversation_to_record-IsTimely (Json.object conversation) out h =
        let mapping = fields (dict_of (get conversation "mapping")) in
        let (messages, (e1, h1)) = both_returned (walk_linear mapping) _ h in
        let (said, (e2, h2)) = both_returned (turns ms_of nonzero (walked messages)) _ h1 in
        let whole_said : turns_said (Json.object conversation) ≡ ok said = rw (e1, e2) refl in
        with_turns-IsTimely (Json.object conversation) conversation mapping said out whole_said
          (turns-Spoken (walked messages) said e2) h2
    conversation_to_record-IsTimely Json.null out h = absurd cc
    conversation_to_record-IsTimely (Json.flag b) out h = absurd cc
    conversation_to_record-IsTimely (Json.number n) out h = absurd cc
    conversation_to_record-IsTimely (Json.text s) out h = absurd cc
    conversation_to_record-IsTimely (Json.array a) out h = absurd cc
