-- ===== src/Connectors/Chunks/Budget.antt =====
-- The chunks keep to the budget, save where one paragraph alone is over it.
use memapp.Prelude.{
  ℕ, ◌≤◌, ◌≡◌, ◌⊎◌, inl, inr, true, false, List, [], ◌∷◌, ◌++◌, arith, ltb, Bool-cases, length,
  is_empty, All, length-append, All-append, Among, Among-All, All-weaken,
}
use memapp.Connectors.Chunks.{
  units, blank_line, overflows, flush, pack_one, pack_from, pack_paragraphs, turn_one, turns_from,
  turns_of, chunk_transcript,
}

-- A chunk within the budget, or one of the texts that were packed
abbrev pub Fits : ℕ → List (List ℕ) → List ℕ → Type 0
Fits max_chars us chunk = (length chunk ≤ max_chars) ⊎ Among chunk us

module _ (m : ℕ) (P : List ℕ → Type 0) (short : (x : List ℕ) → length x ≤ m → P x) where
  -- A round of the loop emits chunks that have the property, and gathers one.
  abbrev Keeps : List (List ℕ) × List ℕ → Type 0
  Keeps step = All P step.0 × P step.1

  flush-All : (current : List ℕ) → P current → All P (flush current)
  flush-All [] h = tt
  flush-All (c ∷ current) h = (h, tt)

  pack_one-Keeps : (current u : List ℕ) → P current → P u → Keeps (pack_one m current u)
  pack_one-Keeps [] u h k = (tt, k)
  pack_one-Keeps (c ∷ current) u h k = elim (Bool-cases (overflows m (c ∷ current) u)) [
    | inl e ↦ rw e ((h, tt), k)
    | inr e ↦ rw e (tt, short _ (ground (arith, e, length-append current (blank_line ++ u))))
  ]

  pack_from-All :
      (current : List ℕ) (us : List (List ℕ))
      → P current
      → All P us
      → All P (pack_from m current us)
  unfolding pack_from
  pack_from-All current [] h hs = flush-All current h
  pack_from-All current (u ∷ us) h hs =
      let (full, gathered) = pack_one-Keeps current u h hs.0 in
      All-append P (pack_one m current u).0 (pack_from m (pack_one m current u).1 us) full
        (pack_from-All (pack_one m current u).1 us gathered hs.1)

  turn_one-Keeps :
      (current turn : List ℕ)
      → P current
      → (ltb m (length turn) ≡ true → All P (pack_paragraphs m turn))
      → Keeps (turn_one m current turn)
  turn_one-Keeps current turn h long = elim (Bool-cases (ltb m (length turn))) [
    | inl e ↦ rw e (
      All-append P (flush current) (pack_paragraphs m turn) (flush-All current h) (long e),
      short [] (omega arith),
    )
    | inr e ↦ rw e (pack_one-Keeps current turn h (short turn (ground (arith, e))))
  ]

  turns_from-All :
      (current : List ℕ) (turns : List (List ℕ))
      → P current
      → All (λ turn. ltb m (length turn) ≡ true → All P (pack_paragraphs m turn)) turns
      → All P (turns_from m current turns)
  unfolding turns_from
  turns_from-All current [] h hs = flush-All current h
  turns_from-All current (turn ∷ rest) h hs =
      let (full, gathered) = turn_one-Keeps current turn h hs.0 in
      All-append P (turn_one m current turn).0 (turns_from m (turn_one m current turn).1 rest) full
        (turns_from-All (turn_one m current turn).1 rest gathered hs.1)

-- Every chunk is within the budget or is one whole paragraph of the text, stripped.
pub pack_paragraphs-Fits :
    (max_chars : ℕ) (text : List ℕ)
    → All (Fits max_chars (units text)) (pack_paragraphs max_chars text)
unfolding pack_paragraphs
pack_paragraphs-Fits max_chars text =
    pack_from-All max_chars (Fits max_chars (units text)) (λ x h. inl h) [] (units text)
      (inl (omega arith)) (Among-All (Fits max_chars (units text)) (units text) (λ x a. inr a))

-- A stripped paragraph of one of the turns, which is over the budget
abbrev pub OfLongTurn : ℕ → List (List ℕ) → List ℕ → Type 0
OfLongTurn max_chars turns chunk =
    (turn : List ℕ) × (Among turn turns
      × ((ltb max_chars (length turn) ≡ true) × Among chunk (units turn)))

-- Where a transcript has turns, every chunk is within the budget or is one whole paragraph of a turn that
-- is itself over the budget.
pub chunk_transcript-Fits :
    (text : List ℕ) (max_chars : ℕ)
    → is_empty (turns_of text) ≡ false
    → All
        (λ chunk. (length chunk ≤ max_chars) ⊎ OfLongTurn max_chars (turns_of text) chunk)
        (chunk_transcript text max_chars)
unfolding chunk_transcript
chunk_transcript-Fits text max_chars some_turn = rw some_turn (
    turns_from-All max_chars Chunk (λ x h. inl h) [] (turns_of text) (inl (omega arith))
      (Among-All Packs (turns_of text) (λ turn a long.
        All-weaken (Fits max_chars (units turn)) Chunk (pack_paragraphs max_chars turn)
          (λ x fits. elim fits [ inl h ↦ inl h | inr b ↦ inr (turn, (a, (long, b))) ])
          (pack_paragraphs-Fits max_chars turn))))
  where
    Chunk : List ℕ → Type 0
    Chunk chunk = (length chunk ≤ max_chars) ⊎ OfLongTurn max_chars (turns_of text) chunk

    Packs : List ℕ → Type 0
    Packs turn = ltb max_chars (length turn) ≡ true → All Chunk (pack_paragraphs max_chars turn)
