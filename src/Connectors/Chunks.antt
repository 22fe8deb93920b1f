-- ===== src/Connectors/Chunks.antt =====
-- `pack_paragraphs` of connectors/base.py and `chunk_transcript` of connectors/chatgpt.py. A text is the
-- list of its code points, which Python's `len` counts.
pub mod Packing
pub mod Budget
use memapp.Prelude.{
  ℕ, zero, suc, String, ◌+◌, ◌-◌, ◌*◌, ◌/◌, ◌%◌, ◌≤◌, ◌<◌, ◌≡◌, ◌≢◌, refl, sym, ap, ◌∙◌, ◌↔◌, ◌⊎◌,
  inl, inr, Bool, true, false, not, ◌&&◌, ◌||◌, Option, none, some, List, [], ◌∷◌, ◌++◌, map, Memᴰ,
  arith, ◌==◌, eq_iff, ltb, leb, eqb, if◌then◌else◌, Bool-cases, if_true, if_false, Option-cases,
  and_true, leb→le, ltb→lt, length, is_empty, any, all, keep, first, head?, last?, take, drop, All,
  gather, keep_some, cons_some, contains, unique, distinct, length-append, length-take-le,
  length-keep-le, length-keep-add, All-append, All-keep, keep-All, length-map, map-All,
  is_empty-map,
}
use memapp.Prelude.Texts.{codes, strip}

abbrev pub push : ℕ → List (List ℕ) → List (List ℕ)
push c [] = (c ∷ []) ∷ []
push c (p ∷ ps) = (c ∷ p) ∷ ps

-- The text cut at each pair of newlines that the test lets through for what follows it; the pair goes.
abbrev pub cut : (List ℕ → Bool) → List ℕ → List (List ℕ)
cut here [] = [] ∷ []
cut here (c ∷ []) = (c ∷ []) ∷ []
cut here (c ∷ d ∷ rest) = elim (eqb c 10 && eqb d 10 && here rest) [
  | true ↦ [] ∷ cut here rest
  | false ↦ push c (cut here (d ∷ rest))
]

-- `text.split("\n\n")`
abbrev pub paragraphs : List ℕ → List (List ℕ)
paragraphs = cut (λ rest. true)

abbrev pub blank_line : List ℕ
blank_line = 10 ∷ 10 ∷ []

-- `[u.strip() for u in text.split("\n\n") if u.strip()]`
abbrev pub stripped : List ℕ → List (List ℕ)
stripped text = keep (λ u. not (is_empty u)) (map strip (paragraphs text))

unfoldable pub units : List ℕ → List (List ℕ)
units text = if is_empty (stripped text) then strip text ∷ [] else stripped text

-- `f"{current}\n\n{unit}" if current else unit`
abbrev pub joined : List ℕ → List ℕ → List ℕ
joined [] unit = unit
joined (c ∷ current) unit = (c ∷ current) ++ (blank_line ++ unit)

-- `current and len(current) + len(unit) + 2 > max_chars`
abbrev pub overflows : ℕ → List ℕ → List ℕ → Bool
overflows max_chars current unit =
    not (is_empty current) && ltb max_chars (length current + length unit + 2)

abbrev pub flush : List ℕ → List (List ℕ)
flush [] = []
flush (c ∷ current) = (c ∷ current) ∷ []

-- One round of the loop: the chunk that is full, if it is, and what is gathered now
abbrev pub pack_one : ℕ → List ℕ → List ℕ → List (List ℕ) × List ℕ
pack_one max_chars current unit =
    if overflows max_chars current unit then (current ∷ [], unit) else ([], joined current unit)

-- The loop, from what it has gathered
unfoldable pub pack_from : ℕ → List ℕ → List (List ℕ) → List (List ℕ)
pack_from max_chars current [] = flush current
pack_from max_chars current (unit ∷ rest) =
    let (full, gathered) = pack_one max_chars current unit in
    full ++ pack_from max_chars gathered rest

unfoldable pub pack_paragraphs : ℕ → List ℕ → List (List ℕ)
unfolding pack_from units
pack_paragraphs max_chars text = pack_from max_chars [] (units text)

abbrev pub starts_with : List ℕ → List ℕ → Bool
starts_with [] text = true
starts_with (p ∷ ps) [] = false
starts_with (p ∷ ps) (c ∷ cs) = eqb p c && starts_with ps cs

-- `_ROLE_PREFIX.split(text)`, without the blank pieces
abbrev pub turns_of : List ℕ → List (List ℕ)
turns_of text =
    keep (λ t. not (is_empty (strip t)))
      (cut (λ rest. starts_with (codes "user: ") rest || starts_with (codes "assistant: ") rest)
        text)

-- One round: a turn over the budget is packed by its paragraphs
abbrev pub turn_one : ℕ → List ℕ → List ℕ → List (List ℕ) × List ℕ
turn_one max_chars current turn =
    if ltb max_chars (length turn)
    then (flush current ++ pack_paragraphs max_chars turn, [])
    else pack_one max_chars current turn

unfoldable pub turns_from : ℕ → List ℕ → List (List ℕ) → List (List ℕ)
turns_from max_chars current [] = flush current
turns_from max_chars current (turn ∷ rest) =
    let (full, gathered) = turn_one max_chars current turn in
    full ++ turns_from max_chars gathered rest

unfoldable pub chunk_transcript : List ℕ → ℕ → List (List ℕ)
unfolding turns_from pack_paragraphs
chunk_transcript text max_chars =
    if is_empty (turns_of text)
    then pack_paragraphs 1200 text
    else turns_from max_chars [] (turns_of text)
