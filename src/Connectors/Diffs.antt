-- ===== src/Connectors/Diffs.antt =====
-- `chunk_diff` of connectors/github.py.
use memapp.Prelude.{
  ℕ, ◌≡◌, Bool, true, false, not, ◌&&◌, ◌||◌, List, [], ◌∷◌, ◌++◌, map, eqb, if◌then◌else◌,
  is_empty, keep, gather,
}
use memapp.Prelude.Texts.{strip, strip_right}
use memapp.Prelude.Result.{Result, ok, err, index_error}
use memapp.Connectors.Chunks.{push, starts_with, pack_paragraphs}

-- "\n@@"
abbrev pub hunk_mark : List ℕ
hunk_mark = 10 ∷ b'@' ∷ b'@' ∷ []

-- `"\n@@" in text`
abbrev pub has_mark : List ℕ → Bool
has_mark [] = false
has_mark (c ∷ cs) = starts_with hunk_mark (c ∷ cs) || has_mark cs

-- `text.split("\n@@")`
abbrev pub hunks : List ℕ → List (List ℕ)
hunks [] = [] ∷ []
hunks (c ∷ []) = (c ∷ []) ∷ []
hunks (c ∷ d ∷ []) = (c ∷ d ∷ []) ∷ []
hunks (c ∷ d ∷ e ∷ rest) = elim (eqb c 10 && eqb d b'@' && eqb e b'@') [
  | true ↦ [] ∷ hunks rest
  | false ↦ push c (hunks (d ∷ e ∷ rest))
]

abbrev pub parts : List ℕ → List (List ℕ)
parts text = keep (λ p. not (is_empty (strip p))) (hunks text)

-- `f"@@{p}".strip()`
abbrev pub marked : List ℕ → List ℕ
marked p = strip (b'@' ∷ b'@' ∷ p)

-- `parts[0]` raises where there are none
abbrev pub hunk_chunks : List (List ℕ) → Result (List (List ℕ))
hunk_chunks [] = err index_error
hunk_chunks (p ∷ ps) = ok (strip p ∷ map marked ps)

unfoldable pub chunk_diff : List ℕ → Result (List (List ℕ))
chunk_diff text =
    if not (has_mark text) then ok (pack_paragraphs 600 text) else hunk_chunks (parts text)

-- The pieces with the mark before each but the first
abbrev pub glue : List (List ℕ) → List ℕ
glue [] = []
glue (p ∷ ps) = p ++ gather (λ q. hunk_mark ++ q) ps

-- A hunk: the mark, then the part down to its last character that is no blank
abbrev pub hunk : List ℕ → List ℕ
hunk p = b'@' ∷ b'@' ∷ strip_right p

-- What the chunks of a text with hunk marks are: the text is pieces with the mark between them; of those
-- that are not blank, the first without the blanks at its ends, and a hunk of every later one.
pub record IsCut (text : List ℕ) (chunks : List (List ℕ)) : Type 0 where
  pub pieces : List (List ℕ)
  pub whole : glue pieces ≡ text
  pub first_part : List ℕ
  pub later : List (List ℕ)
  pub parted : keep (λ p. not (is_empty (strip p))) pieces ≡ first_part ∷ later
  pub cut : chunks ≡ strip first_part ∷ map hunk later
