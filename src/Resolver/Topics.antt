-- ===== src/Resolver/Topics.antt =====
-- `_topic`, `_tokens` and `_obligation` of resolution/resolver.py.
use memapp.Prelude.{
  ℕ, String, Bool, true, false, not, ◌&&◌, ◌||◌, ◌+◌, List, [], ◌∷◌, ◌++◌, Option, none, some, any,
  all, leb, eqb, keep, gather, take, ◌==◌, if◌then◌else◌, map,
}
use memapp.Prelude.Texts.{codes}
use memapp.Schema.{Claim}

-- `str.lower` as far as the token pattern can see: two letters outside ASCII lower to a text with an
-- ASCII letter, the dotted capital I and the Kelvin sign; no other has a token character.
abbrev pub lower_char : ℕ → List ℕ
lower_char c =
    if leb b'A' c && leb c b'Z'
    then (c + 32) ∷ []
    else if eqb c 0x130
    then b'i' ∷ 0x307 ∷ []
    else if eqb c 0x212a
    then b'k' ∷ []
    else c ∷ []

abbrev pub is_token_char : ℕ → Bool
is_token_char c = leb b'a' c && leb c b'z' || leb b'0' c && leb c b'9'

abbrev pub add_token : List ℕ → List (List ℕ) → List (List ℕ)
add_token [] found = found
add_token (c ∷ cs) found = (c ∷ cs) ∷ found

-- `_TOKEN_RE.findall`: the longest runs of token characters; `run` is the one being read
abbrev pub findall : List ℕ → List ℕ → List (List ℕ)
findall run [] = add_token run []
findall run (c ∷ cs) =
    let longer = findall (run ++ c ∷ []) cs in
    let ended = findall [] cs in if is_token_char c then longer else add_token run ended

abbrev pub same_text : List ℕ → List ℕ → Bool
same_text [] [] = true
same_text (c ∷ cs) (d ∷ ds) = eqb c d && same_text cs ds
same_text [] (d ∷ ds) = false
same_text (c ∷ cs) [] = false

abbrev pub stopwords : List (List ℕ)
stopwords = map codes (
    "a" ∷ "after" ∷ "all" ∷ "an" ∷ "and" ∷ "at" ∷ "be" ∷ "for" ∷ "from" ∷ "in" ∷ "of" ∷ "on"
    ∷ "pending" ∷ "primary" ∷ "review" ∷ "the" ∷ "that" ∷ "to" ∷ "will" ∷ "with" ∷ [])

abbrev pub is_member : List (List ℕ) → List ℕ → Bool
is_member tokens t = any (λ u. same_text u t) tokens

-- the tokens of a statement that are no stop words, in order
unfoldable pub token_list : String → List (List ℕ)
token_list statement =
    keep (λ t. not (is_member stopwords t)) (findall [] (gather lower_char (codes statement)))

-- `frozenset(…) == frozenset(…)`
abbrev pub same_set : List (List ℕ) → List (List ℕ) → Bool
same_set a b = all (is_member b) a && all (is_member a) b

unfoldable pub topic : String → List (List ℕ)
unfolding token_list
topic statement = take 3 (token_list statement)

unfoldable pub tokens : String → List (List ℕ)
unfolding token_list
tokens statement = token_list statement

abbrev pub opt_text_eq : Option String → Option String → Bool
opt_text_eq none none = true
opt_text_eq (some s) (some t) = s == t
opt_text_eq none (some t) = false
opt_text_eq (some s) none = false

abbrev pub opt_nat_eq : Option ℕ → Option ℕ → Bool
opt_nat_eq none none = true
opt_nat_eq (some m) (some n) = eqb m n
opt_nat_eq none (some n) = false
opt_nat_eq (some m) none = false

-- The part of a commitment that is not in its statement.
pub record Obligation : Type 0 where
  pub owed_by : Option String
  pub owed_to : Option String
  pub due_at_ms : Option ℕ

abbrev pub obligation : Claim → Obligation
obligation claim = elim claim.commitment [
  | none ↦ record { owed_by = none; owed_to = none; due_at_ms = none }
  | some c ↦ record {
    owed_by = some c.owed_by_entity_id;
    owed_to = c.owed_to_entity_id;
    due_at_ms = c.due_at_ms;
  }
]

abbrev pub same_obligation : Obligation → Obligation → Bool
same_obligation a b =
    opt_text_eq a.owed_by b.owed_by
    && (opt_text_eq a.owed_to b.owed_to && opt_nat_eq a.due_at_ms b.due_at_ms)
