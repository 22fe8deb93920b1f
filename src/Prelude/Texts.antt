-- ===== src/Prelude/Texts.antt =====
-- Texts as lists of code points, for the code that walks them.
use Prim.Native.Nat.{zero, suc, ◌+◌, ◌/◌, ◌%◌, ℕ}
use Prim.Native.Char.{code}
use Prim.Native.String.{String, ◌++◌}
use mathlib.Core.Bool.{Bool, true, false, ◌&&◌, ◌||◌}
use mathlib.Core.List.{List, [], ◌∷◌}
use memapp.Prelude.Tests.{leb, eqb, if◌then◌else◌}

abbrev pub codes : String → List ℕ
codes String.[] = []
codes (String.◌∷◌ c s) = code c ∷ codes s

infixl 65 ◌<>◌
-- `s + t` on texts
abbrev pub ◌<>◌ : String → String → String
s <> t = s ++ t

-- `sep.join(parts)`
abbrev pub join : String → List String → String
join sep [] = ""
join sep (s ∷ []) = s
join sep (s ∷ t ∷ ts) = s ++ (sep ++ join sep (t ∷ ts))

-- `str.isspace` of one character, all code points that Python counts as white space
abbrev pub is_space : ℕ → Bool
is_space c =
    leb 9 c && leb c 13
    || leb 28 c && leb c 32
    || eqb c 133
    || eqb c 160
    || eqb c 5760
    || leb 8192 c && leb c 8202
    || eqb c 8232
    || eqb c 8233
    || eqb c 8239
    || eqb c 8287
    || eqb c 12288

-- `str.lstrip()`
abbrev pub strip_left : List ℕ → List ℕ
strip_left [] = []
strip_left (c ∷ cs) = if is_space c then strip_left cs else c ∷ cs

-- `str.rstrip()`: a space is kept only where something else follows
abbrev pub strip_right : List ℕ → List ℕ
strip_right [] = []
strip_right (c ∷ cs) = elim (strip_right cs) [
  | [] ↦ if is_space c then [] else c ∷ []
  | d ∷ ds ↦ c ∷ d ∷ ds
]

-- `str.strip()`
abbrev pub strip : List ℕ → List ℕ
strip cs = strip_right (strip_left cs)

-- `s == ""`
abbrev pub is_blank : String → Bool
is_blank String.[] = true
is_blank (String.◌∷◌ c s) = false

abbrev pub strip_text_left : String → String
strip_text_left String.[] = ""
strip_text_left (String.◌∷◌ c s) = if is_space (code c) then strip_text_left s else String.◌∷◌ c s

abbrev pub strip_text_right : String → String
strip_text_right String.[] = ""
strip_text_right (String.◌∷◌ c s) =
    let rest = strip_text_right s in
    if is_space (code c) && is_blank rest then "" else String.◌∷◌ c rest

-- `str.strip()` of a whole text
abbrev pub strip_text : String → String
strip_text s = strip_text_right (strip_text_left s)

abbrev pub digit : ℕ → String
digit n =
    if eqb n 0
    then "0"
    else if eqb n 1
    then "1"
    else if eqb n 2
    then "2"
    else if eqb n 3
    then "3"
    else if eqb n 4
    then "4"
    else if eqb n 5
    then "5"
    else if eqb n 6
    then "6"
    else if eqb n 7
    then "7"
    else if eqb n 8
    then "8"
    else "9"

-- The fuel bounds the number of digits.
pub decimal_from : ℕ → ℕ → String
decimal_from zero n = ""
decimal_from (suc fuel) n =
    let front = decimal_from fuel (n / 10) in if leb n 9 then digit n else front ++ digit (n % 10)

-- `str(n)`: a number has at most as many digits as one more than itself.
unfoldable pub decimal : ℕ → String
unfolding decimal_from
decimal n = decimal_from (n + 1) n

-- `s.replace("_", " ")`
abbrev pub spaced : String → String
spaced String.[] = ""
spaced (String.◌∷◌ c s) = if eqb (code c) b'_' then " " ++ spaced s else String.◌∷◌ c (spaced s)

abbrev pub split_char : Bool → (String → String) → String × List String → String × List String
split_char true c (w, ws) = ("", w ∷ ws)
split_char false c (w, ws) = (c w, ws)

-- what stands before the first separator, and the pieces after it
abbrev pub front_piece : ℕ → String → String × List String
front_piece sep String.[] = ("", [])
front_piece sep (String.◌∷◌ c s) = split_char (eqb (code c) sep) (String.◌∷◌ c) (front_piece sep s)

-- `s.split(sep)`, for a separator of one character
abbrev pub split_on : ℕ → String → List String
split_on sep s = let (w, ws) = front_piece sep s in w ∷ ws
