-- ===== src/Connectors/Chatgpt/Located.antt =====
-- Texts that are one component of a path.
use Prim.Native.Char.{code}
use Prim.Native.String.append
use memapp.Prelude.{
  ℕ, String, ◌≡◌, refl, inl, inr, Bool, true, false, not, ◌&&◌, List, [], ◌∷◌, ◌++◌, arith, ◌==◌,
  eq_iff, leb, eqb, Bool-cases, and_true, length, all, take, All, All-weaken,
}
use memapp.Prelude.Texts.{◌<>◌, codes, front_piece}
use memapp.Enums.{before_final_newline}
use memapp.Connectors.Chatgpt.Exports.{
  FilePath, is_alnum, is_owner_char, owner_chars, safe_owner, is_named, starts_at_root, join_path,
  ends_with,
}

abbrev pub NoSlash : String → Type 0
NoSlash s = All (λ c. eqb c b'/' ≡ false) (codes s)

abbrev starts_alnum : String → Bool
starts_alnum String.[] = false
starts_alnum (String.◌∷◌ c s) = is_alnum (code c)

module _ {κ} (P : ℕ → Type κ) where
  before_final_newline-All : (cs : List ℕ) → P 10 → All P (before_final_newline cs) → All P cs
  before_final_newline-All [] h hs = tt
  before_final_newline-All (c ∷ []) h hs = elim (Bool-cases (eqb c 10)) [
    | inl e ↦ let same : c ≡ 10 = ground arith in (rw same h, tt)
    | inr e ↦ rw e at hs
  ]
  before_final_newline-All (c ∷ d ∷ cs) h hs = (hs.0, before_final_newline-All (d ∷ cs) h hs.1)

owner_char-eqb : (c : ℕ) → is_owner_char c ≡ true → eqb c b'/' ≡ false
owner_char-eqb c h = ground arith

all-All : (p : ℕ → Bool) (cs : List ℕ) → all p cs ≡ true → All (λ c. p c ≡ true) cs
all-All p [] h = tt
all-All p (c ∷ cs) h = let (hc, rest) = and_true (p c) (all p cs) h in (hc, all-All p cs rest)

owner_chars-All : (cs : List ℕ) → owner_chars cs ≡ true → All (λ c. eqb c b'/' ≡ false) cs
owner_chars-All [] h = tt
owner_chars-All (c ∷ cs) h =
    let (first_char, others) =
      and_true (is_alnum c) (all is_owner_char cs && leb (length cs) 127) h in
    let (chars, few) = and_true (all is_owner_char cs) (leb (length cs) 127) others in
    (
      ground arith,
      All-weaken (λ c. is_owner_char c ≡ true) (λ c. eqb c b'/' ≡ false) cs owner_char-eqb
          (all-All is_owner_char cs chars),
    )

pub safe_owner-NoSlash : (s : String) → safe_owner s ≡ true → NoSlash s
unfolding safe_owner
safe_owner-NoSlash s h =
    before_final_newline-All (λ c. eqb c b'/' ≡ false) (codes s) refl
      (owner_chars-All (before_final_newline (codes s)) h)

front-alnum : (cs : List ℕ) → owner_chars cs ≡ true → all is_alnum (take 1 cs) ≡ true
front-alnum [] h = refl
front-alnum (c ∷ cs) h = ground arith

pub safe_owner-starts_alnum : (s : String) → safe_owner s ≡ true → starts_alnum s ≡ true
unfolding safe_owner
safe_owner-starts_alnum String.[] h = h
safe_owner-starts_alnum (String.◌∷◌ c String.[]) h = elim (Bool-cases (eqb (code c) 10)) [
  | inl e ↦ absurd (let never : false ≡ true = rw e at h in ground arith)
  | inr e ↦ (and_true (is_alnum (code c)) true (rw e at h)).0
]
safe_owner-starts_alnum (String.◌∷◌ c (String.◌∷◌ d s)) h = (and_true (is_alnum (code c)) _ h).0

pub append-NoSlash : (s t : String) → NoSlash s → NoSlash t → NoSlash (s <> t)
append-NoSlash String.[] t hs ht = rw (append.nil t) ht
append-NoSlash (String.◌∷◌ c s) t hs ht = rw (append.cons c s t) (hs.0, append-NoSlash s t hs.1 ht)

pub append-starts_alnum : (s t : String) → starts_alnum s ≡ true → starts_alnum (s <> t) ≡ true
append-starts_alnum String.[] t h = absurd (ground arith)
append-starts_alnum (String.◌∷◌ c s) t h = rw (append.cons c s t) h

front_piece-NoSlash : (s : String) → NoSlash s → front_piece b'/' s ≡ (s, [])
front_piece-NoSlash String.[] h = refl
front_piece-NoSlash (String.◌∷◌ c s) h = rw (h.0, front_piece-NoSlash s h.1)

-- Texts that a test tells apart are different.
apart : (p : String → Bool) (s t : String) → p s ≡ true → p t ≡ false → (s == t) ≡ false
apart p s t hs ht = elim (Bool-cases (s == t)) [
  | inl e ↦ let same = (eq_iff s t).0 e in let hs2 = rw same at hs in absurd (ground arith)
  | inr e ↦ e
]

starts_at_root-NoSlash : (s : String) → NoSlash s → starts_at_root s ≡ false
starts_at_root-NoSlash String.[] h = refl
starts_at_root-NoSlash (String.◌∷◌ c s) h = h.0

-- A text of one piece that starts with a letter or a digit
abbrev pub Clean : String → Type 0
Clean s = NoSlash s × (starts_alnum s ≡ true)

-- Such a text adds just itself to a path.
pub join_path-Clean :
    (path : FilePath) (s : String)
    → Clean s
    → join_path path s ≡ record { absolute = path.absolute; parts = path.parts ++ s ∷ [] }
unfolding join_path
join_path-Clean path s (one, start) = rw (
  starts_at_root-NoSlash s one,
  front_piece-NoSlash s one,
  apart starts_alnum s "" start refl,
  apart starts_alnum s "." start refl,
)

-- A component that leads downwards
abbrev pub goes_down : String → Bool
goes_down s = is_named s && not (s == "..")

pub Clean-goes_down : (s : String) → Clean s → goes_down s ≡ true
Clean-goes_down s (one, start) = rw (
  apart starts_alnum s "" start refl,
  apart starts_alnum s "." start refl,
  apart starts_alnum s ".." start refl,
)

pub ends_with-goes_down : (s : String) → ends_with ".zip" s ≡ true → goes_down s ≡ true
ends_with-goes_down s h = rw (
  apart (ends_with ".zip") s "" h refl,
  apart (ends_with ".zip") s "." h refl,
  apart (ends_with ".zip") s ".." h refl,
)
