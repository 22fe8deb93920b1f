-- ===== src/Connectors/Chunks/Packing.antt =====
-- Packing loses no paragraph and keeps to its budget.
use memapp.Prelude.{
  ℕ, ◌≡◌, refl, ap, ◌∙◌, inl, inr, Bool, true, false, not, List, [], ◌∷◌, ◌++◌, map, Bool-cases,
  is_empty, all, keep,
}
use mathlib.Core.List.{append_assoc}
use memapp.Prelude.Texts.{strip}
use memapp.Connectors.Chunks.{
  units, blank_line, overflows, stripped, paragraphs, pack_from, pack_paragraphs,
}

-- The texts with a blank line between each two
abbrev pub join_blank : List (List ℕ) → List ℕ
join_blank [] = []
join_blank (u ∷ []) = u
join_blank (u ∷ v ∷ rest) = u ++ (blank_line ++ join_blank (v ∷ rest))

abbrev pub is_nonempty : List ℕ → Bool
is_nonempty u = not (is_empty u)

join_blank-cons :
    (u : List ℕ) (us : List (List ℕ))
    → is_empty us ≡ false
    → join_blank (u ∷ us) ≡ u ++ (blank_line ++ join_blank us)
join_blank-cons u [] h = absurd cc
join_blank-cons u (v ∷ us) h = refl

pack_from-some :
    (m c : ℕ) (current : List ℕ) (us : List (List ℕ))
    → is_empty (pack_from m (c ∷ current) us) ≡ false
unfolding pack_from
pack_from-some m c current [] = refl
pack_from-some m c current (u ∷ us) = elim (Bool-cases (overflows m (c ∷ current) u)) [
  | inl e ↦ rw e refl
  | inr e ↦ rw e (pack_from-some m c (current ++ (blank_line ++ u)) us)
]

regroup :
    (a u : List ℕ) (us : List (List ℕ))
    → join_blank ((a ++ (blank_line ++ u)) ∷ us) ≡ join_blank (a ∷ u ∷ us)
regroup a u [] = refl
regroup a u (v ∷ us) = append_assoc a (blank_line ++ u) (blank_line ++ join_blank (v ∷ us))

pack_from-join :
    (m c : ℕ) (current : List ℕ) (us : List (List ℕ))
    → all is_nonempty us ≡ true
    → join_blank (pack_from m (c ∷ current) us) ≡ join_blank ((c ∷ current) ∷ us)
unfolding pack_from
pack_from-join m c current [] h = refl
pack_from-join m c current ([] ∷ us) h = absurd cc
pack_from-join m c current ((d ∷ u) ∷ us) h =
    elim (Bool-cases (overflows m (c ∷ current) (d ∷ u))) [
      | inl e ↦ rw e (
          join_blank-cons (c ∷ current) (pack_from m (d ∷ u) us) (pack_from-some m d u us)
          ∙ ap (λ l. (c ∷ current) ++ (blank_line ++ l)) (pack_from-join m d u us h))
      | inr e ↦ rw e (
          pack_from-join m c (current ++ (blank_line ++ (d ∷ u))) us h
          ∙ regroup (c ∷ current) (d ∷ u) us)
    ]

pack_from-nil :
    (m : ℕ) (us : List (List ℕ))
    → all is_nonempty us ≡ true
    → join_blank (pack_from m [] us) ≡ join_blank us
unfolding pack_from
pack_from-nil m [] h = refl
pack_from-nil m ([] ∷ us) h = absurd cc
pack_from-nil m ((d ∷ u) ∷ us) h = pack_from-join m d u us h

pack_one_unit : (m : ℕ) (u : List ℕ) → join_blank (pack_from m [] (u ∷ [])) ≡ u
unfolding pack_from
pack_one_unit m [] = refl
pack_one_unit m (c ∷ u) = refl

keep-all : (p : List ℕ → Bool) (us : List (List ℕ)) → all p (keep p us) ≡ true
keep-all p [] = refl
keep-all p (u ∷ us) = elim (Bool-cases (p u)) [
  | inl e ↦ rw (e, e) (keep-all p us)
  | inr e ↦ rw e (keep-all p us)
]

-- Packing loses no paragraph and changes none: the chunks with a blank line between each two are the
-- stripped paragraphs of the text with a blank line between each two, whatever the budget is.
pub pack_paragraphs-join :
    (max_chars : ℕ) (text : List ℕ)
    → join_blank (pack_paragraphs max_chars text) ≡ join_blank (units text)
unfolding pack_paragraphs units
pack_paragraphs-join max_chars text = elim (Bool-cases (is_empty (stripped text))) [
  | inl e ↦ rw e (pack_one_unit max_chars (strip text))
  | inr e ↦
      rw e (
        pack_from-nil max_chars (stripped text)
          (keep-all is_nonempty (map strip (paragraphs text))))
]
