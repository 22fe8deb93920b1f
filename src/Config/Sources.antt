-- ===== src/Config/Sources.antt =====
-- The list of enabled sources, as it is written and read.
use Prim.Native.String
use Prim.Native.String.append
use memapp.Prelude.{String, ◌≡◌, refl, ap, false, some, List, [], ◌∷◌, eqb, All}
use memapp.Prelude.Texts.{codes, join, is_blank, strip_text, front_piece, split_on}
use memapp.Config.{part_of, split_csv}

-- A text without commas, with neither white space around it nor nothing in it
pub record IsEntry (s : String) : Type 0 where
  pub no_comma : All (λ c. eqb c b',' ≡ false) (codes s)
  pub stripped : strip_text s ≡ s
  pub not_blank : is_blank s ≡ false

part_of-IsEntry : (s : String) → IsEntry s → part_of s ≡ some s
part_of-IsEntry s h = rw (h.stripped, h.not_blank)

front_piece_one :
    (s : String) → All (λ c. eqb c b',' ≡ false) (codes s) → front_piece b',' s ≡ (s, [])
front_piece_one String.[] h = refl
front_piece_one (String.◌∷◌ c s) h = rw (h.0, front_piece_one s h.1)

front_piece_comma : (t : String) → front_piece b',' (String.◌++◌ "," t) ≡ ("", split_on b',' t)
front_piece_comma t = rw (append.cons "," "" t, append.nil t)

front_piece-append :
    (s t : String)
    → All (λ c. eqb c b',' ≡ false) (codes s)
    → front_piece b',' (String.◌++◌ s (String.◌++◌ "," t)) ≡ (s, split_on b',' t)
front_piece-append String.[] t h = rw (append.nil (String.◌++◌ "," t)) (front_piece_comma t)
front_piece-append (String.◌∷◌ c s) t h =
    rw (append.cons c s (String.◌++◌ "," t), h.0, front_piece-append s t h.1)

-- A list of entries, written with commas between them, is read as the same list.
pub split_csv-join :
    (sources : List String) → All IsEntry sources → split_csv (join "," sources) ≡ sources
unfolding split_csv
split_csv-join [] h = refl
split_csv-join (s ∷ []) h = rw (front_piece_one s (h.0.no_comma), part_of-IsEntry s h.0)
split_csv-join (s ∷ t ∷ ts) h =
    rw (front_piece-append s (join "," (t ∷ ts)) (h.0.no_comma), part_of-IsEntry s h.0)
      (ap (◌∷◌ s) (split_csv-join (t ∷ ts) h.1))
