-- ===== src/Prelude/Order.antt =====
-- Python's stable `sorted` by a key, as insertion from the right, and its laws.
use Prim.Native.Nat.{ℕ, compare as compare_ℕ, Ordering}
use Prim.Native.String.{String, compare}
use mathlib.Core.Path.{◌≡◌, refl, ap}
use mathlib.Core.Logic.{◌⊎◌, inl, inr}
use mathlib.Core.Bool.{Bool, true, false}
use mathlib.Core.List.{List, [], ◌∷◌, map}
use text.Mathlib.Text.{is_le}
use memapp.Prelude.Tests.{if◌then◌else◌, Bool-cases}
use memapp.Prelude.Lists.{distinct, All, Among}

module _ {ℓ} {A : Type ℓ} (le : A → A → Bool) where
  abbrev pub insert : A → List A → List A
  insert x [] = x ∷ []
  insert x (y ∷ ys) = let rest = insert x ys in if le x y then x ∷ y ∷ ys else y ∷ rest

  abbrev pub sort_by : List A → List A
  sort_by [] = []
  sort_by (x ∷ xs) = insert x (sort_by xs)

-- The order of texts is by code points, as in Python.
abbrev pub text_le : String → String → Bool
text_le s t = is_le (compare s t)

-- `sorted(set(xs))`
abbrev pub sorted_set : List String → List String
sorted_set xs = sort_by text_le (distinct xs)

-- The order of the pairs `(n, s)`
abbrev pub pair_le : ℕ → String → ℕ → String → Bool
pair_le m s n t = elim (compare_ℕ m n) [
  | Ordering.lt ↦ true
  | Ordering.eq ↦ text_le s t
  | Ordering.gt ↦ false
]

module _ {ℓ} {A : Type ℓ} (le : A → A → Bool) where
  module _ {κ} (P : A → Type κ) where
    insert-All : (x : A) (xs : List A) → P x → All P xs → All P (insert le x xs)
    insert-All x [] hx h = (hx, tt)
    insert-All x (y ∷ ys) hx h = elim (Bool-cases (le x y)) [
      | inl e ↦ rw e (hx, h)
      | inr e ↦ rw e (h.0, insert-All x ys hx h.1)
    ]

    pub sort_by-All : (xs : List A) → All P xs → All P (sort_by le xs)
    sort_by-All [] h = tt
    sort_by-All (x ∷ xs) h = insert-All x (sort_by le xs) h.0 (sort_by-All xs h.1)

  -- A change of the elements that keeps the order commutes with sorting.
  module _ (f : A → A) (same : (x y : A) → le (f x) (f y) ≡ le x y) where
    insert-map : (x : A) (xs : List A) → insert le (f x) (map f xs) ≡ map f (insert le x xs)
    insert-map x [] = refl
    insert-map x (y ∷ ys) = rw same elim (Bool-cases (le x y)) [
      | inl e ↦ rw e
      | inr e ↦ rw e (ap (◌∷◌ (f y)) (insert-map x ys))
    ]

    pub sort_by-map : (xs : List A) → sort_by le (map f xs) ≡ map f (sort_by le xs)
    sort_by-map [] = refl
    sort_by-map (x ∷ xs) = rw (sort_by-map xs) (insert-map x (sort_by le xs))

module _ {A : Type 0} where
  insert-Among :
      (le : A → A → Bool) (x y : A) (xs : List A) → (x ≡ y) ⊎ Among x xs → Among x (insert le y xs)
  insert-Among le x y [] h = h
  insert-Among le x y (z ∷ zs) h = elim (Bool-cases (le y z)) [
    | inl e ↦ rw e h
    | inr e ↦ rw e (elim h [
      | inl same ↦ inr (insert-Among le x y zs (inl same))
      | inr (inl same) ↦ inl same
      | inr (inr later) ↦ inr (insert-Among le x y zs (inr later))
    ])
  ]

  -- Sorting loses nothing.
  pub sort_by-Among :
      (le : A → A → Bool) (x : A) (xs : List A) → Among x xs → Among x (sort_by le xs)
  sort_by-Among le x [] h = h
  sort_by-Among le x (y ∷ ys) (inl e) = insert-Among le x y (sort_by le ys) (inl e)
  sort_by-Among le x (y ∷ ys) (inr h) =
      insert-Among le x y (sort_by le ys) (inr (sort_by-Among le x ys h))
