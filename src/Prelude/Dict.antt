-- ===== src/Prelude/Dict.antt =====
-- Python's `dict` with text keys, in insertion order.
use Prim.Native.String.{String}
use mathlib.Core.Path.{◌≡◌, refl, sym, ap, ◌∙◌}
use mathlib.Core.Bool.{Bool, true, false, ◌&&◌}
use mathlib.Core.Option.{Option, none, some}
use mathlib.Core.List.{List, [], ◌∷◌, map}
use native.Mathlib.Omega.{arith}
use text.Mathlib.Text.{◌==◌}
use text.Mathlib.TextEquality.{eq_iff}
use mathlib.Core.Logic.{inl, inr}
use memapp.Prelude.Tests.{if◌then◌else◌, Bool-cases, if_false, Option-cases}
use memapp.Prelude.Lists.{All, keep, all, Among}

abbrev pub Dict {ℓ} : Type ℓ → Type ℓ
Dict A = List (String × A)

module _ {ℓ} {A : Type ℓ} where
  -- `d.get(k)`
  abbrev pub find : String → Dict A → Option A
  find k [] = none
  find k ((j, a) ∷ d) = if j == k then some a else find k d

  -- `d[k] = a`
  abbrev pub put : String → A → Dict A → Dict A
  put k a [] = (k, a) ∷ []
  put k a ((j, b) ∷ d) = let rest = put k a d in if j == k then (j, a) ∷ d else (j, b) ∷ rest

  -- `{k: a for k, a in pairs}`, on top of what is there
  abbrev pub put_all : List (String × A) → Dict A → Dict A
  put_all [] d = d
  put_all ((k, a) ∷ pairs) d = put_all pairs (put k a d)

  abbrev pub has : String → Dict A → Bool
  has k d = elim (find k d) [ none ↦ false | some a ↦ true ]

  abbrev pub values : Dict A → List A
  values = map (λ p. p.1)

  abbrev pub keys : Dict A → List String
  keys = map (λ p. p.0)

  pub find-put :
      (k j : String) (a : A) (d : Dict A)
      → find j (put k a d) ≡ (if k == j then some a else find j d)
  find-put k j a [] = refl
  find-put k j a ((i, b) ∷ d) = ground (arith, eq_iff k j, eq_iff i k, eq_iff i j, find-put k j a d)

  module _ {κ} (P : String × A → Type κ) where
    pub put-All :
        (k : String) (a : A) (d : Dict A)
        → ((j : String) → (j == k) ≡ true → P (j, a))
        → P (k, a)
        → All P d
        → All P (put k a d)
    put-All k a [] near h hd = (h, tt)
    put-All k a ((j, b) ∷ d) near h hd = elim (Bool-cases (j == k)) [
      | inl e ↦ rw e (near j e, hd.1)
      | inr e ↦ rw e (hd.0, put-All k a d near h hd.1)
    ]

    pub put_all-All :
        (pairs : List (String × A)) (d : Dict A)
        → ((k j : String) (a : A) → (j == k) ≡ true → P (k, a) → P (j, a))
        → All P pairs
        → All P d
        → All P (put_all pairs d)
    put_all-All [] d near h hd = hd
    put_all-All ((k, a) ∷ pairs) d near h hd =
        put_all-All pairs (put k a d) near h.1 (put-All k a d (λ j e. near k j a e h.0) h.0 hd)

-- A change of the values alone.
abbrev pub map_values {ℓ κ} : {A : Type ℓ} {B : Type κ} → (A → B) → Dict A → Dict B
map_values f = map (λ p. (p.0, f p.1))

abbrev pub map_found {ℓ κ} : {A : Type ℓ} {B : Type κ} → (A → B) → Option A → Option B
map_found f none = none
map_found f (some a) = some (f a)

module _ {ℓ} {A : Type ℓ} (f : A → A) where
  pub find-map_values : (i : String) (d : Dict A) → find i (map_values f d) ≡ map_found f (find i d)
  find-map_values i [] = refl
  find-map_values i ((j, a) ∷ d) = elim (Bool-cases (j == i)) [
    | inl e ↦ rw e
    | inr e ↦ rw e (find-map_values i d)
  ]

  pub put-map_values :
      (k : String) (a : A) (d : Dict A) → put k (f a) (map_values f d) ≡ map_values f (put k a d)
  put-map_values k a [] = refl
  put-map_values k a ((j, b) ∷ d) = elim (Bool-cases (j == k)) [
    | inl e ↦ rw e
    | inr e ↦ rw e (ap (◌∷◌ (j, f b)) (put-map_values k a d))
  ]

  pub put_all-map_values :
      (pairs : List (String × A)) (d : Dict A)
      → put_all (map_values f pairs) (map_values f d) ≡ map_values f (put_all pairs d)
  put_all-map_values [] d = refl
  put_all-map_values ((k, a) ∷ pairs) d =
      ap (put_all (map_values f pairs)) (put-map_values k a d)
      ∙ put_all-map_values pairs (put k a d)

  pub values-map_values : (d : Dict A) → values (map_values f d) ≡ map f (values d)
  values-map_values [] = refl
  values-map_values ((k, a) ∷ d) = ap (◌∷◌ (f a)) (values-map_values d)

  -- Tests of the keys do not see the values.
  module _ (p : String → Bool) where
    pub keep-map_values :
        (d : Dict A) → keep (λ q. p q.0) (map_values f d) ≡ map_values f (keep (λ q. p q.0) d)
    keep-map_values [] = refl
    keep-map_values ((k, a) ∷ d) = elim (Bool-cases (p k)) [
      | inl e ↦ rw e (ap (◌∷◌ (k, f a)) (keep-map_values d))
      | inr e ↦ rw e (keep-map_values d)
    ]

    pub all-map_values : (d : Dict A) → all (λ q. p q.0) (map_values f d) ≡ all (λ q. p q.0) d
    all-map_values [] = refl
    all-map_values ((k, a) ∷ d) = ap (λ b. p k && b) (all-map_values d)

pub some-inj {ℓ} : {A : Type ℓ} {a b : A} → some a ≡ some b → a ≡ b
some-inj h = cc

module _ {ℓ} {A : Type ℓ} where
  -- What is found under a key has what all entries have.
  pub find-All {κ} :
      (P : A → Type κ) (k : String) (d : Dict A) {a : A}
      → find k d ≡ some a
      → All (λ p. P p.1) d
      → P a
  find-All P k [] h hd = absurd cc
  find-All P k ((j, b) ∷ d) h hd = elim (Bool-cases (j == k)) [
    | inl e ↦ let same : some b ≡ some _ = rw e at h in rw (some-inj (sym same)) hd.0
    | inr e ↦ find-All P k d (rw e at h) hd.1
  ]

apart : (j k : String) → (j == k) ≡ false → (k == j) ≡ false
apart j k e = elim (Bool-cases (k == j)) [
  | inl b ↦ let no : false ≡ true = sym e ∙ (eq_iff j k).1 (sym ((eq_iff k j).0 b)) in absurd cc
  | inr b ↦ b
]

module _ {A : Type 0} where
  -- No key stands twice in a dict.
  abbrev pub IsDict : Dict A → Type 0
  IsDict [] = Unit
  IsDict ((k, a) ∷ d) = (find k d ≡ none) × IsDict d

  put-IsDict : (k : String) (a : A) (d : Dict A) → IsDict d → IsDict (put k a d)
  put-IsDict k a [] h = (refl, tt)
  put-IsDict k a ((j, b) ∷ d) h = elim (Bool-cases (j == k)) [
    | inl e ↦ rw e h
    | inr e ↦ rw e (find-put k j a d ∙ if_false _ _ (apart j k e) ∙ h.0, put-IsDict k a d h.1)
  ]

  pub put_all-IsDict :
      (pairs : List (String × A)) (d : Dict A) → IsDict d → IsDict (put_all pairs d)
  put_all-IsDict [] d h = h
  put_all-IsDict ((k, a) ∷ pairs) d h = put_all-IsDict pairs (put k a d) (put-IsDict k a d h)

  -- So every entry is what its key finds.
  pub entry-find : (q : String × A) (d : Dict A) → IsDict d → Among q d → find q.0 d ≡ some q.1
  entry-find q [] h a = absurd a
  entry-find q ((k, b) ∷ d) h (inl e) =
      rw ((eq_iff k q.0).1 (ap (λ (x : String × A). x.0) (sym e)))
        (ap (λ (x : String × A). some x.1) (sym e))
  entry-find q ((k, b) ∷ d) h (inr a) =
      let rest = entry-find q d h.1 a in
      elim (Bool-cases (k == q.0)) [
        | inl e ↦
            let same : k ≡ q.0 = (eq_iff k q.0).0 e in
            absurd (none-some q.1 (sym h.0 ∙ ap (λ i. find i d) same ∙ rest))
        | inr e ↦ rw e rest
      ]
    where
      none-some : (x : A) → none ≡ some x → ⊥
      none-some x h = cc

  find-Among : (k : String) (a : A) (d : Dict A) → find k d ≡ some a → Among (k, a) d
  find-Among k a [] h = absurd cc
  find-Among k a ((j, b) ∷ d) h = elim (Bool-cases (j == k)) [
    | inl e ↦
        let same : some b ≡ some a = rw e at h in
        inl (λ i. (sym ((eq_iff j k).0 e) i, sym (some-inj same) i))
    | inr e ↦ inr (find-Among k a d (rw e at h))
  ]

  pub has-Among : (k : String) (d : Dict A) → has k d ≡ true → (a : A) × Among (k, a) d
  has-Among k d h = elim (Option-cases (find k d)) [
    | inl e ↦ let no : false ≡ true = rw (has, e) at h in absurd cc
    | inr (a, e) ↦ (a, find-Among k a d e)
  ]
