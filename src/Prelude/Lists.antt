-- ===== src/Prelude/Lists.antt =====
-- Lists with Boolean tests and native lengths, as Python's comprehensions, `any`, `all` and `in`.
use Prim.Native.Nat.{ℕ, zero, suc, ◌+◌, ◌≤◌}
use Prim.Native.String.{String}
use mathlib.Core.Path.{◌≡◌, refl, ap, ◌∙◌}
use mathlib.Core.Bool.{Bool, true, false, ◌&&◌, ◌||◌, not}
use mathlib.Core.Logic.{◌⊎◌, inl, inr}
use mathlib.Core.Option.{Option, none, some}
use mathlib.Core.List.{List, [], ◌∷◌, ◌++◌, map}
use native.Mathlib.Omega.{arith}
use text.Mathlib.Text.{◌==◌}
use memapp.Prelude.Tests.{if◌then◌else◌, Bool-cases}

module _ {ℓ} {A : Type ℓ} where
  abbrev pub length : List A → ℕ
  length [] = 0
  length (x ∷ xs) = suc (length xs)

  abbrev pub is_empty : List A → Bool
  is_empty [] = true
  is_empty (x ∷ xs) = false

  abbrev pub any : (A → Bool) → List A → Bool
  any p [] = false
  any p (x ∷ xs) = p x || any p xs

  abbrev pub all : (A → Bool) → List A → Bool
  all p [] = true
  all p (x ∷ xs) = p x && all p xs

  -- `[x for x in xs if p(x)]`
  abbrev pub keep : (A → Bool) → List A → List A
  keep p [] = []
  keep p (x ∷ xs) = if p x then x ∷ keep p xs else keep p xs

  -- `next((x for x in xs if p(x)), None)`
  abbrev pub first : (A → Bool) → List A → Option A
  first p [] = none
  first p (x ∷ xs) = if p x then some x else first p xs

  abbrev pub head? : List A → Option A
  head? [] = none
  head? (x ∷ xs) = some x

  -- `xs[-1] if xs else None`
  abbrev pub last? : List A → Option A
  last? [] = none
  last? (x ∷ []) = some x
  last? (x ∷ y ∷ xs) = last? (y ∷ xs)

  abbrev pub take : ℕ → List A → List A
  take zero xs = []
  take (suc n) [] = []
  take (suc n) (x ∷ xs) = x ∷ take n xs

  abbrev pub drop : ℕ → List A → List A
  drop zero xs = xs
  drop (suc n) [] = []
  drop (suc n) (x ∷ xs) = drop n xs

  abbrev pub All {κ} : (A → Type κ) → List A → Type κ
  All P [] = Unit
  All P (x ∷ xs) = P x × All P xs

abbrev pub cons_some {ℓ} : {A : Type ℓ} → Option A → List A → List A
cons_some none xs = xs
cons_some (some x) xs = x ∷ xs

module _ {ℓ κ} {A : Type ℓ} {B : Type κ} where
  -- `[y for x in xs for y in f(x)]`
  abbrev pub gather : (A → List B) → List A → List B
  gather f [] = []
  gather f (x ∷ xs) = f x ++ gather f xs

  -- `[y for x in xs if (y := f(x)) is not None]`
  abbrev pub keep_some : (A → Option B) → List A → List B
  keep_some f [] = []
  keep_some f (x ∷ xs) = cons_some (f x) (keep_some f xs)

-- `x in xs` for texts
abbrev pub contains : List String → String → Bool
contains xs x = any (λ y. y == x) xs

module _ {ℓ} {A : Type ℓ} where
  -- each element once, where it first stands
  abbrev pub unique : (A → A → Bool) → List A → List A
  unique same [] = []
  unique same (x ∷ xs) = x ∷ keep (λ y. not (same x y)) (unique same xs)

-- `list(dict.fromkeys(xs))`
abbrev pub distinct : List String → List String
distinct xs = unique (λ x y. x == y) xs

module _ {ℓ} {A : Type ℓ} where
  pub length-append : (xs ys : List A) → length (xs ++ ys) ≡ length xs + length ys
  length-append [] ys = omega arith
  length-append (x ∷ xs) ys = omega (arith, length-append xs ys)

  pub length-take-le : (n : ℕ) (xs : List A) → length (take n xs) ≤ n
  length-take-le zero xs = omega arith
  length-take-le (suc n) [] = omega arith
  length-take-le (suc n) (x ∷ xs) = omega (arith, length-take-le n xs)

  pub length-keep-le : (p : A → Bool) (xs : List A) → length (keep p xs) ≤ length xs
  length-keep-le p [] = omega arith
  length-keep-le p (x ∷ xs) = ground (arith, length-keep-le p xs)

  -- What a test keeps and what it drops are together the whole.
  pub length-keep-add :
      (p : A → Bool) (xs : List A)
      → length (keep p xs) + length (keep (λ x. not (p x)) xs) ≡ length xs
  length-keep-add p [] = omega arith
  length-keep-add p (x ∷ xs) = ground (arith, length-keep-add p xs)

  module _ {κ} (P : A → Type κ) where
    pub All-append : (xs ys : List A) → All P xs → All P ys → All P (xs ++ ys)
    All-append [] ys hx hy = hy
    All-append (x ∷ xs) ys hx hy = (hx.0, All-append xs ys hx.1 hy)

    pub append-All : (xs ys : List A) → All P (xs ++ ys) → All P xs × All P ys
    append-All [] ys h = (tt, h)
    append-All (x ∷ xs) ys h = let (hx, hy) = append-All xs ys h.1 in ((h.0, hx), hy)

    pub All-keep : (p : A → Bool) (xs : List A) → All P xs → All P (keep p xs)
    All-keep p [] h = tt
    All-keep p (x ∷ xs) h = elim (Bool-cases (p x)) [
      | inl e ↦ rw e (h.0, All-keep p xs h.1)
      | inr e ↦ rw e (All-keep p xs h.1)
    ]

    -- What passes a test has what the test shows.
    pub keep-All : (p : A → Bool) (xs : List A) → ((x : A) → p x ≡ true → P x) → All P (keep p xs)
    keep-All p [] h = tt
    keep-All p (x ∷ xs) h = elim (Bool-cases (p x)) [
      | inl e ↦ rw e (h x e, keep-All p xs h)
      | inr e ↦ rw e (keep-All p xs h)
    ]

module _ {ℓ κ} {A : Type ℓ} {B : Type κ} where
  pub length-map : (f : A → B) (xs : List A) → length (map f xs) ≡ length xs
  length-map f [] = refl
  length-map f (x ∷ xs) = ap suc (length-map f xs)

  pub is_empty-map : (f : A → B) (xs : List A) → is_empty (map f xs) ≡ is_empty xs
  is_empty-map f [] = refl
  is_empty-map f (x ∷ xs) = refl

  pub map-All {μ} :
      (P : B → Type μ) (f : A → B) (xs : List A) → All (λ x. P (f x)) xs → All P (map f xs)
  map-All P f [] h = tt
  map-All P f (x ∷ xs) h = (h.0, map-All P f xs h.1)

module _ {A : Type 0} where
  -- `x` is one of the list.
  abbrev pub Among : A → List A → Type 0
  Among x [] = ⊥
  Among x (y ∷ ys) = (x ≡ y) ⊎ Among x ys

  pub Among-append_left : (x : A) (xs ys : List A) → Among x xs → Among x (xs ++ ys)
  Among-append_left x (y ∷ xs) ys (inl e) = inl e
  Among-append_left x (y ∷ xs) ys (inr h) = inr (Among-append_left x xs ys h)
  Among-append_left x [] ys h = absurd h

  pub Among-append_right : (x : A) (xs ys : List A) → Among x ys → Among x (xs ++ ys)
  Among-append_right x [] ys h = h
  Among-append_right x (y ∷ xs) ys h = inr (Among-append_right x xs ys h)

  pub All-Among {κ} : (P : A → Type κ) (x : A) (xs : List A) → All P xs → Among x xs → P x
  All-Among P x [] h a = absurd a
  All-Among P x (y ∷ ys) h (inl e) = rw e h.0
  All-Among P x (y ∷ ys) h (inr a) = All-Among P x ys h.1 a

  pub Among-All {κ} : (P : A → Type κ) (xs : List A) → ((x : A) → Among x xs → P x) → All P xs
  Among-All P [] h = tt
  Among-All P (y ∷ ys) h = (h y (inl refl), Among-All P ys (λ x a. h x (inr a)))

  pub All-weaken {κ μ} :
      (P : A → Type κ) (Q : A → Type μ) (xs : List A) → ((x : A) → P x → Q x) → All P xs → All Q xs
  All-weaken P Q [] f h = tt
  All-weaken P Q (y ∷ ys) f h = (f y h.0, All-weaken P Q ys f h.1)

module _ {A : Type 0} where
  -- What a test keeps is one of the list and passes the test.
  pub keep-Among :
      (p : A → Bool) (x : A) (xs : List A) → Among x (keep p xs) → Among x xs × (p x ≡ true)
  keep-Among p x [] h = absurd h
  keep-Among p x (y ∷ ys) h = elim (Bool-cases (p y)) [
    | inr e ↦ let (a, b) = keep-Among p x ys (rw e at h) in (inr a, b)
    | inl e ↦
        let h' : Among x (y ∷ keep p ys) = rw e at h in
        elim h' [
          | inl same ↦ (inl same, ap p same ∙ e)
          | inr later ↦ let (a, b) = keep-Among p x ys later in (inr a, b)
        ]
  ]

pub map-Among :
    {A B : Type 0} (f : A → B) (x : A) (xs : List A) → Among x xs → Among (f x) (map f xs)
map-Among f x (y ∷ ys) (inl e) = inl (ap f e)
map-Among f x (y ∷ ys) (inr h) = inr (map-Among f x ys h)
map-Among f x [] h = absurd h

module _ {κ} {A B : Type 0} (P : B → Type κ) (f : A → List B) where
  pub gather-All : (xs : List A) → All P (gather f xs) → All (λ x. All P (f x)) xs
  gather-All [] h = tt
  gather-All (x ∷ xs) h =
      let (hx, rest) = append-All P (f x) (gather f xs) h in (hx, gather-All xs rest)
