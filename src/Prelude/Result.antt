-- ===== src/Prelude/Result.antt =====
-- Exceptions as values: the exception classes that the modelled code raises or lets through.
use Prim.Native.Nat.{ℕ}
use mathlib.Core.Path.{◌≡◌, refl}
use mathlib.Core.Bool.{Bool, true, false}
use memapp.Prelude.Tests.{if◌then◌else◌}

pub data Error : Type 0 where
  value_error key_error type_error not_found gateway_error index_error not_implemented : Error
  http_error : (status_code : ℕ) → Error

-- What a call comes to: the exception that it raised, or the value that it returned
pub data Result {ℓ} (Value : Type ℓ) : Type ℓ where
  err : (raised : Error) → Result Value
  ok : (value : Value) → Result Value

-- The next statement runs on the value of the first, and an exception passes by it.
infixl 5 ◌>>=◌
abbrev pub ◌>>=◌ {ℓ κ} :
    {First : Type ℓ} {Then : Type κ} → Result First → (First → Result Then) → Result Then
err raised >>= next = err raised
ok value >>= next = next value

module _ {ℓ κ} {First : Type ℓ} {Then : Type κ} where
  -- If both statements together returned, then each of them did.
  pub both_returned :
      (call : Result First) (next : First → Result Then) {out : Then}
      → (call >>= next) ≡ ok out
      → (value : First) × ((call ≡ ok value) × (next value ≡ ok out))
  both_returned (err raised) next h = absurd cc
  both_returned (ok value) next h = (value, (refl, h))

pub ok-inj {ℓ} : {A : Type ℓ} {a b : A} → ok a ≡ ok b → a ≡ b
ok-inj h = cc

pub if_ok {ℓ} :
    {A : Type ℓ} (b : Bool) (x : A) {y : A} (e : Error)
    → (if b then ok x else err e) ≡ ok y
    → (b ≡ true) × (x ≡ y)
if_ok true x e h = (refl, ok-inj h)
if_ok false x e h = absurd cc

pub unless_err {ℓ} :
    {A : Type ℓ} (b : Bool) (x : Result A) {y : A} (e : Error)
    → (if b then err e else x) ≡ ok y
    → (b ≡ false) × (x ≡ ok y)
unless_err true x e h = absurd cc
unless_err false x e h = (refl, h)

pub if_returned {ℓ} :
    {A : Type ℓ} (b : Bool) (call : Result A) {x : A} (e : Error)
    → (if b then call else err e) ≡ ok x
    → (b ≡ true) × (call ≡ ok x)
if_returned true call e h = (refl, h)
if_returned false call e h = absurd cc
