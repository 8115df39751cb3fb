-- ===== src/Prelude/Results.antt =====
-- Go's `(value, error)` as one value: an error, or a value.
use mathlib.Core.Path.{◌≡◌, refl}
use mathlib.Core.Logic.{◌⊎◌, inl, inr}
use mathlib.Core.Bool.{Bool, true, false}

pub data Result (E A : Type 0) : Type 0 where
  ok : A → Result E A
  err : E → Result E A

infixl 5 ◌>>=◌ ◌>>◌
abbrev pub ◌>>=◌ : {E A B : Type 0} → Result E A → (A → Result E B) → Result E B
err failure >>= after = err failure
ok value >>= after = after value

abbrev pub ◌>>◌ : {E B : Type 0} → Result E (Unit {0}) → Result E B → Result E B
first >> second = first >>= λ done. second

-- `if test { return err }`
abbrev pub reject_if : {E : Type 0} → Bool → E → Result E (Unit {0})
reject_if true e = err e
reject_if false e = ok tt

pub Result-cases :
    {E A : Type 0} (r : Result E A) → ((a : A) × (r ≡ ok a)) ⊎ ((e : E) × (r ≡ err e))
Result-cases (ok a) = inl (a, refl)
Result-cases (err e) = inr (e, refl)

pub >>=-eq-ok :
    {E A B : Type 0} (first : Result E A) (after : A → Result E B) {result : B}
    → (first >>= after) ≡ ok result
    → (value : A) × (first ≡ ok value) × (after value ≡ ok result)
>>=-eq-ok (err failure) after h = cc
>>=-eq-ok (ok value) after h = (value, refl, h)

pub ok-injective : {E A : Type 0} {a b : A} → ◌≡◌ {A = Result E A} (ok a) (ok b) → a ≡ b
ok-injective h = cc

-- Two outcomes side by side.
abbrev pub joined : {E A B : Type 0} → Result E A → Result E B → Result E (A × B)
joined m k = do x ← m; y ← k; ok (x, y)

pub joined-eq-ok :
    {E A B : Type 0} (m : Result E A) (k : Result E B) {x : A} {y : B}
    → joined m k ≡ ok (x, y)
    → (m ≡ ok x) × (k ≡ ok y)
joined-eq-ok (ok a) (ok b) h = (cc, cc)
joined-eq-ok (ok a) (err e) h = (cc, cc)
joined-eq-ok (err e) k h = (cc, cc)

-- a test that was passed, and what comes after it
pub reject_if-passed :
    {E B : Type 0} (test : Bool) (failure : E) (later : Result E B) {result : B}
    → (reject_if test failure >> later) ≡ ok result
    → (test ≡ false) × (later ≡ ok result)
reject_if-passed true failure later h = cc
reject_if-passed false failure later h = (refl, h)
