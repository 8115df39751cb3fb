-- ===== src/Prelude/Runs.antt =====
-- What holds after code that may return early (`Exec`): one property where it comes to its end, with its
-- value, and another where it leaves.
use mathlib.Core.Path.{◌≡◌, sym, subst}
use auto_cert_x.Prelude.Results.{Result, ok, err}
use auto_cert_x.Prelude.Exec.{Exec, continue, translated, or_leave, ◌>>=◌, Keeps}

abbrev pub After : {S E A : Type 0} → (S → Type 0) → (A → S → Type 0) → Result E A → S → Type 0
After J R (ok a) t = R a t
After J R (err e) t = J t

pub record Runs {S E A : Type 0} (J : S → Type 0) (P : S → Type 0) (R : A → S → Type 0)
    (act : Exec S E A) : Type 0 where
  pub at : (s : S) → P s → After J R (act s).0 (act s).1

Runs-continue :
    {S E A B : Type 0} (J : S → Type 0) (Q : A → S → Type 0) (R : B → S → Type 0) (r : Result E A)
    (next : A → Exec S E B) (s : S)
    → ((a : A) → Runs J (Q a) R (next a))
    → After J Q r s
    → After J R (continue r next s).0 (continue r next s).1
Runs-continue J Q R (ok a) next s runs holds = (runs a).at s holds
Runs-continue J Q R (err e) next s runs holds = holds

module _ {S E A B : Type 0} {J P : S → Type 0} {Q : A → S → Type 0} {R : B → S → Type 0} where
  pub Runs-bind :
      (act : Exec S E A) (next : A → Exec S E B)
      → Runs J P Q act
      → ((a : A) → Runs J (Q a) R (next a))
      → Runs J P R (act >>= next)
  unfolding ◌>>=◌
  Runs-bind act next first runs = record {
    at = λ s holds. let (r, t) = act s in Runs-continue J Q R r next t runs (first.at s holds);
  }

Keeps-After :
    {S E A : Type 0} (J P : S → Type 0) (r : Result E A) (s : S)
    → (P s → J s)
    → P s
    → After J (λ a t. P t) r s
Keeps-After J P (ok a) s weaken holds = holds
Keeps-After J P (err e) s weaken holds = weaken holds

translated-After :
    {S E F A : Type 0} (J : S → Type 0) (R : A → S → Type 0) (f : E → F) (r : Result E A) (t : S)
    → After J R r t
    → After J R (translated f r) t
translated-After J R f (ok a) t holds = holds
translated-After J R f (err e) t holds = holds

module _ {S E A : Type 0} {J P : S → Type 0} where
  -- what keeps a property
  pub Keeps-Runs :
      (act : Exec S E A) → ((s : S) → P s → J s) → Keeps P act → Runs J P (λ a t. P t) act
  Keeps-Runs act weaken kept = record {
    at = λ s holds. Keeps-After J P (act s).0 (act s).1 (weaken (act s).1) (kept.at s holds);
  }

  pub Runs-or_leave :
      {F : Type 0} {R : A → S → Type 0} (f : E → F) (act : Exec S E A)
      → Runs J P R act
      → Runs J P R (or_leave f act)
  unfolding or_leave
  Runs-or_leave {F} {R} f act runs = record {
    at = λ s holds. translated-After J R f (act s).0 (act s).1 (runs.at s holds);
  }

-- an action whose value is known
module _ {S E A B : Type 0} {J P : S → Type 0} {R : B → S → Type 0} where
  Runs-known :
      (next : A → Exec S E B) (a b : A)
      → Runs J P R (next a)
      → Runs J (λ t. (b ≡ a) × P t) R (next b)
  Runs-known next a b runs = record {
    at = λ s (e, holds). subst (λ x. After J R (next x s).0 (next x s).1) (sym e) (runs.at s holds);
  }

  pub Runs-bind_known :
      (a : A) (act : Exec S E A) (next : A → Exec S E B)
      → Runs J P (λ b t. (b ≡ a) × P t) act
      → Runs J P R (next a)
      → Runs J P R (act >>= next)
  Runs-bind_known a act next gives runs =
      Runs-bind {Q = λ b t. (b ≡ a) × P t} act next gives (λ b. Runs-known next a b runs)

After-never :
    {S E A : Type 0} (J : S → Type 0) (R : A → S → Type 0) (r : Result E A) (t : S)
    → After J (λ a t. ⊥) r t
    → After J R r t
After-never J R (ok a) t holds = absurd holds
After-never J R (err e) t holds = holds

module _ {S E A : Type 0} {J P : S → Type 0} {R : A → S → Type 0} where
  -- what never comes to its end, from less than is known
  pub Runs-never :
      {P' : S → Type 0} (act : Exec S E A)
      → ((s : S) → P s → P' s)
      → Runs J P' (λ a t. ⊥) act
      → Runs J P R act
  Runs-never act weaken runs = record {
    at = λ s holds. After-never J R (act s).0 (act s).1 (runs.at s (weaken s holds));
  }

  pub Runs-from :
      {P' : S → Type 0} (act : Exec S E A)
      → ((s : S) → P s → P' s)
      → Runs J P' R act
      → Runs J P R act
  Runs-from act weaken runs = record { at = λ s holds. runs.at s (weaken s holds) }
