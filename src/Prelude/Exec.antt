-- ===== src/Prelude/Exec.antt =====
-- Code that works on a state and may return early: what it wrote before it left stays written, so
-- the state comes back on both ways out. `Keeps` is an invariant of such code, with one rule for
-- each way to build it.
use mathlib.Core.Bool.{Bool, true, false}
use auto_cert_x.Prelude.Results.{Result, ok, err}
use auto_cert_x.Prelude.Tests.{if◌then◌else◌}

abbrev pub Exec : Type 0 → Type 0 → Type 0 → Type 0
Exec S E A = S → Result E A × S

module _ {S E A : Type 0} where
  unfoldable pub pure : A → Exec S E A
  pure a s = (ok a, s)

  -- `return`, before the end
  unfoldable pub leave : E → Exec S E A
  leave e s = (err e, s)

module _ {S E A B : Type 0} where
  abbrev pub continue : Result E A → (A → Exec S E B) → Exec S E B
  continue (ok a) f s = f a s
  continue (err e) f s = (err e, s)

  infixl 10 ◌>>=◌ ◌>>◌
  unfoldable pub ◌>>=◌ : Exec S E A → (A → Exec S E B) → Exec S E B
  unfolding pure leave
  ◌>>=◌ m f s = let (r, t) = m s in continue r f t

  abbrev pub ◌>>◌ : Exec S E A → Exec S E B → Exec S E B
  m >> n = m >>= λ _. n

abbrev pub translated : {E F A : Type 0} → (E → F) → Result E A → Result F A
translated f (ok a) = ok a
translated f (err e) = err (f e)

module _ {S E F A : Type 0} where
  -- `if err != nil { return f(err) }`
  unfoldable pub or_leave : (E → F) → Exec S E A → Exec S F A
  or_leave f m s = let (r, t) = m s in (translated f r, t)

  -- the result, with its error as a value
  unfoldable pub outcome : Exec S E A → Exec S F (Result E A)
  outcome m s = let (r, t) = m s in (ok r, t)

  -- `_, _ = m`
  unfoldable pub ignore : Exec S E A → Exec S F Unit
  ignore m s = let (r, t) = m s in (ok tt, t)

-- `act` keeps `I`, whether it ends or leaves
pub record Keeps {S E A : Type 0} (I : S → Type 0) (act : Exec S E A) : Type 0 where
  pub at : (s : S) → I s → I (act s).1

module _ {S E A : Type 0} {I : S → Type 0} where
  pub Keeps-leave : (e : E) → Keeps I (leave {A = A} e)
  unfolding leave
  Keeps-leave e = record { at = λ s holds. holds }

  pub Keeps-pure : (a : A) → Keeps I (pure {E = E} a)
  unfolding pure
  Keeps-pure a = record { at = λ s holds. holds }

  pub Keeps-if :
      (b : Bool) (act other : Exec S E A)
      → Keeps I act
      → Keeps I other
      → Keeps I (if b then act else other)
  Keeps-if true act other kept kept_other = kept
  Keeps-if false act other kept kept_other = kept_other

module _ {S E A B : Type 0} {I : S → Type 0} where
  Keeps-continue :
      (r : Result E A) (next : A → Exec S E B) (s : S)
      → ((a : A) → Keeps I (next a))
      → I s
      → I (continue r next s).1
  Keeps-continue (ok a) next s keeps holds = (keeps a).at s holds
  Keeps-continue (err e) next s keeps holds = holds

  pub Keeps-bind :
      (act : Exec S E A) (next : A → Exec S E B)
      → Keeps I act
      → ((a : A) → Keeps I (next a))
      → Keeps I (act >>= next)
  unfolding ◌>>=◌
  Keeps-bind act next kept keeps = record {
    at = λ s holds. let (r, t) = act s in Keeps-continue r next t keeps (kept.at s holds);
  }

  pub Keeps-cases :
      (r : Result E A) (next : A → Exec S E B) (g : E → Exec S E B)
      → ((a : A) → Keeps I (next a))
      → ((e : E) → Keeps I (g e))
      → Keeps I (elim r [ ok a ↦ next a | err e ↦ g e ])
  Keeps-cases (ok a) next g keeps kg = keeps a
  Keeps-cases (err e) next g keeps kg = kg e

module _ {S E F A : Type 0} {I : S → Type 0} where
  pub Keeps-or_leave : (next : E → F) (act : Exec S E A) → Keeps I act → Keeps I (or_leave next act)
  unfolding or_leave
  Keeps-or_leave next act kept = record { at = kept.at }

  pub Keeps-outcome : (act : Exec S E A) → Keeps I act → Keeps I (outcome {F = F} act)
  unfolding outcome
  Keeps-outcome act kept = record { at = kept.at }

  pub Keeps-ignore : (act : Exec S E A) → Keeps I act → Keeps I (ignore {F = F} act)
  unfolding ignore
  Keeps-ignore act kept = record { at = kept.at }

pub ruleset keeps_rules = (
  Keeps-pure, Keeps-leave, Keeps-if, Keeps-bind, Keeps-cases, Keeps-or_leave, Keeps-outcome,
  Keeps-ignore,
)
