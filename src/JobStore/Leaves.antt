-- ===== src/JobStore/Leaves.antt =====
-- Postconditions of the commands that write only where they succeed
-- (internal/application/command/jobs/memory_repository.go), with a rule for each way to build one.
use auto_cert_x.Prelude.{◌≡◌, refl, ap, subst, ok, err, ◌>>=◌, >>=-eq-ok, ok-injective}
use auto_cert_x.Job.Errors.{Outcome}
use auto_cert_x.JobStore.State.{Store}
use auto_cert_x.JobStore.Commands.{commit}

-- The store that a successful outcome carries satisfies `P`.
pub record Leaves {A : Type 0} (P : Store → Type 0) (r : Outcome (A × Store)) : Type 0 where
  pub at : (a : A) (t : Store) → r ≡ ok (a, t) → P t

module _ {X A : Type 0} {P : Store → Type 0} where
  pub Leaves-bind :
      (m : Outcome X) (f : X → Outcome (A × Store))
      → ((x : X) → m ≡ ok x → Leaves P (f x))
      → Leaves P (m >>= f)
  Leaves-bind m f k = record { at = λ a t h. let (x, e, h') = >>=-eq-ok m f h in (k x e).at a t h' }

module _ {A : Type 0} {P : Store → Type 0} where
  pub Leaves-ok : (a : A) (t : Store) → P t → Leaves P (ok (a, t))
  Leaves-ok a t c = record {
    at = λ b u h. subst P (ap (λ (x : A × Store). x.1) (ok-injective h)) c;
  }

  -- A failed command leaves the store as it was.
  pub commit-Leaves : (s : Store) (r : Outcome (A × Store)) → P s → Leaves P r → P (commit s r).1
  commit-Leaves s (ok (a, t)) c k = k.at a t refl
  commit-Leaves s (err e) c k = c
