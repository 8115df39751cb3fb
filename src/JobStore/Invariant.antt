-- ===== src/JobStore/Invariant.antt =====
-- What holds of the repository between two commands
-- (internal/application/command/jobs/memory_repository.go).
use auto_cert_x.Prelude.{
  String, ◌≡◌, ◌≢◌, refl, true, false, none, some, List, [], arith, length, eq_refl, ◌==◌,
  if◌then◌else◌, Bool-cases, eq_of_true, ne_of_false, false_of_ne, inl, inr, subst,
}
use auto_cert_x.Text.{trim_space}
use auto_cert_x.Dict.{Dict, lookup, insert, lookup_list, lookup-insert}
use auto_cert_x.Job.Status.{is_leased}
use auto_cert_x.Job.Attempt.{Attempt}
use auto_cert_x.Job.Record.{Job}
use auto_cert_x.Job.Invariant.{IsWellFormed}
use auto_cert_x.JobStore.State.{Store, empty}
use auto_cert_x.JobStore.History.{Closed, OpenLast, Numbered}

-- A leased job has one active attempt, the last, by the owner of the lease; another job has none.
-- The attempts are numbered 1, 2, … and counted by the job.
pub record HasHistory (j : Job) (history : List Attempt) : Type 0 where
  pub opened : is_leased j.status ≡ true → OpenLast j.lease_owner history
  pub closed : is_leased j.status ≡ false → Closed history
  pub numbered : Numbered 1 history
  pub counted : length history ≡ j.attempt_count

pub record IsStored (s : Store) (k : String) (j : Job) : Type 0 where
  pub own_id : j.id ≡ k
  pub trimmed : trim_space k ≡ k
  pub named : k ≢ ""
  pub well_formed : IsWellFormed j
  pub indexed : lookup j.idempotency_key s.idempotency ≡ some k
  pub history : HasHistory j (lookup_list k s.attempts)

pub record IsConsistent (s : Store) : Type 0 where
  pub stored : (k : String) (j : Job) → lookup k s.jobs ≡ some j → IsStored s k j
  pub pointed :
      (key id : String)
      → lookup key s.idempotency ≡ some id
      → (j : Job) × (lookup id s.jobs ≡ some j) × (j.idempotency_key ≡ key)
  pub unborn : (k : String) → lookup k s.jobs ≡ none → lookup_list k s.attempts ≡ []

-- Rewriting one stored job and its attempts.
module _ (s : Store) (k : String) (j n : Job) (attempts : Dict (List Attempt))
    (history : List Attempt) (c : IsConsistent s) (here : lookup k s.jobs ≡ some j)
    (same_id : n.id ≡ j.id) (same_key : n.idempotency_key ≡ j.idempotency_key)
    (well_formed : IsWellFormed n) (has_history : HasHistory n history)
    (reads : (i : String)
      → lookup_list i attempts ≡ (if k == i then history else lookup_list i s.attempts)) where
  abbrev updated : Store
  updated = record s { jobs = insert k n s.jobs; attempts = attempts }

  updated-here : IsStored updated k n
  updated-here =
      let old = c.stored k j here in
      record {
        own_id = ground (arith, old.own_id);
        trimmed = old.trimmed;
        named = old.named;
        well_formed = well_formed;
        indexed = ground (arith, old.indexed);
        history = rw (reads k, eq_refl k) has_history;
      }

  updated-elsewhere :
      (i : String) (m : Job) → k ≢ i → lookup i s.jobs ≡ some m → IsStored updated i m
  updated-elsewhere i m ne at =
      let old = c.stored i m at in
      record {
        own_id = old.own_id;
        trimmed = old.trimmed;
        named = old.named;
        well_formed = old.well_formed;
        indexed = old.indexed;
        history = rw (reads i, false_of_ne k i ne) old.history;
      }

  updated-IsStored : (i : String) (m : Job) → lookup i updated.jobs ≡ some m → IsStored updated i m
  updated-IsStored i m at = elim (Bool-cases (k == i)) [
    | inl e ↦
        let at_k : some n ≡ some m = ground (arith, lookup-insert k i n s.jobs) in
        let eq : n ≡ m = ground arith in
        subst (λ x. IsStored updated x m) (eq_of_true k i e)
          (subst (λ x. IsStored updated k x) eq updated-here)
    | inr e ↦ updated-elsewhere i m (ne_of_false k i e) (ground (arith, lookup-insert k i n s.jobs))
  ]

  updated-pointed :
      (key id : String)
      → lookup key s.idempotency ≡ some id
      → (m : Job) × (lookup id updated.jobs ≡ some m) × (m.idempotency_key ≡ key)
  updated-pointed key id e =
      let (m, at, named) = c.pointed key id e in
      elim (Bool-cases (k == id)) [
        | inl same ↦
            (n, ground (arith, lookup-insert k id n s.jobs), ground (arith, eq_of_true k id same))
        | inr other ↦ (m, ground (arith, lookup-insert k id n s.jobs), named)
      ]

  updated-unborn : (i : String) → lookup i updated.jobs ≡ none → lookup_list i attempts ≡ []
  updated-unborn i e = ground (arith, lookup-insert k i n s.jobs, reads i, c.unborn i)

  pub updated-IsConsistent : IsConsistent updated
  updated-IsConsistent = record {
    stored = updated-IsStored;
    pointed = updated-pointed;
    unborn = λ i e. updated-unborn i e;
  }

-- The empty repository.
pub empty-IsConsistent : IsConsistent empty
unfolding lookup
empty-IsConsistent = record {
  stored = λ k j e. cc;
  pointed = λ key id e. absurd (cc);
  unborn = λ k e. unfold lookup_list in refl;
}
