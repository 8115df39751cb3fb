-- ===== src/JobStore/Adding.antt =====
-- Storing a new job (`Create` and `EnsurePlanned` of
-- internal/application/command/jobs/memory_repository.go) keeps the repository consistent.
use auto_cert_x.Prelude.{
  String, ◌≡◌, ◌≢◌, refl, sym, ◌∙◌, subst, inl, inr, false, false≢true, none, some, [], arith,
  eq_iff, ◌==◌, Bool-cases, eq_of_true,
}
use auto_cert_x.Text.{trim_space}
use auto_cert_x.Dict.{lookup, lookup-insert, lookup-insert_self}
use auto_cert_x.Job.Status.{is_leased}
use auto_cert_x.Job.Record.{Job}
use auto_cert_x.Job.Invariant.{IsWellFormed}
use auto_cert_x.JobStore.State.{Store}
use auto_cert_x.JobStore.Commands.{put_new}
use auto_cert_x.JobStore.Invariant.{HasHistory, IsStored, IsConsistent}

-- Adding a record under a new id and a free key.
module _ (s : Store) (n : Job) (c : IsConsistent s) (new_id : lookup n.id s.jobs ≡ none)
    (free_key : lookup n.idempotency_key s.idempotency ≡ none) (trimmed : trim_space n.id ≡ n.id)
    (named : n.id ≢ "") (well_formed : IsWellFormed n) (unleased : is_leased n.status ≡ false)
    (no_attempts : n.attempt_count ≡ 0) where
  born-HasHistory : HasHistory n []
  born-HasHistory = record {
    opened = λ e. absurd (false≢true (sym unleased ∙ e));
    closed = λ e. tt;
    numbered = tt;
    counted = sym no_attempts;
  }

  added-here : IsStored (put_new s n) n.id n
  added-here = record {
    own_id = refl;
    trimmed = trimmed;
    named = named;
    well_formed = well_formed;
    indexed = lookup-insert_self n.idempotency_key n.id s.idempotency;
    history = rw (c.unborn n.id new_id) born-HasHistory;
  }

  added-IsStored :
      (i : String) (m : Job) → lookup i (put_new s n).jobs ≡ some m → IsStored (put_new s n) i m
  added-IsStored i m at = elim (Bool-cases (n.id == i)) [
    | inl e ↦
        let at_id : some n ≡ some m = ground (arith, lookup-insert n.id i n s.jobs) in
        let eq : n ≡ m = ground arith in
        subst (λ x. IsStored (put_new s n) x m) (eq_of_true n.id i e)
          (subst (λ x. IsStored (put_new s n) n.id x) eq added-here)
    | inr e ↦
        let old = c.stored i m (ground (arith, lookup-insert n.id i n s.jobs)) in
        record {
          own_id = old.own_id;
          trimmed = old.trimmed;
          named = old.named;
          well_formed = old.well_formed;
          indexed = ground (
            arith,
            old.indexed,
            lookup-insert n.idempotency_key m.idempotency_key n.id s.idempotency,
            eq_iff n.idempotency_key m.idempotency_key,
          );
          history = old.history;
        }
  ]

  added-pointed :
      (key id : String)
      → lookup key (put_new s n).idempotency ≡ some id
      → (m : Job) × (lookup id (put_new s n).jobs ≡ some m) × (m.idempotency_key ≡ key)
  added-pointed key id e = elim (Bool-cases (n.idempotency_key == key)) [
    | inl same ↦
        let eq : some n.id ≡ some id =
          ground (arith, lookup-insert n.idempotency_key key n.id s.idempotency) in
        let eq_id : n.id ≡ id = ground arith in
        (
          n,
          subst (λ x. lookup x (put_new s n).jobs ≡ some n) eq_id
              (lookup-insert_self n.id n s.jobs),
          eq_of_true n.idempotency_key key same,
        )
    | inr other ↦
        let old : lookup key s.idempotency ≡ some id =
          ground (arith, lookup-insert n.idempotency_key key n.id s.idempotency) in
        let (m, at, key_of) = c.pointed key id old in
        (m, ground (arith, lookup-insert n.id id n s.jobs, eq_of_true n.id id), key_of)
  ]

  pub added-IsConsistent : IsConsistent (put_new s n)
  added-IsConsistent = record {
    stored = added-IsStored;
    pointed = added-pointed;
    unborn = λ i e. ground (arith, lookup-insert n.id i n s.jobs, c.unborn i);
  }
