-- ===== src/Job/AttemptEffects.antt =====
-- What a successful transition of an attempt says of it (internal/domain/job/attempt.go).
use auto_cert_x.Prelude.{◌≡◌, String, true, false, ok, inl, inr, Result-cases, arith}
use auto_cert_x.Job.Clock.{Time}
use auto_cert_x.Job.Attempt.{
  Attempt, Failure, is_active, heartbeat, mark_succeeded, mark_failed, mark_timed_out,
  mark_abandoned,
}

-- The attempt stays what it is but for its progress.
pub record SameAttempt (a b : Attempt) : Type 0 where
  pub same_id : b.id ≡ a.id
  pub same_job : b.job_id ≡ a.job_id
  pub same_no : b.attempt_no ≡ a.attempt_no
  pub same_worker : b.worker_id ≡ a.worker_id

-- An active attempt is closed for good.
pub record Closes (a b : Attempt) : Type 0 where
  pub same : SameAttempt a b
  pub was_active : is_active a ≡ true
  pub now_closed : is_active b ≡ false

module _ (a : Attempt) (now : Time) {b : Attempt} where
  pub heartbeat-SameAttempt : heartbeat a now ≡ ok b → SameAttempt a b
  unfolding heartbeat
  heartbeat-SameAttempt h = ground arith

  pub heartbeat_effect : heartbeat a now ≡ ok b → (is_active a ≡ true) × (is_active b ≡ true)
  unfolding heartbeat is_active
  heartbeat_effect h = ground arith

  pub mark_succeeded-Closes : (ref : String) → mark_succeeded a now ref ≡ ok b → Closes a b
  unfolding mark_succeeded is_active
  mark_succeeded-Closes ref h = ground arith

module _ (a : Attempt) (now : Time) (f : Failure) {b : Attempt} where
  pub mark_failed-Closes : mark_failed a now f ≡ ok b → Closes a b
  unfolding mark_failed is_active
  mark_failed-Closes h = ground arith

  pub mark_timed_out-Closes : mark_timed_out a now f ≡ ok b → Closes a b
  unfolding mark_timed_out is_active
  mark_timed_out-Closes h = ground arith

  pub mark_abandoned-Closes : mark_abandoned a now f ≡ ok b → Closes a b
  unfolding mark_abandoned is_active
  mark_abandoned-Closes h = ground arith

-- An active attempt can be closed.
pub mark_abandoned_total :
    (a : Attempt) (now : Time) (f : Failure)
    → is_active a ≡ true
    → (b : Attempt) × (mark_abandoned a now f ≡ ok b)
unfolding mark_abandoned
mark_abandoned_total a now f h = elim (Result-cases (mark_abandoned a now f)) [
  | inl found ↦ found
  | inr (x, e) ↦ absurd (ground arith)
]

pub mark_timed_out_total :
    (a : Attempt) (now : Time) (f : Failure)
    → is_active a ≡ true
    → (b : Attempt) × (mark_timed_out a now f ≡ ok b)
unfolding mark_timed_out
mark_timed_out_total a now f h = elim (Result-cases (mark_timed_out a now f)) [
  | inl found ↦ found
  | inr (x, e) ↦ absurd (ground arith)
]
