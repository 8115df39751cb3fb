-- ===== src/Job/Invariant.antt =====
-- What holds of every job record between two operations (internal/domain/job/job.go): a lease
-- exactly in the leased states, and a retry budget that is never overdrawn.
use auto_cert_x.Prelude.{◌≤◌, ◌<◌, String, ◌≡◌, ◌≢◌, refl, true, false, ok, Option, arith, eq_iff}
use auto_cert_x.Text.{trim_space, trim_space_idem}
use auto_cert_x.Job.Clock.{Time, Duration}
use auto_cert_x.Job.Status.{is_leased, can_claim}
use auto_cert_x.Job.AttemptStatus.{AttemptStatus}
use auto_cert_x.Job.Attempt.{Attempt, Failure}
use auto_cert_x.Job.Record.{Job, CreateParams, new}
use auto_cert_x.Job.Lifecycle.{
  claim, mark_running, renew, mark_succeeded, mark_failed, mark_timed_out, expire_lease,
  schedule_retry, cancel,
}

pub record IsWellFormed (j : Job) : Type 0 where
  pub leased_owned : is_leased j.status ≡ true → (j.lease_owner ≢ "") × (0 < j.lease_expire_at)
  pub owner_trimmed : trim_space j.lease_owner ≡ j.lease_owner
  pub unleased_free : is_leased j.status ≡ false → (j.lease_owner ≡ "") × (j.lease_expire_at ≡ 0)
  pub budget : j.attempt_count ≤ j.max_attempts
  pub claimable_budget : can_claim j.status ≡ true → j.attempt_count < j.max_attempts
  pub started : is_leased j.status ≡ true → 0 < j.attempt_count

trim_space-empty : trim_space "" ≡ ""
unfolding trim_space
trim_space-empty = refl

pub new-IsWellFormed :
    (p : CreateParams) (now : Time) (fresh : Option String) {j : Job}
    → new p now fresh ≡ ok j
    → IsWellFormed j
unfolding new is_leased can_claim
new-IsWellFormed p now fresh h = ground (arith, trim_space-empty)

pub claim-IsWellFormed :
    (j : Job) (w : String) (ttl : Duration) (now : Time) (fresh : Option String) {n : Job}
    {a : Attempt}
    → IsWellFormed j
    → claim j w ttl now fresh ≡ ok (n, a)
    → IsWellFormed n
unfolding claim is_leased can_claim
claim-IsWellFormed j w ttl now fresh v h =
    ground (arith, trim_space_idem w, eq_iff (trim_space w) "")

pub renew-IsWellFormed :
    (j : Job) (w : String) (ttl : Duration) (now : Time) {n : Job}
    → IsWellFormed j
    → renew j w ttl now ≡ ok n
    → IsWellFormed n
unfolding renew is_leased can_claim
renew-IsWellFormed j w ttl now v h = ground arith

pub mark_running-IsWellFormed :
    (j : Job) (w : String) (now : Time) {n : Job}
    → IsWellFormed j
    → mark_running j w now ≡ ok n
    → IsWellFormed n
unfolding mark_running is_leased can_claim
mark_running-IsWellFormed j w now v h = ground arith

pub mark_succeeded-IsWellFormed :
    (j : Job) (w : String) (now : Time) {n : Job}
    → IsWellFormed j
    → mark_succeeded j w now ≡ ok n
    → IsWellFormed n
unfolding mark_succeeded is_leased can_claim
mark_succeeded-IsWellFormed j w now v h = ground (arith, trim_space-empty)

pub mark_failed-IsWellFormed :
    (j : Job) (w : String) (f : Failure) (now : Time) {n : Job}
    → IsWellFormed j
    → mark_failed j w f now ≡ ok n
    → IsWellFormed n
unfolding mark_failed is_leased can_claim
mark_failed-IsWellFormed j w f now v h = ground (arith, trim_space-empty)

pub mark_timed_out-IsWellFormed :
    (j : Job) (w : String) (f : Failure) (now : Time) {n : Job}
    → IsWellFormed j
    → mark_timed_out j w f now ≡ ok n
    → IsWellFormed n
unfolding mark_timed_out is_leased can_claim
mark_timed_out-IsWellFormed j w f now v h = ground (arith, trim_space-empty)

pub schedule_retry-IsWellFormed :
    (j : Job) (delay : Duration) (now : Time) {n : Job}
    → IsWellFormed j
    → schedule_retry j delay now ≡ ok n
    → IsWellFormed n
unfolding schedule_retry is_leased can_claim
schedule_retry-IsWellFormed j delay now v h = ground (arith, trim_space-empty)

pub cancel-IsWellFormed :
    (j : Job) (now : Time) {n : Job} → IsWellFormed j → cancel j now ≡ ok n → IsWellFormed n
unfolding cancel is_leased can_claim
cancel-IsWellFormed j now v h = ground (arith, trim_space-empty)

pub expire_lease-IsWellFormed :
    (j : Job) (now : Time) (f : Failure) {n : Job} {s : AttemptStatus}
    → IsWellFormed j
    → expire_lease j now f ≡ ok (n, s)
    → IsWellFormed n
unfolding expire_lease is_leased can_claim
expire_lease-IsWellFormed j now f v h = ground (arith, trim_space-empty)
