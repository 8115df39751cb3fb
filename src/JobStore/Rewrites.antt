-- ===== src/JobStore/Rewrites.antt =====
-- Writing back a job and its active attempt keeps the repository of
-- internal/application/command/jobs/memory_repository.go consistent.
use auto_cert_x.Prelude.{
  ℕ, String, ◌≡◌, sym, ◌∙◌, true, false, false≢true, some, List, arith, eq_iff, set, length-set,
}
use auto_cert_x.Dict.{lookup, insert, lookup_list, lookup_list-insert}
use auto_cert_x.Job.Status.{is_leased}
use auto_cert_x.Job.Attempt.{Attempt, is_active}
use auto_cert_x.Job.AttemptEffects.{SameAttempt, Closes}
use auto_cert_x.Job.Record.{Job}
use auto_cert_x.Job.Effects.{SameJob}
use auto_cert_x.Job.Invariant.{IsWellFormed}
use auto_cert_x.JobStore.State.{Store}
use auto_cert_x.JobStore.Commands.{put_job, put_attempts}
use auto_cert_x.JobStore.History.{FoundAt}
use auto_cert_x.JobStore.Invariant.{HasHistory, IsConsistent, updated-IsConsistent}

module _ (s : Store) (k : String) (j n : Job) (c : IsConsistent s) (here : lookup k s.jobs ≡ some j)
    (same : SameJob j n) (well_formed : IsWellFormed n) where
  pub put_job-IsConsistent : HasHistory n (lookup_list k s.attempts) → IsConsistent (put_job s k n)
  put_job-IsConsistent h =
      updated-IsConsistent s k j n s.attempts (lookup_list k s.attempts) c here same.same_id
        same.same_key well_formed h (λ i. ground (arith, eq_iff k i))

  pub put_attempts-IsConsistent :
      (history : List Attempt)
      → HasHistory n history
      → IsConsistent (put_attempts (put_job s k n) k history)
  put_attempts-IsConsistent history h =
      updated-IsConsistent s k j n (insert k history s.attempts) history c here same.same_id
        same.same_key well_formed h (λ i. lookup_list-insert k i history s.attempts)

-- How the attempts follow the job.
module _ (j n : Job) (history : List Attempt) (h : HasHistory j history)
    (same : n.attempt_count ≡ j.attempt_count) where
  -- the lease goes on
  pub HasHistory-kept :
      is_leased j.status ≡ true
      → n.lease_owner ≡ j.lease_owner
      → is_leased n.status ≡ true
      → HasHistory n history
  HasHistory-kept leased owner leased' = record {
    opened = λ e. rw owner (h.opened leased);
    closed = λ e. absurd (false≢true (sym e ∙ leased'));
    numbered = h.numbered;
    counted = h.counted ∙ sym same;
  }

  -- nothing was active, and nothing is
  pub HasHistory-idle :
      is_leased j.status ≡ false → is_leased n.status ≡ false → HasHistory n history
  HasHistory-idle free free' = record {
    opened = λ e. absurd (false≢true (sym free' ∙ e));
    closed = λ e. h.closed free;
    numbered = h.numbered;
    counted = h.counted ∙ sym same;
  }

  module _ (a b : Attempt) (i : ℕ) (at : FoundAt j.lease_owner history a i) where
    -- the lease goes on, and the active attempt with it
    pub HasHistory-renewed :
        SameAttempt a b
        → is_active b ≡ true
        → n.lease_owner ≡ j.lease_owner
        → is_leased n.status ≡ true
        → HasHistory n (set history i b)
    HasHistory-renewed ab active owner leased = record {
      opened = λ e. rw owner (at.renewing b active (ab.same_worker ∙ at.owned));
      closed = λ e. absurd (false≢true (sym e ∙ leased));
      numbered = at.numbering 1 b ab.same_no h.numbered;
      counted = length-set history i b ∙ h.counted ∙ sym same;
    }

    -- the lease is given up, and the active attempt closed
    pub HasHistory-closed : Closes a b → is_leased n.status ≡ false → HasHistory n (set history i b)
    HasHistory-closed ab free = record {
      opened = λ e. absurd (false≢true (sym free ∙ e));
      closed = λ e. at.closing b ab.now_closed;
      numbered = at.numbering 1 b ab.same.same_no h.numbered;
      counted = length-set history i b ∙ h.counted ∙ sym same;
    }
