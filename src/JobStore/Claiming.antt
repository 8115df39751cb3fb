-- ===== src/JobStore/Claiming.antt =====
-- `Claim` of internal/application/command/jobs/memory_repository.go over a consistent repository.
use auto_cert_x.Prelude.{
  ℕ, ◌+◌, String, ◌≡◌, sym, ◌∙◌, true, false, false≢true, Option, some, List, [], ◌∷◌, ◌++◌, ok,
  arith, length, length-append, Bool-cases, Option-cases, Result-cases, inl, inr, leb, ◌==◌,
}
use auto_cert_x.Text.{trim_space}
use auto_cert_x.Dict.{lookup, lookup_list}
use auto_cert_x.Job.Status.{Status, is_leased, can_claim}
use auto_cert_x.Job.Attempt.{Attempt}
use auto_cert_x.Job.Record.{Job, zero_job}
use auto_cert_x.Job.Lifecycle
use auto_cert_x.Job.Effects
use auto_cert_x.Job.Invariant
use auto_cert_x.JobStore.Params.{ClaimParams, ClaimedJob}
use auto_cert_x.JobStore.State.{Store, stored_job, claimable_ids}
use auto_cert_x.JobStore.Commands.{claim, claim_record, claim_one, claim_loop, effective_max_jobs}
use auto_cert_x.JobStore.History.{OpenLast-append, Numbered-append}
use auto_cert_x.JobStore.Invariant.{HasHistory, IsConsistent}
use auto_cert_x.JobStore.Rewrites.{put_attempts-IsConsistent}

free_of_claimable : (s : Status) → can_claim s ≡ true → is_leased s ≡ false
unfolding can_claim is_leased
free_of_claimable s h = ground arith

-- The claimed job's new attempt is its active one.
HasHistory-claimed :
    (j n : Job) (a : Attempt) (w : String) (p : ClaimParams) (fresh : Option String)
    (history : List Attempt)
    → HasHistory j history
    → Lifecycle.claim j w p.lease_ttl p.now fresh ≡ ok (n, a)
    → HasHistory n (history ++ a ∷ [])
HasHistory-claimed j n a w p fresh history h e =
    let (can, due, status, owner, expiry, count) =
      Effects.claim_effect j w p.lease_ttl p.now fresh e in
    let (active, worker, number, of_job) =
      Effects.claim-attempt_effect j w p.lease_ttl p.now fresh e in
    let leased : is_leased n.status ≡ true = unfold is_leased in rw status in
    record {
      opened = λ _.
          OpenLast-append n.lease_owner history a (h.closed (free_of_claimable j.status can)) active
            worker;
      closed = λ free. absurd (false≢true (sym free ∙ leased));
      numbered = Numbered-append 1 history a h.numbered (omega (arith, h.counted));
      counted = omega (arith, length-append history (a ∷ []), h.counted);
    }

claim_record-IsConsistent :
    (p : ClaimParams) (fresh : Option String) (id : String) (j : Job) (results : List ClaimedJob)
    (s : Store)
    → IsConsistent s
    → lookup id s.jobs ≡ some j
    → IsConsistent (claim_record p fresh id j (results, s)).1
unfolding claim_record
claim_record-IsConsistent p fresh id j results s c here =
    elim (Result-cases (Lifecycle.claim j p.worker_id p.lease_ttl p.now fresh)) [
      | inl ((n, a), e) ↦
          let stored = c.stored id j here in
          rw (e, claim_record)
            (put_attempts-IsConsistent s id j n c here
              (Effects.claim-Continues j p.worker_id p.lease_ttl p.now fresh e).same
              (Invariant.claim-IsWellFormed j p.worker_id p.lease_ttl p.now fresh stored.well_formed
                e)
              _
              (HasHistory-claimed j n a p.worker_id p fresh (lookup_list id s.attempts)
                stored.history e))
      | inr (x, e) ↦ rw (e, claim_record) c
    ]

-- The zero job cannot be claimed.
pub claim_record-zero_job :
    (p : ClaimParams) (fresh : Option String) (id : String) (results : List ClaimedJob) (s : Store)
    → claim_record p fresh id zero_job (results, s) ≡ (results, s)
unfolding claim_record can_claim
claim_record-zero_job p fresh id results s =
    elim (Result-cases (Lifecycle.claim zero_job p.worker_id p.lease_ttl p.now fresh)) [
      | inl ((n, a), e) ↦
          absurd
            (false≢true (Effects.claim_effect zero_job p.worker_id p.lease_ttl p.now fresh e).0)
      | inr (x, e) ↦ rw (e, claim_record)
    ]

claim_one-IsConsistent :
    (p : ClaimParams) (fresh : Option String) (id : String) (results : List ClaimedJob) (s : Store)
    → IsConsistent s
    → IsConsistent (claim_one p fresh id (results, s)).1
unfolding claim_one
claim_one-IsConsistent p fresh id results s c = elim (Option-cases (lookup id s.jobs)) [
  | inl gone ↦ rw (gone, stored_job) (rw (claim_record-zero_job p fresh id results s) c)
  | inr (j, here) ↦ rw (here, stored_job) (claim_record-IsConsistent p fresh id j results s c here)
]

claim_loop-IsConsistent :
    (p : ClaimParams) (fresh : ℕ → Option String) (k : ℕ) (ids : List String)
    (results : List ClaimedJob) (s : Store)
    → IsConsistent s
    → IsConsistent (claim_loop p fresh k ids (results, s)).1
unfolding claim_loop
claim_loop-IsConsistent p fresh k [] results s c = c
claim_loop-IsConsistent p fresh k (id ∷ ids) results s c =
    elim (Bool-cases (leb (effective_max_jobs p.max_jobs) (length results))) [
      | inl full ↦ rw full c
      | inr room ↦
          let (results', s') = claim_one p (fresh k) id (results, s) in
          rw room (
            claim_loop-IsConsistent p fresh (k + 1) ids results' s'
              (claim_one-IsConsistent p (fresh k) id results s c))
    ]

-- `Claim` keeps the repository consistent.
pub claim-IsConsistent :
    (s : Store) (p : ClaimParams) (fresh : ℕ → Option String)
    → IsConsistent s
    → IsConsistent (claim s p fresh).1
unfolding claim
claim-IsConsistent s p fresh c = elim (Bool-cases (trim_space p.worker_id == "")) [
  | inl empty ↦ rw empty c
  | inr named ↦ rw named (claim_loop-IsConsistent p fresh 0 (claimable_ids s p.now) [] s c)
]
