-- ===== src/Job/Status.antt =====
-- internal/domain/job/status.go: the states of a job and the predicates on them.
use auto_cert_x.Prelude.{Bool, true, false}

-- `unset` is the empty text, the status of the zero `Job`.
pub data Status : Type 0 where
  pending claimed running retry succeeded failed cancelled timed_out unset : Status

unfoldable pub is_terminal : Status → Bool
is_terminal succeeded = true
is_terminal failed = true
is_terminal cancelled = true
is_terminal timed_out = true
is_terminal _ = false

unfoldable pub can_claim : Status → Bool
can_claim pending = true
can_claim retry = true
can_claim _ = false

unfoldable pub can_cancel : Status → Bool
can_cancel pending = true
can_cancel claimed = true
can_cancel running = true
can_cancel retry = true
can_cancel _ = false

unfoldable pub is_leased : Status → Bool
is_leased claimed = true
is_leased running = true
is_leased _ = false
