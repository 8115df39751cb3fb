-- ===== src/Job/AttemptStatus.antt =====
-- internal/domain/job/status.go: the states of an attempt. `AttemptStatus` is a string that an
-- executor may choose freely: `other` is any text that is none of the six constants.
use auto_cert_x.Prelude.{String, Bool, true, false}

pub data AttemptStatus : Type 0 where
  started heartbeating succeeded failed timed_out abandoned : AttemptStatus
  other : String → AttemptStatus

unfoldable pub is_terminal : AttemptStatus → Bool
is_terminal succeeded = true
is_terminal failed = true
is_terminal timed_out = true
is_terminal abandoned = true
is_terminal _ = false
