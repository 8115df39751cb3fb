-- ===== src/CertificateRequest/Status.antt =====
-- internal/domain/certificaterequest/service.go: the statuses of a request and the transitions
-- between them. Only the constants are ever stored; `unset` is the zero
-- value.
use auto_cert_x.Prelude.{Bool, true, false}

pub data RequestStatus : Type 0 where
  submitted accepted running completed failed cancelled unset : RequestStatus

unfoldable pub can_transition : RequestStatus → RequestStatus → Bool
can_transition submitted accepted = true
can_transition submitted cancelled = true
can_transition submitted failed = true
can_transition accepted running = true
can_transition accepted cancelled = true
can_transition accepted failed = true
can_transition running completed = true
can_transition running failed = true
can_transition _ _ = false
