-- ===== src/Resource/Errors.antt =====
-- internal/domain/resource/errors.go. A wrapped error is the sentinel that it wraps.
use auto_cert_x.Prelude.{Result}

pub data ResourceError : Type 0 where
  not_found conflict scope_mismatch validation unavailable : ResourceError

abbrev pub Answer : Type 0 → Type 0
Answer A = Result ResourceError A
