-- ===== src/CertificateRequest/Commands.antt =====
-- internal/domain/certificaterequest/service.go: the methods. The clock and the drawn id are
-- arguments.
use Prim.Native.Char.{Char}
use Prim.Native.String.{compare}
use text.Mathlib.Text.{is_lt}
use auto_cert_x.Prelude.{
  String, Bool, not, Option, none, some, List, ok, err, ◌>>=◌, ◌>>◌, reject_if, ◌==◌, if◌then◌else◌,
}
use auto_cert_x.Prelude.Int.{ltb_ℤ, eqb_ℤ}
use auto_cert_x.Prelude.Sorting.{sort_by}
use auto_cert_x.Text.{trim_space}
use auto_cert_x.Dict.{lookup, insert, lookup_list}
use auto_cert_x.Job.Clock.{Time}
use auto_cert_x.Resource.Errors.{Answer, conflict, not_found, validation}
use auto_cert_x.Resource.Scope.{Scope, validate}
use auto_cert_x.Resource.Stores.{commit, find, scoped_key}
use auto_cert_x.CertificateRequest.Status.{
  RequestStatus, submitted, accepted, running, completed, failed, cancelled, unset, can_transition,
}
use auto_cert_x.CertificateRequest.State.{DomainRef, Request, CreateInput, Requests}
use auto_cert_x.CertificateRequest.Input.{normal_input}

abbrev pub scope_of : Request → Scope
scope_of r = r.scope

abbrev pub made : Scope → CreateInput → Time → String → Request
made scope input now fresh = record {
  id = fresh;
  scope = scope;
  request_type = input.request_type;
  request_source = input.request_source;
  asset_id = input.asset_id;
  ca_account_id = input.ca_account_id;
  algorithm = "rsa";
  certificate_type = input.certificate_type;
  challenge_type = input.challenge_type;
  common_name = input.common_name;
  status = submitted;
  requested_by = input.requested_by;
  idempotency_key = input.idempotency_key;
  reason = input.reason;
  submitted_at = some now;
  created_at = now;
  updated_at = now;
}

abbrev is_some : {A : Type 0} → Option A → Bool
is_some none = Bool.false
is_some (some a) = Bool.true

-- `Create`
unfoldable pub create :
    (Char → Char) → Requests → Scope → CreateInput → Time → String → Answer Request × Requests
unfolding validate normal_input
create lower s scope input now fresh = commit s (do
  validate scope
  normal ← normal_input lower input
  let key = scoped_key scope (normal.0).idempotency_key
  reject_if (is_some (lookup key s.by_idempotency)) conflict
  ok (
    made scope normal.0 now fresh,
    record {
      by_id = insert fresh (made scope normal.0 now fresh) s.by_id;
      by_idempotency = insert key fresh s.by_idempotency;
      domains = insert fresh normal.1 s.domains;
    },
  ))

-- `Get`
unfoldable pub get : Requests → Scope → String → Answer Request
unfolding validate find
get s scope id = do
  validate scope
  reject_if (trim_space id == "") validation
  find scope_of s.by_id scope id

-- `Request{}`
abbrev pub zero_request : Request
zero_request = record {
  id = "";
  scope = record { tenant_id = ""; project_id = ""; environment_id = "" };
  request_type = "";
  request_source = "";
  asset_id = "";
  ca_account_id = "";
  algorithm = "";
  certificate_type = "";
  challenge_type = "";
  common_name = "";
  status = unset;
  requested_by = "";
  idempotency_key = "";
  reason = "";
  submitted_at = none;
  created_at = 0;
  updated_at = 0;
}

-- `GetByIdempotency` does not compare the scope of what it finds; an id that is not stored reads as
-- the zero request.
unfoldable pub get_by_idempotency : Requests → Scope → String → Answer Request
unfolding validate
get_by_idempotency s scope key = do
  validate scope
  reject_if (trim_space key == "") validation
  elim (lookup (scoped_key scope (trim_space key)) s.by_idempotency) [
    | none ↦ err not_found
    | some id ↦ elim (lookup id s.by_id) [ none ↦ ok zero_request | some r ↦ ok r ]
  ]

abbrev ref_before : DomainRef → DomainRef → Bool
ref_before left right =
    if eqb_ℤ left.sort_order right.sort_order
    then is_lt (compare left.domain_id right.domain_id)
    else ltb_ℤ left.sort_order right.sort_order

-- `ListDomains`
unfoldable pub list_domains : Requests → Scope → String → Answer (List DomainRef)
unfolding get sort_by
list_domains s scope id = do r ← get s scope id; ok (sort_by ref_before (lookup_list id s.domains))

-- `transition`; it tests no empty id.
unfoldable pub transition :
    Requests → Scope → String → RequestStatus → Time → Answer Request × Requests
unfolding validate find
transition s scope id next now = commit s (do
  validate scope
  r ← find scope_of s.by_id scope id
  reject_if (not (can_transition r.status next)) validation
  let moved = record r { status = next; updated_at = now }
  ok (moved, record s { by_id = insert id moved s.by_id }))

-- `MarkAccepted`, `MarkRunning`, `MarkCompleted`, `MarkFailed` and `Cancel`
abbrev pub mark_accepted : Requests → Scope → String → Time → Answer Request × Requests
mark_accepted s scope id now = transition s scope id accepted now

abbrev pub mark_running : Requests → Scope → String → Time → Answer Request × Requests
mark_running s scope id now = transition s scope id running now

abbrev pub mark_completed : Requests → Scope → String → Time → Answer Request × Requests
mark_completed s scope id now = transition s scope id completed now

abbrev pub mark_failed : Requests → Scope → String → Time → Answer Request × Requests
mark_failed s scope id now = transition s scope id failed now

abbrev pub cancel : Requests → Scope → String → Time → Answer Request × Requests
cancel s scope id now = transition s scope id cancelled now
