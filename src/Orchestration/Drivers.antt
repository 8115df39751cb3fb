-- ===== src/Orchestration/Drivers.antt =====
-- What internal/workflow/service.go is given: the interfaces `acme.Client` and `dns.Executor`
-- (internal/driver), `HTTP01Presenter`, the clock and the random ids. `Env` is the state of all of
-- these; a call takes it and gives the next one.
use Prim.Native.Char.{Char}
use auto_cert_x.Prelude.{ℕ, String, Bool, ◌||◌, Option, List, Result}
use auto_cert_x.Text.{to_lower, contains}
use auto_cert_x.Job.Errors.{Error}
use auto_cert_x.Job.Clock.{Time}
use auto_cert_x.Job.Record.{Payload}
use auto_cert_x.Resource.Errors.{ResourceError}

-- `acme.DomainIdentifier`
pub record DomainIdentifier : Type 0 where
  pub domain_asset_id : String
  pub name : String

pub record OrderRequest : Type 0 where
  pub request_id : String
  pub common_name : String
  pub certificate_type : String
  pub challenge_type : String
  pub identifiers : List DomainIdentifier

pub record OrderChallenge : Type 0 where
  pub domain_asset_id : String
  pub identifier : String
  pub challenge_type : String
  pub token : String
  pub key_authorization : String
  pub http_path : String
  pub dns_record_name : String
  pub dns_record_value : String

pub record Order : Type 0 where
  pub order_url : String
  pub finalize_url : String
  pub challenges : List OrderChallenge

-- `ChallengeReadyInput` and `AuthorizationInput`
pub record AuthorizationInput : Type 0 where
  pub order_url : String
  pub identifier : String
  pub challenge_type : String

-- `PresentInput`, `CleanupInput` and `PropagationInput` of internal/driver/dns
pub record TxtRecord : Type 0 where
  pub record_name : String
  pub record_value : String

pub record Http01Material : Type 0 where
  pub identifier : String
  pub token : String
  pub key_authorization : String
  pub path : String

-- An error of a driver: its text, and whether it wraps a `TemporaryError` of either package.
pub record DriverError : Type 0 where
  pub text : String
  pub wraps_temporary : Bool

-- `acme.IsTemporary(err) || dns.IsTemporary(err)`
unfoldable pub is_temporary : (Char → Char) → DriverError → Bool
unfolding contains to_lower
is_temporary lower e = contains "temporary" (to_lower lower e.text) || e.wraps_temporary

pub record StartPayload : Type 0 where
  pub request_id : String

pub record ContinuePayload : Type 0 where
  pub request_id : String
  pub workflow_id : String
  pub expected_status : String
  pub trigger : String

-- `new_ids` is the sequence that `uuidx.New` draws during one call; `lower` is `unicode.ToLower`; `encode_…` and `decode_…` are encoding/json on the two payloads, with the text of its error; `quoted` is the `%q` of fmt; the
-- texts of the errors of the services are `describe` and `describe_job` of their kind.
pub record Drivers : Type 1 where
  pub Env : Type 0
  pub lower : Char → Char
  pub now : Env → Time × Env
  pub new_ids : Env → (ℕ → String) × Env
  pub job_id : Env → Option String × Env
  pub create_order : OrderRequest → Env → Result DriverError Order × Env
  pub notify_challenge_ready : AuthorizationInput → Env → Result DriverError Unit × Env
  pub poll_authorization : AuthorizationInput → Env → Result DriverError String × Env
  pub finalize_order : String → Env → Result DriverError Unit × Env
  pub download_certificate : String → Env → Result DriverError String × Env
  pub present_txt : TxtRecord → Env → Result DriverError Unit × Env
  pub cleanup_txt : TxtRecord → Env → Result DriverError Unit × Env
  pub check_propagation : TxtRecord → Env → Result DriverError Bool × Env
  pub http_present : Http01Material → Env → Result DriverError Unit × Env
  pub http_cleanup : Http01Material → Env → Result DriverError Unit × Env
  pub encode_start : StartPayload → Payload
  pub decode_start : Payload → Result String StartPayload
  pub encode_continue : ContinuePayload → Payload
  pub decode_continue : Payload → Result String ContinuePayload
  pub quoted : String → String
  pub format_time : Time → String
  pub describe : ResourceError → String
  pub describe_job : Error → String
