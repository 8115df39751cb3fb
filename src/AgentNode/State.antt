-- ===== src/AgentNode/State.antt =====
-- internal/domain/agentnode/service.go: nodes, tokens and the maps of the service. Go's maps of
-- labels are dictionaries in an order in which `range` may meet them; `unset` is the zero value of a status.
use auto_cert_x.Prelude.{String, Option, none, List, []}
use auto_cert_x.Prelude.Int.{ℤ, pos}
use auto_cert_x.Dict.{Dict}
use auto_cert_x.Job.Clock.{Time}
use auto_cert_x.Resource.Scope.{Scope}

pub data NodeStatus : Type 0 where
  registering online degraded offline disabled incompatible unset : NodeStatus

pub record Node : Type 0 where
  pub id : String
  pub scope : Scope
  pub name : String
  pub hostname : String
  pub ip_address : String
  pub version : String
  pub protocol_version : ℤ
  pub os : String
  pub arch : String
  pub labels : Dict String
  pub capabilities : List String
  pub status : NodeStatus
  pub last_seen_at : Option Time
  pub created_at : Time
  pub updated_at : Time

-- `Node{}`
abbrev pub zero_node : Node
zero_node = record {
  id = "";
  scope = record { tenant_id = ""; project_id = ""; environment_id = "" };
  name = "";
  hostname = "";
  ip_address = "";
  version = "";
  protocol_version = pos 0;
  os = "";
  arch = "";
  labels = [];
  capabilities = [];
  status = unset;
  last_seen_at = none;
  created_at = 0;
  updated_at = 0;
}

pub record RegistrationToken : Type 0 where
  pub id : String
  pub scope : Scope
  pub token : String
  pub expires_at : Time
  pub created_at : Time

pub record RegistrationInput : Type 0 where
  pub name : String
  pub hostname : String
  pub ip_address : String
  pub version : String
  pub protocol_version : ℤ
  pub os : String
  pub arch : String
  pub labels : Dict String
  pub capabilities : List String

pub record HeartbeatInput : Type 0 where
  pub version : String
  pub protocol_version : ℤ
  pub status : String
  pub capabilities : List String

pub record Nodes : Type 0 where
  pub by_id : Dict Node
  pub by_name : Dict String
  pub by_token : Dict RegistrationToken
