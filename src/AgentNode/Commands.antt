-- ===== src/AgentNode/Commands.antt =====
-- internal/domain/agentnode/service.go: the methods.
use Prim.Native.Char.{Char}
use Prim.Native.String.{◌++◌}
use auto_cert_x.Prelude.{
  ℕ, ◌+◌, String, Bool, true, false, not, ◌&&◌, Option, none, some, List, map, length, ok, err,
  ◌>>=◌, ◌>>◌, reject_if, eqb, ◌==◌, if◌then◌else◌,
}
use auto_cert_x.Prelude.Sorting.{sort_by, filter}
use auto_cert_x.Text.{trim_space, lowered}
use auto_cert_x.Dict.{Dict, lookup, insert}
use auto_cert_x.Job.Clock.{Time, after}
use auto_cert_x.Resource.Errors.{Answer, validation, conflict, not_found, unavailable}
use auto_cert_x.Resource.Scope.{Scope, validate, equals}
use auto_cert_x.Resource.Stores.{commit, find, listed, scoped_key}
use auto_cert_x.AgentNode.State.{
  NodeStatus, registering, online, degraded, disabled, Node, zero_node, RegistrationToken,
  RegistrationInput, HeartbeatInput, Nodes,
}
use auto_cert_x.AgentNode.Normal.{
  normalize_capabilities, validate_registration, validate_heartbeat, clone_labels, contains_all,
  labels_match, text_before, without_dashes,
}

abbrev pub scope_of : Node → Scope
scope_of n = n.scope

-- `cloneNode` normalizes the labels of the copy once more.
unfoldable pub clone_node : Node → Node
unfolding clone_labels
clone_node n = record n { labels = clone_labels n.labels }

unfoldable pub list : Nodes → Scope → Answer (List Node)
unfolding validate listed clone_node
list s scope = do validate scope; ok (map clone_node (listed scope_of (λ n. n.name) s.by_id scope))

unfoldable pub get : Nodes → Scope → String → Answer Node
unfolding validate find clone_node
get s scope id = do
  validate scope
  reject_if (trim_space id == "") validation
  n ← find scope_of s.by_id scope id
  ok (clone_node n)

-- `Lookup`, in any scope
unfoldable pub lookup_node : Nodes → String → Answer Node
unfolding clone_node
lookup_node s id = do
  reject_if (trim_space id == "") validation
  elim (lookup id s.by_id) [ none ↦ err not_found | some n ↦ ok (clone_node n) ]

-- `FindByName` compares no scope.
unfoldable pub find_by_name : Nodes → Scope → String → Answer Node
unfolding validate clone_node
find_by_name s scope name = do
  validate scope
  reject_if (trim_space name == "") validation
  elim (lookup (scoped_key scope (trim_space name)) s.by_name) [
    | none ↦ err not_found
    | some id ↦ elim (lookup id s.by_id) [
      | none ↦ ok (clone_node zero_node)
      | some n ↦ ok (clone_node n)
    ]
  ]

abbrev taken : Option String → Bool
taken none = false
taken (some id) = true

unfoldable pub registered : (Char → Char) → Scope → RegistrationInput → Time → String → Node
unfolding clone_labels normalize_capabilities
registered lower scope input now fresh = record {
  id = fresh;
  scope = scope;
  name = trim_space input.name;
  hostname = trim_space input.hostname;
  ip_address = trim_space input.ip_address;
  version = trim_space input.version;
  protocol_version = input.protocol_version;
  os = lowered lower input.os;
  arch = lowered lower input.arch;
  labels = clone_labels input.labels;
  capabilities = normalize_capabilities lower input.capabilities;
  status = registering;
  last_seen_at = none;
  created_at = now;
  updated_at = now;
}

unfoldable pub register :
    (Char → Char)
    → (String → Bool)
    → Nodes
    → Scope
    → RegistrationInput
    → Time
    → String
    → Answer Node × Nodes
unfolding validate validate_registration registered clone_node
register lower is_address s scope input now fresh = commit s (do
  validate scope
  validate_registration lower is_address input
  let n = registered lower scope input now fresh
  reject_if (taken (lookup (scoped_key scope (trim_space input.name)) s.by_name)) conflict
  ok (
    clone_node n,
    record s {
      by_id = insert fresh n s.by_id;
      by_name = insert (scoped_key scope (trim_space input.name)) fresh s.by_name;
    },
  ))

-- 24 hours in nanoseconds
abbrev pub one_day : ℕ
one_day = 86400000000000

abbrev pub new_token : Scope → Time → String → RegistrationToken
new_token scope now fresh = record {
  id = fresh;
  scope = scope;
  token = "acx_" ++ without_dashes fresh;
  expires_at = now + one_day;
  created_at = now;
}

unfoldable pub create_registration_token :
    Nodes → Scope → Time → String → Answer RegistrationToken × Nodes
unfolding validate without_dashes
create_registration_token s scope now fresh = commit s (do
  validate scope
  let token = new_token scope now fresh
  ok (token, record s { by_token = insert token.token token s.by_token }))

unfoldable pub resolve_registration_token : Nodes → String → Time → Answer RegistrationToken
resolve_registration_token s token now = do
  reject_if (trim_space token == "") validation
  elim (lookup (trim_space token) s.by_token) [
    | none ↦ err not_found
    | some record_of ↦ if after record_of.expires_at now then ok record_of else err unavailable
  ]

abbrev pub is_disabled : NodeStatus → Bool
is_disabled disabled = true
is_disabled _ = false

unfoldable pub heartbeat :
    (Char → Char) → Nodes → Scope → String → HeartbeatInput → Time → Answer Node × Nodes
unfolding validate validate_heartbeat find normalize_capabilities clone_node
heartbeat lower s scope id input now = commit s (do
  validate scope
  status ← validate_heartbeat lower input
  n ← find scope_of s.by_id scope id
  reject_if (is_disabled n.status) unavailable
  let seen = record n {
    version = trim_space input.version;
    protocol_version = input.protocol_version;
    status = status;
    capabilities = normalize_capabilities lower input.capabilities;
    last_seen_at = some now;
    updated_at = now;
  }
  ok (clone_node seen, record s { by_id = insert n.id seen s.by_id }))

unfoldable pub update_labels : Nodes → Scope → String → Dict String → Time → Answer Node × Nodes
unfolding validate find clone_node clone_labels
update_labels s scope id labels now = commit s (do
  validate scope
  n ← find scope_of s.by_id scope id
  let labelled = record n { labels = clone_labels labels; updated_at = now }
  ok (clone_node labelled, record s { by_id = insert n.id labelled s.by_id }))

unfoldable pub disable : Nodes → Scope → String → Time → Answer Node × Nodes
unfolding validate find clone_node
disable s scope id now = commit s (do
  validate scope
  n ← find scope_of s.by_id scope id
  let off = record n { status = disabled; updated_at = now }
  ok (clone_node off, record s { by_id = insert n.id off s.by_id }))

-- `isSchedulable`
unfoldable pub is_schedulable : NodeStatus → Bool
is_schedulable online = true
is_schedulable degraded = true
is_schedulable _ = false

-- a node that may do work with these needs
abbrev pub is_capable : Scope → List String → Dict String → Node → Bool
is_capable scope required labels n =
    equals n.scope scope
    && is_schedulable n.status
    && contains_all n.capabilities required
    && labels_match n.labels labels

unfoldable pub match_capable :
    (Char → Char) → Nodes → Scope → List String → Dict String → Answer (List Node)
unfolding validate normalize_capabilities is_schedulable clone_node filter sort_by
match_capable lower s scope required labels = do
  validate scope
  let normal = normalize_capabilities lower required
  reject_if (not (eqb (length required) (length normal))) validation
  ok (
      sort_by (λ left right. text_before left.name right.name)
        (map clone_node (filter (is_capable scope normal labels) (map (λ e. e.1) s.by_id))))
