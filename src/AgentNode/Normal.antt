-- ===== src/AgentNode/Normal.antt =====
-- internal/domain/agentnode/service.go: the helpers that normalize and validate what agents report.
use Prim.Native.Char.{Char}
use Prim.Native.String.{compare}
use text.Mathlib.Text.{is_lt}
use auto_cert_x.Prelude.{
  String, Bool, true, false, not, ◌&&◌, ◌||◌, Option, none, some, List, [], ◌∷◌, length, ok, err,
  ◌>>=◌, ◌>>◌, reject_if, eqb, ◌==◌, if◌then◌else◌,
}
use auto_cert_x.Prelude.Int.{pos, ltb_ℤ}
use auto_cert_x.Prelude.Sorting.{sort_by}
use auto_cert_x.Text.{trim_space, lowered}
use auto_cert_x.Dict.{Dict, lookup, insert}
use auto_cert_x.Resource.Errors.{Answer, validation}
use auto_cert_x.AgentNode.State.{
  NodeStatus, online, degraded, incompatible, RegistrationInput, HeartbeatInput,
}

-- `validCapability`
unfoldable pub valid_capability : String → Bool
valid_capability code =
    code == "keygen:rsa"
    || code == "challenge:http-01"
    || code == "deploy:nginx"
    || code == "deploy:tomcat-jsse-pkcs12"
    || code == "verify:nginx"
    || code == "verify:tomcat"
    || code == "discover:nginx"
    || code == "discover:tomcat"

abbrev pub has : String → List String → Bool
has code [] = false
has code (item ∷ others) = item == code || has code others

abbrev pub keep_if : Bool → String → List String → List String
keep_if true code others = code ∷ others
keep_if false code others = others

-- The loop: what is valid and not seen before.
unfoldable pub kept_capabilities : (Char → Char) → List String → List String → List String
unfolding valid_capability
kept_capabilities lower seen [] = []
kept_capabilities lower seen (item ∷ later) =
    let code = lowered lower item in
    let fresh = valid_capability code && not (has code seen) in
    keep_if fresh code (kept_capabilities lower (keep_if fresh code seen) later)

abbrev pub text_before : String → String → Bool
text_before left right = is_lt (compare left right)

unfoldable pub normalize_capabilities : (Char → Char) → List String → List String
unfolding kept_capabilities sort_by
normalize_capabilities lower items = sort_by text_before (kept_capabilities lower [] items)

-- An empty list passes; one that loses an entry does not.
abbrev pub capabilities_invalid : (Char → Char) → List String → Bool
capabilities_invalid lower items =
    not (eqb (length items) 0)
    && not (eqb (length (normalize_capabilities lower items)) (length items))

-- `validHeartbeatStatus` with `normalizeNodeStatus`: the status that an agent may report.
unfoldable pub reported_status : (Char → Char) → String → Option NodeStatus
reported_status lower text =
    let status = lowered lower text in
    if status == "online"
    then some online
    else if status == "degraded"
    then some degraded
    else if status == "incompatible"
    then some incompatible
    else none

-- `validateRegistration`; `is_address` is net/netip's `ParseAddr`.
unfoldable pub validate_registration :
    (Char → Char) → (String → Bool) → RegistrationInput → Answer Unit
unfolding normalize_capabilities
validate_registration lower is_address input = do
  reject_if (trim_space input.name == "") validation
  let address = trim_space input.ip_address
  reject_if (not (address == "") && not (is_address address)) validation
  reject_if (trim_space input.version == "") validation
  reject_if (ltb_ℤ input.protocol_version (pos 1)) validation
  reject_if (capabilities_invalid lower input.capabilities) validation
  ok tt

abbrev or_invalid : Option NodeStatus → Answer NodeStatus
or_invalid none = err validation
or_invalid (some status) = ok status

-- `validateHeartbeat`, with the status that it lets through
unfoldable pub validate_heartbeat : (Char → Char) → HeartbeatInput → Answer NodeStatus
unfolding reported_status normalize_capabilities
validate_heartbeat lower input = do
  reject_if (ltb_ℤ input.protocol_version (pos 1)) validation
  status ← or_invalid (reported_status lower input.status)
  reject_if (capabilities_invalid lower input.capabilities) validation
  ok status

-- `cloneStringMap`: keys and values trimmed, blank keys left out.
abbrev put_label : String → String → Dict String → Dict String
put_label key value labels = if key == "" then labels else insert key value labels

unfoldable pub copied : Dict String → Dict String → Dict String
unfolding insert
copied done [] = done
copied done ((key, value) ∷ later) =
    copied (put_label (trim_space key) (trim_space value) done) later

unfoldable pub clone_labels : Dict String → Dict String
unfolding copied
clone_labels labels = copied [] labels

-- `containsAll`
abbrev pub contains_all : List String → List String → Bool
contains_all actual [] = true
contains_all actual (code ∷ later) = has code actual && contains_all actual later

-- `actual[key]`
abbrev pub label_of : String → Dict String → String
label_of key labels = elim (lookup key labels) [ none ↦ "" | some value ↦ value ]

-- `labelsMatch`
abbrev pub labels_match : Dict String → Dict String → Bool
labels_match actual [] = true
labels_match actual ((key, value) ∷ later) =
    label_of key actual == value && labels_match actual later

-- `strings.ReplaceAll(id, "-", "")`
unfoldable pub without_dashes : String → String
without_dashes Prim.Native.String.[] = Prim.Native.String.[]
without_dashes (Prim.Native.String.◌∷◌ c s) =
    let rest = without_dashes s in
    if eqb (Prim.Native.Char.code c) b'-' then rest else Prim.Native.String.◌∷◌ c rest
