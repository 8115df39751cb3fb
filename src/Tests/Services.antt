-- ===== src/Tests/Services.antt =====
-- The theorems on agent nodes and domains, at one node and one domain.
use Prim.Native.Char.{Char}
use auto_cert_x.Prelude.{
  ◌+◌, String, ◌≡◌, refl, true, none, some, List, [], ◌∷◌, map, ok, inl, inr, err, arith, eq_iff,
  ltb, if◌then◌else◌,
}
use auto_cert_x.Prelude.Int.{pos}
use auto_cert_x.Prelude.Membership.{IsIn}
use auto_cert_x.Text.{lowered, trim_space, to_lower, has_prefix, trim_dot}
use auto_cert_x.Dict.{Dict, lookup, insert}
use auto_cert_x.Resource.Errors.{unavailable}
use auto_cert_x.Resource.Scope.{Scope, equals}
use auto_cert_x.AgentNode.State.{Node, Nodes, RegistrationToken, HeartbeatInput, online, disabled}
use auto_cert_x.AgentNode.Commands.{
  match_capable, clone_node, create_registration_token, resolve_registration_token, one_day,
}
use auto_cert_x.AgentNode.Suitable.{IsSuitable}
use auto_cert_x.AgentNode.Matching.{match_capable-IsSuitable, match_capable-IsIn}
use auto_cert_x.AgentNode.Disabling.{beating, disabling, after_all, IsOff, disabled_forever}
use auto_cert_x.AgentNode.Tokens.{token_round_trip}
use auto_cert_x.Domains.State.{Domain, Governed, UpsertInput}
use auto_cert_x.Domains.Commands.{create}
use auto_cert_x.Domains.Names.{IsConsistent}
use auto_cert_x.Domains.Unique.{empty, Reachable, start, next, creating, names_agree, names_unique}

abbrev here : Scope
here = record { tenant_id = "t"; project_id = "p"; environment_id = "e" }

abbrev as_is : Char → Char
as_is c = c

abbrev node : Node
node = record {
  id = "n";
  scope = here;
  name = "web";
  hostname = "web";
  ip_address = "";
  version = "1";
  protocol_version = pos 1;
  os = "linux";
  arch = "amd64";
  labels = ("zone", "a") ∷ [];
  capabilities = "deploy:nginx" ∷ [];
  status = online;
  last_seen_at = none;
  created_at = 1;
  updated_at = 1;
}

-- the labels zone=a and, which the node has not, rack=""
abbrev zone_a : Dict String
zone_a = ("zone", "a") ∷ ("rack", "") ∷ []

abbrev nodes : Nodes
nodes = record { by_id = ("n", node) ∷ []; by_name = ("t/p/e/web", "n") ∷ []; by_token = [] }

matched :
    (found : List Node) × (match_capable as_is nodes here (" deploy:nginx" ∷ []) zone_a ≡ ok found)
    × IsIn (clone_node node) found
unfolding match_capable to_lower trim_space equals lookup
matched = (_, refl, inl refl)

match_capable-IsSuitable_example :
    (m : Node) × IsIn m (map (λ e. e.1) nodes.by_id)
    × IsSuitable here (map (lowered as_is) (" deploy:nginx" ∷ [])) zone_a m
    × (clone_node m ≡ clone_node node)
match_capable-IsSuitable_example =
    match_capable-IsSuitable as_is nodes here (" deploy:nginx" ∷ []) zone_a (clone_node node)
      matched.1 matched.2

node-IsSuitable : IsSuitable here (map (lowered as_is) (" deploy:nginx" ∷ [])) zone_a node
unfolding to_lower trim_space lookup
node-IsSuitable = record {
  scoped = refl;
  working = inl refl;
  able = (inl refl, tt);
  labelled = (inl refl, (inr (refl, refl), tt));
}

match_capable-IsIn_example : IsIn (clone_node node) matched.0
match_capable-IsIn_example =
    match_capable-IsIn as_is nodes here (" deploy:nginx" ∷ []) zone_a node matched.1 (inl refl)
      node-IsSuitable

abbrev retired : Nodes
retired = record nodes { by_id = ("n", record node { status = disabled }) ∷ [] }

abbrev beat : HeartbeatInput
beat = record { version = "2"; protocol_version = pos 1; status = "online"; capabilities = [] }

retired_keyed : (k : String) (n : Node) → lookup k retired.by_id ≡ some n → n.id ≡ k
unfolding lookup
retired_keyed k n h = ground (arith, eq_iff "n" k)

disabled_forever_example :
    IsOff "n"
      (after_all as_is (λ s. true) retired (beating here "n" beat 5 ∷ disabling here "m" 6 ∷ []))
unfolding lookup
disabled_forever_example =
    disabled_forever as_is (λ s. true) retired (beating here "n" beat 5 ∷ disabling here "m" 6 ∷ [])
      "n" retired_keyed (tt, (tt, tt)) (_, refl, refl)

token_made :
    (t : RegistrationToken × Nodes) × (create_registration_token nodes here 10 "ab-cd"
      ≡ (ok t.0, t.1))
    × (trim_space t.0.token ≡ t.0.token)
unfolding create_registration_token trim_space
token_made = ((_, _), refl, refl)

token_round_trip_example :
    resolve_registration_token token_made.0.1 token_made.0.0.token 11
    ≡ (if ltb 11 (10 + one_day) then ok token_made.0.0 else err unavailable)
token_round_trip_example =
    token_round_trip nodes token_made.0.1 here 10 11 "ab-cd" token_made.1 token_made.2

abbrev wildcard : UpsertInput
wildcard = record {
  name = "*.Example.org.";
  challenge_type = "dns-01";
  auto_renew = true;
  dns_credential_id = "";
  dns_provider = "";
}

unfoldable one_domain : Governed
unfolding create trim_space to_lower trim_dot has_prefix lookup insert
one_domain = (create as_is empty here wildcard 1 "d").1

one_domain-Reachable : Reachable as_is one_domain
unfolding one_domain
one_domain-Reachable = next start (creating here wildcard 1 "d" refl refl)

one_domain_holds : (d : Domain) × (lookup "d" one_domain.by_id ≡ some d)
unfolding one_domain
one_domain_holds = (_, refl)

names_agree_example : IsConsistent one_domain
names_agree_example = names_agree as_is one_domain one_domain-Reachable

names_unique_example : ◌≡◌ {A = String} "d" "d"
names_unique_example =
    names_unique as_is one_domain "d" "d" one_domain_holds.0 one_domain_holds.0 one_domain-Reachable
      one_domain_holds.1 one_domain_holds.1 refl refl
