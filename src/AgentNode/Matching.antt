-- ===== src/AgentNode/Matching.antt =====
-- Which nodes `MatchCapable` of internal/domain/agentnode/service.go finds.
use Prim.Native.Char.{Char}
use auto_cert_x.Prelude.{
  String, ◌≡◌, ok-injective, subst, sym, Bool, not, List, map, ok, reject_if-passed, >>=-eq-ok,
  arith, length, eqb,
}
use auto_cert_x.Prelude.Sorting.{sort_by, filter}
use auto_cert_x.Prelude.Membership.{
  IsIn, sort_by-IsIn, IsIn-sort_by, filter-IsIn, IsIn-filter, map-IsIn, IsIn-map,
}
use auto_cert_x.Text.{lowered}
use auto_cert_x.Dict.{Dict}
use auto_cert_x.Resource.Errors.{validation}
use auto_cert_x.Resource.Scope.{Scope, validate, equals_refl}
use auto_cert_x.AgentNode.State.{Node, Nodes}
use auto_cert_x.AgentNode.Normal.{normalize_capabilities, text_before}
use auto_cert_x.AgentNode.Commands.{clone_node, is_capable, match_capable}
use auto_cert_x.AgentNode.Suitable.{IsSuitable, is_capable-IsSuitable, IsSuitable-is_capable}
use auto_cert_x.AgentNode.Required.{AllIn-required, AllIn-normal}

-- the list before it is ordered
abbrev chosen : (Char → Char) → Nodes → Scope → List String → Dict String → List Node
chosen lower s scope required labels = map clone_node (
    filter (is_capable scope (normalize_capabilities lower required) labels)
      (map (λ e. e.1) s.by_id))

abbrev by_name : Node → Node → Bool
by_name left right = text_before left.name right.name

found-chosen :
    (lower : Char → Char) (s : Nodes) (scope : Scope) (required : List String)
    (labels : Dict String) {found : List Node}
    → match_capable lower s scope required labels ≡ ok found
    → (length required ≡ length (normalize_capabilities lower required))
      × (sort_by by_name (chosen lower s scope required labels) ≡ found)
unfolding match_capable
found-chosen lower s scope required labels h =
    let (_, _, h1) = >>=-eq-ok (validate scope) _ h in
    let (counted, h2) =
      reject_if-passed
        (not (eqb (length required) (length (normalize_capabilities lower required)))) validation _
        h1 in
    (ground arith, ok-injective h2)

-- A node that `MatchCapable` returns is the copy of a stored node that is in the scope, online or
-- degraded, has every required capability, trimmed and in lower case, and carries the required labels.
pub match_capable-IsSuitable :
    (lower : Char → Char) (s : Nodes) (scope : Scope) (required : List String)
    (labels : Dict String) (n : Node) {found : List Node}
    → match_capable lower s scope required labels ≡ ok found
    → IsIn n found
    → (m : Node) × IsIn m (map (λ e. e.1) s.by_id)
      × IsSuitable scope (map (lowered lower) required) labels m
      × (clone_node m ≡ n)
match_capable-IsSuitable lower s scope required labels n h there =
    let codes = normalize_capabilities lower required in
    let (counted, ordered) = found-chosen lower s scope required labels h in
    let listed = subst (IsIn n) (sym ordered) there in
    let unsorted = sort_by-IsIn by_name n (chosen lower s scope required labels) listed in
    let (m, kept, copied) =
      map-IsIn clone_node n (filter (is_capable scope codes labels) (map (λ e. e.1) s.by_id))
        unsorted in
    let (stored, capable) =
      filter-IsIn (is_capable scope codes labels) m (map (λ e. e.1) s.by_id) kept in
    let fit = is_capable-IsSuitable scope codes labels m capable in
    (
      m,
      stored,
      record {
        scoped = fit.scoped;
        working = fit.working;
        able = AllIn-required lower required m.capabilities (sym counted) fit.able;
        labelled = fit.labelled;
      },
      copied,
    )

-- Where `MatchCapable` returns a list, every stored node that is in the scope, online or degraded, has
-- every required capability, trimmed and in lower case, and carries the required labels has its copy in
-- the list.
pub match_capable-IsIn :
    (lower : Char → Char) (s : Nodes) (scope : Scope) (required : List String)
    (labels : Dict String) (m : Node) {found : List Node}
    → match_capable lower s scope required labels ≡ ok found
    → IsIn m (map (λ e. e.1) s.by_id)
    → IsSuitable scope (map (lowered lower) required) labels m
    → IsIn (clone_node m) found
match_capable-IsIn lower s scope required labels m h stored fit =
    let codes = normalize_capabilities lower required in
    let normal : IsSuitable scope codes labels m = record {
      scoped = fit.scoped;
      working = fit.working;
      able = AllIn-normal lower required m.capabilities fit.able;
      labelled = fit.labelled;
    } in
    let capable = IsSuitable-is_capable scope codes labels m (equals_refl scope) normal in
    let kept =
      IsIn-filter (is_capable scope codes labels) m (map (λ e. e.1) s.by_id) stored capable in
    let copied =
      IsIn-map clone_node m (filter (is_capable scope codes labels) (map (λ e. e.1) s.by_id))
        kept in
    subst (IsIn (clone_node m)) (found-chosen lower s scope required labels h).1
      (IsIn-sort_by by_name (clone_node m) (chosen lower s scope required labels) copied)
