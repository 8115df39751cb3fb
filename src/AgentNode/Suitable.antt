-- ===== src/AgentNode/Suitable.antt =====
-- What it is for a node to fit the needs of a job, said without the tests of
-- internal/domain/agentnode/service.go, and that these tests decide it.
use auto_cert_x.Prelude.{
  none, some, Option-cases, ap, ◌∙◌, String, ◌≡◌, refl, sym, true, ◌⊎◌, inl, inr, List, [], ◌∷◌,
  Bool-cases, arith, ◌==◌, eq_iff, eq_of_true,
}
use auto_cert_x.Prelude.Membership.{IsIn}
use auto_cert_x.Dict.{Dict, lookup}
use auto_cert_x.Resource.Scope.{Scope, equals, equals-eq}
use auto_cert_x.AgentNode.State.{NodeStatus, online, degraded, Node}
use auto_cert_x.AgentNode.Normal.{label_of, has, contains_all, labels_match}
use auto_cert_x.AgentNode.Commands.{is_schedulable, is_capable}

-- every code is among the others
abbrev pub AllIn : List String → List String → Type 0
AllIn [] others = Unit
AllIn (code ∷ later) others = IsIn code others × AllIn later others

-- The node carries each label: its value is the required one. A label that is not there reads as "".
abbrev pub Carries : Dict String → Dict String → Type 0
Carries labels [] = Unit
Carries labels ((key, value) ∷ later) =
    ((lookup key labels ≡ some value) ⊎ ((lookup key labels ≡ none) × (value ≡ "")))
    × Carries labels later

-- A node of the scope that is at work, and has the capabilities and the labels.
pub record IsSuitable (scope : Scope) (codes : List String) (labels : Dict String) (n : Node)
    : Type 0 where
  pub scoped : n.scope ≡ scope
  pub working : (n.status ≡ online) ⊎ (n.status ≡ degraded)
  pub able : AllIn codes n.capabilities
  pub labelled : Carries n.labels labels

has-IsIn : (code : String) (codes : List String) → has code codes ≡ true → IsIn code codes
has-IsIn code [] h = cc
has-IsIn code (item ∷ others) h = elim (Bool-cases (item == code)) [
  | inl e ↦ inl (eq_of_true item code e)
  | inr differs ↦ inr (has-IsIn code others (ground arith))
]

IsIn-has : (code : String) (codes : List String) → IsIn code codes → has code codes ≡ true
IsIn-has code [] h = absurd h
IsIn-has code (item ∷ others) (inl e) = ground (arith, eq_iff item code)
IsIn-has code (item ∷ others) (inr later) = let rest = IsIn-has code others later in ground arith

contains_all-AllIn :
    (actual codes : List String) → contains_all actual codes ≡ true → AllIn codes actual
contains_all-AllIn actual [] h = tt
contains_all-AllIn actual (code ∷ later) h =
    (has-IsIn code actual (ground arith), contains_all-AllIn actual later (ground arith))

AllIn-contains_all :
    (actual codes : List String) → AllIn codes actual → contains_all actual codes ≡ true
AllIn-contains_all actual [] h = refl
AllIn-contains_all actual (code ∷ later) (first, others) =
    let there = IsIn-has code actual first in
    let rest = AllIn-contains_all actual later others in ground arith

is_schedulable-working : (s : NodeStatus) → is_schedulable s ≡ true → (s ≡ online) ⊎ (s ≡ degraded)
unfolding is_schedulable
is_schedulable-working online h = inl refl
is_schedulable-working degraded h = inr refl
is_schedulable-working s h = cc

working-is_schedulable : (s : NodeStatus) → (s ≡ online) ⊎ (s ≡ degraded) → is_schedulable s ≡ true
unfolding is_schedulable
working-is_schedulable s (inl e) = rw e refl
working-is_schedulable s (inr e) = rw e refl

labels_match-Carries :
    (actual required : Dict String) → labels_match actual required ≡ true → Carries actual required
labels_match-Carries actual [] h = tt
labels_match-Carries actual ((key, value) ∷ later) h =
    let rest = labels_match-Carries actual later (ground arith) in
    let same : label_of key actual ≡ value =
      eq_of_true (label_of key actual) value (ground arith) in
    elim (Option-cases (lookup key actual)) [
      | inl missing ↦ (inr (missing, sym (rw (label_of, missing) at same)), rest)
      | inr (held, there) ↦
          let its : held ≡ value = rw (label_of, there) at same in (inl (there ∙ ap some its), rest)
    ]

Carries-labels_match :
    (actual required : Dict String) → Carries actual required → labels_match actual required ≡ true
Carries-labels_match actual [] h = refl
Carries-labels_match actual ((key, value) ∷ later) (inl there, others) =
    let rest = Carries-labels_match actual later others in
    let read : label_of key actual ≡ value = rw (label_of, there) refl in
    ground (arith, rest, eq_iff (label_of key actual) value)
Carries-labels_match actual ((key, value) ∷ later) (inr (missing, blank), others) =
    let rest = Carries-labels_match actual later others in
    let read : label_of key actual ≡ value = rw (label_of, missing) (sym blank) in
    ground (arith, rest, eq_iff (label_of key actual) value)

module _ (scope : Scope) (codes : List String) (labels : Dict String) (n : Node) where
  pub is_capable-IsSuitable :
      is_capable scope codes labels n ≡ true → IsSuitable scope codes labels n
  is_capable-IsSuitable h = record {
    scoped = equals-eq n.scope scope (ground arith);
    working = is_schedulable-working n.status (ground arith);
    able = contains_all-AllIn n.capabilities codes (ground arith);
    labelled = labels_match-Carries n.labels labels (ground arith);
  }

  pub IsSuitable-is_capable :
      equals scope scope ≡ true
      → IsSuitable scope codes labels n
      → is_capable scope codes labels n ≡ true
  IsSuitable-is_capable same fit =
      let scoped : equals n.scope scope ≡ true = rw fit.scoped same in
      let working = working-is_schedulable n.status fit.working in
      let able = AllIn-contains_all n.capabilities codes fit.able in
      let labelled = Carries-labels_match n.labels labels fit.labelled in ground arith
