-- ===== src/AgentNode/Disabling.antt =====
-- A disabled node of internal/domain/agentnode/service.go stays disabled.
use Prim.Native.Char.{Char}
use auto_cert_x.Prelude.{
  String, ◌≡◌, ◌≢◌, refl, ◌∙◌, subst, Bool, some, inl, inr, List, [], ◌∷◌, Result-cases, Bool-cases,
  Option-cases, arith, ◌==◌, eq_of_true,
}
use auto_cert_x.Text.{trim_space}
use auto_cert_x.Dict.{Dict, lookup, insert, lookup-insert, lookup-insert_ne}
use auto_cert_x.Job.Clock.{Time}
use auto_cert_x.Resource.Scope.{Scope, validate}
use auto_cert_x.Resource.Stores.{find, find-lookup, scoped_key}
use auto_cert_x.Resource.Keyed.{IsKeyed, insert-IsKeyed, IsKeyed-lookup}
use auto_cert_x.AgentNode.State.{disabled, Node, Nodes, RegistrationInput, HeartbeatInput}
use auto_cert_x.AgentNode.Normal.{validate_registration, validate_heartbeat}
use auto_cert_x.AgentNode.Commands.{
  scope_of, registered, register, create_registration_token, heartbeat, update_labels, disable,
  is_disabled,
}

-- The calls that change the nodes. `registering` is given the id that is drawn.
pub data Call : Type 0 where
  registering : Scope → RegistrationInput → Time → String → Call
  issuing : Scope → Time → String → Call
  beating : Scope → String → HeartbeatInput → Time → Call
  labelling : Scope → String → Dict String → Time → Call
  disabling : Scope → String → Time → Call

module _ (lower : Char → Char) (is_address : String → Bool) where
  unfoldable pub after : Nodes → Call → Nodes
  unfolding register create_registration_token heartbeat update_labels disable
  after s (registering scope input now fresh) =
      (register lower is_address s scope input now fresh).1
  after s (issuing scope now fresh) = (create_registration_token s scope now fresh).1
  after s (beating scope id input now) = (heartbeat lower s scope id input now).1
  after s (labelling scope id labels now) = (update_labels s scope id labels now).1
  after s (disabling scope id now) = (disable s scope id now).1

  unfoldable pub after_all : Nodes → List Call → Nodes
  unfolding after
  after_all s [] = s
  after_all s (c ∷ later) = after_all (after s c) later

-- no call draws the id again
abbrev pub IsNew : String → Call → Type 0
IsNew k (registering scope input now fresh) = fresh ≢ k
IsNew k _ = Unit

abbrev pub NotDrawn : String → List Call → Type 0
NotDrawn k [] = Unit
NotDrawn k (c ∷ later) = IsNew k c × NotDrawn k later

-- the node `k` is there and disabled
abbrev pub IsOff : String → Nodes → Type 0
IsOff k s = (n : Node) × (lookup k s.by_id ≡ some n) × (n.status ≡ disabled)

abbrev id_of : Node → String
id_of n = n.id

-- The stored nodes have their own ids as keys, and the node `k` is disabled.
abbrev IsKept : String → Nodes → Type 0
IsKept k s = IsKeyed id_of s.by_id × IsOff k s

-- Writing a node that was found, under its id, and that is disabled if it was.
put-IsKept :
    (k : String) (s : Nodes) (n v : Node) (id : String)
    → lookup id s.by_id ≡ some n
    → v.id ≡ n.id
    → (n.status ≡ disabled → v.status ≡ disabled)
    → IsKept k s
    → IsKept k (record s { by_id = insert n.id v s.by_id })
put-IsKept k s n v id here same_id stays (keyed, (w, off, is_off)) = (
  insert-IsKeyed id_of s.by_id n.id v same_id keyed,
  elim (Bool-cases (n.id == k)) [
    | inl same ↦
        let found = IsKeyed-lookup id_of s.by_id id n keyed here in
        let there : lookup k s.by_id ≡ some n =
          subst (λ x. lookup x s.by_id ≡ some n) (eq_of_true n.id k same) found in
        let is_n : w ≡ n = ground (arith, off, there) in
        (v, ground (arith, lookup-insert n.id k v s.by_id), stays (rw is_n at is_off))
    | inr other ↦ (w, ground (arith, lookup-insert n.id k v s.by_id), is_off)
  ],
)

module _ (k : String) (s : Nodes) (kept : IsKept k s) where
  register-IsKept :
      (lower : Char → Char) (is_address : String → Bool) (scope : Scope) (input : RegistrationInput)
      (now : Time) (fresh : String)
      → fresh ≢ k
      → IsKept k (register lower is_address s scope input now fresh).1
  unfolding register registered
  register-IsKept lower is_address scope input now fresh new =
      elim (Result-cases (validate scope)) [
        | inr (e, bad) ↦ rw bad kept
        | inl (_, valid) ↦ elim (Result-cases (validate_registration lower is_address input)) [
          | inr (e, bad) ↦ rw (valid, bad) kept
          | inl (_, sound) ↦
              elim (Option-cases (lookup (scoped_key scope (trim_space input.name)) s.by_name)) [
                | inr (id, taken) ↦ rw (valid, sound, taken) kept
                | inl free ↦
                    rw (valid, sound, free)
                      (
                        insert-IsKeyed id_of s.by_id fresh (registered lower scope input now fresh)
                            refl kept.0,
                        (
                          kept.1.0,
                          lookup-insert_ne fresh k (registered lower scope input now fresh) s.by_id
                                new
                              ∙ kept.1.1,
                          kept.1.2,
                        ),
                      )
              ]
        ]
      ]

  heartbeat-IsKept :
      (lower : Char → Char) (scope : Scope) (id : String) (input : HeartbeatInput) (now : Time)
      → IsKept k (heartbeat lower s scope id input now).1
  unfolding heartbeat
  heartbeat-IsKept lower scope id input now = elim (Result-cases (validate scope)) [
    | inr (e, bad) ↦ rw bad kept
    | inl (_, valid) ↦ elim (Result-cases (validate_heartbeat lower input)) [
      | inr (e, bad) ↦ rw (valid, bad) kept
      | inl (status, sound) ↦ elim (Result-cases (find scope_of s.by_id scope id)) [
        | inr (e, bad) ↦ rw (valid, sound, bad) kept
        | inl (n, found) ↦ elim (Bool-cases (is_disabled n.status)) [
          | inl off ↦ rw (valid, sound, found, off) kept
          | inr enabled ↦
              rw (valid, sound, found, enabled)
                (put-IsKept k s n _ id (find-lookup scope_of s.by_id scope id found) refl
                  (λ off. absurd (cc (rw off at enabled))) kept)
        ]
      ]
    ]
  ]

  update_labels-IsKept :
      (scope : Scope) (id : String) (labels : Dict String) (now : Time)
      → IsKept k (update_labels s scope id labels now).1
  unfolding update_labels
  update_labels-IsKept scope id labels now = elim (Result-cases (validate scope)) [
    | inr (e, bad) ↦ rw bad kept
    | inl (_, valid) ↦ elim (Result-cases (find scope_of s.by_id scope id)) [
      | inr (e, bad) ↦ rw (valid, bad) kept
      | inl (n, found) ↦
          rw (valid, found)
            (put-IsKept k s n _ id (find-lookup scope_of s.by_id scope id found) refl (λ off. off)
              kept)
    ]
  ]

  disable-IsKept : (scope : Scope) (id : String) (now : Time) → IsKept k (disable s scope id now).1
  unfolding disable
  disable-IsKept scope id now = elim (Result-cases (validate scope)) [
    | inr (e, bad) ↦ rw bad kept
    | inl (_, valid) ↦ elim (Result-cases (find scope_of s.by_id scope id)) [
      | inr (e, bad) ↦ rw (valid, bad) kept
      | inl (n, found) ↦
          rw (valid, found)
            (put-IsKept k s n _ id (find-lookup scope_of s.by_id scope id found) refl (λ off. refl)
              kept)
    ]
  ]

  create_registration_token-IsKept :
      (scope : Scope) (now : Time) (fresh : String)
      → IsKept k (create_registration_token s scope now fresh).1
  unfolding create_registration_token
  create_registration_token-IsKept scope now fresh = elim (Result-cases (validate scope)) [
    | inr (e, bad) ↦ rw bad kept
    | inl (_, valid) ↦ rw valid kept
  ]

module _ (lower : Char → Char) (is_address : String → Bool) (k : String) where
  after-IsKept :
      (s : Nodes) (c : Call) → IsNew k c → IsKept k s → IsKept k (after lower is_address s c)
  unfolding after
  after-IsKept s (registering scope input now fresh) new kept =
      register-IsKept k s kept lower is_address scope input now fresh new
  after-IsKept s (issuing scope now fresh) new kept =
      create_registration_token-IsKept k s kept scope now fresh
  after-IsKept s (beating scope id input now) new kept =
      heartbeat-IsKept k s kept lower scope id input now
  after-IsKept s (labelling scope id labels now) new kept =
      update_labels-IsKept k s kept scope id labels now
  after-IsKept s (disabling scope id now) new kept = disable-IsKept k s kept scope id now

  after_all-IsKept :
      (s : Nodes) (calls : List Call)
      → NotDrawn k calls
      → IsKept k s
      → IsKept k (after_all lower is_address s calls)
  unfolding after_all
  after_all-IsKept s [] new kept = kept
  after_all-IsKept s (c ∷ later) (new, rest) kept =
      after_all-IsKept (after lower is_address s c) later rest (after-IsKept s c new kept)

-- A stored node that is disabled is there and disabled after any further calls, heartbeats among them,
-- where nodes are stored under their own ids and no registration draws its id again.
pub disabled_forever :
    (lower : Char → Char) (is_address : String → Bool) (s : Nodes) (calls : List Call) (k : String)
    → IsKeyed id_of s.by_id
    → NotDrawn k calls
    → IsOff k s
    → IsOff k (after_all lower is_address s calls)
disabled_forever lower is_address s calls k keyed new off =
    (after_all-IsKept lower is_address k s calls new (keyed, off)).1
