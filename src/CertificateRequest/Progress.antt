-- ===== src/CertificateRequest/Progress.antt =====
-- What `transition` of internal/domain/certificaterequest/service.go does to the stored requests.
use auto_cert_x.Prelude.{
  String, ◌≡◌, refl, sym, ◌∙◌, subst, Bool, true, false, inl, inr, some, Result-cases, Bool-cases,
  arith, ◌==◌, eq_of_true,
}
use auto_cert_x.Dict.{lookup, lookup-insert}
use auto_cert_x.Job.Clock.{Time}
use auto_cert_x.Resource.Scope.{Scope, validate}
use auto_cert_x.Resource.Stores.{find, find-lookup}
use auto_cert_x.CertificateRequest.Status.{
  RequestStatus, completed, failed, cancelled, can_transition,
}
use auto_cert_x.CertificateRequest.State.{Request, Requests}
use auto_cert_x.CertificateRequest.Commands.{scope_of, transition}

-- The status after any number of permitted transitions.
pub data Way (s : RequestStatus) : RequestStatus → Type 0 where
  stay : {t : RequestStatus} → t ≡ s → Way s t
  go : {t u : RequestStatus} → Way s t → can_transition t u ≡ true → Way s u

pub Way-join : (s t u : RequestStatus) → Way s t → Way t u → Way s u
Way-join s t u first (stay same) = subst (Way s) (sym same) first
Way-join s t u first (go {t = v} rest moved) = go (Way-join s t v first rest) moved

abbrev pub is_final : RequestStatus → Bool
is_final completed = true
is_final failed = true
is_final cancelled = true
is_final _ = false

final_unmoved : (s t : RequestStatus) → is_final s ≡ true → can_transition s t ≡ true → s ≡ t
unfolding can_transition
final_unmoved s t final moved = ground arith

-- No way leads out of a final status.
pub Way-is_final : (s t : RequestStatus) → Way s t → is_final s ≡ true → t ≡ s
Way-is_final s t (stay same) final = same
Way-is_final s u (go {t} way moved) final =
    let same : t ≡ s = Way-is_final s t way final in
    sym (final_unmoved t u (rw same final) moved) ∙ same

-- The request under `k` is still there, and its status went along permitted transitions.
abbrev pub Advances : String → Requests → Requests → Type 0
Advances k s t =
    (r : Request)
    → lookup k s.by_id ≡ some r
    → (v : Request) × (lookup k t.by_id ≡ some v) × Way r.status v.status

pub transition-Advances :
    (s : Requests) (scope : Scope) (id : String) (next : RequestStatus) (now : Time) (k : String)
    → Advances k s (transition s scope id next now).1
unfolding transition
transition-Advances s scope id next now k r here = elim (Result-cases (validate scope)) [
  | inr (e, invalid) ↦ (r, rw invalid here, stay refl)
  | inl (_, valid) ↦ elim (Result-cases (find scope_of s.by_id scope id)) [
    | inr (e, missing) ↦ (r, rw (valid, missing) here, stay refl)
    | inl (u, found) ↦ elim (Bool-cases (can_transition u.status next)) [
      | inr refused ↦ (r, rw (valid, found, refused) here, stay refl)
      | inl permitted ↦ elim (Bool-cases (id == k)) [
        | inr other ↦ (r, rw (valid, found, permitted, lookup-insert, other) here, stay refl)
        | inl this ↦
            let same : id ≡ k = eq_of_true id k this in
            let one : u ≡ r = cc (find-lookup scope_of s.by_id scope id found, here, same) in
            (
              record u { status = next; updated_at = now },
              rw (valid, found, permitted, lookup-insert, this) refl,
              go (stay refl) (rw one at permitted),
            )
      ]
    ]
  ]
]

final_refuses : (s t : RequestStatus) → is_final s ≡ true → can_transition s t ≡ false
unfolding can_transition
final_refuses s t final = ground arith

-- A request in a final status stays as it is.
pub transition-final :
    (s : Requests) (scope : Scope) (id : String) (next : RequestStatus) (now : Time) (k : String)
    (r : Request)
    → is_final r.status ≡ true
    → lookup k s.by_id ≡ some r
    → lookup k (transition s scope id next now).1.by_id ≡ some r
unfolding transition
transition-final s scope id next now k r final here = elim (Result-cases (validate scope)) [
  | inr (e, invalid) ↦ rw invalid here
  | inl (_, valid) ↦ elim (Result-cases (find scope_of s.by_id scope id)) [
    | inr (e, missing) ↦ rw (valid, missing) here
    | inl (u, found) ↦ elim (Bool-cases (can_transition u.status next)) [
      | inr refused ↦ rw (valid, found, refused) here
      | inl permitted ↦ elim (Bool-cases (id == k)) [
        | inr other ↦ rw (valid, found, permitted, lookup-insert, other) here
        | inl this ↦
            let same : id ≡ k = eq_of_true id k this in
            let one : u ≡ r = cc (find-lookup scope_of s.by_id scope id found, here, same) in
            let refused = final_refuses r.status next final in
            absurd (ground (arith, rw one at permitted, refused))
      ]
    ]
  ]
]
