-- ===== src/AgentNode/Tokens.antt =====
-- Registration tokens of internal/domain/agentnode/service.go: made, and resolved before they expire.
use Prim.Native.String.{◌++◌, len}
use text.Mathlib.TextPositions.{len-append}
use auto_cert_x.Prelude.{
  ◌∙◌, subst, false_of_ne, ◌+◌, String, ◌≡◌, refl, sym, ap, false, ok, err, inl, inr, Result-cases,
  arith, ltb, ◌==◌, if◌then◌else◌,
}
use auto_cert_x.Text.{trim_space}
use auto_cert_x.Dict.{lookup-insert_self}
use auto_cert_x.Job.Clock.{Time}
use auto_cert_x.Resource.Errors.{unavailable}
use auto_cert_x.Resource.Scope.{Scope, validate}
use auto_cert_x.AgentNode.State.{RegistrationToken, Nodes}
use auto_cert_x.AgentNode.Normal.{without_dashes}
use auto_cert_x.AgentNode.Commands.{
  create_registration_token, resolve_registration_token, new_token, one_day,
}

named : (rest : String) → (("acx_" ++ rest) == "") ≡ false
named rest = false_of_ne ("acx_" ++ rest) "" (λ e.
    let long : 4 + len rest ≡ 0 = sym (len-append "acx_" rest) ∙ ap len e in absurd (omega arith))

-- A token whose text has no space round it resolves to itself for a day after it was created, and is
-- unavailable from then on.
pub token_round_trip :
    (s t : Nodes) (scope : Scope) (now later : Time) (fresh : String) {token : RegistrationToken}
    → create_registration_token s scope now fresh ≡ (ok token, t)
    → trim_space token.token ≡ token.token
    → resolve_registration_token t token.token later
      ≡ (if ltb later (now + one_day) then ok token else err unavailable)
unfolding create_registration_token resolve_registration_token
token_round_trip s t scope now later fresh {token} made trimmed =
    elim (Result-cases (validate scope)) [
      | inr (e, bad) ↦ absurd (cc (rw bad at made))
      | inl (_, valid) ↦
          let answer = rw valid at made in
          let is_token : new_token scope now fresh ≡ token = cc in
          let stored = ap (λ x. x.1) answer in
          let same : trim_space (new_token scope now fresh).token
              ≡ (new_token scope now fresh).token =
            subst (λ (x : RegistrationToken). trim_space x.token ≡ x.token) (sym is_token)
              trimmed in
          rw (sym is_token, sym stored)
            (rw (same, named (without_dashes fresh), lookup-insert_self) refl)
    ]
