-- ===== src/Resource/Scope.antt =====
-- internal/domain/resource/scope.go.
use Prim.Native.String.{◌++◌}
use auto_cert_x.Prelude.{
  String, ◌≡◌, refl, Bool, true, ◌&&◌, ok, ◌>>◌, reject_if, arith, ◌==◌, eq_iff,
}
use auto_cert_x.Resource.Errors.{Answer, validation}

pub record Scope : Type 0 where
  pub tenant_id : String
  pub project_id : String
  pub environment_id : String

unfoldable pub validate : Scope → Answer Unit
validate s = do
  reject_if (s.tenant_id == "") validation
  reject_if (s.project_id == "") validation
  reject_if (s.environment_id == "") validation
  ok tt

unfoldable pub equals : Scope → Scope → Bool
equals s o =
    s.tenant_id == o.tenant_id
    && s.project_id == o.project_id
    && s.environment_id == o.environment_id

unfoldable pub environment_key : Scope → String
environment_key s = s.tenant_id ++ ("/" ++ (s.project_id ++ ("/" ++ s.environment_id)))

-- The test decides equality of scopes.
pub equals-eq : (s o : Scope) → equals s o ≡ true → s ≡ o
unfolding equals
equals-eq s o h = ground (
  arith,
  eq_iff s.tenant_id o.tenant_id,
  eq_iff s.project_id o.project_id,
  eq_iff s.environment_id o.environment_id,
)

pub equals_refl : (s : Scope) → equals s s ≡ true
unfolding equals
equals_refl s = ground (
  arith,
  eq_iff s.tenant_id s.tenant_id,
  eq_iff s.project_id s.project_id,
  eq_iff s.environment_id s.environment_id,
)

abbrev acme : Scope
acme = record { tenant_id = "a/b"; project_id = "c"; environment_id = "d" }

abbrev nested : Scope
nested = record { tenant_id = "a"; project_id = "b/c"; environment_id = "d" }

-- Two scopes share a key where an id holds a slash.
environment_key_shared : environment_key acme ≡ environment_key nested
unfolding environment_key
environment_key_shared = refl
