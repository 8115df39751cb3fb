-- ===== src/JobStore/Listing.antt =====
-- internal/application/command/jobs/memory_repository.go: `List`, the jobs of one scope by age.
use Prim.Native.String.{compare}
use auto_cert_x.Prelude.{Bool, ◌&&◌, List, map, ok, ◌>>◌, eqb, ◌==◌, if◌then◌else◌}
use auto_cert_x.Prelude.Sorting.{sort_by, filter}
use auto_cert_x.Job.Clock.{before}
use auto_cert_x.Job.Record.{Job}
use auto_cert_x.Resource.Errors.{Answer}
use auto_cert_x.Resource.Scope.{Scope, validate}
use text.Mathlib.Text.{is_lt}
use auto_cert_x.JobStore.State.{Store}

abbrev in_scope : Scope → Job → Bool
in_scope scope j =
    j.tenant_id == scope.tenant_id
    && j.project_id == scope.project_id
    && j.environment_id == scope.environment_id

abbrev listed_before : Job → Job → Bool
listed_before left right =
    if eqb left.created_at right.created_at
    then is_lt (compare left.id right.id)
    else before left.created_at right.created_at

unfoldable pub list : Store → Scope → Answer (List Job)
unfolding validate sort_by filter
list s scope = do
  validate scope
  ok (sort_by listed_before (filter (in_scope scope) (map (λ e. e.1) s.jobs)))
