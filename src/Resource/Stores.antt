-- ===== src/Resource/Stores.antt =====
-- What the services of internal/domain have in common: records under their ids, each in a scope,
-- an index by a key inside the scope, and one step from a state to a state under the mutex.
use Prim.Native.String.{◌++◌, compare}
use text.Mathlib.Text.{is_lt}
use auto_cert_x.Prelude.{String, ◌≡◌, none, some, List, map, ok, err, arith, if◌then◌else◌}
use auto_cert_x.Prelude.Sorting.{filter, sort_by}
use auto_cert_x.Dict.{Dict, lookup}
use auto_cert_x.Resource.Errors.{Answer, not_found, scope_mismatch}
use auto_cert_x.Resource.Scope.{Scope, equals, equals-eq, environment_key}

-- A failed method leaves the state as it was.
abbrev pub commit : {S A : Type 0} → S → Answer (A × S) → Answer A × S
commit s (ok (a, t)) = (ok a, t)
commit s (err e) = (err e, s)

-- a key inside the environment of a scope
abbrev pub scoped_key : Scope → String → String
scoped_key scope name = environment_key scope ++ ("/" ++ name)

module _ {A : Type 0} (scope_of : A → Scope) where
  -- `record, ok := s.byID[id]`, and the test of its scope
  unfoldable pub find : Dict A → Scope → String → Answer A
  find records scope id = elim (lookup id records) [
    | none ↦ err not_found
    | some a ↦ if equals (scope_of a) scope then ok a else err scope_mismatch
  ]

  pub find-lookup :
      (records : Dict A) (scope : Scope) (id : String) {a : A}
      → find records scope id ≡ ok a
      → lookup id records ≡ some a
  unfolding find
  find-lookup records scope id h = ground arith

  pub find-scope :
      (records : Dict A) (scope : Scope) (id : String) {a : A}
      → find records scope id ≡ ok a
      → scope_of a ≡ scope
  unfolding find
  find-scope records scope id {a} h = ground (arith, equals-eq (scope_of a) scope)

  -- the records of a scope, ordered by a name
  unfoldable pub listed : (A → String) → Dict A → Scope → List A
  unfolding filter sort_by
  listed name records scope =
      sort_by (λ left right. is_lt (compare (name left) (name right)))
        (filter (λ a. equals (scope_of a) scope) (map (λ e. e.1) records))
