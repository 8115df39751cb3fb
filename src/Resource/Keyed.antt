-- ===== src/Resource/Keyed.antt =====
-- The records of a service of internal/domain under their own ids, and what a method that writes at
-- most one of them keeps.
use auto_cert_x.Prelude.{
  String, ◌≡◌, refl, Bool-cases, some, inl, inr, ok, err, arith, ◌==◌, eq_of_true,
}
use auto_cert_x.Dict.{Dict, lookup, insert, lookup-insert}
use auto_cert_x.Resource.Errors.{Answer}
use auto_cert_x.Resource.Stores.{commit}

-- A property of the state that a method has wherever it succeeds, and had before.
pub commit-keeps :
    {S A : Type 0} (P : S → Type 0) (s : S) (m : Answer (A × S))
    → ((a : A) (t : S) → m ≡ ok (a, t) → P t)
    → P s
    → P (commit s m).1
commit-keeps P s (ok (a, t)) written before = written a t refl
commit-keeps P s (err e) written before = before

module _ {A : Type 0} (id_of : A → String) where
  abbrev pub IsKeyed : Dict A → Type 0
  IsKeyed records = (k : String) (a : A) → lookup k records ≡ some a → id_of a ≡ k

  pub insert-IsKeyed :
      (records : Dict A) (k : String) (a : A)
      → id_of a ≡ k
      → IsKeyed records
      → IsKeyed (insert k a records)
  insert-IsKeyed records k a own keyed j b there = elim (Bool-cases (k == j)) [
    | inl same ↦ ground (arith, lookup-insert k j a records, eq_of_true k j same)
    | inr other ↦ keyed j b (ground (arith, lookup-insert k j a records))
  ]

  -- a record that was found under an id, under its own
  pub IsKeyed-lookup :
      (records : Dict A) (id : String) (a : A)
      → IsKeyed records
      → lookup id records ≡ some a
      → lookup (id_of a) records ≡ some a
  IsKeyed-lookup records id a keyed here = rw (keyed id a here) here
