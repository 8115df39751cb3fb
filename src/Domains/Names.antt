-- ===== src/Domains/Names.antt =====
-- The index by name of internal/domain/domains/service.go: names are unique in an environment.
use auto_cert_x.Prelude.{
  ok-injective, reject_if-passed, String, ◌≡◌, ◌≢◌, refl, sym, ap, ◌∙◌, subst, some, inl, inr, ok,
  Bool-cases, arith, ◌==◌, eq_iff, eq_of_true, ne_of_false,
}
use auto_cert_x.Dict.{
  Dict, lookup, insert, remove, lookup-insert, lookup-insert_self, lookup-remove,
}
use auto_cert_x.Resource.Errors.{conflict}
use auto_cert_x.Resource.Stores.{scoped_key}
use auto_cert_x.Domains.State.{Domain, Governed}
use auto_cert_x.Domains.Commands.{taken_by_other, renamed}

abbrev pub key_of : Domain → String
key_of d = scoped_key d.scope d.name

-- A domain under its own id, which its name in its environment leads to.
pub record IsIndexed (names : Dict String) (k : String) (d : Domain) : Type 0 where
  pub own : d.id ≡ k
  pub named : lookup (key_of d) names ≡ some k

pub record IsConsistent (s : Governed) : Type 0 where
  pub indexed : (k : String) (d : Domain) → lookup k s.by_id ≡ some d → IsIndexed s.by_name k d
  -- a name that leads to an id leads to the domain of that name
  pub stored :
      (key k : String)
      → lookup key s.by_name ≡ some k
      → (d : Domain) × (lookup k s.by_id ≡ some d) × (key_of d ≡ key)

-- Two domains of a consistent service with the same scope and name are one.
pub same_name :
    (s : Governed) (k j : String) (d e : Domain)
    → IsConsistent s
    → lookup k s.by_id ≡ some d
    → lookup j s.by_id ≡ some e
    → d.scope ≡ e.scope
    → d.name ≡ e.name
    → k ≡ j
same_name s k j d e c at_k at_j scopes names =
    let first = (c.indexed k d at_k).named in
    let second = (c.indexed j e at_j).named in
    let keys : key_of d ≡ key_of e = rw (scopes, names) refl in
    let meet : lookup (key_of d) s.by_name ≡ some j =
      subst (λ x. lookup x s.by_name ≡ some j) (sym keys) second in
    ground (arith, first, meet)

-- The state after a domain is written under its id, with an index that leads to it and is otherwise
-- kept, but for the name that the domain had.
module _ (s : Governed) (k : String) (d : Domain) (names : Dict String) (c : IsConsistent s)
    (own : d.id ≡ k) (named : lookup (key_of d) names ≡ some k)
    (kept : (j : String) (e : Domain)
      → k ≢ j
      → lookup j s.by_id ≡ some e
      → lookup (key_of e) names ≡ some j)
    (back : (key j : String) → lookup key names ≡ some j → k ≢ j → lookup key s.by_name ≡ some j)
    (only : (key : String) → lookup key names ≡ some k → key_of d ≡ key) where
  abbrev written : Governed
  written = record s { by_id = insert k d s.by_id; by_name = names }

  written-IsIndexed :
      (j : String) (e : Domain) → lookup j written.by_id ≡ some e → IsIndexed names j e
  written-IsIndexed j e there = elim (Bool-cases (k == j)) [
    | inl same ↦
        let is_d : some d ≡ some e = ground (arith, lookup-insert k j d s.by_id) in
        let eq : d ≡ e = ground arith in
        subst (λ x. IsIndexed names x e) (eq_of_true k j same)
          (subst (λ x. IsIndexed names k x) eq (record { own = own; named = named }))
    | inr other ↦
        let before : lookup j s.by_id ≡ some e = ground (arith, lookup-insert k j d s.by_id) in
        record { own = (c.indexed j e before).own; named = kept j e (ne_of_false k j other) before }
  ]

  written-stored :
      (key j : String)
      → lookup key names ≡ some j
      → (e : Domain) × (lookup j written.by_id ≡ some e) × (key_of e ≡ key)
  written-stored key j there = elim (Bool-cases (k == j)) [
    | inl same ↦
        let at_k = subst (λ x. lookup key names ≡ some x) (sym (eq_of_true k j same)) there in
        (d, ground (arith, lookup-insert k j d s.by_id), only key at_k)
    | inr other ↦
        let (e, at, its) = c.stored key j (back key j there (ne_of_false k j other)) in
        (e, ground (arith, lookup-insert k j d s.by_id), its)
  ]

  pub written-IsConsistent : IsConsistent written
  written-IsConsistent = record { indexed = written-IsIndexed; stored = written-stored }

module _ (s : Governed) (c : IsConsistent s) where
  -- a domain is also found under its own id
  pub own_lookup :
      (id : String) (d : Domain) → lookup id s.by_id ≡ some d → lookup d.id s.by_id ≡ some d
  own_lookup id d here = subst (λ x. lookup x s.by_id ≡ some d) (sym (c.indexed id d here).own) here

  -- The index after a domain that was found takes a new name.
  pub renamed-named :
      (d : Domain) (name : String) {names : Dict String}
      → lookup d.id s.by_id ≡ some d
      → renamed s d name ≡ ok names
      → lookup (scoped_key d.scope name) names ≡ some d.id
  unfolding renamed
  renamed-named d name {names} here h =
      let old = (c.indexed d.id d here).named in
      elim (Bool-cases (scoped_key d.scope name == key_of d)) [
        | inl same ↦
            let index : s.by_name ≡ names = ok-injective (rw same at h) in
            rw (sym index, eq_of_true (scoped_key d.scope name) (key_of d) same) old
        | inr changed ↦
            let (_, made) =
              reject_if-passed (taken_by_other d.id (lookup (scoped_key d.scope name) s.by_name))
                conflict _ (rw changed at h) in
            rw (sym (ok-injective made))
              (lookup-insert_self (scoped_key d.scope name) d.id (remove (key_of d) s.by_name))
      ]

  pub renamed-kept :
      (d : Domain) (name : String) (j : String) (e : Domain) {names : Dict String}
      → lookup d.id s.by_id ≡ some d
      → renamed s d name ≡ ok names
      → d.id ≢ j
      → lookup j s.by_id ≡ some e
      → lookup (key_of e) names ≡ some j
  unfolding renamed
  renamed-kept d name j e {names} here h other there =
      let old = (c.indexed d.id d here).named in
      let before = (c.indexed j e there).named in
      let new_key = scoped_key d.scope name in
      elim (Bool-cases (new_key == key_of d)) [
        | inl same ↦ subst (λ x. lookup (key_of e) x ≡ some j) (ok-injective (rw same at h)) before
        | inr changed ↦
            let (free, made) =
              reject_if-passed (taken_by_other d.id (lookup new_key s.by_name)) conflict _
                (rw changed at h) in
            subst (λ x. lookup (key_of e) x ≡ some j) (ok-injective made)
              (elim (Bool-cases (new_key == key_of e)) [
                | inl taken ↦
                    let at_new : lookup new_key s.by_name ≡ some j =
                      rw (eq_of_true new_key (key_of e) taken) before in
                    absurd (ground (arith, rw at_new at free, eq_iff j d.id))
                | inr apart ↦ ground (
                  arith,
                  before,
                  old,
                  lookup-insert new_key (key_of e) d.id (remove (key_of d) s.by_name),
                  lookup-remove (key_of d) (key_of e) s.by_name,
                  eq_iff (key_of d) (key_of e),
                )
              ])
      ]

  pub renamed-back :
      (d : Domain) (name key j : String) {names : Dict String}
      → renamed s d name ≡ ok names
      → lookup key names ≡ some j
      → d.id ≢ j
      → lookup key s.by_name ≡ some j
  unfolding renamed
  renamed-back d name key j {names} h there other =
      let new_key = scoped_key d.scope name in
      elim (Bool-cases (new_key == key_of d)) [
        | inl same ↦ subst (λ x. lookup key x ≡ some j) (sym (ok-injective (rw same at h))) there
        | inr changed ↦
            let (_, made) =
              reject_if-passed (taken_by_other d.id (lookup new_key s.by_name)) conflict _
                (rw changed at h) in
            let found = subst (λ x. lookup key x ≡ some j) (sym (ok-injective made)) there in
            ground (
              arith,
              found,
              lookup-insert new_key key d.id (remove (key_of d) s.by_name),
              lookup-remove (key_of d) key s.by_name,
            )
      ]

  -- Only the new name leads to the domain: the entry of the old one is gone.
  pub renamed-only :
      (d : Domain) (name key : String) {names : Dict String}
      → lookup d.id s.by_id ≡ some d
      → renamed s d name ≡ ok names
      → lookup key names ≡ some d.id
      → scoped_key d.scope name ≡ key
  unfolding renamed
  renamed-only d name key {names} here h there =
      let new_key = scoped_key d.scope name in
      let was_old : (k : String) → lookup k s.by_name ≡ some d.id → key_of d ≡ k = λ k at.
        let (e, at_id, its) = c.stored k d.id at in
        let one : d ≡ e = ground (arith, here, at_id) in ap key_of one ∙ its in
      elim (Bool-cases (new_key == key_of d)) [
        | inl same ↦
            eq_of_true new_key (key_of d) same
            ∙ was_old key
                (subst (λ x. lookup key x ≡ some d.id) (sym (ok-injective (rw same at h))) there)
        | inr changed ↦
            let (_, made) =
              reject_if-passed (taken_by_other d.id (lookup new_key s.by_name)) conflict _
                (rw changed at h) in
            let found = subst (λ x. lookup key x ≡ some d.id) (sym (ok-injective made)) there in
            elim (Bool-cases (new_key == key)) [
              | inl new ↦ eq_of_true new_key key new
              | inr not_new ↦
                  let left : lookup key (remove (key_of d) s.by_name) ≡ some d.id =
                    ground (
                      arith,
                      found,
                      lookup-insert new_key key d.id (remove (key_of d) s.by_name),
                    ) in
                  elim (Bool-cases (key_of d == key)) [
                    | inl old ↦
                        absurd (ground (arith, left, lookup-remove (key_of d) key s.by_name))
                    | inr not_old ↦
                        let before : lookup key s.by_name ≡ some d.id =
                          ground (arith, left, lookup-remove (key_of d) key s.by_name) in
                        absurd (ne_of_false (key_of d) key not_old (was_old key before))
                  ]
            ]
      ]
