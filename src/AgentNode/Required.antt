-- ===== src/AgentNode/Required.antt =====
-- The capabilities that `normalizeCapabilities` of internal/domain/agentnode/service.go keeps, beside
-- those that were given.
use Prim.Native.Char.{Char}
use auto_cert_x.Prelude.{
  suc, ◌≤◌, String, ◌≡◌, refl, sym, ap, ◌∙◌, subst, not, ◌&&◌, List, [], ◌∷◌, map, length, inl, inr,
  Bool, Bool-cases, arith,
}
use auto_cert_x.Prelude.Sorting.{insert_sorted, sort_by}
use auto_cert_x.Prelude.Membership.{IsIn, sort_by-IsIn, IsIn-sort_by}
use auto_cert_x.Text.{lowered}
use auto_cert_x.AgentNode.Normal.{
  valid_capability, has, kept_capabilities, text_before, normalize_capabilities,
}
use auto_cert_x.AgentNode.Suitable.{AllIn}

length-insert_sorted :
    {A : Type 0} (less : A → A → Bool) (x : A) (ys : List A)
    → length (insert_sorted less x ys) ≡ suc (length ys)
unfolding insert_sorted
length-insert_sorted less x [] = refl
length-insert_sorted less x (y ∷ ys) = elim (Bool-cases (less y x)) [
  | inl behind ↦ rw behind (ap suc (length-insert_sorted less x ys))
  | inr ahead ↦ rw ahead refl
]

length-sort_by :
    {A : Type 0} (less : A → A → Bool) (xs : List A) → length (sort_by less xs) ≡ length xs
unfolding sort_by
length-sort_by less [] = refl
length-sort_by less (x ∷ xs) =
    length-insert_sorted less x (sort_by less xs) ∙ ap suc (length-sort_by less xs)

module _ (lower : Char → Char) where
  abbrev is_fresh : List String → String → Bool
  is_fresh seen item = valid_capability (lowered lower item) && not (has (lowered lower item) seen)

  length-kept :
      (seen items : List String) → length (kept_capabilities lower seen items) ≤ length items
  unfolding kept_capabilities
  length-kept seen [] = omega arith
  length-kept seen (item ∷ later) = elim (Bool-cases (is_fresh seen item)) [
    | inl fresh ↦ let rest = length-kept (lowered lower item ∷ seen) later in rw fresh (omega arith)
    | inr dropped ↦ let rest = length-kept seen later in rw dropped (omega arith)
  ]

  kept-IsIn :
      (code : String) (seen items : List String)
      → IsIn code (kept_capabilities lower seen items)
      → IsIn code (map (lowered lower) items)
  unfolding kept_capabilities
  kept-IsIn code seen [] h = h
  kept-IsIn code seen (item ∷ later) h = elim (Bool-cases (is_fresh seen item)) [
    | inl fresh ↦ elim (rw fresh at h) [
      | inl e ↦ inl e
      | inr rest ↦ inr (kept-IsIn code (lowered lower item ∷ seen) later rest)
    ]
    | inr dropped ↦ inr (kept-IsIn code seen later (rw dropped at h))
  ]

  -- Where as many are kept as were given, nothing was dropped.
  kept_all :
      (seen items : List String)
      → length (kept_capabilities lower seen items) ≡ length items
      → kept_capabilities lower seen items ≡ map (lowered lower) items
  unfolding kept_capabilities
  kept_all seen [] h = refl
  kept_all seen (item ∷ later) h = elim (Bool-cases (is_fresh seen item)) [
    | inl fresh ↦
        let counted = rw fresh at h in
        rw fresh (
          ap (λ rest. lowered lower item ∷ rest)
            (kept_all (lowered lower item ∷ seen) later (omega arith)))
    | inr dropped ↦
        let counted = rw dropped at h in let fewer = length-kept seen later in absurd (omega arith)
  ]

-- what every code of a list has
AllIn-every :
    (codes others : List String)
    → AllIn codes others
    → (code : String) → IsIn code codes
    → IsIn code others
AllIn-every [] others h code there = absurd there
AllIn-every (first ∷ later) others (here, rest) code (inl e) = subst (λ x. IsIn x others) e here
AllIn-every (first ∷ later) others (here, rest) code (inr further) =
    AllIn-every later others rest code further

every-AllIn :
    (codes others : List String)
    → ((code : String) → IsIn code codes → IsIn code others)
    → AllIn codes others
every-AllIn [] others every = tt
every-AllIn (first ∷ later) others every =
    (every first (inl refl), every-AllIn later others (λ code there. every code (inr there)))

-- An agent that has the normal codes has all that were given, where none was dropped.
pub AllIn-required :
    (lower : Char → Char) (required actual : List String)
    → length (normalize_capabilities lower required) ≡ length required
    → AllIn (normalize_capabilities lower required) actual
    → AllIn (map (lowered lower) required) actual
unfolding normalize_capabilities
AllIn-required lower required actual counted h =
    let kept = kept_capabilities lower [] required in
    let all = kept_all lower [] required (sym (length-sort_by text_before kept) ∙ counted) in
    every-AllIn (map (lowered lower) required) actual (λ code there.
      AllIn-every (normalize_capabilities lower required) actual h code
        (IsIn-sort_by text_before code kept (subst (IsIn code) (sym all) there)))

pub AllIn-normal :
    (lower : Char → Char) (required actual : List String)
    → AllIn (map (lowered lower) required) actual
    → AllIn (normalize_capabilities lower required) actual
unfolding normalize_capabilities
AllIn-normal lower required actual h =
    every-AllIn (normalize_capabilities lower required) actual (λ code there.
      AllIn-every (map (lowered lower) required) actual h code (
        kept-IsIn lower code [] required
          (sort_by-IsIn text_before code (kept_capabilities lower [] required) there)))
