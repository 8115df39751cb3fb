-- ===== src/Prelude/Membership.antt =====
-- Elements of lists, and what mapping, filtering and sorting do to them.
use mathlib.Core.Path.{◌≡◌, refl, sym, ◌∙◌, ap}
use mathlib.Core.Logic.{◌⊎◌, inl, inr}
use mathlib.Core.Bool.{Bool, true}
use mathlib.Core.List.{List, [], ◌∷◌, map}
use auto_cert_x.Prelude.Tests.{Bool-cases}
use auto_cert_x.Prelude.Sorting.{insert_sorted, sort_by, filter}

abbrev pub IsIn : {A : Type 0} → A → List A → Type 0
IsIn a [] = ⊥
IsIn a (x ∷ xs) = (x ≡ a) ⊎ IsIn a xs

module _ {A : Type 0} (less : A → A → Bool) where
  insert_sorted-IsIn : (x a : A) (ys : List A) → IsIn a (insert_sorted less x ys) → IsIn a (x ∷ ys)
  unfolding insert_sorted
  insert_sorted-IsIn x a [] h = h
  insert_sorted-IsIn x a (y ∷ ys) h = elim (Bool-cases (less y x)) [
    | inr ahead ↦ rw ahead at h
    | inl behind ↦ elim (rw behind at h) [
      | inl e ↦ inr (inl e)
      | inr rest ↦ elim (insert_sorted-IsIn x a ys rest) [
        | inl e ↦ inl e
        | inr later ↦ inr (inr later)
      ]
    ]
  ]

  IsIn-insert_sorted : (x a : A) (ys : List A) → IsIn a (x ∷ ys) → IsIn a (insert_sorted less x ys)
  unfolding insert_sorted
  IsIn-insert_sorted x a [] h = h
  IsIn-insert_sorted x a (y ∷ ys) h = elim (Bool-cases (less y x)) [
    | inr ahead ↦ rw ahead h
    | inl behind ↦ rw behind (elim h [
      | inl e ↦ inr (IsIn-insert_sorted x a ys (inl e))
      | inr rest ↦ elim rest [
        | inl e ↦ inl e
        | inr later ↦ inr (IsIn-insert_sorted x a ys (inr later))
      ]
    ])
  ]

  -- Sorting loses nothing and adds nothing.
  pub sort_by-IsIn : (a : A) (xs : List A) → IsIn a (sort_by less xs) → IsIn a xs
  unfolding sort_by
  sort_by-IsIn a [] h = h
  sort_by-IsIn a (x ∷ xs) h = elim (insert_sorted-IsIn x a (sort_by less xs) h) [
    | inl e ↦ inl e
    | inr rest ↦ inr (sort_by-IsIn a xs rest)
  ]

  pub IsIn-sort_by : (a : A) (xs : List A) → IsIn a xs → IsIn a (sort_by less xs)
  unfolding sort_by
  IsIn-sort_by a [] h = h
  IsIn-sort_by a (x ∷ xs) (inl e) = IsIn-insert_sorted x a (sort_by less xs) (inl e)
  IsIn-sort_by a (x ∷ xs) (inr later) =
      IsIn-insert_sorted x a (sort_by less xs) (inr (IsIn-sort_by a xs later))

module _ {A : Type 0} (p : A → Bool) where
  pub filter-IsIn : (a : A) (xs : List A) → IsIn a (filter p xs) → IsIn a xs × (p a ≡ true)
  unfolding filter
  filter-IsIn a [] h = absurd h
  filter-IsIn a (x ∷ xs) h = elim (Bool-cases (p x)) [
    | inr dropped ↦ let (later, holds) = filter-IsIn a xs (rw dropped at h) in (inr later, holds)
    | inl kept ↦ elim (rw kept at h) [
      | inl e ↦ (inl e, ap p (sym e) ∙ kept)
      | inr rest ↦ let (later, holds) = filter-IsIn a xs rest in (inr later, holds)
    ]
  ]

  pub IsIn-filter : (a : A) (xs : List A) → IsIn a xs → p a ≡ true → IsIn a (filter p xs)
  unfolding filter
  IsIn-filter a [] h holds = absurd h
  IsIn-filter a (x ∷ xs) (inl e) holds = let kept : p x ≡ true = ap p e ∙ holds in rw kept (inl e)
  IsIn-filter a (x ∷ xs) (inr later) holds = elim (Bool-cases (p x)) [
    | inl kept ↦ rw kept (inr (IsIn-filter a xs later holds))
    | inr dropped ↦ rw dropped (IsIn-filter a xs later holds)
  ]

module _ {A B : Type 0} (f : A → B) where
  pub map-IsIn : (b : B) (xs : List A) → IsIn b (map f xs) → (a : A) × IsIn a xs × (f a ≡ b)
  map-IsIn b [] h = absurd h
  map-IsIn b (x ∷ xs) (inl e) = (x, inl refl, e)
  map-IsIn b (x ∷ xs) (inr later) = let (a, there, e) = map-IsIn b xs later in (a, inr there, e)

  pub IsIn-map : (a : A) (xs : List A) → IsIn a xs → IsIn (f a) (map f xs)
  IsIn-map a [] h = absurd h
  IsIn-map a (x ∷ xs) (inl e) = inl (ap f e)
  IsIn-map a (x ∷ xs) (inr later) = inr (IsIn-map a xs later)
