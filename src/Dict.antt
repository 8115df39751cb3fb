-- ===== src/Dict.antt =====
-- Go's `map[string]V`: an association list with the laws of reading and writing. `keys` lists the
-- keys in one of the orders in which a `range` loop may meet them.
use auto_cert_x.Prelude.{
  String, ◌≡◌, refl, ◌≢◌, Option, none, some, List, [], ◌∷◌, arith, ◌==◌, eq_iff, if◌then◌else◌,
}

abbrev pub Dict : Type 0 → Type 0
Dict V = List (String × V)

module _ {V : Type 0} where
  unfoldable pub lookup : String → Dict V → Option V
  lookup key [] = none
  lookup key ((held, value) ∷ others) = if held == key then some value else lookup key others

  unfoldable pub insert : String → V → Dict V → Dict V
  insert key value [] = (key, value) ∷ []
  insert key value ((held, old) ∷ others) =
      if held == key then (key, value) ∷ others else (held, old) ∷ insert key value others

  -- `delete`
  unfoldable pub remove : String → Dict V → Dict V
  remove key [] = []
  remove key ((held, value) ∷ others) =
      let rest = remove key others in if held == key then rest else (held, value) ∷ rest

  pub lookup-remove :
      (removed asked : String) (dict : Dict V)
      → lookup asked (remove removed dict) ≡ (if removed == asked then none else lookup asked dict)
  unfolding lookup remove
  lookup-remove removed asked [] = ground arith
  lookup-remove removed asked ((held, value) ∷ others) =
      let later = lookup-remove removed asked others in
      ground (arith, later, eq_iff held removed, eq_iff held asked, eq_iff removed asked)

  pub lookup-insert :
      (written asked : String) (value : V) (dict : Dict V)
      → lookup asked (insert written value dict)
        ≡ (if written == asked then some value else lookup asked dict)
  unfolding lookup insert
  lookup-insert written asked value [] = refl
  lookup-insert written asked value ((held, old) ∷ others) =
      let later = lookup-insert written asked value others in
      ground (arith, later, eq_iff held written, eq_iff held asked, eq_iff written asked)

module _ {V : Type 0} where
  pub lookup-insert_self : (k : String) (v : V) (m : Dict V) → lookup k (insert k v m) ≡ some v
  lookup-insert_self k v m = ground (arith, lookup-insert k k v m, eq_iff k k)

  pub lookup-insert_ne :
      (k j : String) (v : V) (m : Dict V) → k ≢ j → lookup j (insert k v m) ≡ lookup j m
  lookup-insert_ne k j v m h = ground (arith, lookup-insert k j v m, eq_iff k j)

  -- A missing key reads as the zero value, as in `m[k]` for a map of slices.
  unfoldable pub lookup_list : String → Dict (List V) → List V
  unfolding lookup
  lookup_list k m = elim (lookup k m) [ none ↦ [] | some xs ↦ xs ]

  pub lookup_list-insert :
      (k j : String) (xs : List V) (m : Dict (List V))
      → lookup_list j (insert k xs m) ≡ (if k == j then xs else lookup_list j m)
  unfolding lookup_list
  lookup_list-insert k j xs m = ground (arith, lookup-insert k j xs m)
