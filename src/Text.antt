-- ===== src/Text.antt =====
-- Go's `strings.TrimSpace`, as the whole program uses it on its text inputs. A text is a sequence
-- of code points (a Go string that is valid UTF-8).
use Prim.Native.Char.{Char, code}
use Prim.Native.String.{[], ◌∷◌}
use auto_cert_x.Prelude.{
  ℕ, String, ◌≡◌, refl, ap, inl, inr, Bool, true, false, ◌&&◌, ◌||◌, leb, eqb, Bool-cases,
  if◌then◌else◌,
}

-- `unicode.IsSpace`
unfoldable pub is_space : ℕ → Bool
is_space c =
    (leb 9 c && leb c 13)
    || eqb c 32
    || eqb c 0x85
    || eqb c 0xa0
    || eqb c 0x1680
    || (leb 0x2000 c && leb c 0x200a)
    || eqb c 0x2028
    || eqb c 0x2029
    || eqb c 0x202f
    || eqb c 0x205f
    || eqb c 0x3000

trim_left : String → String
trim_left [] = []
trim_left (c ∷ s) = if is_space (code c) then trim_left s else c ∷ s

-- `c` in front of a text that ends in no space
keep_right : Char → String → String
keep_right c [] = if is_space (code c) then [] else c ∷ []
keep_right c (d ∷ s) = c ∷ d ∷ s

trim_right : String → String
unfolding keep_right
trim_right [] = []
trim_right (c ∷ s) = keep_right c (trim_right s)

-- `strings.TrimSpace`
unfoldable pub trim_space : String → String
unfolding trim_left trim_right is_space
trim_space s = trim_right (trim_left s)

trims : trim_space "  acme worker\t " ≡ "acme worker"
unfolding trim_space
trims = refl

trim_right-keep_right :
    (c : Char) (t : String) → trim_right t ≡ t → trim_right (keep_right c t) ≡ keep_right c t
unfolding trim_right
trim_right-keep_right c [] h = elim (Bool-cases (is_space (code c))) [
  | inl e ↦ rw e
  | inr e ↦ rw (e, e)
]
trim_right-keep_right c (d ∷ u) h = ap (λ t. keep_right c t) h

trim_right_idem : (s : String) → trim_right (trim_right s) ≡ trim_right s
unfolding trim_right
trim_right_idem [] = refl
trim_right_idem (c ∷ s) = trim_right-keep_right c (trim_right s) (trim_right_idem s)

abbrev NoLeadingSpace : String → Type 0
NoLeadingSpace [] = Unit
NoLeadingSpace (c ∷ s) = is_space (code c) ≡ false

trim_left-NoLeadingSpace : (s : String) → NoLeadingSpace (trim_left s)
unfolding trim_left
trim_left-NoLeadingSpace [] = tt
trim_left-NoLeadingSpace (c ∷ s) = elim (Bool-cases (is_space (code c))) [
  | inl e ↦ rw e (trim_left-NoLeadingSpace s)
  | inr e ↦ rw e e
]

keep_right-NoLeadingSpace :
    (c : Char) (s : String) → is_space (code c) ≡ false → NoLeadingSpace (keep_right c s)
unfolding keep_right
keep_right-NoLeadingSpace c [] e = rw e e
keep_right-NoLeadingSpace c (d ∷ s) e = e

trim_right-NoLeadingSpace : (s : String) → NoLeadingSpace s → NoLeadingSpace (trim_right s)
unfolding trim_right
trim_right-NoLeadingSpace [] h = tt
trim_right-NoLeadingSpace (c ∷ s) h = keep_right-NoLeadingSpace c (trim_right s) h

trim_left_of_NoLeadingSpace : (s : String) → NoLeadingSpace s → trim_left s ≡ s
unfolding trim_left
trim_left_of_NoLeadingSpace [] h = refl
trim_left_of_NoLeadingSpace (c ∷ s) h = rw h

-- Trimming a trimmed text changes nothing.
pub trim_space_idem : (s : String) → trim_space (trim_space s) ≡ trim_space s
unfolding trim_space
trim_space_idem s =
    rw
      (trim_left_of_NoLeadingSpace (trim_right (trim_left s))
        (trim_right-NoLeadingSpace (trim_left s) (trim_left-NoLeadingSpace s)))
      (trim_right_idem (trim_left s))

-- `strings.ToLower`: a rune at a time, by `unicode.ToLower`, whose table is the parameter `lower`.
unfoldable pub to_lower : (Char → Char) → String → String
to_lower lower [] = []
to_lower lower (c ∷ s) = lower c ∷ to_lower lower s

-- `strings.ToLower(strings.TrimSpace(s))`
abbrev pub lowered : (Char → Char) → String → String
lowered lower s = to_lower lower (trim_space s)

-- `strings.HasPrefix`
unfoldable pub has_prefix : String → String → Bool
has_prefix [] s = true
has_prefix (p ∷ prefix) [] = false
has_prefix (p ∷ prefix) (c ∷ s) =
    let rest = has_prefix prefix s in if eqb (code p) (code c) then rest else false

-- `strings.Contains`
unfoldable pub contains : String → String → Bool
unfolding has_prefix
contains part [] = has_prefix part []
contains part (c ∷ s) = has_prefix part (c ∷ s) || contains part s

-- `strings.TrimSuffix(s, ".")`
unfoldable pub trim_dot : String → String
trim_dot [] = []
trim_dot (c ∷ []) = if eqb (code c) b'.' then [] else c ∷ []
trim_dot (c ∷ d ∷ s) = c ∷ trim_dot (d ∷ s)

dotted : trim_dot "example.org." ≡ "example.org"
unfolding trim_dot
dotted = refl

has_star : has_prefix "*." "*.example.org" ≡ true
unfolding has_prefix
has_star = refl

in_the_middle : contains "staging" "acme-staging-v02" ≡ true
unfolding contains
in_the_middle = refl
