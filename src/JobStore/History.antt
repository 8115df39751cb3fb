-- ===== src/JobStore/History.antt =====
-- The attempts of one job (internal/application/command/jobs/memory_repository.go): closed ones,
-- and at most one that is active, which is the last.
use auto_cert_x.Prelude.{
  ℕ, suc, ◌+◌, String, ◌≡◌, refl, subst, ◌∙◌, true, false, none, some, List, [], ◌∷◌, ◌++◌, All,
  arith, length, set,
}
use auto_cert_x.Job.Attempt.{Attempt, is_active}
use auto_cert_x.JobStore.State.{last_active}

-- every attempt has ended
abbrev pub Closed : List Attempt → Type 0
Closed = All (λ a. is_active a ≡ false)

-- the last attempt is active and belongs to `owner`, and the others have ended
abbrev pub OpenLast : String → List Attempt → Type 0
OpenLast owner [] = ⊥
OpenLast owner (a ∷ []) = (is_active a ≡ true) × (a.worker_id ≡ owner)
OpenLast owner (a ∷ b ∷ later) = (is_active a ≡ false) × OpenLast owner (b ∷ later)

-- the attempts are numbered from `n`
abbrev pub Numbered : ℕ → List Attempt → Type 0
Numbered n [] = Unit
Numbered n (a ∷ later) = (a.attempt_no ≡ n) × Numbered (suc n) later

pub last_active_of_Closed : (history : List Attempt) → Closed history → last_active history ≡ none
unfolding last_active
last_active_of_Closed [] h = refl
last_active_of_Closed (a ∷ later) h = rw (last_active_of_Closed later h.1, h.0)

-- What the backward scan finds: the last attempt, and its position.
pub record FoundAt (owner : String) (history : List Attempt) (a : Attempt) (i : ℕ) : Type 0 where
  pub found : last_active history ≡ some (a, i)
  pub active : is_active a ≡ true
  pub owned : a.worker_id ≡ owner
  pub closing : (b : Attempt) → is_active b ≡ false → Closed (set history i b)
  pub renewing :
      (b : Attempt) → is_active b ≡ true → b.worker_id ≡ owner → OpenLast owner (set history i b)
  pub numbering :
      (n : ℕ) (b : Attempt)
      → b.attempt_no ≡ a.attempt_no
      → Numbered n history
      → Numbered n (set history i b)

last_active-cons :
    (a b : Attempt) (i : ℕ) (later : List Attempt)
    → last_active later ≡ some (b, i)
    → last_active (a ∷ later) ≡ some (b, suc i)
unfolding last_active
last_active-cons a b i later h = rw h

OpenLast-cons :
    (a : Attempt) (owner : String) (later : List Attempt)
    → is_active a ≡ false
    → OpenLast owner later
    → OpenLast owner (a ∷ later)
OpenLast-cons a owner [] e h = absurd h
OpenLast-cons a owner (b ∷ later) e h = (e, h)

FoundAt-cons :
    (owner : String) (a : Attempt) (later : List Attempt) (b : Attempt) (i : ℕ)
    → is_active a ≡ false
    → FoundAt owner later b i
    → FoundAt owner (a ∷ later) b (suc i)
FoundAt-cons owner a later b i closed rest = record {
  found = last_active-cons a b i later rest.found;
  active = rest.active;
  owned = rest.owned;
  closing = λ c e. (closed, rest.closing c e);
  renewing = λ c e w. OpenLast-cons a owner (set later i c) closed (rest.renewing c e w);
  numbering = λ n c e m. (m.0, rest.numbering (suc n) c e m.1);
}

Open-FoundAt :
    (owner : String) (history : List Attempt)
    → OpenLast owner history
    → (a : Attempt) × (i : ℕ) × FoundAt owner history a i
unfolding last_active
Open-FoundAt owner [] h = absurd h
Open-FoundAt owner (a ∷ []) h = (
  a,
  0,
  record {
    found = rw h.0;
    active = h.0;
    owned = h.1;
    closing = λ b e. (e, tt);
    renewing = λ b e w. (e, w);
    numbering = λ n b e m. (e ∙ m.0, tt);
  },
)
Open-FoundAt owner (a ∷ b ∷ later) h =
    let (c, i, rest) = Open-FoundAt owner (b ∷ later) h.1 in
    (c, suc i, FoundAt-cons owner a (b ∷ later) c i h.0 rest)

pub FoundAt-of_active :
    (owner : String) (history : List Attempt) (a : Attempt) (i : ℕ)
    → OpenLast owner history
    → last_active history ≡ some (a, i)
    → FoundAt owner history a i
FoundAt-of_active owner history a i h e =
    let (b, k, f) = Open-FoundAt owner history h in
    let same : (b ≡ a) × (k ≡ i) = ground (arith, f.found) in
    subst (λ n. FoundAt owner history a n) same.1 (subst (λ x. FoundAt owner history x k) same.0 f)

pub active_of_OpenLast :
    (owner : String) (history : List Attempt)
    → OpenLast owner history
    → (a : Attempt) × (i : ℕ) × (last_active history ≡ some (a, i)) × FoundAt owner history a i
active_of_OpenLast owner history h =
    let (a, i, f) = Open-FoundAt owner history h in (a, i, f.found, f)

pub OpenLast-append :
    (owner : String) (history : List Attempt) (a : Attempt)
    → Closed history
    → is_active a ≡ true
    → a.worker_id ≡ owner
    → OpenLast owner (history ++ a ∷ [])
OpenLast-append owner [] a h e w = (e, w)
OpenLast-append owner (b ∷ later) a h e w =
    OpenLast-cons b owner (later ++ a ∷ []) h.0 (OpenLast-append owner later a h.1 e w)

pub Numbered-append :
    (n : ℕ) (history : List Attempt) (a : Attempt)
    → Numbered n history
    → a.attempt_no ≡ n + length history
    → Numbered n (history ++ a ∷ [])
Numbered-append n [] a h e = (omega arith, tt)
Numbered-append n (b ∷ later) a h e = (h.0, Numbered-append (suc n) later a h.1 (omega arith))
