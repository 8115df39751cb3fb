-- ===== src/JobService/BackoffBounds.antt =====
-- Bounds and the exact value of the retry delay of internal/application/command/jobs/service.go.
use native.Mathlib.Nat.{pow-suc}
use Prim.Native.Nat.{min}
use auto_cert_x.Prelude.{
  eqb, ℕ, zero, suc, ◌-◌, ◌*◌, ◌^◌, ◌≤◌, ◌<◌, ◌≡◌, refl, true, false, arith, Bool-cases, inl, inr,
}
use auto_cert_x.Prelude.Int.{ℤ, pos, ltb_ℤ, is_nonpos, ◌≤ℤ◌}
use auto_cert_x.Job.Clock.{Duration}
use auto_cert_x.JobService.Backoff.{
  Floats, BackoffPolicy, effective_initial, effective_maximum, effective_multiplier, delay_loop,
  delay, default_policy, exact,
}

-- What `Delay` relies on of `float64`: where a product fits, that is, is a number of nanoseconds below
-- 2 ^ 63, multiplying a positive delay by a number that is not below 1 does not shorten it. `NaN` is
-- not below 1 either, but no product with it fits.
pub record FloatLaws (fl : Floats) (Fits : fl.Float → Type 0) : Type 0 where
  pub grows :
      (x m : fl.Float)
      → fl.below_one m ≡ false
      → is_nonpos (fl.to_duration x) ≡ false
      → Fits (fl.mul x m)
      → fl.to_duration x ≤ℤ fl.to_duration (fl.mul x m)
  pub doubles : fl.below_one fl.two ≡ false

-- A policy that stays in range: its first delay survives the conversion to `float64`, which is so up to
-- 2 ^ 53 nanoseconds, and the product of the first delay, or of a positive delay below the maximum,
-- with the multiplier in force fits.
pub record IsModerate (fl : Floats) (Fits : fl.Float → Type 0) (p : BackoffPolicy fl.Float)
    : Type 0 where
  pub converts : fl.to_duration (fl.of_duration (effective_initial fl p)) ≡ effective_initial fl p
  pub starts : Fits (fl.mul (fl.of_duration (effective_initial fl p)) (effective_multiplier fl p))
  pub stays :
      (x : fl.Float)
      → is_nonpos (fl.to_duration x) ≡ false
      → ltb_ℤ (fl.to_duration x) (effective_maximum fl p) ≡ true
      → Fits (fl.mul x (effective_multiplier fl p))

≤ℤ_refl : (a : ℤ) → a ≤ℤ a
≤ℤ_refl a = ground arith

≤ℤ_trans : (a b c : ℤ) → a ≤ℤ b → b ≤ℤ c → a ≤ℤ c
≤ℤ_trans a b c h k = ground arith

positive_of_le : (a b : ℤ) → is_nonpos a ≡ false → a ≤ℤ b → is_nonpos b ≡ false
positive_of_le a b h k = ground arith

module _ (fl : Floats) where
  delay_loop-le-maximum :
      (maximum : Duration) (m : fl.Float) (rounds : ℕ) (x : fl.Float)
      → delay_loop fl maximum m rounds x ≤ℤ maximum
  unfolding delay_loop
  delay_loop-le-maximum maximum m zero x = ground (arith, ≤ℤ_refl maximum)
  delay_loop-le-maximum maximum m (suc rounds) x =
      ground (arith, ≤ℤ_refl maximum, delay_loop-le-maximum maximum m rounds (fl.mul x m))

  delay_loop_positive :
      (maximum : Duration) (m : fl.Float) (rounds : ℕ) (x : fl.Float)
      → ((y : fl.Float)
          → is_nonpos (fl.to_duration y) ≡ false
          → ltb_ℤ (fl.to_duration y) maximum ≡ true
          → fl.to_duration y ≤ℤ fl.to_duration (fl.mul y m))
      → fl.to_duration x ≤ℤ fl.to_duration (fl.mul x m)
      → is_nonpos maximum ≡ false
      → is_nonpos (fl.to_duration x) ≡ false
      → is_nonpos (delay_loop fl maximum m rounds x) ≡ false
  unfolding delay_loop
  delay_loop_positive maximum m zero x grows step hmax hx = ground arith
  delay_loop_positive maximum m (suc rounds) x grows step hmax hx =
      let next = fl.mul x m in
      let positive = positive_of_le (fl.to_duration x) (fl.to_duration next) hx step in
      elim (Bool-cases (ltb_ℤ (fl.to_duration next) maximum)) [
        | inl below ↦ rw below (
            delay_loop_positive maximum m rounds next grows (grows next positive below) hmax
              positive)
        | inr reached ↦ rw reached hmax
      ]

  effective_positive :
      (p : BackoffPolicy fl.Float)
      → (is_nonpos (effective_maximum fl p) ≡ false) × (is_nonpos (effective_initial fl p) ≡ false)
  unfolding effective_maximum effective_initial
  effective_positive p = ground arith

  -- The multiplier in force is not below 1, whatever the field says.
  multiplier_lem :
      (p : BackoffPolicy fl.Float)
      → fl.below_one fl.two ≡ false
      → fl.below_one (effective_multiplier fl p) ≡ false
  unfolding effective_multiplier
  multiplier_lem p two = elim (Bool-cases (fl.below_one p.multiplier)) [
    | inl below ↦ rw below two
    | inr enough ↦ rw enough enough
  ]

  -- For a policy that stays in the range of `float64` and of 64-bit nanoseconds (`IsModerate`), with
  -- arithmetic that keeps to `FloatLaws`, fields that are negative or zero and multipliers below 1
  -- included, and for every attempt count, the delay is positive and at most the maximum in force.
  pub delay_bounds :
      (Fits : fl.Float → Type 0) (p : BackoffPolicy fl.Float) (attempt_count : ℕ)
      → FloatLaws fl Fits
      → IsModerate fl Fits p
      → (is_nonpos (delay fl p attempt_count) ≡ false)
        × (delay fl p attempt_count ≤ℤ effective_maximum fl p)
  delay_bounds Fits p n laws moderate =
      let m = effective_multiplier fl p in
      let x = fl.of_duration (effective_initial fl p) in
      let enough = multiplier_lem p laws.doubles in
      let positive : is_nonpos (fl.to_duration x) ≡ false =
        rw moderate.converts (effective_positive p).1 in
      unfold delay in
      (
        delay_loop_positive (effective_maximum fl p) m (n - 1) x
            (λ y above below. laws.grows y m enough above (moderate.stays y above below))
            (laws.grows x m enough positive moderate.starts) (effective_positive p).0 positive,
        delay_loop-le-maximum (effective_maximum fl p) m (n - 1) x,
      )

suc-sub-one : (n : ℕ) → suc n - 1 ≡ n
suc-sub-one n = omega arith

doubles : (r x : ℕ) → x * 2 * 2 ^ r ≡ x * 2 ^ suc r
doubles r x = rw pow-suc (omega arith)

one-le-pow : (r : ℕ) → 1 ≤ 2 ^ r
one-le-pow zero = omega arith
one-le-pow (suc r) = rw pow-suc (omega (arith, one-le-pow r))

le-mul-pow : (r x : ℕ) → x ≤ x * 2 ^ r
le-mul-pow r x = grind (arith, one-le-pow r)

delay_loop-exact :
    (maximum rounds x : ℕ)
    → delay_loop exact (pos maximum) 2 rounds x ≡ pos (min (x * 2 ^ rounds) maximum)
unfolding delay_loop
delay_loop-exact maximum zero x = ground arith
delay_loop-exact maximum (suc rounds) x =
    ground
      (arith, delay_loop-exact maximum rounds (x * 2), le-mul-pow rounds (x * 2), doubles rounds x)

-- In exact arithmetic, under the default policy with its multiplier 2, the delay after the attempt
-- `n + 1` is five seconds doubled `n` times, capped at five minutes.
pub delay_default :
    (n : ℕ) → delay exact (default_policy 2) (suc n) ≡ pos (min (5000000000 * 2 ^ n) 300000000000)
unfolding delay
delay_default n = rw (suc-sub-one n) (delay_loop-exact 300000000000 n 5000000000)

le-mul_pos : (x m : ℕ) → eqb m 0 ≡ false → x ≤ x * m
le-mul_pos x m h = let positive : 0 < m = ground arith in grind arith

pos_le-mul_pos : (x m : ℕ) → eqb m 0 ≡ false → pos x ≤ℤ pos (x * m)
pos_le-mul_pos x m h = ground (arith, le-mul_pos x m h)

-- below 2 ^ 63
abbrev pub IsInt64 : ℕ → Type 0
IsInt64 n = n < 9223372036854775808

-- Exact arithmetic keeps to the laws.
pub exact-FloatLaws : FloatLaws exact IsInt64
exact-FloatLaws = record {
  grows = λ x m enough above fits. pos_le-mul_pos x m enough;
  doubles = refl;
}
