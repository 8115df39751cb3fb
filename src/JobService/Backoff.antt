-- ===== src/JobService/Backoff.antt =====
-- internal/application/command/jobs/service.go: `BackoffPolicy.Delay`. Go's `float64` is a
-- parameter: the type and the operations that the method uses.
use auto_cert_x.Prelude.{ℕ, zero, suc, ◌-◌, ◌*◌, Bool, not, eqb, if◌then◌else◌}
use auto_cert_x.Prelude.Int.{pos, negsuc, ltb_ℤ, is_nonpos}
use auto_cert_x.Job.Clock.{Duration}

pub record Floats : Type 1 where
  pub Float : Type 0
  pub of_duration : Duration → Float
  pub to_duration : Float → Duration
  pub mul : Float → Float → Float
  pub below_one : Float → Bool
  pub two : Float

pub record BackoffPolicy (F : Type 0) : Type 0 where
  pub initial : Duration
  pub maximum : Duration
  pub multiplier : F

-- 5 seconds and 5 minutes, in nanoseconds
abbrev pub five_seconds : Duration
five_seconds = pos 5000000000

abbrev pub five_minutes : Duration
five_minutes = pos 300000000000

module _ (fl : Floats) where
  open fl use {Float, of_duration, to_duration, mul, below_one, two}

  unfoldable pub effective_initial : BackoffPolicy Float → Duration
  effective_initial p = if is_nonpos p.initial then five_seconds else p.initial

  unfoldable pub effective_maximum : BackoffPolicy Float → Duration
  effective_maximum p = if is_nonpos p.maximum then five_minutes else p.maximum

  unfoldable pub effective_multiplier : BackoffPolicy Float → Float
  effective_multiplier p = if below_one p.multiplier then two else p.multiplier

  -- `rounds` multiplications are left; one that reaches the maximum ends the loop.
  unfoldable pub delay_loop : Duration → Float → ℕ → Float → Duration
  delay_loop maximum multiplier zero delay =
      if ltb_ℤ maximum (to_duration delay) then maximum else to_duration delay
  delay_loop maximum multiplier (suc rounds) delay =
      let next = mul delay multiplier in
      let rest = delay_loop maximum multiplier rounds next in
      if not (ltb_ℤ (to_duration next) maximum) then maximum else rest

  -- `for i := 1; i < attemptCount; i++` makes `attemptCount - 1` rounds.
  unfoldable pub delay : BackoffPolicy Float → ℕ → Duration
  unfolding effective_initial effective_maximum effective_multiplier delay_loop
  delay p attempt_count =
      delay_loop (effective_maximum p) (effective_multiplier p) (attempt_count - 1)
        (of_duration (effective_initial p))

-- `DefaultBackoffPolicy`
abbrev pub default_policy : {F : Type 0} → F → BackoffPolicy F
default_policy multiplier = record {
  initial = five_seconds;
  maximum = five_minutes;
  multiplier = multiplier;
}

-- Exact arithmetic on whole nanoseconds. The default policy only doubles, which `float64` does
-- without rounding below its largest value.
abbrev pub exact : Floats
exact = record {
  Float = ℕ;
  of_duration = λ d. elim d [ pos n ↦ n | negsuc n ↦ 0 ];
  to_duration = pos;
  mul = ◌*◌;
  below_one = λ m. eqb m 0;
  two = 2;
}
