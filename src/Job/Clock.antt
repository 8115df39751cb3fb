-- ===== src/Job/Clock.antt =====
-- Go's `time.Time` and `time.Duration` as the job domain uses them. An instant is the number of
-- nanoseconds since January 1 of year 1 UTC, the zero time, so that `IsZero` is 0; `UTC()` and
-- `normalizeTime` keep the instant. Instants before year 1 are not represented.
use auto_cert_x.Prelude.{ℕ, suc, ◌+◌, ◌-◌, ◌%◌, ◌^◌, Bool, ltb, eqb, if◌then◌else◌}
use auto_cert_x.Prelude.Int.{ℤ, pos, negsuc}

abbrev pub Time : Type 0
Time = ℕ

abbrev pub Duration : Type 0
Duration = ℤ

abbrev pub zero_time : Time
zero_time = 0

abbrev pub is_zero : Time → Bool
is_zero t = eqb t 0

-- `t.Before(u)` and `t.After(u)`
abbrev pub before : Time → Time → Bool
before t u = ltb t u

abbrev pub after : Time → Time → Bool
after t u = ltb u t

-- `t.Add(d)`
abbrev pub add_time : Time → Duration → Time
add_time t (pos n) = t + n
add_time t (negsuc n) = t - suc n

-- `normalizeTime`: the zero time stays zero, another instant is taken to UTC.
abbrev pub normalize_time : Time → Time
normalize_time t = if is_zero t then zero_time else t

-- `v++` on a 64-bit counter, as its bit pattern
abbrev pub inc64 : ℕ → ℕ
inc64 v = (v + 1) % 2 ^ 64
