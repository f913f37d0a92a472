-- ===== src/Prelude/Clock.antt =====
-- Go's `time.Time` and `time.Duration`. A time is the number of nanoseconds since the zero time
-- (so 0 is the zero time, and times before it are not represented); a duration is signed.
use Prim.Native.Nat.{ℕ, zero, suc, ◌+◌, ◌-◌, ◌*◌, ◌^◌, min}
use mathlib.Core.Bool.{Bool, true}
use urth.Prelude.Tests.{ltb, leb, ◌==◌, if◌then◌else◌}
use urth.Prelude.Int.{ℤ, pos, negsuc, pos_part, neg_part}

abbrev pub Time : Type 0
Time = ℕ

abbrev pub Duration : Type 0
Duration = ℤ

-- `math.MaxInt64` nanoseconds: `Time.Sub` saturates there.
abbrev pub max_duration : ℕ
max_duration = 2 ^ 63 - 1

abbrev pub seconds : ℕ → ℕ
seconds n = n * 1000000000

abbrev pub minutes : ℕ → ℕ
minutes n = seconds (n * 60)

abbrev pub hours : ℕ → ℕ
hours n = minutes (n * 60)

-- `t.Add(d)`; the sum is taken to be a time again.
abbrev pub add_time : Time → Duration → Time
add_time t d = t + pos_part d - neg_part d

-- `t.Sub(u)`.
abbrev pub sub_time : Time → Time → Duration
sub_time t u =
    if leb u t then pos (min (t - u) max_duration) else negsuc (min (u - t - 1) max_duration)

-- `t.Before(u)`.
abbrev pub is_before : Time → Time → Bool
is_before t u = ltb t u

-- `d <= 0`.
abbrev pub is_nonpositive : Duration → Bool
is_nonpositive (pos n) = n == 0
is_nonpositive (negsuc n) = true

-- `t.Add(-d)`.
abbrev pub time_before : Time → Duration → Time
time_before t d = t + neg_part d - pos_part d

-- `n` doublings.
abbrev pub doubled : ℕ → ℕ → ℕ
doubled b zero = b
doubled b (suc n) = doubled (b * 2) n
