-- ===== src/Common/Clock.antt =====
-- Go's `time.Time` as the nanoseconds since its zero value (January 1 of year 1), and
-- `time.Duration` as the integer of nanoseconds. No instant lies before the zero value.
use Prim.Native.Nat.{ℕ, ◌+◌, ◌-◌, ◌*◌, ◌^◌, min}
use mathlib.Core.Bool.{Bool}
use fabric8_jenkins_idler.Common.Tests.{ltb, nat_beq}
use fabric8_jenkins_idler.Common.Int.{ℤ, pos_part, neg_part}

abbrev pub Time : Type 0
Time = ℕ

abbrev pub second : ℕ
second = 1000000000

abbrev pub minute : ℕ
minute = 60 * second

abbrev pub hour : ℕ
hour = 60 * minute

abbrev pub zero_time : Time
zero_time = 0

-- t.IsZero()
abbrev pub is_zero : Time → Bool
is_zero t = nat_beq t 0

-- t.Add(d)
abbrev pub add_duration : Time → ℤ → Time
add_duration t d = t + pos_part d - neg_part d

-- t.After(u)
abbrev pub after : Time → Time → Bool
after t u = ltb u t

-- `t.Sub(u)` where it is positive, with its saturation, and 0 where it is negative
abbrev pub sub_time : Time → Time → ℕ
sub_time t u = min (t - u) (2 ^ 63 - 1)

-- time.Unix(s, 0)
abbrev pub unix : ℤ → Time
unix s = (62135596800 + pos_part s - neg_part s) * second
