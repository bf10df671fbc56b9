-- ===== src/Prelude/Time.antt =====
-- Times and durations of Go. A time is a number of nanoseconds from the least time that an int64 of
-- UnixNano can hold (in 1677) on, so that an int64 x of nanoseconds since 1970 is the number
-- x + 2^63, the order is the same, and the wrap-around is that of unsigned 64 bits. A duration is a
-- signed number of nanoseconds.
use Prim.Native.Nat.{ℕ, suc, ◌+◌, ◌-◌, ◌%◌, ◌^◌, ◌<◌}
use mathlib.Core.Path.{◌≡◌}
use mathlib.Core.Option.{Option, none, some}
use native.Mathlib.Omega.{arith}
use battery.Prelude.Int.{ℤ, pos, negsuc}
use battery.Prelude.Tests.{leb, if◌then◌else◌}

-- t.UnixNano(), which wraps.
abbrev pub unix_nano : ℕ → ℕ
unix_nano t = t % 2 ^ 64

-- (*timestamppb.Timestamp)(nil).AsTime()
abbrev pub unix_epoch : ℕ
unix_epoch = 2 ^ 63

-- AsDuration, which saturates; a nil duration is 0.
abbrev pub saturated : ℤ → ℤ
saturated (pos n) = if leb (2 ^ 63) n then pos (2 ^ 63 - 1) else pos n
saturated (negsuc n) = if leb (2 ^ 63) n then negsuc (2 ^ 63 - 1) else negsuc n

abbrev pub as_duration : Option ℤ → ℤ
as_duration none = pos 0
as_duration (some d) = saturated d

-- t.Add(d), for a time after 1970, from which no duration leads below 0.
abbrev pub add_duration : ℕ → ℤ → ℕ
add_duration t (pos n) = t + n
add_duration t (negsuc n) = t - suc n

-- UnixNano of a time before the year 2262.
pub unix_nano-small : (t : ℕ) → t < 2 ^ 64 → unix_nano t ≡ t
unix_nano-small t h = omega (arith, h)
