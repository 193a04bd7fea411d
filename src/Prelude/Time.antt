-- ===== src/Prelude/Time.antt =====
-- Go's time.Time and time.Duration as the program uses them. An instant is its distance from the
-- zero Time, in nanoseconds; a duration is an int64 of nanoseconds.
use Prim.Native.Nat.{ℕ, ◌+◌, ◌-◌, ◌^◌, ◌≤◌, min}
use mathlib.Core.Path.{◌≡◌}
use mathlib.Core.Bool.{Bool}
use unbelievable_fish.Prelude.Tests.{ltb, leb, ◌==◌, if◌then◌else◌}
use unbelievable_fish.Prelude.Int.{ℤ, pos, negsuc}

abbrev pub Time : Type 0
Time = ℕ

abbrev pub is_zero : Time → Bool
is_zero t = t == 0

abbrev pub before : Time → Time → Bool
before t u = ltb t u

abbrev pub after : Time → Time → Bool
after t u = ltb u t

abbrev pub minute : ℕ
minute = 60000000000

abbrev pub hour : ℕ
hour = 3600000000000

-- `t.Add(d)`, for the durations that the program adds, which are not negative.
abbrev pub add : Time → ℕ → Time
add t d = t + d

-- `t.Sub(u)`: the difference, held to the range of an int64.
unfoldable pub sub : Time → Time → ℤ
sub t u = if leb u t then pos (min (t - u) (2 ^ 63 - 1)) else negsuc (min (u - t - 1) (2 ^ 63 - 1))

-- What a TIMESTAMPTZ column holds of an instant that the driver sends: it has microseconds. The
-- rounding keeps the order of instants, and leaves what a column holds.
pub record Timestamptz : Type 0 where
  pub rounded : Time → Time
  pub rounded-mono : (t u : Time) → t ≤ u → rounded t ≤ rounded u
  pub rounded-idem : (t : Time) → rounded (rounded t) ≡ rounded t
