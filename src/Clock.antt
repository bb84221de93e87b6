-- ===== src/Clock.antt =====
-- Instants and durations of the Go standard library's time package, as internal/core/jwkGen.go uses
-- them. An instant is a number of nanoseconds since Go's zero time, the start of year 1; a duration
-- is an int64 number of nanoseconds.
use service_json_keys.Prelude.{ℕ, ◌+◌, ◌-◌, ◌^◌, ◌≤◌, ◌≡◌, leb, if◌then◌else◌, arith}
use service_json_keys.Prelude.Int.{ℤ, pos, negsuc, pos_part, neg_part, ◌≤ℤ◌}
use Prim.Native.Nat.{min}

abbrev pub Time : Type 0
Time = ℕ

abbrev pub Duration : Type 0
Duration = ℤ

-- The zero value of time.Time.
abbrev pub zero_time : Time
zero_time = 0

abbrev pub max_int64 : ℕ
max_int64 = 2 ^ 63 - 1

-- A duration that an int64 holds.
abbrev pub IsDuration : Duration → Type 0
IsDuration d = d ≤ℤ pos max_int64

abbrev pub second : ℕ
second = 1_000_000_000

-- Time.Sub, which saturates at the least and the greatest duration.
unfoldable pub sub : Time → Time → Duration
sub t u = if leb u t then pos (min (t - u) max_int64) else negsuc (min (u - t - 1) max_int64)

-- Time.Add. An instant before year 1 is not represented.
unfoldable pub add : Time → Duration → Time
add t d = t + pos_part d - neg_part d

-- The time since Go's zero time reaches the greatest duration from year 293 on.
pub sub-zero : (t : Time) → max_int64 ≤ t → sub t zero_time ≡ pos max_int64
unfolding sub
sub-zero t h = ground arith

-- The earlier the instant, the longer the time since it.
pub sub_antitone : (t u s : Time) → s ≤ u → sub t u ≤ℤ sub t s
unfolding sub
sub_antitone t u s h = ground arith

-- A duration that is not negative is added as a number.
pub add_pos : (t : Time) (n : ℕ) → add t (pos n) ≡ t + n
unfolding add
add_pos t n = omega arith
