-- ===== src/Domain/Time.antt =====
-- Go's time.Time and time.Duration.
use promptmeter.Prelude.{ℕ}

-- A time.Time, in nanoseconds from a day in the year -1, so that every RFC 3339 timestamp is a
-- number; `zero_time` is Go's zero value, midnight of January 1 of the year 1.
abbrev pub Time : Type 0
Time = ℕ

abbrev pub zero_time : Time
zero_time = 31795200000000000

-- A time.Duration that is not negative, in nanoseconds.
abbrev pub Duration : Type 0
Duration = ℕ

abbrev pub second : Duration
second = 1000000000

abbrev pub minute : Duration
minute = 60000000000

abbrev pub hour : Duration
hour = 3600000000000
