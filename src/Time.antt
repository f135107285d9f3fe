-- ===== src/Time.antt =====
-- What the program uses of Go's `time` package. An instant is the number of nanoseconds since the
-- zero time of the package, the first of January of the year 1; instants before 1970 and durations
-- below zero are left out. A numeric date, `jwt.NumericDate`, is in seconds since 1970.
pub mod Round
use wpoven_nobot.Base.{ltb, eqb, if◌then◌else◌, ℕ, ◌+◌, ◌-◌, ◌*◌, ◌/◌, ◌%◌}

abbrev pub Time : Type 0
Time = ℕ

abbrev pub Duration : Type 0
Duration = ℕ

abbrev pub second : Duration
second = 1000000000

abbrev pub hour : Duration
hour = 3600 * second

-- the seconds from the zero time to 1970
abbrev pub unix_epoch : ℕ
unix_epoch = 62135596800

-- `t.Round(d)`: to the nearest multiple of `d` since the zero time, halfway values up
unfoldable pub round : Duration → Time → Time
round d t = if eqb d 0 then t else if ltb (t % d + t % d) d then t - t % d else t + (d - t % d)

-- `t.Unix()`
abbrev pub unix : Time → ℕ
unix t = t / second - unix_epoch

-- `n.Time()` of a numeric date
abbrev pub date_time : ℕ → Time
date_time n = (n + unix_epoch) * second
