-- ===== src/Datetime.antt =====
-- Python's naive `datetime`, as the number of microseconds since `datetime.min`, and the parts of
-- the standard library that src/telemetry_engine/coldtier uses. A sum or a difference outside
-- [datetime.min, datetime.max] raises `OverflowError`.
use llm_telemetry_engine.Base.{
  ℕ, ◌+◌, ◌-◌, ◌*◌, ◌/◌, ◌%◌, ltb, if◌then◌else◌, Result, ok, err, overflow_error,
}

abbrev pub Datetime : Type 0
Datetime = ℕ

-- A `timedelta` that is not negative, in microseconds.
abbrev pub Timedelta : Type 0
Timedelta = ℕ

abbrev pub second : Timedelta
second = 1_000_000

abbrev pub minute : Timedelta
minute = 60_000_000

abbrev pub hour : Timedelta
hour = 3_600_000_000

abbrev pub day : Timedelta
day = 86_400_000_000

-- 9999-12-31 is day 3652058 after 0001-01-01.
abbrev pub datetime_max : Datetime
datetime_max = 3_652_059 * 86_400_000_000 - 1

-- `t + d`
unfoldable pub add : Datetime → Timedelta → Result Datetime
add t d = if ltb datetime_max (t + d) then err overflow_error else ok (t + d)

-- `t - d`
unfoldable pub subtract : Datetime → Timedelta → Result Datetime
subtract t d = if ltb t d then err overflow_error else ok (t - d)

-- `t.date()`, as the number of days since `date.min`
abbrev pub date : Datetime → ℕ
date t = t / day

-- `datetime.combine(d, datetime.min.time())`
abbrev pub midnight : ℕ → Datetime
midnight d = d * day

-- `t.replace(minute=0, second=0, microsecond=0)`
abbrev pub floor_hour : Datetime → Datetime
floor_hour t = t - t % hour

-- `t.replace(microsecond=0)`, which is what a format with whole seconds keeps of `t`
abbrev pub floor_second : Datetime → Datetime
floor_second t = t - t % second
