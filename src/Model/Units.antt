-- ===== src/Model/Units.antt =====
-- Time and amounts. A moment is an aware UTC `datetime` as microseconds since the first one, a date
-- its proleptic ordinal, a wall-clock time its microseconds since midnight. Durations are whole
-- minutes, as in the source. A float is held as a multiple of one ten-thousandth: the domain
-- compares, copies and adds such amounts, and multiplies only traffic factors, which are fractions.
pub mod Int
use glass_guru.Base.{ℕ, ◌+◌, ◌-◌, ◌*◌, ◌/◌, ◌%◌}

abbrev pub Moment : Type 0
Moment = ℕ

abbrev pub Date : Type 0
Date = ℕ

abbrev pub ClockTime : Type 0
ClockTime = ℕ

-- timedelta(minutes=n)
abbrev pub minutes : ℕ → ℕ
minutes n = n * 60_000_000

-- timedelta(days=1)
abbrev pub day_length : ℕ
day_length = 86_400_000_000

-- moment.date()
abbrev pub date_of : Moment → Date
date_of t = t / day_length + 1

-- moment.time()
abbrev pub time_of : Moment → ClockTime
time_of t = t % day_length

-- moment.weekday(): the first day of the calendar was a Monday
abbrev pub weekday_of : Moment → ℕ
weekday_of t = t / day_length % 7

-- A positive factor, such as a traffic multiplier.
pub record Ratio : Type 0 where
  pub num : ℕ
  pub den : ℕ

abbrev pub one_ratio : Ratio
one_ratio = record { num = 1; den = 1 }

abbrev pub times : Ratio → Ratio → Ratio
times a b = record { num = a.num * b.num; den = a.den * b.den }
