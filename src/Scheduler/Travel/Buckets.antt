-- ===== src/Scheduler/Travel/Buckets.antt =====
-- `bucket_for` (src/krama/scheduler/travel/base.py) and `LegKey` (src/krama/scheduler/travel/cache.py):
-- what a drive's time hangs on.
use glass_guru.Base.{
  ◌/◌, String, Bool, true, ◌≡◌, ◌↔◌, ◌&&◌, ltb, leb, Eq, ◌==◌, string_eq, arith, if◌then◌else◌,
}
use text.Mathlib.TextEquality.{eq_iff}
use glass_guru.Model.Units.{Moment, minutes, time_of, weekday_of}
use glass_guru.Model.Entities.{Location}
use glass_guru.Scheduler.Params.{TimeBucket}

-- bucket_for, of what the moment shows on the wall
unfoldable pub bucket_for : Moment → TimeBucket
bucket_for moment =
    let m = time_of moment / minutes 1 in
    if leb 5 (weekday_of moment)
    then TimeBucket.midday
    else if ltb m 420
    then TimeBucket.early
    else if ltb m 570
    then TimeBucket.am_peak
    else if ltb m 900
    then TimeBucket.midday
    else if ltb m 1_110
    then TimeBucket.pm_peak
    else TimeBucket.evening

-- the value of a TimeBucket
abbrev pub bucket_text : TimeBucket → String
bucket_text TimeBucket.early = "early"
bucket_text TimeBucket.am_peak = "am_peak"
bucket_text TimeBucket.midday = "midday"
bucket_text TimeBucket.pm_peak = "pm_peak"
bucket_text TimeBucket.evening = "evening"

pub record LegKey : Type 0 where
  pub origin : String
  pub dest : String
  pub day_type : String
  pub bucket : String

abbrev key_beq : LegKey → LegKey → Bool
key_beq a b =
    a.origin == b.origin && a.dest == b.dest && a.day_type == b.day_type && a.bucket == b.bucket

pub key_beq_iff : (a b : LegKey) → (key_beq a b ≡ true) ↔ (a ≡ b)
key_beq_iff a b = ground (
  arith,
  eq_iff a.origin b.origin,
  eq_iff a.dest b.dest,
  eq_iff a.day_type b.day_type,
  eq_iff a.bucket b.bucket,
)

instance abbrev pub key_eq : Eq LegKey
key_eq = record { equals = key_beq; equals_iff = key_beq_iff }

-- LegKey.build, with `geohash7` and what a moment shows on the wall
unfoldable pub build :
    (Location → String) → (Moment → Moment) → Location → Location → Moment → LegKey
unfolding bucket_for
build geohash7 wall origin dest depart_at = record {
  origin = geohash7 origin;
  dest = geohash7 dest;
  day_type = if leb 5 (weekday_of (wall depart_at)) then "weekend" else "weekday";
  bucket = bucket_text (bucket_for (wall depart_at));
}
