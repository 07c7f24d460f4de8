-- ===== src/Scheduler/Day/Free.antt =====
-- `_largest_free_interval` (src/krama/scheduler/day_planner.py), in minutes after the day's start.
-- What lies before that start is cut off at once; the code cuts it off with the span.
pub mod Scan
pub mod Merge
pub mod Clear
pub mod Longest
use glass_guru.Base.{
  ℕ, ◌-◌, ◌/◌, max, Bool, true, Option, none, some, List, [], ◌∷◌, ◌++◌, leb, ltb, ◌&&◌, ◌==◌,
  nat_eq, if◌then◌else◌,
}
use glass_guru.Base.Sort.{sorted}
use glass_guru.Model.Units.{Moment, minutes}
use glass_guru.World.Outages.{Unavailability}

-- from one minute to another
abbrev pub Interval : Type 0
Interval = ℕ × ℕ

abbrev pub min : ℕ → ℕ → ℕ
min a b = if leb a b then a else b

-- the order of pairs
abbrev pub pair_leb : Interval → Interval → Bool
pair_leb (a, b) (c, d) = if a == c then leb b d else ltb a c

abbrev pub after : Moment → Moment → ℕ
after day_start moment = (moment - day_start) / minutes 1

-- what an outage blocks of the span
unfoldable pub clamped : Moment → ℕ → ℕ → Unavailability → Interval
clamped day_start span_start span_end o = (
  max span_start (after day_start o.from_time),
  min span_end (elim o.until_time [ none ↦ 1_440 | some until ↦ after day_start until ]),
)

-- the loop over the outages
unfoldable pub blocked : Moment → ℕ → ℕ → List Unavailability → List Interval
unfolding clamped
blocked day_start span_start span_end [] = []
blocked day_start span_start span_end (o ∷ os) =
    let rest = blocked day_start span_start span_end os in
    let (lo, hi) = clamped day_start span_start span_end o in
    if ltb lo hi then (lo, hi) ∷ rest else rest

-- the loop that merges, with `merged[-1]` at hand
unfoldable pub merge_from : Interval → List Interval → List Interval
merge_from last [] = last ∷ []
merge_from (a, b) ((lo, hi) ∷ rest) =
    let joined = merge_from (a, max b hi) rest in
    let apart = merge_from (lo, hi) rest in if leb lo b then joined else (a, b) ∷ apart

unfoldable pub merged : List Interval → List Interval
unfolding merge_from
merged [] = []
merged (p ∷ ps) = merge_from p ps

abbrev pub longer : ℕ → Option Interval → Bool
longer n none = true
longer n (some (a, b)) = ltb (b - a) n

-- the loop over the merged intervals
unfoldable pub scan : ℕ → Option Interval → List Interval → Option Interval
scan cursor best [] = best
scan cursor best ((lo, hi) ∷ rest) =
    scan (max cursor hi)
      (if ltb cursor lo && longer (lo - cursor) best then some (cursor, lo) else best) rest

-- what follows the loop over the outages
unfoldable pub largest_free : ℕ → ℕ → List Interval → Option Interval
unfolding merged scan
largest_free span_start span_end [] =
    if ltb span_start span_end then some (span_start, span_end) else none
largest_free span_start span_end (b ∷ bs) =
    scan span_start none (merged (sorted pair_leb (b ∷ bs)) ++ ((span_end, span_end) ∷ []))

-- _largest_free_interval
unfoldable pub largest_free_interval : List Unavailability → Moment → ℕ → ℕ → Option Interval
unfolding blocked largest_free
largest_free_interval outages day_start span_start span_end =
    largest_free span_start span_end (blocked day_start span_start span_end outages)
