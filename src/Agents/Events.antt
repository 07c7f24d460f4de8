-- ===== src/Agents/Events.antt =====
-- `build_event` (src/krama/cli/events.py): a typed event from what somebody typed.
use glass_guru.Base.{
  ℕ, zero, suc, max, String, Option, none, some, ◌==◌, string_eq, nat_eq, if◌then◌else◌,
}
use glass_guru.Model.Units.{Moment, Ratio}
use glass_guru.Model.Units.Int.{ℤ, pos, negsuc}
use glass_guru.Events.{Event, EventBase, Body}

-- The keys of `builders`.
pub data EventKind : Type 0 where
  van_unavailable : EventKind
  van_restored : EventKind
  worker_unavailable : EventKind
  worker_restored : EventKind
  job_dispatched : EventKind
  job_cancelled : EventKind
  job_overran : EventKind
  job_completed : EventKind
  traffic_delay : EventKind

-- What is raised: an EventArgumentError for a missing argument, by its name, or the ValidationError
-- of a field that must be positive.
pub data BuildError : Type 0 where
  required : (name : String) → BuildError
  not_positive : (name : String) → BuildError

pub data Made (A : Type 0) : Type 0 where
  made : A → Made A
  refused : BuildError → Made A

-- The keyword arguments. A multiplier that is not positive has the numerator 0.
pub record Arguments : Type 0 where
  pub at_time : Moment
  pub until : Option Moment
  pub window_start : Option Moment
  pub window_end : Option Moment
  pub minutes : Option ℤ
  pub multiplier : Option Ratio
  pub reason : String

module _ {A B : Type 0} where
  -- _require, with what is done with the value
  unfoldable pub require : Option A → String → (A → Made B) → Made B
  require none name next = Made.refused (BuildError.required name)
  require (some value) name next = next value

-- `Field(gt=0)`
unfoldable pub positive : ℤ → String → (ℕ → Made Body) → Made Body
positive (pos (suc n)) name next = next (suc n)
positive (pos zero) name next = Made.refused (BuildError.not_positive name)
positive (negsuc n) name next = Made.refused (BuildError.not_positive name)

unfoldable pub positive_ratio : Ratio → (Ratio → Made Body) → Made Body
positive_ratio r next =
    if r.num == 0 then Made.refused (BuildError.not_positive "multiplier") else next r

-- `max(window_start, at) if window_start else at`
unfoldable pub from_of : Arguments → Moment
from_of args = elim args.window_start [ none ↦ args.at_time | some t ↦ max t args.at_time ]

-- `until or window_end`
unfoldable pub until_of : Arguments → Option Moment
until_of args = elim args.until [ none ↦ args.window_end | some t ↦ some t ]

-- the entries of `builders`
unfoldable pub build_body : EventKind → Option String → Arguments → Made Body
unfolding require positive positive_ratio from_of until_of
build_body van_unavailable target args = require target "a van id" (λ id. Made.made (
    Body.van_unavailable (record {
      van_id = id;
      from_time = from_of args;
      until_time = until_of args;
      reason = args.reason;
    })))
build_body van_restored target args = require target "a van id" (λ id. Made.made (
    Body.van_restored
      (record { van_id = id; window_start = args.window_start; window_end = args.window_end })))
build_body worker_unavailable target args = require target "a worker id" (λ id. Made.made (
    Body.worker_unavailable (record {
      worker_id = id;
      from_time = from_of args;
      until_time = until_of args;
      reason = args.reason;
    })))
build_body worker_restored target args = require target "a worker id" (λ id. Made.made (
    Body.worker_restored
      (record { worker_id = id; window_start = args.window_start; window_end = args.window_end })))
build_body job_dispatched target args =
    require target "a job id" (λ id. Made.made (Body.job_dispatched id))
build_body job_cancelled target args =
    require target "a job id" (λ id. Made.made (Body.job_cancelled id args.reason))
build_body job_overran target args = require target "a job id" (λ id.
    require args.minutes "--minutes"
      (λ m. positive m "extra_minutes" (λ n. Made.made (Body.job_overran id n))))
build_body job_completed target args = require target "a job id" (λ id.
    require args.minutes "--minutes"
      (λ m. positive m "actual_duration_min" (λ n. Made.made (Body.job_completed id n))))
build_body traffic_delay target args = require args.multiplier "--multiplier" (λ r.
    positive_ratio r (λ x. Made.made (
      Body.traffic_delay (record {
        origin_geohash5 = none;
        dest_geohash5 = none;
        multiplier = x;
        from_time = args.at_time;
        until_time = args.until;
        note = args.reason;
      }))))

-- _envelope; the id is a fresh one
unfoldable pub envelope : String → Moment → String → EventBase
envelope event_id at_time dispatch_id = record {
  event_id = event_id;
  occurred_at = at_time;
  recorded_at = at_time;
  dispatch_id = dispatch_id;
  actor = "dispatcher:cli";
}

-- build_event, of the kinds of a note
unfoldable pub build_event : String → String → EventKind → Option String → Arguments → Made Event
unfolding build_body envelope
build_event event_id dispatch_id kind target args = elim (build_body kind target args) [
  | Made.refused e ↦ Made.refused e
  | Made.made body ↦
      Made.made (record { base = envelope event_id args.at_time dispatch_id; body = body })
]
