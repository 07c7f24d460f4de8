-- ===== src/Scheduler/Params.antt =====
-- What a solve is given and what it answers: `SolveParams` and `DayPlanResult` of
-- src/krama/scheduler/day_planner.py, `HorizonParams` and `HorizonResult` of src/krama/scheduler/horizon.py, and
-- `TimeBucket` of src/krama/scheduler/travel/base.py.
use glass_guru.Base.{ℕ, String, Bool, Option, List}
use glass_guru.Dict.{Dict}
use glass_guru.Model.Units.{Moment, Date, Ratio}
use glass_guru.Model.Units.Int.{ℤ}
use glass_guru.Model.Entities.{JobId}
use glass_guru.Model.Plan.{CrewRoute, UnservedJob}

pub data TimeBucket : Type 0 where
  early am_peak midday pm_peak evening : TimeBucket

pub record SolveParams : Type 0 where
  pub business_tz : Moment → Moment
  pub labor_rate_per_minute : ℕ
  pub overtime_rate_multiplier : Ratio
  pub unserved_penalty_base : Ratio
  pub deferral_escalation : ℕ
  pub lateness_per_minute : ℕ
  pub revenue_weight : Ratio
  pub allow_overtime : Bool
  pub overtime_minutes : ℕ
  pub hard_window_buffer_minutes : ℕ
  pub travel_bucket : Option TimeBucket
  pub k_nearest : Option ℕ
  pub prune_above : ℕ
  pub max_solve_seconds : ℕ
  pub max_deterministic_time : Option ℕ
  pub search_workers : ℕ
  pub random_seed : ℕ
  pub incumbent : Option (Dict JobId (String × ℕ))
  pub change_penalty : ℕ
  pub reschedule_penalty_multiplier : ℕ
  pub allow_promise_release : Bool

pub record HorizonParams : Type 0 where
  pub days : ℕ
  pub capacity_utilization : Ratio
  pub sector_spread_penalty : ℕ
  pub day_delay_penalty : ℕ
  pub max_rounds : ℕ

pub record DayPlanResult : Type 0 where
  pub routes : List CrewRoute
  pub unserved : List UnservedJob
  pub objective_cost : ℤ
  pub status : String
  pub released_promises : List JobId
  pub metrics : Dict String ℤ

pub record HorizonResult : Type 0 where
  pub routes : List CrewRoute
  pub unserved : List UnservedJob
  pub day_results : Dict Date DayPlanResult
  pub assignment : Dict JobId Date
  pub rounds : ℕ
  pub released_promises : List JobId
  pub metrics : Dict String ℤ
