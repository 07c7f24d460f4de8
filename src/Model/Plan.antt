-- ===== src/Model/Plan.antt =====
-- Routes and plan versions (src/krama/domain/models.py).
use glass_guru.Base.{
  ℕ, ◌+◌, ◌-◌, ◌/◌, String, Option, none, some, List, [], ◌∷◌, ◌++◌, map, ltb, ◌==◌, string_eq,
  if◌then◌else◌,
}
use glass_guru.Dict.{Dict}
use glass_guru.Model.Units.{Moment, Date, minutes}
use glass_guru.Model.Units.Int.{ℤ}
use glass_guru.Model.Enums.{UnservedReason}
use glass_guru.Model.Entities.{WorkerId, VanId, JobId}

pub record Stop : Type 0 where
  pub job_id : JobId
  pub arrival : Moment
  pub departure : Moment
  pub travel_minutes_from_prev : ℕ
  pub travel_miles_from_prev : ℕ

-- Stop._ordered: `none` is the `ValueError`
unfoldable pub checked_stop : Stop → Option Stop
checked_stop s = if ltb s.departure s.arrival then none else some s

-- Stop.service_minutes; a stop is built with its departure at or after its arrival
unfoldable pub service_minutes : Stop → ℕ
service_minutes s = (s.departure - s.arrival) / minutes 1

pub record CrewRoute : Type 0 where
  pub crew_id : String
  pub date : Date
  pub worker_ids : List WorkerId
  pub van_id : VanId
  pub stops : List Stop
  pub return_to_depot_minutes : ℕ
  pub return_to_depot_miles : ℕ

unfoldable pub sum_travel : List Stop → ℕ
sum_travel [] = 0
sum_travel (s ∷ ss) = s.travel_minutes_from_prev + sum_travel ss

-- CrewRoute.total_travel_minutes
unfoldable pub total_travel_minutes : CrewRoute → ℕ
unfolding sum_travel
total_travel_minutes r = sum_travel r.stops + r.return_to_depot_minutes

-- CrewRoute.job_ids
unfoldable pub job_ids : CrewRoute → List JobId
job_ids r = map (λ (s : Stop). s.job_id) r.stops

pub record UnservedJob : Type 0 where
  pub job_id : JobId
  pub reason : UnservedReason
  pub detail : String

pub record CostBreakdown : Type 0 where
  pub vehicle : ℤ
  pub overtime : ℤ
  pub unserved_penalty : ℤ
  pub lateness_penalty : ℤ
  pub reschedule_penalty : ℤ

pub record PlanVersion : Type 0 where
  pub id : String
  pub parent_id : Option String
  pub created_at : Moment
  pub horizon_start : Date
  pub horizon_end : Date
  pub routes : List CrewRoute
  pub unserved : List UnservedJob
  pub cost : CostBreakdown
  pub label : String
  pub solver_metrics : Dict String ℤ

-- PlanVersion.scheduled_job_ids, as the list of what the set holds
unfoldable pub scheduled_job_ids : List CrewRoute → List JobId
unfolding job_ids
scheduled_job_ids [] = []
scheduled_job_ids (r ∷ rs) = job_ids r ++ scheduled_job_ids rs

-- the inner loop of PlanVersion.stop_for
unfoldable pub stop_in : List Stop → JobId → Option Stop
stop_in [] job_id = none
stop_in (s ∷ ss) job_id = if s.job_id == job_id then some s else stop_in ss job_id

-- PlanVersion.stop_for
unfoldable pub stop_for : List CrewRoute → JobId → Option (CrewRoute × Stop)
unfolding stop_in
stop_for [] job_id = none
stop_for (r ∷ rs) job_id =
    let rest = stop_for rs job_id in
    elim (stop_in r.stops job_id) [ some s ↦ some (r, s) | none ↦ rest ]
