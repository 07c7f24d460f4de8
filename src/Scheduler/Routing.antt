-- ===== src/Scheduler/Routing.antt =====
-- A sequence of jobs turned into a route with clock times (src/krama/scheduler/routing.py).
pub mod Windows
pub mod Departure
pub mod Honest
use glass_guru.Base.{
  ℕ, zero, suc, ◌+◌, ◌-◌, max, String, Bool, true, not, Option, none, some, List, [], ◌∷◌, leb, ltb,
  ◌&&◌, ◌||◌, ◌==◌, nat_eq, string_eq, if◌then◌else◌,
}
use glass_guru.Dict.{get}
use glass_guru.Model.Units.{Moment, Date, minutes}
use glass_guru.Model.Enums.{is_hard}
use glass_guru.Model.Entities.{
  WorkerId, VanId, JobId, Location, TimeWindow, TravelLeg, TravelOracle,
}
use glass_guru.Model.Jobs.{Job}
use glass_guru.Model.Plan.{CrewRoute, Stop}
use glass_guru.World.State.{WorldState}

-- `fits`, for a visit of that length which begins in the window as soon as it can
unfoldable pub fits : ℕ → Moment → TimeWindow → Bool
fits duration arrival w =
    not (is_hard w.hardness) || leb (max arrival w.start + minutes duration) w.end

-- the body of the loop over the windows
unfoldable pub better : ℕ → Moment → Option Moment → TimeWindow → Option Moment
unfolding fits
better duration arrival best w =
    let start = max arrival w.start in
    if fits duration arrival w && elim best [ none ↦ true | some b ↦ ltb start b ]
    then some start
    else best

unfoldable pub best_start : ℕ → Moment → Option Moment → List TimeWindow → Option Moment
unfolding better
best_start duration arrival best [] = best
best_start duration arrival best (w ∷ ws) =
    best_start duration arrival (better duration arrival best w) ws

-- _earliest_start
unfoldable pub earliest_start : Job → Moment → Moment
unfolding best_start
earliest_start j arrival = elim (best_start j.estimated_duration_min arrival none j.windows) [
  | none ↦ arrival
  | some start ↦ start
]

-- The departure moves back and forth in the middle of the calendar, not before its first day.
module _ (travel : TravelOracle) where
  -- the loop that looks for the departure, `n` times more, and what follows it
  unfoldable pub settle_departure :
      Location → Location → Moment → Moment → TravelLeg → ℕ → Moment → TravelLeg × Moment
  settle_departure origin dest ready_at target leg zero depart =
      let left = max depart ready_at in
      let settled = travel.leg origin dest left in
      (settled, max target (left + minutes settled.minutes))
  settle_departure origin dest ready_at target leg (suc n) depart =
      let candidate = travel.leg origin dest depart in
      let next_depart = target - minutes candidate.minutes in
      let again = settle_departure origin dest ready_at target leg n next_depart in
      if leb depart ready_at
      then (leg, max target (ready_at + minutes leg.minutes))
      else if next_depart == depart
      then (candidate, target)
      else again

  -- _depart_and_arrive
  unfoldable pub depart_and_arrive : Location → Job → Moment → TravelLeg × Moment
  unfolding settle_departure
  depart_and_arrive origin j ready_at =
      let leg = travel.leg origin j.location ready_at in
      let naive_arrival = ready_at + minutes leg.minutes in
      let target = earliest_start j naive_arrival in
      if leb target naive_arrival
      then (leg, target)
      else settle_departure origin j.location ready_at target leg 3 (target - minutes leg.minutes)

  unfoldable pub stop_at : JobId → Job → TravelLeg × Moment → Stop
  stop_at job_id j (leg, arrival) = record {
    job_id = job_id;
    arrival = arrival;
    departure = arrival + minutes j.estimated_duration_min;
    travel_minutes_from_prev = leg.minutes;
    travel_miles_from_prev = leg.miles;
  }

  -- the loop over the jobs, from a place and a moment, and the place and moment where it ends; `none`
  -- is the `KeyError` of a job that is not on record
  unfoldable pub stops_from :
      WorldState → Location → Moment → List JobId → Option (List Stop × Location × Moment)
  unfolding depart_and_arrive stop_at
  stops_from world position clock [] = some ([], position, clock)
  stops_from world position clock (k ∷ ks) = elim (get world.jobs k) [
    | none ↦ none
    | some j ↦
        let s = stop_at k j (depart_and_arrive position j clock) in
        elim (stops_from world j.location s.departure ks) [
          | none ↦ none
          | some (ss, place, end) ↦ some (s ∷ ss, place, end)
        ]
  ]

  -- `… if stops else None`, and the zeros of a route with no stops
  abbrev drive_home : List Stop → TravelLeg → TravelLeg
  drive_home [] home = record { minutes = 0; miles = 0 }
  drive_home (s ∷ ss) home = home

  -- materialize_route
  unfoldable pub materialize_route :
      WorldState → String → List WorkerId → VanId → Date → List JobId → Moment → Option CrewRoute
  unfolding stops_from
  materialize_route world crew_id worker_ids van_id on_date job_sequence shift_start =
      elim (get world.vans van_id) [
        | none ↦ none
        | some van ↦ elim (stops_from world van.home_depot shift_start job_sequence) [
          | none ↦ none
          | some (ss, position, clock) ↦
              let home = drive_home ss (travel.leg position van.home_depot clock) in
              some (record {
                crew_id = crew_id;
                date = on_date;
                worker_ids = worker_ids;
                van_id = van_id;
                stops = ss;
                return_to_depot_minutes = home.minutes;
                return_to_depot_miles = home.miles;
              })
        ]
      ]
