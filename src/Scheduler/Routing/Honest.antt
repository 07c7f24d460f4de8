-- ===== src/Scheduler/Routing/Honest.antt =====
-- A materialised route passes the checker's recomputation of its drives.
use glass_guru.Base.{
  map, ℕ, String, zero, suc, ◌+◌, ◌-◌, ◌≤◌, ◌≡◌, refl, nat_eq, true, none, some, List, [], ◌∷◌, All,
  Option-cases, inl, inr, arith, ap, string_eq,
}
use glass_guru.Dict.{get, has}
use glass_guru.Dict.Laws.{has-eq-get, is_some}
use glass_guru.Model.Units.{Moment, Date, minutes}
use glass_guru.Model.Entities.{WorkerId, VanId, JobId, Location, Van, TravelLeg, TravelOracle}
use glass_guru.Model.Jobs.{Job}
use glass_guru.Model.Plan.{CrewRoute, Stop, service_minutes}
use glass_guru.World.State.{WorldState}
use glass_guru.Checker.Report.{ValidationConfig}
use glass_guru.Checker.Travel.{
  check_travel_consistency, check_travel_consistency-nil, origin_of, depart_at, HonestFrom,
  IsHonest, known_stops,
}
use glass_guru.Scheduler.Routing.{
  earliest_start, settle_departure, depart_and_arrive, stop_at, stops_from, materialize_route,
}
use glass_guru.Scheduler.Routing.Departure.{
  earliest_start-later, SettlesFrom, IsPriced, arrive-IsPriced,
}

module _ (travel : TravelOracle) where
  settle-later :
      (origin dest : Location) (ready_at target : Moment) (leg : TravelLeg) (n : ℕ)
      (depart : Moment)
      → target ≤ (settle_departure travel origin dest ready_at target leg n depart).1
  unfolding settle_departure
  settle-later origin dest ready_at target leg zero depart = omega arith
  settle-later origin dest ready_at target leg (suc n) depart = ground (
    arith,
    settle-later origin dest ready_at target leg n
        (target - minutes (travel.leg origin dest depart).minutes),
  )

  -- No crew arrives before the drive from the moment that it is ready is over.
  arrive-later :
      (origin : Location) (j : Job) (ready_at : Moment)
      → ready_at + minutes (travel.leg origin j.location ready_at).minutes
        ≤ (depart_and_arrive travel origin j ready_at).1
  unfolding depart_and_arrive
  arrive-later origin j ready_at =
      let leg = travel.leg origin j.location ready_at in
      let naive = ready_at + minutes leg.minutes in
      let target = earliest_start j naive in
      ground (
        arith,
        earliest_start-later j naive,
        settle-later origin j.location ready_at target leg 3 (target - minutes leg.minutes),
      )

  module _ (config : ValidationConfig) (world : WorldState) where
    long_enough :
        (k : JobId) (j : Job) (visit : TravelLeg × Moment)
        → j.estimated_duration_min ≤ service_minutes (stop_at travel k j visit)
    unfolding service_minutes stop_at
    long_enough k j (leg, arrival) = omega arith

    -- A visit after another one.
    IsHonest-next :
        (r : CrewRoute) (previous : Stop) (p : Job) (k : JobId) (j : Job)
        → get world.jobs previous.job_id ≡ some p
        → IsHonest travel config world r
            (some previous)
            (stop_at travel k j (depart_and_arrive travel p.location j previous.departure))
            j
    unfolding stop_at origin_of depart_at
    IsHonest-next r previous p k j there =
        let late = arrive-later p.location j previous.departure in
        rw (there, origin_of) (omega arith, omega arith, long_enough k j _)

    stops_from-Honest :
        (previous : Stop) (p : Job) (ks : List JobId)
        → get world.jobs previous.job_id ≡ some p
        → All (λ k. has world.jobs k ≡ true) ks
        → (out : List Stop × Location × Moment) × (stops_from travel world p.location
              previous.departure ks
            ≡ some out)
          × (map (λ s. s.job_id) out.0 ≡ ks)
          × ((r : CrewRoute)
              → HonestFrom travel config world r
                  (some previous)
                  (known_stops travel config world out.0))
    unfolding stops_from
    stops_from-Honest previous p [] there known =
        (([], p.location, previous.departure), refl, refl, λ r. tt)
    stops_from-Honest previous p (k ∷ ks) there known = elim (Option-cases (get world.jobs k)) [
      | inl missing ↦ absurd (cc (known.0, has-eq-get world.jobs k, ap is_some missing))
      | inr (j, found) ↦
          let s = stop_at travel k j (depart_and_arrive travel p.location j previous.departure) in
          let ((ss, place, end), rest, ids, honest) = stops_from-Honest s j ks found known.1 in
          (
            (s ∷ ss, place, end),
            rw (found, rest, stops_from) refl,
            ap (λ js. k ∷ js) ids,
            λ r. rw (found, known_stops) (IsHonest-next r previous p k j there, honest r),
          )
    ]

  -- The route's first visit, when the drive to it settles.
  IsHonest-first :
      (config : ValidationConfig) (world : WorldState) (r : CrewRoute) (van : Van) (k : JobId)
      (j : Job) (ready_at : Moment)
      → get world.vans r.van_id ≡ some van
      → IsPriced travel van.home_depot j.location ready_at
          (depart_and_arrive travel van.home_depot j ready_at)
      → IsHonest travel config world r none
          (stop_at travel k j (depart_and_arrive travel van.home_depot j ready_at))
          j
  unfolding stop_at origin_of depart_at
  IsHonest-first config world r van k j ready_at there (late, priced) =
      let visit = depart_and_arrive travel van.home_depot j ready_at in
      let same = ap (λ x. x.minutes) priced in
      rw (there, origin_of) (tt, omega arith, long_enough config world k j visit)

  abbrev route_with : String → List WorkerId → VanId → Date → List Stop → TravelLeg → CrewRoute
  route_with crew_id worker_ids van_id on_date ss home = record {
    crew_id = crew_id;
    date = on_date;
    worker_ids = worker_ids;
    van_id = van_id;
    stops = ss;
    return_to_depot_minutes = home.minutes;
    return_to_depot_miles = home.miles;
  }

  -- The departure to the first of the jobs settles.
  abbrev pub FirstSettles : WorldState → Van → Moment → List JobId → Type 0
  FirstSettles world van shift_start [] = Unit
  FirstSettles world van shift_start (k ∷ ks) = elim (get world.jobs k) [
    | none ↦ Unit
    | some j ↦ SettlesFrom travel van.home_depot j shift_start
  ]

  -- The first visit's drive is what the provider says for the moment at which the crew leaves the depot
  -- to arrive when it does, and that is no sooner than the shift's start.
  abbrev pub IsPricedOut : WorldState → Van → Moment → List Stop → Type 0
  IsPricedOut world van shift_start [] = Unit
  IsPricedOut world van shift_start (s ∷ ss) = elim (get world.jobs s.job_id) [
    | none ↦ ⊥
    | some j ↦ IsPriced travel van.home_depot j.location shift_start (
      record { minutes = s.travel_minutes_from_prev; miles = s.travel_miles_from_prev },
      s.arrival,
    )
  ]

  -- Of jobs and a van on record a route is materialised, which visits them all and in their order, whose
  -- first drive is priced at the moment at
  -- which the crew leaves the depot, and the checker's recomputation of its drives and visits finds
  -- nothing wrong with it, whatever its tolerances: when the first of the jobs can begin as soon as a
  -- crew arrives that leaves at the start of the shift, or the drive to it gets no longer, and changes
  -- at most once, from then until the job can begin. Later drives may change in any way.
  pub materialize_route_honest :
      (config : ValidationConfig) (world : WorldState) (crew_id : String)
      (worker_ids : List WorkerId) (van_id : VanId) (van : Van) (on_date : Date) (ks : List JobId)
      (shift_start : Moment)
      → get world.vans van_id ≡ some van
      → All (λ k. has world.jobs k ≡ true) ks
      → FirstSettles world van shift_start ks
      → (r : CrewRoute) × (materialize_route travel world crew_id worker_ids van_id on_date ks
            shift_start
          ≡ some r)
        × (map (λ s. s.job_id) r.stops ≡ ks)
        × IsPricedOut world van shift_start r.stops
        × (check_travel_consistency travel config world (r ∷ []) ≡ [])
  unfolding materialize_route stops_from stop_at
  materialize_route_honest config world crew_id worker_ids van_id van on_date [] shift_start there
        known settles =
      let r = route_with crew_id worker_ids van_id on_date [] (record { minutes = 0; miles = 0 }) in
      (
        r,
        rw (there, materialize_route, stops_from) refl,
        refl,
        tt,
        (check_travel_consistency-nil travel config world (r ∷ [])).1 (tt, tt),
      )
  materialize_route_honest config world crew_id worker_ids van_id van on_date (k ∷ ks) shift_start
        there known settles =
      elim (Option-cases (get world.jobs k)) [
        | inl missing ↦ absurd (cc (known.0, has-eq-get world.jobs k, ap is_some missing))
        | inr (j, found) ↦
            let visit = depart_and_arrive travel van.home_depot j shift_start in
            let s = stop_at travel k j visit in
            let ((ss, place, end), rest, ids, honest) =
              stops_from-Honest config world s j ks found known.1 in
            let home = travel.leg place van.home_depot end in
            let r = route_with crew_id worker_ids van_id on_date (s ∷ ss) home in
            let priced =
              arrive-IsPriced travel van.home_depot j shift_start
                (rw (found, FirstSettles) at settles) in
            let first = IsHonest-first config world r van k j shift_start there priced in
            (
              r,
              rw (there, found, rest, materialize_route, stops_from) refl,
              ap (λ js. k ∷ js) ids,
              rw (found, IsPricedOut) priced,
              (check_travel_consistency-nil travel config world (r ∷ [])).1
                  (rw (found, known_stops) (first, honest r), tt),
            )
      ]
