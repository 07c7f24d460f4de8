-- ===== src/Checker/Travel.antt =====
-- `_check_travel_consistency`: every drive and every visit recomputed.
use glass_guru.Base.{
  ◌+◌, ◌-◌, ◌≤◌, ◌≡◌, ◌↔◌, refl, Option, none, some, List, [], ◌∷◌, ◌++◌, ltb, All, Option-cases,
  inl, inr, arith, string_eq,
}
use glass_guru.Dict.{get}
use glass_guru.Model.Units.{Moment, minutes}
use glass_guru.Model.Enums.{ViolationCode}
use glass_guru.Model.Entities.{Location, TravelOracle}
use glass_guru.Model.Jobs.{Job}
use glass_guru.Model.Plan.{CrewRoute, Stop, service_minutes}
use glass_guru.World.State.{WorldState}
use glass_guru.Checker.Report.{
  Violation, Detail, ValidationConfig, arrives_before_leaving, drive_too_long, visit_too_short,
  emit, emit-ltb, append-nil_iff, append-nil_iff₃, collect, collect-nil,
}

module _ (travel : TravelOracle) (config : ValidationConfig) where
  -- the place that a drive begins at, and the moment
  unfoldable pub origin_of : WorldState → CrewRoute → Option Stop → Option Location
  origin_of world r none = elim (get world.vans r.van_id) [
    | none ↦ none
    | some van ↦ some van.home_depot
  ]
  origin_of world r (some previous) = elim (get world.jobs previous.job_id) [
    | none ↦ none
    | some job ↦ some job.location
  ]

  unfoldable pub depart_at : Option Stop → Stop → Moment
  depart_at none s = s.arrival - minutes s.travel_minutes_from_prev
  depart_at (some previous) s = previous.departure

  unfoldable pub travel_violation : CrewRoute → Stop → Detail → Violation
  travel_violation r s detail = record {
    code = ViolationCode.travel_time_inconsistent;
    detail = detail;
    job_id = some s.job_id;
    crew_id = some r.crew_id;
    worker_id = none;
    van_id = none;
    on_date = some r.date;
  }

  unfoldable pub check_order : CrewRoute → Option Stop → Stop → List Violation
  check_order r none s = []
  check_order r (some previous) s =
      emit (ltb s.arrival previous.departure)
        (travel_violation r s (arrives_before_leaving s.arrival previous.departure))

  unfoldable pub check_drive : CrewRoute → Option Location → Moment → Stop → Job → List Violation
  check_drive r none depart s j = []
  check_drive r (some origin) depart s j =
      let expected = travel.leg origin j.location depart in
      emit (ltb s.arrival (depart + minutes expected.minutes - minutes config.travel_slack_minutes))
        (travel_violation r s (drive_too_long s.arrival expected.minutes depart))

  unfoldable pub check_visit : WorldState → CrewRoute → Option Stop → Stop → Job → List Violation
  unfolding check_order check_drive origin_of depart_at
  check_visit world r previous s j =
      check_order r previous s
      ++ (check_drive r (origin_of world r previous) (depart_at previous s) s j
          ++ emit (ltb (service_minutes s) j.estimated_duration_min)
              (record (travel_violation r s
                (visit_too_short (service_minutes s) j.estimated_duration_min)) {
                  job_id = some j.id;
                }))

  -- the loop over a route's stops; one whose job is not on record is passed over
  unfoldable pub check_legs : WorldState → CrewRoute → Option Stop → List Stop → List Violation
  unfolding check_visit
  check_legs world r previous [] = []
  check_legs world r previous (s ∷ ss) =
      let skipped = check_legs world r previous ss in
      let next = check_legs world r (some s) ss in
      elim (get world.jobs s.job_id) [
        | none ↦ skipped
        | some j ↦ check_visit world r previous s j ++ next
      ]

  -- _check_travel_consistency
  unfoldable pub check_travel_consistency : WorldState → List CrewRoute → List Violation
  unfolding check_legs
  check_travel_consistency world routes = collect (λ r. check_legs world r none r.stops) routes

  -- The visit of a known job is honest: it begins after the one before has ended, no sooner than
  -- the drive allows, up to the slack, and is as long as the job needs.
  abbrev pub AfterPrevious : Option Stop → Stop → Type 0
  AfterPrevious none s = Unit
  AfterPrevious (some previous) s = previous.departure ≤ s.arrival

  abbrev pub Drivable : Option Location → Moment → Stop → Job → Type 0
  Drivable none depart s j = Unit
  Drivable (some origin) depart s j =
      depart + minutes (travel.leg origin j.location depart).minutes
      ≤ s.arrival + minutes config.travel_slack_minutes

  abbrev pub IsHonest : WorldState → CrewRoute → Option Stop → Stop → Job → Type 0
  IsHonest world r previous s j =
      AfterPrevious previous s
      × Drivable (origin_of world r previous) (depart_at previous s) s j
      × (j.estimated_duration_min ≤ service_minutes s)

  -- The stops whose jobs are on record, with the jobs.
  abbrev pub known_stops : WorldState → List Stop → List (Stop × Job)
  known_stops world [] = []
  known_stops world (s ∷ ss) = elim (get world.jobs s.job_id) [
    | none ↦ known_stops world ss
    | some j ↦ (s, j) ∷ known_stops world ss
  ]

  -- Each visit is honest after the one before it.
  abbrev pub HonestFrom : WorldState → CrewRoute → Option Stop → List (Stop × Job) → Type 0
  HonestFrom world r previous [] = Unit
  HonestFrom world r previous ((s, j) ∷ rest) =
      IsHonest world r previous s j × HonestFrom world r (some s) rest

  check_order-nil :
      (r : CrewRoute) (previous : Option Stop) (s : Stop)
      → (check_order r previous s ≡ []) ↔ AfterPrevious previous s
  unfolding check_order
  check_order-nil r none s = (λ h. tt, λ h. refl)
  check_order-nil r (some previous) s = emit-ltb s.arrival previous.departure _

  check_drive-nil :
      (r : CrewRoute) (o : Option Location) (depart : Moment) (s : Stop) (j : Job)
      → (check_drive r o depart s j ≡ []) ↔ Drivable o depart s j
  unfolding check_drive emit
  check_drive-nil r none depart s j = (λ h. tt, λ h. refl)
  check_drive-nil r (some origin) depart s j = ground arith

  check_visit-nil :
      (world : WorldState) (r : CrewRoute) (previous : Option Stop) (s : Stop) (j : Job)
      → (check_visit world r previous s j ≡ []) ↔ IsHonest world r previous s j
  unfolding check_visit
  check_visit-nil world r previous s j =
      append-nil_iff₃ _ _ _ (check_order-nil r previous s)
        (check_drive-nil r (origin_of world r previous) (depart_at previous s) s j)
        (emit-ltb (service_minutes s) j.estimated_duration_min _)

  check_legs-nil :
      (world : WorldState) (r : CrewRoute) (ss : List Stop) (previous : Option Stop)
      → (check_legs world r previous ss ≡ []) ↔ HonestFrom world r previous (known_stops world ss)
  unfolding check_legs
  check_legs-nil world r [] previous = (λ h. tt, λ h. refl)
  check_legs-nil world r (s ∷ ss) previous = elim (Option-cases (get world.jobs s.job_id)) [
    | inl unknown ↦ rw (unknown, check_legs, known_stops) (check_legs-nil world r ss previous)
    | inr (j, there) ↦
        rw (there, check_legs, known_stops)
          (append-nil_iff (check_visit world r previous s j) _
            (check_visit-nil world r previous s j) (check_legs-nil world r ss (some s)))
  ]

  -- The travel check is silent exactly when, along each route, every visit to a job on record
  -- begins after the one before it has ended, no sooner than the recomputed drive from there (for
  -- the first one from the van's depot) allows, up to the slack, and lasts as long as the job
  -- needs.
  pub check_travel_consistency-nil :
      (world : WorldState) (routes : List CrewRoute)
      → (check_travel_consistency world routes ≡ [])
        ↔ All (λ (r : CrewRoute). HonestFrom world r none (known_stops world r.stops)) routes
  unfolding check_travel_consistency
  check_travel_consistency-nil world routes =
      collect-nil (λ (r : CrewRoute). HonestFrom world r none (known_stops world r.stops)) _
        (λ r. check_legs-nil world r r.stops none) routes
