-- ===== src/Checker/References.antt =====
-- `_check_references`: every worker, van and job that a route names is on record.
use glass_guru.Base.{◌≡◌, ◌↔◌, true, not, none, some, List, [], ◌++◌, All, string_eq}
use glass_guru.Dict.{has}
use glass_guru.Model.Enums.{ViolationCode}
use glass_guru.Model.Plan.{CrewRoute, Stop}
use glass_guru.World.State.{WorldState}
use glass_guru.Checker.Report.{
  Violation, Detail, unknown_worker, unknown_van, unknown_job, collect, emit, append-nil_iff₃,
  collect-nil, emit-not,
}

unfoldable pub reference_violation : CrewRoute → Detail → Violation
reference_violation r d = record {
  code = ViolationCode.unknown_entity_reference;
  detail = d;
  job_id = none;
  crew_id = some r.crew_id;
  worker_id = none;
  van_id = none;
  on_date = some r.date;
}

unfoldable pub check_route_references : WorldState → CrewRoute → List Violation
check_route_references world r =
    collect
      (λ w.
        emit (not (has world.workers w))
          (record (reference_violation r (unknown_worker w)) { worker_id = some w }))
      r.worker_ids
    ++ (emit (not (has world.vans r.van_id))
          (record (reference_violation r (unknown_van r.van_id)) { van_id = some r.van_id })
        ++ collect
            (λ (s : Stop).
              emit (not (has world.jobs s.job_id))
                (record (reference_violation r (unknown_job s.job_id)) { job_id = some s.job_id }))
            r.stops)

-- _check_references
unfoldable pub check_references : WorldState → List CrewRoute → List Violation
unfolding check_route_references
check_references world routes = collect (check_route_references world) routes

-- Every worker, van and job of the route is on record.
abbrev pub IsKnown : WorldState → CrewRoute → Type 0
IsKnown world r =
    All (λ w. has world.workers w ≡ true) r.worker_ids
    × (has world.vans r.van_id ≡ true)
    × All (λ (s : Stop). has world.jobs s.job_id ≡ true) r.stops

check_route_references-nil :
    (world : WorldState) (r : CrewRoute) → (check_route_references world r ≡ []) ↔ IsKnown world r
unfolding check_route_references
check_route_references-nil world r =
    append-nil_iff₃ _ _ _
      (collect-nil (λ w. has world.workers w ≡ true) _ (λ w. emit-not (has world.workers w) _)
        r.worker_ids)
      (emit-not (has world.vans r.van_id) _)
      (collect-nil (λ (s : Stop). has world.jobs s.job_id ≡ true) _
        (λ s. emit-not (has world.jobs s.job_id) _) r.stops)

-- The check of references is silent exactly when every worker, van and job that a route names is on
-- record.
pub check_references-nil :
    (world : WorldState) (routes : List CrewRoute)
    → (check_references world routes ≡ []) ↔ All (IsKnown world) routes
unfolding check_references
check_references-nil world routes =
    collect-nil (IsKnown world) (check_route_references world) (check_route_references-nil world)
      routes
