-- ===== src/Checker/Outages.antt =====
-- `_check_resource_availability`: nobody is scheduled through a known outage.
use glass_guru.Base.{
  ◌≡◌, ◌↔◌, Bool, true, not, ◌&&◌, none, some, List, [], ◌++◌, All, arith, string_eq,
}
use glass_guru.Dict.{has}
use glass_guru.Model.Enums.{ViolationCode}
use glass_guru.Model.Plan.{CrewRoute}
use glass_guru.World.State.{WorldState}
use glass_guru.World.Queries.{is_worker_available, is_van_available}
use glass_guru.Checker.Report.{
  Violation, Span, during_outage, at_span, at_span-nil, ForSpan, collect, emit, append-nil_iff,
  collect-nil,
}

unfoldable pub outage_violation : ViolationCode → CrewRoute → Violation
outage_violation code r = record {
  code = code;
  detail = during_outage;
  job_id = none;
  crew_id = some r.crew_id;
  worker_id = none;
  van_id = none;
  on_date = some r.date;
}

unfoldable pub check_span_availability : WorldState → CrewRoute → Span → List Violation
check_span_availability world r (start, end) =
    collect
      (λ w.
        emit (has world.workers w && not (is_worker_available world w start end))
          (record (outage_violation ViolationCode.worker_unavailable r) { worker_id = some w }))
      r.worker_ids
    ++ emit (has world.vans r.van_id && not (is_van_available world r.van_id start end))
        (record (outage_violation ViolationCode.van_unavailable r) { van_id = some r.van_id })

unfoldable pub check_route_availability : WorldState → CrewRoute → List Violation
unfolding check_span_availability at_span
check_route_availability world r = at_span r (check_span_availability world r)

-- _check_resource_availability
unfoldable pub check_resource_availability : WorldState → List CrewRoute → List Violation
unfolding check_route_availability
check_resource_availability world routes = collect (check_route_availability world) routes

-- For the time of the route, each worker and the van are available, if they are on record.
abbrev pub IsAvailable : WorldState → CrewRoute → Span → Type 0
IsAvailable world r (start, end) =
    All (λ w. has world.workers w ≡ true → is_worker_available world w start end ≡ true)
      r.worker_ids
    × (has world.vans r.van_id ≡ true → is_van_available world r.van_id start end ≡ true)

emit_unless : (a b : Bool) (v : Violation) → (emit (a && not b) v ≡ []) ↔ (a ≡ true → b ≡ true)
unfolding emit
emit_unless a b v = ground arith

check_span_availability-nil :
    (world : WorldState) (r : CrewRoute) (span : Span)
    → (check_span_availability world r span ≡ []) ↔ IsAvailable world r span
unfolding check_span_availability
check_span_availability-nil world r (start, end) =
    append-nil_iff _ _
      (collect-nil (λ w. has world.workers w ≡ true → is_worker_available world w start end ≡ true)
        _ (λ w. emit_unless (has world.workers w) (is_worker_available world w start end) _)
        r.worker_ids)
      (emit_unless (has world.vans r.van_id) (is_van_available world r.van_id start end) _)

-- The check of outages is silent exactly when, for the whole time of each route that has stops, the
-- workers and the van of the route that are on record are free of every recorded outage.
pub check_resource_availability-nil :
    (world : WorldState) (routes : List CrewRoute)
    → (check_resource_availability world routes ≡ [])
      ↔ All (λ r. ForSpan r (IsAvailable world r)) routes
unfolding check_resource_availability check_route_availability
check_resource_availability-nil world routes =
    collect-nil (λ r. ForSpan r (IsAvailable world r)) _
      (λ r.
        at_span-nil r (IsAvailable world r) (check_span_availability world r)
          (check_span_availability-nil world r))
      routes
