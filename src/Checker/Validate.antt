-- ===== src/Checker/Validate.antt =====
-- `validate_plan`: every check in one pass, against the declarative notion of a feasible plan.
use glass_guru.Base.{◌≡◌, ◌↔◌, none, some, List, [], ◌∷◌, ◌++◌, All, Pairs, string_eq}
use glass_guru.Dict.{get}
use glass_guru.Model.Entities.{TravelOracle, Van}
use glass_guru.Model.Plan.{PlanVersion, CrewRoute}
use glass_guru.World.State.{WorldState}
use glass_guru.Checker.Report.{Violation, ValidationConfig, KnownJob, ForSpan, append-nil_iff}
use glass_guru.Checker.References.{check_references, IsKnown, check_references-nil}
use glass_guru.Checker.Duplicates.{
  visits, check_duplicate_assignments, NoJobTwice, check_duplicate_assignments-nil,
}
use glass_guru.Checker.Fitness.{check_crew_fitness, IsFit, check_crew_fitness-nil}
use glass_guru.Checker.Exclusivity.{
  check_resource_exclusivity, Apart, bookings, check_resource_exclusivity-nil,
}
use glass_guru.Checker.Outages.{
  check_resource_availability, IsAvailable, check_resource_availability-nil,
}
use glass_guru.Checker.Travel.{
  check_travel_consistency, HonestFrom, known_stops, check_travel_consistency-nil,
}
use glass_guru.Checker.Windows.{check_windows, IsInWindow, check_windows-nil}
use glass_guru.Checker.Hours.{check_working_hours, CrewOnShift, check_working_hours-nil}
use glass_guru.Checker.Capacity.{check_van_capacity, Carries}
use glass_guru.Checker.Capacity.Silence.{check_van_capacity-nil}
use glass_guru.Checker.Materials.{check_materials, HasParts, check_materials-nil}

-- validate_plan
unfoldable pub validate_plan :
    PlanVersion → WorldState → TravelOracle → ValidationConfig → List Violation
validate_plan plan world travel config =
    check_references world plan.routes
    ++ (check_duplicate_assignments plan.routes
        ++ (check_crew_fitness world plan.routes
            ++ (check_resource_exclusivity plan.routes
                ++ (check_resource_availability world plan.routes
                    ++ (check_travel_consistency travel config world plan.routes
                        ++ (check_windows world config plan.routes
                            ++ (check_working_hours world config plan.routes
                                ++ (check_van_capacity world plan.routes
                                    ++ check_materials world plan.routes))))))))

-- What makes a plan one that the crews can drive.
pub record IsFeasible (plan : PlanVersion) (world : WorldState) (travel : TravelOracle)
    (config : ValidationConfig) : Type 0 where
  pub known : All (IsKnown world) plan.routes
  pub once : NoJobTwice (visits plan.routes)
  pub fit : All (λ (r : CrewRoute). All (λ s. KnownJob world s (IsFit world r)) r.stops) plan.routes
  pub exclusive :
      Pairs Apart (bookings (λ r. r.worker_ids) plan.routes)
      × Pairs Apart (bookings (λ r. r.van_id ∷ []) plan.routes)
  pub available : All (λ r. ForSpan r (IsAvailable world r)) plan.routes
  pub drivable :
      All
        (λ (r : CrewRoute).
          HonestFrom travel config world r none (known_stops travel config world r.stops))
        plan.routes
  pub in_window :
      All
        (λ (r : CrewRoute).
          All (λ s. KnownJob world s (IsInWindow config.released_job_ids s)) r.stops)
        plan.routes
  pub on_shift :
      All (λ r. ForSpan r (λ span. All (CrewOnShift world config span) r.worker_ids)) plan.routes
  pub carried :
      All
        (λ (r : CrewRoute). (van : Van) → get world.vans r.van_id ≡ some van → Carries world r van)
        plan.routes
  pub supplied :
      All (λ (r : CrewRoute). All (λ s. KnownJob world s (HasParts r)) r.stops) plan.routes

module _ (plan : PlanVersion) (world : WorldState) (travel : TravelOracle)
    (config : ValidationConfig) where
  -- Nothing is reported of a plan exactly when it is feasible: all it names is on record, no job is
  -- visited twice, crews are certified and large enough, no worker or van is booked twice or during
  -- an outage, drives and visits have the time they need, visits keep to their windows, crews to
  -- their hours, vans to their load, and parts are there in time.
  pub validate_plan-nil :
      (validate_plan plan world travel config ≡ []) ↔ IsFeasible plan world travel config
  unfolding validate_plan
  validate_plan-nil =
      let rs = plan.routes in
      let from_ninth =
        append-nil_iff _ _ (check_van_capacity-nil world rs) (check_materials-nil world rs) in
      let from_eighth = append-nil_iff _ _ (check_working_hours-nil world config rs) from_ninth in
      let from_seventh = append-nil_iff _ _ (check_windows-nil world config rs) from_eighth in
      let from_sixth =
        append-nil_iff _ _ (check_travel_consistency-nil travel config world rs) from_seventh in
      let from_fifth = append-nil_iff _ _ (check_resource_availability-nil world rs) from_sixth in
      let from_fourth = append-nil_iff _ _ (check_resource_exclusivity-nil rs) from_fifth in
      let from_third = append-nil_iff _ _ (check_crew_fitness-nil world rs) from_fourth in
      let from_second = append-nil_iff _ _ (check_duplicate_assignments-nil rs) from_third in
      let all = append-nil_iff _ _ (check_references-nil world rs) from_second in
      (
        λ silent.
            let t = all.0 silent in
            record {
              known = t.0;
              once = t.1.0;
              fit = t.1.1.0;
              exclusive = t.1.1.1.0;
              available = t.1.1.1.1.0;
              drivable = t.1.1.1.1.1.0;
              in_window = t.1.1.1.1.1.1.0;
              on_shift = t.1.1.1.1.1.1.1.0;
              carried = t.1.1.1.1.1.1.1.1.0;
              supplied = t.1.1.1.1.1.1.1.1.1;
            },
        λ p. all.1 (
          p.known,
          (
            p.once,
            (
              p.fit,
              (
                p.exclusive,
                (p.available, (p.drivable, (p.in_window, (p.on_shift, (p.carried, p.supplied))))),
              ),
            ),
          ),
        ),
      )
