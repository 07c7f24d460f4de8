-- ===== src/Tests/Checks.antt =====
-- The checker's theorems for the plans of the small business.
use glass_guru.Base.{◌≡◌, ◌↔◌, none, some, [], All, string_eq, refl, inl, true, false}
use glass_guru.Dict.{get}
use glass_guru.Model.Entities.{Van}
use glass_guru.Model.Plan.{CrewRoute}
use glass_guru.Checker.Report.{
  KnownJob, ForSpan, ValidationConfig, Violation, Detail, OvertimeReason, emit,
}
use glass_guru.Checker.Windows.{check_windows, IsInWindow, check_windows-nil}
use glass_guru.Model.Units.{minutes}
use glass_guru.Model.Enums.{ViolationCode}
use glass_guru.Tests.Data.{
  bob, all_day, route_of, at, monday, small_world, steady, strict, good_routes, good_plan,
  late_plan,
}
use glass_guru.Checker.Hours.{
  check_shift, late_reason, hours_violation, late_end_reason, check_working_hours, CrewOnShift,
  check_working_hours-nil,
}
use glass_guru.Checker.Capacity.{check_van_capacity, Carries}
use glass_guru.Checker.Capacity.Silence.{check_van_capacity-nil}
use glass_guru.Checker.Validate.{validate_plan, IsFeasible, validate_plan-nil}
use glass_guru.Checker.Baseline.{validate_against_baseline, StaysPut, validate_against_baseline-nil}

validate_plan-nil_example :
    (validate_plan good_plan small_world steady strict ≡ [])
    ↔ IsFeasible good_plan small_world steady strict
validate_plan-nil_example = validate_plan-nil good_plan small_world steady strict

validate_against_baseline-nil_example :
    (validate_against_baseline late_plan good_plan small_world ≡ [])
    ↔ All
        (λ (r : CrewRoute). All (λ s. KnownJob small_world s (StaysPut late_plan r s)) r.stops)
        good_routes
validate_against_baseline-nil_example =
    validate_against_baseline-nil late_plan good_plan small_world

check_windows-nil_example :
    (check_windows small_world strict good_routes ≡ [])
    ↔ All
        (λ (r : CrewRoute). All (λ s. KnownJob small_world s (IsInWindow [] s)) r.stops)
        good_routes
check_windows-nil_example = check_windows-nil small_world strict good_routes

check_working_hours-nil_example :
    (check_working_hours small_world strict good_routes ≡ [])
    ↔ All
        (λ r. ForSpan r (λ span. All (CrewOnShift small_world strict span) r.worker_ids))
        good_routes
check_working_hours-nil_example = check_working_hours-nil small_world strict good_routes

check_van_capacity-nil_example :
    (check_van_capacity small_world good_routes ≡ [])
    ↔ All
        (λ (r : CrewRoute).
          (van : Van) → get small_world.vans r.van_id ≡ some van → Carries small_world r van)
        good_routes
check_van_capacity-nil_example = check_van_capacity-nil small_world good_routes

abbrev lenient : ValidationConfig
lenient = record strict { allow_overtime = true }

-- Bob, not eligible for overtime, out until six.
abbrev late_end : Violation
late_end = record {
  code = ViolationCode.outside_working_hours;
  detail = Detail.ends_late (minutes 1080) (minutes 1020) OvertimeReason.overtime_disabled;
  job_id = none;
  crew_id = some "crew1";
  worker_id = some "w2";
  van_id = none;
  on_date = some monday;
}

late_end_reason_example : (lenient.allow_overtime ≡ true) × (bob.overtime_eligible ≡ false)
unfolding check_shift emit late_reason hours_violation
late_end_reason_example =
    late_end_reason lenient (route_of []) (at 540) (at 1080) bob "w2" all_day late_end
      (minutes 1080) (minutes 1020) (inl refl) refl
