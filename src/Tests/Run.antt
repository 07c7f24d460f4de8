-- ===== src/Tests/Run.antt =====
-- The checker run on the two plans of the small business.
use glass_guru.Base.{◌≡◌, refl, none, some, [], ◌∷◌}
use glass_guru.Model.Enums.{ViolationCode}
use glass_guru.Checker.Report.{Violation, Detail}
use glass_guru.Checker.Validate.{validate_plan, IsFeasible, validate_plan-nil}
use glass_guru.Tests.Data.{small_world, steady, strict, good_plan, late_plan, at, monday, morning}

good_plan_valid : validate_plan good_plan small_world steady strict ≡ []
unfolding validate_plan glass_guru.Checker.References.check_references
    glass_guru.Checker.Report.collect glass_guru.Checker.Report.emit glass_guru.Dict.has
    glass_guru.Checker.Duplicates.check_duplicate_assignments glass_guru.Checker.Duplicates.visits
    glass_guru.Dict.put glass_guru.Checker.Fitness.check_crew_fitness glass_guru.Dict.get
    glass_guru.Checker.Fitness.is_empty glass_guru.Checker.Fitness.missing
    glass_guru.Checker.Exclusivity.check_resource_exclusivity glass_guru.Checker.Report.route_span
    glass_guru.Dict.get_or glass_guru.Checker.Outages.check_resource_availability
    glass_guru.World.Queries.is_worker_available glass_guru.World.Queries.is_van_available
    glass_guru.Base.Sort.insert glass_guru.Base.Sort.sorted glass_guru.Base.Text.text_leb
    glass_guru.Checker.Capacity.add_needs glass_guru.Checker.Capacity.add_route_needs
    glass_guru.Checker.Capacity.capacity_violation glass_guru.Checker.Capacity.check_load
    glass_guru.Checker.Capacity.check_route_load glass_guru.Checker.Capacity.check_van_capacity
    glass_guru.Checker.Capacity.count_panes glass_guru.Checker.Capacity.panes_of
    glass_guru.Checker.Duplicates.duplicate_violation glass_guru.Checker.Duplicates.find_duplicates
    glass_guru.Checker.Exclusivity.check_spans glass_guru.Checker.Exclusivity.clash_workers
    glass_guru.Checker.Exclusivity.clashes glass_guru.Checker.Exclusivity.note_span
    glass_guru.Checker.Exclusivity.note_workers glass_guru.Checker.Exclusivity.van_violation
    glass_guru.Checker.Exclusivity.worker_violation glass_guru.Checker.Fitness.check_job_fitness
    glass_guru.Checker.Fitness.check_stop_fitness glass_guru.Checker.Fitness.fitness_violation
    glass_guru.Checker.Fitness.held glass_guru.Checker.Hours.check_member_hours
    glass_guru.Checker.Hours.check_shift glass_guru.Checker.Hours.check_worker_hours
    glass_guru.Checker.Hours.check_working_hours glass_guru.Checker.Hours.hours_violation
    glass_guru.Checker.Hours.late_reason glass_guru.Checker.Materials.check_job_materials
    glass_guru.Checker.Materials.check_materials glass_guru.Checker.Materials.late_parts
    glass_guru.Checker.Outages.check_route_availability
    glass_guru.Checker.Outages.check_span_availability glass_guru.Checker.Outages.outage_violation
    glass_guru.Checker.References.check_route_references
    glass_guru.Checker.References.reference_violation glass_guru.Checker.Report.at_job
    glass_guru.Checker.Report.at_span glass_guru.Checker.Report.overlaps
    glass_guru.Checker.Travel.check_drive glass_guru.Checker.Travel.check_legs
    glass_guru.Checker.Travel.check_order glass_guru.Checker.Travel.check_travel_consistency
    glass_guru.Checker.Travel.check_visit glass_guru.Checker.Travel.depart_at
    glass_guru.Checker.Travel.origin_of glass_guru.Checker.Travel.travel_violation
    glass_guru.Checker.Windows.check_job_windows glass_guru.Checker.Windows.check_windows
    glass_guru.Checker.Windows.is_binding glass_guru.Checker.Windows.matching_window
    glass_guru.Checker.Windows.missed_window glass_guru.Checker.Windows.window_violation
    glass_guru.Model.Entities.available_from glass_guru.Model.Entities.contains
    glass_guru.Model.Entities.has_stock glass_guru.Model.Entities.hours_for
    glass_guru.Model.Jobs.earliest_material_date glass_guru.Model.Jobs.latest_date
    glass_guru.Model.Plan.service_minutes glass_guru.World.Outages.covers
    glass_guru.World.Queries.is_out
good_plan_valid = refl

good_plan-IsFeasible : IsFeasible good_plan small_world steady strict
good_plan-IsFeasible = (validate_plan-nil good_plan small_world steady strict).0 good_plan_valid

late_plan_reported :
    validate_plan late_plan small_world steady strict
    ≡ record {
      code = ViolationCode.confirmed_window_moved;
      detail = Detail.promised_window_moved (at 900) (at 960) (morning ∷ []);
      job_id = some "j1";
      crew_id = some "crew1";
      worker_id = none;
      van_id = none;
      on_date = some monday;
    }
      ∷ []
unfolding validate_plan glass_guru.Checker.References.check_references
    glass_guru.Checker.Report.collect glass_guru.Checker.Report.emit glass_guru.Dict.has
    glass_guru.Checker.Duplicates.check_duplicate_assignments glass_guru.Checker.Duplicates.visits
    glass_guru.Dict.put glass_guru.Checker.Fitness.check_crew_fitness glass_guru.Dict.get
    glass_guru.Checker.Fitness.is_empty glass_guru.Checker.Fitness.missing
    glass_guru.Checker.Exclusivity.check_resource_exclusivity glass_guru.Checker.Report.route_span
    glass_guru.Dict.get_or glass_guru.Checker.Outages.check_resource_availability
    glass_guru.World.Queries.is_worker_available glass_guru.World.Queries.is_van_available
    glass_guru.Base.Sort.insert glass_guru.Base.Sort.sorted glass_guru.Base.Text.text_leb
    glass_guru.Checker.Capacity.add_needs glass_guru.Checker.Capacity.add_route_needs
    glass_guru.Checker.Capacity.capacity_violation glass_guru.Checker.Capacity.check_load
    glass_guru.Checker.Capacity.check_route_load glass_guru.Checker.Capacity.check_van_capacity
    glass_guru.Checker.Capacity.count_panes glass_guru.Checker.Capacity.panes_of
    glass_guru.Checker.Duplicates.duplicate_violation glass_guru.Checker.Duplicates.find_duplicates
    glass_guru.Checker.Exclusivity.check_spans glass_guru.Checker.Exclusivity.clash_workers
    glass_guru.Checker.Exclusivity.clashes glass_guru.Checker.Exclusivity.note_span
    glass_guru.Checker.Exclusivity.note_workers glass_guru.Checker.Exclusivity.van_violation
    glass_guru.Checker.Exclusivity.worker_violation glass_guru.Checker.Fitness.check_job_fitness
    glass_guru.Checker.Fitness.check_stop_fitness glass_guru.Checker.Fitness.fitness_violation
    glass_guru.Checker.Fitness.held glass_guru.Checker.Hours.check_member_hours
    glass_guru.Checker.Hours.check_shift glass_guru.Checker.Hours.check_worker_hours
    glass_guru.Checker.Hours.check_working_hours glass_guru.Checker.Hours.hours_violation
    glass_guru.Checker.Hours.late_reason glass_guru.Checker.Materials.check_job_materials
    glass_guru.Checker.Materials.check_materials glass_guru.Checker.Materials.late_parts
    glass_guru.Checker.Outages.check_route_availability
    glass_guru.Checker.Outages.check_span_availability glass_guru.Checker.Outages.outage_violation
    glass_guru.Checker.References.check_route_references
    glass_guru.Checker.References.reference_violation glass_guru.Checker.Report.at_job
    glass_guru.Checker.Report.at_span glass_guru.Checker.Report.overlaps
    glass_guru.Checker.Travel.check_drive glass_guru.Checker.Travel.check_legs
    glass_guru.Checker.Travel.check_order glass_guru.Checker.Travel.check_travel_consistency
    glass_guru.Checker.Travel.check_visit glass_guru.Checker.Travel.depart_at
    glass_guru.Checker.Travel.origin_of glass_guru.Checker.Travel.travel_violation
    glass_guru.Checker.Windows.check_job_windows glass_guru.Checker.Windows.check_windows
    glass_guru.Checker.Windows.is_binding glass_guru.Checker.Windows.matching_window
    glass_guru.Checker.Windows.missed_window glass_guru.Checker.Windows.window_violation
    glass_guru.Model.Entities.available_from glass_guru.Model.Entities.contains
    glass_guru.Model.Entities.has_stock glass_guru.Model.Entities.hours_for
    glass_guru.Model.Jobs.earliest_material_date glass_guru.Model.Jobs.latest_date
    glass_guru.Model.Plan.service_minutes glass_guru.World.Outages.covers
    glass_guru.World.Queries.is_out
late_plan_reported = refl
