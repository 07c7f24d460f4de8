-- ===== src/Tests/Service.antt =====
-- The service run for the small business: a week planned while a job is under way, and an outage that
-- is absorbed with no human asked.
use glass_guru.Base.{
  ℕ, String, ◌≡◌, ◌⊎◌, ◌↔◌, refl, true, false, none, some, List, [], ◌∷◌, All, Member, string_eq,
}
use glass_guru.Dict.{get}
use glass_guru.Model.Jobs.{Job}
use glass_guru.Model.Plan.{PlanVersion, Stop, scheduled_job_ids, job_ids}
use glass_guru.Events.{Event, Body}
use glass_guru.World.State.{WorldState}
use glass_guru.World.Queries.{schedulable_jobs}
use glass_guru.Checker.Baseline.{validate_against_baseline}
use glass_guru.Checker.Validate.{IsFeasible}
use glass_guru.Store.PlanStore.{Directory, version, head}
use glass_guru.Store.Files.{strip, strip_start, strip_end}
use glass_guru.Scheduler.Horizon.Accounts.{Listed}
use glass_guru.Scheduler.Repair.Locked.{locked_jobs}
use glass_guru.Scheduler.Repair.Options.Sound.{RoutesGiven}
use glass_guru.Service.{
  Files, PlanResult, Planned, Reroute, config_with, planning_state, world_of, plan_week,
  quiet_reroute,
}
use glass_guru.Service.Planning.{plan_week_keeps}
use glass_guru.Service.Rerouting.{IsSafe, quiet_reroute-IsSafe}
use glass_guru.Tests.Data.{
  at, monday, ann, bob, truck, steady, window_job, screen_job, visit, good_plan,
}
use glass_guru.Tests.Log.{event, booked}
use glass_guru.Tests.Store.{events, plans, first_store}
use glass_guru.Tests.Solver.{settings, fixed, bobs_route}
use glass_guru.Tests.Scheduler.{busy_world, busy_world-own, good_routes-once, rest_of_day}

abbrev files : List Event → Files Event PlanVersion
files log = record { events = some log; plans = first_store }

week-RoutesGiven :
    RoutesGiven
      (fixed rest_of_day)
      (planning_state busy_world (some good_plan) (locked_jobs busy_world)).0
unfolding glass_guru.Service.plan_week glass_guru.Dict.values glass_guru.Dict.has
    glass_guru.Base.Sort.sorted glass_guru.Checker.Baseline.is_locked
    glass_guru.Model.Plan.scheduled_job_ids glass_guru.Scheduler.Repair.Locked.locked_jobs
    glass_guru.Scheduler.Repair.Locked.carve_out_locked
week-RoutesGiven travel d todays locked params pinned = (refl, tt)

plan_week_keeps_example :
    (result : PlanResult) × (plan_week
        (settings rest_of_day)
        events
        plans
        (files (booked ∷ []))
        (some busy_world)
        monday
        true
        none
      ≡ Planned.planned result)
    × (validate_against_baseline result.plan good_plan busy_world ≡ [])
    × All
        (λ (j : Job).
          Member j.id (scheduled_job_ids result.plan.routes) ⊎ Listed j.id result.plan.unserved)
        (schedulable_jobs (planning_state busy_world (some good_plan) (locked_jobs busy_world)).0)
    × ((result.violations ≡ [])
        ↔ IsFeasible result.plan busy_world steady (config_with (λ t. t) true))
unfolding head version strip strip_start strip_end get
plan_week_keeps_example =
    plan_week_keeps (settings rest_of_day) events plans (files (booked ∷ [])) busy_world good_plan
      monday true none refl busy_world-own good_routes-once week-RoutesGiven

-- Ann, who drives the committed plan, is out from now on.
abbrev sick_log : List Event
sick_log =
    event "e1" 1 (Body.worker_registered ann)
    ∷ event "e2" 2 (Body.worker_registered bob)
    ∷ event "e3" 3 (Body.van_registered truck)
    ∷ event "e4" 4 (Body.job_requested window_job)
    ∷ event "e5" 5 (Body.job_requested screen_job)
    ∷ event "e6" 6 (
        Body.worker_unavailable
          record { worker_id = "w1"; from_time = at 6; until_time = none; reason = "sick" })
    ∷ []

abbrev whole_day : List Stop
whole_day = visit "j1" 540 600 ∷ visit "j2" 840 900 ∷ []

-- The same visits, by Bob.
abbrev bobs_plan : PlanVersion
bobs_plan = record good_plan {
  id = "p3";
  parent_id = some "p1";
  created_at = at 6;
  routes = bobs_route whole_day ∷ [];
  label = "least_disruption";
}

abbrev rerouted_plans : Directory PlanVersion
rerouted_plans = record {
  head_file = some "p3";
  versions = ("p1", good_plan) ∷ ("p3", bobs_plan) ∷ [];
}

sick_log-rerouted :
    quiet_reroute (settings whole_day) events plans (files sick_log)
    ≡ Reroute.rerouted rerouted_plans 2
unfolding glass_guru.Service.quiet_reroute glass_guru.Dict.values glass_guru.Dict.has
    glass_guru.Dict.put glass_guru.Dict.get_or glass_guru.Autonomy.decide
    glass_guru.Store.PlanStore.commit glass_guru.Store.EventLog.seed glass_guru.Store.Files.strip
    glass_guru.Base.Text.text_leb glass_guru.Base.Sort.sorted
    glass_guru.Checker.Travel.check_travel_consistency glass_guru.Checker.Validate.validate_plan
    glass_guru.Checker.Capacity.check_van_capacity glass_guru.Checker.Report.route_span
    glass_guru.Checker.Report.collect glass_guru.Checker.Report.emit
    glass_guru.Checker.Outages.check_resource_availability
    glass_guru.Checker.Materials.check_materials
    glass_guru.Checker.Exclusivity.check_resource_exclusivity
    glass_guru.Checker.Hours.check_working_hours glass_guru.Checker.Duplicates.visits
    glass_guru.Checker.Duplicates.check_duplicate_assignments
    glass_guru.Checker.Windows.check_windows glass_guru.Checker.Fitness.missing
    glass_guru.Checker.Fitness.is_empty glass_guru.Checker.Fitness.check_crew_fitness
    glass_guru.Checker.Baseline.validate_against_baseline
    glass_guru.Checker.References.check_references glass_guru.Model.Entities.hours_for
    glass_guru.Model.Entities.has_stock glass_guru.Model.Jobs.is_active
    glass_guru.Model.Jobs.earliest_material_date glass_guru.Model.Plan.service_minutes
    glass_guru.Model.Plan.scheduled_job_ids glass_guru.World.Outages.covers
    glass_guru.World.Apply.apply glass_guru.World.Fold.event_leb glass_guru.World.Fold.last_recorded
    glass_guru.World.Fold.fold glass_guru.World.Queries.request_leb
    glass_guru.World.Queries.schedulable_jobs glass_guru.World.Queries.is_worker_available
    glass_guru.World.Queries.is_van_available glass_guru.Scheduler.Horizon.plan_horizon
    glass_guru.Scheduler.Repair.Locked.locked_jobs
    glass_guru.Scheduler.Repair.Locked.carve_out_locked
    glass_guru.Scheduler.Repair.Options.best_by_fewest_calls
    glass_guru.Scheduler.Repair.Options.repair_plan glass_guru.Scheduler.Horizon.Report.distinct
    glass_guru.Scheduler.Horizon.Report.report_all glass_guru.Diff.Plans.diff_plans
    glass_guru.Diff.Changes.is_visible glass_guru.Diff.Changes.blast_radius
    glass_guru.Diff.Changes.customer_visible_changes
sick_log-rerouted = refl

quiet_reroute-IsSafe_example :
    (world : WorldState) × (plan : PlanVersion) × (world_of
        (settings whole_day)
        events
        plans
        (files sick_log)
        none
      ≡ some world)
    × (head plans rerouted_plans ≡ some plan)
    × IsSafe (settings whole_day) events plans world good_plan plan
unfolding head version strip strip_start strip_end get
quiet_reroute-IsSafe_example =
    quiet_reroute-IsSafe (settings whole_day) events plans (files sick_log) good_plan rerouted_plans
      2 refl good_routes-once (λ i. refl) sick_log-rerouted
