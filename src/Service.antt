-- ===== src/Service.antt =====
-- `DispatchService` (src/krama/service.py): the log, the plans, the checker and the scheduler put
-- together, and the rerouting that needs no human (`_quiet_reroute` of src/krama/api/main.py).
pub mod Planning
pub mod Rerouting
use glass_guru.Base.{
  ℕ, suc, ◌+◌, ◌-◌, String, Bool, true, false, not, ◌&&◌, Option, none, some, List, [], ◌∷◌, ◌++◌,
  map, length, all, mem, ◌==◌, nat_eq, string_eq, if◌then◌else◌,
}
use mathlib.Core.Option
use glass_guru.Dict.{Dict}
use glass_guru.Model.Units.{Moment, Date}
use glass_guru.Model.Units.Int.{ℤ, pos}
use glass_guru.Model.Entities.{JobId, WorkerId, TravelOracle}
use glass_guru.Model.Plan.{PlanVersion, CrewRoute, CostBreakdown, scheduled_job_ids}
use glass_guru.Events.{Event}
use glass_guru.World.State.{WorldState}
use glass_guru.World.Fold.{fold}
use glass_guru.Checker.Report.{Violation, ValidationConfig}
use glass_guru.Checker.Validate.{validate_plan}
use glass_guru.Diff.Changes.{PlanDiff}
use glass_guru.Diff.Plans.{diff_plans}
use glass_guru.Autonomy.{AutonomyPolicy, AutonomyDecision, decide, is_auto}
use glass_guru.Store.Files.{Json}
use glass_guru.Store.EventLog.{append, read, exists}
use glass_guru.Store.PlanStore.{Directory, Commit, version, head, history, commit}
use glass_guru.Scheduler.Params.{SolveParams, HorizonParams, HorizonResult}
use glass_guru.Scheduler.Horizon.{Solves, Request, plan_horizon}
use glass_guru.Scheduler.Repair.Locked.{locked_jobs, carve_out_locked}
use glass_guru.Scheduler.Repair.Options.{
  RepairOptions, RepairCandidate, all_strategies, request, repair_plan, best_by_fewest_calls,
  customer_calls, changes, no_cost,
}

-- What the service is set up with: the parameters that it reads from the business's file, the
-- provider of drives for a world, the solver, the clocks, and the two f-strings that name plans.
pub record Settings : Type 0 where
  pub business_tz : Moment → Moment
  pub wall : Moment → Moment
  pub params : SolveParams
  pub horizon_params : HorizonParams
  pub policy : AutonomyPolicy
  pub travel : WorldState → TravelOracle
  pub solves : Solves
  pub name_repair : String → ℕ → String
  pub name_version : ℕ → String

-- The files of the workspace: the lines of the log, and the plans.
pub record Files (Line Text : Type 0) : Type 0 where
  pub events : Option (List Line)
  pub plans : Directory Text

-- `ValidationConfig(business_tz=…, allow_overtime=…)`
abbrev pub config_with : (Moment → Moment) → Bool → ValidationConfig
config_with tz allow_overtime = record {
  business_tz = tz;
  travel_slack_minutes = 1;
  allow_overtime = allow_overtime;
  released_job_ids = [];
}

pub record PlanResult : Type 0 where
  pub plan : PlanVersion
  pub horizon : HorizonResult
  pub violations : List Violation

-- What plan_week does: it fails where there is no workspace (a ServiceError) or the solver names an
-- unknown job (a KeyError).
pub data Planned : Type 0 where
  no_workspace unknown_job : Planned
  planned : PlanResult → Planned

-- `locked and head is not None`, and what is left to plan in then
unfoldable pub planning_state :
    WorldState → Option PlanVersion → List JobId → WorldState × List CrewRoute
planning_state state none locked = (state, [])
planning_state state (some h) [] = (state, [])
planning_state state (some h) (k ∷ ks) = carve_out_locked state h (k ∷ ks)

-- What quiet_reroute does: it leaves the plan alone, fails, or commits a repaired one, of which the
-- number of changes is told.
pub data Reroute (Text : Type 0) : Type 0 where
  left_alone failed : Reroute Text
  rerouted : Directory Text → ℕ → Reroute Text

-- `not violations`
abbrev pub is_clear : List Violation → Bool
is_clear [] = true
is_clear (v ∷ vs) = false

module _ (set : Settings) (events_json : Json Event) (plans_json : Json PlanVersion) where
  -- DispatchService.world; `none` is the ServiceError
  unfoldable pub world_of :
      Files events_json.Text plans_json.Text → Option Moment → Option WorldState
  world_of ws as_of =
      if exists events_json ws.events
      then some (fold (read events_json ws.events none) as_of)
      else none

  -- DispatchService.apply_events
  unfoldable pub apply_events :
      Files events_json.Text plans_json.Text
      → List Event
      → Files events_json.Text plans_json.Text × ℕ
  apply_events ws es = (record ws { events = append events_json ws.events es }, length es)

  -- DispatchService.solve_params
  unfoldable pub solve_params : Bool → SolveParams
  solve_params allow_overtime = record set.params { allow_overtime = allow_overtime }

  -- DispatchService._next_plan_id
  unfoldable pub next_plan_id : Files events_json.Text plans_json.Text → String
  next_plan_id ws = set.name_version (suc (length (history plans_json ws.plans)))

  -- the plan and its check
  unfoldable pub plan_result :
      Files events_json.Text plans_json.Text
      → WorldState
      → Option PlanVersion
      → Date
      → Bool
      → WorldState × List CrewRoute
      → HorizonResult
      → PlanResult
  unfolding next_plan_id
  plan_result ws state parent start allow_overtime (planning, carried) result =
      let plan : PlanVersion = record {
        id = next_plan_id ws;
        parent_id = Option.map (λ (p : PlanVersion). p.id) parent;
        created_at = state.as_of;
        horizon_start = start;
        horizon_end = start + set.horizon_params.days - 1;
        routes = carried ++ result.routes;
        unserved = result.unserved;
        cost = no_cost;
        label = "committed";
        solver_metrics = [];
      } in
      record {
        plan = plan;
        horizon = result;
        violations =
            validate_plan plan state (set.travel planning)
              (config_with set.business_tz allow_overtime);
      }

  -- DispatchService.plan_week in a world, over a head
  unfoldable pub plan_over :
      Files events_json.Text plans_json.Text
      → WorldState
      → Option PlanVersion
      → Date
      → Bool
      → Option (Dict JobId (List WorkerId))
      → Planned
  unfolding planning_state solve_params plan_result
  plan_over ws state parent start allow_overtime pinned_workers =
      let todo = planning_state state parent (locked_jobs state) in
      let q =
        request todo.0 (set.travel todo.0) start (solve_params allow_overtime) set.horizon_params in
      elim (plan_horizon set.solves (record q { pinned_workers = pinned_workers })) [
        | none ↦ Planned.unknown_job
        | some result ↦
            Planned.planned (plan_result ws state parent start allow_overtime todo result)
      ]

  -- DispatchService.plan_week
  unfoldable pub plan_week :
      Files events_json.Text plans_json.Text
      → Option WorldState
      → Date
      → Bool
      → Option (Dict JobId (List WorkerId))
      → Planned
  unfolding plan_over world_of
  plan_week ws (some state) start allow_overtime pinned_workers =
      plan_over ws state (head plans_json ws.plans) start allow_overtime pinned_workers
  plan_week ws none start allow_overtime pinned_workers = elim (world_of ws none) [
    | none ↦ Planned.no_workspace
    | some state ↦ plan_over ws state (head plans_json ws.plans) start allow_overtime pinned_workers
  ]

  -- DispatchService.repair in a world; `none` is the KeyError
  unfoldable pub repair_in : WorldState → PlanVersion → Option RepairOptions
  unfolding solve_params
  repair_in state baseline =
      repair_plan set.solves set.wall set.name_repair state (set.travel state) baseline
        baseline.horizon_start (solve_params true) set.horizon_params all_strategies

  -- DispatchService.autonomy
  unfoldable pub autonomy : PlanDiff → ℤ → AutonomyDecision
  autonomy diff added_overtime_minutes = decide diff set.policy added_overtime_minutes

  -- DispatchService.diff; `none` is the ServiceError
  unfoldable pub diff_versions :
      Files events_json.Text plans_json.Text → String → String → Option PlanDiff
  unfolding world_of
  diff_versions ws before_id after_id = elim (version plans_json ws.plans before_id) [
    | none ↦ none
    | some before ↦ elim (version plans_json ws.plans after_id) [
      | none ↦ none
      | some after ↦ elim (world_of ws none) [
        | none ↦ none
        | some world ↦ some (diff_plans before after (some world) (pos 0))
      ]
    ]
  ]

  -- the conditions on the best candidate under which _quiet_reroute does not return early
  unfoldable pub is_free : WorldState → PlanVersion → RepairCandidate → Bool
  unfolding autonomy
  is_free world baseline best =
      customer_calls best == 0
      && all (λ k. mem k (scheduled_job_ids best.plan.routes)) (scheduled_job_ids baseline.routes)
      && is_auto (autonomy best.diff (pos 0))
      && is_clear
          (validate_plan best.plan world (set.travel world) (config_with set.business_tz true))

  -- the commit at the end of _quiet_reroute
  unfoldable pub commit_best :
      Files events_json.Text plans_json.Text
      → PlanVersion
      → RepairCandidate
      → Reroute plans_json.Text
  commit_best ws baseline best = elim (commit plans_json ws.plans best.plan (some baseline.id)) [
    | Commit.committed plans ↦ Reroute.rerouted plans (changes best)
    | Commit.conflict expected actual ↦ Reroute.left_alone
  ]

  unfoldable pub reroute_best :
      Files events_json.Text plans_json.Text
      → WorldState
      → PlanVersion
      → Option RepairOptions
      → Reroute plans_json.Text
  unfolding is_free commit_best
  reroute_best ws world baseline none = Reroute.failed
  reroute_best ws world baseline (some options) = elim (best_by_fewest_calls options) [
    | none ↦ Reroute.left_alone
    | some best ↦
        if is_free world baseline best then commit_best ws baseline best else Reroute.left_alone
  ]

  -- _quiet_reroute
  unfoldable pub quiet_reroute : Files events_json.Text plans_json.Text → Reroute plans_json.Text
  unfolding world_of repair_in reroute_best
  quiet_reroute ws = elim (head plans_json ws.plans) [
    | none ↦ Reroute.left_alone
    | some baseline ↦ elim (world_of ws none) [
      | none ↦ Reroute.failed
      | some world ↦
          if is_clear
            (validate_plan baseline world (set.travel world) (config_with set.business_tz true))
          then Reroute.left_alone
          else reroute_best ws world baseline (repair_in world baseline)
    ]
  ]
