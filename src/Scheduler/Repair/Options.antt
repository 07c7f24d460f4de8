-- ===== src/Scheduler/Repair/Options.antt =====
-- `repair_plan` (src/krama/scheduler/repair.py): one repaired candidate for each strategy, and the
-- one that is recommended.
pub mod Best
pub mod Sound
pub mod Made
use glass_guru.Base.{
  ℕ, suc, ◌+◌, ◌/◌, String, Bool, true, false, Option, none, some, List, [], ◌∷◌, ◌++◌, length, ltb,
  ◌==◌, nat_eq, string_eq, if◌then◌else◌,
}
use glass_guru.Dict.{Dict, put}
use glass_guru.Model.Units.{Moment, Date, Ratio, one_ratio, times, time_of, minutes}
use glass_guru.Model.Units.Int.{pos}
use glass_guru.Model.Entities.{VanId, JobId, TravelOracle}
use glass_guru.Model.Plan.{CrewRoute, Stop, PlanVersion, CostBreakdown, scheduled_job_ids}
use glass_guru.World.State.{WorldState}
use glass_guru.Diff.Changes.{PlanDiff, customer_visible_changes}
use glass_guru.Diff.Plans.{diff_plans}
use glass_guru.Scheduler.Params.{SolveParams, HorizonParams, HorizonResult}
use glass_guru.Scheduler.Horizon.{Solves, Request, plan_horizon}
use glass_guru.Scheduler.Horizon.Report.{distinct}
use glass_guru.Scheduler.Repair.Locked.{locked_jobs, carve_out_locked}

pub record RepairStrategy : Type 0 where
  pub name : String
  pub description : String
  pub change_penalty : ℕ
  pub release_multiplier : ℕ
  pub allow_overtime : Bool
  pub unserved_multiplier : Ratio

-- STRATEGIES
abbrev pub all_strategies : List RepairStrategy
all_strategies =
    record {
      name = "least_disruption";
      description = "Keep every promise. Move as little as possible, serve fewer jobs.";
      change_penalty = 600_000;
      release_multiplier = 40_000;
      allow_overtime = true;
      unserved_multiplier = one_ratio;
    }
    ∷ record {
      name = "most_jobs";
      description = "Serve the most work today, accepting phone calls where needed.";
      change_penalty = 50_000;
      release_multiplier = 10_000;
      allow_overtime = true;
      unserved_multiplier = record { num = 5; den = 2 };
    }
    ∷ record {
      name = "no_overtime";
      description = "Finish within shift hours, whatever that costs in coverage.";
      change_penalty = 200_000;
      release_multiplier = 20_000;
      allow_overtime = false;
      unserved_multiplier = one_ratio;
    }
    ∷ []

pub record RepairCandidate : Type 0 where
  pub strategy : RepairStrategy
  pub plan : PlanVersion
  pub result : HorizonResult
  pub diff : PlanDiff
  pub released_promises : List JobId

-- RepairCandidate.changes
unfoldable pub changes : RepairCandidate → ℕ
changes c = length c.diff.changes

-- RepairCandidate.customer_calls
unfoldable pub customer_calls : RepairCandidate → ℕ
customer_calls c = length (customer_visible_changes c.diff)

-- RepairCandidate.jobs_served
unfoldable pub jobs_served : RepairCandidate → ℕ
jobs_served c = length (distinct (scheduled_job_ids c.result.routes))

pub record RepairOptions : Type 0 where
  pub candidates : List RepairCandidate
  pub baseline : PlanVersion

-- the order of the keys `(c.customer_calls, -c.jobs_served, c.changes)`
unfoldable pub key_ltb : RepairCandidate → RepairCandidate → Bool
unfolding changes customer_calls jobs_served
key_ltb a b =
    if customer_calls a == customer_calls b
    then (if jobs_served a == jobs_served b
        then ltb (changes a) (changes b)
        else ltb (jobs_served b) (jobs_served a))
    else ltb (customer_calls a) (customer_calls b)

-- `min`: the first of the least
unfoldable pub least : RepairCandidate → List RepairCandidate → RepairCandidate
unfolding key_ltb
least best [] = best
least best (c ∷ cs) = least (if key_ltb c best then c else best) cs

-- RepairOptions.best_by_fewest_calls
unfoldable pub best_by_fewest_calls : RepairOptions → Option RepairCandidate
unfolding least
best_by_fewest_calls o = elim o.candidates [ [] ↦ none | c ∷ cs ↦ some (least c cs) ]

abbrev pub no_cost : CostBreakdown
no_cost = record {
  vehicle = pos 0;
  overtime = pos 0;
  unserved_penalty = pos 0;
  lateness_penalty = pos 0;
  reschedule_penalty = pos 0;
}

-- the arguments of the call of `plan_horizon`
unfoldable pub request : WorldState → TravelOracle → Date → SolveParams → HorizonParams → Request
request planning_world travel start params horizon_params = record {
  world = planning_world;
  travel = travel;
  start = start;
  params = params;
  horizon_params = horizon_params;
  candidate_job_ids = none;
  locked_job_ids = [];
  pinned_days = [];
  pinned_workers = none;
}

-- `wall` is what the time zone of an arrival shows on the clock, and `name_repair` the f-string
-- `{baseline.id}-repair-{index}`.
module _ (wall : Moment → Moment) where
  -- the inner loop of _incumbent_of
  unfoldable pub place_arrivals :
      VanId → List Stop → Dict JobId (VanId × ℕ) → Dict JobId (VanId × ℕ)
  place_arrivals van [] d = d
  place_arrivals van (s ∷ ss) d =
      place_arrivals van ss (put d s.job_id (van, time_of (wall s.arrival) / minutes 1))

  unfoldable pub incumbents : List CrewRoute → Dict JobId (VanId × ℕ) → Dict JobId (VanId × ℕ)
  unfolding place_arrivals
  incumbents [] d = d
  incumbents (r ∷ rs) d = incumbents rs (place_arrivals r.van_id r.stops d)

  -- _incumbent_of
  unfoldable pub incumbent_of : PlanVersion → Dict JobId (VanId × ℕ)
  unfolding incumbents
  incumbent_of plan = incumbents plan.routes []

  -- `replace(params, …)`
  unfoldable pub tuned : SolveParams → RepairStrategy → PlanVersion → SolveParams
  unfolding incumbent_of
  tuned params strategy baseline = record params {
    allow_overtime = strategy.allow_overtime;
    unserved_penalty_base = times params.unserved_penalty_base strategy.unserved_multiplier;
    reschedule_penalty_multiplier = strategy.release_multiplier;
    change_penalty = strategy.change_penalty;
    incumbent = some (incumbent_of baseline);
    allow_promise_release = true;
  }

module _ (name_repair : String → ℕ → String) where
  -- the plan of a candidate
  unfoldable pub repaired :
      WorldState → PlanVersion → ℕ → RepairStrategy → List CrewRoute → HorizonResult → PlanVersion
  repaired world baseline index strategy carried result = record {
    id = name_repair baseline.id index;
    parent_id = some baseline.id;
    created_at = world.as_of;
    horizon_start = baseline.horizon_start;
    horizon_end = baseline.horizon_end;
    routes = carried ++ result.routes;
    unserved = result.unserved;
    cost = no_cost;
    label = strategy.name;
    solver_metrics = [];
  }

  unfoldable pub candidate :
      WorldState
      → PlanVersion
      → ℕ
      → RepairStrategy
      → List CrewRoute
      → HorizonResult
      → RepairCandidate
  unfolding repaired
  candidate world baseline index strategy carried result =
      let plan = repaired world baseline index strategy carried result in
      record {
        strategy = strategy;
        plan = plan;
        result = result;
        diff = diff_plans baseline plan (some world) (pos 0);
        released_promises = result.released_promises;
      }

module _ (solves : Solves) (wall : Moment → Moment) (name_repair : String → ℕ → String) where
  -- the loop over the strategies, with the world and the routes that are carved out
  unfoldable pub repair_each :
      WorldState
      → WorldState × List CrewRoute
      → TravelOracle
      → PlanVersion
      → Date
      → SolveParams
      → HorizonParams
      → ℕ
      → List RepairStrategy
      → Option (List RepairCandidate)
  unfolding request candidate
  repair_each world carved travel baseline start params horizon_params index [] = some []
  repair_each world carved travel baseline start params horizon_params index (s ∷ ss) =
      let more =
        repair_each world carved travel baseline start params horizon_params (suc index) ss in
      elim (plan_horizon solves
        (request carved.0 travel start (tuned wall params s baseline) horizon_params)) [
          | none ↦ none
          | some result ↦ elim more [
            | none ↦ none
            | some cs ↦ some (candidate name_repair world baseline index s carved.1 result ∷ cs)
          ]
        ]

  -- repair_plan; `none` is the `KeyError` of `plan_horizon`
  unfoldable pub repair_plan :
      WorldState
      → TravelOracle
      → PlanVersion
      → Date
      → SolveParams
      → HorizonParams
      → List RepairStrategy
      → Option RepairOptions
  unfolding repair_each
  repair_plan world travel baseline start params horizon_params strategies =
      let carved = carve_out_locked world baseline (locked_jobs world) in
      elim (repair_each world carved travel baseline start params horizon_params 0 strategies) [
        | none ↦ none
        | some cs ↦ some (record { candidates = cs; baseline = baseline })
      ]
