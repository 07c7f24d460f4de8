-- ===== src/Scheduler/Horizon.antt =====
-- `plan_horizon` (src/krama/scheduler/horizon.py): days are assigned, each day is routed, and what a
-- day could not take is tried again. The two solves that it calls are a parameter.
pub mod Report
pub mod Accounts
pub mod Total
use glass_guru.Base.{
  ℕ, zero, suc, ◌+◌, ◌*◌, String, Bool, true, false, not, Option, none, some, List, [], ◌∷◌, ◌++◌,
  select, mem, length, map, ◌==◌, nat_eq, string_eq, if◌then◌else◌,
}
use glass_guru.Base.Sort.{sorted}
use glass_guru.Base.Text.{text_leb}
use glass_guru.Dict.{Dict, get, has, get_or, put, values}
use glass_guru.Model.Units.{Date}
use glass_guru.Model.Units.Int.{ℤ, pos, ◌+ℤ◌}
use glass_guru.Model.Entities.{JobId, WorkerId, TravelOracle}
use glass_guru.Model.Jobs.{Job}
use glass_guru.Model.Plan.{CrewRoute, UnservedJob, scheduled_job_ids}
use glass_guru.World.State.{WorldState}
use glass_guru.World.Queries.{active_jobs, schedulable_jobs}
use glass_guru.Scheduler.Params.{SolveParams, HorizonParams, DayPlanResult, HorizonResult}
use glass_guru.Scheduler.Horizon.Report.{distinct, report_all}

-- `assign_days` and `plan_day`, which hand their models to the solver
pub record Solves : Type 0 where
  pub assign_days :
      WorldState
      → List Job
      → List Date
      → SolveParams
      → HorizonParams
      → Option (Dict Date ℕ)
      → Dict JobId Date × List UnservedJob
  pub plan_day :
      WorldState
      → TravelOracle
      → Date
      → List JobId
      → SolveParams
      → List JobId
      → Option (Dict JobId (List WorkerId))
      → DayPlanResult

-- _dates
unfoldable pub dates : Date → ℕ → List Date
dates start zero = []
dates start (suc n) = start ∷ dates (suc start) n

-- `[world.jobs[j] for j in candidate_job_ids if j in world.jobs]`
unfoldable pub named_jobs : WorldState → List JobId → List Job
named_jobs world [] = []
named_jobs world (k ∷ ks) =
    let rest = named_jobs world ks in elim (get world.jobs k) [ none ↦ rest | some j ↦ j ∷ rest ]

unfoldable pub candidates_of : WorldState → Option (List JobId) → List JobId → List Job
unfolding named_jobs
candidates_of world (some ids) locked = named_jobs world ids
candidates_of world none (k ∷ ks) = active_jobs world
candidates_of world none [] = schedulable_jobs world

-- `for job_id in locked: …`
unfoldable pub pin : Dict JobId Date → List JobId → Dict JobId Date → Dict JobId Date
pin pinned [] assignment = assignment
pin pinned (k ∷ ks) assignment =
    pin pinned ks (elim (get pinned k) [ none ↦ assignment | some d ↦ put assignment k d ])

-- `[job_id for job_id, d in assignment.items() if d == on_date]`
unfoldable pub jobs_on : Dict JobId Date → Date → List JobId
jobs_on [] on_date = []
jobs_on ((k, d) ∷ rest) on_date =
    let more = jobs_on rest on_date in if d == on_date then k ∷ more else more

-- the crew minutes of the jobs; `none` is the `KeyError` of a job that is not on record
unfoldable pub absorbed : WorldState → List JobId → Option ℕ
absorbed world [] = some 0
absorbed world (k ∷ ks) =
    let rest = absorbed world ks in
    elim (get world.jobs k) [
      | none ↦ none
      | some j ↦ elim rest [
        | none ↦ none
        | some n ↦ some (j.estimated_duration_min * j.crew_size + n)
      ]
    ]

-- What one round over the days has found so far.
pub record Round : Type 0 where
  pub day_results : Dict Date DayPlanResult
  pub spilled : List JobId
  pub overrides : Dict Date ℕ

-- the body of the loop over the days, with the day's result
unfoldable pub note_day : WorldState → Round → Date → List JobId → DayPlanResult → Option Round
unfolding absorbed
note_day world r on_date todays result =
    let scheduled = distinct (scheduled_job_ids result.routes) in
    let noted = record r { day_results = put r.day_results on_date result } in
    elim (select (λ j. not (mem j scheduled)) todays) [
      | [] ↦ some noted
      | m ∷ ms ↦ elim (absorbed world scheduled) [
        | none ↦ none
        | some n ↦ some (record noted {
          spilled = r.spilled ++ (m ∷ ms);
          overrides = put r.overrides on_date n;
        })
      ]
    ]

-- The variables of the loop over the rounds.
pub record Progress : Type 0 where
  pub assignment : Dict JobId Date
  pub unplaceable : List UnservedJob
  pub last : Round
  pub rounds : ℕ

abbrev pub nothing_planned : Progress
nothing_planned = record {
  assignment = [];
  unplaceable = [];
  last = record { day_results = []; spilled = []; overrides = [] };
  rounds = 0;
}

-- `overrides or None`
abbrev pub or_none : Dict Date ℕ → Option (Dict Date ℕ)
or_none [] = none
or_none (o ∷ os) = some (o ∷ os)

abbrev amount : ℕ → ℤ
amount n = pos (n * 10_000)

unfoldable pub all_routes : List DayPlanResult → List CrewRoute
all_routes [] = []
all_routes (r ∷ rs) = r.routes ++ all_routes rs

unfoldable pub all_released : List DayPlanResult → List JobId
all_released [] = []
all_released (r ∷ rs) = r.released_promises ++ all_released rs

unfoldable pub solve_seconds : List DayPlanResult → ℤ
solve_seconds [] = pos 0
solve_seconds (r ∷ rs) = get_or r.metrics "solve_seconds" (pos 0) +ℤ solve_seconds rs

-- the result of the rounds, with every candidate on a route or reported
unfoldable pub finish : List Job → Progress → HorizonResult
unfolding all_routes all_released solve_seconds
finish candidates p =
    let results = values p.last.day_results in
    let routes = all_routes results in
    let scheduled = distinct (scheduled_job_ids routes) in
    record {
      routes = routes;
      unserved = report_all scheduled p.unplaceable results candidates;
      day_results = p.last.day_results;
      assignment = p.assignment;
      rounds = p.rounds;
      released_promises = sorted text_leb (distinct (all_released results));
      metrics =
          ("candidates", amount (length candidates))
          ∷ ("scheduled", amount (length scheduled))
          ∷ ("days_used", amount (length p.last.day_results))
          ∷ ("rounds", amount p.rounds)
          ∷ ("solve_seconds", solve_seconds results)
          ∷ [];
    }

-- The arguments of `plan_horizon` that stay the same all through it.
pub record Request : Type 0 where
  pub world : WorldState
  pub travel : TravelOracle
  pub start : Date
  pub params : SolveParams
  pub horizon_params : HorizonParams
  pub candidate_job_ids : Option (List JobId)
  pub locked_job_ids : List JobId
  pub pinned_days : Dict JobId Date
  pub pinned_workers : Option (Dict JobId (List WorkerId))

module _ (solves : Solves) where
  open solves use {assign_days, plan_day}

  -- the loop over the days
  unfoldable pub run_days : Request → Dict JobId Date → List Date → Round → Option Round
  unfolding jobs_on note_day
  run_days q assignment [] r = some r
  run_days q assignment (d ∷ ds) r = elim (jobs_on assignment d) [
    | [] ↦ run_days q assignment ds r
    | k ∷ ks ↦
        elim (note_day q.world r d (k ∷ ks) (
          plan_day q.world q.travel d (k ∷ ks) q.params
            (select (λ j. mem j q.locked_job_ids) (k ∷ ks)) q.pinned_workers)) [
              | none ↦ none
              | some next ↦ run_days q assignment ds next
            ]
  ]

  -- one round
  unfoldable pub run_round : Request → List Job → List Date → Progress → Option Progress
  unfolding run_days pin
  run_round q candidates horizon p =
      let (assigned, unplaceable) =
        assign_days q.world (select (λ (j : Job). not (mem j.id q.locked_job_ids)) candidates)
          horizon q.params q.horizon_params (or_none p.last.overrides) in
      let assignment = pin q.pinned_days q.locked_job_ids assigned in
      elim (run_days q assignment horizon (record p.last { day_results = []; spilled = [] })) [
        | none ↦ none
        | some r ↦ some (record {
          assignment = assignment;
          unplaceable = unplaceable;
          last = r;
          rounds = suc p.rounds;
        })
      ]

  -- the loop over the rounds, which ends early when nothing spills
  unfoldable pub run_rounds : Request → List Job → List Date → ℕ → Progress → Option Progress
  unfolding run_round
  run_rounds q candidates horizon zero p = some p
  run_rounds q candidates horizon (suc n) p = elim (run_round q candidates horizon p) [
    | none ↦ none
    | some next ↦ elim next.last.spilled [
      | [] ↦ some next
      | k ∷ ks ↦ run_rounds q candidates horizon n next
    ]
  ]

  -- plan_horizon; `none` is the `KeyError` of a route with a job that is not on record
  unfoldable pub plan_horizon : Request → Option HorizonResult
  unfolding candidates_of dates run_rounds finish
  plan_horizon q =
      let candidates = candidates_of q.world q.candidate_job_ids q.locked_job_ids in
      let horizon = dates q.start q.horizon_params.days in
      elim (run_rounds q candidates horizon q.horizon_params.max_rounds nothing_planned) [
        | none ↦ none
        | some p ↦ some (finish candidates p)
      ]
