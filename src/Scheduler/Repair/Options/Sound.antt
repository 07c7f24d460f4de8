-- ===== src/Scheduler/Repair/Options/Sound.antt =====
-- What every candidate keeps.
use glass_guru.Base.{
  ℕ, suc, String, ◌≡◌, ◌⊎◌, refl, Option, none, some, List, [], ◌∷◌, ◌++◌, length, All, All-map,
  Member, Any-append, inl, inr, string_eq, ap,
}
use glass_guru.Model.Units.{Moment, Date}
use glass_guru.Model.Entities.{JobId, WorkerId, TravelOracle}
use glass_guru.Model.Jobs.{Job}
use glass_guru.Model.Plan.{CrewRoute, PlanVersion, scheduled_job_ids, job_ids}
use glass_guru.World.State.{WorldState}
use glass_guru.World.Queries.{schedulable_jobs}
use glass_guru.World.Invariant.{JobAt}
use glass_guru.Dict.{Dict}
use glass_guru.Dict.Laws.{Entries}
use glass_guru.Checker.Baseline.{validate_against_baseline}
use glass_guru.Checker.Duplicates.{visits, NoJobTwice}
use glass_guru.Scheduler.Params.{SolveParams, HorizonParams, HorizonResult}
use glass_guru.Scheduler.Horizon.{Solves, candidates_of, plan_horizon}
use glass_guru.Scheduler.Horizon.Accounts.{Listed}
use glass_guru.Scheduler.Horizon.Total.{OnRecord, plan_horizon_accounts}
use glass_guru.Scheduler.Repair.Locked.{locked_jobs, carve_out_locked}
use glass_guru.Scheduler.Repair.Locked.Kept.{carve_out_locked-validate_against_baseline}
use glass_guru.Scheduler.Repair.Options.{
  RepairStrategy, RepairCandidate, RepairOptions, tuned, repaired, candidate, request, repair_each,
  repair_plan,
}

pub Member-append :
    (k : JobId) (xs ys : List CrewRoute)
    → Member k (scheduled_job_ids ys)
    → Member k (scheduled_job_ids (xs ++ ys))
unfolding scheduled_job_ids
Member-append k [] ys m = m
Member-append k (x ∷ xs) ys m =
    (Any-append (λ i. i ≡ k) (job_ids x) (scheduled_job_ids (xs ++ ys))).1
      (inr (Member-append k xs ys m))

-- The plan keeps locked work where the baseline has it, and every job that is left to plan is on one
-- of its routes or reported as unserved.
abbrev pub IsRepair : WorldState → PlanVersion → RepairCandidate → Type 0
IsRepair world baseline c =
    (validate_against_baseline c.plan baseline world ≡ [])
    × All (λ (j : Job). Member j.id (scheduled_job_ids c.plan.routes) ⊎ Listed j.id c.plan.unserved)
        (schedulable_jobs (carve_out_locked world baseline (locked_jobs world)).0)

-- The days that the solver routes have no jobs but those on record in the world that it is given.
abbrev pub RoutesGiven : Solves → WorldState → Type 0
RoutesGiven solves world =
    (travel : TravelOracle) (d : Date) (todays locked : List JobId) (params : SolveParams)
    (pinned : Option (Dict JobId (List WorkerId)))
    → OnRecord world (solves.plan_day world travel d todays params locked pinned).routes

module _ (solves : Solves) (wall : Moment → Moment) (name_repair : String → ℕ → String)
    (world : WorldState) (travel : TravelOracle) (baseline : PlanVersion) (start : Date)
    (params : SolveParams) (horizon_params : HorizonParams) (own : Entries JobAt world.jobs)
    (once : NoJobTwice (visits baseline.routes))
    (given : RoutesGiven solves (carve_out_locked world baseline (locked_jobs world)).0) where
  abbrev carved : WorldState × List CrewRoute
  carved = carve_out_locked world baseline (locked_jobs world)

  candidate-IsRepair :
      (index : ℕ) (s : RepairStrategy)
      → (result : HorizonResult) × (plan_horizon solves
            (request carved.0 travel start (tuned wall params s baseline) horizon_params)
          ≡ some result)
        × IsRepair world baseline (candidate name_repair world baseline index s carved.1 result)
  unfolding request candidate repaired candidates_of
  candidate-IsRepair index s =
      let q = request carved.0 travel start (tuned wall params s baseline) horizon_params in
      let (result, planned, bound, there) =
        plan_horizon_accounts solves q
          (λ d todays locked. given travel d todays locked q.params none) in
      let c = candidate name_repair world baseline index s carved.1 result in
      (
        result,
        planned,
        (
          carve_out_locked-validate_against_baseline world baseline c.plan result.routes own once
              refl,
          All-map _ _
              (λ (j : Job) here. elim here [
                | inl m ↦ inl (Member-append j.id carved.1 result.routes m)
                | inr m ↦ inr m
              ])
              _ there,
        ),
      )

  repair_each-IsRepair :
      (index : ℕ) (ss : List RepairStrategy)
      → (cs : List RepairCandidate) × (repair_each solves wall name_repair world carved travel
            baseline start params horizon_params index ss
          ≡ some cs)
        × (length cs ≡ length ss)
        × All (IsRepair world baseline) cs
  unfolding repair_each
  repair_each-IsRepair index [] = ([], refl, refl, tt)
  repair_each-IsRepair index (s ∷ ss) =
      let (result, planned, good) = candidate-IsRepair index s in
      let (cs, more, count, rest) = repair_each-IsRepair (suc index) ss in
      (
        candidate name_repair world baseline index s carved.1 result ∷ cs,
        rw (planned, more, repair_each) refl,
        ap suc count,
        (good, rest),
      )

  -- Repair answers with one candidate for each strategy. The plan of each passes the check against the
  -- baseline, so that work under way or done is where it was, and every schedulable job of the world
  -- that is left to plan is on one of its routes or reported as unserved. Jobs stand under their own
  -- ids, the baseline visits none twice, and the days that the solver routes have no jobs but those
  -- on record.
  pub repair_plan-IsRepair :
      (strategies : List RepairStrategy)
      → (options : RepairOptions) × (repair_plan solves wall name_repair world travel baseline start
            params horizon_params strategies
          ≡ some options)
        × (length options.candidates ≡ length strategies)
        × All (IsRepair world baseline) options.candidates
  unfolding repair_plan
  repair_plan-IsRepair strategies =
      let (cs, found, count, good) = repair_each-IsRepair 0 strategies in
      (record { candidates = cs; baseline = baseline }, rw (found, repair_plan) refl, count, good)
