-- ===== src/Service/Planning.antt =====
-- Planning a week keeps work that has begun.
use glass_guru.Base.{
  ◌≡◌, ◌⊎◌, ◌↔◌, refl, sym, ◌∙◌, ap, subst, Bool, true, Option, some, List, [], ◌++◌, mem, All,
  All-map, All-of, Member, List-cases, inl, inr, string_eq,
}
use glass_guru.Dict.{Dict}
use glass_guru.Dict.Laws.{Entries}
use glass_guru.Model.Units.{Date}
use glass_guru.Model.Entities.{JobId, WorkerId}
use glass_guru.Model.Jobs.{Job}
use glass_guru.Model.Plan.{PlanVersion, CrewRoute, scheduled_job_ids}
use glass_guru.Events.{Event}
use glass_guru.World.State.{WorldState}
use glass_guru.World.Queries.{schedulable_jobs}
use glass_guru.World.Invariant.{JobAt}
use glass_guru.Checker.Baseline.{validate_against_baseline, validate_against_baseline-nil}
use glass_guru.Checker.Duplicates.{visits, NoJobTwice}
use glass_guru.Checker.Validate.{IsFeasible, validate_plan-nil}
use glass_guru.Store.Files.{Json}
use glass_guru.Store.PlanStore.{head}
use glass_guru.Scheduler.Horizon.{candidates_of}
use glass_guru.Scheduler.Horizon.Accounts.{Listed}
use glass_guru.Scheduler.Horizon.Total.{plan_horizon_accounts}
use glass_guru.Scheduler.Repair.Locked.{locked_jobs, carve_out_locked}
use glass_guru.Scheduler.Repair.Locked.Kept.{
  locked-listed, carve_out_locked-validate_against_baseline,
}
use glass_guru.Scheduler.Repair.Options.{request}
use glass_guru.Scheduler.Repair.Options.Sound.{RoutesGiven, Member-append}
use glass_guru.Service.{
  Settings, Files, config_with, PlanResult, Planned, planning_state, solve_params, plan_result,
  plan_over, plan_week,
}

-- No job is locked, so that nothing has to be kept.
nothing_locked :
    (world : WorldState) (baseline plan : PlanVersion)
    → Entries JobAt world.jobs
    → locked_jobs world ≡ []
    → validate_against_baseline plan baseline world ≡ []
nothing_locked world baseline plan own none_locked =
    (validate_against_baseline-nil plan baseline world).1 (
      All-of _ baseline.routes (λ r m. All-of _ r.stops (λ s n j there locked.
        let listed = locked-listed world s.job_id j own there locked in
        absurd (cc (subst (λ ks. mem s.job_id ks ≡ true) none_locked listed)))))

-- A plan that begins with what is carried over passes the check against the baseline.
planning_state-keeps :
    (state : WorldState) (baseline plan : PlanVersion) (planned : List CrewRoute)
    → Entries JobAt state.jobs
    → NoJobTwice (visits baseline.routes)
    → plan.routes ≡ (planning_state state (some baseline) (locked_jobs state)).1 ++ planned
    → validate_against_baseline plan baseline state ≡ []
unfolding planning_state
planning_state-keeps state baseline plan planned own once e =
    elim (List-cases (locked_jobs state)) [
      | inl free ↦ nothing_locked state baseline plan own free
      | inr (k, ks, locked) ↦
          carve_out_locked-validate_against_baseline state baseline plan planned own once (
            e
            ∙ ap (λ l. (planning_state state (some baseline) l).1 ++ planned) locked
            ∙ sym (ap (λ l. (carve_out_locked state baseline l).1 ++ planned) locked))
    ]

module _ (set : Settings) (events_json : Json Event) (plans_json : Json PlanVersion) where
  -- Planning a week in a world answers with a plan. It passes the check against the head, so that work
  -- under way or done is where it was; every job that is schedulable in what the head leaves to plan
  -- in is on one of its routes or reported as unserved; and no violation is reported exactly when the
  -- plan is feasible in the world. Jobs stand under their own ids, the head visits none twice, and
  -- the days that the solver routes have no jobs but those on record.
  pub plan_week_keeps :
      (ws : Files events_json.Text plans_json.Text) (state : WorldState) (baseline : PlanVersion)
      (start : Date) (allow_overtime : Bool) (pinned : Option (Dict JobId (List WorkerId)))
      → head plans_json ws.plans ≡ some baseline
      → Entries JobAt state.jobs
      → NoJobTwice (visits baseline.routes)
      → RoutesGiven set.solves (planning_state state (some baseline) (locked_jobs state)).0
      → (result : PlanResult) × (plan_week set events_json plans_json ws
            (some state)
            start
            allow_overtime
            pinned
          ≡ Planned.planned result)
        × (validate_against_baseline result.plan baseline state ≡ [])
        × All
            (λ (j : Job).
              Member j.id (scheduled_job_ids result.plan.routes) ⊎ Listed j.id result.plan.unserved)
            (schedulable_jobs (planning_state state (some baseline) (locked_jobs state)).0)
        × ((result.violations ≡ [])
            ↔ IsFeasible result.plan state
                (set.travel (planning_state state (some baseline) (locked_jobs state)).0)
                (config_with set.business_tz allow_overtime))
  unfolding plan_week plan_over plan_result candidates_of request
  plan_week_keeps ws state baseline start allow_overtime pinned at_head own once given =
      let todo = planning_state state (some baseline) (locked_jobs state) in
      let q =
        record (request todo.0 (set.travel todo.0) start
          (solve_params set events_json plans_json allow_overtime) set.horizon_params) {
            pinned_workers = pinned;
          } in
      let (result, planned, bound, there) =
        plan_horizon_accounts set.solves q
          (λ d todays locked. given q.travel d todays locked q.params pinned) in
      let done =
        plan_result set events_json plans_json ws state (some baseline) start allow_overtime todo
          result in
      (
        done,
        ap (λ h. plan_over set events_json plans_json ws state h start allow_overtime pinned)
              at_head
            ∙ rw (planned, plan_over) refl,
        planning_state-keeps state baseline done.plan result.routes own once refl,
        All-map _ _
            (λ (j : Job) here. elim here [
              | inl m ↦ inl (Member-append j.id todo.1 result.routes m)
              | inr m ↦ inr m
            ])
            _ there,
        validate_plan-nil done.plan state (set.travel todo.0)
            (config_with set.business_tz allow_overtime),
      )
