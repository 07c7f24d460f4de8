-- ===== src/Scheduler/Repair/Options/Made.antt =====
-- How every candidate was made.
use glass_guru.Base.{
  ℕ, suc, String, ◌≡◌, refl, sym, ◌∙◌, subst, some, List, [], ◌∷◌, ◌++◌, All, All-at, List-cases,
  Option-cases, inl, inr, arith,
}
use glass_guru.Model.Units.{Moment, Date}
use glass_guru.Model.Units.Int.{pos}
use glass_guru.Model.Entities.{TravelOracle}
use glass_guru.Model.Plan.{PlanVersion}
use glass_guru.World.State.{WorldState}
use glass_guru.Diff.Plans.{diff_plans}
use glass_guru.Scheduler.Params.{SolveParams, HorizonParams}
use glass_guru.Scheduler.Horizon.{Solves, plan_horizon}
use glass_guru.Scheduler.Repair.Locked.{locked_jobs, carve_out_locked}
use glass_guru.Scheduler.Repair.Options.{
  RepairStrategy, RepairCandidate, RepairOptions, tuned, repaired, candidate, request, repair_each,
  repair_plan, best_by_fewest_calls,
}
use glass_guru.Scheduler.Repair.Options.Best.{best_by_fewest_calls_least}

same_value : {A : Type 0} (a b : A) → some a ≡ some b → a ≡ b
same_value a b e = ground arith

module _ (solves : Solves) (wall : Moment → Moment) (name_repair : String → ℕ → String)
    (world : WorldState) (travel : TravelOracle) (baseline : PlanVersion) (start : Date)
    (params : SolveParams) (horizon_params : HorizonParams) where
  -- A candidate is compared with the baseline, begins with the routes carved out of it, and is named
  -- after it.
  abbrev pub IsMade : RepairCandidate → Type 0
  IsMade c =
      (c.diff ≡ diff_plans baseline c.plan (some world) (pos 0))
      × (c.plan.routes ≡ (carve_out_locked world baseline (locked_jobs world)).1 ++ c.result.routes)
      × ((i : ℕ) × (c.plan.id ≡ name_repair baseline.id i))

  repair_each-IsMade :
      (index : ℕ) (ss : List RepairStrategy) (cs : List RepairCandidate)
      → repair_each solves wall name_repair world
          (carve_out_locked world baseline (locked_jobs world))
          travel
          baseline
          start
          params
          horizon_params
          index
          ss
        ≡ some cs
      → All IsMade cs
  unfolding repair_each candidate repaired
  repair_each-IsMade index [] cs h = subst (All IsMade) (same_value [] cs h) tt
  repair_each-IsMade index (s ∷ ss) cs h =
      let carved = carve_out_locked world baseline (locked_jobs world) in
      elim (Option-cases (
        plan_horizon solves
          (request carved.0 travel start (tuned wall params s baseline) horizon_params))) [
            | inl failed ↦ absurd (ground (arith, failed))
            | inr (result, planned) ↦
                elim (Option-cases (
                  repair_each solves wall name_repair world carved travel baseline start params
                    horizon_params (suc index) ss)) [
                      | inl failed ↦ absurd (ground (arith, planned, failed))
                      | inr (more, rest) ↦
                          let made = repair_each-IsMade (suc index) ss more rest in
                          let c = candidate name_repair world baseline index s carved.1 result in
                          subst (All IsMade)
                            (same_value (c ∷ more) cs (rw (planned, rest, repair_each) at h))
                            ((refl, refl, (index, refl)), made)
                    ]
          ]

  repair_plan-IsMade :
      (strategies : List RepairStrategy) (options : RepairOptions)
      → repair_plan solves wall name_repair world travel baseline start params horizon_params
          strategies
        ≡ some options
      → All IsMade options.candidates
  unfolding repair_plan
  repair_plan-IsMade strategies options h =
      let carved = carve_out_locked world baseline (locked_jobs world) in
      elim (Option-cases (
        repair_each solves wall name_repair world carved travel baseline start params horizon_params
          0 strategies)) [
            | inl failed ↦ absurd (ground (arith, failed))
            | inr (cs, found) ↦
                let options_now : RepairOptions = record { candidates = cs; baseline = baseline } in
                subst (λ (o : RepairOptions). All IsMade o.candidates)
                  (same_value options_now options (rw (found, repair_plan) at h))
                  (repair_each-IsMade 0 strategies cs found)
          ]

  -- The recommended candidate was made so too.
  pub best-IsMade :
      (strategies : List RepairStrategy) (options : RepairOptions) (best : RepairCandidate)
      → repair_plan solves wall name_repair world travel baseline start params horizon_params
          strategies
        ≡ some options
      → best_by_fewest_calls options ≡ some best
      → IsMade best
  unfolding best_by_fewest_calls
  best-IsMade strategies options best h b = elim (List-cases options.candidates) [
    | inl nothing ↦ absurd (ground (arith, nothing))
    | inr (c, cs, some_there) ↦
        let (least, is_best, m, good) = best_by_fewest_calls_least options c cs some_there in
        let same = same_value least best (sym is_best ∙ b) in
        subst IsMade same
          (All-at IsMade least options.candidates (repair_plan-IsMade strategies options h) m)
  ]
