-- ===== src/Service/Rerouting.antt =====
-- What a quiet reroute may do.
use glass_guru.Base.{
  ℕ, String, ◌≡◌, ◌⊎◌, refl, sym, ◌∙◌, subst, true, false, Option, none, some, List, [], ◌∷◌, all,
  all_iff, mem, mem_iff, All, Member, Option-cases, Bool-cases, inl, inr, arith, string_eq, nat_eq,
}
use glass_guru.Model.Units.Int.{pos}
use glass_guru.Model.Plan.{PlanVersion, scheduled_job_ids}
use glass_guru.Events.{Event}
use glass_guru.World.State.{WorldState}
use glass_guru.World.Fold.{fold}
use glass_guru.World.Invariant.{fold-IsConsistent, JobAt}
use glass_guru.Dict.Laws.{Entries}
use glass_guru.Checker.Report.{Violation}
use glass_guru.Checker.Baseline.{validate_against_baseline}
use glass_guru.Checker.Duplicates.{visits, NoJobTwice}
use glass_guru.Checker.Validate.{validate_plan, IsFeasible, validate_plan-nil}
use glass_guru.Diff.Changes.{is_visible, PlanDiff}
use glass_guru.Diff.Plans.{diff_plans}
use glass_guru.Autonomy.{decide, decide-auto_iff, is_auto, is_auto-apply}
use glass_guru.Store.Files.{Json, strip}
use glass_guru.Store.EventLog.{read, exists}
use glass_guru.Store.PlanStore.{Directory, Commit, head, commit}
use glass_guru.Store.Commits.{head-stored, commit-stored}
use glass_guru.Scheduler.Repair.Locked.Kept.{carve_out_locked-validate_against_baseline}
use glass_guru.Scheduler.Repair.Options.{
  RepairCandidate, RepairOptions, all_strategies, best_by_fewest_calls,
}
use glass_guru.Scheduler.Repair.Options.Made.{IsMade, best-IsMade}
use glass_guru.Service.{
  Settings, Files, config_with, Reroute, world_of, solve_params, repair_in, autonomy, is_clear,
  is_free, commit_best, reroute_best, quiet_reroute,
}

module _ (set : Settings) (events_json : Json Event) (plans_json : Json PlanVersion) where
  -- The plan may be driven in the world, keeps all that was under way where the baseline has it, no
  -- customer would notice a change, and every job that was scheduled is scheduled still.
  abbrev pub IsSafe : WorldState → PlanVersion → PlanVersion → Type 0
  IsSafe world baseline plan =
      IsFeasible plan world (set.travel world) (config_with set.business_tz true)
      × (validate_against_baseline plan baseline world ≡ [])
      × All (λ c. is_visible c ≡ false) (diff_plans baseline plan (some world) (pos 0)).changes
      × All (λ k. Member k (scheduled_job_ids plan.routes)) (scheduled_job_ids baseline.routes)

  same_value : {A : Type 0} (a b : A) → some a ≡ some b → a ≡ b
  same_value a b e = ground arith

  is_clear-nil : (vs : List Violation) → is_clear vs ≡ true → vs ≡ []
  is_clear-nil [] h = refl
  is_clear-nil (v ∷ vs) h = absurd (cc)

  world_of-own :
      (ws : Files events_json.Text plans_json.Text) (world : WorldState)
      → world_of set events_json plans_json ws none ≡ some world
      → Entries JobAt world.jobs
  unfolding world_of
  world_of-own ws world h = elim (Bool-cases (exists events_json ws.events)) [
    | inl there ↦
        let now = fold (read events_json ws.events none) none in
        subst (λ (w : WorldState). Entries JobAt w.jobs)
          (same_value now world (rw (there, world_of) at h))
          (fold-IsConsistent (read events_json ws.events none) none).0
    | inr missing ↦ absurd (ground (arith, missing))
  ]

  is_free-IsSafe :
      (world : WorldState) (baseline : PlanVersion) (best : RepairCandidate)
      → Entries JobAt world.jobs
      → NoJobTwice (visits baseline.routes)
      → IsMade set.solves set.wall set.name_repair world
          (set.travel world)
          baseline
          baseline.horizon_start
          (solve_params set events_json plans_json true)
          set.horizon_params
          best
      → is_free set events_json plans_json world baseline best ≡ true
      → IsSafe world baseline best.plan
  unfolding is_free autonomy
  is_free-IsSafe world baseline best own once made free =
      let config = config_with set.business_tz true in
      let clear : is_clear (validate_plan best.plan world (set.travel world) config) ≡ true =
        ground arith in
      let auto : is_auto (decide best.diff set.policy (pos 0)) ≡ true = ground arith in
      let kept : all (λ k. mem k (scheduled_job_ids best.plan.routes))
            (scheduled_job_ids baseline.routes)
          ≡ true =
        ground arith in
      let harmless =
        (decide-auto_iff best.diff set.policy (pos 0)).0
          (is_auto-apply (decide best.diff set.policy (pos 0)) auto) in
      (
        (validate_plan-nil best.plan world (set.travel world) config).0 (is_clear-nil _ clear),
        carve_out_locked-validate_against_baseline world baseline best.plan best.result.routes own
            once made.1,
        subst (λ (d : PlanDiff). All (λ c. is_visible c ≡ false) d.changes) made.0 harmless.0,
        (all_iff (λ k. Member k (scheduled_job_ids best.plan.routes)) _ (λ k. mem_iff k _) _).0
            kept,
      )

  Commit-cases :
      (r : Commit plans_json.Text)
      → ((d : Directory plans_json.Text) × (r ≡ Commit.committed d))
        ⊎ ((e : Option String) × (a : Option String) × (r ≡ Commit.conflict e a))
  Commit-cases (Commit.committed d) = inl (d, refl)
  Commit-cases (Commit.conflict e a) = inr (e, a, refl)

  -- A reroute that commits has stored the plan.
  commit_best-head :
      (ws : Files events_json.Text plans_json.Text) (baseline : PlanVersion)
      (best : RepairCandidate) (plans : Directory plans_json.Text) (n : ℕ)
      → strip best.plan.id ≡ best.plan.id
      → commit_best set events_json plans_json ws baseline best ≡ Reroute.rerouted plans n
      → head plans_json plans ≡ some best.plan
  unfolding commit_best
  commit_best-head ws baseline best plans n clean h =
      elim (Commit-cases (commit plans_json ws.plans best.plan (some baseline.id))) [
        | inr (e, a, refused) ↦ absurd (ground (arith, refused))
        | inl (d, done) ↦
            let same : d ≡ plans = ground (arith, done) in
            let (at_head, kept) =
              commit-stored plans_json ws.plans d best.plan (some baseline.id) done in
            subst (λ s. head plans_json s ≡ some best.plan) (kept ∙ same)
              (head-stored plans_json ws.plans best.plan clean)
      ]

  -- The reroute was made of a candidate that may be committed.
  reroute_best-free :
      (ws : Files events_json.Text plans_json.Text) (world : WorldState) (baseline : PlanVersion)
      (o : Option RepairOptions) (plans : Directory plans_json.Text) (n : ℕ)
      → reroute_best set events_json plans_json ws world baseline o ≡ Reroute.rerouted plans n
      → (options : RepairOptions) × (best : RepairCandidate) × (o ≡ some options)
        × (best_by_fewest_calls options ≡ some best)
        × (is_free set events_json plans_json world baseline best ≡ true)
        × (commit_best set events_json plans_json ws baseline best ≡ Reroute.rerouted plans n)
  unfolding reroute_best
  reroute_best-free ws world baseline none plans n h = absurd (cc)
  reroute_best-free ws world baseline (some options) plans n h =
      elim (Option-cases (best_by_fewest_calls options)) [
        | inl nothing ↦ absurd (ground (arith, nothing))
        | inr (best, found) ↦
            elim (Bool-cases (is_free set events_json plans_json world baseline best)) [
              | inl free ↦ (options, best, refl, found, free, rw (found, free, reroute_best) at h)
              | inr bound ↦ absurd (ground (arith, found, bound))
            ]
      ]

  -- A reroute that goes ahead without a human has made a new plan the head of the store, in the world
  -- that the log folds to: it may be driven there with no promise released, keeps all work under way
  -- or done where the plan before it had it, shows no change that a customer would notice, and has
  -- every job on a route that was on one before. The plan before it visits no job twice, and ids of
  -- repaired plans have no space at their ends.
  pub quiet_reroute-IsSafe :
      (ws : Files events_json.Text plans_json.Text) (baseline : PlanVersion)
      (plans : Directory plans_json.Text) (n : ℕ)
      → head plans_json ws.plans ≡ some baseline
      → NoJobTwice (visits baseline.routes)
      → ((i : ℕ) → strip (set.name_repair baseline.id i) ≡ set.name_repair baseline.id i)
      → quiet_reroute set events_json plans_json ws ≡ Reroute.rerouted plans n
      → (world : WorldState) × (plan : PlanVersion) × (world_of set events_json plans_json ws none
          ≡ some world)
        × (head plans_json plans ≡ some plan)
        × IsSafe world baseline plan
  unfolding quiet_reroute repair_in
  quiet_reroute-IsSafe ws baseline plans n at_head once clean h =
      elim (Option-cases (world_of set events_json plans_json ws none)) [
        | inl nowhere ↦ absurd (ground (arith, at_head, nowhere))
        | inr (world, there) ↦
            elim (Bool-cases (
              is_clear (
                validate_plan baseline world (set.travel world)
                  (config_with set.business_tz true)))) [
                    | inl fine ↦ absurd (ground (arith, at_head, there, fine))
                    | inr broken ↦
                        let done = rw (at_head, there, broken, quiet_reroute) at h in
                        let (options, best, found, is_best, free, committed) =
                          reroute_best-free ws world baseline _ plans n done in
                        let made =
                          best-IsMade set.solves set.wall set.name_repair world (set.travel world)
                            baseline baseline.horizon_start
                            (solve_params set events_json plans_json true) set.horizon_params
                            all_strategies options best found is_best in
                        let (i, named) = made.2 in
                        let clean_id = subst (λ k. strip k ≡ k) (sym named) (clean i) in
                        (
                          world,
                          best.plan,
                          there,
                          commit_best-head ws baseline best plans n clean_id committed,
                          is_free-IsSafe world baseline best (world_of-own ws world there) once made
                              free,
                        )
                  ]
      ]
