-- ===== src/Scheduler/Horizon/Total.antt =====
-- The rounds come to an end, with an answer that accounts for every candidate.
use glass_guru.Base.{
  ℕ, zero, suc, ◌+◌, ◌*◌, ◌≤◌, ◌≡◌, refl, ap, true, not, some, List, [], ◌∷◌, ◌++◌, select, mem,
  All, All-at, All-of, All-map, Member, Option-cases, List-cases, ◌⊎◌, inl, inr, arith, string_eq,
  nat_eq,
}
use glass_guru.Dict.{Dict, put, values, get, has}
use glass_guru.Dict.Laws.{has-eq-get, is_some}
use glass_guru.Model.Units.{Date}
use glass_guru.Model.Entities.{JobId}
use glass_guru.Model.Jobs.{Job}
use glass_guru.Model.Plan.{CrewRoute, scheduled_job_ids}
use glass_guru.World.State.{WorldState}
use glass_guru.Scheduler.Params.{DayPlanResult, HorizonResult}
use glass_guru.Scheduler.Horizon.{
  Solves, Request, Round, Progress, nothing_planned, candidates_of, dates, pin, jobs_on, absorbed,
  note_day, run_days, run_round, run_rounds, finish, plan_horizon, all_routes, or_none,
}
use glass_guru.Scheduler.Horizon.Report.{distinct}
use glass_guru.Scheduler.Horizon.Accounts.{Listed, distinct-Member, report_all-done}

-- Every job of the routes is on record.
abbrev pub OnRecord : WorldState → List CrewRoute → Type 0
OnRecord world routes = All (λ k. has world.jobs k ≡ true) (scheduled_job_ids routes)

-- The days that the solver routes have no jobs but those on record.
abbrev pub RoutesKnown : Solves → Request → Type 0
RoutesKnown solves q =
    (d : Date) (todays locked : List JobId)
    → OnRecord q.world
        (solves.plan_day q.world q.travel d todays q.params locked q.pinned_workers).routes

absorbed-some :
    (world : WorldState) (ks : List JobId)
    → All (λ k. has world.jobs k ≡ true) ks
    → (n : ℕ) × (absorbed world ks ≡ some n)
unfolding absorbed
absorbed-some world [] h = (0, refl)
absorbed-some world (k ∷ ks) h =
    let (n, rest) = absorbed-some world ks h.1 in
    elim (Option-cases (get world.jobs k)) [
      | inl missing ↦ absurd (cc (h.0, has-eq-get world.jobs k, ap is_some missing))
      | inr (j, there) ↦
          (j.estimated_duration_min * j.crew_size + n, rw (there, rest, absorbed) refl)
    ]

note_day-some :
    (world : WorldState) (r : Round) (d : Date) (todays : List JobId) (result : DayPlanResult)
    → OnRecord world result.routes
    → (next : Round) × (note_day world r d todays result ≡ some next)
unfolding note_day
note_day-some world r d todays result h =
    let ks = distinct (scheduled_job_ids result.routes) in
    let known =
      All-of (λ k. has world.jobs k ≡ true) ks
        (λ k m. All-at (λ i. has world.jobs i ≡ true) k _ h ((distinct-Member k _).0 m)) in
    let (n, sum) = absorbed-some world ks known in
    let noted : Round = record r { day_results = put r.day_results d result } in
    elim (List-cases (select (λ j. not (mem j ks)) todays)) [
      | inl all_there ↦ (noted, rw (all_there, note_day) refl)
      | inr (m, ms, missed) ↦ (
        record noted { spilled = r.spilled ++ (m ∷ ms); overrides = put r.overrides d n },
        rw (missed, sum, note_day) refl,
      )
    ]

module _ (solves : Solves) (q : Request) (known : RoutesKnown solves q) where
  run_days-some :
      (assignment : Dict JobId Date) (ds : List Date) (r : Round)
      → (next : Round) × (run_days solves q assignment ds r ≡ some next)
  unfolding run_days
  run_days-some assignment [] r = (r, refl)
  run_days-some assignment (d ∷ ds) r = elim (List-cases (jobs_on assignment d)) [
    | inl free ↦ rw (free, run_days) (run_days-some assignment ds r)
    | inr (k, ks, busy) ↦
        let locked = select (λ j. mem j q.locked_job_ids) (k ∷ ks) in
        let result = solves.plan_day q.world q.travel d (k ∷ ks) q.params locked q.pinned_workers in
        let (next, noted) = note_day-some q.world r d (k ∷ ks) result (known d (k ∷ ks) locked) in
        rw (busy, noted, run_days) (run_days-some assignment ds next)
  ]

  run_round-some :
      (js : List Job) (ds : List Date) (p : Progress)
      → (next : Progress) × (run_round solves q js ds p ≡ some next) × (next.rounds ≡ suc p.rounds)
  unfolding run_round
  run_round-some js ds p =
      let solved =
        solves.assign_days q.world (select (λ (j : Job). not (mem j.id q.locked_job_ids)) js) ds
          q.params q.horizon_params (or_none p.last.overrides) in
      let assignment = pin q.pinned_days q.locked_job_ids solved.0 in
      let (r, ran) =
        run_days-some assignment ds (record p.last { day_results = []; spilled = [] }) in
      (
        record { assignment = assignment; unplaceable = solved.1; last = r; rounds = suc p.rounds },
        rw (ran, run_round) refl,
        refl,
      )

  run_rounds-some :
      (js : List Job) (ds : List Date) (n : ℕ) (p : Progress)
      → (end : Progress) × (run_rounds solves q js ds n p ≡ some end) × (end.rounds ≤ p.rounds + n)
  unfolding run_rounds
  run_rounds-some js ds zero p = (p, refl, omega arith)
  run_rounds-some js ds (suc n) p =
      let (next, ran, one) = run_round-some js ds p in
      elim (List-cases next.last.spilled) [
        | inl settled ↦ (next, rw (ran, settled, run_rounds) refl, omega arith)
        | inr (k, ks, spilled) ↦
            let (end, rest, bound) = run_rounds-some js ds n next in
            (end, rw (ran, spilled, run_rounds) rest, omega arith)
      ]

-- When the days that the solver routes have no jobs but those on record, `plan_horizon` answers. Its
-- answer took no more rounds than the limit, and every candidate is on one of its routes or
-- reported as unserved, whatever the solver leaves out.
pub plan_horizon_accounts :
    (solves : Solves) (q : Request)
    → RoutesKnown solves q
    → (result : HorizonResult) × (plan_horizon solves q ≡ some result)
      × (result.rounds ≤ q.horizon_params.max_rounds)
      × All
          (λ (j : Job). Member j.id (scheduled_job_ids result.routes) ⊎ Listed j.id result.unserved)
          (candidates_of q.world q.candidate_job_ids q.locked_job_ids)
unfolding plan_horizon finish
plan_horizon_accounts solves q known =
    let js = candidates_of q.world q.candidate_job_ids q.locked_job_ids in
    let (end, ran, bound) =
      run_rounds-some solves q known js (dates q.start q.horizon_params.days)
        q.horizon_params.max_rounds nothing_planned in
    let results = values end.last.day_results in
    let routes = all_routes results in
    let done = report_all-done (distinct (scheduled_job_ids routes)) end.unplaceable results js in
    (
      finish js end,
      rw (ran, plan_horizon) refl,
      omega arith,
      All-map _ _
          (λ j here. elim here [
            | inl m ↦ inl ((distinct-Member j.id (scheduled_job_ids routes)).0 m)
            | inr m ↦ inr m
          ])
          js done,
    )
