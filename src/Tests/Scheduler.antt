-- ===== src/Tests/Scheduler.antt =====
-- The scheduler's theorems for the small business, one of whose jobs is under way.
use glass_guru.Base.{
  ℕ, ◌-◌, ◌≤◌, ◌<◌, String, ◌≡◌, ◌≢◌, ◌⊎◌, refl, ap, true, false, none, some, Option, List, [], ◌∷◌,
  map, length, All, Member, inl, inr, arith, string_eq, ◌==◌,
}
use glass_guru.Dict.{Dict, get, has, put}
use glass_guru.Dict.Laws.{Entries, Entries-nil, Entries-put}
use glass_guru.Model.Units.{one_ratio}
use glass_guru.Model.Enums.{CommitmentState}
use glass_guru.Model.Entities.{Location, TravelLeg}
use glass_guru.Model.Jobs.{Job}
use glass_guru.Model.Plan.{CrewRoute, Stop, scheduled_job_ids, job_ids}
use glass_guru.World.Outages.{Unavailability}
use glass_guru.World.State.{WorldState}
use glass_guru.World.Invariant.{JobAt}
use glass_guru.Checker.Duplicates.{visits, NoJobTwice}
use glass_guru.Checker.Travel.{check_travel_consistency}
use glass_guru.Scheduler.Params.{HorizonResult}
use glass_guru.Scheduler.Horizon.{Request, candidates_of, plan_horizon}
use glass_guru.Scheduler.Horizon.Accounts.{Listed}
use glass_guru.Scheduler.Horizon.Total.{RoutesKnown, plan_horizon_accounts}
use glass_guru.Scheduler.Repair.Locked.{locked_jobs, carve_out_locked}
use glass_guru.Scheduler.Repair.Options.{
  all_strategies, RepairStrategy, RepairOptions, RepairCandidate, repair_plan, best_by_fewest_calls,
  candidate,
}
use glass_guru.Scheduler.Repair.Options.Best.{NoWorse, best_by_fewest_calls_least}
use glass_guru.Scheduler.Repair.Options.Sound.{RoutesGiven, IsRepair, repair_plan-IsRepair}
use glass_guru.Scheduler.Routing.{earliest_start, materialize_route}
use glass_guru.Scheduler.Routing.Windows.{Allows, IsSoonest, earliest_start_least}
use glass_guru.Scheduler.Routing.Honest.{FirstSettles, IsPricedOut, materialize_route_honest}
use glass_guru.Scheduler.Day.Free.{clamped, blocked, largest_free_interval}
use glass_guru.World.Queries.{is_out}
use glass_guru.Scheduler.Day.Free.Clear.{EndsOnMinute}
use glass_guru.Scheduler.Day.Free.Longest.{
  largest_free_interval_longest, largest_free_interval-IsFree,
}
use glass_guru.Scheduler.Travel.Buckets.{LegKey}
use glass_guru.Scheduler.Travel.Cache.{memory_leg_store, Cache, Query, MissPolicy, cached_legs}
use glass_guru.Scheduler.Travel.Cache.Refines.{canonical, cached_legs-refines}
use glass_guru.Scheduler.Travel.Cache.Replay.{recorded_run_replays}
use glass_guru.Tests.Data.{
  at, monday, shop, truck, window_job, screen_job, morning, small_world, steady, rush, strict,
  route_of, visit, good_routes, good_plan,
}
use glass_guru.Tests.Solver.{fixed, usual_params, one_week}

-- The first job is under way.
abbrev pub underway : Job
underway = record window_job { commitment_state = CommitmentState.dispatched }

abbrev pub busy_world : WorldState
busy_world = record small_world { jobs = ("j1", underway) ∷ ("j2", screen_job) ∷ [] }

pub busy_world-own : Entries JobAt busy_world.jobs
unfolding put
busy_world-own =
    Entries-put JobAt _ "j2" screen_job refl
      (Entries-put JobAt [] "j1" underway refl (Entries-nil JobAt))

two_jobs : ◌≢◌ {A = String} "j1" "j2"
two_jobs e = let same : false ≡ true = ap (λ s. s == "j2") e in cc same

pub good_routes-once : NoJobTwice (visits good_routes)
unfolding visits
good_routes-once = ((two_jobs, tt), (tt, tt))

-- What is left of the day.
abbrev pub rest_of_day : List Stop
rest_of_day = visit "j2" 840 900 ∷ []

pub rest-RoutesGiven :
    RoutesGiven
      (fixed rest_of_day)
      (carve_out_locked busy_world good_plan (locked_jobs busy_world)).0
unfolding glass_guru.Dict.values glass_guru.Dict.has glass_guru.Base.Sort.sorted
    glass_guru.Checker.Baseline.is_locked glass_guru.Scheduler.Repair.Locked.locked_jobs
    glass_guru.Scheduler.Repair.Locked.carve_out_locked glass_guru.Model.Plan.scheduled_job_ids
rest-RoutesGiven travel d todays locked params pinned = (refl, tt)

repair_plan-IsRepair_example :
    (options : RepairOptions) × (repair_plan
        (fixed rest_of_day)
        (λ t. t)
        (λ id i. "p3")
        busy_world
        steady
        good_plan
        monday
        usual_params
        one_week
        all_strategies
      ≡ some options)
    × (length options.candidates ≡ 3)
    × All (IsRepair busy_world good_plan) options.candidates
repair_plan-IsRepair_example =
    repair_plan-IsRepair (fixed rest_of_day) (λ t. t) (λ id i. "p3") busy_world steady good_plan
      monday usual_params one_week busy_world-own good_routes-once rest-RoutesGiven all_strategies

abbrev request : Request
request = record {
  world = small_world;
  travel = steady;
  start = monday;
  params = usual_params;
  horizon_params = one_week;
  candidate_job_ids = none;
  locked_job_ids = [];
  pinned_days = [];
  pinned_workers = none;
}

rest-on-record : RoutesKnown (fixed rest_of_day) request
unfolding has scheduled_job_ids job_ids
rest-on-record d todays locked = (refl, tt)

plan_horizon_accounts_example :
    (result : HorizonResult) × (plan_horizon (fixed rest_of_day) request ≡ some result)
    × (result.rounds ≤ 3)
    × All
        (λ (j : Job). Member j.id (scheduled_job_ids result.routes) ⊎ Listed j.id result.unserved)
        (candidates_of small_world none [])
plan_horizon_accounts_example = plan_horizon_accounts (fixed rest_of_day) request rest-on-record

drives_settle : FirstSettles rush small_world truck (at 420) ("j1" ∷ "j2" ∷ [])
unfolding get earliest_start
drives_settle = inr (λ t u l m n. ground arith, λ t l m. ground arith)

materialize_route_honest_example :
    (r : CrewRoute) × (materialize_route rush small_world "crew1"
        ("w1" ∷ [])
        "v1"
        monday
        ("j1" ∷ "j2" ∷ [])
        (at 420)
      ≡ some r)
    × (map (λ s. s.job_id) r.stops ≡ "j1" ∷ "j2" ∷ [])
    × IsPricedOut rush small_world truck (at 420) r.stops
    × (check_travel_consistency rush strict small_world (r ∷ []) ≡ [])
unfolding get has
materialize_route_honest_example =
    materialize_route_honest rush strict small_world "crew1" ("w1" ∷ []) "v1" truck monday
      ("j1" ∷ "j2" ∷ []) (at 420) refl (refl, (refl, tt)) drives_settle

earliest_start_least_example :
    (All (λ w. ¬ Allows 60 (at 450) w) (morning ∷ [])
      × (earliest_start window_job (at 450) ≡ at 450))
    ⊎ IsSoonest 60 (at 450) (earliest_start window_job (at 450)) (morning ∷ [])
earliest_start_least_example = earliest_start_least window_job (at 450)

-- Out from nine to noon.
abbrev away : List Unavailability
away = record { from_time = at 540; until_time = some (at 720); reason = "sick" } ∷ []

away-EndsOnMinute : All (EndsOnMinute (at 0)) away
away-EndsOnMinute = ((omega arith, inr (720, refl)), tt)

largest_free_interval_longest_example :
    (a : ℕ) × (b : ℕ) × (largest_free_interval away (at 0) 420 1020 ≡ some (a, b))
    × (420 ≤ a)
    × (a < b)
    × (b ≤ 1020)
    × (is_out away (at a) (at b) ≡ false)
    × (1020 - 720 ≤ b - a)
unfolding is_out glass_guru.World.Outages.covers
largest_free_interval_longest_example =
    largest_free_interval_longest away (at 0) 420 1020 720 1020 (omega arith) away-EndsOnMinute
      (omega arith) (omega arith) (omega arith) refl

largest_free_interval-IsFree_example :
    (420 ≤ 720) × (720 < 1020) × (1020 ≤ 1020) × (is_out away (at 720) (at 1020) ≡ false)
unfolding glass_guru.Base.Sort.sorted glass_guru.Scheduler.Day.Free.largest_free_interval
largest_free_interval-IsFree_example =
    largest_free_interval-IsFree away (at 0) 420 1020 720 1020 (omega arith) away-EndsOnMinute refl

-- The other side of the river.
abbrev far_side : Location
far_side = record shop { address = "9 Hill Rd" }

abbrev there_and_back : List Query
there_and_back =
    record { origin = shop; dest = far_side; depart_at = at 480 }
    ∷ record { origin = far_side; dest = shop; depart_at = at 600 }
    ∷ record { origin = shop; dest = far_side; depart_at = at 485 }
    ∷ []

abbrev empty_cache : Cache (Dict LegKey TravelLeg)
empty_cache = record { legs = []; hits = 0; misses = 0 }

cached_legs-refines_example :
    (after : Cache (Dict LegKey TravelLeg)) × (cached_legs memory_leg_store
        (λ l. l.address)
        (λ t. t)
        (some rush)
        MissPolicy.compute
        empty_cache
        there_and_back
      ≡ (
        some (
            map
              (canonical memory_leg_store (λ l. l.address) (λ t. t) rush [] there_and_back)
              there_and_back),
        after,
      ))
cached_legs-refines_example =
    cached_legs-refines memory_leg_store (λ l. l.address) (λ t. t) rush empty_cache there_and_back

recorded_run_replays_example :
    (legs : List TravelLeg) × (after : Cache (Dict LegKey TravelLeg)) × (replayed : Cache
      (Dict LegKey TravelLeg))
    × (cached_legs memory_leg_store
          (λ l. l.address)
          (λ t. t)
          (some rush)
          MissPolicy.compute
          empty_cache
          there_and_back
        ≡ (some legs, after))
    × (cached_legs memory_leg_store
          (λ l. l.address)
          (λ t. t)
          none
          MissPolicy.error
          after
          there_and_back
        ≡ (some legs, replayed))
    × (replayed.misses ≡ after.misses)
    × (replayed.legs ≡ after.legs)
recorded_run_replays_example =
    recorded_run_replays memory_leg_store (λ l. l.address) (λ t. t) rush empty_cache there_and_back

abbrev rest_result : HorizonResult
rest_result = record {
  routes = route_of rest_of_day ∷ [];
  unserved = [];
  day_results = [];
  assignment = [];
  rounds = 1;
  released_promises = [];
  metrics = [];
}

abbrev cautious : RepairStrategy
cautious = record {
  name = "least_disruption";
  description = "";
  change_penalty = 600_000;
  release_multiplier = 40_000;
  allow_overtime = true;
  unserved_multiplier = one_ratio;
}

-- A candidate that keeps the first visit and one that drops it.
abbrev pub keeping : RepairCandidate
keeping = candidate (λ id i. "p3") busy_world good_plan 0 cautious good_routes rest_result

abbrev pub dropping : RepairCandidate
dropping = candidate (λ id i. "p4") busy_world good_plan 1 cautious [] rest_result

best_by_fewest_calls_least_example :
    (best : RepairCandidate) × (best_by_fewest_calls
        (record { candidates = dropping ∷ keeping ∷ []; baseline = good_plan })
      ≡ some best)
    × Member best (dropping ∷ keeping ∷ [])
    × All (NoWorse best) (dropping ∷ keeping ∷ [])
best_by_fewest_calls_least_example =
    best_by_fewest_calls_least
      (record { candidates = dropping ∷ keeping ∷ []; baseline = good_plan }) dropping
      (keeping ∷ []) refl
