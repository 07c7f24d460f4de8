-- ===== src/Tests/Solver.antt =====
-- A solver that puts every job on Monday and routes that day in one way, and the settings around it.
use glass_guru.Base.{true, false, none, List, [], ◌∷◌}
use glass_guru.Dict.{Dict}
use glass_guru.Model.Units.{Date, one_ratio}
use glass_guru.Model.Units.Int.{pos}
use glass_guru.Model.Entities.{JobId}
use glass_guru.Model.Jobs.{Job}
use glass_guru.Model.Plan.{CrewRoute, Stop}
use glass_guru.Scheduler.Params.{SolveParams, HorizonParams}
use glass_guru.Scheduler.Horizon.{Solves}
use glass_guru.Service.{Settings}
use glass_guru.Tests.Data.{monday, steady, route_of}

abbrev on_monday : List Job → Dict JobId Date
on_monday [] = []
on_monday (j ∷ js) = (j.id, monday) ∷ on_monday js

-- Bob drives.
abbrev pub bobs_route : List Stop → CrewRoute
bobs_route stops = record (route_of stops) { worker_ids = "w2" ∷ [] }

abbrev pub fixed : List Stop → Solves
fixed stops = record {
  assign_days = λ world jobs days params horizon_params overrides. (on_monday jobs, []);
  plan_day = λ world travel day todays params locked pinned. record {
    routes = bobs_route stops ∷ [];
    unserved = [];
    objective_cost = pos 0;
    status = "OPTIMAL";
    released_promises = [];
    metrics = [];
  };
}

abbrev pub usual_params : SolveParams
usual_params = record {
  business_tz = λ t. t;
  labor_rate_per_minute = 9_200;
  overtime_rate_multiplier = one_ratio;
  unserved_penalty_base = record { num = 500; den = 1 };
  deferral_escalation = 2_500_000;
  lateness_per_minute = 20_000;
  revenue_weight = record { num = 1; den = 2 };
  allow_overtime = true;
  overtime_minutes = 120;
  hard_window_buffer_minutes = 0;
  travel_bucket = none;
  k_nearest = none;
  prune_above = 25;
  max_solve_seconds = 100_000;
  max_deterministic_time = none;
  search_workers = 1;
  random_seed = 0;
  incumbent = none;
  change_penalty = 0;
  reschedule_penalty_multiplier = 10_000;
  allow_promise_release = false;
}

abbrev pub one_week : HorizonParams
one_week = record {
  days = 5;
  capacity_utilization = one_ratio;
  sector_spread_penalty = 450_000;
  day_delay_penalty = 120_000;
  max_rounds = 3;
}

abbrev pub settings : List Stop → Settings
settings stops = record {
  business_tz = λ t. t;
  wall = λ t. t;
  params = usual_params;
  horizon_params = one_week;
  policy = record { max_cost_delta = pos 0; max_changes = 50; escalate_new_overtime = true };
  travel = λ world. steady;
  solves = fixed stops;
  name_repair = λ id index. "p3";
  name_version = λ n. "v002";
}
