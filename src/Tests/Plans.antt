-- ===== src/Tests/Plans.antt =====
-- Two plans of the small business compared, and the decision on the change.
use glass_guru.Base.{
  ℕ, String, ◌≡◌, ◌↔◌, refl, false, some, [], ◌∷◌, Any, inl, inr, arith, string_eq,
}
use glass_guru.Dict.{get, put}
use glass_guru.Model.Units.Int.{pos}
use glass_guru.Model.Enums.{CommitmentState}
use glass_guru.Diff.Changes.{ChangeKind, Placement, JobChange}
use glass_guru.Diff.Plans.{placements, diff_plans}
use glass_guru.Diff.Soundness.{Differs, diff_plans_iff}
use glass_guru.Autonomy.{AutonomyPolicy, Decision, decide, IsHarmless, decide-auto_iff}
use glass_guru.Autonomy.Promises.{Breaks, breaking_a_promise_escalates}
use glass_guru.Tests.Data.{small_world, window_job, morning, at, monday, good_plan, late_plan}

abbrev generous : AutonomyPolicy
generous = record {
  max_cost_delta = pos 900_000_000;
  max_changes = 50;
  escalate_new_overtime = false;
}

diff_plans_iff_example :
    Any
      (λ (c : JobChange). c.job_id ≡ "j2")
      (diff_plans good_plan late_plan (some small_world) (pos 0)).changes
    ↔ Differs
        (get (placements (some small_world) good_plan) "j2")
        (get (placements (some small_world) late_plan) "j2")
diff_plans_iff_example = diff_plans_iff good_plan late_plan (some small_world) (pos 0) "j2"

abbrev seat : String → ℕ → ℕ → Placement
seat crew from to = record {
  on_date = monday;
  crew_id = crew;
  van_id = "v1";
  worker_ids = "w1" ∷ [];
  arrival = at from;
  departure = at to;
  worker_names = "Ann" ∷ [];
}

abbrev late_visit : JobChange
late_visit = record {
  job_id = "j1";
  kind = ChangeKind.retimed;
  before = some (seat "crew1" 540 600);
  after = some (seat "crew1" 900 960);
  commitment_state = CommitmentState.confirmed;
  customer_name = "Eve";
  promised_window = some morning;
}

decide-auto_iff_example :
    ((decide (diff_plans good_plan late_plan (some small_world) (pos 0)) generous (pos 0)).decision
      ≡ Decision.auto_apply)
    ↔ IsHarmless (diff_plans good_plan late_plan (some small_world) (pos 0)) generous (pos 0)
decide-auto_iff_example =
    decide-auto_iff (diff_plans good_plan late_plan (some small_world) (pos 0)) generous (pos 0)

late-Breaks :
    Breaks window_job (seat "crew1" 540 600) (get (placements (some small_world) late_plan) "j1")
unfolding get put placements
late-Breaks = inr (ground arith, refl, ground arith)

breaking_a_promise_escalates_example :
    (decide (diff_plans good_plan late_plan (some small_world) (pos 0)) generous (pos 0)).decision
    ≡ Decision.escalate
unfolding get put placements
breaking_a_promise_escalates_example =
    breaking_a_promise_escalates good_plan late_plan small_world (pos 0) (pos 0) generous "j1"
      window_job (seat "crew1" 540 600) refl (inl refl) refl late-Breaks
