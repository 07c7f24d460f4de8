-- ===== src/Tests/Agents.antt =====
-- Concrete runs of the agents.
use glass_guru.Base.{
  String, ◌≡◌, ◌⊎◌, refl, true, false, Option, none, some, List, [], ◌∷◌, Member, All, length,
}
use glass_guru.Model.Units.Int.{pos}
use glass_guru.Autonomy.{AutonomyPolicy, IsHarmless}
use glass_guru.Scheduler.Repair.Options.{RepairCandidate, RepairOptions}
use glass_guru.Agents.Structured.{
  Message, LlmResponse, Completion, Validated, Model, extract, no_usage,
}
use glass_guru.Agents.Structured.Bounds.{IsAccounted, extract-IsAccounted}
use glass_guru.Agents.Coordinator.{
  StrategyName, Confidence, CoordinatorChoice, choose_repair, needs_human, wants_review,
}
use glass_guru.Agents.Coordinator.Policy.{IsDecided, choose_repair-IsDecided, unattended-IsHarmless}
use glass_guru.Agents.Events.{EventKind}
use glass_guru.Agents.Triage.{TriageOutcome, Desk, triage, needs_dispatcher}
use glass_guru.Agents.Triage.Built.{IsOnRecord}
use glass_guru.Agents.Triage.Statement.{AreEventsOf}
use glass_guru.Agents.Triage.Grounding.{triage-IsOnRecord, unattended_note_recorded}
use glass_guru.Tests.Data.{at, small_world, good_plan}
use glass_guru.Tests.Scheduler.{keeping, dropping}

-- A model that first answers with an object that does not validate, then with a strategy.
abbrev answer : List Message → LlmResponse (Option StrategyName)
answer (asked ∷ []) = record { text = ""; structured = some none; usage = no_usage }
answer messages = record {
  text = "";
  structured = some (some StrategyName.least_disruption);
  usage = no_usage;
}

abbrev checked : Option StrategyName → Validated CoordinatorChoice
checked none = Validated.invalid "field `chosen_strategy`: missing"
checked (some name) = Validated.valid (record {
  chosen_strategy = name;
  rationale = "no calls";
  confidence = Confidence.high;
  wants_human_review = false;
})

abbrev second_try : Model (Option StrategyName) CoordinatorChoice
second_try = record {
  model_id = "small";
  complete = λ messages. Completion.responded (answer messages);
  rescue = λ text. none;
  dumps = λ payload. "{}";
  validate = checked;
  must_call = "call the tool";
  repair_prompt = λ detail. detail;
}

abbrev two_candidates : RepairOptions
two_candidates = record { candidates = dropping ∷ keeping ∷ []; baseline = good_plan }

abbrev easy_policy : AutonomyPolicy
easy_policy = record { max_cost_delta = pos 0; max_changes = 50; escalate_new_overtime = true }

second_try_attempts : (extract second_try "note" 3).attempts ≡ 2
unfolding extract
second_try_attempts = refl

extract-IsAccounted_example : IsAccounted second_try 3 (extract second_try "note" 3)
extract-IsAccounted_example = extract-IsAccounted second_try "note" 3

choose_repair-IsDecided_example :
    IsDecided two_candidates easy_policy
      (choose_repair second_try (λ o. "options") two_candidates easy_policy 3)
choose_repair-IsDecided_example =
    choose_repair-IsDecided second_try (λ o. "options") two_candidates easy_policy 3 dropping
      (keeping ∷ []) refl

needs_nobody :
    needs_human (choose_repair second_try (λ o. "options") two_candidates easy_policy 3) ≡ false
unfolding needs_human choose_repair extract glass_guru.Dict.get glass_guru.Dict.put
    glass_guru.Scheduler.Repair.Options.candidate glass_guru.Autonomy.decide
    glass_guru.Diff.Changes.blast_radius glass_guru.Diff.Plans.diff_plans
    glass_guru.Base.Sort.sorted glass_guru.Dict.has glass_guru.Base.Text.text_leb
    glass_guru.Model.Crews.same_set
needs_nobody = refl

unattended-IsHarmless_example :
    (chosen : RepairCandidate) × ((choose_repair second_try
        (λ o. "options")
        two_candidates
        easy_policy
        3).candidate
      ≡ some chosen)
    × Member chosen (dropping ∷ keeping ∷ [])
    × IsHarmless chosen.diff easy_policy (pos 0)
    × (wants_review
          (choose_repair second_try (λ o. "options") two_candidates easy_policy 3).extraction.value
        ≡ false)
unattended-IsHarmless_example =
    unattended-IsHarmless second_try (λ o. "options") two_candidates easy_policy 3 needs_nobody

-- A note with one item that is on record, and how the model reads it.
abbrev van_down : TriageOutcome
van_down = record {
  events =
      record {
        kind = EventKind.van_unavailable;
        target = "v1";
        clock = "";
        until = "";
        minutes = none;
        multiplier = none;
        reason = "breakdown";
      }
      ∷ [];
  question = "";
  summary = "van down";
}

abbrev reader : Model String TriageOutcome
reader = record {
  model_id = "small";
  complete = λ messages.
      Completion.responded (record { text = ""; structured = some "van down"; usage = no_usage });
  rescue = λ text. none;
  dumps = λ payload. payload;
  validate = λ payload. Validated.valid van_down;
  must_call = "call the tool";
  repair_prompt = λ detail. detail;
}

abbrev desk : Desk
desk = record {
  world = small_world;
  reported_at = at 600;
  dispatch_id = "d1";
  fresh_id = λ index. "e1";
  on_clock = λ clock. none;
}

triage-IsOnRecord_example :
    All (λ e. IsOnRecord small_world e.body) (triage reader desk "v1 is down" 3).events
triage-IsOnRecord_example = triage-IsOnRecord reader desk "v1 is down" 3

nothing_to_ask : needs_dispatcher (triage reader desk "v1 is down" 3) ≡ false
unfolding needs_dispatcher triage extract glass_guru.Dict.has glass_guru.Agents.Events.build_event
nothing_to_ask = refl

unattended_note_recorded_example :
    (outcome : TriageOutcome) × ((extract reader "v1 is down" 3).value ≡ some outcome)
    × AreEventsOf desk 0 outcome.events (triage reader desk "v1 is down" 3).events
unattended_note_recorded_example =
    unattended_note_recorded reader desk "v1 is down" 3 nothing_to_ask
