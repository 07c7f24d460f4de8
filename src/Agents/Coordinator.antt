-- ===== src/Agents/Coordinator.antt =====
-- `choose_repair` (src/krama/agents/coordinator.py): a model picks one of the repaired candidates,
-- and the rules decide whether a person must look at it.
pub mod Policy
use glass_guru.Base.{
  ℕ, String, Bool, true, false, not, Option, none, some, List, [], ◌∷◌, ◌==◌, string_eq,
}
use glass_guru.Dict.{Dict, get, put}
use glass_guru.Model.Units.Int.{pos}
use glass_guru.Autonomy.{AutonomyPolicy, AutonomyDecision, decide, is_auto}
use glass_guru.Scheduler.Repair.Options.{RepairCandidate, RepairOptions, best_by_fewest_calls}
use glass_guru.Agents.Structured.{Extraction, Model, nothing_extracted, extract}

-- StrategyName
pub data StrategyName : Type 0 where
  least_disruption : StrategyName
  most_jobs : StrategyName
  no_overtime : StrategyName

unfoldable pub strategy_name : StrategyName → String
strategy_name least_disruption = "least_disruption"
strategy_name most_jobs = "most_jobs"
strategy_name no_overtime = "no_overtime"

-- the confidence of a CoordinatorChoice
pub data Confidence : Type 0 where
  high : Confidence
  medium : Confidence
  low : Confidence

pub record CoordinatorChoice : Type 0 where
  pub chosen_strategy : StrategyName
  pub rationale : String
  pub confidence : Confidence
  pub wants_human_review : Bool

pub record CoordinatorDecision : Type 0 where
  pub candidate : Option RepairCandidate
  pub rationale : String
  pub confidence : Confidence
  pub autonomy : Option AutonomyDecision
  pub overrode_default : Bool
  pub extraction : Extraction CoordinatorChoice

-- what the model asked for, if it answered
unfoldable pub wants_review : Option CoordinatorChoice → Bool
wants_review none = false
wants_review (some choice) = choice.wants_human_review

-- CoordinatorDecision.needs_human
unfoldable pub needs_human : CoordinatorDecision → Bool
unfolding wants_review
needs_human d = elim d.autonomy [
  | none ↦ true
  | some autonomy ↦ elim d.candidate [
    | none ↦ true
    | some candidate ↦ elim (is_auto autonomy) [
      | false ↦ true
      | true ↦ wants_review d.extraction.value
    ]
  ]
]

-- `by_name`: a later candidate takes the place of an earlier one of its name
unfoldable pub by_name :
    List RepairCandidate → Dict String RepairCandidate → Dict String RepairCandidate
by_name [] d = d
by_name (c ∷ cs) d = by_name cs (put d c.strategy.name c)

-- `by_name.get(choice.chosen_strategy) or default`
unfoldable pub pick : RepairOptions → StrategyName → Option RepairCandidate
unfolding strategy_name by_name
pick options name = elim (get (by_name options.candidates []) (strategy_name name)) [
  | none ↦ best_by_fewest_calls options
  | some candidate ↦ some candidate
]

-- `decide(c.diff, policy) if c else None`
unfoldable pub judged : AutonomyPolicy → Option RepairCandidate → Option AutonomyDecision
judged policy none = none
judged policy (some c) = some (decide c.diff policy (pos 0))

-- `chosen is not default`: the candidates of a repair have plans of different ids, which tell the
-- objects apart
unfoldable pub is_other : Option RepairCandidate → Option RepairCandidate → Bool
is_other none none = false
is_other (some a) (some b) = not (a.plan.id == b.plan.id)
is_other _ _ = true

-- the decision where there is no candidate
abbrev pub no_candidate : CoordinatorDecision
no_candidate = record {
  candidate = none;
  rationale = "the engine produced no repair candidates";
  confidence = Confidence.low;
  autonomy = none;
  overrode_default = false;
  extraction = nothing_extracted;
}

-- the decision after the extraction: the engine's own recommendation where the model abstained
unfoldable pub settle_choice :
    RepairOptions → AutonomyPolicy → Extraction CoordinatorChoice → CoordinatorDecision
unfolding pick judged is_other
settle_choice options policy extraction =
    let default = best_by_fewest_calls options in
    elim extraction.value [
      | none ↦ record {
        candidate = default;
        rationale = "the assistant could not choose, so the engine's own recommendation stands";
        confidence = Confidence.low;
        autonomy = judged policy default;
        overrode_default = false;
        extraction = extraction;
      }
      | some choice ↦ record {
        candidate = pick options choice.chosen_strategy;
        rationale = choice.rationale;
        confidence = choice.confidence;
        autonomy = judged policy (pick options choice.chosen_strategy);
        overrode_default = is_other (pick options choice.chosen_strategy) default;
        extraction = extraction;
      }
    ]

-- choose_repair; `brief` is the text that describes the options
unfoldable pub choose_repair :
    {Payload : Type 0}
    → Model Payload CoordinatorChoice
    → (brief : RepairOptions → String) → RepairOptions
    → AutonomyPolicy
    → ℕ
    → CoordinatorDecision
unfolding settle_choice
choose_repair model brief options policy max_attempts = elim options.candidates [
  | [] ↦ no_candidate
  | c ∷ cs ↦ settle_choice options policy (extract model (brief options) max_attempts)
]
