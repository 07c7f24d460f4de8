-- ===== src/Agents/Triage.antt =====
-- `triage` (src/krama/agents/triage.py): a note, turned into events of things that are on record.
pub mod Built
pub mod Statement
pub mod Recorded
pub mod Grounding
use glass_guru.Base.{
  ℕ, suc, String, Bool, true, false, not, ◌&&◌, ◌||◌, Option, none, some, List, [], ◌∷◌, ◌==◌,
  string_eq, if◌then◌else◌,
}
use glass_guru.Base.Text.{text_leb}
use glass_guru.Base.Sort.{sorted}
use glass_guru.Dict.{has}
use glass_guru.Model.Units.{Moment, Ratio}
use glass_guru.Model.Units.Int.{ℤ}
use glass_guru.World.State.{WorldState}
use glass_guru.Events.{Event}
use glass_guru.Scheduler.Horizon.Report.{distinct}
use glass_guru.Agents.Structured.{Extraction, Model, escalated, extract}
use glass_guru.Agents.Events.{EventKind, BuildError, Made, Arguments, build_event}

pub record TriagedEvent : Type 0 where
  pub kind : EventKind
  pub target : String
  pub clock : String
  pub until : String
  pub minutes : Option ℤ
  pub multiplier : Option Ratio
  pub reason : String

pub record TriageOutcome : Type 0 where
  pub events : List TriagedEvent
  pub question : String
  pub summary : String

-- The f-string of an event that could not be built.
pub record Rejection : Type 0 where
  pub kind : EventKind
  pub target : String
  pub error : BuildError

-- The question that is put to the dispatcher, if any: the model's own, or an f-string.
pub data Question : Type 0 where
  no_question : Question
  asked : String → Question
  not_on_roster : List String → Question
  need_more : Rejection → Question
  unavailable : (error : String) → Question
  unreadable : Question

pub record TriageResult : Type 0 where
  pub events : List Event
  pub question : Question
  pub summary : String
  pub unknown_targets : List String
  pub rejected : List Rejection
  pub extraction : Extraction TriageOutcome

-- `bool(question)`
abbrev pub is_asked : Question → Bool
is_asked no_question = false
is_asked _ = true

abbrev pub is_blank : {A : Type 0} → List A → Bool
is_blank [] = true
is_blank (x ∷ xs) = false

-- TriageResult.needs_dispatcher
unfoldable pub needs_dispatcher : TriageResult → Bool
unfolding escalated
needs_dispatcher r =
    is_asked r.question
    || not (is_blank r.unknown_targets)
    || not (is_blank r.rejected)
    || escalated r.extraction

-- _known_target, by the word that a kind begins with
unfoldable pub known_target : WorldState → EventKind → String → Bool
known_target world EventKind.van_unavailable target = has world.vans target
known_target world EventKind.van_restored target = has world.vans target
known_target world EventKind.worker_unavailable target = has world.workers target
known_target world EventKind.worker_restored target = has world.workers target
known_target world EventKind.job_dispatched target = has world.jobs target
known_target world EventKind.job_cancelled target = has world.jobs target
known_target world EventKind.job_overran target = has world.jobs target
known_target world EventKind.job_completed target = has world.jobs target
known_target world EventKind.traffic_delay target = true

-- What becomes of one item.
pub data Fate : Type 0 where
  recorded : Event → Fate
  unknown : String → Fate
  rejected : Rejection → Fate

-- the three lists that the loop appends to
pub record Sorted : Type 0 where
  pub events : List Event
  pub unknown_targets : List String
  pub rejections : List Rejection

-- What the note came with: the world, when it was typed, the dispatch, the ids that are drawn for
-- the events of a note, and the time that a clock shows on the day (`strptime` and `combine`).
pub record Desk : Type 0 where
  pub world : WorldState
  pub reported_at : Moment
  pub dispatch_id : String
  pub fresh_id : ℕ → String
  pub on_clock : String → Option Moment

-- moment
unfoldable pub moment : Desk → String → Moment
moment desk clock =
    if clock == ""
    then desk.reported_at
    else elim (desk.on_clock clock) [ none ↦ desk.reported_at | some t ↦ t ]

-- `item.target or None`
unfoldable pub target_of : TriagedEvent → Option String
target_of item = if item.target == "" then none else some item.target

unfoldable pub arguments : Desk → TriagedEvent → Arguments
unfolding moment
arguments desk item = record {
  at_time = moment desk item.clock;
  until = if item.until == "" then none else some (moment desk item.until);
  window_start = none;
  window_end = none;
  minutes = item.minutes;
  multiplier = item.multiplier;
  reason = item.reason;
}

unfoldable pub fate_of : TriagedEvent → Made Event → Fate
fate_of item (Made.made event) = Fate.recorded event
fate_of item (Made.refused error) =
    Fate.rejected (record { kind = item.kind; target = item.target; error = error })

-- a turn of the loop over the items
unfoldable pub fate : Desk → ℕ → TriagedEvent → Fate
unfolding known_target target_of arguments fate_of
fate desk index item =
    if not (item.target == "") && not (known_target desk.world item.kind item.target)
    then Fate.unknown item.target
    else fate_of item (
        build_event (desk.fresh_id index) desk.dispatch_id item.kind (target_of item)
          (arguments desk item))

unfoldable pub note_fate : Fate → Sorted → Sorted
note_fate (Fate.recorded event) s = record s { events = event ∷ s.events }
note_fate (Fate.unknown target) s = record s { unknown_targets = target ∷ s.unknown_targets }
note_fate (Fate.rejected why) s = record s { rejections = why ∷ s.rejections }

-- the loop over the items
unfoldable pub sort_items : Desk → ℕ → List TriagedEvent → Sorted
unfolding fate note_fate
sort_items desk index [] = record { events = []; unknown_targets = []; rejections = [] }
sort_items desk index (item ∷ items) =
    note_fate (fate desk index item) (sort_items desk (suc index) items)

-- the question after the loop
unfoldable pub question_of : String → Sorted → Question
question_of question s =
    if question == ""
    then elim s.unknown_targets [
      | u ∷ us ↦ Question.not_on_roster (sorted text_leb (distinct (u ∷ us)))
      | [] ↦ elim s.rejections [ r ∷ rs ↦ Question.need_more r | [] ↦ Question.no_question ]
    ]
    else Question.asked question

-- the question where the model gave nothing
unfoldable pub failure_of : Extraction TriageOutcome → Question
failure_of x = elim x.provider_failed [
  | false ↦ Question.unreadable
  | true ↦ elim x.errors [ [] ↦ Question.unreadable | e ∷ es ↦ Question.unavailable e ]
]

-- what follows the extraction, for its value
unfoldable pub read_value : Desk → Extraction TriageOutcome → Option TriageOutcome → TriageResult
unfolding sort_items question_of failure_of
read_value desk x none = record {
  events = [];
  question = failure_of x;
  summary = "";
  unknown_targets = [];
  rejected = [];
  extraction = x;
}
read_value desk x (some outcome) =
    let s = sort_items desk 0 outcome.events in
    record {
      events = s.events;
      question = question_of outcome.question s;
      summary = outcome.summary;
      unknown_targets = s.unknown_targets;
      rejected = s.rejections;
      extraction = x;
    }

unfoldable pub read_note : Desk → Extraction TriageOutcome → TriageResult
unfolding read_value
read_note desk x = read_value desk x x.value

-- triage
unfoldable pub triage :
    {Payload : Type 0} → Model Payload TriageOutcome → Desk → String → ℕ → TriageResult
unfolding read_note
triage model desk text max_attempts = read_note desk (extract model text max_attempts)
