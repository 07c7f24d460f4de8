-- ===== src/Lib.antt =====
-- The domain core of krama, the scheduling engine of a glass company: the event log and the world
-- that it folds to, the checker of plans, the comparison of two plans, and the gate that decides
-- which changes the system may make without a human; the stores of events and plans; the parts of the
-- scheduler around its constraint solver; the service that puts them together; and what the program
-- makes of a language model's answers.
--
-- How the parts work together: the application records events (src/krama/domain/events.py) and folds
-- them into a world state (src/krama/domain/state.py). A solver proposes plans; none is committed
-- unless the checker (src/krama/domain/invariants.py) reports nothing of it for that world. The plan
-- in force and the proposal are compared (src/krama/domain/diff.py), and the comparison decides, with
-- the policy, whether the change is applied or escalated (src/krama/domain/autonomy.py). When something
-- goes wrong, what has begun is carved out of the plan and the rest is planned again
-- (src/krama/scheduler/repair.py); the service (src/krama/service.py) and the handler of events
-- (src/krama/api/main.py) do this with no human where the gate allows it.
--
-- The files:
--   Base, Dict   helpers: native numbers, lists, sorting, Python's order of strings, and `dict` as an
--                association list in the order of insertion, with one law for each operation
--   Model        src/krama/domain/enums.py, models.py, travel.py: vocabularies, workers, vans, jobs,
--                routes and plans, and the travel interface
--   Events       src/krama/domain/events.py: the envelope `EventBase` and a body for each class
--   World        src/krama/domain/state.py. Outages: `Unavailability`, `_carve_outages`; State: the
--                record `WorldState` and what it holds; Apply: `_apply`, one clause for each event;
--                Fold: `fold`; Queries: the methods of `WorldState`. The other children prove what
--                holds of them
--   Checker      src/krama/domain/invariants.py: a child for each check, with the predicate that it
--                decides; Report: `Violation`, `_route_span`, `_overlaps`; Validate: `validate_plan`
--                and the predicate `IsFeasible`; Baseline: `validate_against_baseline`
--   Diff         src/krama/domain/diff.py. Changes: the records, `customer_visible`, `blast_radius`;
--                Plans: `_placements`, `_classify`, `diff_plans`
--   Autonomy     src/krama/domain/autonomy.py: `decide`
--   Store        src/krama/persistence/log.py. EventLog: `JsonlEventLog`, a file of lines, and
--                `Workspace.seed`; PlanStore: `JsonPlanStore`, HEAD and a file for each version, where
--                `PlanConflict` is a result. Commits and Ancestry prove what holds of them
--   Scheduler    src/krama/scheduler. Params: the parameters and results of a solve; Routing: routing.py;
--                Horizon: `plan_horizon` of horizon.py; Day: `_largest_free_interval` of
--                day_planner.py; Travel: `bucket_for` of travel/base.py, and travel/cache.py, its two
--                stores as instances of the record `LegStore`; Repair: repair.py, where Locked is
--                `carve_out_locked` and Options is `repair_plan`
--   Service      src/krama/service.py: `world`, `plan_week`, `repair`, `autonomy`, `diff`; and
--                `_quiet_reroute` of src/krama/api/main.py. What fails is a result
--   Agents       src/krama/agents/structured.py with the interface of src/krama/agents/llm/base.py:
--                asking a model for an object until it validates (`extract`); coordinator.py: a
--                model picks one of the repaired candidates and the gate judges it; triage.py, with
--                src/krama/cli/events.py: a note becomes typed events (`triage`, `build_event`)
--   Tests        concrete inputs
--
-- How the code is represented. A moment is a UTC `datetime` in microseconds from the first that
-- Python knows, a date its ordinal, a time of day its microseconds; a day's ordinal and weekday are
-- computed from them. Subtraction of a drive from a moment stops at the calendar's beginning, where
-- Python would raise. A float (money, miles, coordinates, confidence) is a whole number of
-- ten-thousandths: the domain only copies, compares and adds such amounts. A traffic multiplier is a
-- fraction, since multipliers are multiplied. The f-strings of violations and reasons are
-- values that name the sentence and hold what it prints. A mutated `WorldState` is passed on from
-- event to event. A frozen set is a list of which only membership is used; `sorted` is an insertion
-- sort, which is stable as Python's is. Loops run over lists, but that of
-- `ancestry`, which is given as many rounds as the directory has versions: each round sees another
-- one, so that they are enough. The rounds of `plan_horizon` and the three tries of
-- `_depart_and_arrive` are counted down as in the code. A KeyError, a ServiceError and a CacheMiss are
-- results. `is not` between repaired
-- candidates compares the ids of their plans, which differ. A Python set that is only
-- asked for membership or counted is a list with no element twice.
--
-- Parameters: the clock of the business's time zone (`business_tz`, the standard library's) and the
-- travel oracle, of which nothing is supposed but where a theorem says so (how the drive to a first job
-- may change while the crew waits to leave); the language model, which answers the messages of a
-- request, the JSON library and the validation of a schema; `assign_days` and `plan_day`,
-- which build models for OR-Tools and read its answers, of which it is supposed that a day's routes
-- have no jobs but those on record; geohashes; the f-strings that name plans, of which it is supposed
-- that a name has no space at its ends; and pydantic's JSON, of which it is supposed that a
-- value that was dumped is read back as it was, and is no blank line.
--
-- Not modelled: the field bounds that pydantic checks when a record is built, geohashes, distances
-- and hashes (third-party code and floating point), texts for display, and the rest of the program:
-- the solver's model and the search, the days that a job may be put on, bookings, prices and costs
-- (src/krama/scheduler), the providers of drives and traffic over HTTP, S3 and the atomicity of writes
-- (src/krama/persistence), the agents that read calls and notes and that write messages, the prompts,
-- the confirmation and the kinds off the list that `build_event` takes from the command line,
-- the other handlers of the API, command line, tracing, evals and the web client.
pub mod Base
pub mod Dict
pub mod Model
pub mod Events
pub mod World
pub mod Checker
pub mod Diff
pub mod Agents
pub mod Autonomy
pub mod Store
pub mod Scheduler
pub mod Service
mod Tests
