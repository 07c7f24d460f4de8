-- ===== src/Events.antt =====
-- The event log's records (src/krama/domain/events.py). `EventBase` is the envelope; the union
-- `Event` is the envelope with a body, one constructor for each class. A class with more than two
-- fields of its own is a record.
use glass_guru.Base.{ℕ, String, Option, List}
use glass_guru.Dict.{Dict}
use glass_guru.Model.Units.{Moment, Date, Ratio}
use glass_guru.Model.Units.Int.{ℤ}
use glass_guru.Model.Entities.{WorkerId, VanId, JobId, Location, TimeWindow, Worker, Van}
use glass_guru.Model.Jobs.{Job}

pub record EventBase : Type 0 where
  pub event_id : String
  pub occurred_at : Moment
  pub recorded_at : Moment
  pub dispatch_id : String
  pub actor : String

pub record JobSlotOffered : Type 0 where
  pub job_id : JobId
  pub offered : List TimeWindow
  pub marginal_costs : List ℤ

pub record JobConfirmed : Type 0 where
  pub job_id : JobId
  pub window : TimeWindow
  pub commitment_cost : ℕ

pub record WorkerUnavailable : Type 0 where
  pub worker_id : WorkerId
  pub from_time : Moment
  pub until_time : Option Moment
  pub reason : String

pub record WorkerRestored : Type 0 where
  pub worker_id : WorkerId
  pub window_start : Option Moment
  pub window_end : Option Moment

pub record VanUnavailable : Type 0 where
  pub van_id : VanId
  pub from_time : Moment
  pub until_time : Option Moment
  pub reason : String

pub record VanRestored : Type 0 where
  pub van_id : VanId
  pub window_start : Option Moment
  pub window_end : Option Moment

pub record TrafficDelay : Type 0 where
  pub origin_geohash5 : Option String
  pub dest_geohash5 : Option String
  pub multiplier : Ratio
  pub from_time : Moment
  pub until_time : Option Moment
  pub note : String

pub record PlanCommitted : Type 0 where
  pub plan_id : String
  pub parent_id : Option String
  pub content_hash : String

pub record PlanProposed : Type 0 where
  pub proposal_id : String
  pub candidate_plan_ids : List String
  pub recommended_plan_id : String
  pub rationale : String

pub record ProposalApproved : Type 0 where
  pub proposal_id : String
  pub chosen_plan_id : String
  pub note : String

pub record OvertimeOffered : Type 0 where
  pub job_id : JobId
  pub on_date : Date
  pub offered_to : List WorkerId
  pub fallback : WorkerId
  pub overtime_minutes : ℕ
  pub claim_deadline : Moment

pub record ShiftExtended : Type 0 where
  pub worker_id : WorkerId
  pub on_date : Date
  pub until_time : Moment
  pub reason : String

pub record CrewAskOpened : Type 0 where
  pub ask_id : String
  pub customer_name : String
  pub phone : String
  pub transcript : String
  pub on_date : Date
  pub until_time : Moment
  pub candidate_ids : List WorkerId
  pub detail : String

pub data Body : Type 0 where
  worker_registered : Worker → Body
  van_registered : Van → Body
  job_requested : Job → Body
  job_slot_offered : JobSlotOffered → Body
  job_confirmed : JobConfirmed → Body
  job_dispatched : (job_id : JobId) → Body
  job_started : (job_id : JobId) → Body
  job_completed : (job_id : JobId) (actual_duration_min : ℕ) → Body
  job_overran : (job_id : JobId) (extra_minutes : ℕ) → Body
  job_cancelled : (job_id : JobId) (reason : String) → Body
  customer_rescheduled : (job_id : JobId) (new_windows : List TimeWindow) → Body
  job_deferred : (job_id : JobId) → Body
  worker_unavailable : WorkerUnavailable → Body
  worker_restored : WorkerRestored → Body
  van_unavailable : VanUnavailable → Body
  van_restored : VanRestored → Body
  traffic_delay : TrafficDelay → Body
  plan_committed : PlanCommitted → Body
  plan_proposed : PlanProposed → Body
  proposal_approved : ProposalApproved → Body
  proposal_rejected : (proposal_id note : String) → Body
  overtime_offered : OvertimeOffered → Body
  overtime_claimed : (job_id : JobId) (worker_id : WorkerId) → Body
  shift_extended : ShiftExtended → Body
  crew_ask_opened : CrewAskOpened → Body
  crew_ask_closed : (ask_id outcome : String) → Body
  worker_removed : (worker_id : WorkerId) → Body
  van_removed : (van_id : VanId) → Body
  depot_moved : (location : Location) → Body
  rate_card_changed : (entries : Dict String ℤ) → Body

pub record Event : Type 0 where
  pub base : EventBase
  pub open base use *
  pub body : Body
