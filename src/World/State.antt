-- ===== src/World/State.antt =====
-- `WorldState` and its records of offers, asks and traffic (src/krama/domain/state.py).
use glass_guru.Base.{
  ℕ, String, Bool, true, false, not, Option, none, some, List, [], leb, ltb, ◌||◌, ◌==◌, string_eq,
  if◌then◌else◌,
}
use glass_guru.Dict.{Dict}
use glass_guru.Model.Units.{Moment, Date, Ratio}
use glass_guru.Model.Units.Int.{ℤ}
use glass_guru.Model.Entities.{WorkerId, VanId, JobId, Worker, Van}
use glass_guru.Model.Jobs.{Job}
use glass_guru.World.Outages.{Unavailability, is_some_and}

pub record OvertimeOffer : Type 0 where
  pub job_id : JobId
  pub on_date : Date
  pub offered_to : List WorkerId
  pub fallback : WorkerId
  pub overtime_minutes : ℕ
  pub claim_deadline : Moment
  pub claimed_by : Option WorkerId

pub data OfferStatus : Type 0 where
  claimed expired open_offer : OfferStatus

-- OvertimeOffer.status; an empty `claimed_by` counts as unclaimed
unfoldable pub status : OvertimeOffer → Moment → OfferStatus
status o now = elim o.claimed_by [
  | none ↦ if leb o.claim_deadline now then expired else open_offer
  | some w ↦ if w == "" then (if leb o.claim_deadline now then expired else open_offer) else claimed
]

pub record CrewAsk : Type 0 where
  pub ask_id : String
  pub customer_name : String
  pub phone : String
  pub transcript : String
  pub on_date : Date
  pub until_time : Moment
  pub candidate_ids : List WorkerId
  pub detail : String

pub record TrafficOverride : Type 0 where
  pub origin_geohash5 : Option String
  pub dest_geohash5 : Option String
  pub multiplier : Ratio
  pub from_time : Moment
  pub until_time : Option Moment

-- Does an endpoint of `None`, or this one, take in the cell?
abbrev pub any_or : Option String → String → Bool
any_or none cell = true
any_or (some c) cell = c == cell

-- TrafficOverride.applies_to
unfoldable pub applies_to : TrafficOverride → String → String → Moment → Bool
applies_to t origin dest at =
    if ltb at t.from_time || is_some_and (λ until. leb until at) t.until_time
    then false
    else if not (any_or t.origin_geohash5 origin)
    then false
    else any_or t.dest_geohash5 dest

pub record WorldState : Type 0 where
  pub as_of : Moment
  pub workers : Dict WorkerId Worker
  pub vans : Dict VanId Van
  pub jobs : Dict JobId Job
  pub worker_outages : Dict WorkerId (List Unavailability)
  pub van_outages : Dict VanId (List Unavailability)
  pub overtime_offers : Dict JobId OvertimeOffer
  pub shift_extensions : Dict (WorkerId × Date) Moment
  pub crew_asks : Dict String CrewAsk
  pub rate_card : Dict String ℤ
  pub traffic_overrides : List TrafficOverride
  pub committed_plan_id : Option String
  pub applied_event_count : ℕ

-- `WorldState(as_of=…)`
abbrev pub empty_world : Moment → WorldState
empty_world t = record {
  as_of = t;
  workers = [];
  vans = [];
  jobs = [];
  worker_outages = [];
  van_outages = [];
  overtime_offers = [];
  shift_extensions = [];
  crew_asks = [];
  rate_card = [];
  traffic_overrides = [];
  committed_plan_id = none;
  applied_event_count = 0;
}
