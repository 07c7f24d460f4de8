-- ===== src/World/Apply.antt =====
-- `_apply` of src/krama/domain/state.py: the effect of one event on the world state.
use glass_guru.Base.{
  ℕ, ◌+◌, String, Option, none, some, List, [], ◌∷◌, ◌++◌, ltb, mem, ◌==◌, string_eq, nat_eq,
  pair_eq, if◌then◌else◌,
}
use glass_guru.Dict.{Dict, get, put, pop, update, get_or, map_values}
use glass_guru.Model.Units.{Moment}
use glass_guru.Model.Enums.{CommitmentState, commitment_eq}
use glass_guru.Model.Entities.{WorkerId, JobId}
use glass_guru.Model.Jobs.{Job}
use glass_guru.Events.{
  Event, Body, worker_registered, van_registered, job_requested, job_slot_offered, job_confirmed,
  job_dispatched, job_started, job_completed, job_overran, job_cancelled, customer_rescheduled,
  job_deferred, worker_unavailable, worker_restored, van_unavailable, van_restored, traffic_delay,
  plan_committed, plan_proposed, proposal_approved, proposal_rejected, overtime_offered,
  overtime_claimed, shift_extended, crew_ask_opened, crew_ask_closed, worker_removed, van_removed,
  depot_moved, rate_card_changed, ShiftExtended, OvertimeOffered,
}
use glass_guru.World.Outages.{Unavailability, carve_outages}
use glass_guru.World.State.{WorldState, OvertimeOffer}

-- `if existing := state.jobs.get(job_id): state.jobs[existing.id] = …`
unfoldable pub update_job : WorldState → JobId → (Job → Job) → WorldState
update_job s job_id f = elim (get s.jobs job_id) [
  | none ↦ s
  | some j ↦ record s { jobs = put s.jobs j.id (f j) }
]

-- `JobRequested`: a draft comes in as provisional
unfoldable pub on_requested : Job → Job
on_requested j =
    if j.commitment_state == CommitmentState.draft
    then record j { commitment_state = CommitmentState.provisional }
    else j

-- `outages.setdefault(id, []).append(…)`
unfoldable pub add_outage :
    Dict String (List Unavailability) → String → Unavailability → Dict String (List Unavailability)
add_outage d id o = put d id (get_or d id [] ++ o ∷ [])

-- `_carve_outages(outages.get(id, []), start, end)`, which writes into the stored list
unfoldable pub restore :
    Dict String (List Unavailability)
    → String
    → Moment
    → Option Moment
    → Dict String (List Unavailability)
unfolding carve_outages
restore d id start end = elim (get d id) [
  | none ↦ d
  | some os ↦ put d id (carve_outages os start end)
]

abbrev pub or_moment : Option Moment → Moment → Moment
or_moment none t = t
or_moment (some w) t = w

-- `OvertimeOffered`
unfoldable pub new_offer : OvertimeOffered → OvertimeOffer
new_offer e = record {
  job_id = e.job_id;
  on_date = e.on_date;
  offered_to = e.offered_to;
  fallback = e.fallback;
  overtime_minutes = e.overtime_minutes;
  claim_deadline = e.claim_deadline;
  claimed_by = none;
}

-- `OvertimeClaimed`: the first reply wins, from somebody who was asked
unfoldable pub claim : Dict JobId OvertimeOffer → JobId → WorkerId → Dict JobId OvertimeOffer
claim offers job_id worker_id = elim (get offers job_id) [
  | none ↦ offers
  | some offer ↦ elim offer.claimed_by [
    | some first ↦ offers
    | none ↦
        if mem worker_id offer.offered_to
        then put offers job_id (record offer { claimed_by = some worker_id })
        else offers
  ]
]

-- `ShiftExtended`: of two agreements the later hour stands
unfoldable pub extend : Dict (WorkerId × ℕ) Moment → ShiftExtended → Dict (WorkerId × ℕ) Moment
extend d e = elim (get d (e.worker_id, e.on_date)) [
  | none ↦ put d (e.worker_id, e.on_date) e.until_time
  | some standing ↦
      if ltb standing e.until_time then put d (e.worker_id, e.on_date) e.until_time else d
]

-- _apply, the event's envelope giving only `occurred_at`
unfoldable pub apply_body : WorldState → Moment → Body → WorldState
unfolding update_job on_requested add_outage restore new_offer claim extend
apply_body s now (worker_registered w) = record s { workers = put s.workers w.id w }
apply_body s now (van_registered v) = record s { vans = put s.vans v.id v }
apply_body s now (job_requested j) = record s { jobs = put s.jobs j.id (on_requested j) }
apply_body s now (job_confirmed e) = update_job s e.job_id λ j. record j {
  commitment_state = CommitmentState.confirmed;
  commitment_cost = e.commitment_cost;
  windows = e.window ∷ [];
}
apply_body s now (job_dispatched job_id) =
    update_job s job_id (λ j. record j { commitment_state = CommitmentState.dispatched })
apply_body s now (job_started job_id) =
    update_job s job_id (λ j. record j { commitment_state = CommitmentState.dispatched })
apply_body s now (job_completed job_id actual_duration_min) = update_job s job_id λ j. record j {
  commitment_state = CommitmentState.completed;
  estimated_duration_min = actual_duration_min;
}
apply_body s now (job_overran job_id extra_minutes) =
    update_job s job_id
      λ j. record j { estimated_duration_min = j.estimated_duration_min + extra_minutes }
apply_body s now (job_cancelled job_id reason) =
    let s' = update_job s job_id (λ j. record j { commitment_state = CommitmentState.cancelled }) in
    record s' { overtime_offers = pop s'.overtime_offers job_id }
apply_body s now (customer_rescheduled job_id new_windows) = update_job s job_id λ j. record j {
  windows = new_windows;
  commitment_state = CommitmentState.provisional;
  commitment_cost = 0;
}
apply_body s now (job_deferred job_id) =
    update_job s job_id (λ j. record j { deferral_count = j.deferral_count + 1 })
apply_body s now (worker_unavailable e) = record s {
  worker_outages =
      add_outage s.worker_outages e.worker_id
        (record { from_time = e.from_time; until_time = e.until_time; reason = e.reason });
}
apply_body s now (worker_restored e) = record s {
  worker_outages = restore s.worker_outages e.worker_id (or_moment e.window_start now) e.window_end;
}
apply_body s now (van_unavailable e) = record s {
  van_outages =
      add_outage s.van_outages e.van_id
        (record { from_time = e.from_time; until_time = e.until_time; reason = e.reason });
}
apply_body s now (van_restored e) = record s {
  van_outages = restore s.van_outages e.van_id (or_moment e.window_start now) e.window_end;
}
apply_body s now (overtime_offered e) = record s {
  overtime_offers = put s.overtime_offers e.job_id (new_offer e);
}
apply_body s now (rate_card_changed entries) = record s { rate_card = update s.rate_card entries }
apply_body s now (depot_moved location) = record s {
  vans = map_values (λ v. record v { home_depot = location }) s.vans;
}
apply_body s now (worker_removed worker_id) = record s {
  workers = pop s.workers worker_id;
  worker_outages = pop s.worker_outages worker_id;
}
apply_body s now (van_removed van_id) = record s {
  vans = pop s.vans van_id;
  van_outages = pop s.van_outages van_id;
}
apply_body s now (shift_extended e) = record s { shift_extensions = extend s.shift_extensions e }
apply_body s now (crew_ask_opened e) = record s {
  crew_asks = put s.crew_asks e.ask_id (record {
    ask_id = e.ask_id;
    customer_name = e.customer_name;
    phone = e.phone;
    transcript = e.transcript;
    on_date = e.on_date;
    until_time = e.until_time;
    candidate_ids = e.candidate_ids;
    detail = e.detail;
  });
}
apply_body s now (crew_ask_closed ask_id outcome) = record s { crew_asks = pop s.crew_asks ask_id }
apply_body s now (overtime_claimed job_id worker_id) = record s {
  overtime_offers = claim s.overtime_offers job_id worker_id;
}
apply_body s now (traffic_delay e) = record s {
  traffic_overrides =
      s.traffic_overrides
      ++ record {
        origin_geohash5 = e.origin_geohash5;
        dest_geohash5 = e.dest_geohash5;
        multiplier = e.multiplier;
        from_time = e.from_time;
        until_time = e.until_time;
      }
        ∷ [];
}
apply_body s now (plan_committed e) = record s { committed_plan_id = some e.plan_id }
-- recorded for audit; no change of state
apply_body s now (job_slot_offered e) = s
apply_body s now (plan_proposed e) = s
apply_body s now (proposal_approved e) = s
apply_body s now (proposal_rejected proposal_id note) = s

unfoldable pub apply : WorldState → Event → WorldState
unfolding apply_body
apply s e = apply_body s e.occurred_at e.body
