-- ===== src/World/Queries.antt =====
-- The queries of `WorldState` (src/krama/domain/state.py).
use glass_guru.Base.{
  String, Bool, false, not, Option, List, [], ◌∷◌, ltb, select, any, ◌==◌, nat_eq, string_eq,
  pair_eq, if◌then◌else◌,
}
use glass_guru.Base.Sort.{sorted}
use glass_guru.Base.Text.{text_leb}
use glass_guru.Dict.{get, has, get_or, values}
use glass_guru.Model.Units.{Moment, Date, Ratio, one_ratio, times}
use glass_guru.Model.Enums.{CommitmentState, commitment_eq}
use glass_guru.Model.Entities.{WorkerId, VanId, Worker, Van}
use glass_guru.Model.Jobs.{Job, is_active}
use glass_guru.World.Outages.{Unavailability, covers}
use glass_guru.World.State.{WorldState, TrafficOverride, applies_to}

-- the order of the sort key, `(j.requested_at, j.id)`
unfoldable pub request_leb : Job → Job → Bool
request_leb a b =
    if a.requested_at == b.requested_at
    then text_leb a.id b.id
    else ltb a.requested_at b.requested_at

-- WorldState.active_jobs
unfoldable pub active_jobs : WorldState → List Job
active_jobs s = sorted request_leb (select is_active (values s.jobs))

-- WorldState.schedulable_jobs
unfoldable pub schedulable_jobs : WorldState → List Job
unfolding active_jobs
schedulable_jobs s =
    select (λ j. not (j.commitment_state == CommitmentState.dispatched)) (active_jobs s)

-- WorldState.extension_for
unfoldable pub extension_for : WorldState → WorkerId → Date → Option Moment
extension_for s worker_id on_date = get s.shift_extensions (worker_id, on_date)

-- `any(o.covers(start, end) for o in outages)`
unfoldable pub is_out : List Unavailability → Moment → Moment → Bool
is_out outages start end = any (λ o. covers o start end) outages

-- WorldState.is_worker_available
unfoldable pub is_worker_available : WorldState → WorkerId → Moment → Moment → Bool
unfolding is_out
is_worker_available s worker_id start end =
    if not (has s.workers worker_id)
    then false
    else not (is_out (get_or s.worker_outages worker_id []) start end)

-- WorldState.is_van_available
unfoldable pub is_van_available : WorldState → VanId → Moment → Moment → Bool
unfolding is_out
is_van_available s van_id start end =
    if not (has s.vans van_id)
    then false
    else not (is_out (get_or s.van_outages van_id []) start end)

-- WorldState.available_workers
unfoldable pub available_workers : WorldState → Moment → Moment → List Worker
available_workers s start end =
    select (λ w. is_worker_available s w.id start end) (values s.workers)

-- WorldState.available_vans
unfoldable pub available_vans : WorldState → Moment → Moment → List Van
available_vans s start end = select (λ v. is_van_available s v.id start end) (values s.vans)

-- the loop of WorldState.traffic_multiplier, from the product so far
unfoldable pub multiply_in : Ratio → List TrafficOverride → String → String → Moment → Ratio
multiply_in m [] origin dest at = m
multiply_in m (t ∷ ts) origin dest at =
    multiply_in (if applies_to t origin dest at then times m t.multiplier else m) ts origin dest at

-- WorldState.traffic_multiplier
unfoldable pub traffic_multiplier : WorldState → String → String → Moment → Ratio
unfolding multiply_in
traffic_multiplier s origin dest at = multiply_in one_ratio s.traffic_overrides origin dest at
