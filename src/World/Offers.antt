-- ===== src/World/Offers.antt =====
-- Overtime offers: the first reply wins.
use text.Mathlib.TextEquality.{eq_iff}
use glass_guru.Base.{
  ◌≡◌, Bool, false, none, some, List, [], ◌∷◌, ◌==◌, string_eq, All, arith, Option-cases,
  Bool-cases, inl, inr, mem, if◌then◌else◌,
}
use glass_guru.Dict.{Dict, get}
use glass_guru.Model.Jobs.{Job}
use glass_guru.Dict.Laws.{get-put, get-pop}
use glass_guru.Model.Units.{Moment}
use glass_guru.Model.Entities.{JobId, WorkerId}
use glass_guru.Events.{
  Event, Body, job_confirmed, job_dispatched, job_started, job_completed, job_overran,
  job_cancelled, customer_rescheduled, job_deferred, overtime_offered, overtime_claimed,
}
use glass_guru.World.State.{WorldState, OvertimeOffer}
use glass_guru.World.Apply.{update_job, claim, apply_body, apply}
use glass_guru.World.Fold.{apply_all}

-- The event ends the job's offer: a fresh offer for the job, or its cancellation.
abbrev pub ends_offer : JobId → Body → Bool
ends_offer id (overtime_offered e) = e.job_id == id
ends_offer id (job_cancelled i r) = i == id
ends_offer id _ = false

offers-update_job :
    (s : WorldState) (i : JobId) (f : Job → Job)
    → (update_job s i f).overtime_offers ≡ s.overtime_offers
unfolding update_job
offers-update_job s i f = ground arith

-- A claim changes no offer that has been claimed.
claim_kept :
    (d : Dict JobId OvertimeOffer) (i id : JobId) (o : OvertimeOffer) (w v : WorkerId)
    → get d id ≡ some o
    → o.claimed_by ≡ some w
    → get (claim d i v) id ≡ some o
unfolding claim
claim_kept d i id o w v there taken = elim (Option-cases (get d i)) [
  | inl missing ↦ rw (missing, claim) there
  | inr (p, found) ↦ elim (Option-cases p.claimed_by) [
    | inr (first, had) ↦ rw (found, had, claim) there
    | inl free ↦ elim (Bool-cases (mem v p.offered_to)) [
      | inr stranger ↦ rw (found, free, stranger, claim) there
      | inl asked ↦ rw (found, free, asked, claim, get-put) (ground (arith, eq_iff i id))
    ]
  ]
]

apply_body-offer_kept :
    (b : Body) (s : WorldState) (now : Moment) (id : JobId) (o : OvertimeOffer) (w : WorkerId)
    → ends_offer id b ≡ false
    → get s.overtime_offers id ≡ some o
    → o.claimed_by ≡ some w
    → get (apply_body s now b).overtime_offers id ≡ some o
unfolding apply_body
apply_body-offer_kept (job_confirmed e) s now id o w h there taken = rw offers-update_job there
apply_body-offer_kept (job_dispatched i) s now id o w h there taken = rw offers-update_job there
apply_body-offer_kept (job_started i) s now id o w h there taken = rw offers-update_job there
apply_body-offer_kept (job_completed i n) s now id o w h there taken = rw offers-update_job there
apply_body-offer_kept (job_overran i n) s now id o w h there taken = rw offers-update_job there
apply_body-offer_kept (customer_rescheduled i ws) s now id o w h there taken =
    rw offers-update_job there
apply_body-offer_kept (job_deferred i) s now id o w h there taken = rw offers-update_job there
apply_body-offer_kept (job_cancelled i r) s now id o w h there taken =
    rw (get-pop, offers-update_job) (ground arith)
apply_body-offer_kept (overtime_offered e) s now id o w h there taken = rw get-put (ground arith)
apply_body-offer_kept (overtime_claimed i v) s now id o w h there taken =
    claim_kept s.overtime_offers i id o w v there taken
apply_body-offer_kept _ s now id o w h there taken = there

-- Once an offer is claimed, the claim stands: whatever else happens, and whoever else replies, the
-- offer stays as it is until the job is offered again or cancelled.
pub first_reply_wins :
    (s : WorldState) (es : List Event) (id : JobId) (o : OvertimeOffer) (w : WorkerId)
    → get s.overtime_offers id ≡ some o
    → o.claimed_by ≡ some w
    → All (λ (e : Event). ends_offer id e.body ≡ false) es
    → get (apply_all s es).overtime_offers id ≡ some o
unfolding apply_all apply
first_reply_wins s [] id o w there taken h = there
first_reply_wins s (e ∷ es) id o w there taken h =
    first_reply_wins (apply s e) es id o w
      (apply_body-offer_kept e.body s e.occurred_at id o w h.0 there taken) taken h.1

get-claim :
    (d : Dict JobId OvertimeOffer) (id : JobId) (o : OvertimeOffer) (w : WorkerId)
    → get d id ≡ some o
    → o.claimed_by ≡ none
    → get (claim d id w) id
      ≡ some (if mem w o.offered_to then record o { claimed_by = some w } else o)
unfolding claim
get-claim d id o w there free = elim (Bool-cases (mem w o.offered_to)) [
  | inl asked ↦ rw (there, free, asked, claim, get-put) (ground (arith, eq_iff id id))
  | inr stranger ↦ rw (there, claim) (ground (arith, free, stranger, there))
]

-- A reply to an offer that nobody has claimed is recorded as its claim when the worker was asked,
-- and leaves the offer as it is when not.
pub claim_decides :
    (s : WorldState) (now : Moment) (id : JobId) (o : OvertimeOffer) (w : WorkerId)
    → get s.overtime_offers id ≡ some o
    → o.claimed_by ≡ none
    → get (apply_body s now (overtime_claimed id w)).overtime_offers id
      ≡ some (if mem w o.offered_to then record o { claimed_by = some w } else o)
unfolding apply_body
claim_decides s now id o w there free = get-claim s.overtime_offers id o w there free
