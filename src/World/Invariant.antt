-- ===== src/World/Invariant.antt =====
-- The well-formedness of a world state, which every event keeps.
use glass_guru.Base.{
  String, ◌≡◌, refl, Option, none, some, List, [], ◌∷◌, arith, Member, mem, mem_iff, inl, inr,
  Bool-cases, Option-cases, string_eq, nat_eq, pair_eq,
}
use glass_guru.Dict.{Dict, get}
use glass_guru.Dict.Laws.{Entries, Entries-nil, Entries-put, Entries-pop, Entries-map_values}
use glass_guru.Model.Units.{Moment}
use glass_guru.Model.Entities.{JobId, WorkerId, VanId, Worker, Van}
use glass_guru.Model.Enums.{CommitmentState}
use glass_guru.Model.Jobs.{Job}
use glass_guru.Events.{
  Event, Body, job_cancelled, worker_registered, van_registered, job_requested, job_confirmed,
  job_dispatched, job_started, job_completed, job_overran, customer_rescheduled, job_deferred,
  overtime_offered, overtime_claimed, crew_ask_opened, crew_ask_closed, worker_removed, van_removed,
  depot_moved,
}
use glass_guru.World.State.{WorldState, OvertimeOffer, CrewAsk, empty_world}
use glass_guru.World.Apply.{update_job, on_requested, claim, new_offer, apply_body, apply}
use glass_guru.World.Fold.{apply_all, fold, known, resolved_as_of}

-- An offer stands under its job's id, and is claimed by nobody but a worker that it was made to.
abbrev pub IsFairOffer : JobId → OvertimeOffer → Type 0
IsFairOffer k o =
    (o.job_id ≡ k) × (elim o.claimed_by [ none ↦ Unit | some w ↦ Member w o.offered_to ])

abbrev pub JobAt : JobId → Job → Type 0
JobAt k j = j.id ≡ k

abbrev pub WorkerAt : WorkerId → Worker → Type 0
WorkerAt k w = w.id ≡ k

abbrev pub VanAt : VanId → Van → Type 0
VanAt k v = v.id ≡ k

abbrev pub AskAt : String → CrewAsk → Type 0
AskAt k a = a.ask_id ≡ k

-- Every record stands under its own id, and every claim is by a worker who was asked.
abbrev pub IsConsistent : WorldState → Type 0
IsConsistent s =
    Entries JobAt s.jobs
    × Entries WorkerAt s.workers
    × Entries VanAt s.vans
    × Entries IsFairOffer s.overtime_offers
    × Entries AskAt s.crew_asks

update_job-IsConsistent :
    (s : WorldState) (id : JobId) (f : Job → Job)
    → ((j : Job) → (f j).id ≡ j.id)
    → IsConsistent s
    → IsConsistent (update_job s id f)
unfolding update_job
update_job-IsConsistent s id f keeps c = elim (Option-cases (get s.jobs id)) [
  | inl missing ↦ rw (missing, update_job) c
  | inr (j, there) ↦
      rw (there, update_job)
        ((Entries-put JobAt s.jobs j.id (f j) (keeps j) c.0, c.1, c.2, c.3, c.4))
]

claim-fair :
    (d : Dict JobId OvertimeOffer) (id : JobId) (w : WorkerId)
    → Entries IsFairOffer d
    → Entries IsFairOffer (claim d id w)
unfolding claim
claim-fair d id w h = elim (Option-cases (get d id)) [
  | inl missing ↦ rw (missing, claim) h
  | inr (o, there) ↦
      rw (there, claim)
        (elim (Option-cases o.claimed_by) [
          | inr (first, taken) ↦ rw taken h
          | inl free ↦ rw free (elim (Bool-cases (mem w o.offered_to)) [
            | inl asked ↦ rw asked (
                Entries-put IsFairOffer d id (record o { claimed_by = some w })
                  ((h id o there).0, (mem_iff w o.offered_to).0 asked) h)
            | inr stranger ↦ rw stranger h
          ])
        ])
]

-- One event keeps the state consistent.
pub apply_body-IsConsistent :
    (b : Body) (s : WorldState) (now : Moment) → IsConsistent s → IsConsistent (apply_body s now b)
unfolding apply_body
apply_body-IsConsistent (worker_registered w) s now c =
    (c.0, Entries-put WorkerAt s.workers w.id w refl c.1, c.2, c.3, c.4)
apply_body-IsConsistent (van_registered v) s now c =
    (c.0, c.1, Entries-put VanAt s.vans v.id v refl c.2, c.3, c.4)
apply_body-IsConsistent (job_requested j) s now c = (
  Entries-put JobAt s.jobs j.id (on_requested j) (unfold on_requested in ground arith) c.0,
  c.1,
  c.2,
  c.3,
  c.4,
)
apply_body-IsConsistent (job_confirmed e) s now c =
    update_job-IsConsistent s e.job_id _ (λ j. refl) c
apply_body-IsConsistent (job_dispatched id) s now c = update_job-IsConsistent s id _ (λ j. refl) c
apply_body-IsConsistent (job_started id) s now c = update_job-IsConsistent s id _ (λ j. refl) c
apply_body-IsConsistent (job_completed id n) s now c = update_job-IsConsistent s id _ (λ j. refl) c
apply_body-IsConsistent (job_overran id n) s now c = update_job-IsConsistent s id _ (λ j. refl) c
apply_body-IsConsistent (customer_rescheduled id ws) s now c =
    update_job-IsConsistent s id _ (λ j. refl) c
apply_body-IsConsistent (job_deferred id) s now c = update_job-IsConsistent s id _ (λ j. refl) c
apply_body-IsConsistent (job_cancelled id reason) s now c =
    let k =
      update_job-IsConsistent s id (λ j. record j { commitment_state = CommitmentState.cancelled })
        (λ j. refl) c in
    (k.0, k.1, k.2, Entries-pop IsFairOffer _ id k.3, k.4)
apply_body-IsConsistent (overtime_offered e) s now c = (
  c.0,
  c.1,
  c.2,
  Entries-put IsFairOffer s.overtime_offers e.job_id (new_offer e) (unfold new_offer in (refl, tt))
      c.3,
  c.4,
)
apply_body-IsConsistent (overtime_claimed id w) s now c =
    (c.0, c.1, c.2, claim-fair s.overtime_offers id w c.3, c.4)
apply_body-IsConsistent (crew_ask_opened e) s now c =
    (c.0, c.1, c.2, c.3, Entries-put AskAt s.crew_asks e.ask_id _ refl c.4)
apply_body-IsConsistent (crew_ask_closed id outcome) s now c =
    (c.0, c.1, c.2, c.3, Entries-pop AskAt s.crew_asks id c.4)
apply_body-IsConsistent (worker_removed id) s now c =
    (c.0, Entries-pop WorkerAt s.workers id c.1, c.2, c.3, c.4)
apply_body-IsConsistent (van_removed id) s now c =
    (c.0, c.1, Entries-pop VanAt s.vans id c.2, c.3, c.4)
apply_body-IsConsistent (depot_moved l) s now c = (
  c.0,
  c.1,
  Entries-map_values VanAt (λ v. record v { home_depot = l }) s.vans (λ k v e. e) c.2,
  c.3,
  c.4,
)
apply_body-IsConsistent _ s now c = (c.0, c.1, c.2, c.3, c.4)

pub apply_all-IsConsistent :
    (s : WorldState) (es : List Event) → IsConsistent s → IsConsistent (apply_all s es)
unfolding apply_all apply
apply_all-IsConsistent s [] c = c
apply_all-IsConsistent s (e ∷ es) c =
    apply_all-IsConsistent (apply s e) es (apply_body-IsConsistent e.body s e.occurred_at c)

empty_world-IsConsistent : (t : Moment) → IsConsistent (empty_world t)
empty_world-IsConsistent t = (
  Entries-nil JobAt,
  Entries-nil WorkerAt,
  Entries-nil VanAt,
  Entries-nil IsFairOffer,
  Entries-nil AskAt,
)

-- Whatever the log holds, the world that it folds to at any moment keeps every job, worker, van and
-- crew ask under its own id, and every overtime offer under its job's id with no claim but by a
-- worker to whom it was made.
pub fold-IsConsistent :
    (events : List Event) (as_of : Option Moment) → IsConsistent (fold events as_of)
unfolding fold
fold-IsConsistent events as_of =
    let ordered = known as_of events in
    let start = empty_world (resolved_as_of as_of ordered) in
    let c =
      apply_all-IsConsistent start ordered
        (empty_world-IsConsistent (resolved_as_of as_of ordered)) in
    (c.0, c.1, c.2, c.3, c.4)
