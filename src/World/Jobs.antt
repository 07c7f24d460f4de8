-- ===== src/World/Jobs.antt =====
-- What events do to the jobs of a consistent world: which jobs an event leaves alone, and what
-- moves a promised window.
use mathlib.Core.Option
use glass_guru.Base.{
  ◌≡◌, refl, ◌∙◌, Bool, false, some, List, [], ◌∷◌, ◌==◌, string_eq, All, arith, Option-cases,
  Bool-cases, inl, inr, if◌then◌else◌,
}
use glass_guru.Dict.{get}
use glass_guru.Dict.Laws.{get-put}
use glass_guru.Model.Units.{Moment}
use text.Mathlib.TextEquality.{eq_iff}
use glass_guru.Model.Enums.{CommitmentState}
use glass_guru.Model.Entities.{JobId, TimeWindow}
use glass_guru.Model.Jobs.{Job}
use glass_guru.Events.{
  Event, Body, job_requested, job_confirmed, job_dispatched, job_started, job_completed,
  job_overran, job_cancelled, customer_rescheduled, job_deferred,
}
use glass_guru.World.State.{WorldState}
use glass_guru.World.Apply.{update_job, on_requested, apply_body, apply}
use glass_guru.World.Fold.{apply_all}
use glass_guru.World.Invariant.{IsConsistent, apply_body-IsConsistent}

-- The event rewrites the record of this job.
abbrev pub rewrites : JobId → Body → Bool
rewrites id (job_requested j) = j.id == id
rewrites id (job_confirmed e) = e.job_id == id
rewrites id (job_dispatched i) = i == id
rewrites id (job_started i) = i == id
rewrites id (job_completed i n) = i == id
rewrites id (job_overran i n) = i == id
rewrites id (job_cancelled i r) = i == id
rewrites id (customer_rescheduled i ws) = i == id
rewrites id (job_deferred i) = i == id
rewrites id _ = false

-- The event says when this job is wanted: a booking, a confirmation, or the customer's own move.
abbrev pub sets_windows : JobId → Body → Bool
sets_windows id (job_requested j) = j.id == id
sets_windows id (job_confirmed e) = e.job_id == id
sets_windows id (customer_rescheduled i ws) = i == id
sets_windows id _ = false

get-update_job :
    (s : WorldState) (i id : JobId) (f : Job → Job)
    → IsConsistent s
    → get (update_job s i f).jobs id
      ≡ (if i == id then Option.map f (get s.jobs i) else get s.jobs id)
unfolding update_job
get-update_job s i id f c = elim (Option-cases (get s.jobs i)) [
  | inl missing ↦ rw missing (ground (arith, missing, eq_iff i id))
  | inr (j, there) ↦
      rw there (ground (arith, there, c.0 i j there, eq_iff i id, get-put s.jobs j.id id (f j)))
]

-- One event that does not rewrite a job leaves its record as it is.
apply_body-frame :
    (b : Body) (s : WorldState) (now : Moment) (id : JobId)
    → IsConsistent s
    → rewrites id b ≡ false
    → get (apply_body s now b).jobs id ≡ get s.jobs id
unfolding apply_body
apply_body-frame (job_requested j) s now id c h =
    ground (arith, get-put s.jobs j.id id (on_requested j))
apply_body-frame (job_confirmed e) s now id c h = get-update_job s e.job_id id _ c ∙ (rw h)
apply_body-frame (job_dispatched i) s now id c h = get-update_job s i id _ c ∙ (rw h)
apply_body-frame (job_started i) s now id c h = get-update_job s i id _ c ∙ (rw h)
apply_body-frame (job_completed i n) s now id c h = get-update_job s i id _ c ∙ (rw h)
apply_body-frame (job_overran i n) s now id c h = get-update_job s i id _ c ∙ (rw h)
apply_body-frame (job_cancelled i r) s now id c h = get-update_job s i id _ c ∙ (rw h)
apply_body-frame (customer_rescheduled i ws) s now id c h = get-update_job s i id _ c ∙ (rw h)
apply_body-frame (job_deferred i) s now id c h = get-update_job s i id _ c ∙ (rw h)
apply_body-frame _ s now id c h = refl

-- Of a consistent world, events that do not name a job, whatever their number and kind, leave what
-- is on record of it as it is.
pub apply_all-frame :
    (s : WorldState) (es : List Event) (id : JobId)
    → IsConsistent s
    → All (λ (e : Event). rewrites id e.body ≡ false) es
    → get (apply_all s es).jobs id ≡ get s.jobs id
unfolding apply_all apply
apply_all-frame s [] id c h = refl
apply_all-frame s (e ∷ es) id c h =
    apply_all-frame (apply s e) es id (apply_body-IsConsistent e.body s e.occurred_at c) h.1
    ∙ apply_body-frame e.body s e.occurred_at id c h.0

-- A job is on record with these windows.
abbrev pub HasWindows : WorldState → JobId → List TimeWindow → Type 0
HasWindows s id ws = (j : Job) × (get s.jobs id ≡ some j) × (j.windows ≡ ws)

update_job-HasWindows :
    (s : WorldState) (i id : JobId) (f : Job → Job) (ws : List TimeWindow)
    → IsConsistent s
    → ((j : Job) → (f j).windows ≡ j.windows)
    → HasWindows s id ws
    → HasWindows (update_job s i f) id ws
update_job-HasWindows s i id f ws c keeps (j, there, same) = elim (Bool-cases (i == id)) [
  | inl e ↦ (f j, get-update_job s i id f c ∙ ground (arith, eq_iff i id), keeps j ∙ same)
  | inr e ↦ (j, get-update_job s i id f c ∙ ground arith, same)
]

apply_body-HasWindows :
    (b : Body) (s : WorldState) (now : Moment) (id : JobId) (ws : List TimeWindow)
    → IsConsistent s
    → sets_windows id b ≡ false
    → HasWindows s id ws
    → HasWindows (apply_body s now b) id ws
unfolding apply_body
apply_body-HasWindows (job_requested j) s now id ws c h (k, there, same) =
    (k, ground (arith, get-put s.jobs j.id id (on_requested j)), same)
apply_body-HasWindows (job_confirmed e) s now id ws c h (k, there, same) =
    (k, get-update_job s e.job_id id _ c ∙ (rw h there), same)
apply_body-HasWindows (customer_rescheduled i nw) s now id ws c h (k, there, same) =
    (k, get-update_job s i id _ c ∙ (rw h there), same)
apply_body-HasWindows (job_dispatched i) s now id ws c h w =
    update_job-HasWindows s i id _ ws c (λ j. refl) w
apply_body-HasWindows (job_started i) s now id ws c h w =
    update_job-HasWindows s i id _ ws c (λ j. refl) w
apply_body-HasWindows (job_completed i n) s now id ws c h w =
    update_job-HasWindows s i id _ ws c (λ j. refl) w
apply_body-HasWindows (job_overran i n) s now id ws c h w =
    update_job-HasWindows s i id _ ws c (λ j. refl) w
apply_body-HasWindows (job_cancelled i r) s now id ws c h w =
    update_job-HasWindows s i id (λ j. record j { commitment_state = CommitmentState.cancelled }) ws
      c (λ j. refl) w
apply_body-HasWindows (job_deferred i) s now id ws c h w =
    update_job-HasWindows s i id _ ws c (λ j. refl) w
apply_body-HasWindows _ s now id ws c h w = w

-- A job on record in a consistent world stays on record with the windows it has, through any events
-- but a booking under its id, a confirmation of it, or a reschedule of it by the customer.
pub apply_all-HasWindows :
    (s : WorldState) (es : List Event) (id : JobId) (ws : List TimeWindow)
    → IsConsistent s
    → All (λ (e : Event). sets_windows id e.body ≡ false) es
    → HasWindows s id ws
    → HasWindows (apply_all s es) id ws
unfolding apply_all apply
apply_all-HasWindows s [] id ws c h w = w
apply_all-HasWindows s (e ∷ es) id ws c h w =
    apply_all-HasWindows (apply s e) es id ws (apply_body-IsConsistent e.body s e.occurred_at c) h.1
      (apply_body-HasWindows e.body s e.occurred_at id ws c h.0 w)
