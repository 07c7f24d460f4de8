-- ===== src/World/Shifts.antt =====
-- One-day shift extensions: of several agreements for a day the latest hour stands.
use text.Mathlib.TextEquality.{eq_iff}
use glass_guru.Base.{
  ap, max, ◌≡◌, refl, ◌∙◌, Option, none, some, List, [], ◌∷◌, ◌==◌, ◌&&◌, string_eq, nat_eq,
  pair_eq, arith, Option-cases, Bool-cases, inl, inr, ltb, if◌then◌else◌,
}
use glass_guru.Dict.{Dict, get}
use glass_guru.Dict.Laws.{get-put}
use glass_guru.Model.Units.{Moment, Date}
use glass_guru.Model.Jobs.{Job}
use glass_guru.Model.Entities.{JobId, WorkerId}
use glass_guru.Events.{
  Event, Body, ShiftExtended, job_confirmed, job_dispatched, job_started, job_completed,
  job_overran, job_cancelled, customer_rescheduled, job_deferred, shift_extended,
}
use glass_guru.World.State.{WorldState}
use glass_guru.World.Apply.{update_job, extend, apply_body, apply}
use glass_guru.World.Fold.{apply_all}
use glass_guru.World.Queries.{extension_for}

-- The later of the hour that stands and a new one.
abbrev pub later : Option Moment → Moment → Option Moment
later none t = some t
later (some standing) t = some (max standing t)

abbrev pub agreed_by : WorkerId → Date → Option Moment → Body → Option Moment
agreed_by w day standing (shift_extended e) =
    if e.worker_id == w && e.on_date == day then later standing e.until_time else standing
agreed_by w day standing _ = standing

-- The latest hour that the events agree on for the worker and day, and an earlier agreement.
abbrev pub latest_agreed : WorkerId → Date → Option Moment → List Event → Option Moment
latest_agreed w day standing [] = standing
latest_agreed w day standing (e ∷ es) = latest_agreed w day (agreed_by w day standing e.body) es

shifts-update_job :
    (s : WorldState) (i : JobId) (f : Job → Job)
    → (update_job s i f).shift_extensions ≡ s.shift_extensions
unfolding update_job
shifts-update_job s i f = ground arith

get-extend :
    (d : Dict (WorkerId × Date) Moment) (e : ShiftExtended) (w : WorkerId) (day : Date)
    → get (extend d e) (w, day) ≡ (
        if e.worker_id == w && e.on_date == day
        then later (get d (w, day)) e.until_time
        else get d (w, day))
unfolding extend
get-extend d e w day = elim (Option-cases (get d (e.worker_id, e.on_date))) [
  | inl fresh ↦ rw (fresh, extend, get-put) (ground (arith, eq_iff e.worker_id w, fresh))
  | inr (standing, there) ↦ elim (Bool-cases (ltb standing e.until_time)) [
    | inl longer ↦ rw (there, longer, extend, get-put) (ground (arith, eq_iff e.worker_id w, there))
    | inr shorter ↦ rw (there, shorter, extend) (ground (arith, eq_iff e.worker_id w, there))
  ]
]

extension-apply_body :
    (b : Body) (s : WorldState) (now : Moment) (w : WorkerId) (day : Date)
    → extension_for (apply_body s now b) w day ≡ agreed_by w day (extension_for s w day) b
unfolding apply_body extension_for
extension-apply_body (shift_extended e) s now w day = get-extend s.shift_extensions e w day
extension-apply_body (job_confirmed e) s now w day = rw shifts-update_job
extension-apply_body (job_dispatched i) s now w day = rw shifts-update_job
extension-apply_body (job_started i) s now w day = rw shifts-update_job
extension-apply_body (job_completed i n) s now w day = rw shifts-update_job
extension-apply_body (job_overran i n) s now w day = rw shifts-update_job
extension-apply_body (job_cancelled i r) s now w day = rw shifts-update_job
extension-apply_body (customer_rescheduled i ws) s now w day = rw shifts-update_job
extension-apply_body (job_deferred i) s now w day = rw shifts-update_job
extension-apply_body _ s now w day = refl

-- After any events, a worker's extension for a day is the latest hour that any of the events, or an
-- agreement standing before them, names for that worker and day, and there is none if none does.
pub extension-latest :
    (s : WorldState) (es : List Event) (w : WorkerId) (day : Date)
    → extension_for (apply_all s es) w day ≡ latest_agreed w day (extension_for s w day) es
unfolding apply_all apply
extension-latest s [] w day = refl
extension-latest s (e ∷ es) w day =
    extension-latest (apply s e) es w day
    ∙ ap (λ (o : Option Moment). latest_agreed w day o es)
        (extension-apply_body e.body s e.occurred_at w day)
