-- ===== src/Checker/Report.antt =====
-- Violations, the checker's tolerances, and the helpers that its checks share. The text of a
-- violation is a value that names the message and holds what the f-string prints.
use glass_guru.Base.{
  ℕ, String, ◌+◌, ◌-◌, ◌≤◌, ◌≡◌, ◌↔◌, refl, Bool, true, false, not, ◌&&◌, Option, none, some, List,
  [], ◌∷◌, ◌++◌, ltb, All, arith, subst, Option-cases, inl, inr, string_eq, if◌then◌else◌,
}
use glass_guru.Model.Units.{Moment, Date, ClockTime, minutes}
use glass_guru.Model.Enums.{Certification, ServiceType, ViolationCode, CommitmentState}
use glass_guru.Model.Entities.{JobId, WorkerId, VanId, TimeWindow}
use glass_guru.Dict.{get}
use glass_guru.Model.Jobs.{Job}
use glass_guru.Model.Plan.{CrewRoute, Stop}
use glass_guru.World.State.{WorldState}

pub data OvertimeReason : Type 0 where
  overtime_disabled not_eligible : OvertimeReason

pub data Detail : Type 0 where
  unknown_worker unknown_van unknown_job : String → Detail
  scheduled_twice : (first_crew crew : String) → Detail
  lacks : List Certification → ServiceType → Detail
  small_crew : (needed got : ℕ) → Detail
  overlapping : (other_crew crew : String) → Detail
  during_outage : Detail
  arrives_before_leaving : (arrival departure : Moment) → Detail
  drive_too_long : (arrival : Moment) (drive_minutes : ℕ) (depart_at : Moment) → Detail
  visit_too_short : (allotted needed : ℕ) → Detail
  before_any_window promised_window_moved past_window_end :
      (arrival departure : Moment) (declared : List TimeWindow) → Detail
  before_request : (arrival requested_at : Moment) → Detail
  day_off : (weekday : ℕ) → Detail
  starts_early : (start shift_start : ClockTime) → Detail
  ends_late : (end shift_end : ClockTime) → OvertimeReason → Detail
  too_many_panes : (panes slots : ℕ) → Detail
  short_of_stock : (quantity : ℕ) (part_code : String) (stocked : ℕ) → Detail
  materials_late : (on_date : Date) (late : List String) (ready_on : Date) → Detail
  locked_absent : CommitmentState → Detail
  locked_moved :
      CommitmentState
      → (was : Moment) (old_crew : String) (now : Moment) (new_crew : String) → Detail

pub record Violation : Type 0 where
  pub code : ViolationCode
  pub detail : Detail
  pub job_id : Option JobId
  pub crew_id : Option String
  pub worker_id : Option WorkerId
  pub van_id : Option VanId
  pub on_date : Option Date

-- `business_tz` is the clock of the business: what `moment.astimezone(tz)` reads, as wall time.
pub record ValidationConfig : Type 0 where
  pub business_tz : Moment → Moment
  pub travel_slack_minutes : ℕ
  pub allow_overtime : Bool
  pub released_job_ids : List JobId

abbrev pub Span : Type 0
Span = Moment × Moment

abbrev pub last_of : Stop → List Stop → Stop
last_of s [] = s
last_of s (t ∷ ts) = last_of t ts

-- _route_span; a drive out does not reach back before the calendar begins
unfoldable pub route_span : CrewRoute → List Stop → Option Span
route_span r [] = none
route_span r (first ∷ rest) = some (
  first.arrival - minutes first.travel_minutes_from_prev,
  (last_of first rest).departure + minutes r.return_to_depot_minutes,
)

-- _overlaps
unfoldable pub overlaps : Span → Span → Bool
overlaps (a, b) (c, d) = ltb a d && ltb c b

-- `for x in xs: out += f(x)`
unfoldable pub collect {ℓ} : {A : Type ℓ} → (A → List Violation) → List A → List Violation
collect f [] = []
collect f (x ∷ xs) = f x ++ collect f xs

-- `if b: out.append(v)`
unfoldable pub emit : Bool → Violation → List Violation
emit b v = if b then v ∷ [] else []

pub emit-nil : (b : Bool) (v : Violation) → (emit b v ≡ []) ↔ (b ≡ false)
unfolding emit
emit-nil b v = ground arith

pub ++-nil : (xs ys : List Violation) → (xs ++ ys ≡ []) ↔ ((xs ≡ []) × (ys ≡ []))
++-nil [] ys = ground arith
++-nil (x ∷ xs) ys = ground arith

pub collect-nil {ℓ κ} :
    {A : Type ℓ} (P : A → Type κ) (f : A → List Violation)
    → ((x : A) → (f x ≡ []) ↔ P x)
    → (xs : List A) → (collect f xs ≡ []) ↔ All P xs
unfolding collect
collect-nil P f h [] = (λ e. tt, λ e. refl)
collect-nil P f h (x ∷ xs) = (
  λ e. let (a, b) = (++-nil (f x) (collect f xs)).0 e in ((h x).0 a, (collect-nil P f h xs).0 b),
  λ e. (++-nil (f x) (collect f xs)).1 ((h x).1 e.0, (collect-nil P f h xs).1 e.1),
)

-- Two checks one after the other are silent when both are.
pub append-nil_iff {ℓ κ} :
    {P : Type ℓ} {Q : Type κ} (xs ys : List Violation)
    → (xs ≡ []) ↔ P
    → (ys ≡ []) ↔ Q
    → (xs ++ ys ≡ []) ↔ (P × Q)
append-nil_iff xs ys f g = (
  λ e. let (a, b) = (++-nil xs ys).0 e in (f.0 a, g.0 b),
  λ h. (++-nil xs ys).1 (f.1 h.0, g.1 h.1),
)

pub append-nil_iff₃ {ℓ κ μ} :
    {P : Type ℓ} {Q : Type κ} {R : Type μ} (xs ys zs : List Violation)
    → (xs ≡ []) ↔ P
    → (ys ≡ []) ↔ Q
    → (zs ≡ []) ↔ R
    → (xs ++ (ys ++ zs) ≡ []) ↔ (P × Q × R)
append-nil_iff₃ xs ys zs f g h = (
  λ e.
      let (a, rest) = (append-nil_iff xs (ys ++ zs) f (append-nil_iff ys zs g h)).0 e in
      (a, rest.0, rest.1),
  λ k. (append-nil_iff xs (ys ++ zs) f (append-nil_iff ys zs g h)).1 (k.0, (k.1, k.2)),
)

-- `if a < b: out.append(v)`
pub emit-ltb : (a b : ℕ) (v : Violation) → (emit (ltb a b) v ≡ []) ↔ (b ≤ a)
unfolding emit
emit-ltb a b v = ground arith

pub emit-not : (b : Bool) (v : Violation) → (emit (not b) v ≡ []) ↔ (b ≡ true)
unfolding emit
emit-not b v = ground arith

-- `job = world.jobs.get(stop.job_id)`; a stop whose job is not on record is passed over.
unfoldable pub at_job : WorldState → Stop → (Job → List Violation) → List Violation
at_job world s f = elim (get world.jobs s.job_id) [ none ↦ [] | some j ↦ f j ]

-- The stop's job, if it is on record, has the property.
abbrev pub KnownJob {κ} : WorldState → Stop → (Job → Type κ) → Type κ
KnownJob world s P = (j : Job) → get world.jobs s.job_id ≡ some j → P j

pub at_job-nil {κ} :
    (world : WorldState) (s : Stop) (P : Job → Type κ) (f : Job → List Violation)
    → ((j : Job) → (f j ≡ []) ↔ P j)
    → (at_job world s f ≡ []) ↔ KnownJob world s P
unfolding at_job
at_job-nil world s P f h = elim (Option-cases (get world.jobs s.job_id)) [
  | inl unknown ↦ (λ e j there. absurd (cc), λ k. rw (unknown, at_job))
  | inr (j, there) ↦ (
    λ e k same. let same_job : j ≡ k = cc in subst P same_job ((h j).0 (rw (there, at_job) at e)),
    λ k. rw (there, at_job) ((h j).1 (k j there)),
  )
]

-- `span = _route_span(route)`; a route with no stops is passed over.
unfoldable pub at_span : CrewRoute → (Span → List Violation) → List Violation
at_span r f = elim (route_span r r.stops) [ none ↦ [] | some span ↦ f span ]

-- The route's time, if it has stops, has the property.
abbrev pub ForSpan {κ} : CrewRoute → (Span → Type κ) → Type κ
ForSpan r P = (span : Span) → route_span r r.stops ≡ some span → P span

pub at_span-nil {κ} :
    (r : CrewRoute) (P : Span → Type κ) (f : Span → List Violation)
    → ((span : Span) → (f span ≡ []) ↔ P span)
    → (at_span r f ≡ []) ↔ ForSpan r P
unfolding at_span
at_span-nil r P f h = elim (Option-cases (route_span r r.stops)) [
  | inl idle ↦ (λ e span there. absurd (cc), λ k. rw (idle, at_span))
  | inr (span, there) ↦ (
    λ e t same.
        let same_span : span ≡ t = ground arith in
        subst P same_span ((h span).0 (rw (there, at_span) at e)),
    λ k. rw (there, at_span) ((h span).1 (k span there)),
  )
]
