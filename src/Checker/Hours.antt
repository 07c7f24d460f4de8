-- ===== src/Checker/Hours.antt =====
-- `_check_working_hours`: shifts and overtime, on the business's clock.
use glass_guru.Base.{
  ℕ, ◌≤◌, ◌≡◌, ◌↔◌, ◌⊎◌, Bool, true, not, ◌&&◌, none, some, List, [], ◌∷◌, ◌++◌, ltb, All, Member,
  ap, false, subst, Option-cases, inl, inr, arith, string_eq, if◌then◌else◌,
}
use glass_guru.Dict.{get}
use glass_guru.Model.Units.{Moment, ClockTime, time_of, weekday_of}
use glass_guru.Model.Enums.{ViolationCode}
use glass_guru.Model.Entities.{WorkerId, Worker, DayHours, hours_for}
use glass_guru.Model.Plan.{CrewRoute}
use glass_guru.World.State.{WorldState}
use glass_guru.Checker.Report.{
  Violation, Detail, Span, ValidationConfig, OvertimeReason, overtime_disabled, not_eligible,
  day_off, starts_early, ends_late, collect, emit, emit-ltb, append-nil_iff, collect-nil, at_span,
  at_span-nil, ForSpan,
}

unfoldable pub hours_violation : WorkerId → CrewRoute → Detail → Violation
hours_violation worker_id r detail = record {
  code = ViolationCode.outside_working_hours;
  detail = detail;
  job_id = none;
  crew_id = some r.crew_id;
  worker_id = some worker_id;
  van_id = none;
  on_date = some r.date;
}

-- the reason that the message gives for a late end
unfoldable pub late_reason : ValidationConfig → OvertimeReason
late_reason config = if config.allow_overtime then overtime_disabled else not_eligible

-- the checks of one worker against the hours of the weekday, on the business's clock
unfoldable pub check_shift :
    ValidationConfig
    → CrewRoute
    → (start_local end_local : Moment) → Worker
    → WorkerId
    → DayHours
    → List Violation
unfolding late_reason
check_shift config r start_local end_local worker worker_id hours =
    emit (ltb (time_of start_local) hours.start)
      (hours_violation worker_id r (starts_early (time_of start_local) hours.start))
    ++ emit
        (ltb hours.end (time_of end_local)
          && not (config.allow_overtime && worker.overtime_eligible))
        (hours_violation worker_id r (ends_late (time_of end_local) hours.end (late_reason config)))

unfoldable pub check_worker_hours :
    ValidationConfig
    → CrewRoute
    → (start_local end_local : Moment) → Worker
    → WorkerId
    → List Violation
unfolding check_shift
check_worker_hours config r start_local end_local worker worker_id =
    elim (hours_for worker.working_hours (weekday_of start_local)) [
      | none ↦ hours_violation worker_id r (day_off (weekday_of start_local)) ∷ []
      | some hours ↦ check_shift config r start_local end_local worker worker_id hours
    ]

unfoldable pub check_member_hours :
    WorldState → ValidationConfig → CrewRoute → Span → WorkerId → List Violation
unfolding check_worker_hours
check_member_hours world config r (start, end) worker_id = elim (get world.workers worker_id) [
  | none ↦ []
  | some worker ↦
      check_worker_hours config r (config.business_tz start) (config.business_tz end) worker
        worker_id
]

-- _check_working_hours
unfoldable pub check_working_hours : WorldState → ValidationConfig → List CrewRoute → List Violation
unfolding check_member_hours at_span
check_working_hours world config routes =
    collect (λ r. at_span r (λ span. collect (check_member_hours world config r span) r.worker_ids))
      routes

-- The worker's shift of the weekday takes the route in: it begins no earlier, and ends no later by
-- the clock, unless overtime is allowed and the worker may work it.
abbrev pub OnShift : ValidationConfig → (start_local end_local : Moment) → Worker → Type 0
OnShift config start_local end_local worker =
    (hours : DayHours) × (hours_for worker.working_hours (weekday_of start_local) ≡ some hours)
    × (hours.start ≤ time_of start_local)
    × ((time_of end_local ≤ hours.end)
        ⊎ ((config.allow_overtime ≡ true) × (worker.overtime_eligible ≡ true)))

-- Each worker of the crew who is on record is on shift.
abbrev pub CrewOnShift : WorldState → ValidationConfig → Span → WorkerId → Type 0
CrewOnShift world config (start, end) worker_id =
    (worker : Worker)
    → get world.workers worker_id ≡ some worker
    → OnShift config (config.business_tz start) (config.business_tz end) worker

emit_late :
    (end limit : ℕ) (allowed eligible : Bool) (v : Violation)
    → (emit (ltb limit end && not (allowed && eligible)) v ≡ [])
      ↔ ((end ≤ limit) ⊎ ((allowed ≡ true) × (eligible ≡ true)))
unfolding emit
emit_late end limit allowed eligible v = ground arith

check_worker_hours-nil :
    (config : ValidationConfig) (r : CrewRoute) (a b : Moment) (worker : Worker) (id : WorkerId)
    → (check_worker_hours config r a b worker id ≡ []) ↔ OnShift config a b worker
unfolding check_worker_hours check_shift
check_worker_hours-nil config r a b worker id =
    elim (Option-cases (hours_for worker.working_hours (weekday_of a))) [
      | inl off ↦ (λ h. absurd (ground (arith, off)), λ h. absurd (ground (arith, off, h.1)))
      | inr (hours, there) ↦
          let shift =
            append-nil_iff _ _
              (emit-ltb (time_of a) hours.start
                (hours_violation id r (starts_early (time_of a) hours.start)))
              (emit_late (time_of b) hours.end config.allow_overtime worker.overtime_eligible
                (hours_violation id r (ends_late (time_of b) hours.end (late_reason config)))) in
          (
            λ h.
                let (early, late) = shift.0 (rw (there, check_worker_hours) at h) in
                (hours, there, early, late),
            λ h.
                let same : h.0 ≡ hours = ground (arith, there, h.1) in
                rw (there, check_worker_hours)
                  (shift.1 (
                    subst
                      (λ (k : DayHours).
                        (k.start ≤ time_of a)
                        × ((time_of b ≤ k.end)
                            ⊎ ((config.allow_overtime ≡ true) × (worker.overtime_eligible ≡ true))))
                      same (h.2, h.3))),
          )
    ]

check_member_hours-nil :
    (world : WorldState) (config : ValidationConfig) (r : CrewRoute) (span : Span) (id : WorkerId)
    → (check_member_hours world config r span id ≡ []) ↔ CrewOnShift world config span id
unfolding check_member_hours
check_member_hours-nil world config r (start, end) id = elim (Option-cases (get world.workers id)) [
  | inl unknown ↦ (λ h w there. absurd (cc), λ h. rw (unknown, check_member_hours))
  | inr (worker, there) ↦
      let f =
        check_worker_hours-nil config r (config.business_tz start) (config.business_tz end) worker
          id in
      (
        λ h w same.
            let e : worker ≡ w = ground arith in
            subst (OnShift config (config.business_tz start) (config.business_tz end)) e
              (f.0 (rw (there, check_member_hours) at h)),
        λ h. rw (there, check_member_hours) (f.1 (h worker there)),
      )
]

-- The check of working hours is silent exactly when, for each route that has stops, every worker of
-- the crew who is on record has hours on the weekday of its start, starts no earlier, and ends no
-- later than they do, by the time of day, unless overtime is allowed and the worker is eligible for
-- it.
pub check_working_hours-nil :
    (world : WorldState) (config : ValidationConfig) (routes : List CrewRoute)
    → (check_working_hours world config routes ≡ [])
      ↔ All (λ r. ForSpan r (λ span. All (CrewOnShift world config span) r.worker_ids)) routes
unfolding check_working_hours
check_working_hours-nil world config routes =
    collect-nil (λ r. ForSpan r (λ span. All (CrewOnShift world config span) r.worker_ids)) _
      (λ r.
        at_span-nil r (λ span. All (CrewOnShift world config span) r.worker_ids) _
          (λ span.
            collect-nil (CrewOnShift world config span) (check_member_hours world config r span)
              (check_member_hours-nil world config r span) r.worker_ids))
      routes

is_disabled : Detail → Bool
is_disabled (ends_late t e overtime_disabled) = true
is_disabled _ = false

-- A late end that the checker puts down to overtime being disabled is of a run in which overtime is
-- allowed, and of a worker who is not eligible for it.
pub late_end_reason :
    (config : ValidationConfig) (r : CrewRoute) (start_local end_local : Moment) (worker : Worker)
    (id : WorkerId) (hours : DayHours) (v : Violation) (t e : ClockTime)
    → Member v (check_shift config r start_local end_local worker id hours)
    → v.detail ≡ ends_late t e overtime_disabled
    → (config.allow_overtime ≡ true) × (worker.overtime_eligible ≡ false)
unfolding check_shift late_reason emit hours_violation is_disabled
late_end_reason config r start_local end_local worker id hours v t e m d =
    let disabled : is_disabled v.detail ≡ true = ap is_disabled d in ground (arith, m, disabled)
