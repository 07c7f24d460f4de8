-- ===== src/Checker/Baseline.antt =====
-- `validate_against_baseline`: work that is under way or done is where it was.
use glass_guru.Base.{
  ◌≡◌, ◌↔◌, ◌⊎◌, refl, Bool, true, not, ◌||◌, Option, none, some, List, [], ◌∷◌, All, ◌==◌,
  Bool-cases, inl, inr, arith, subst, sym, ap, ◌∙◌, string_eq, nat_eq, if◌then◌else◌,
}
use glass_guru.Model.Enums.{CommitmentState, commitment_eq, commitment_beq_iff, ViolationCode}
use glass_guru.Model.Entities.{WorkerId}
use glass_guru.Model.Jobs.{Job}
use glass_guru.Model.Plan.{PlanVersion, CrewRoute, Stop, stop_for}
use glass_guru.Model.Crews.{same_set, SameCrew, same_set_iff}
use glass_guru.World.State.{WorldState}
use glass_guru.Checker.Report.{
  Violation, Detail, locked_absent, locked_moved, collect, emit, collect-nil, KnownJob, at_job,
  at_job-nil,
}

-- `job.commitment_state in {DISPATCHED, COMPLETED}`
unfoldable pub is_locked : Job → Bool
is_locked j =
    j.commitment_state == CommitmentState.dispatched
    || j.commitment_state == CommitmentState.completed

unfoldable pub locked_violation : Stop → CrewRoute → Detail → Violation
locked_violation s r detail = record {
  code = ViolationCode.locked_job_moved;
  detail = detail;
  job_id = some s.job_id;
  crew_id = some r.crew_id;
  worker_id = none;
  van_id = none;
  on_date = none;
}

-- the check of a locked job against what the plan has of it
unfoldable pub check_found : CrewRoute → Stop → Job → Option (CrewRoute × Stop) → List Violation
unfolding same_set
check_found r s j none = locked_violation s r (locked_absent j.commitment_state) ∷ []
check_found r s j (some (new_route, new_stop)) =
    emit (not (new_stop.arrival == s.arrival) || not (same_set new_route.worker_ids r.worker_ids)) (
      locked_violation s new_route
        (locked_moved j.commitment_state s.arrival r.crew_id new_stop.arrival new_route.crew_id))

unfoldable pub check_locked : PlanVersion → CrewRoute → Stop → Job → List Violation
unfolding is_locked check_found
check_locked plan r s j =
    if is_locked j then check_found r s j (stop_for plan.routes s.job_id) else []

-- validate_against_baseline
unfoldable pub validate_against_baseline : PlanVersion → PlanVersion → WorldState → List Violation
unfolding check_locked at_job
validate_against_baseline plan baseline world =
    collect (λ r. collect (λ s. at_job world s (check_locked plan r s)) r.stops) baseline.routes

-- Work on the job has begun, or is done.
abbrev pub IsLocked : Job → Type 0
IsLocked j =
    (j.commitment_state ≡ CommitmentState.dispatched)
    ⊎ (j.commitment_state ≡ CommitmentState.completed)

-- The plan visits the job at the same moment, with the same workers.
abbrev pub StaysPut : PlanVersion → CrewRoute → Stop → Job → Type 0
StaysPut plan r s j =
    IsLocked j
    → (v : CrewRoute × Stop) × (stop_for plan.routes s.job_id ≡ some v)
      × (v.1.arrival ≡ s.arrival)
      × SameCrew v.0.worker_ids r.worker_ids

pub is_locked_iff : (j : Job) → (is_locked j ≡ true) ↔ IsLocked j
unfolding is_locked
is_locked_iff j = ground (
  arith,
  commitment_beq_iff j.commitment_state CommitmentState.dispatched,
  commitment_beq_iff j.commitment_state CommitmentState.completed,
)

check_found-nil :
    (r : CrewRoute) (s : Stop) (j : Job) (o : Option (CrewRoute × Stop))
    → (check_found r s j o ≡ []) ↔ (
        (v : CrewRoute × Stop) × (o ≡ some v)
        × (v.1.arrival ≡ s.arrival)
        × SameCrew v.0.worker_ids r.worker_ids)
unfolding check_found emit
check_found-nil r s j none = (λ h. absurd (cc), λ h. absurd (ground (arith, h.1)))
check_found-nil r s j (some (nr, ns)) = (
  λ h.
      let same : same_set nr.worker_ids r.worker_ids ≡ true = ground arith in
      ((nr, ns), refl, ground arith, (same_set_iff nr.worker_ids r.worker_ids).0 same),
  λ h.
      let v : (CrewRoute × Stop) = h.0 in
      let e : (nr, ns) ≡ v = ground (arith, h.1) in stays e h.2 h.3,
)
  where
    stays :
        {v : CrewRoute × Stop}
        → (nr, ns) ≡ v
        → v.1.arrival ≡ s.arrival
        → SameCrew v.0.worker_ids r.worker_ids
        → check_found r s j (some (nr, ns)) ≡ []
    stays {v} e a c =
        let a' : ns.arrival ≡ s.arrival = ap (λ (x : CrewRoute × Stop). x.1.arrival) e ∙ a in
        let c' : same_set nr.worker_ids r.worker_ids ≡ true =
          (same_set_iff nr.worker_ids r.worker_ids).1 (
            subst (λ (ws : List WorkerId). SameCrew ws r.worker_ids)
              (sym (ap (λ (x : CrewRoute × Stop). x.0.worker_ids) e)) c) in
        ground arith

check_locked-nil :
    (plan : PlanVersion) (r : CrewRoute) (s : Stop) (j : Job)
    → (check_locked plan r s j ≡ []) ↔ StaysPut plan r s j
unfolding check_locked
check_locked-nil plan r s j =
    let f = check_found-nil r s j (stop_for plan.routes s.job_id) in
    elim (Bool-cases (is_locked j)) [
      | inl locked ↦ rw locked (λ h _. f.0 h, λ h. f.1 (h ((is_locked_iff j).0 locked)))
      | inr free ↦ rw free (λ h l. absurd (ground (arith, (is_locked_iff j).1 l)), λ h. refl)
    ]

-- The check against a baseline is silent exactly when every job of the baseline on which work has
-- begun or is done has its first visit in the new plan at the moment of its old one, with the same
-- set of workers.
pub validate_against_baseline-nil :
    (plan baseline : PlanVersion) (world : WorldState)
    → (validate_against_baseline plan baseline world ≡ [])
      ↔ All
          (λ (r : CrewRoute). All (λ s. KnownJob world s (StaysPut plan r s)) r.stops)
          baseline.routes
unfolding validate_against_baseline
validate_against_baseline-nil plan baseline world =
    collect-nil (λ (r : CrewRoute). All (λ s. KnownJob world s (StaysPut plan r s)) r.stops) _
      (λ r.
        collect-nil (λ s. KnownJob world s (StaysPut plan r s)) _
          (λ s.
            at_job-nil world s (StaysPut plan r s) (check_locked plan r s)
              (check_locked-nil plan r s))
          r.stops)
      baseline.routes
