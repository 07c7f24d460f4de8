-- ===== src/Checker/Duplicates.antt =====
-- `_check_duplicate_assignments`: no job is scheduled twice.
use text.Mathlib.TextEquality.{eq_iff}
use glass_guru.Base.{
  String, ◌≡◌, ◌≢◌, ◌↔◌, refl, false, none, some, List, [], ◌∷◌, ◌++◌, All, All-iff, All-both,
  Pairs, Bool-cases, inl, inr, arith, string_eq, if◌then◌else◌,
}
use glass_guru.Dict.{Dict, get_or, has, put}
use glass_guru.Dict.Laws.{has-put}
use glass_guru.Model.Enums.{ViolationCode}
use glass_guru.Model.Entities.{JobId}
use glass_guru.Model.Plan.{CrewRoute, Stop}
use glass_guru.Checker.Report.{Violation, scheduled_twice}

-- A visit: a stop with its route. The two nested loops run over the visits of the plan in turn.
abbrev pub Visit : Type 0
Visit = CrewRoute × Stop

abbrev pub visits_of : CrewRoute → List Stop → List Visit
visits_of r [] = []
visits_of r (s ∷ ss) = (r, s) ∷ visits_of r ss

unfoldable pub visits : List CrewRoute → List Visit
visits [] = []
visits (r ∷ rs) = visits_of r r.stops ++ visits rs

abbrev pub job_of : Visit → JobId
job_of (r, s) = s.job_id

unfoldable pub duplicate_violation : CrewRoute → Stop → String → Violation
duplicate_violation r s first_crew = record {
  code = ViolationCode.duplicate_job_assignment;
  detail = scheduled_twice first_crew r.crew_id;
  job_id = some s.job_id;
  crew_id = some r.crew_id;
  worker_id = none;
  van_id = none;
  on_date = some r.date;
}

unfoldable pub find_duplicates : Dict JobId String → List Visit → List Violation
find_duplicates seen [] = []
find_duplicates seen ((r, s) ∷ rest) =
    let again = duplicate_violation r s (get_or seen s.job_id "") ∷ find_duplicates seen rest in
    let first = find_duplicates (put seen s.job_id r.crew_id) rest in
    if has seen s.job_id then again else first

-- _check_duplicate_assignments
unfoldable pub check_duplicate_assignments : List CrewRoute → List Violation
unfolding find_duplicates
check_duplicate_assignments routes = find_duplicates [] (visits routes)

-- No two visits are of one job.
abbrev pub NoJobTwice : List Visit → Type 0
NoJobTwice = Pairs (λ v w. job_of v ≢ job_of w)

-- A visit is unseen after a job is noted when it was unseen before, and is of another job.
unseen_after :
    (seen : Dict JobId String) (job crew : String) (v : Visit)
    → (has (put seen job crew) (job_of v) ≡ false)
      ↔ ((has seen (job_of v) ≡ false) × (job ≢ job_of v))
unseen_after seen job crew v =
    ground (arith, has-put seen job (job_of v) crew, eq_iff job (job_of v))

find_duplicates-nil :
    (seen : Dict JobId String) (vs : List Visit)
    → (find_duplicates seen vs ≡ []) ↔ (All (λ v. has seen (job_of v) ≡ false) vs × NoJobTwice vs)
unfolding find_duplicates
find_duplicates-nil seen [] = (λ h. (tt, tt), λ h. refl)
find_duplicates-nil seen ((r, s) ∷ rest) = elim (Bool-cases (has seen s.job_id)) [
  | inl again ↦ (λ h. absurd (ground (arith, again)), λ h. absurd (ground (arith, again)))
  | inr fresh ↦
      let ih = find_duplicates-nil (put seen s.job_id r.crew_id) rest in
      let split = All-iff _ _ (unseen_after seen s.job_id r.crew_id) rest in
      let both = All-both (λ v. has seen (job_of v) ≡ false) (λ v. s.job_id ≢ job_of v) rest in
      (
        λ h.
            let (unseen, once) = ih.0 (ground (arith, fresh)) in
            let (a, b) = both.0 (split.0 unseen) in ((fresh, a), (b, once)),
        λ h.
            let rest_clear = ih.1 (split.1 (both.1 (h.0.1, h.1.0)), h.1.1) in
            ground (arith, fresh, rest_clear),
      )
]

All-unseen : (vs : List Visit) → All (λ v. has {V = String} [] (job_of v) ≡ false) vs
unfolding has
All-unseen [] = tt
All-unseen (v ∷ vs) = (refl, All-unseen vs)

-- The check of duplicates is silent exactly when no two visits of the plan, on one route or on two,
-- are of one job.
pub check_duplicate_assignments-nil :
    (routes : List CrewRoute)
    → (check_duplicate_assignments routes ≡ []) ↔ NoJobTwice (visits routes)
unfolding check_duplicate_assignments
check_duplicate_assignments-nil routes =
    let f = find_duplicates-nil [] (visits routes) in
    (λ h. (f.0 h).1, λ h. f.1 (All-unseen (visits routes), h))
