-- ===== src/Checker/Materials.antt =====
-- `_check_materials`: nothing is installed before it has arrived.
use glass_guru.Base.{
  ◌≤◌, String, ◌≡◌, ◌↔◌, ◌⊎◌, refl, max, Bool, true, false, not, none, some, List, [], ◌∷◌, ltb,
  All, map, select, inl, arith, string_eq, if◌then◌else◌,
}
use glass_guru.Model.Units.{Date, date_of}
use glass_guru.Model.Enums.{ViolationCode}
use glass_guru.Model.Entities.{Material, available_from}
use glass_guru.Model.Jobs.{Job, latest_date, earliest_material_date}
use glass_guru.Model.Plan.{CrewRoute}
use glass_guru.World.State.{WorldState}
use glass_guru.Checker.Report.{
  Violation, materials_late, collect, emit, collect-nil, KnownJob, at_job, at_job-nil,
}

-- `late or ['materials']`
abbrev pub or_materials : List String → List String
or_materials [] = "materials" ∷ []
or_materials (p ∷ ps) = p ∷ ps

unfoldable pub late_parts : Job → List String
late_parts j =
    or_materials (map (λ (m : Material). m.part_code) (select (λ m. not m.in_stock) j.materials))

abbrev pub no_materials : List Material → Bool
no_materials [] = true
no_materials (m ∷ ms) = false

unfoldable pub check_job_materials : CrewRoute → Job → List Violation
unfolding late_parts
check_job_materials r j =
    let ready_on = earliest_material_date j.materials (date_of j.requested_at) in
    if no_materials j.materials
    then []
    else emit (ltb r.date ready_on) (record {
      code = ViolationCode.materials_unavailable;
      detail = materials_late r.date (late_parts j) ready_on;
      job_id = some j.id;
      crew_id = some r.crew_id;
      worker_id = none;
      van_id = none;
      on_date = some r.date;
    })

-- _check_materials
unfoldable pub check_materials : WorldState → List CrewRoute → List Violation
unfolding check_job_materials at_job
check_materials world routes =
    collect (λ r. collect (λ s. at_job world s (check_job_materials r)) r.stops) routes

-- Every part of the job is there by the day of the route, if ordered on the day of the request.
abbrev pub HasParts : CrewRoute → Job → Type 0
HasParts r j = All (λ m. available_from m (date_of j.requested_at) ≤ r.date) j.materials

latest_date-le :
    (ms : List Material) (best ordered limit : Date)
    → (latest_date best ms ordered ≤ limit)
      ↔ ((best ≤ limit) × All (λ m. available_from m ordered ≤ limit) ms)
unfolding latest_date
latest_date-le [] best ordered limit = (λ h. (h, tt), λ h. h.0)
latest_date-le (m ∷ ms) best ordered limit =
    let f = latest_date-le ms (max best (available_from m ordered)) ordered limit in
    (λ h. let (a, b) = f.0 h in (omega arith, (omega arith, b)), λ h. f.1 (omega arith, h.1.1))

ready_by :
    (ms : List Material) (ordered limit : Date)
    → ((no_materials ms ≡ true) ⊎ (earliest_material_date ms ordered ≤ limit))
      ↔ All (λ m. available_from m ordered ≤ limit) ms
unfolding earliest_material_date
ready_by [] ordered limit = (λ h. tt, λ h. inl refl)
ready_by (m ∷ ms) ordered limit =
    ground (arith, latest_date-le ms (available_from m ordered) ordered limit)

check_job_materials-nil : (r : CrewRoute) (j : Job) → (check_job_materials r j ≡ []) ↔ HasParts r j
unfolding check_job_materials emit
check_job_materials-nil r j =
    let f = ready_by j.materials (date_of j.requested_at) r.date in
    (λ h. f.0 (ground arith), λ h. check_quiet (f.1 h))
  where
    check_quiet :
        ((no_materials j.materials ≡ true)
          ⊎ (earliest_material_date j.materials (date_of j.requested_at) ≤ r.date))
        → check_job_materials r j ≡ []
    check_quiet h = ground arith

-- The check of materials is silent exactly when every part of every job that a route visits, and
-- that is on record, is available by the route's date, ordered on the day of the request.
pub check_materials-nil :
    (world : WorldState) (routes : List CrewRoute)
    → (check_materials world routes ≡ [])
      ↔ All (λ (r : CrewRoute). All (λ s. KnownJob world s (HasParts r)) r.stops) routes
unfolding check_materials
check_materials-nil world routes =
    collect-nil (λ (r : CrewRoute). All (λ s. KnownJob world s (HasParts r)) r.stops) _
      (λ r.
        collect-nil (λ s. KnownJob world s (HasParts r)) _
          (λ s. at_job-nil world s (HasParts r) (check_job_materials r) (check_job_materials-nil r))
          r.stops)
      routes
