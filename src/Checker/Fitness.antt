-- ===== src/Checker/Fitness.antt =====
-- `_check_crew_fitness`: the crew's certifications, taken together, and its size.
use glass_guru.Base.{
  ◌≤◌, ◌≡◌, ◌↔◌, refl, Bool, true, false, not, ◌&&◌, none, some, List, [], ◌∷◌, ◌++◌, ltb, All,
  All-iff, All-of, All-at, Member, mem, mem_iff, select, length, inl, inr, ◌⊎◌, Bool-cases,
  Option-cases, arith, string_eq,
}
use glass_guru.Dict.{get}
use glass_guru.Model.Enums.{Certification, certification_eq, certifications_by_value, ViolationCode}
use glass_guru.Model.Entities.{WorkerId}
use glass_guru.Model.Jobs.{Job}
use glass_guru.Model.Plan.{CrewRoute, Stop}
use glass_guru.World.State.{WorldState}
use glass_guru.Checker.Report.{
  Violation, Detail, lacks, small_crew, collect, emit, emit-not, emit-ltb, append-nil_iff,
  collect-nil, KnownJob, at_job, at_job-nil,
}

-- the union of what the known members of the crew hold
unfoldable pub held : WorldState → List WorkerId → List Certification
held world [] = []
held world (w ∷ ws) =
    let rest = held world ws in
    elim (get world.workers w) [ none ↦ rest | some worker ↦ worker.certifications ++ rest ]

-- `sorted(required - held)`, by value
unfoldable pub missing : List Certification → List Certification → List Certification
missing required had = select (λ c. mem c required && not (mem c had)) certifications_by_value

unfoldable pub is_empty : List Certification → Bool
is_empty [] = true
is_empty (c ∷ cs) = false

unfoldable pub fitness_violation : ViolationCode → Detail → Job → CrewRoute → Violation
fitness_violation code detail j r = record {
  code = code;
  detail = detail;
  job_id = some j.id;
  crew_id = some r.crew_id;
  worker_id = none;
  van_id = none;
  on_date = some r.date;
}

unfoldable pub check_job_fitness : CrewRoute → List Certification → Job → List Violation
check_job_fitness r had j =
    let lacking = missing j.required_certifications had in
    emit (not (is_empty lacking))
      (fitness_violation ViolationCode.missing_certification (lacks lacking j.service_type) j r)
    ++ emit (ltb (length r.worker_ids) j.crew_size) (
        fitness_violation ViolationCode.crew_size_mismatch
          (small_crew j.crew_size (length r.worker_ids)) j r)

unfoldable pub check_stop_fitness :
    WorldState → CrewRoute → List Certification → Stop → List Violation
unfolding check_job_fitness at_job
check_stop_fitness world r had s = at_job world s (check_job_fitness r had)

-- _check_crew_fitness
unfoldable pub check_crew_fitness : WorldState → List CrewRoute → List Violation
unfolding check_stop_fitness held
check_crew_fitness world routes =
    collect (λ r. collect (check_stop_fitness world r (held world r.worker_ids)) r.stops) routes

-- Some member of the crew is on record and holds the certification.
abbrev pub CrewHolds : WorldState → List WorkerId → Certification → Type 0
CrewHolds world [] c = ⊥
CrewHolds world (w ∷ ws) c =
    (elim (get world.workers w) [ none ↦ ⊥ | some worker ↦ Member c worker.certifications ])
    ⊎ CrewHolds world ws c

-- The crew may do the job: each certification is held by some member, and there are enough hands.
abbrev pub IsFit : WorldState → CrewRoute → Job → Type 0
IsFit world r j =
    All (CrewHolds world r.worker_ids) j.required_certifications
    × (j.crew_size ≤ length r.worker_ids)

Member-append :
    (c : Certification) (xs ys : List Certification)
    → Member c (xs ++ ys) ↔ (Member c xs ⊎ Member c ys)
Member-append c [] ys = (λ h. inr h, λ h. elim h [ inl v ↦ absurd v | inr k ↦ k ])
Member-append c (x ∷ xs) ys = ground (arith, Member-append c xs ys)

Member-held :
    (world : WorldState) (ws : List WorkerId) (c : Certification)
    → Member c (held world ws) ↔ CrewHolds world ws c
unfolding held
Member-held world [] c = (λ h. h, λ h. h)
Member-held world (w ∷ ws) c = elim (Option-cases (get world.workers w)) [
  | inl unknown ↦ rw (unknown) (ground (arith, Member-held world ws c))
  | inr (worker, there) ↦ rw there (
      ground (arith, Member-append c worker.certifications (held world ws), Member-held world ws c))
]

is_empty-select :
    (p : Certification → Bool) (cs : List Certification)
    → (is_empty (select p cs) ≡ true) ↔ All (λ c. p c ≡ false) cs
unfolding is_empty
is_empty-select p [] = (λ h. tt, λ h. refl)
is_empty-select p (c ∷ cs) = ground (arith, is_empty-select p cs)

listed : (P : Certification → Type 0) → All P certifications_by_value → (c : Certification) → P c
listed P h Certification.auto_glass = h.0
listed P h Certification.commercial_storefront = h.1.0
listed P h Certification.residential_glazing = h.1.1.0
listed P h Certification.screen_repair = h.1.1.1.0
listed P h Certification.shower_door = h.1.1.1.1.0
listed P h Certification.tempered_safety = h.1.1.1.1.1.0

not_lacking :
    (required had : List Certification) (c : Certification)
    → All (λ c. Member c had) required
    → (mem c required && not (mem c had)) ≡ false
not_lacking required had c h = elim (Bool-cases (mem c required)) [
  | inr other ↦ rw other
  | inl asked ↦ rw (
    asked,
    (mem_iff c had).1 (All-at (λ c. Member c had) c required h ((mem_iff c required).0 asked)),
  )
]

missing-empty :
    (required had : List Certification)
    → (is_empty (missing required had) ≡ true) ↔ All (λ c. Member c had) required
unfolding missing
missing-empty required had =
    let lacks : Certification → Bool = λ c. mem c required && not (mem c had) in
    let f = is_empty-select lacks certifications_by_value in
    (
      λ h.
          All-of (λ c. Member c had) required
            λ c m.
              let none_lacks : lacks c ≡ false = listed (λ c. lacks c ≡ false) (f.0 h) c in
              (mem_iff c had).0 (ground (arith, (mem_iff c required).1 m)),
      λ h. f.1 (
          All-of (λ c. lacks c ≡ false) certifications_by_value
            λ c _. not_lacking required had c h),
    )

check_job_fitness-nil :
    (world : WorldState) (r : CrewRoute) (j : Job)
    → (check_job_fitness r (held world r.worker_ids) j ≡ []) ↔ IsFit world r j
unfolding check_job_fitness
check_job_fitness-nil world r j =
    let had = held world r.worker_ids in
    let m = missing-empty j.required_certifications had in
    let all = All-iff _ _ (λ c. Member-held world r.worker_ids c) j.required_certifications in
    append-nil_iff _ _
      (
        λ e. all.0 (m.0 ((emit-not (is_empty (missing j.required_certifications had)) _).0 e)),
        λ h. (emit-not (is_empty (missing j.required_certifications had)) _).1 (m.1 (all.1 h)),
      )
      (emit-ltb (length r.worker_ids) j.crew_size _)

check_stop_fitness-nil :
    (world : WorldState) (r : CrewRoute) (s : Stop)
    → (check_stop_fitness world r (held world r.worker_ids) s ≡ [])
      ↔ KnownJob world s (IsFit world r)
unfolding check_stop_fitness at_job
check_stop_fitness-nil world r s =
    at_job-nil world s (IsFit world r) (check_job_fitness r (held world r.worker_ids))
      (check_job_fitness-nil world r)

-- The check of crew fitness is silent exactly when, at every stop whose job is on record, each
-- certification that the job requires is held by some member of the crew, and the crew has as many
-- hands as it needs.
pub check_crew_fitness-nil :
    (world : WorldState) (routes : List CrewRoute)
    → (check_crew_fitness world routes ≡ [])
      ↔ All (λ (r : CrewRoute). All (λ s. KnownJob world s (IsFit world r)) r.stops) routes
unfolding check_crew_fitness
check_crew_fitness-nil world routes =
    collect-nil (λ (r : CrewRoute). All (λ s. KnownJob world s (IsFit world r)) r.stops) _
      (λ r.
        collect-nil (λ s. KnownJob world s (IsFit world r)) _ (check_stop_fitness-nil world r)
          r.stops)
      routes
