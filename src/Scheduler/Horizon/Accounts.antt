-- ===== src/Scheduler/Horizon/Accounts.antt =====
-- Every candidate is on a route or reported.
use glass_guru.Base.{
  ◌≡◌, ◌↔◌, ◌⊎◌, refl, true, not, ◌&&◌, List, [], ◌∷◌, mem, mem_iff, Any, All, Member, Any-append,
  subst, Bool-cases, inl, inr, arith, string_eq,
}
use glass_guru.Model.Entities.{JobId}
use glass_guru.Model.Jobs.{Job}
use glass_guru.Model.Plan.{UnservedJob}
use glass_guru.Scheduler.Params.{DayPlanResult}
use glass_guru.Scheduler.Horizon.Report.{
  distinct, Reported, report, report_items, report_results, left_over, report_jobs, placed_nowhere,
  report_all,
}

-- The job is among the reported ones.
abbrev pub Listed : JobId → List UnservedJob → Type 0
Listed k = Any (λ u. u.job_id ≡ k)

pub distinct-Member : (k : JobId) (ks : List JobId) → Member k (distinct ks) ↔ Member k ks
unfolding distinct
distinct-Member k [] = (λ h. h, λ h. h)
distinct-Member k (j ∷ ks) = elim (Bool-cases (mem j (distinct ks))) [
  | inl again ↦
      rw (again, distinct)
        (
          λ h. inr ((distinct-Member k ks).0 h),
          λ h. elim h [
            | inl e ↦ subst (λ i. Member i (distinct ks)) e ((mem_iff j (distinct ks)).0 again)
            | inr m ↦ (distinct-Member k ks).1 m
          ],
        )
  | inr new ↦ rw (new, distinct) (ground (arith, distinct-Member k ks))
]

-- Every id in `seen` is reported.
abbrev IsAccurate : Reported → Type 0
IsAccurate r = (k : JobId) → mem k r.seen ≡ true → Listed k r.unserved

-- Nothing that was reported is lost, and `seen` stays honest.
abbrev Extends : Reported → Reported → Type 0
Extends r s =
    ((k : JobId) → Listed k r.unserved → Listed k s.unserved) × (IsAccurate r → IsAccurate s)

Extends-self : (r : Reported) → Extends r r
Extends-self r = (λ k m. m, λ h. h)

Extends-trans : (r s t : Reported) → Extends r s → Extends s t → Extends r t
Extends-trans r s t a b = (λ k m. b.0 k (a.0 k m), λ h. b.1 (a.1 h))

report-Extends :
    (scheduled : List JobId) (r : Reported) (u : UnservedJob) → Extends r (report scheduled r u)
unfolding report
report-Extends scheduled r u =
    elim (Bool-cases (not (mem u.job_id scheduled) && not (mem u.job_id r.seen))) [
      | inr skip ↦ rw (skip, report) (Extends-self r)
      | inl add ↦
          rw (add, report)
            (
              λ k m. (Any-append (λ v. v.job_id ≡ k) r.unserved (u ∷ [])).1 (inl m),
              λ h k m.
                  (Any-append (λ v. v.job_id ≡ k) r.unserved (u ∷ [])).1
                    (elim ((mem_iff k (u.job_id ∷ r.seen)).0 m) [
                      | inl e ↦ inr (inl e)
                      | inr n ↦ inl (h k ((mem_iff k r.seen).1 n))
                    ]),
            )
    ]

-- The job that was at hand is scheduled or reported.
report-done :
    (scheduled : List JobId) (r : Reported) (u : UnservedJob)
    → IsAccurate r
    → Member u.job_id scheduled ⊎ Listed u.job_id (report scheduled r u).unserved
unfolding report
report-done scheduled r u h = elim (Bool-cases (mem u.job_id scheduled)) [
  | inl there ↦ inl ((mem_iff u.job_id scheduled).0 there)
  | inr missed ↦ inr (elim (Bool-cases (mem u.job_id r.seen)) [
    | inl seen ↦ (report-Extends scheduled r u).0 u.job_id (h u.job_id seen)
    | inr new ↦
        rw (missed, new, report)
          ((Any-append (λ v. v.job_id ≡ u.job_id) r.unserved (u ∷ [])).1 (inr (inl refl)))
  ])
]

report_items-Extends :
    (scheduled : List JobId) (r : Reported) (us : List UnservedJob)
    → Extends r (report_items scheduled r us)
unfolding report_items
report_items-Extends scheduled r [] = Extends-self r
report_items-Extends scheduled r (u ∷ us) =
    Extends-trans r (report scheduled r u) _ (report-Extends scheduled r u)
      (report_items-Extends scheduled (report scheduled r u) us)

report_results-Extends :
    (scheduled : List JobId) (r : Reported) (ds : List DayPlanResult)
    → Extends r (report_results scheduled r ds)
unfolding report_results
report_results-Extends scheduled r [] = Extends-self r
report_results-Extends scheduled r (d ∷ ds) =
    let after = report_items scheduled r d.unserved in
    Extends-trans r after _ (report_items-Extends scheduled r d.unserved)
      (report_results-Extends scheduled after ds)

report_jobs-Extends :
    (scheduled : List JobId) (r : Reported) (js : List Job) → Extends r (report_jobs scheduled r js)
unfolding report_jobs
report_jobs-Extends scheduled r [] = Extends-self r
report_jobs-Extends scheduled r (j ∷ js) =
    Extends-trans r (report scheduled r (left_over j)) _ (report-Extends scheduled r (left_over j))
      (report_jobs-Extends scheduled (report scheduled r (left_over j)) js)

report_jobs-done :
    (scheduled : List JobId) (r : Reported) (js : List Job)
    → IsAccurate r
    → All
        (λ (j : Job). Member j.id scheduled ⊎ Listed j.id (report_jobs scheduled r js).unserved)
        js
unfolding report_jobs left_over
report_jobs-done scheduled r [] h = tt
report_jobs-done scheduled r (j ∷ js) h =
    let after = report scheduled r (left_over j) in
    let keeps = report_jobs-Extends scheduled after js in
    let honest = (report-Extends scheduled r (left_over j)).1 h in
    (
      elim (report-done scheduled r (left_over j) h) [
        | inl m ↦ inl m
        | inr m ↦ inr (keeps.0 j.id m)
      ],
      report_jobs-done scheduled after js honest,
    )

placed_nowhere-IsAccurate : (us : List UnservedJob) → IsAccurate (placed_nowhere us)
placed_nowhere-IsAccurate [] k m = absurd (cc)
placed_nowhere-IsAccurate (u ∷ us) k m = elim ((mem_iff k (placed_nowhere (u ∷ us)).seen).0 m) [
  | inl e ↦ inl e
  | inr n ↦ inr (placed_nowhere-IsAccurate us k ((mem_iff k (placed_nowhere us).seen).1 n))
]

pub report_all-done :
    (scheduled : List JobId) (unplaceable : List UnservedJob) (ds : List DayPlanResult)
    (js : List Job)
    → All
        (λ (j : Job). Member j.id scheduled ⊎ Listed j.id (report_all scheduled unplaceable ds js))
        js
unfolding report_all
report_all-done scheduled unplaceable ds js =
    report_jobs-done scheduled (report_results scheduled (placed_nowhere unplaceable) ds) js (
      (report_results-Extends scheduled (placed_nowhere unplaceable) ds).1
        (placed_nowhere-IsAccurate unplaceable))
