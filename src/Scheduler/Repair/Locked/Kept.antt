-- ===== src/Scheduler/Repair/Locked/Kept.antt =====
-- The plan that repair builds satisfies the check against its baseline.
use glass_guru.Base.{
  suc, ◌≡◌, ◌≢◌, refl, sym, ap, ◌∙◌, subst, true, some, List, [], ◌∷◌, ◌++◌, map, select, mem,
  mem_iff, Member, Member-select, Any-append, Member-map, Pairs-append, All, All-at, All-of,
  All-map, Pairs, Option-cases, Bool-cases, inl, inr, arith, string_eq, ◌==◌,
}
use glass_guru.Base.Sort.Laws.{Any-sorted}
use glass_guru.Base.Text.{text_leb}
use glass_guru.Dict.{Dict, get, values}
use glass_guru.Dict.Laws.{Entries}
use glass_guru.Model.Entities.{JobId}
use glass_guru.Model.Jobs.{Job}
use glass_guru.Model.Plan.{CrewRoute, Stop, PlanVersion, stop_for}
use glass_guru.World.State.{WorldState}
use glass_guru.World.Invariant.{JobAt}
use glass_guru.Checker.Baseline.{
  is_locked, IsLocked, is_locked_iff, StaysPut, validate_against_baseline,
  validate_against_baseline-nil,
}
use glass_guru.Checker.Duplicates.{Visit, visits_of, visits, job_of, NoJobTwice}
use glass_guru.Scheduler.Repair.Locked.{
  locked_jobs, last_locked, take, nothing_carved, carried_route, carve_out_locked,
}
use glass_guru.Scheduler.Repair.Locked.Carried.{
  kept_of, kept_all, carve_routes-carried, stop_in-take-none, last_locked-some, stop_in-kept_of,
  append_assoc,
}

-- The stops of a route as its visits.
Member-visits_of :
    (r : CrewRoute) (s : Stop) (ss : List Stop) → Member s ss → Member (r, s) (visits_of r ss)
Member-visits_of r s [] m = absurd m
Member-visits_of r s (t ∷ ts) (inl e) = inl (ap (λ x. (r, x)) e)
Member-visits_of r s (t ∷ ts) (inr m) = inr (Member-visits_of r s ts m)

All-visits_of :
    (P : Visit → Type 0) (r : CrewRoute) (ss : List Stop)
    → All P (visits_of r ss)
    → All (λ s. P (r, s)) ss
All-visits_of P r [] h = tt
All-visits_of P r (s ∷ ss) h = (h.0, All-visits_of P r ss h.1)

once_on_route :
    (r : CrewRoute) (ss : List Stop)
    → NoJobTwice (visits_of r ss)
    → Pairs (λ (t u : Stop). t.job_id ≢ u.job_id) ss
once_on_route r [] h = tt
once_on_route r (s ∷ ss) h =
    (All-visits_of (λ v. s.job_id ≢ job_of v) r ss h.0, once_on_route r ss h.1)

Member-visits :
    (r : CrewRoute) (s : Stop) (rs : List CrewRoute)
    → Member r rs
    → Member s r.stops
    → Member (r, s) (visits rs)
unfolding visits
Member-visits r s [] m n = absurd m
Member-visits r s (q ∷ qs) (inl e) n =
    (Any-append (λ v. v ≡ (r, s)) (visits_of q q.stops) (visits qs)).1 (
      inl (
        subst (λ (x : CrewRoute). Member (r, s) (visits_of x x.stops)) (sym e)
          (Member-visits_of r s r.stops n)))
Member-visits r s (q ∷ qs) (inr m) n =
    (Any-append (λ v. v ≡ (r, s)) (visits_of q q.stops) (visits qs)).1
      (inr (Member-visits r s qs m n))

-- The job of a later route is on none of an earlier route's stops, so what is carried of that has not got it.
stop_for-skip :
    (locked : List JobId) (r : CrewRoute) (rest : List CrewRoute) (id : JobId)
    → All (λ (t : Stop). t.job_id ≢ id) r.stops
    → stop_for (kept_of locked r ++ rest) id ≡ stop_for rest id
unfolding stop_for carried_route
stop_for-skip locked r rest id h = elim (Option-cases (last_locked locked r.stops)) [
  | inl idle ↦ rw (idle, kept_of) refl
  | inr (i, last) ↦
      rw (last, kept_of, stop_for, carried_route, stop_in-take-none (suc i) r.stops id h) refl
]

-- Of the route itself the prefix is carried that ends with its last locked stop.
stop_for-kept_of :
    (locked : List JobId) (r : CrewRoute) (rest : List CrewRoute) (s : Stop)
    → Member s r.stops
    → mem s.job_id locked ≡ true
    → Pairs (λ (t u : Stop). t.job_id ≢ u.job_id) r.stops
    → (ns : List Stop) × (stop_for (kept_of locked r ++ rest) s.job_id
        ≡ some (carried_route r ns, s))
unfolding stop_for carried_route
stop_for-kept_of locked r rest s n k once =
    let (i, last) = last_locked-some locked r.stops s n k in
    (
      take (suc i) r.stops,
      rw (last, kept_of, stop_for, carried_route, stop_in-kept_of locked r.stops s i n k once last)
          refl,
    )

-- A locked visit is first found on what its route leaves to be carried.
stop_for-carried :
    (locked : List JobId) (rs extra : List CrewRoute) (r : CrewRoute) (s : Stop)
    → Member r rs
    → Member s r.stops
    → mem s.job_id locked ≡ true
    → NoJobTwice (visits rs)
    → (ns : List Stop) × (stop_for (kept_all locked rs ++ extra) s.job_id
        ≡ some (carried_route r ns, s))
unfolding visits
stop_for-carried locked [] extra r s m n k once = absurd m
stop_for-carried locked (q ∷ qs) extra r s m n k once =
    let (here, later, across) =
      Pairs-append (λ v w. job_of v ≢ job_of w) (visits_of q q.stops) (visits qs) once in
    let step =
      ap (λ l. stop_for l s.job_id) (append_assoc (kept_of locked q) (kept_all locked qs) extra) in
    elim m [
      | inl e ↦
          let at_r = subst (λ (x : CrewRoute). NoJobTwice (visits_of x x.stops)) e here in
          let (ns, found) =
            stop_for-kept_of locked r (kept_all locked qs ++ extra) s n k
              (once_on_route r r.stops at_r) in
          (
            ns,
            step
                ∙ ap (λ x. stop_for (kept_of locked x ++ (kept_all locked qs ++ extra)) s.job_id) e
                ∙ found,
          )
      | inr m' ↦
          let (ns, found) = stop_for-carried locked qs extra r s m' n k later in
          let others =
            All-map _ (λ v. job_of v ≢ s.job_id)
              (λ v h.
                All-at (λ w. job_of v ≢ job_of w) (r, s) (visits qs) h (Member-visits r s qs m' n))
              (visits_of q q.stops) across in
          (
            ns,
            step
                ∙ stop_for-skip locked q (kept_all locked qs ++ extra) s.job_id
                    (All-visits_of (λ v. job_of v ≢ s.job_id) q q.stops others)
                ∙ found,
          )
    ]

Member-values : (d : Dict JobId Job) (k : JobId) (j : Job) → get d k ≡ some j → Member j (values d)
unfolding get values
Member-values [] k j e = absurd (cc)
Member-values ((i, v) ∷ d) k j e = elim (Bool-cases (i == k)) [
  | inl same ↦ inl (ground (arith, same))
  | inr other ↦ inr (Member-values d k j (rw (other, get) at e))
]

pub locked-listed :
    (world : WorldState) (k : JobId) (j : Job)
    → Entries JobAt world.jobs
    → get world.jobs k ≡ some j
    → IsLocked j
    → mem k (locked_jobs world) ≡ true
unfolding locked_jobs
locked-listed world k j own there locked =
    let chosen =
      (Member-select is_locked j (values world.jobs)).1
        (Member-values world.jobs k j there, (is_locked_iff j).1 locked) in
    let ids = Member-map (λ (x : Job). x.id) j _ chosen in
    let placed =
      subst (λ i. Member i (map (λ (x : Job). x.id) (select is_locked (values world.jobs))))
        (own k j there) ids in
    (mem_iff k (locked_jobs world)).1 ((Any-sorted text_leb (λ i. i ≡ k) _).1 placed)

-- A plan that begins with the routes which `carve_out_locked` carries over from the baseline, and
-- has any routes after them, passes the check against that baseline, when the jobs of the world
-- stand under their own ids and the baseline visits no job twice.
pub carve_out_locked-validate_against_baseline :
    (world : WorldState) (baseline plan : PlanVersion) (planned : List CrewRoute)
    → Entries JobAt world.jobs
    → NoJobTwice (visits baseline.routes)
    → plan.routes ≡ (carve_out_locked world baseline (locked_jobs world)).1 ++ planned
    → validate_against_baseline plan baseline world ≡ []
unfolding carve_out_locked
carve_out_locked-validate_against_baseline world baseline plan planned own once e =
    (validate_against_baseline-nil plan baseline world).1 (
      All-of _ baseline.routes
        (λ r m. All-of _ r.stops (λ s n j there locked. stays r s m n j there locked)))
  where
    stays :
        (r : CrewRoute) (s : Stop)
        → Member r baseline.routes
        → Member s r.stops
        → (j : Job) → get world.jobs s.job_id ≡ some j
        → StaysPut plan r s j
    stays r s m n j there locked =
        let ids = locked_jobs world in
        let (ns, found) =
          stop_for-carried ids baseline.routes planned r s m n
            (locked-listed world s.job_id j own there locked) once in
        let routes =
          e ∙ ap (λ l. l ++ planned) (carve_routes-carried ids nothing_carved baseline.routes) in
        let all = All-of (λ w. Member w r.worker_ids) r.worker_ids (λ w w_in. w_in) in
        ((carried_route r ns, s), ap (λ l. stop_for l s.job_id) routes ∙ found, refl, (all, all))
