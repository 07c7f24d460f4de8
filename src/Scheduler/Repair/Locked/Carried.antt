-- ===== src/Scheduler/Repair/Locked/Carried.antt =====
-- A repaired plan keeps locked work where it was, whatever is planned around it.
use glass_guru.Base.{
  ℕ, zero, suc, ◌≡◌, ◌≢◌, refl, sym, ap, ◌∙◌, true, none, some, List, [], ◌∷◌, ◌++◌, mem, Member,
  append_nil, All, All-at, Pairs, Option-cases, inl, inr, arith, string_eq, beq_self, beq_other,
}
use glass_guru.Model.Entities.{JobId}
use glass_guru.Model.Plan.{CrewRoute, Stop, stop_in}
use glass_guru.Scheduler.Repair.Locked.{
  last_locked, take, Carving, carried_route, carve_prefix, carve_route, carve_routes,
}

-- what a route leaves to be carried
abbrev pub kept_of : List JobId → CrewRoute → List CrewRoute
kept_of locked r = elim (last_locked locked r.stops) [
  | none ↦ []
  | some i ↦ carried_route r (take (suc i) r.stops) ∷ []
]

abbrev pub kept_all : List JobId → List CrewRoute → List CrewRoute
kept_all locked [] = []
kept_all locked (r ∷ rs) = kept_of locked r ++ kept_all locked rs

carve-carried :
    (locked : List JobId) (c : Carving) (r : CrewRoute) (i : ℕ) (ss : List Stop)
    → last_locked locked ss ≡ some i
    → (carve_prefix c r (take (suc i) ss)).carried
      ≡ c.carried ++ (carried_route r (take (suc i) ss) ∷ [])
unfolding carve_prefix take last_locked
carve-carried locked c r i [] e = cc
carve-carried locked c r i (s ∷ ss) e = refl

carve_route-carried :
    (locked : List JobId) (c : Carving) (r : CrewRoute)
    → (carve_route locked c r).carried ≡ c.carried ++ kept_of locked r
unfolding carve_route
carve_route-carried locked c r = elim (Option-cases (last_locked locked r.stops)) [
  | inl idle ↦ rw (idle, carve_route, kept_of) (sym (append_nil c.carried))
  | inr (i, last) ↦ rw (last, carve_route, kept_of) (carve-carried locked c r i r.stops last)
]

pub append_assoc : {A : Type 0} (xs ys zs : List A) → (xs ++ ys) ++ zs ≡ xs ++ (ys ++ zs)
append_assoc [] ys zs = refl
append_assoc (x ∷ xs) ys zs = ap (λ l. x ∷ l) (append_assoc xs ys zs)

pub carve_routes-carried :
    (locked : List JobId) (c : Carving) (rs : List CrewRoute)
    → (carve_routes locked c rs).carried ≡ c.carried ++ kept_all locked rs
unfolding carve_routes
carve_routes-carried locked c [] = sym (append_nil c.carried)
carve_routes-carried locked c (r ∷ rs) =
    carve_routes-carried locked (carve_route locked c r) rs
    ∙ ap (λ l. l ++ kept_all locked rs) (carve_route-carried locked c r)
    ∙ append_assoc c.carried (kept_of locked r) (kept_all locked rs)

pub stop_in-take-none :
    (n : ℕ) (ss : List Stop) (id : JobId)
    → All (λ (t : Stop). t.job_id ≢ id) ss
    → stop_in (take n ss) id ≡ none
unfolding stop_in take
stop_in-take-none zero ss id h = refl
stop_in-take-none (suc n) [] id h = refl
stop_in-take-none (suc n) (t ∷ ts) id h =
    rw (beq_other t.job_id id h.0, stop_in) (stop_in-take-none n ts id h.1)

pub last_locked-some :
    (locked : List JobId) (ss : List Stop) (s : Stop)
    → Member s ss
    → mem s.job_id locked ≡ true
    → (i : ℕ) × (last_locked locked ss ≡ some i)
unfolding last_locked
last_locked-some locked [] s m k = absurd m
last_locked-some locked (t ∷ ts) s m k = elim (Option-cases (last_locked locked ts)) [
  | inl last ↦ (
    0,
    rw (last, last_locked)
        (elim m [
          | inl e ↦ rw (ap (λ (x : Stop). mem x.job_id locked) e ∙ k) refl
          | inr n ↦ let (i, later) = last_locked-some locked ts s n k in absurd (cc)
        ]),
  )
  | inr (i, later) ↦ (suc i, rw (later, last_locked) refl)
]

pub stop_in-kept_of :
    (locked : List JobId) (ss : List Stop) (s : Stop) (i : ℕ)
    → Member s ss
    → mem s.job_id locked ≡ true
    → Pairs (λ (t u : Stop). t.job_id ≢ u.job_id) ss
    → last_locked locked ss ≡ some i
    → stop_in (take (suc i) ss) s.job_id ≡ some s
unfolding stop_in take last_locked
stop_in-kept_of locked [] s i m k once last = absurd m
stop_in-kept_of locked (t ∷ ts) s i (inl e) k once last = rw (e, stop_in, beq_self s.job_id) refl
stop_in-kept_of locked (t ∷ ts) s i (inr m) k once last =
    let (n, later) = last_locked-some locked ts s m k in
    let other = All-at (λ (u : Stop). t.job_id ≢ u.job_id) s ts once.0 m in
    let is_n : i ≡ suc n = ground (arith, later) in
    rw (is_n, take, stop_in, beq_other t.job_id s.job_id other)
      (stop_in-kept_of locked ts s n m k once.1 later)
