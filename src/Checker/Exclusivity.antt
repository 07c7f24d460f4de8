-- ===== src/Checker/Exclusivity.antt =====
-- `_check_resource_exclusivity`: no worker and no van is in two places at once.
use text.Mathlib.TextEquality.{eq_iff}
use glass_guru.Base.{
  String, ◌≤◌, ◌≡◌, ◌⊎◌, ◌↔◌, refl, sym, subst, false, none, some, List, [], ◌∷◌, ◌++◌, map, ◌==◌,
  All, All-iff, All-both, All-append, Pairs, Bool-cases, Option-cases, inl, inr, arith, string_eq,
  if◌then◌else◌,
}
use glass_guru.Dict.{Dict, get, get_or, put}
use glass_guru.Dict.Laws.{get-put}
use glass_guru.Model.Enums.{ViolationCode}
use glass_guru.Model.Plan.{CrewRoute}
use glass_guru.Checker.Report.{
  Violation, Span, overlapping, route_span, overlaps, collect, emit, emit-nil, ++-nil, collect-nil,
}

-- The routes' times noted for each worker, or each van, with the crew.
abbrev pub Spans : Type 0
Spans = Dict String (List (Span × String))

-- `spans.setdefault(id, []).append((span, crew))`
unfoldable pub note_span : Spans → String → Span → String → Spans
note_span d id span crew = put d id (get_or d id [] ++ (span, crew) ∷ [])

unfoldable pub worker_violation : CrewRoute → String → String → Violation
worker_violation r worker_id other_crew = record {
  code = ViolationCode.worker_double_booked;
  detail = overlapping other_crew r.crew_id;
  job_id = none;
  crew_id = some r.crew_id;
  worker_id = some worker_id;
  van_id = none;
  on_date = some r.date;
}

unfoldable pub van_violation : CrewRoute → String → String → Violation
van_violation r van_id other_crew = record {
  code = ViolationCode.van_double_booked;
  detail = overlapping other_crew r.crew_id;
  job_id = none;
  crew_id = some r.crew_id;
  worker_id = none;
  van_id = some van_id;
  on_date = some r.date;
}

-- the loop over the times noted before
unfoldable pub clashes : (String → Violation) → Span → List (Span × String) → List Violation
clashes violation span noted = collect (λ n. emit (overlaps span n.0) (violation n.1)) noted

-- the loop over a route's workers: what it reports
unfoldable pub clash_workers : CrewRoute → Span → List String → Spans → List Violation
unfolding clashes note_span
clash_workers r span [] d = []
clash_workers r span (w ∷ ws) d =
    clashes (worker_violation r w) span (get_or d w [])
    ++ clash_workers r span ws (note_span d w span r.crew_id)

-- … and what it notes
unfoldable pub note_workers : CrewRoute → Span → List String → Spans → Spans
unfolding note_span
note_workers r span [] d = d
note_workers r span (w ∷ ws) d = note_workers r span ws (note_span d w span r.crew_id)

-- the loop over the routes, from the times noted so far
unfoldable pub check_spans : Spans → Spans → List CrewRoute → List Violation
unfolding clash_workers note_workers
check_spans workers vans [] = []
check_spans workers vans (r ∷ rs) = elim (route_span r r.stops) [
  | none ↦ check_spans workers vans rs
  | some span ↦
      clash_workers r span r.worker_ids workers
      ++ (clashes (van_violation r r.van_id) span (get_or vans r.van_id [])
          ++ check_spans (note_workers r span r.worker_ids workers)
              (note_span vans r.van_id span r.crew_id) rs)
]

-- _check_resource_exclusivity
unfoldable pub check_resource_exclusivity : List CrewRoute → List Violation
unfolding check_spans
check_resource_exclusivity routes = check_spans [] [] routes

-- A booking: a worker or a van, for the time of a route.
abbrev pub Booking : Type 0
Booking = String × Span

-- One of the two times is over when the other begins.
abbrev pub Beside : Span → Span → Type 0
Beside s t = (s.1 ≤ t.0) ⊎ (t.1 ≤ s.0)

-- The two are of different ids, or beside one another.
abbrev pub Apart : Booking → Booking → Type 0
Apart (i, s) (j, t) = i ≡ j → Beside s t

overlaps-Beside : (s t : Span) → (overlaps t s ≡ false) ↔ Beside s t
unfolding overlaps
overlaps-Beside s t = ground arith

abbrev pub bookings : (CrewRoute → List String) → List CrewRoute → List Booking
bookings ids [] = []
bookings ids (r ∷ rs) = elim (route_span r r.stops) [
  | none ↦ bookings ids rs
  | some span ↦ map (λ i. (i, span)) (ids r) ++ bookings ids rs
]

-- The booking is beside each time noted for its id.
abbrev pub Fits : Spans → Booking → Type 0
Fits d (id, span) = All (λ n. Beside n.0 span) (get_or d id [])

clashes-nil :
    (violation : String → Violation) (d : Spans) (id : String) (span : Span)
    → (clashes violation span (get_or d id []) ≡ []) ↔ Fits d (id, span)
unfolding clashes
clashes-nil violation d id span =
    collect-nil (λ n. Beside n.0 span) _ (λ n. silent n.0 n.1) (get_or d id [])
  where
    silent :
        (s : Span) (crew : String) → (emit (overlaps span s) (violation crew) ≡ []) ↔ Beside s span
    silent s crew =
        let quiet = emit-nil (overlaps span s) (violation crew) in
        let apart = overlaps-Beside s span in (λ h. apart.0 (quiet.0 h), λ h. quiet.1 (apart.1 h))

get_or-note_span :
    (d : Spans) (id j : String) (span : Span) (crew : String)
    → get_or (note_span d id span crew) j []
      ≡ (if id == j then get_or d id [] ++ (span, crew) ∷ [] else get_or d j [])
unfolding note_span get_or
get_or-note_span d id j span crew =
    ground (arith, get-put d id j (get_or d id [] ++ (span, crew) ∷ []))

-- A booking fits after a span is noted when it did before and is apart from that span.
Fits-note_span :
    (d : Spans) (id : String) (span : Span) (crew : String) (b : Booking)
    → Fits (note_span d id span crew) b ↔ (Fits d b × Apart (id, span) b)
Fits-note_span d id span crew (j, t) =
    let Q : Span × String → Type 0 = λ n. Beside n.0 t in
    elim (Bool-cases (id == j)) [
      | inl same ↦
          let e = (eq_iff id j).0 same in
          let split = All-append Q (get_or d id []) ((span, crew) ∷ []) in
          rw (get_or-note_span, same)
            (
              λ h.
                  let (old, new) = split.0 h in
                  (subst (λ k. All Q (get_or d k [])) e old, λ _. new.0),
              λ h. split.1 (subst (λ k. All Q (get_or d k [])) (sym e) h.0, (h.1 e, tt)),
            )
      | inr other ↦
          rw (get_or-note_span, other)
            (λ h. (h, λ e. absurd (ground (arith, eq_iff id j))), λ h. h.0)
    ]

-- The bookings fit what is noted, and are apart from one another.
abbrev pub Clear : Spans → List Booking → Type 0
Clear d bs = All (Fits d) bs × Pairs Apart bs

Clear-cons :
    (d : Spans) (id : String) (span : Span) (crew : String) (bs : List Booking)
    → (Fits d (id, span) × Clear (note_span d id span crew) bs) ↔ Clear d ((id, span) ∷ bs)
Clear-cons d id span crew bs =
    let step = All-iff _ _ (Fits-note_span d id span crew) bs in
    let both = All-both (Fits d) (Apart (id, span)) bs in
    (
      λ h. let (a, b) = both.0 (step.0 h.1.0) in ((h.0, a), (b, h.1.1)),
      λ h. (h.0.0, (step.1 (both.1 (h.0.1, h.1.0)), h.1.1)),
    )

clash_workers-nil :
    (r : CrewRoute) (span : Span) (ws : List String) (d : Spans) (bs : List Booking)
    → ((clash_workers r span ws d ≡ []) × Clear (note_workers r span ws d) bs)
      ↔ Clear d (map (λ i. (i, span)) ws ++ bs)
unfolding clash_workers note_workers
clash_workers-nil r span [] d bs = (λ h. h.1, λ h. (refl, h))
clash_workers-nil r span (w ∷ ws) d bs =
    let ih = clash_workers-nil r span ws (note_span d w span r.crew_id) bs in
    let cons = Clear-cons d w span r.crew_id (map (λ i. (i, span)) ws ++ bs) in
    let first = clashes-nil (worker_violation r w) d w span in
    let both = ++-nil (clashes (worker_violation r w) span (get_or d w [])) _ in
    (
      λ h. let (a, b) = both.0 h.0 in cons.0 (first.0 a, ih.0 (b, h.1)),
      λ h.
          let (fits, rest) = cons.1 h in
          let (silent, clear) = ih.1 rest in (both.1 (first.1 fits, silent), clear),
    )

abbrev van_ids : CrewRoute → List String
van_ids r = r.van_id ∷ []

check_spans-nil :
    (workers vans : Spans) (rs : List CrewRoute)
    → (check_spans workers vans rs ≡ [])
      ↔ (Clear workers (bookings (λ r. r.worker_ids) rs) × Clear vans (bookings van_ids rs))
unfolding check_spans
check_spans-nil workers vans [] = (λ h. ((tt, tt), (tt, tt)), λ h. refl)
check_spans-nil workers vans (r ∷ rs) = elim (Option-cases (route_span r r.stops)) [
  | inl idle ↦ rw (idle, check_spans, bookings) (check_spans-nil workers vans rs)
  | inr (span, there) ↦
      let ih =
        check_spans-nil (note_workers r span r.worker_ids workers)
          (note_span vans r.van_id span r.crew_id) rs in
      let crew = clash_workers-nil r span r.worker_ids workers (bookings (λ r. r.worker_ids) rs) in
      let van = Clear-cons vans r.van_id span r.crew_id (bookings van_ids rs) in
      let first = clashes-nil (van_violation r r.van_id) vans r.van_id span in
      let outer = ++-nil (clash_workers r span r.worker_ids workers) _ in
      let inner = ++-nil (clashes (van_violation r r.van_id) span (get_or vans r.van_id [])) _ in
      rw (there, check_spans, bookings)
        (
          λ h.
              let (a, rest) = outer.0 h in
              let (b, c) = inner.0 rest in
              let (w, v) = ih.0 c in (crew.0 (a, w), van.0 (first.0 b, v)),
          λ h.
              let (a, w) = crew.1 h.0 in
              let (fits, v) = van.1 h.1 in outer.1 (a, inner.1 (first.1 fits, ih.1 (w, v))),
        )
]

All-Fits_nothing : (bs : List Booking) → All (Fits []) bs
All-Fits_nothing [] = tt
All-Fits_nothing (b ∷ bs) = (unfold get_or get in tt, All-Fits_nothing bs)

-- The exclusivity check is silent exactly when, of any two bookings of one worker, and of any two of
-- one van, one is over when the other begins. A booking is the whole time of a route that has stops, the drive out and the drive
-- home included.
pub check_resource_exclusivity-nil :
    (routes : List CrewRoute)
    → (check_resource_exclusivity routes ≡ []) ↔ (
        Pairs Apart (bookings (λ r. r.worker_ids) routes)
        × Pairs Apart (bookings (λ r. r.van_id ∷ []) routes))
unfolding check_resource_exclusivity
check_resource_exclusivity-nil routes =
    let f = check_spans-nil [] [] routes in
    (
      λ h. let (w, v) = f.0 h in (w.1, v.1),
      λ h. f.1 ((All-Fits_nothing _, h.0), (All-Fits_nothing _, h.1)),
    )
