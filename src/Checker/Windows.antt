-- ===== src/Checker/Windows.antt =====
-- `_check_windows`: service inside a declared window, and not before the request.
use glass_guru.Base.{
  ◌≤◌, ◌≡◌, ◌↔◌, ◌⊎◌, ◌≢◌, refl, Bool, true, false, ◌&&◌, ◌||◌, Option, none, some, List, [], ◌∷◌,
  ◌++◌, ltb, all, All, Any, Member, mem, mem_iff, ◌==◌, Bool-cases, inl, inr, arith, string_eq,
  if◌then◌else◌,
}
use glass_guru.Model.Enums.{
  WindowHardness, is_hard, CommitmentState, commitment_eq, commitment_beq_iff, ViolationCode,
}
use glass_guru.Model.Entities.{JobId, TimeWindow}
use glass_guru.Model.Jobs.{Job}
use glass_guru.Model.Plan.{CrewRoute, Stop}
use glass_guru.World.State.{WorldState}
use glass_guru.Checker.Report.{
  Violation, Detail, ValidationConfig, before_any_window, promised_window_moved, past_window_end,
  before_request, collect, emit, emit-nil, emit-ltb, append-nil_iff, collect-nil, KnownJob, at_job,
  at_job-nil,
}

abbrev pub is_confirmed : Job → Bool
is_confirmed j = j.commitment_state == CommitmentState.confirmed

-- _is_binding
unfoldable pub is_binding : List JobId → Job → TimeWindow → Bool
is_binding released j w =
    if mem j.id released then is_hard w.hardness else is_hard w.hardness || is_confirmed j

-- the loop of _matching_window
unfoldable pub matching_window : List JobId → Job → Stop → List TimeWindow → Option TimeWindow
unfolding is_binding
matching_window released j s [] = none
matching_window released j s (w ∷ ws) =
    let rest = matching_window released j s ws in
    if ltb s.arrival w.start
    then rest
    else if is_binding released j w && ltb w.end s.departure
    then rest
    else some w

unfoldable pub window_violation : ViolationCode → Detail → Job → CrewRoute → Violation
window_violation code detail j r = record {
  code = code;
  detail = detail;
  job_id = some j.id;
  crew_id = some r.crew_id;
  worker_id = none;
  van_id = none;
  on_date = some r.date;
}

-- the violation of a stop that no window admits
unfoldable pub missed_window : CrewRoute → Stop → Job → Violation
unfolding window_violation
missed_window r s j =
    window_violation
      (if is_confirmed j
        then ViolationCode.confirmed_window_moved
        else ViolationCode.hard_window_violated)
      (if all (λ w. ltb s.arrival w.start) j.windows
        then before_any_window s.arrival s.departure j.windows
        else if is_confirmed j
        then promised_window_moved s.arrival s.departure j.windows
        else past_window_end s.arrival s.departure j.windows)
      j r

abbrev is_none : Option TimeWindow → Bool
is_none none = true
is_none (some w) = false

-- `not job.windows`
abbrev pub no_windows : List TimeWindow → Bool
no_windows [] = true
no_windows (w ∷ ws) = false

unfoldable pub check_job_windows : List JobId → CrewRoute → Stop → Job → List Violation
unfolding matching_window missed_window
check_job_windows released r s j =
    if no_windows j.windows
    then []
    else emit (is_none (matching_window released j s j.windows)) (missed_window r s j)
      ++ emit (ltb s.arrival j.requested_at) (
          window_violation ViolationCode.scheduled_before_request
            (before_request s.arrival j.requested_at) j r)

-- _check_windows
unfoldable pub check_windows : WorldState → ValidationConfig → List CrewRoute → List Violation
unfolding check_job_windows at_job
check_windows world config routes =
    collect
      (λ r. collect (λ s. at_job world s (check_job_windows config.released_job_ids r s)) r.stops)
      routes

-- The window must hold the whole visit: the customer needs it, or it was promised and no human has
-- released the promise.
abbrev pub Binds : List JobId → Job → TimeWindow → Type 0
Binds released j w =
    (w.hardness ≡ WindowHardness.hard)
    ⊎ ((j.commitment_state ≡ CommitmentState.confirmed) × (¬ Member j.id released))

-- The visit begins once the window is open, and ends inside it where the window binds.
abbrev pub Admits : List JobId → Job → Stop → TimeWindow → Type 0
Admits released j s w = (w.start ≤ s.arrival) × (Binds released j w → s.departure ≤ w.end)

-- Of a job with windows, some window admits the visit, which does not come before the request.
abbrev pub IsInWindow : List JobId → Stop → Job → Type 0
IsInWindow released s j =
    j.windows ≢ [] → Any (Admits released j s) j.windows × (j.requested_at ≤ s.arrival)

is_hard_iff : (h : WindowHardness) → (is_hard h ≡ true) ↔ (h ≡ WindowHardness.hard)
is_hard_iff h = ground arith

is_binding_iff :
    (released : List JobId) (j : Job) (w : TimeWindow)
    → (is_binding released j w ≡ true) ↔ Binds released j w
unfolding is_binding
is_binding_iff released j w = elim (Bool-cases (mem j.id released)) [
  | inl let_go ↦
      let m = (mem_iff j.id released).0 let_go in
      rw let_go (
        λ h. inl ((is_hard_iff w.hardness).0 h),
        λ b. elim b [ inl h ↦ (is_hard_iff w.hardness).1 h | inr k ↦ absurd (k.1 m) ],
      )
  | inr kept ↦
      let m : ¬ Member j.id released = λ k. absurd (ground (arith, (mem_iff j.id released).1 k)) in
      rw kept (
        ground (
          arith,
          m,
          is_hard_iff w.hardness,
          commitment_beq_iff j.commitment_state CommitmentState.confirmed,
        ))
]

matching_window_iff :
    (released : List JobId) (j : Job) (s : Stop) (ws : List TimeWindow)
    → (is_none (matching_window released j s ws) ≡ false) ↔ Any (Admits released j s) ws
unfolding matching_window
matching_window_iff released j s [] = (λ h. absurd (cc), λ h. absurd h)
matching_window_iff released j s (w ∷ ws) =
    ground (arith, is_binding_iff released j w, matching_window_iff released j s ws)

no_windows_iff : (ws : List TimeWindow) → (no_windows ws ≡ false) ↔ (ws ≢ [])
no_windows_iff [] = (λ h. absurd (cc), λ h. absurd (h refl))
no_windows_iff (w ∷ ws) = (λ h e. absurd (cc), λ h. refl)

emit_none :
    (o : Option TimeWindow) (v : Violation) → (emit (is_none o) v ≡ []) ↔ (is_none o ≡ false)
emit_none o v = emit-nil (is_none o) v

check_job_windows-nil :
    (released : List JobId) (r : CrewRoute) (s : Stop) (j : Job)
    → (check_job_windows released r s j ≡ []) ↔ IsInWindow released s j
unfolding check_job_windows
check_job_windows-nil released r s j = elim (Bool-cases (no_windows j.windows)) [
  | inl bare ↦ rw bare (
    λ h some_window. absurd (ground (arith, (no_windows_iff j.windows).1 some_window)),
    λ h. refl,
  )
  | inr windowed ↦
      let match = matching_window_iff released j s j.windows in
      let both =
        append-nil_iff _ _
          (emit_none (matching_window released j s j.windows) (missed_window r s j))
          (emit-ltb s.arrival j.requested_at _) in
      rw windowed (
        λ h _. let (a, b) = both.0 h in (match.0 a, b),
        λ h. let (a, b) = h ((no_windows_iff j.windows).0 windowed) in both.1 (match.1 a, b),
      )
]

-- The window check is silent exactly when every visit to a job that is on record and has windows
-- begins in an open window, ends inside it where the window is hard or a promise not released, and
-- does not begin before the job was requested. A soft window not promised may be overrun.
pub check_windows-nil :
    (world : WorldState) (config : ValidationConfig) (routes : List CrewRoute)
    → (check_windows world config routes ≡ [])
      ↔ All
          (λ (r : CrewRoute).
            All (λ s. KnownJob world s (IsInWindow config.released_job_ids s)) r.stops)
          routes
unfolding check_windows
check_windows-nil world config routes =
    let released = config.released_job_ids in
    collect-nil (λ (r : CrewRoute). All (λ s. KnownJob world s (IsInWindow released s)) r.stops) _
      (λ r.
        collect-nil (λ s. KnownJob world s (IsInWindow released s)) _
          (λ s.
            at_job-nil world s (IsInWindow released s) (check_job_windows released r s)
              (check_job_windows-nil released r s))
          r.stops)
      routes
