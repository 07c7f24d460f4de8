-- ===== src/Autonomy/Promises.antt =====
-- No policy lets the system break a promise on its own: the diff of two plans and the decision on
-- it, taken together.
use glass_guru.Base.{
  ◌≡◌, ◌≢◌, ◌⊎◌, refl, ap, sym, ◌∙◌, subst, true, false, Option, none, some, [], ◌∷◌, All-at,
  Member, Bool-cases, inl, inr, arith, nat_eq, string_eq, ◌==◌, if◌then◌else◌,
}
use glass_guru.Base.Sort.{sorted}
use glass_guru.Base.Text.{text_leb}
use glass_guru.Dict.{Dict, get}
use glass_guru.Model.Units.Int.{ℤ}
use glass_guru.Model.Enums.{CommitmentState, commitment_eq, commitment_beq_iff}
use glass_guru.Model.Entities.{JobId, TimeWindow}
use glass_guru.Model.Jobs.{Job}
use glass_guru.Model.Plan.{PlanVersion}
use glass_guru.World.State.{WorldState}
use glass_guru.Diff.Changes.{
  ChangeKind, BreaksPromise, Placement, JobChange, PlanDiff, is_visible, is_visible_iff,
  WasPromised, KeepsWindow,
}
use glass_guru.Diff.Plans.{
  placements, classify, kind_of, promise, first_window, change_of, recorded_change, all_keys,
  diff_plans,
}
use glass_guru.Diff.Soundness.{Differs, change_listed, Member-visited}
use glass_guru.Autonomy.{Decision, AutonomyPolicy, decide, decide-auto_iff}

-- The new place of the visit breaks what the customer was told: it is gone, on another day, or at
-- another time that does not keep to the window, of a job that was confirmed.
abbrev pub Breaks : Job → Placement → Option Placement → Type 0
Breaks j p none = Unit
Breaks j p (some q) =
    (p.on_date ≢ q.on_date)
    ⊎ ((p.arrival ≢ q.arrival)
        × (j.commitment_state ≡ CommitmentState.confirmed)
        × ¬ KeepsWindow (first_window j.windows) (some q))

Breaks-Differs :
    (j : Job) (p : Placement) (n : Option Placement) → Breaks j p n → Differs (some p) n
Breaks-Differs j p none b = tt
Breaks-Differs j p (some q) (inl d) = inl d
Breaks-Differs j p (some q) (inr b) = inr (inl b.0)

-- A visible change keeps the decision from being automatic.
visible_escalates :
    (d : PlanDiff) (policy : AutonomyPolicy) (added : ℤ) (c : JobChange)
    → Member c d.changes
    → is_visible c ≡ true
    → (decide d policy added).decision ≡ Decision.escalate
visible_escalates d policy added c m v = by_decision (decide d policy added).decision refl
  where
    by_decision :
        (x : Decision)
        → (decide d policy added).decision ≡ x
        → (decide d policy added).decision ≡ Decision.escalate
    by_decision Decision.escalate e = e
    by_decision Decision.auto_apply e = absurd (
        cc (
          All-at (λ k. is_visible k ≡ false) c d.changes ((decide-auto_iff d policy added).0 e).0
            m))

-- The kinds of change that a broken promise is recorded as.
abbrev Recorded : Job → Option Placement → ChangeKind → Type 0
Recorded j n k =
    (k ≡ ChangeKind.dropped)
    ⊎ (k ≡ ChangeKind.rescheduled)
    ⊎ ((k ≡ ChangeKind.retimed)
        × (j.commitment_state ≡ CommitmentState.confirmed)
        × ¬ KeepsWindow (first_window j.windows) n)

kind_of-Recorded :
    (j : Job) (p : Placement) (n : Option Placement)
    → Breaks j p n
    → (k : ChangeKind) × (kind_of (some p) n ≡ some k) × Recorded j n k
unfolding kind_of classify
kind_of-Recorded j p none broken = (ChangeKind.dropped, refl, inl refl)
kind_of-Recorded j p (some q) broken = elim (Bool-cases (p.on_date == q.on_date)) [
  | inr other ↦ (ChangeKind.rescheduled, ground (arith, other), inr (inl refl))
  | inl same ↦
      let late = at_another_time same broken in
      (ChangeKind.retimed, ground (arith, same, late), inr (inr (refl, late.1, late.2)))
]
  where
    at_another_time :
        p.on_date == q.on_date ≡ true
        → Breaks j p (some q)
        → (p.arrival ≢ q.arrival)
          × (j.commitment_state ≡ CommitmentState.confirmed)
          × ¬ KeepsWindow (first_window j.windows) (some q)
    at_another_time same b = elim b [ inl d ↦ absurd (ground (arith, d, same)) | inr r ↦ r ]

abbrev promised_of : Job → Option TimeWindow
promised_of j =
    if j.commitment_state == CommitmentState.confirmed then first_window j.windows else none

promise_known :
    (world : WorldState) (id : JobId) (j : Job)
    → get world.jobs id ≡ some j
    → promise (some world) id ≡ (j.commitment_state, j.customer_name, promised_of j)
unfolding promise
promise_known world id j known = rw (known, promise) refl

abbrev change_to : Job → JobId → ChangeKind → Option Placement → Option Placement → JobChange
change_to j id k old new = record {
  job_id = id;
  kind = k;
  before = old;
  after = new;
  commitment_state = j.commitment_state;
  customer_name = j.customer_name;
  promised_window = promised_of j;
}

change_of-kind :
    (world : WorldState) (old new : Dict JobId Placement) (id : JobId) (j : Job) (k : ChangeKind)
    → promise (some world) id ≡ (j.commitment_state, j.customer_name, promised_of j)
    → kind_of (get old id) (get new id) ≡ some k
    → change_of (some world) old new id ≡ change_to j id k (get old id) (get new id) ∷ []
unfolding change_of
change_of-kind world old new id j k p kind =
    ap
      (λ told.
        recorded_change id told (get old id) (get new id) (kind_of (get old id) (get new id)))
      p
    ∙ ap
        (recorded_change id (j.commitment_state, j.customer_name, promised_of j) (get old id)
          (get new id))
        kind

Recorded-BreaksPromise :
    (j : Job) (id : JobId) (k : ChangeKind) (old new : Option Placement)
    → Recorded j new k
    → BreaksPromise (change_to j id k old new)
Recorded-BreaksPromise j id k old new (inl e) = inl e
Recorded-BreaksPromise j id k old new (inr (inl e)) = inr (inl e)
Recorded-BreaksPromise j id k old new (inr (inr (e, c, late))) =
    inr (inr (e, subst (λ w. ¬ KeepsWindow w new) (sym window) late))
  where
    window : promised_of j ≡ first_window j.windows
    window = rw ((commitment_beq_iff j.commitment_state CommitmentState.confirmed).1 c) refl

-- Whatever the policy, the cost and the overtime: a new plan that drops a job which was promised to
-- its customer, confirmed or dispatched, or moves it to another day, or moves a confirmed job so
-- that the visit no longer keeps to the window it was confirmed for, needs a human's decision.
pub breaking_a_promise_escalates :
    (before after : PlanVersion) (world : WorldState) (cost added : ℤ) (policy : AutonomyPolicy)
    (id : JobId) (j : Job) (p : Placement)
    → get world.jobs id ≡ some j
    → WasPromised j.commitment_state
    → get (placements (some world) before) id ≡ some p
    → Breaks j p (get (placements (some world) after) id)
    → (decide (diff_plans before after (some world) cost) policy added).decision ≡ Decision.escalate
unfolding diff_plans
breaking_a_promise_escalates before after world cost added policy id j p known promised was broken =
    let old = placements (some world) before in
    let new = placements (some world) after in
    let (k, kind, recorded) = kind_of-Recorded j p (get new id) broken in
    let listed =
      change_of-kind world old new id j k (promise_known world id j known)
        (ap (λ o. kind_of o (get new id)) was ∙ kind) in
    let visited =
      Member-visited old new id
        (subst (λ o. Differs o (get new id)) (sym was) (Breaks-Differs j p (get new id) broken)) in
    let c = change_to j id k (get old id) (get new id) in
    visible_escalates (diff_plans before after (some world) cost) policy added c
      (change_listed (some world) old new (sorted text_leb (all_keys old new)) id c visited listed)
      ((is_visible_iff c).1
        (promised, Recorded-BreaksPromise j id k (get old id) (get new id) recorded))
