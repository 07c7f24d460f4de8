-- ===== src/Diff/Changes.antt =====
-- Placements, changes, their visibility and the blast radius of a diff.
use glass_guru.Base.{
  ◌≤◌, String, ◌≡◌, ◌↔◌, ◌⊎◌, refl, Bool, true, false, not, ◌&&◌, ◌||◌, Option, none, some, List,
  leb, any, select, arith, ◌==◌, if◌then◌else◌,
}
use glass_guru.Model.Units.{Moment, Date}
use glass_guru.Model.Units.Int.{ℤ}
use glass_guru.Model.Enums.{CommitmentState, commitment_eq, commitment_beq_iff}
use glass_guru.Model.Entities.{WorkerId, VanId, JobId, TimeWindow, contains}

pub data ChangeKind : Type 0 where
  added dropped rescheduled reassigned retimed : ChangeKind

pub data BlastRadius : Type 0 where
  internal crew_only customer_visible : BlastRadius

pub record Placement : Type 0 where
  pub on_date : Date
  pub crew_id : String
  pub van_id : VanId
  pub worker_ids : List WorkerId
  pub arrival : Moment
  pub departure : Moment
  pub worker_names : List String

pub record JobChange : Type 0 where
  pub job_id : JobId
  pub kind : ChangeKind
  pub before : Option Placement
  pub after : Option Placement
  pub commitment_state : CommitmentState
  pub customer_name : String
  pub promised_window : Option TimeWindow

-- `kind is ChangeKind.RETIMED`: the visit against the window that was promised
unfoldable pub breaks_window : Option TimeWindow → Option Placement → Bool
breaks_window none after = true
breaks_window (some w) none = true
breaks_window (some w) (some p) = not (contains w p.arrival && leb p.departure w.end)

-- JobChange.customer_visible
unfoldable pub is_visible : JobChange → Bool
unfolding breaks_window
is_visible c =
    if not (
      c.commitment_state == CommitmentState.confirmed
      || c.commitment_state == CommitmentState.dispatched)
    then false
    else elim c.kind [
      | ChangeKind.dropped ↦ true
      | ChangeKind.rescheduled ↦ true
      | ChangeKind.retimed ↦ breaks_window c.promised_window c.after
      | _ ↦ false
    ]

pub record PlanDiff : Type 0 where
  pub changes : List JobChange
  pub cost_delta : ℤ

abbrev pub is_reassigned : ChangeKind → Bool
is_reassigned ChangeKind.reassigned = true
is_reassigned _ = false

-- PlanDiff.blast_radius
unfoldable pub blast_radius : PlanDiff → BlastRadius
blast_radius d =
    if any is_visible d.changes
    then BlastRadius.customer_visible
    else if any (λ (c : JobChange). is_reassigned c.kind) d.changes
    then BlastRadius.crew_only
    else BlastRadius.internal

-- PlanDiff.customer_visible_changes
unfoldable pub customer_visible_changes : PlanDiff → List JobChange
customer_visible_changes d = select is_visible d.changes

-- The visit keeps to the window: it begins and ends inside it.
abbrev pub KeepsWindow : Option TimeWindow → Option Placement → Type 0
KeepsWindow none after = ⊥
KeepsWindow (some w) none = ⊥
KeepsWindow (some w) (some p) = (w.start ≤ p.arrival) × (p.arrival ≤ w.end) × (p.departure ≤ w.end)

-- The customer was told when somebody would come.
abbrev pub WasPromised : CommitmentState → Type 0
WasPromised s = (s ≡ CommitmentState.confirmed) ⊎ (s ≡ CommitmentState.dispatched)

-- The kinds of change that break a promise, whatever the hour.
abbrev pub BreaksPromise : JobChange → Type 0
BreaksPromise c =
    (c.kind ≡ ChangeKind.dropped)
    ⊎ (c.kind ≡ ChangeKind.rescheduled)
    ⊎ ((c.kind ≡ ChangeKind.retimed) × ¬ KeepsWindow c.promised_window c.after)

breaks_window_iff :
    (w : Option TimeWindow) (p : Option Placement)
    → (breaks_window w p ≡ true) ↔ (¬ KeepsWindow w p)
unfolding breaks_window contains
breaks_window_iff none p = (λ h k. k, λ h. refl)
breaks_window_iff (some w) none = (λ h k. k, λ h. refl)
breaks_window_iff (some w) (some p) = ground arith

-- The customer would experience a change exactly when the job was promised and the change drops it,
-- moves it to another day, or moves the visit in the day with no promised window that it fits.
pub is_visible_iff :
    (c : JobChange) → (is_visible c ≡ true) ↔ (WasPromised c.commitment_state × BreaksPromise c)
unfolding is_visible
is_visible_iff c = ground (
  arith,
  commitment_beq_iff c.commitment_state CommitmentState.confirmed,
  commitment_beq_iff c.commitment_state CommitmentState.dispatched,
  breaks_window_iff c.promised_window c.after,
)
