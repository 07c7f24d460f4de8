-- ===== src/World/Fold.antt =====
-- `fold` of src/krama/domain/state.py: the log replayed into a world state.
pub mod Replay
use glass_guru.Base.{
  ℕ, String, Bool, true, false, Option, none, some, List, [], ◌∷◌, ltb, leb, select, length, ◌==◌,
  nat_eq, if◌then◌else◌,
}
use glass_guru.Base.Sort.{sorted}
use glass_guru.Base.Text.{text_leb}
use glass_guru.Model.Units.{Moment}
use glass_guru.Events.{Event}
use glass_guru.World.State.{WorldState, empty_world}
use glass_guru.World.Apply.{apply}

-- the order of the sort key, `(e.recorded_at, e.event_id)`
unfoldable pub event_leb : Event → Event → Bool
event_leb a b =
    if a.recorded_at == b.recorded_at
    then text_leb a.event_id b.event_id
    else ltb a.recorded_at b.recorded_at

-- `for event in ordered: _apply(state, event)`
unfoldable pub apply_all : WorldState → List Event → WorldState
apply_all s [] = s
apply_all s (e ∷ es) = apply_all (apply s e) es

-- `ordered`, after the test on `as_of`
unfoldable pub known : Option Moment → List Event → List Event
known none events = sorted event_leb events
known (some t) events = select (λ e. leb e.recorded_at t) (sorted event_leb events)

-- `ordered[-1].recorded_at if ordered else datetime.min`
unfoldable pub last_recorded : List Event → Moment
last_recorded [] = 0
last_recorded (e ∷ []) = e.recorded_at
last_recorded (e ∷ f ∷ es) = last_recorded (f ∷ es)

unfoldable pub resolved_as_of : Option Moment → List Event → Moment
resolved_as_of none ordered = last_recorded ordered
resolved_as_of (some t) ordered = t

-- fold
unfoldable pub fold : List Event → Option Moment → WorldState
unfolding known apply_all resolved_as_of
fold events as_of =
    let ordered = known as_of events in
    let state = apply_all (empty_world (resolved_as_of as_of ordered)) ordered in
    record state { applied_event_count = length ordered }
