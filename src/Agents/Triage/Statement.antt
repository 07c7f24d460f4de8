-- ===== src/Agents/Triage/Statement.antt =====
-- What the event of an item has to say.
use glass_guru.Base.{
  ℕ, suc, String, ◌≡◌, ◌≢◌, ◌⊎◌, Option, none, some, List, [], ◌∷◌, string_eq, nat_eq,
}
use glass_guru.Model.Units.{Moment}
use glass_guru.Model.Units.Int.{pos}
use glass_guru.Events.{Event, Body}
use glass_guru.Agents.Events.{EventKind}
use glass_guru.Agents.Triage.{TriagedEvent, Desk}

-- When a note with that clock is about: when it was typed, unless the clock shows a time.
abbrev pub IsTime : Desk → String → Moment → Type 0
IsTime desk clock t =
    ((clock ≡ "") × (t ≡ desk.reported_at))
    ⊎ ((desk.on_clock clock ≡ none) × (t ≡ desk.reported_at))
    ⊎ ((clock ≢ "") × (desk.on_clock clock ≡ some t))

-- When it is over, if it says so.
abbrev pub IsEnd : Desk → String → Option Moment → Type 0
IsEnd desk clock none = clock ≡ ""
IsEnd desk clock (some t) = (clock ≢ "") × IsTime desk clock t

-- The body says what the item says: its kind, its target, from when and until when, how many minutes or
-- how much slower, and why.
abbrev pub Says : Desk → TriagedEvent → Moment → Body → Type 0
Says desk item from (Body.van_unavailable e) =
    (item.kind ≡ EventKind.van_unavailable)
    × (e.van_id ≡ item.target)
    × (e.from_time ≡ from)
    × IsEnd desk item.until e.until_time
    × (e.reason ≡ item.reason)
Says desk item from (Body.van_restored e) =
    (item.kind ≡ EventKind.van_restored)
    × (e.van_id ≡ item.target)
    × (e.window_start ≡ none)
    × (e.window_end ≡ none)
Says desk item from (Body.worker_unavailable e) =
    (item.kind ≡ EventKind.worker_unavailable)
    × (e.worker_id ≡ item.target)
    × (e.from_time ≡ from)
    × IsEnd desk item.until e.until_time
    × (e.reason ≡ item.reason)
Says desk item from (Body.worker_restored e) =
    (item.kind ≡ EventKind.worker_restored)
    × (e.worker_id ≡ item.target)
    × (e.window_start ≡ none)
    × (e.window_end ≡ none)
Says desk item from (Body.job_dispatched id) =
    (item.kind ≡ EventKind.job_dispatched) × (id ≡ item.target)
Says desk item from (Body.job_cancelled id reason) =
    (item.kind ≡ EventKind.job_cancelled) × (id ≡ item.target) × (reason ≡ item.reason)
Says desk item from (Body.job_overran id n) =
    (item.kind ≡ EventKind.job_overran) × (id ≡ item.target) × (item.minutes ≡ some (pos n))
Says desk item from (Body.job_completed id n) =
    (item.kind ≡ EventKind.job_completed) × (id ≡ item.target) × (item.minutes ≡ some (pos n))
Says desk item from (Body.traffic_delay e) =
    (item.kind ≡ EventKind.traffic_delay)
    × (item.multiplier ≡ some e.multiplier)
    × (e.from_time ≡ from)
    × IsEnd desk item.until e.until_time
    × (e.note ≡ item.reason)
Says desk item from _ = ⊥

-- The event has the id that was drawn for the item, is of the dispatch and of the time that the item
-- names, and says what the item says.
abbrev pub IsEventOf : Desk → ℕ → TriagedEvent → Event → Type 0
IsEventOf desk index item e =
    (e.event_id ≡ desk.fresh_id index)
    × (e.dispatch_id ≡ desk.dispatch_id)
    × IsTime desk item.clock e.occurred_at
    × (e.recorded_at ≡ e.occurred_at)
    × Says desk item e.occurred_at e.body

-- One event for each of the items, in their order.
abbrev pub AreEventsOf : Desk → ℕ → List TriagedEvent → List Event → Type 0
AreEventsOf desk index [] [] = Unit
AreEventsOf desk index [] (e ∷ es) = ⊥
AreEventsOf desk index (item ∷ items) [] = ⊥
AreEventsOf desk index (item ∷ items) (e ∷ es) =
    IsEventOf desk index item e × AreEventsOf desk (suc index) items es
