-- ===== src/World/Fold/Replay.antt =====
-- Which events a fold depends on: neither the order in which they come, nor later ones.
use mathlib.Core.List.{Permᴰ}
use glass_guru.Base.{
  ◌≡◌, refl, Bool, true, false, Option, none, some, List, [], ◌∷◌, leb, select, length, Member,
  arith, nat_eq,
}
use glass_guru.Base.Sort.{sorted, sorted-perm}
use glass_guru.Base.Sort.Laws.{select-sorted}
use glass_guru.Base.Text.{text_leb_total, text_leb_trans, text_leb_antisymm}
use glass_guru.Model.Units.{Moment}
use glass_guru.Events.{Event}
use glass_guru.World.State.{WorldState, empty_world}
use glass_guru.World.Fold.{event_leb, apply_all, fold}

event_leb-total : (a b : Event) → event_leb a b ≡ false → event_leb b a ≡ true
unfolding event_leb
event_leb-total a b h = ground (arith, text_leb_total a.event_id b.event_id)

event_leb_trans :
    (a b c : Event) → event_leb a b ≡ true → event_leb b c ≡ true → event_leb a c ≡ true
unfolding event_leb
event_leb_trans a b c h k = ground (arith, text_leb_trans a.event_id b.event_id c.event_id)

event_leb-same_id :
    (a b : Event) → event_leb a b ≡ true → event_leb b a ≡ true → a.event_id ≡ b.event_id
unfolding event_leb
event_leb-same_id a b h k = ground (arith, text_leb_antisymm a.event_id b.event_id)

-- Two events of the log with one id are one event.
abbrev pub HasUniqueIds : List Event → Type 0
HasUniqueIds events =
    (a b : Event) → Member a events → Member b events → a.event_id ≡ b.event_id → a ≡ b

-- The order in which a log's events are handed over does not change the world they fold to, at any
-- moment, if their ids tell them apart.
pub fold-perm :
    {xs ys : List Event} (as_of : Option Moment)
    → Permᴰ xs ys
    → HasUniqueIds xs
    → fold xs as_of ≡ fold ys as_of
unfolding fold
fold-perm {xs} {ys} as_of p unique =
    let same : sorted event_leb xs ≡ sorted event_leb ys =
      sorted-perm event_leb event_leb-total event_leb_trans p
        (λ a b m n h k. unique a b m n (event_leb-same_id a b h k)) in
    known_case as_of same
  where
    known_case :
        (o : Option Moment) → sorted event_leb xs ≡ sorted event_leb ys → fold xs o ≡ fold ys o
    known_case none same = rw same
    known_case (some t) same = rw same

-- The world that events one after another lead to, at a moment.
abbrev pub replayed : List Event → Moment → WorldState
replayed ordered t = record (apply_all (empty_world t) ordered) {
  applied_event_count = length ordered;
}

-- Later events can be left out of the log.
pub fold-select :
    (events : List Event) (t : Moment)
    → fold events (some t) ≡ fold (select (λ e. leb e.recorded_at t) events) (some t)
unfolding fold
fold-select events t =
    let recorded : Event → Bool = λ e. leb e.recorded_at t in
    rw (
      select-sorted event_leb event_leb-total event_leb_trans recorded events,
      select-sorted event_leb event_leb-total event_leb_trans recorded (select recorded events),
      select-select recorded events,
    )
  where
    select-select : (p : Event → Bool) (xs : List Event) → select p (select p xs) ≡ select p xs
    select-select p [] = refl
    select-select p (x ∷ xs) = ground (arith, select-select p xs)
