-- ===== src/Scheduler/Routing/Departure.antt =====
-- `_depart_and_arrive` of src/krama/scheduler/routing.py: when a crew leaves and how the drive is priced.
use glass_guru.Base.{
  ℕ, suc, ◌+◌, ◌-◌, ◌≤◌, ◌<◌, ◌≡◌, ◌≢◌, ◌⊎◌, refl, false, Bool-cases, leb, ◌==◌, nat_eq, max, true,
  List, [], ◌∷◌, Any, inl, inr, arith, ap, string_eq,
}
use glass_guru.Model.Units.{Moment, minutes}
use glass_guru.Model.Entities.{Location, TimeWindow, TravelLeg, TravelOracle}
use glass_guru.Model.Jobs.{Job}
use glass_guru.Scheduler.Routing.Windows.{earliest_start_least}
use glass_guru.Scheduler.Routing.{earliest_start, settle_departure, depart_and_arrive}

none_before :
    (P : TimeWindow → Type 0) (arrival t : Moment) (ws : List TimeWindow)
    → Any (λ w. P w × (t ≡ max arrival w.start)) ws
    → arrival ≤ t
none_before P arrival t [] h = absurd h
none_before P arrival t (w ∷ ws) (inl h) = let e = h.1 in omega arith
none_before P arrival t (w ∷ ws) (inr h) = none_before P arrival t ws h

-- Waiting never makes a crew early.
pub earliest_start-later : (j : Job) (arrival : Moment) → arrival ≤ earliest_start j arrival
earliest_start-later j arrival = elim (earliest_start_least j arrival) [
  | inl (none_fit, e) ↦ omega arith
  | inr (starts, soonest) ↦ none_before _ arrival (earliest_start j arrival) j.windows starts
]

module _ (travel : TravelOracle) where
  -- From the moment that the crew is ready until a job can begin, the drive to it gets no longer, and it
  -- changes at most once.
  abbrev pub Eases : Location → Location → Moment → Moment → Type 0
  Eases origin dest ready_at target =
      ((t u : Moment)
        → ready_at ≤ t
        → t ≤ u
        → u ≤ target
        → (travel.leg origin dest u).minutes ≤ (travel.leg origin dest t).minutes)
      × ((t : Moment)
          → ready_at ≤ t
          → t ≤ target
          → ((travel.leg origin dest t).minutes ≡ (travel.leg origin dest ready_at).minutes)
            ⊎ ((travel.leg origin dest t).minutes ≡ (travel.leg origin dest target).minutes))

  -- The job can begin as soon as a crew that leaves at once arrives, or else the drive to it eases until
  -- it can.
  abbrev pub SettlesFrom : Location → Job → Moment → Type 0
  SettlesFrom origin j ready_at =
      let naive = ready_at + minutes (travel.leg origin j.location ready_at).minutes in
      (earliest_start j naive ≤ naive) ⊎ Eases origin j.location ready_at (earliest_start j naive)

  -- The leg is the one of the moment at which the crew leaves to arrive when it does, and it is ready by
  -- then.
  abbrev pub IsPriced : Location → Location → Moment → TravelLeg × Moment → Type 0
  IsPriced origin dest ready_at (leg, arrival) =
      (ready_at + minutes leg.minutes ≤ arrival)
      × (travel.leg origin dest (arrival - minutes leg.minutes) ≡ leg)

  IsPriced-at :
      (origin dest : Location) (ready_at depart target : Moment)
      → ready_at ≤ depart
      → target ≡ depart + minutes (travel.leg origin dest depart).minutes
      → IsPriced origin dest ready_at (travel.leg origin dest depart, target)
  IsPriced-at origin dest ready_at depart target l e =
      let back : target - minutes (travel.leg origin dest depart).minutes ≡ depart = omega arith in
      (omega arith, ap (travel.leg origin dest) back)

  -- A try that is a fixed point.
  settle-fixed :
      (origin dest : Location) (ready_at target : Moment) (leg : TravelLeg) (n : ℕ)
      (depart : Moment)
      → ready_at < depart
      → target - minutes (travel.leg origin dest depart).minutes ≡ depart
      → settle_departure travel origin dest ready_at target leg (suc n) depart
        ≡ (travel.leg origin dest depart, target)
  unfolding settle_departure
  settle-fixed origin dest ready_at target leg n depart l e =
      let late : leb depart ready_at ≡ false = ground arith in
      let same : ((target - minutes (travel.leg origin dest depart).minutes) == depart) ≡ true =
        ground arith in
      rw (late, same, settle_departure) refl

  -- A try that is none.
  settle-next :
      (origin dest : Location) (ready_at target : Moment) (leg : TravelLeg) (n : ℕ)
      (depart : Moment)
      → ready_at < depart
      → ((target - minutes (travel.leg origin dest depart).minutes) == depart) ≡ false
      → settle_departure travel origin dest ready_at target leg (suc n) depart
        ≡ settle_departure travel origin dest ready_at target leg n
            (target - minutes (travel.leg origin dest depart).minutes)
  unfolding settle_departure
  settle-next origin dest ready_at target leg n depart l other =
      let late : leb depart ready_at ≡ false = ground arith in
      rw (late, other, settle_departure) refl

  settle-IsPriced :
      (origin dest : Location) (ready_at target : Moment)
      → ready_at + minutes (travel.leg origin dest ready_at).minutes < target
      → Eases origin dest ready_at target
      → IsPriced origin dest ready_at (
          settle_departure travel origin dest ready_at target
            (travel.leg origin dest ready_at)
            3
            (target - minutes (travel.leg origin dest ready_at).minutes))
  settle-IsPriced origin dest ready_at target wait (shorter, once) =
      let leg = travel.leg origin dest ready_at in
      let first = target - minutes leg.minutes in
      let second = target - minutes (travel.leg origin dest first).minutes in
      let not_longer = shorter ready_at first (omega arith) (omega arith) (omega arith) in
      let not_longer_yet = shorter first second (omega arith) (omega arith) (omega arith) in
      let at_last = shorter second target (omega arith) (omega arith) (omega arith) in
      elim (Bool-cases (second == first)) [
        | inl same ↦
            let is_first : second ≡ first = ground arith in
            rw (settle-fixed origin dest ready_at target leg 2 first (omega arith) is_first)
              (IsPriced-at origin dest ready_at first target (omega arith) (omega arith))
        | inr other ↦
            let changed : (travel.leg origin dest first).minutes ≢ leg.minutes =
              λ e. let is_first : second ≡ first = omega (arith, e) in absurd (ground arith) in
            let is_last : (travel.leg origin dest first).minutes
                ≡ (travel.leg origin dest target).minutes =
              elim (once first (omega arith) (omega arith)) [
                | inl e ↦ absurd (changed e)
                | inr e ↦ e
              ] in
            let settled : target - minutes (travel.leg origin dest second).minutes ≡ second =
              omega arith in
            rw (settle-next origin dest ready_at target leg 2 first (omega arith) other) (
              rw (settle-fixed origin dest ready_at target leg 1 second (omega arith) settled)
                (IsPriced-at origin dest ready_at second target (omega arith) (omega arith)))
      ]

  -- The drive of a visit is priced at its own departure.
  pub arrive-IsPriced :
      (origin : Location) (j : Job) (ready_at : Moment)
      → SettlesFrom origin j ready_at
      → IsPriced origin j.location ready_at (depart_and_arrive travel origin j ready_at)
  unfolding depart_and_arrive
  arrive-IsPriced origin j ready_at settles =
      let leg = travel.leg origin j.location ready_at in
      let naive = ready_at + minutes leg.minutes in
      let target = earliest_start j naive in
      let later = earliest_start-later j naive in
      elim (Bool-cases (leb target naive)) [
        | inl at_once ↦
            rw (at_once, depart_and_arrive)
              (IsPriced-at origin j.location ready_at ready_at target (omega arith) (ground arith))
        | inr waits ↦
            rw (waits, depart_and_arrive)
              (elim settles [
                | inl soon ↦ absurd (ground arith)
                | inr eases ↦ settle-IsPriced origin j.location ready_at target (ground arith) eases
              ])
      ]
