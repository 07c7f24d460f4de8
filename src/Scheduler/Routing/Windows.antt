-- ===== src/Scheduler/Routing/Windows.antt =====
-- The service begins at the first moment that a window allows.
use glass_guru.Base.{
  ◌≤◌, ◌≡◌, ◌⊎◌, ◌↔◌, ◌+◌, ◌||◌, not, leb, refl, ℕ, All-map, max, true, false, Option, none, some,
  List, [], ◌∷◌, All, Any, Option-cases, Bool-cases, inl, inr, arith, ltb,
}
use glass_guru.Model.Units.{Moment, minutes}
use glass_guru.Model.Enums.{WindowHardness, is_hard}
use glass_guru.Model.Entities.{TimeWindow}
use glass_guru.Model.Jobs.{Job}
use glass_guru.Scheduler.Routing.{fits, better, best_start, earliest_start}

-- The best start so far: one that some window gives, and no fitting one gives a sooner one.
abbrev IsBest : ℕ → Moment → Option Moment → List TimeWindow → Type 0
IsBest duration arrival none ws = All (λ w. fits duration arrival w ≡ false) ws
IsBest duration arrival (some t) ws =
    Any (λ w. (fits duration arrival w ≡ true) × (t ≡ max arrival w.start)) ws
    × All (λ w. fits duration arrival w ≡ true → t ≤ max arrival w.start) ws

-- With a bound from before the loop.
abbrev Improves : ℕ → Moment → Option Moment → Option Moment → List TimeWindow → Type 0
Improves duration arrival none o ws = IsBest duration arrival o ws
Improves duration arrival (some b) none ws = ⊥
Improves duration arrival (some b) (some t) ws =
    (t ≤ b)
    × ((t ≡ b) ⊎ Any (λ w. (fits duration arrival w ≡ true) × (t ≡ max arrival w.start)) ws)
    × All (λ w. fits duration arrival w ≡ true → t ≤ max arrival w.start) ws

module _ (d : ℕ) (a : Moment) (w : TimeWindow) (ws : List TimeWindow) where
  -- A window that the visit fits into is the first, or comes after a bound.
  Improves-first :
      (o : Option Moment)
      → fits d a w ≡ true
      → Improves d a (some (max a w.start)) o ws
      → IsBest d a o (w ∷ ws)
  Improves-first none f h = absurd h
  Improves-first (some t) f h =
      (elim h.1 [ inl e ↦ inl (f, e) | inr later ↦ inr later ], (λ g. h.0, h.2))

  IsBest-skip : (o : Option Moment) → fits d a w ≡ false → IsBest d a o ws → IsBest d a o (w ∷ ws)
  IsBest-skip none f h = (f, h)
  IsBest-skip (some t) f h = (inr h.0, (λ g. absurd (cc), h.1))

  Improves-lower :
      (b : Moment) (o : Option Moment)
      → fits d a w ≡ true
      → max a w.start ≤ b
      → Improves d a (some (max a w.start)) o ws
      → Improves d a (some b) o (w ∷ ws)
  Improves-lower b none f l h = h
  Improves-lower b (some t) f l h =
      (omega arith, inr (elim h.1 [ inl e ↦ inl (f, e) | inr later ↦ inr later ]), (λ g. h.0, h.2))

  Improves-keep :
      (b : Moment) (o : Option Moment)
      → (fits d a w ≡ true → b ≤ max a w.start)
      → Improves d a (some b) o ws
      → Improves d a (some b) o (w ∷ ws)
  Improves-keep b none f h = h
  Improves-keep b (some t) f h = (
    h.0,
    elim h.1 [ inl e ↦ inl e | inr later ↦ inr (inr later) ],
    (λ g. let bound = f g in omega arith, h.2),
  )

best_start-Improves :
    (duration : ℕ) (arrival : Moment) (b : Option Moment) (ws : List TimeWindow)
    → Improves duration arrival b (best_start duration arrival b ws) ws
unfolding best_start better
best_start-Improves d a none [] = tt
best_start-Improves d a (some b) [] = (omega arith, inl refl, tt)
best_start-Improves d a none (w ∷ ws) = elim (Bool-cases (fits d a w)) [
  | inl f ↦
      rw (f, best_start, better)
        (Improves-first d a w ws _ f (best_start-Improves d a (some (max a w.start)) ws))
  | inr f ↦ rw (f, best_start, better) (IsBest-skip d a w ws _ f (best_start-Improves d a none ws))
]
best_start-Improves d a (some b) (w ∷ ws) = elim (Bool-cases (fits d a w)) [
  | inl f ↦ elim (Bool-cases (ltb (max a w.start) b)) [
    | inl sooner ↦
        rw (f, sooner, best_start, better)
          (Improves-lower d a w ws b _ f (ground arith)
            (best_start-Improves d a (some (max a w.start)) ws))
    | inr later ↦
        rw (f, later, best_start, better)
          (Improves-keep d a w ws b _ (λ g. ground arith) (best_start-Improves d a (some b) ws))
  ]
  | inr f ↦
      rw (f, best_start, better)
        (Improves-keep d a w ws b _ (λ g. absurd (cc)) (best_start-Improves d a (some b) ws))
]

-- The visit can begin in the window: it is soft, or the visit is over by its end.
abbrev pub Allows : ℕ → Moment → TimeWindow → Type 0
Allows duration arrival w =
    (w.hardness ≡ WindowHardness.soft) ⊎ (max arrival w.start + minutes duration ≤ w.end)

fits-Allows :
    (duration : ℕ) (arrival : Moment) (w : TimeWindow)
    → (fits duration arrival w ≡ true) ↔ Allows duration arrival w
unfolding fits
fits-Allows duration arrival w = by_hardness w.hardness
  where
    by_hardness :
        (h : WindowHardness)
        → ((not (is_hard h) || leb (max arrival w.start + minutes duration) w.end) ≡ true)
          ↔ ((h ≡ WindowHardness.soft) ⊎ (max arrival w.start + minutes duration ≤ w.end))
    by_hardness WindowHardness.soft = (λ h. inl refl, λ h. refl)
    by_hardness WindowHardness.hard =
        (λ h. inr (ground arith), λ h. elim h [ inl e ↦ absurd (cc) | inr l ↦ ground arith ])

not_fits-Allows :
    (duration : ℕ) (arrival : Moment) (w : TimeWindow)
    → fits duration arrival w ≡ false
    → ¬ Allows duration arrival w
not_fits-Allows duration arrival w misfit can =
    let yes = (fits-Allows duration arrival w).1 can in absurd (cc)

-- It is the soonest moment that some window allows.
abbrev pub IsSoonest : ℕ → Moment → Moment → List TimeWindow → Type 0
IsSoonest duration arrival t ws =
    Any (λ w. Allows duration arrival w × (t ≡ max arrival w.start)) ws
    × All (λ w. Allows duration arrival w → t ≤ max arrival w.start) ws

IsBest-IsSoonest :
    (duration : ℕ) (arrival t : Moment) (ws : List TimeWindow)
    → IsBest duration arrival (some t) ws
    → IsSoonest duration arrival t ws
IsBest-IsSoonest d a t ws (starts, soonest) = (
  any_allows ws starts,
  All-map _ (λ w. Allows d a w → t ≤ max a w.start) (λ w h can. h ((fits-Allows d a w).1 can)) ws
      soonest,
)
  where
    any_allows :
        (vs : List TimeWindow)
        → Any (λ w. (fits d a w ≡ true) × (t ≡ max a w.start)) vs
        → Any (λ w. Allows d a w × (t ≡ max a w.start)) vs
    any_allows [] h = absurd h
    any_allows (w ∷ vs) (inl h) = inl ((fits-Allows d a w).0 h.0, h.1)
    any_allows (w ∷ vs) (inr h) = inr (any_allows vs h)

-- Service begins when the crew arrives, when no window allows it; else at the soonest moment at or after
-- both the arrival and the start of a window that allows it. A window allows a visit that is over by
-- its end, and a soft one any visit.
pub earliest_start_least :
    (j : Job) (arrival : Moment)
    → (All (λ w. ¬ Allows j.estimated_duration_min arrival w) j.windows
        × (earliest_start j arrival ≡ arrival))
      ⊎ IsSoonest j.estimated_duration_min arrival (earliest_start j arrival) j.windows
unfolding earliest_start
earliest_start_least j arrival =
    let d = j.estimated_duration_min in
    let best = best_start-Improves d arrival none j.windows in
    elim (Option-cases (best_start d arrival none j.windows)) [
      | inl none_fits ↦
          let none_allow =
            All-map _ (λ w. ¬ Allows d arrival w) (λ w h. not_fits-Allows d arrival w h) j.windows
              (rw none_fits at best) in
          inl (none_allow, rw (none_fits, earliest_start) refl)
      | inr (t, found) ↦ inr (
          IsBest-IsSoonest d arrival (earliest_start j arrival) j.windows
            (rw (found, earliest_start) (rw found at best)))
    ]
