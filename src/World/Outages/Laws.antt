-- ===== src/World/Outages/Laws.antt =====
-- What a restore does to the time that an outage covers.
use glass_guru.Base.{
  max, ◌≤◌, ◌<◌, ◌≡◌, ◌↔◌, ◌⊎◌, inl, inr, true, false, Option, none, some, List, [], ◌∷◌, ◌++◌,
  arith,
}
use glass_guru.Model.Units.{Moment}
use glass_guru.World.Outages.{Unavailability, covers, carve, carve_outages}

-- The moment lies inside the outage, `from_time <= t < until_time`.
abbrev pub Inside : Unavailability → Moment → Type 0
Inside o t = (o.from_time ≤ t) × (elim o.until_time [ none ↦ Unit | some until ↦ t < until ])

-- Some outage of the list takes in the moment.
abbrev pub Out : List Unavailability → Moment → Type 0
Out [] t = ⊥
Out (o ∷ os) t = Inside o t ⊎ Out os t

-- The moment lies in the window `[start, end)`, which may have no end.
abbrev pub InWindow : Moment → Option Moment → Moment → Type 0
InWindow start none t = start ≤ t
InWindow start (some end) t = (start ≤ t) × (t < end)

Out-append : (xs ys : List Unavailability) (t : Moment) → Out (xs ++ ys) t ↔ (Out xs t ⊎ Out ys t)
Out-append [] ys t = (λ h. inr h, λ h. elim h [ inl v ↦ absurd v | inr k ↦ k ])
Out-append (o ∷ xs) ys t = ground (arith, Out-append xs ys t)

Out-carve :
    (o : Unavailability) (start : Moment) (end : Option Moment) (t : Moment)
    → Out (carve o start end) t ↔ (Inside o t × ¬ InWindow start end t)
unfolding carve
Out-carve o start none t = ground arith
Out-carve o start (some e) t = ground arith

-- Taking a window out of the outages leaves exactly the moments that an outage covered and that lie
-- outside the window, whichever outages are cut, trimmed or split.
pub Out-carve_outages :
    (os : List Unavailability) (start : Moment) (end : Option Moment) (t : Moment)
    → Out (carve_outages os start end) t ↔ (Out os t × ¬ InWindow start end t)
unfolding carve_outages
Out-carve_outages [] start end t = (λ h. absurd h, λ h. h.0)
Out-carve_outages (o ∷ os) start end t = ground (
  arith,
  Out-append (carve o start end) (carve_outages os start end) t,
  Out-carve o start end t,
  Out-carve_outages os start end t,
)

-- The outage is not over before it begins.
abbrev pub IsProper : Unavailability → Type 0
IsProper o = elim o.until_time [ none ↦ Unit | some until ↦ o.from_time < until ]

-- The test on an interval finds an outage exactly when some moment of the interval lies in it.
pub covers-no_moment :
    (o : Unavailability) (start end : Moment)
    → covers o start end ≡ false
    → (t : Moment) → start ≤ t
    → t < end
    → ¬ Inside o t
unfolding covers
covers-no_moment o start end h t a b = ground arith

pub covers-moment :
    (o : Unavailability) (start end : Moment)
    → start < end
    → IsProper o
    → covers o start end ≡ true
    → (start ≤ max start o.from_time)
      × (max start o.from_time < end)
      × Inside o (max start o.from_time)
unfolding covers
covers-moment o start end a b h = ground arith
