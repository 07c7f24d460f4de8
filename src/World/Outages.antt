-- ===== src/World/Outages.antt =====
-- Outages of a worker or a van, and how a restore cuts them (`Unavailability`, `_carve_outages`).
pub mod Laws
use glass_guru.Base.{
  String, Bool, true, false, not, Option, none, some, List, [], ◌∷◌, ◌++◌, ltb, leb, any, ◌&&◌,
  ◌||◌, if◌then◌else◌,
}
use glass_guru.Model.Units.{Moment}

pub record Unavailability : Type 0 where
  pub from_time : Moment
  pub until_time : Option Moment
  pub reason : String

-- Unavailability.covers
unfoldable pub covers : Unavailability → Moment → Moment → Bool
covers o start end =
    if leb end o.from_time
    then false
    else elim o.until_time [ none ↦ true | some until ↦ ltb start until ]

-- Is the optional moment there, and does it pass the test?
abbrev pub is_some_and : (Moment → Bool) → Option Moment → Bool
is_some_and p none = false
is_some_and p (some t) = p t

-- What one outage leaves when `[start, end)` is taken out of it: the loop's body.
unfoldable pub carve : Unavailability → Moment → Option Moment → List Unavailability
carve o start end =
    let before_window = is_some_and (λ until. leb until start) o.until_time in
    let after_window = is_some_and (λ e. leb e o.from_time) end in
    if before_window || after_window
    then o ∷ []
    else ((if ltb o.from_time start then record o { until_time = some start } ∷ [] else [])
        ++ elim end [
          | none ↦ []
          | some e ↦
              if not (is_some_and (λ until. leb until e) o.until_time)
              then record o { from_time = e } ∷ []
              else []
        ])

-- _carve_outages
unfoldable pub carve_outages : List Unavailability → Moment → Option Moment → List Unavailability
unfolding carve
carve_outages [] start end = []
carve_outages (o ∷ os) start end = carve o start end ++ carve_outages os start end
