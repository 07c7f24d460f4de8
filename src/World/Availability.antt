-- ===== src/World/Availability.antt =====
-- When a worker or a van can be scheduled, after outages and restores.
use text.Mathlib.TextPositions.{eq_refl}
use glass_guru.Base.{
  max, ◌≤◌, ◌<◌, String, ◌≡◌, ◌↔◌, refl, true, false, ◌||◌, Option, none, some, List, [], ◌∷◌, ◌++◌,
  string_eq, All, arith, Option-cases, Bool-cases, inl, inr,
}
use glass_guru.Dict.{Dict, get, has, get_or}
use glass_guru.Dict.Laws.{get-put}
use glass_guru.Model.Units.{Moment}
use glass_guru.Model.Entities.{WorkerId}
use glass_guru.Events.{WorkerRestored, VanRestored, worker_restored, van_restored}
use glass_guru.World.Outages.{Unavailability, covers, carve, carve_outages}
use glass_guru.World.Outages.Laws.{Out, IsProper, covers-no_moment, covers-moment}
use glass_guru.World.State.{WorldState}
use glass_guru.World.Apply.{restore, or_moment, apply_body}
use glass_guru.World.Queries.{is_out, is_worker_available, is_van_available}

-- The interval `[start, end)` lies in the window `[from, to)`.
abbrev pub Within : Moment → Option Moment → Moment → Moment → Type 0
Within from none start end = from ≤ start
Within from (some to) start end = (from ≤ start) × (end ≤ to)

is_out-append :
    (xs ys : List Unavailability) (start end : Moment)
    → is_out (xs ++ ys) start end ≡ (is_out xs start end || is_out ys start end)
unfolding is_out
is_out-append [] ys start end = refl
is_out-append (o ∷ xs) ys start end = ground (arith, is_out-append xs ys start end)

is_out-carve :
    (o : Unavailability) (from : Moment) (to : Option Moment) (start end : Moment)
    → Within from to start end
    → is_out (carve o from to) start end ≡ false
unfolding is_out carve covers
is_out-carve o from none start end h = ground arith
is_out-carve o from (some to) start end h = ground arith

is_out-carve_outages :
    (os : List Unavailability) (from : Moment) (to : Option Moment) (start end : Moment)
    → Within from to start end
    → is_out (carve_outages os from to) start end ≡ false
unfolding carve_outages
is_out-carve_outages [] from to start end h = unfold is_out in refl
is_out-carve_outages (o ∷ os) from to start end h =
    rw (
      is_out-append,
      is_out-carve o from to start end h,
      is_out-carve_outages os from to start end h,
    )

is_out-restore :
    (d : Dict String (List Unavailability)) (id : String) (from : Moment) (to : Option Moment)
    (start end : Moment)
    → Within from to start end
    → is_out (get_or (restore d id from to) id []) start end ≡ false
unfolding restore get_or
is_out-restore d id from to start end h = elim (Option-cases (get d id)) [
  | inl none_there ↦ rw (none_there, restore, none_there, get_or) (unfold is_out in refl)
  | inr (os, there) ↦
      rw (there, restore, get-put, eq_refl, get_or) (is_out-carve_outages os from to start end h)
]

-- A worker on the roster who is restored, for a window or from now on, is available for every
-- interval inside that window, whatever outages were recorded before.
pub restored_worker_available :
    (s : WorldState) (now : Moment) (e : WorkerRestored) (start end : Moment)
    → has s.workers e.worker_id ≡ true
    → Within (or_moment e.window_start now) e.window_end start end
    → is_worker_available (apply_body s now (worker_restored e)) e.worker_id start end ≡ true
unfolding is_worker_available apply_body
restored_worker_available s now e start end known h = rw (
  known,
  is_out-restore s.worker_outages e.worker_id (or_moment e.window_start now) e.window_end start end
      h,
)

-- A van of the fleet that is restored, for a window or from now on, is available for every interval
-- inside that window, whatever outages were recorded before.
pub restored_van_available :
    (s : WorldState) (now : Moment) (e : VanRestored) (start end : Moment)
    → has s.vans e.van_id ≡ true
    → Within (or_moment e.window_start now) e.window_end start end
    → is_van_available (apply_body s now (van_restored e)) e.van_id start end ≡ true
unfolding is_van_available apply_body
restored_van_available s now e start end known h = rw (
  known,
  is_out-restore s.van_outages e.van_id (or_moment e.window_start now) e.window_end start end h,
)

is_out-no_moment :
    (os : List Unavailability) (start end : Moment)
    → is_out os start end ≡ false
    → (t : Moment) → start ≤ t
    → t < end
    → ¬ Out os t
unfolding is_out
is_out-no_moment [] start end h t a b out = out
is_out-no_moment (o ∷ os) start end h t a b (inl here) =
    covers-no_moment o start end (ground arith) t a b here
is_out-no_moment (o ∷ os) start end h t a b (inr later) =
    is_out-no_moment os start end (ground arith) t a b later

is_out-moment :
    (os : List Unavailability) (start end : Moment)
    → start < end
    → All IsProper os
    → is_out os start end ≡ true
    → (t : Moment) × (start ≤ t) × (t < end) × Out os t
unfolding is_out
is_out-moment [] start end a b h = cc
is_out-moment (o ∷ os) start end a b h = elim (Bool-cases (covers o start end)) [
  | inl e ↦ let m = covers-moment o start end a b.0 e in (max start o.from_time, m.0, m.1, inl m.2)
  | inr e ↦ let m = is_out-moment os start end a b.1 (ground arith) in (m.0, m.1, m.2, inr m.3)
]

-- A worker is available for a stretch of time exactly when the worker is on the roster and no
-- recorded outage takes in any moment of it, for a stretch that ends after it begins and outages
-- that do so too.
pub available_iff_free :
    (s : WorldState) (id : WorkerId) (start end : Moment)
    → start < end
    → All IsProper (get_or s.worker_outages id [])
    → (is_worker_available s id start end ≡ true) ↔ (
        (has s.workers id ≡ true)
        × ((t : Moment) → start ≤ t → t < end → ¬ Out (get_or s.worker_outages id []) t))
unfolding is_worker_available
available_iff_free s id start end a proper =
    let os = get_or s.worker_outages id [] in
    elim (Bool-cases (is_out os start end)) [
      | inl out ↦
          let m = is_out-moment os start end a proper out in
          (λ h. absurd (ground (arith, out)), λ h. absurd (h.1 m.0 m.1 m.2 m.3))
      | inr clear ↦ (
        λ h. (ground arith, is_out-no_moment os start end clear),
        λ h. ground (arith, clear, h.0),
      )
    ]
