-- ===== src/Agents/Triage/Built.antt =====
-- What is built of an item that names something on record.
use glass_guru.Base.{
  ℕ, zero, suc, String, ◌≡◌, true, Option, none, some, Option-cases, Bool-cases, inl, inr,
  string_eq, nat_eq, ◌==◌,
}
use glass_guru.Dict.{has}
use glass_guru.Model.Units.Int.{ℤ, pos, negsuc}
use glass_guru.World.State.{WorldState}
use glass_guru.Events.{Event, Body}
use glass_guru.Agents.Events.{
  EventKind, Made, Arguments, envelope, build_event, build_body, require, positive, positive_ratio,
}
use glass_guru.Agents.Triage.{known_target}

-- The van, worker or job that the event names is on record.
abbrev pub IsOnRecord : WorldState → Body → Type 0
IsOnRecord world (Body.van_unavailable e) = has world.vans e.van_id ≡ true
IsOnRecord world (Body.van_restored e) = has world.vans e.van_id ≡ true
IsOnRecord world (Body.worker_unavailable e) = has world.workers e.worker_id ≡ true
IsOnRecord world (Body.worker_restored e) = has world.workers e.worker_id ≡ true
IsOnRecord world (Body.job_dispatched id) = has world.jobs id ≡ true
IsOnRecord world (Body.job_cancelled id reason) = has world.jobs id ≡ true
IsOnRecord world (Body.job_overran id n) = has world.jobs id ≡ true
IsOnRecord world (Body.job_completed id n) = has world.jobs id ≡ true
IsOnRecord world _ = Unit

-- What is built, if anything is, is on record.
abbrev pub IsGrounded : WorldState → Made Body → Type 0
IsGrounded world (Made.made body) = IsOnRecord world body
IsGrounded world (Made.refused e) = Unit

minutes-IsGrounded :
    (world : WorldState) (minutes : Option ℤ) (name : String) (body : ℕ → Body)
    → ((n : ℕ) → IsOnRecord world (body n))
    → IsGrounded world
        (require minutes "--minutes" (λ m. positive m name (λ n. Made.made (body n))))
unfolding require positive
minutes-IsGrounded world none name body h = tt
minutes-IsGrounded world (some (pos zero)) name body h = tt
minutes-IsGrounded world (some (pos (suc n))) name body h = h (suc n)
minutes-IsGrounded world (some (negsuc n)) name body h = tt

delay-IsGrounded :
    (world : WorldState) (target : Option String) (args : Arguments)
    → IsGrounded world (build_body EventKind.traffic_delay target args)
unfolding build_body require positive_ratio
delay-IsGrounded world target args = elim (Option-cases args.multiplier) [
  | inl absent ↦ rw (absent, build_body, require) tt
  | inr (r, there) ↦ elim (Bool-cases (r.num == 0)) [
    | inl zero_rate ↦ rw (there, build_body, require) (rw (zero_rate, positive_ratio) tt)
    | inr fine ↦ rw (there, build_body, require) (rw (fine, positive_ratio) tt)
  ]
]

pub build_body-IsGrounded :
    (world : WorldState) (kind : EventKind) (target : String) (args : Arguments)
    → known_target world kind target ≡ true
    → IsGrounded world (build_body kind (some target) args)
unfolding build_body known_target require
build_body-IsGrounded world EventKind.van_unavailable target args h = h
build_body-IsGrounded world EventKind.van_restored target args h = h
build_body-IsGrounded world EventKind.worker_unavailable target args h = h
build_body-IsGrounded world EventKind.worker_restored target args h = h
build_body-IsGrounded world EventKind.job_dispatched target args h = h
build_body-IsGrounded world EventKind.job_cancelled target args h = h
build_body-IsGrounded world EventKind.job_overran target args h =
    minutes-IsGrounded world args.minutes "extra_minutes" (Body.job_overran target) (λ n. h)
build_body-IsGrounded world EventKind.job_completed target args h =
    minutes-IsGrounded world args.minutes "actual_duration_min" (Body.job_completed target) (λ n. h)
build_body-IsGrounded world EventKind.traffic_delay target args h =
    delay-IsGrounded world (some target) args

pub unnamed-IsGrounded :
    (world : WorldState) (kind : EventKind) (args : Arguments)
    → IsGrounded world (build_body kind none args)
unfolding build_body require
unnamed-IsGrounded world EventKind.van_unavailable args = tt
unnamed-IsGrounded world EventKind.van_restored args = tt
unnamed-IsGrounded world EventKind.worker_unavailable args = tt
unnamed-IsGrounded world EventKind.worker_restored args = tt
unnamed-IsGrounded world EventKind.job_dispatched args = tt
unnamed-IsGrounded world EventKind.job_cancelled args = tt
unnamed-IsGrounded world EventKind.job_overran args = tt
unnamed-IsGrounded world EventKind.job_completed args = tt
unnamed-IsGrounded world EventKind.traffic_delay args = delay-IsGrounded world none args

abbrev pub IsFair : WorldState → Made Event → Type 0
IsFair world (Made.made e) = IsOnRecord world e.body
IsFair world (Made.refused e) = Unit

pub build_event-IsFair :
    (world : WorldState) (event_id dispatch_id : String) (kind : EventKind) (target : Option String)
    (args : Arguments)
    → IsGrounded world (build_body kind target args)
    → IsFair world (build_event event_id dispatch_id kind target args)
unfolding build_event
build_event-IsFair world event_id dispatch_id kind target args = go (build_body kind target args)
  where
    go :
        (m : Made Body)
        → IsGrounded world m
        → IsFair world (elim m [
          | Made.refused e ↦ Made.refused e
          | Made.made body ↦
              Made.made (record { base = envelope event_id args.at_time dispatch_id; body = body })
        ])
    go (Made.made body) g = g
    go (Made.refused e) g = tt
