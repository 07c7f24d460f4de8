-- ===== src/Scheduler/Travel/Cache.antt =====
-- `CachingTravelProvider` and its stores (src/krama/scheduler/travel/cache.py).
pub mod Refines
pub mod Replay
use glass_guru.Base.{
  ℕ, suc, ◌+◌, String, Bool, true, false, ◌||◌, ◌≡◌, Option, none, some, List, [], ◌∷◌, ◌==◌,
  string_eq, if◌then◌else◌,
}
use glass_guru.Dict.{Dict, get, put}
use glass_guru.Dict.Laws.{get-put}
use glass_guru.Model.Units.{Moment}
use glass_guru.Model.Entities.{Location, TravelLeg, TravelOracle}
use glass_guru.Scheduler.Travel.Buckets.{LegKey, key_eq, build}

-- LegStore: what the provider needs of a store, and may rely on.
pub record LegStore : Type 1 where
  pub Legs : Type 0
  pub look_up : Legs → LegKey → Option TravelLeg
  pub remember : Legs → LegKey → TravelLeg → Legs
  pub look_up-remember :
      (s : Legs) (k l : LegKey) (leg : TravelLeg)
      → look_up (remember s k leg) l ≡ (if k == l then some leg else look_up s l)

-- MemoryLegStore
abbrev pub memory_leg_store : LegStore
memory_leg_store = record {
  Legs = Dict LegKey TravelLeg;
  look_up = get;
  remember = put;
  look_up-remember = λ s k l leg. get-put s k l leg;
}

-- JsonLegStore, between its construction and a flush
pub record JsonLegs : Type 0 where
  pub legs : Dict LegKey TravelLeg
  pub dirty : Bool

abbrev pub json_leg_store : LegStore
json_leg_store = record {
  Legs = JsonLegs;
  look_up = λ s k. get s.legs k;
  remember = λ s k leg. record { legs = put s.legs k leg; dirty = true };
  look_up-remember = λ s k l leg. get-put s.legs k l leg;
}

pub data MissPolicy : Type 0 where
  compute error : MissPolicy

-- The provider's state: the store's legs and `CacheStats`.
pub record Cache (Legs : Type 0) : Type 0 where
  pub legs : Legs
  pub hits : ℕ
  pub misses : ℕ

-- A question to the provider.
pub record Query : Type 0 where
  pub origin : Location
  pub dest : Location
  pub depart_at : Moment

abbrev pub no_drive : TravelLeg
no_drive = record { minutes = 0; miles = 0 }

-- CachingTravelProvider.__init__: `none` is the `ValueError`
unfoldable pub checked_policy : Option TravelOracle → MissPolicy → Option MissPolicy
checked_policy none MissPolicy.compute = none
checked_policy inner on_miss = some on_miss

-- the leg before those that come of the rest of a row
unfoldable pub add_leg :
    {Legs : Type 0}
    → TravelLeg
    → Option (List TravelLeg) × Cache Legs
    → Option (List TravelLeg) × Cache Legs
add_leg leg (none, c) = (none, c)
add_leg leg (some legs, c) = (some (leg ∷ legs), c)

unfoldable pub then_rest :
    {Legs : Type 0}
    → (Cache Legs → Option (List TravelLeg) × Cache Legs)
    → Option TravelLeg × Cache Legs
    → Option (List TravelLeg) × Cache Legs
unfolding add_leg
then_rest rest (none, c) = (none, c)
then_rest rest (some leg, c) = add_leg leg (rest c)

module _ (store : LegStore) (geohash7 : Location → String) (wall : Moment → Moment)
    (inner : Option TravelOracle) (on_miss : MissPolicy) where
  open store use {Legs, look_up, remember}

  -- what follows a miss; `none` is the `CacheMiss`
  unfoldable pub on_absent : Cache Legs → LegKey → Query → Option TravelLeg × Cache Legs
  on_absent c key q =
      let missed = record c { misses = suc c.misses } in
      elim on_miss as (λ _. Option TravelLeg × Cache Legs) [
        | MissPolicy.error ↦ (none, missed)
        | MissPolicy.compute ↦ elim inner as (λ _. Option TravelLeg × Cache Legs) [
          | none ↦ (none, missed)
          | some oracle ↦
              let computed = oracle.leg q.origin q.dest q.depart_at in
              (some computed, record missed { legs = remember c.legs key computed })
        ]
      ]

  -- CachingTravelProvider.leg
  unfoldable pub cached_leg : Cache Legs → Query → Option TravelLeg × Cache Legs
  unfolding on_absent build
  cached_leg c q =
      let key = build geohash7 wall q.origin q.dest q.depart_at in
      let stored = elim (look_up c.legs key) as (λ _. Option TravelLeg × Cache Legs) [
        | some leg ↦ (some leg, record c { hits = suc c.hits })
        | none ↦ on_absent c key q
      ] in
      if key.origin == key.dest then (some no_drive, c) else stored

  -- a row of CachingTravelProvider.matrix, and its rows after one another; a `CacheMiss` ends it
  unfoldable pub cached_legs : Cache Legs → List Query → Option (List TravelLeg) × Cache Legs
  unfolding cached_leg then_rest
  cached_legs c [] = (some [], c)
  cached_legs c (q ∷ qs) = then_rest (λ after. cached_legs after qs) (cached_leg c q)
