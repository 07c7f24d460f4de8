-- ===== src/Scheduler/Travel/Cache/Replay.antt =====
-- `CachingTravelProvider` of src/krama/scheduler/travel/cache.py, frozen: the replay of a recorded run.
use glass_guru.Base.{
  suc, String, ◌≡◌, refl, sym, ◌∙◌, subst, none, some, List, [], ◌∷◌, map, All, string_eq, inl, inr,
}
use glass_guru.Model.Units.{Moment}
use glass_guru.Model.Entities.{Location, TravelLeg, TravelOracle}
use glass_guru.Scheduler.Travel.Buckets.{key_eq}
use glass_guru.Scheduler.Travel.Cache.{LegStore, MissPolicy, Cache, Query, cached_leg, cached_legs}
use glass_guru.Scheduler.Travel.Cache.Refines.{
  cached_legs-step, canonical, Holds, cached_legs-answered,
}

module _ (store : LegStore) (geohash7 : Location → String) (wall : Moment → Moment)
    (oracle : TravelOracle) where
  -- A known question is answered with no provider.
  replay_one :
      (c : Cache store.Legs) (q : Query) (leg : TravelLeg)
      → Holds store geohash7 wall oracle c.legs q leg
      → (after : Cache store.Legs) × (cached_leg store geohash7 wall none MissPolicy.error c q
          ≡ (some leg, after))
        × (after.legs ≡ c.legs)
        × (after.misses ≡ c.misses)
  unfolding cached_leg Holds
  replay_one c q leg (inl (here, e)) = (c, rw (here, e, cached_leg) refl, refl, refl)
  replay_one c q leg (inr (away, stored)) =
      (record c { hits = suc c.hits }, rw (away, stored, cached_leg) refl, refl, refl)

  replay_all :
      (f : Query → TravelLeg) (c : Cache store.Legs) (qs : List Query)
      → All (λ q. Holds store geohash7 wall oracle c.legs q (f q)) qs
      → (after : Cache store.Legs) × (cached_legs store geohash7 wall none MissPolicy.error c qs
          ≡ (some (map f qs), after))
        × (after.legs ≡ c.legs)
        × (after.misses ≡ c.misses)
  unfolding cached_legs
  replay_all f c [] h = (c, refl, refl, refl)
  replay_all f c (q ∷ qs) h =
      let (next, one, same_legs, same_misses) = replay_one c q (f q) h.0 in
      let (after, rest, legs, misses) = replay_all f next qs (
        subst (λ s. All (λ p. Holds store geohash7 wall oracle s p (f p)) qs) (sym same_legs)
          h.1) in
      (
        after,
        cached_legs-step store geohash7 wall none MissPolicy.error c next after q qs (f q)
            (map f qs) one rest,
        legs ∙ same_legs,
        misses ∙ same_misses,
      )

  -- Questions that were answered once, by any provider and from any store, are answered in the same
  -- way from the store that this left, frozen and with no provider at hand: no leg is missing, and
  -- nothing is stored.
  pub recorded_run_replays :
      (c : Cache store.Legs) (qs : List Query)
      → (legs : List TravelLeg) × (after : Cache store.Legs) × (replayed : Cache store.Legs)
        × (cached_legs store geohash7 wall (some oracle) MissPolicy.compute c qs
            ≡ (some legs, after))
        × (cached_legs store geohash7 wall none MissPolicy.error after qs ≡ (some legs, replayed))
        × (replayed.misses ≡ after.misses)
        × (replayed.legs ≡ after.legs)
  recorded_run_replays c qs =
      let (after, run, known, more) = cached_legs-answered store geohash7 wall oracle c qs in
      let (replayed, again, legs, misses) =
        replay_all (canonical store geohash7 wall oracle c.legs qs) after qs known in
      (
        map (canonical store geohash7 wall oracle c.legs qs) qs,
        after,
        replayed,
        run,
        again,
        misses,
        legs,
      )
