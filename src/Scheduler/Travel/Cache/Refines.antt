-- ===== src/Scheduler/Travel/Cache/Refines.antt =====
-- `CachingTravelProvider` of src/krama/scheduler/travel/cache.py against the provider that it wraps.
use glass_guru.Base.{
  suc, Bool, String, true, false, ◌≡◌, ◌⊎◌, refl, sym, ap, ◌∙◌, subst, Option, none, some, List, [],
  ◌∷◌, map, All, ◌==◌, string_eq, Bool-cases, Option-cases, inl, inr, beq_self, if◌then◌else◌,
}
use mathlib.Core.Path.{fun_ext}
use glass_guru.Model.Units.{Moment}
use glass_guru.Model.Entities.{Location, TravelLeg, TravelOracle}
use glass_guru.Scheduler.Travel.Buckets.{LegKey, key_eq, key_beq_iff, build}
use glass_guru.Scheduler.Travel.Cache.{
  LegStore, MissPolicy, Cache, Query, no_drive, on_absent, cached_leg, cached_legs, add_leg,
  then_rest,
}

-- One answer and those to the questions after it.
pub cached_legs-step :
    (store : LegStore) (geohash7 : Location → String) (wall : Moment → Moment)
    (inner : Option TravelOracle) (on_miss : MissPolicy) (c next after : Cache store.Legs)
    (q : Query) (qs : List Query) (leg : TravelLeg) (legs : List TravelLeg)
    → cached_leg store geohash7 wall inner on_miss c q ≡ (some leg, next)
    → cached_legs store geohash7 wall inner on_miss next qs ≡ (some legs, after)
    → cached_legs store geohash7 wall inner on_miss c (q ∷ qs) ≡ (some (leg ∷ legs), after)
unfolding cached_legs then_rest add_leg
cached_legs-step store geohash7 wall inner on_miss c next after q qs leg legs one rest =
    ap (then_rest (λ d. cached_legs store geohash7 wall inner on_miss d qs)) one
    ∙ ap (add_leg leg) rest

module _ (store : LegStore) (geohash7 : Location → String) (wall : Moment → Moment)
    (oracle : TravelOracle) where
  open store use {Legs, look_up, remember, look_up-remember}

  abbrev pub key_of : Query → LegKey
  key_of q = build geohash7 wall q.origin q.dest q.depart_at

  abbrev pub ask : Query → TravelLeg
  ask q = oracle.leg q.origin q.dest q.depart_at

  abbrev pub is_hop : Query → Bool
  is_hop q = (key_of q).origin == (key_of q).dest

  -- The first question of that key, or the question itself.
  abbrev pub first_alike : List Query → Query → Query
  first_alike [] p = p
  first_alike (q ∷ qs) p = if key_of q == key_of p then q else first_alike qs p

  -- The answer to a question when the provider is asked another one of its key: a hop inside one cell is
  -- no drive, a leg that is stored is that one, and any other is what the provider says.
  abbrev pub answer_as : Legs → Query → Query → TravelLeg
  answer_as s p asked =
      if is_hop p
      then no_drive
      else elim (look_up s (key_of p)) [ some leg ↦ leg | none ↦ ask asked ]

  -- The answer to one of the questions: the provider is asked the first of them that has its key.
  abbrev pub canonical : Legs → List Query → Query → TravelLeg
  canonical s qs p = answer_as s p (first_alike qs p)

  -- The answer stands in the store, or is that to a hop.
  abbrev pub Holds : Legs → Query → TravelLeg → Type 0
  Holds s q leg =
      ((is_hop q ≡ true) × (leg ≡ no_drive))
      ⊎ ((is_hop q ≡ false) × (look_up s (key_of q) ≡ some leg))

  -- What was known stays so.
  abbrev pub Grows : Legs → Legs → Type 0
  Grows s t = (p : Query) (leg : TravelLeg) → Holds s p leg → Holds t p leg

  -- One question: what is answered is known from then on, and the questions that follow it have the
  -- answers that they would have after it.
  Answered : Cache Legs → Query → Type 0
  Answered c q =
      (after : Cache Legs) × (cached_leg store geohash7 wall (some oracle) MissPolicy.compute c q
        ≡ (some (canonical c.legs (q ∷ []) q), after))
      × Holds after.legs q (canonical c.legs (q ∷ []) q)
      × Grows c.legs after.legs
      × ((qs : List Query) (p : Query) → canonical after.legs qs p ≡ canonical c.legs (q ∷ qs) p)

  same_hop : (p q : Query) → key_of p ≡ key_of q → is_hop p ≡ is_hop q
  same_hop p q e = ap (λ (k : LegKey). k.origin == k.dest) e

  same_key : (p q : Query) → (key_of p == key_of q) ≡ true → key_of p ≡ key_of q
  same_key p q h = (key_beq_iff (key_of p) (key_of q)).0 h

  -- A question of another key has no part in the answer.
  canonical-skip :
      (s : Legs) (q p : Query) (qs : List Query)
      → (key_of q == key_of p) ≡ false
      → canonical s qs p ≡ canonical s (q ∷ qs) p
  canonical-skip s q p qs other = ap (answer_as s p) (rw other refl)

  canonical-stored :
      (s : Legs) (qs : List Query) (p : Query) (leg : TravelLeg)
      → is_hop p ≡ false
      → look_up s (key_of p) ≡ some leg
      → canonical s qs p ≡ leg
  canonical-stored s qs p leg away stored = rw (away, stored) refl

  canonical-first :
      (s : Legs) (q p : Query) (qs : List Query)
      → is_hop p ≡ false
      → look_up s (key_of p) ≡ none
      → (key_of q == key_of p) ≡ true
      → canonical s (q ∷ qs) p ≡ ask q
  canonical-first s q p qs away absent same = rw (away, absent, same) refl

  canonical-hop :
      (s : Legs) (qs : List Query) (p : Query) → is_hop p ≡ true → canonical s qs p ≡ no_drive
  canonical-hop s qs p here = rw here refl

  -- A question after which the store is what it was.
  canonical-kept :
      (s : Legs) (q p : Query) (qs : List Query)
      → (is_hop q ≡ true)
        ⊎ ((is_hop q ≡ false) × ((leg : TravelLeg) × (look_up s (key_of q) ≡ some leg)))
      → canonical s qs p ≡ canonical s (q ∷ qs) p
  canonical-kept s q p qs known = elim (Bool-cases (key_of q == key_of p)) [
    | inr other ↦ canonical-skip s q p qs other
    | inl same ↦
        let e = same_key q p same in
        elim known [
          | inl here ↦
              let hop = sym (same_hop q p e) ∙ here in
              canonical-hop s qs p hop ∙ sym (canonical-hop s (q ∷ qs) p hop)
          | inr (away, (leg, stored)) ↦
              let off = sym (same_hop q p e) ∙ away in
              let there = ap (look_up s) (sym e) ∙ stored in
              canonical-stored s qs p leg off there
              ∙ sym (canonical-stored s (q ∷ qs) p leg off there)
        ]
  ]

  -- A question whose leg is stored after it.
  canonical-remembered :
      (s : Legs) (q p : Query) (qs : List Query)
      → is_hop q ≡ false
      → look_up s (key_of q) ≡ none
      → canonical (remember s (key_of q) (ask q)) qs p ≡ canonical s (q ∷ qs) p
  canonical-remembered s q p qs away absent =
      let law = look_up-remember s (key_of q) (key_of p) (ask q) in
      elim (Bool-cases (key_of q == key_of p)) [
        | inl same ↦
            let e = same_key q p same in
            let off = sym (same_hop q p e) ∙ away in
            let remembered : look_up (remember s (key_of q) (ask q)) (key_of p) ≡ some (ask q) =
              rw same at law in
            canonical-stored (remember s (key_of q) (ask q)) qs p (ask q) off remembered
            ∙ sym (canonical-first s q p qs off (ap (look_up s) (sym e) ∙ absent) same)
        | inr other ↦
            let unchanged : look_up (remember s (key_of q) (ask q)) (key_of p)
                ≡ look_up s (key_of p) =
              rw other at law in
            rw unchanged (canonical-skip s q p qs other)
      ]

  remember-Grows :
      (s : Legs) (q : Query) → look_up s (key_of q) ≡ none → Grows s (remember s (key_of q) (ask q))
  unfolding Grows Holds
  remember-Grows s q absent p leg (inl here) = inl here
  remember-Grows s q absent p leg (inr (away, stored)) =
      let law = look_up-remember s (key_of q) (key_of p) (ask q) in
      elim (Bool-cases (key_of q == key_of p)) [
        | inl same ↦ let gone = sym (ap (look_up s) (same_key q p same)) ∙ absent in absurd (cc)
        | inr other ↦ inr (away, law ∙ (rw other stored))
      ]

  cached_leg-Answered : (c : Cache Legs) (q : Query) → Answered c q
  unfolding Answered cached_leg on_absent Holds
  cached_leg-Answered c q = elim (Bool-cases (is_hop q)) [
    | inl here ↦ (
      c,
      rw (here, cached_leg) refl,
      inl (here, canonical-hop c.legs (q ∷ []) q here),
      grows_self c.legs,
      λ qs p. canonical-kept c.legs q p qs (inl here),
    )
    | inr away ↦ elim (Option-cases (look_up c.legs (key_of q))) [
      | inr (leg, stored) ↦
          let is_leg = canonical-stored c.legs (q ∷ []) q leg away stored in
          (
            record c { hits = suc c.hits },
            rw (away, stored, cached_leg) refl,
            inr (away, stored ∙ ap (λ x. some x) (sym is_leg)),
            grows_self c.legs,
            λ qs p. canonical-kept c.legs q p qs (inr (away, (leg, stored))),
          )
      | inl absent ↦
          let self = beq_self (key_of q) in
          let is_asked = canonical-first c.legs q q [] away absent self in
          let law = look_up-remember c.legs (key_of q) (key_of q) (ask q) in
          (
            record c { legs = remember c.legs (key_of q) (ask q); misses = suc c.misses },
            rw (away, absent, cached_leg, on_absent) (rw self refl),
            inr (away, law ∙ (rw self (ap (λ x. some x) (sym is_asked)))),
            remember-Grows c.legs q absent,
            λ qs p. canonical-remembered c.legs q p qs away absent,
          )
    ]
  ]
    where
      grows_self : (s : Legs) → Grows s s
      grows_self s = unfold Grows in λ p leg k. k

  -- Questions one after the other.
  pub cached_legs-answered :
      (c : Cache Legs) (qs : List Query)
      → (after : Cache Legs) × (cached_legs store geohash7 wall
            (some oracle)
            MissPolicy.compute
            c
            qs
          ≡ (some (map (canonical c.legs qs) qs), after))
        × All (λ q. Holds after.legs q (canonical c.legs qs q)) qs
        × Grows c.legs after.legs
  unfolding cached_legs Answered Grows
  cached_legs-answered c [] = (c, refl, tt, λ p leg k. k)
  cached_legs-answered c (q ∷ qs) =
      let (next, one, known, grows, later) = cached_leg-Answered c q in
      let (after, rest, all_known, more) = cached_legs-answered next qs in
      let head = ap (answer_as c.legs q) (first_self q qs) in
      let tail : canonical next.legs qs ≡ canonical c.legs (q ∷ qs) = fun_ext (λ p. later qs p) in
      (
        after,
        cached_legs-step store geohash7 wall (some oracle) MissPolicy.compute c next after q qs
            (canonical c.legs (q ∷ qs) q) (map (canonical c.legs (q ∷ qs)) qs)
            (subst
              (λ leg.
                cached_leg store geohash7 wall (some oracle) MissPolicy.compute c q
                ≡ (some leg, next))
              head one)
            (subst
              (λ f.
                cached_legs store geohash7 wall (some oracle) MissPolicy.compute next qs
                ≡ (some (map f qs), after))
              tail rest),
        (
          more q _ (subst (Holds next.legs q) head known),
          subst (λ f. All (λ p. Holds after.legs p (f p)) qs) tail all_known,
        ),
        λ p leg k. more p leg (grows p leg k),
      )
    where
      first_self : (q : Query) (qs : List Query) → first_alike (q ∷ []) q ≡ first_alike (q ∷ qs) q
      first_self q qs = rw (beq_self (key_of q)) refl

  -- The cache over any provider answers every question, and with a leg that goes by the question's cell
  -- and bucket: no drive for a hop inside one cell, the leg that was stored for the key, or else what
  -- the provider says to the first of the questions with that key, whatever the provider would say to
  -- the question itself.
  pub cached_legs-refines :
      (c : Cache Legs) (qs : List Query)
      → (after : Cache Legs) × (cached_legs store geohash7 wall
            (some oracle)
            MissPolicy.compute
            c
            qs
          ≡ (some (map (canonical c.legs qs) qs), after))
  cached_legs-refines c qs =
      let (after, run, known, more) = cached_legs-answered c qs in (after, run)
