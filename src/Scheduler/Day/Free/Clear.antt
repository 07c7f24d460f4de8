-- ===== src/Scheduler/Day/Free/Clear.antt =====
-- What an outage blocks of the day's minutes, against the moments that it takes.
use glass_guru.Base.{
  ℕ, ◌+◌, ◌≤◌, ◌<◌, ◌≡◌, ◌⊎◌, ◌↔◌, refl, false, none, some, List, [], ◌∷◌, max, All, Option-cases,
  Bool-cases, inl, inr, arith, ltb,
}
use glass_guru.Model.Units.{Moment, minutes}
use glass_guru.World.Outages.{Unavailability, covers}
use glass_guru.World.Queries.{is_out}
use glass_guru.Scheduler.Day.Free.{min, after, clamped, blocked}
use glass_guru.Scheduler.Day.Free.Scan.{IsApart, IsFree}

-- The outage begins when the day's minutes from `c` to before `d` are over, or it ends by their start.
abbrev pub IsClear : Moment → ℕ → ℕ → Unavailability → Type 0
IsClear day_start c d o =
    (day_start + minutes d ≤ o.from_time)
    ⊎ elim o.until_time [ none ↦ ⊥ | some until ↦ until ≤ day_start + minutes c ]

-- The outage has no end, or ends after it began, and on a minute of the day or before the day.
abbrev pub EndsOnMinute : Moment → Unavailability → Type 0
EndsOnMinute day_start o = elim o.until_time [
  | none ↦ Unit
  | some until ↦
      (o.from_time < until) × ((until ≤ day_start) ⊎ ((n : ℕ) × (until ≡ day_start + minutes n)))
]

module _ (start : Moment) where
  after-le : (m n : Moment) → m ≤ n → after start m ≤ after start n
  after-le m n h = omega arith

  after_by : (m : Moment) (c : ℕ) → m ≤ start + minutes c → after start m ≤ c
  after_by m c h = omega arith

  after_from : (m : Moment) (d : ℕ) → start + minutes d ≤ m → d ≤ after start m
  after_from m d h = omega arith

  from_after : (m : Moment) (b : ℕ) → 0 < b → b ≤ after start m → start + minutes b ≤ m
  from_after m b p h = omega arith

  by_after :
      (u : Moment) (a : ℕ)
      → (u ≤ start) ⊎ ((n : ℕ) × (u ≡ start + minutes n))
      → after start u ≤ a
      → u ≤ start + minutes a
  by_after u a (inl early) h = omega arith
  by_after u a (inr (n, e)) h = omega arith

  over_by :
      (u from : Moment) (a : ℕ)
      → from < u
      → (u ≤ start) ⊎ ((n : ℕ) × (u ≡ start + minutes n))
      → after start u ≤ after start from
      → u ≤ start + minutes a
  over_by u from a l (inl early) h = omega arith
  over_by u from a l (inr (n, e)) h = omega arith

-- What lies beside what is blocked of the span lies beside the outage.
beside :
    (s e a b f x : ℕ)
    → s ≤ a
    → a < b
    → b ≤ e
    → (ltb (max s f) (min e x) ≡ false) ⊎ IsApart a b (max s f, min e x)
    → (b ≤ f) ⊎ ((x ≤ a) ⊎ (x ≤ f))
beside s e a b f x l m n h = ground arith

module _ (start : Moment) (s e : ℕ) where
  IsClear-IsApart :
      (c d : ℕ) (o : Unavailability)
      → IsClear start c d o
      → (ltb (clamped start s e o).0 (clamped start s e o).1 ≡ false)
        ⊎ IsApart c d (clamped start s e o)
  unfolding clamped
  IsClear-IsApart c d o (inl later) =
      let far = after_from start o.from_time d later in inr (inr (omega arith))
  IsClear-IsApart c d o (inr ended) = elim (Option-cases o.until_time) [
    | inl endless ↦ absurd (rw endless at ended)
    | inr (u, there) ↦
        let near = after_by start u c (rw there at ended) in
        rw (there, clamped) (inr (ground arith))
  ]

  IsApart-IsClear :
      (a b : ℕ) (o : Unavailability)
      → s ≤ a
      → a < b
      → b ≤ e
      → e ≤ 1_440
      → EndsOnMinute start o
      → (ltb (clamped start s e o).0 (clamped start s e o).1 ≡ false)
        ⊎ IsApart a b (clamped start s e o)
      → IsClear start a b o
  unfolding clamped
  IsApart-IsClear a b o l m n day ends h = elim (Option-cases o.until_time) [
    | inl endless ↦
        let f = after start o.from_time in
        let far : b ≤ f = elim (beside s e a b f 1_440 l m n (rw endless at h)) [
          | inl x ↦ x
          | inr (inl x) ↦ absurd (omega arith)
          | inr (inr x) ↦ omega arith
        ] in
        inl (from_after start o.from_time b (omega arith) far)
    | inr (u, there) ↦
        let f = after start o.from_time in
        let on_minute = rw there at ends in
        elim (beside s e a b f (after start u) l m n (rw there at h)) [
          | inl x ↦ inl (from_after start o.from_time b (omega arith) x)
          | inr (inl x) ↦ inr (rw there (by_after start u a on_minute.1 x))
          | inr (inr x) ↦ inr (rw there (over_by start u o.from_time a on_minute.0 on_minute.1 x))
        ]
  ]

  -- What is clear of the outages is free of what they block, and the other way round.
  pub blocked-IsFree :
      (c d : ℕ) (os : List Unavailability)
      → All (IsClear start c d) os
      → IsFree c d (blocked start s e os)
  unfolding blocked
  blocked-IsFree c d [] h = tt
  blocked-IsFree c d (o ∷ os) h =
      elim (Bool-cases (ltb (clamped start s e o).0 (clamped start s e o).1)) [
        | inl some_time ↦ elim (IsClear-IsApart c d o h.0) [
          | inl no_time ↦ absurd (cc)
          | inr apart ↦ rw (some_time, blocked) (apart, blocked-IsFree c d os h.1)
        ]
        | inr no_time ↦ rw (no_time, blocked) (blocked-IsFree c d os h.1)
      ]

  pub blocked-IsClear :
      (a b : ℕ) (os : List Unavailability)
      → s ≤ a
      → a < b
      → b ≤ e
      → e ≤ 1_440
      → All (EndsOnMinute start) os
      → IsFree a b (blocked start s e os)
      → All (IsClear start a b) os
  unfolding blocked
  blocked-IsClear a b [] l m n day ends h = tt
  blocked-IsClear a b (o ∷ os) l m n day ends h =
      elim (Bool-cases (ltb (clamped start s e o).0 (clamped start s e o).1)) [
        | inl some_time ↦
            let (apart, rest) : IsApart a b (clamped start s e o)
                × IsFree a b (blocked start s e os) =
              rw (some_time, blocked) at h in
            (
              IsApart-IsClear a b o l m n day ends.0 (inr apart),
              blocked-IsClear a b os l m n day ends.1 rest,
            )
        | inr no_time ↦
            let rest : IsFree a b (blocked start s e os) = rw (no_time, blocked) at h in
            (
              IsApart-IsClear a b o l m n day ends.0 (inl no_time),
              blocked-IsClear a b os l m n day ends.1 rest,
            )
      ]

-- Nobody is out of a stretch exactly when each outage is clear of it.
covers_iff :
    (start : Moment) (a b : ℕ) (o : Unavailability)
    → (covers o (start + minutes a) (start + minutes b) ≡ false) ↔ IsClear start a b o
unfolding covers
covers_iff start a b o = elim (Option-cases o.until_time) [
  | inl endless ↦ rw (endless, covers) (ground arith)
  | inr (u, there) ↦ rw (there, covers) (ground arith)
]

pub is_out_iff :
    (start : Moment) (a b : ℕ) (os : List Unavailability)
    → (is_out os (start + minutes a) (start + minutes b) ≡ false) ↔ All (IsClear start a b) os
unfolding is_out
is_out_iff start a b [] = (λ h. tt, λ h. refl)
is_out_iff start a b (o ∷ os) = ground (arith, covers_iff start a b o, is_out_iff start a b os)
